-- ===== src/SchemaV1/Names/Encodes.antt =====
-- What the encoder of names appends, and that the decoder reads it back.
use libccnx_common.Prelude.{
  ℕ, ◌+◌, ◌^◌, ◌≤◌, ◌<◌, ◌≡◌, sym, ap, subst, ◌∙◌, List, [], ◌∷◌, ◌++◌, map, length, length-append,
  drop, append_assoc, append-nil, arith, some, le→leb, ok,
}
use libccnx_common.Network.{NetworkBuffer}
use libccnx_common.Network
use libccnx_common.Network.Inv.{Grants, contents}
use libccnx_common.Network.Integers.{big_endian}
use libccnx_common.Encoder.{TlvEncoder, append_container, set_container_length, position}
use libccnx_common.Encoder.Appends.{tlv, IsAtEnd, Encodes, header_lem, append_buffer-tlv}
use libccnx_common.Encoder.Containers.{set_container_length-tlv}
use libccnx_common.Parc.{ParcBuffer, rest, IsLawful}
use libccnx_common.Decoder.{TlvDecoder}
use libccnx_common.Decoder.Tlv.{Gives}
use libccnx_common.Decoder.RoundTrip.{appended_rest}
use libccnx_common.Utilities.Fields.{tlvs, AreShort}
use libccnx_common.SchemaV1.Names.{
  NameSegment, encode_segment, encode_segments, encode_name, decode_name,
}
use libccnx_common.SchemaV1.Names.Decodes.{seen, AreNamed, decode_name-tlv}

-- The TLVs of the segments of a name.
abbrev pub segment_fields : {B : Type 0} → (B → List ℕ) → List (NameSegment B) → List (ℕ × List ℕ)
segment_fields bytes name = map (λ s. (s.type, bytes s.value)) name

-- The values are short enough for their assertion.
abbrev pub HasShortValues : {B : Type 0} → (B → List ℕ) → List (NameSegment B) → Type 0
HasShortValues bytes [] = Unit {0}
HasShortValues bytes (s ∷ name) = (length (bytes s.value) ≤ 65535) × HasShortValues bytes name

module _ {U Error Signature : Type 0} (allocator : U → ℕ → List ℕ × U) (g : Grants allocator) where
  -- The length of a container, set behind what was appended to its header.
  pub framed :
      (encoder : TlvEncoder U Error Signature) (type : ℕ) (inside : List ℕ) (b c : NetworkBuffer U)
      → IsAtEnd encoder.buffer
      → IsAtEnd c
      → contents b ≡ contents encoder.buffer ++ (big_endian 2 type ++ big_endian 2 0)
      → contents c ≡ contents b ++ inside
      → (d : NetworkBuffer U) × (set_container_length allocator
            (record encoder { buffer = c })
            encoder.buffer.position
            (length inside)
          ≡ ok (record encoder { buffer = d }))
        × IsAtEnd d
        × (contents d ≡ contents encoder.buffer ++ tlv type inside)
  framed encoder type inside b c v w s t =
      let all =
        t
        ∙ ap (λ r. r ++ inside) s
        ∙ append_assoc (contents encoder.buffer) (big_endian 2 type ++ big_endian 2 0) inside in
      let (d, q, x, y, u) =
        set_container_length-tlv allocator g (record encoder { buffer = c })
          (contents encoder.buffer) inside type 0 w.valid all in
      let old =
        ap length all
        ∙ length-append (contents encoder.buffer)
            (big_endian 2 type ++ (big_endian 2 0 ++ inside)) in
      let new = ap length u ∙ length-append (contents encoder.buffer) (tlv type inside) in
      (
        d,
        subst
            (λ i.
              set_container_length allocator (record encoder { buffer = c }) i (length inside)
              ≡ ok (record encoder { buffer = d }))
            (sym v.end) q,
        record { valid = x; end = omega (arith, y, w.end, old, new) },
        u,
      )

  module _ {B : Type 0} (bytes : B → List ℕ) where
    segments_end :
        (name : List (NameSegment B)) (encoder : TlvEncoder U Error Signature) (inner : ℕ)
        → IsAtEnd encoder.buffer
        → HasShortValues bytes name
        → (nb : NetworkBuffer U) × (encode_segments allocator bytes encoder name inner
            ≡ ok
                (record encoder { buffer = nb }, inner + length (tlvs (segment_fields bytes name))))
          × IsAtEnd nb
          × (contents nb ≡ contents encoder.buffer ++ tlvs (segment_fields bytes name))
    unfolding encode_segments encode_segment
    segments_end [] encoder inner v h = (
      encoder.buffer,
      ap (λ n. ok (encoder, n)) (omega arith),
      v,
      sym (append-nil (contents encoder.buffer)),
    )
    segments_end (s ∷ name) encoder inner v (h, hs) =
        let (a, q, w, t) = append_buffer-tlv allocator g encoder s.type (bytes s.value) v h in
        let first = tlv s.type (bytes s.value) in
        let (b, r, x, u) =
          segments_end name (record encoder { buffer = a }) (inner + length first) w hs in
        let l = length-append first (tlvs (segment_fields bytes name)) in
        (
          b,
          rw (le→leb (length (bytes s.value)) 65535 h, q)
              (r ∙ ap (λ n. ok (record encoder { buffer = b }, n)) (omega (arith, l))),
          x,
          u
              ∙ ap (λ c. c ++ tlvs (segment_fields bytes name)) t
              ∙ append_assoc (contents encoder.buffer) first (tlvs (segment_fields bytes name)),
        )

    -- At the end of a valid buffer, with an allocator that grants what is asked for, the encoder of names appends
    -- the TLV whose value is the TLVs of the segments, if the values have at most 65535 bytes each; nothing else of
    -- the encoder changes.
    pub encode_name-tlv :
        (encoder : TlvEncoder U Error Signature) (type : ℕ) (name : List (NameSegment B))
        → IsAtEnd encoder.buffer
        → HasShortValues bytes name
        → Encodes encoder
            (tlv type (tlvs (segment_fields bytes name)))
            (encode_name allocator bytes encoder type name)
    unfolding encode_name append_container position Network.position
    encode_name-tlv encoder type name v h =
        let (a, b, e, e', w, s) = header_lem allocator g encoder.buffer type 0 v in
        let (c, q, x, t) = segments_end name (record encoder { buffer = b }) 0 w h in
        let (d, r, y, u) = framed encoder type (tlvs (segment_fields bytes name)) b c v x s t in
        let q' =
          q
          ∙ ap (λ n. ok (record encoder { buffer = c }, n))
              {y = length (tlvs (segment_fields bytes name))} (omega arith) in
        (d, rw (e, e', q', r) (ap (λ n. ok (record encoder { buffer = d }, n)) (omega arith)), y, u)

module _ {U Error Signature B : Type 0} (allocator : U → ℕ → List ℕ × U) (g : Grants allocator)
    (P : ParcBuffer B) (bytes : B → List ℕ) (p : IsLawful P bytes) where
  -- If the encoder of names has appended a name at the end of a valid buffer, the types of the name and of its segments
  -- of 16 bits, those of the segments not zero, the values of at most 65535 bytes each, and the whole name of less than
  -- 65536, then the decoder of names, on a decoder of the appended bytes and with more rounds than segments, returns a
  -- name with the same types and bytes as its segments, in order, and has read the count that was returned.
  pub decode_name-encode_name :
      (encoder encoder' : TlvEncoder U Error Signature) (type count fuel : ℕ)
      (name : List (NameSegment B)) (decoder : TlvDecoder B)
      → IsAtEnd encoder.buffer
      → type < 2 ^ 16
      → HasShortValues (rest P bytes) name
      → AreShort (segment_fields (rest P bytes) name)
      → AreNamed (segment_fields (rest P bytes) name)
      → length (tlvs (segment_fields (rest P bytes) name)) < 2 ^ 16
      → length (segment_fields (rest P bytes) name) < fuel
      → encode_name allocator (rest P bytes) encoder type name ≡ ok (encoder', count)
      → rest P bytes decoder.buffer
        ≡ drop (length (contents encoder.buffer)) (contents encoder'.buffer)
      → (found : List (NameSegment B)) × Gives P bytes decoder count
          (some found)
          (decode_name P fuel decoder type)
        × (map (seen P bytes) found ≡ map (seen P bytes) name)
  decode_name-encode_name encoder encoder' type count fuel name decoder v h k s a m f q e =
      let fields = segment_fields (rest P bytes) name in
      let (t, n) =
        appended_rest encoder encoder' count (tlv type (tlvs fields)) _
          (encode_name-tlv allocator g (rest P bytes) encoder type name v k) q in
      let (found, r, w) = decode_name-tlv P bytes p type fields fuel decoder [] h m s a f (e ∙ t) in
      (
        found,
        subst (λ i. Gives P bytes decoder i (some found) (decode_name P fuel decoder type))
            (omega (arith, n)) r,
        w,
      )
