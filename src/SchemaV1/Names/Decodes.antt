-- ===== src/SchemaV1/Names/Decodes.antt =====
-- The decoder of names reads back the segments on the wire, and how far it reads.
use libccnx_common.Prelude.{
  ℕ, zero, suc, ◌+◌, ◌^◌, ◌<◌, ◌≡◌, refl, ap, subst, ◌∙◌, List, [], ◌∷◌, ◌++◌, map, length,
  length-append, drop, append_assoc, append-nil, arith, some, le→leb, lt→ltb, le→ltb, ==_refl, ok,
}
use libccnx_common.Network.Integers.{big_endian}
use libccnx_common.Encoder.Appends.{tlv}
use libccnx_common.Parc.{ParcBuffer, rest, IsAdvanced, IsLawful}
use libccnx_common.Parc.Laws.{
  advance_none, advance_both, rest-advanced, remaining-rest, remaining_two, read_lem,
}
use libccnx_common.Decoder.{TlvDecoder, ensure_remaining, get_type, get_length, position}
use libccnx_common.Decoder.Tlv.{Gives, header_lem, tlv_rest, get_value_lem}
use libccnx_common.Utilities.Fields.{tlvs, AreShort}
use libccnx_common.SchemaV1.Names.{
  NameSegment, label_create, create_type_value, segment_is_valid, name_append, decode_segment,
  decode_segments, decode_name_value, decode_name,
}

-- No type is that of a bad name.
abbrev pub AreNamed : List (ℕ × List ℕ) → Type 0
AreNamed [] = Unit {0}
AreNamed ((type, _) ∷ fields) = (0 < type) × AreNamed fields

label_create_lem : (type : ℕ) → 0 < type → type < 2 ^ 16 → label_create type ≡ some type
unfolding label_create
label_create_lem type h k = ground arith

create_type_value_lem :
    {B : Type 0} (type : ℕ) (value : B)
    → 0 < type
    → type < 2 ^ 16
    → create_type_value type value ≡ some (record { type = type; value = value })
unfolding create_type_value
create_type_value_lem type value h k = rw (label_create_lem type h k, create_type_value) refl

module _ {B : Type 0} (P : ParcBuffer B) (bytes : B → List ℕ) where
  -- The type of a segment, and the bytes of its value.
  abbrev pub seen : NameSegment B → ℕ × List ℕ
  seen segment = (segment.type, rest P bytes segment.value)

module _ {B : Type 0} (P : ParcBuffer B) (bytes : B → List ℕ) (p : IsLawful P bytes) where
  -- The type and the length, read.
  pub head_lem :
      (decoder : TlvDecoder B) (type n : ℕ) (more : List ℕ)
      → type < 2 ^ 16
      → n < 2 ^ 16
      → rest P bytes decoder.buffer ≡ big_endian 2 type ++ (big_endian 2 n ++ more)
      → (b : B) × (b' : B) × (get_type P decoder ≡ ok (type, record decoder { buffer = b }))
        × (get_length P (record decoder { buffer = b }) ≡ ok (n, record decoder { buffer = b' }))
        × IsAdvanced P bytes decoder.buffer 4 b'
        × (rest P bytes b' ≡ more)
  unfolding get_type get_length
  head_lem decoder type n more h k e =
      let (b, q, a, t) = read_lem P bytes p 2 P.get_uint16 decoder.buffer type _ p.reads_16 h e in
      let (b', q', a', t') = read_lem P bytes p 2 P.get_uint16 b n more p.reads_16 k t in
      (b, b', rw q refl, rw q' refl, advance_both P bytes decoder.buffer b b' 2 2 a a', t')

  pub decode_segment_lem :
      (decoder : TlvDecoder B) (type : ℕ) (value more : List ℕ)
      → 0 < type
      → type < 2 ^ 16
      → length value < 2 ^ 16
      → rest P bytes decoder.buffer ≡ tlv type value ++ more
      → (s : NameSegment B) × (b : B) × (decode_segment P decoder
          ≡ ok (some s, record decoder { buffer = b }))
        × (seen P bytes s ≡ (type, value))
        × IsAdvanced P bytes decoder.buffer (4 + length value) b
  unfolding decode_segment ensure_remaining
  decode_segment_lem decoder type value more g h k e =
      let e' = e ∙ tlv_rest P bytes p type value more in
      let (b, b', q, q', a, t) = head_lem decoder type (length value) _ h k e' in
      let (w, (c, r, a'), s, z) =
        get_value_lem P bytes p (record decoder { buffer = b' }) value more t in
      let m = remaining-rest P bytes p decoder.buffer ∙ ap length e' in
      let m' = remaining-rest P bytes p b' ∙ ap length t in
      (
        record { type = type; value = w },
        c,
        rw
            (
              le→leb 4 (P.remaining decoder.buffer) (omega (arith, m)),
              q,
              q',
              le→leb (length value) (P.remaining b') (omega (arith, m', length-append value more)),
              r,
              create_type_value_lem type w g h,
            )
            refl,
        ap (λ x. (type, x)) (ap (λ n. drop n (bytes w)) z ∙ s),
        advance_both P bytes decoder.buffer b' c 4 (length value) a a',
      )

  pub segments_lem :
      (fields : List (ℕ × List ℕ)) (fuel name_end : ℕ) (decoder : TlvDecoder B)
      (name : List (NameSegment B)) (more : List ℕ)
      → AreShort fields
      → AreNamed fields
      → length fields < fuel
      → name_end ≡ P.position decoder.buffer + length (tlvs fields)
      → rest P bytes decoder.buffer ≡ tlvs fields ++ more
      → (segments : List (NameSegment B)) × (b : B) × (decode_segments P fuel decoder name_end name
          ≡ ok (name ++ segments, record decoder { buffer = b }))
        × (map (seen P bytes) segments ≡ fields)
        × IsAdvanced P bytes decoder.buffer (length (tlvs fields)) b
  unfolding decode_segments position name_append segment_is_valid
  segments_lem fields zero name_end decoder name more s g h n e = absurd (omega arith)
  segments_lem [] (suc fuel) name_end decoder name more s g h n e = (
    [],
    decoder.buffer,
    rw (le→ltb (P.position decoder.buffer) name_end (omega (arith, n)), append-nil name) refl,
    refl,
    advance_none P bytes decoder.buffer,
  )
  segments_lem ((type, value) ∷ fields) (suc fuel) name_end decoder name more (x, y, s) (z0, g) h n
        e =
      let e' : rest P bytes decoder.buffer ≡ tlv type value ++ (tlvs fields ++ more) =
        e ∙ append_assoc (tlv type value) (tlvs fields) more in
      let l = length-append (tlv type value) (tlvs fields) in
      let (c, b, q, z, a) = decode_segment_lem decoder type value (tlvs fields ++ more) z0 x y e' in
      let t =
        rest-advanced P bytes decoder.buffer b (4 + length value) (tlv type value)
          (tlvs fields ++ more) a (omega arith) e' in
      let (segments, b', r, w, a') =
        segments_lem fields fuel name_end (record decoder { buffer = b }) (name ++ (c ∷ [])) more s
          g (omega arith) (omega (arith, n, a.at, l)) t in
      (
        c ∷ segments,
        b',
        rw (lt→ltb (P.position decoder.buffer) name_end (omega (arith, n, l)), q)
            (r
              ∙ ap (λ v. ok (v, record decoder { buffer = b' }))
                  (append_assoc name (c ∷ []) segments)),
        ap (λ v. v ∷ map (seen P bytes) segments) z ∙ ap (λ v. (type, value) ∷ v) w,
        subst (λ k. IsAdvanced P bytes decoder.buffer k b') (omega (arith, l))
            (advance_both P bytes decoder.buffer b b' (4 + length value) (length (tlvs fields)) a
              a'),
      )

  -- If the next bytes of a decoder are TLVs whose types are not zero and, as the lengths, of 16 bits, there are more rounds than
  -- these, and the length is that of all of them, then the decoder of a name's value returns the name with the
  -- types and the bytes of the TLVs as its segments, in order, and the decoder is behind them.
  pub decode_name_value-tlvs :
      (fields : List (ℕ × List ℕ)) (fuel : ℕ) (decoder : TlvDecoder B) (more : List ℕ)
      → AreShort fields
      → AreNamed fields
      → length fields < fuel
      → rest P bytes decoder.buffer ≡ tlvs fields ++ more
      → (segments : List (NameSegment B)) × Gives P bytes decoder
          (length (tlvs fields))
          (some segments)
          (decode_name_value P fuel decoder (length (tlvs fields)))
        × (map (seen P bytes) segments ≡ fields)
  unfolding decode_name_value ensure_remaining position
  decode_name_value-tlvs fields fuel decoder more s g h e =
      let m = remaining_two P bytes p decoder.buffer (tlvs fields) more e in
      let (segments, b, q, w, a) = segments_lem fields fuel _ decoder [] more s g h refl e in
      (
        segments,
        (
          b,
          rw (le→leb (length (tlvs fields)) (P.remaining decoder.buffer) (omega arith), q) refl,
          a,
        ),
        w,
      )

  -- If the first segment of a name, with a type that is not zero and, as the length, of 16 bits, goes on behind the end
  -- of the name's value, which is not empty, but not behind the bytes that are left, and there are two rounds, then the
  -- decoder of a name's value returns a name with this whole segment, and the decoder is behind it, further than the
  -- length that was asked for.
  pub decode_name_value-overrun :
      (type : ℕ) (value more : List ℕ) (n fuel : ℕ) (decoder : TlvDecoder B)
      → 0 < type
      → type < 2 ^ 16
      → length value < 2 ^ 16
      → 0 < n
      → n < 4 + length value
      → rest P bytes decoder.buffer ≡ tlv type value ++ more
      → (s : NameSegment B) × Gives P bytes decoder
          (4 + length value)
          (some (s ∷ []))
          (decode_name_value P (suc (suc fuel)) decoder n)
        × (seen P bytes s ≡ (type, value))
  unfolding decode_name_value decode_segments ensure_remaining position name_append segment_is_valid
  decode_name_value-overrun type value more n fuel decoder g h k l m e =
      let (s, b, q, z, a) = decode_segment_lem decoder type value more g h k e in
      let r = remaining_two P bytes p decoder.buffer (tlv type value) more e in
      (
        s,
        (
          b,
          rw
              (
                le→leb n (P.remaining decoder.buffer) (omega arith),
                lt→ltb (P.position decoder.buffer) (P.position decoder.buffer + n) (omega arith),
                q,
                le→ltb (P.position b) (P.position decoder.buffer + n) (omega (arith, a.at)),
              )
              refl,
          a,
        ),
        z,
      )

  -- The same behind the type and the length of the name.
  pub decode_name-tlv :
      (type : ℕ) (fields : List (ℕ × List ℕ)) (fuel : ℕ) (decoder : TlvDecoder B) (more : List ℕ)
      → type < 2 ^ 16
      → length (tlvs fields) < 2 ^ 16
      → AreShort fields
      → AreNamed fields
      → length fields < fuel
      → rest P bytes decoder.buffer ≡ tlv type (tlvs fields) ++ more
      → (segments : List (NameSegment B)) × Gives P bytes decoder
          (4 + length (tlvs fields))
          (some segments)
          (decode_name P fuel decoder type)
        × (map (seen P bytes) segments ≡ fields)
  unfolding decode_name ensure_remaining
  decode_name-tlv type fields fuel decoder more h k s g f e =
      let e' = e ∙ tlv_rest P bytes p type (tlvs fields) more in
      let (b, b', b'', q, q', q'', a, t) =
        header_lem P bytes p decoder type (length (tlvs fields)) (tlvs fields ++ more) h k e' in
      let (segments, (c, r, a'), w) =
        decode_name_value-tlvs fields fuel (record decoder { buffer = b'' }) more s g f t in
      let m = remaining-rest P bytes p decoder.buffer ∙ ap length e' in
      (
        segments,
        (
          c,
          rw (le→leb 4 (P.remaining decoder.buffer) (omega (arith, m)), q, ==_refl type, q', q'', r)
              refl,
          advance_both P bytes decoder.buffer b'' c 4 (length (tlvs fields)) a a',
        ),
        w,
      )
