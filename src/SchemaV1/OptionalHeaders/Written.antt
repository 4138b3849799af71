-- ===== src/SchemaV1/OptionalHeaders/Written.antt =====
-- What the encoder of the optional headers appends.
use libccnx_common.Prelude.{
  ℕ, ◌^◌, ◌≤◌, ◌<◌, ◌≡◌, refl, sym, ap, ◌∙◌, List, [], ◌++◌, length, length-append, append_assoc,
  append-nil, arith, true, ◌||◌, ok,
}
use libccnx_common.Network.{NetworkBuffer}
use libccnx_common.Network.Inv.{Grants, contents}
use libccnx_common.Network.Integers.{big_endian}
use libccnx_common.Errors.{CodecError}
use libccnx_common.Encoder.{TlvEncoder, compute_var_int_length}
use libccnx_common.Encoder.Appends.{tlv, IsAtEnd, Encodes, append_buffer-tlv}
use libccnx_common.Encoder.VarInt.{append_var_int-tlv}
use libccnx_common.Dictionary.{
  Values, Dictionary, Entry, unset, buffer, name, integer, io_vec, json, object, entry_at,
}
use libccnx_common.Dictionary.FastArray.{IsValid}
use libccnx_common.Dictionary.FastArray.Reads.{Reads-of_entry}
use libccnx_common.Dictionary.Lists.Views.{list_at}
use libccnx_common.Dictionary.Messages.{is_interest, is_interest_return}
use libccnx_common.Prelude.{pos}
use libccnx_common.Utilities.Fields.{tlvs}
use libccnx_common.Utilities.Custom.{entry_fields, HasShortBuffers, encode_custom_list-tlvs}
use libccnx_common.SchemaV1.{headers_intfrag, headers_interest_lifetime, lists_headers}
use libccnx_common.SchemaV1.OptionalHeaders.{
  interest_lifetime, interest_fragment, encode_present, encode_time, encode_frag,
  encode_interest_headers, encode_optional_headers,
}

module _ {V : Values} (bytes : V.Buffer → List ℕ) where
  -- The TLV of an entry: of a buffer its bytes, of an integer its shortest form, of anything else none.
  abbrev pub entry_tlv : ℕ → Entry V → List ℕ
  entry_tlv type (buffer b) = tlv type (bytes b)
  entry_tlv type (integer n) = tlv type (big_endian (compute_var_int_length n) n)
  entry_tlv type _ = []

  -- The same, of a buffer only.
  abbrev pub buffer_tlv : ℕ → Entry V → List ℕ
  buffer_tlv type (buffer b) = tlv type (bytes b)
  buffer_tlv type _ = []

  -- A buffer is short enough for its assertion, and an integer has 64 bits.
  abbrev pub FitsTlv : Entry V → Type 0
  FitsTlv (buffer b) = length (bytes b) ≤ 65535
  FitsTlv (integer n) = n < 2 ^ 64
  FitsTlv _ = Unit {0}

nothing :
    {U Signature : Type 0} (encoder : TlvEncoder U CodecError Signature)
    → IsAtEnd encoder.buffer
    → Encodes encoder [] (ok (encoder, 0))
nothing encoder v = (encoder.buffer, refl, v, sym (append-nil (contents encoder.buffer)))

module _ {V : Values} {U Signature : Type 0} (allocator : U → ℕ → List ℕ × U) (g : Grants allocator)
    (bytes : V.Buffer → List ℕ) where
  frag_lem :
      (encoder : TlvEncoder U CodecError Signature) (d : Dictionary V) (key type : ℕ) (e : Entry V)
      → IsAtEnd encoder.buffer
      → entry_at d key ≡ ok e
      → FitsTlv bytes e
      → Encodes encoder (buffer_tlv bytes type e) (encode_frag allocator bytes encoder d key type)
  unfolding encode_frag encode_present
  frag_lem encoder d key type (buffer b) v h f =
      rw (Reads-of_entry {d = d} {key = key} h).buffer
        (append_buffer-tlv allocator g encoder type (bytes b) v f)
  frag_lem encoder d key type unset v h f =
      rw (Reads-of_entry {d = d} {key = key} h).buffer (nothing encoder v)
  frag_lem encoder d key type (name n) v h f =
      rw (Reads-of_entry {d = d} {key = key} h).buffer (nothing encoder v)
  frag_lem encoder d key type (integer n) v h f =
      rw (Reads-of_entry {d = d} {key = key} h).buffer (nothing encoder v)
  frag_lem encoder d key type (io_vec n) v h f =
      rw (Reads-of_entry {d = d} {key = key} h).buffer (nothing encoder v)
  frag_lem encoder d key type (json n) v h f =
      rw (Reads-of_entry {d = d} {key = key} h).buffer (nothing encoder v)
  frag_lem encoder d key type (object n) v h f =
      rw (Reads-of_entry {d = d} {key = key} h).buffer (nothing encoder v)

  time_lem :
      (encoder : TlvEncoder U CodecError Signature) (d : Dictionary V) (key type : ℕ) (e : Entry V)
      → IsAtEnd encoder.buffer
      → entry_at d key ≡ ok e
      → FitsTlv bytes e
      → Encodes encoder (entry_tlv bytes type e) (encode_time allocator bytes encoder d key type)
  unfolding encode_time encode_present
  time_lem encoder d key type (integer n) v h f =
      let r = Reads-of_entry {d = d} {key = key} h in
      rw (r.has_integer, r.integer) (append_var_int-tlv allocator g encoder type n v f)
  time_lem encoder d key type (buffer b) v h f =
      let r = Reads-of_entry {d = d} {key = key} h in
      rw (r.has_integer, r.has_buffer, r.buffer)
        (append_buffer-tlv allocator g encoder type (bytes b) v f)
  time_lem encoder d key type unset v h f =
      let r = Reads-of_entry {d = d} {key = key} h in
      rw (r.has_integer, r.has_buffer) (nothing encoder v)
  time_lem encoder d key type (name n) v h f =
      let r = Reads-of_entry {d = d} {key = key} h in
      rw (r.has_integer, r.has_buffer) (nothing encoder v)
  time_lem encoder d key type (io_vec n) v h f =
      let r = Reads-of_entry {d = d} {key = key} h in
      rw (r.has_integer, r.has_buffer) (nothing encoder v)
  time_lem encoder d key type (json n) v h f =
      let r = Reads-of_entry {d = d} {key = key} h in
      rw (r.has_integer, r.has_buffer) (nothing encoder v)
  time_lem encoder d key type (object n) v h f =
      let r = Reads-of_entry {d = d} {key = key} h in
      rw (r.has_integer, r.has_buffer) (nothing encoder v)

  -- At the end of a valid buffer, with an allocator that grants what is asked for, the encoder of the optional headers of an
  -- Interest or an InterestReturn returns, and has appended the fragment if there is a buffer for it, then the
  -- lifetime as an integer or a buffer, then the list of the headers, the one put last first; it returns how many
  -- bytes they are. The dictionary is valid, its buffers have at most 65535 bytes and its integers 64 bits.
  pub encode_optional_headers-tlvs :
      (encoder : TlvEncoder U CodecError Signature) (d : Dictionary V) (frag life : Entry V)
      → IsValid d
      → (is_interest d || is_interest_return d) ≡ true
      → lists_headers < d.list_size
      → entry_at d headers_intfrag ≡ ok frag
      → entry_at d headers_interest_lifetime ≡ ok life
      → FitsTlv bytes frag
      → FitsTlv bytes life
      → HasShortBuffers bytes (list_at d lists_headers)
      → IsAtEnd encoder.buffer
      → (nb : NetworkBuffer U) × (ys : List ℕ) × (ys
          ≡ buffer_tlv bytes interest_fragment frag
            ++ (entry_tlv bytes interest_lifetime life
                ++ tlvs (entry_fields bytes (list_at d lists_headers))))
        × (encode_optional_headers allocator bytes encoder d
            ≡ ok (record encoder { buffer = nb }, pos (length ys)))
        × IsAtEnd nb
        × (contents nb ≡ contents encoder.buffer ++ ys)
  unfolding encode_optional_headers encode_interest_headers
  encode_optional_headers-tlvs encoder d frag life v i h a b f f' s w =
      let xs = buffer_tlv bytes interest_fragment frag in
      let ys = entry_tlv bytes interest_lifetime life in
      let zs = tlvs (entry_fields bytes (list_at d lists_headers)) in
      let (n1, q1, w1, t1) = frag_lem encoder d headers_intfrag interest_fragment frag w a f in
      let (n2, q2, w2, t2) =
        time_lem (record encoder { buffer = n1 }) d headers_interest_lifetime interest_lifetime life
          w1 b f' in
      let (n3, q3, w3, t3) =
        encode_custom_list-tlvs allocator g bytes (record encoder { buffer = n2 }) d lists_headers v
          h w2 s in
      let l = length-append xs (ys ++ zs) in
      let l' = length-append ys zs in
      (
        n3,
        xs ++ (ys ++ zs),
        refl,
        rw (i, q1, q2, q3)
            (ap (λ j. ok (record encoder { buffer = n3 }, pos j)) (omega (arith, l, l'))),
        w3,
        t3
            ∙ ap (λ c. c ++ zs) (t2 ∙ ap (λ c. c ++ ys) t1)
            ∙ append_assoc (contents encoder.buffer ++ xs) ys zs
            ∙ append_assoc (contents encoder.buffer) xs (ys ++ zs),
      )
