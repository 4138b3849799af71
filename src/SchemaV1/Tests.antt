-- ===== src/SchemaV1/Tests.antt =====
-- The theorems on the codecs of the schema at concrete inputs.
use libccnx_common.Prelude.{
  ℕ, ◌≡◌, refl, sym, ap, List, [], ◌∷◌, ◌++◌, map, length, replicate, arith, Bool, true, false,
  drop, Option, some, none, ok, trap, inl,
}
use libccnx_common.Network.{NetworkBuffer}
use libccnx_common.Network.Inv.{contents}
use libccnx_common.Encoder.{compute_var_int_length}
use libccnx_common.Encoder.Appends.{IsAtEnd, append_buffer-tlv}
use libccnx_common.Encoder.Fixture.{zeros, zeros-Grants, start, two_bytes_buffer-IsAtEnd}
use libccnx_common.Errors.{CodecError, err_version, err_decode}
use libccnx_common.Parc.{rest, IsAdvanced}
use libccnx_common.Parc.Zipper.{Zipper, zipper, zipper_bytes, zipper-IsLawful}
use libccnx_common.Decoder.{TlvDecoder}
use libccnx_common.Decoder.Tlv.{Gives}
use libccnx_common.Dictionary.{Values, Dictionary, create, unset, integer, interest}
use libccnx_common.Dictionary.Messages.{is_interest, is_interest_return}
use libccnx_common.Dictionary.FastArray.{IsValid, create-IsValid, with_slot}
use libccnx_common.Prelude.{pos}
use libccnx_common.SchemaV1.FixedHeader.{FixedHeader, for_type, header_bytes, decode}
use libccnx_common.SchemaV1.FixedHeader.Reads.{IsFresh, with_header}
use libccnx_common.SchemaV1.FixedHeader.Refusals.{HasError, decode-fault_of}
use libccnx_common.SchemaV1.FixedHeader.RoundTrip.{
  HoldsHeader, encode_header_lem, decode-encode_header,
}
use libccnx_common.SchemaV1.CryptoSuites.{ParcCryptoHashType, hash_sha256}
use libccnx_common.SchemaV1.Hashes.{encode_hash, decode_hash_value, wire_hash, valid_hash_size}
use libccnx_common.SchemaV1.Hashes.Laws.{decode_hash_value-encode_hash}
use libccnx_common.SchemaV1.Links.{decode_link_value}
use libccnx_common.SchemaV1.Links.Reads.{decode_link_value-behind}
use libccnx_common.SchemaV1.Message.{decode_message}
use libccnx_common.SchemaV1.Message.BadNames.{decode_message-bad_name}
use libccnx_common.SchemaV1.Names.{NameSegment, decode_name, decode_name_value}
use libccnx_common.SchemaV1.Names.Decodes.{seen, decode_name_value-overrun}
use libccnx_common.SchemaV1.Names.Encodes.{encode_name-tlv, decode_name-encode_name}
use libccnx_common.SchemaV1.OptionalHeaders.{decode_optional_headers, encode_optional_headers}
use libccnx_common.SchemaV1.OptionalHeaders.Safety.{IsReady, decode_optional_headers-returns}
use libccnx_common.SchemaV1.OptionalHeaders.Written.{encode_optional_headers-tlvs}

-- A decoder of these bytes.
abbrev over : List ℕ → TlvDecoder Zipper
over xs = record { buffer = ([], xs); error = none }

-- Names are lists of segments, hashes are a kind and a digest.
abbrev values : Values
values = record {
  Buffer = Zipper;
  Name = List (NameSegment Zipper);
  IoVec = Unit {0};
  Json = Unit {0};
  Object = ParcCryptoHashType × Zipper;
  buffer_equals = λ a b. false;
  name_equals = λ a b. false;
  io_vec_equals = λ a b. true;
  json_equals = λ a b. true;
  object_equals = λ a b. false;
}

abbrev empty : Dictionary values
empty = create values 34 7

empty-IsFresh : IsFresh empty
unfolding create
empty-IsFresh = record {
  valid = create-IsValid values 34 7 (omega arith) (omega arith);
  header = refl;
  hoplimit = refl;
  return_code = refl;
}

-- A header of an Interest with 3 bytes of optional headers, hop limit 32.
abbrev header : FixedHeader
header = record {
  version = 1;
  packet_type = 0;
  packet_length = 300;
  hop_limit = 32;
  return_code = 7;
  flags = 0;
  header_length = 11;
}

decode-encode_header_example :
    (c : Zipper) × (d' : Dictionary values) × (decode zipper
        (over (1 ∷ 0 ∷ 1 ∷ 44 ∷ 32 ∷ 0 ∷ 0 ∷ 11 ∷ []))
        empty
      ≡ ok (true, record { buffer = c; error = none }, d'))
    × IsAdvanced zipper zipper_bytes ([], 1 ∷ 0 ∷ 1 ∷ 44 ∷ 32 ∷ 0 ∷ 0 ∷ 11 ∷ []) 8 c
    × HoldsHeader zipper d' (for_type header)
unfolding for_type header_bytes
decode-encode_header_example =
    let (nb, q, _, s) =
      encode_header_lem {Error = ℕ} {Signature = ℕ} zeros zeros-Grants start header
        two_bytes_buffer-IsAtEnd refl in
    decode-encode_header zipper zipper_bytes zipper-IsLawful zeros zeros-Grants start
      (record start { buffer = nb }) 8 header (over (1 ∷ 0 ∷ 1 ∷ 44 ∷ 32 ∷ 0 ∷ 0 ∷ 11 ∷ [])) empty
      two_bytes_buffer-IsAtEnd empty-IsFresh refl (omega arith) (omega arith) (omega arith) q
      (sym (ap (λ c. drop 2 c) s))

decode-fault_of_example :
    (decoder' : TlvDecoder Zipper) × (b : Zipper) × (decode zipper
        (over (2 ∷ 0 ∷ 1 ∷ 44 ∷ 32 ∷ 0 ∷ 0 ∷ 11 ∷ []))
        empty
      ≡ ok (false, decoder', with_header empty b 32 0))
    × HasError decoder' (err_version, 0)
    × IsAdvanced zipper zipper_bytes ([], 2 ∷ 0 ∷ 1 ∷ 44 ∷ 32 ∷ 0 ∷ 0 ∷ 11 ∷ []) 8 decoder'.buffer
decode-fault_of_example =
    decode-fault_of zipper zipper_bytes zipper-IsLawful
      (over (2 ∷ 0 ∷ 1 ∷ 44 ∷ 32 ∷ 0 ∷ 0 ∷ 11 ∷ [])) empty 2 0 1 44 32 0 0 11 [] (err_version, 0)
      empty-IsFresh refl refl refl

-- The name of one segment, of type 1 with two bytes.
abbrev one_segment : List (NameSegment Zipper)
one_segment = record { type = 1; value = ([], 8 ∷ 9 ∷ []) } ∷ []

abbrev name_bytes : List ℕ
name_bytes = 0 ∷ 0 ∷ 0 ∷ 6 ∷ 0 ∷ 1 ∷ 0 ∷ 2 ∷ 8 ∷ 9 ∷ []

decode_name-encode_name_example :
    (found : List (NameSegment Zipper)) × Gives zipper zipper_bytes
      (over name_bytes)
      10
      (some found)
      (decode_name zipper 2 (over name_bytes) 0)
    × (map (seen zipper zipper_bytes) found ≡ (1, 8 ∷ 9 ∷ []) ∷ [])
decode_name-encode_name_example =
    let (nb, q, _, s) =
      encode_name-tlv {Error = ℕ} {Signature = ℕ} zeros zeros-Grants (rest zipper zipper_bytes)
        start 0 one_segment two_bytes_buffer-IsAtEnd (omega arith) in
    decode_name-encode_name zeros zeros-Grants zipper zipper_bytes zipper-IsLawful start
      (record start { buffer = nb }) 0 10 2 one_segment (over name_bytes) two_bytes_buffer-IsAtEnd
      (omega arith) (omega arith) (omega arith) (omega arith) (omega arith) (omega arith) q
      (sym (ap (λ c. drop 2 c) s))

decode_name_value-overrun_example :
    (s : NameSegment Zipper) × Gives zipper zipper_bytes
      (over (0 ∷ 1 ∷ 0 ∷ 2 ∷ 8 ∷ 9 ∷ []))
      6
      (some (s ∷ []))
      (decode_name_value zipper 2 (over (0 ∷ 1 ∷ 0 ∷ 2 ∷ 8 ∷ 9 ∷ [])) 4)
    × (seen zipper zipper_bytes s ≡ (1, 8 ∷ 9 ∷ []))
decode_name_value-overrun_example =
    decode_name_value-overrun zipper zipper_bytes zipper-IsLawful 1 (8 ∷ 9 ∷ []) [] 4 0
      (over (0 ∷ 1 ∷ 0 ∷ 2 ∷ 8 ∷ 9 ∷ [])) (omega arith) (omega arith) (omega arith) (omega arith)
      (omega arith) refl

-- The link of that name, and behind it a TLV of type 15.
abbrev link_bytes : List ℕ
link_bytes = name_bytes ++ (0 ∷ 15 ∷ 0 ∷ 1 ∷ 7 ∷ [])

decode_link_value-behind_example :
    (decoder' : TlvDecoder Zipper) × (error : CodecError) × (decode_link_value zipper 2
        (over link_bytes)
        10
      ≡ ok (none, decoder'))
    × (decoder'.error ≡ some error)
    × (error.code ≡ err_decode)
decode_link_value-behind_example =
    decode_link_value-behind zipper zipper_bytes zipper-IsLawful ((1, 8 ∷ 9 ∷ []) ∷ []) 15 2
      (7 ∷ []) [] (over link_bytes) (omega arith) (omega arith) (omega arith) (omega arith)
      (omega arith) (omega arith) (omega arith) (omega arith) refl refl

-- A name of one segment, and a segment of type zero behind it.
decode_message-bad_name_example :
    decode_message zipper
      (λ name. name)
      (λ kind b. (kind, b))
      3
      (over (0 ∷ 0 ∷ 0 ∷ 11 ∷ 0 ∷ 1 ∷ 0 ∷ 2 ∷ 8 ∷ 9 ∷ 0 ∷ 0 ∷ 0 ∷ 1 ∷ 7 ∷ []))
      empty
    ≡ trap
decode_message-bad_name_example =
    decode_message-bad_name zipper zipper_bytes zipper-IsLawful (λ name. name) (λ kind b. (kind, b))
      ((1, 8 ∷ 9 ∷ []) ∷ []) (0 ∷ 0 ∷ 0 ∷ 1 ∷ 7 ∷ []) 2
      (over (0 ∷ 0 ∷ 0 ∷ 11 ∷ 0 ∷ 1 ∷ 0 ∷ 2 ∷ 8 ∷ 9 ∷ 0 ∷ 0 ∷ 0 ∷ 1 ∷ 7 ∷ [])) empty (omega arith)
      (omega arith) (inl (7 ∷ [], [], omega arith, refl)) (omega arith) (omega arith) refl

empty-IsReady : IsReady empty
unfolding create
empty-IsReady = record {
  valid = create-IsValid values 34 7 (omega arith) (omega arith);
  keys = omega arith;
  lists = omega arith;
}

-- A lifetime, and a header that is cut off.
decode_optional_headers-returns_example :
    (s : Bool) × (decoder' : TlvDecoder Zipper) × (d' : Dictionary values)
    × (decode_optional_headers zipper 9 (over (0 ∷ 1 ∷ 0 ∷ 1 ∷ 5 ∷ 0 ∷ 9 ∷ 0 ∷ [])) empty
        ≡ ok (s, decoder', d'))
    × IsReady d'
decode_optional_headers-returns_example =
    decode_optional_headers-returns zipper zipper_bytes zipper-IsLawful 9
      (over (0 ∷ 1 ∷ 0 ∷ 1 ∷ 5 ∷ 0 ∷ 9 ∷ 0 ∷ [])) empty empty-IsReady (omega arith)

-- An Interest with a lifetime.
abbrev with_lifetime : Dictionary values
with_lifetime = with_slot (record empty { dictionary_type = interest }) 6 (integer 258)

with_lifetime-IsValid : IsValid with_lifetime
unfolding create
with_lifetime-IsValid = record {
  fixed = refl;
  extra = refl;
  slots = refl;
  fits = omega arith;
  few = omega arith;
}

encode_optional_headers-tlvs_example :
    (nb : NetworkBuffer (Unit {0})) × (ys : List ℕ) × (ys ≡ 0 ∷ 1 ∷ 0 ∷ 2 ∷ 1 ∷ 2 ∷ [])
    × (encode_optional_headers zeros zipper_bytes start with_lifetime
        ≡ ok (record start { buffer = nb }, pos (length ys)))
    × IsAtEnd nb
    × (contents nb ≡ 1 ∷ 2 ∷ ys)
unfolding create is_interest is_interest_return compute_var_int_length
encode_optional_headers-tlvs_example =
    encode_optional_headers-tlvs zeros zeros-Grants zipper_bytes start with_lifetime unset
      (integer 258) with_lifetime-IsValid refl (omega arith) refl refl tt (omega arith) tt
      two_bytes_buffer-IsAtEnd

-- A SHA256 digest.
abbrev digest : List ℕ
digest = replicate 32 (length {A = ℕ} (1 ∷ 2 ∷ []))

abbrev hash : ParcCryptoHashType × Zipper
hash = (hash_sha256, ([], digest))

decode_hash_value-encode_hash_example :
    (w : Zipper) × Gives {A = Option (ParcCryptoHashType × Zipper)} zipper zipper_bytes
      (over (0 ∷ 1 ∷ 0 ∷ 32 ∷ digest))
      36
      (some (hash_sha256, w))
      (decode_hash_value zipper (λ kind b. (kind, b)) (over (0 ∷ 1 ∷ 0 ∷ 32 ∷ digest)) 36)
    × (rest zipper zipper_bytes w ≡ digest)
unfolding encode_hash wire_hash valid_hash_size
decode_hash_value-encode_hash_example =
    let (nb, q, _, s) =
      append_buffer-tlv {Error = CodecError} {Signature = ℕ} zeros zeros-Grants start 1 digest
        two_bytes_buffer-IsAtEnd (omega arith) in
    decode_hash_value-encode_hash zeros zeros-Grants zipper zipper_bytes zipper-IsLawful
      (λ kind b. (kind, b)) (λ h. h.1) (λ h. h.0) start (record start { buffer = nb }) hash 36 36
      (over (0 ∷ 1 ∷ 0 ∷ 32 ∷ digest)) two_bytes_buffer-IsAtEnd refl (omega arith) (omega arith)
      (rw q refl) (sym (ap (λ c. drop 2 c) s))
