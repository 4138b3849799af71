-- ===== src/SchemaV1/Links.antt =====
-- ccnx/common/codec/schema_v1/ccnxCodecSchemaV1_LinkCodec.c: a link is a name, with a key id and a hash of the
-- content object that may be absent.
pub mod Reads
use libccnx_common.Prelude.{
  ℕ, zero, suc, ◌+◌, Bool, true, false, List, Option, none, some, ◌==◌, if◌then◌else◌, Result, ok,
  stuck, ◌>>=◌,
}
use libccnx_common.Parc.{ParcBuffer}
use libccnx_common.Errors.{
  ErrorCode, CodecError, err_no_error, err_duplicate_field, err_decode, err_too_long,
  missing_mandatory,
}
use libccnx_common.Errors
use libccnx_common.Decoder.{
  TlvDecoder, ensure_remaining, get_type, get_length, get_value, set_error, position,
}
use libccnx_common.Encoder.{TlvEncoder, append_buffer}
use libccnx_common.Encoder
use libccnx_common.Prelude.{ℤ, pos, negsuc}
use libccnx_common.SchemaV1.Names.{NameSegment, encode_name, decode_name_value}

-- The members of a CCNxLink, and of a `_DecodedLink`. A NULL is `none`.
pub record Link (B : Type 0) : Type 0 where
  pub link_name : Option (List (NameSegment B))
  pub key_id : Option B
  pub link_hash : Option B

module _ {B U Signature : Type 0} (allocator : U → ℕ → List ℕ × U) (bytes : B → List ℕ) where
  -- A part that may be absent: `if (keyid) { length += ccnxCodecTlvEncoder_AppendBuffer(...); }`
  unfoldable pub encode_part :
      TlvEncoder U CodecError Signature
      → ℕ
      → Option B
      → ℕ
      → Result (TlvEncoder U CodecError Signature × ℕ)
  encode_part encoder type none length = ok (encoder, length)
  encode_part encoder type (some b) length = do
    (encoder', n) ← append_buffer allocator encoder type (bytes b)
    ok (encoder', length + n)

  unfoldable pub encode_link :
      TlvEncoder U CodecError Signature → Link B → Result (TlvEncoder U CodecError Signature × ℤ)
  encode_link encoder link = elim link.link_name [
    | some name ↦ (do
      (encoder1, length1) ← encode_name allocator bytes encoder 0 name
      (encoder2, length2) ← encode_part encoder1 1 link.key_id length1
      (encoder3, length3) ← encode_part encoder2 2 link.link_hash length2
      ok (encoder3, pos length3))
    | none ↦ ok (
      (Encoder.set_error encoder (
          Errors.create missing_mandatory "ccnxCodecSchemaV1LinkCodec_Encode" 96
            (Encoder.position encoder))).0,
      negsuc 0,
    )
  ]

module _ {B : Type 0} (P : ParcBuffer B) where
  unfoldable pub decode_link_name :
      ℕ → TlvDecoder B → Link B → ℕ → Result (ErrorCode × TlvDecoder B × Link B)
  decode_link_name fuel decoder link length = elim link.link_name [
    | none ↦ (do
      (name, d) ← decode_name_value P fuel decoder length
      ok (err_no_error, d, record link { link_name = name }))
    | some n ↦ ok (err_duplicate_field, decoder, link)
  ]

  unfoldable pub decode_key_id :
      TlvDecoder B → Link B → ℕ → Result (ErrorCode × TlvDecoder B × Link B)
  decode_key_id decoder link length = elim link.key_id [
    | none ↦ (do
      (value, d) ← get_value P decoder length
      ok (err_no_error, d, record link { key_id = value }))
    | some b ↦ ok (err_duplicate_field, decoder, link)
  ]

  unfoldable pub decode_link_hash :
      TlvDecoder B → Link B → ℕ → Result (ErrorCode × TlvDecoder B × Link B)
  decode_link_hash decoder link length = elim link.link_hash [
    | none ↦ (do
      (value, d) ← get_value P decoder length
      ok (err_no_error, d, record link { link_hash = value }))
    | some b ↦ ok (err_duplicate_field, decoder, link)
  ]

  unfoldable pub decode_field :
      ℕ → TlvDecoder B → Link B → Result (ErrorCode × TlvDecoder B × Link B)
  decode_field fuel decoder link = do
    (type, d) ← get_type P decoder
    (length, d') ← get_length P d
    if ensure_remaining P d' length
        then (if type == 0
            then decode_link_name fuel d' link length
            else (if type == 1
                then decode_key_id d' link length
                else (if type == 2
                    then decode_link_hash d' link length
                    else ok (err_decode, d', link))))
        else ok (err_too_long, d', link)

  -- `while (errorCode == TLV_ERR_NO_ERROR && ccnxCodecTlvDecoder_EnsureRemaining(decoder, 4))`, in `rounds` at most.
  unfoldable pub decode_fields :
      ℕ → ℕ → TlvDecoder B → Link B → Result (ErrorCode × TlvDecoder B × Link B)
  decode_fields fuel zero decoder link = stuck
  decode_fields fuel (suc rounds) decoder link =
      if ensure_remaining P decoder 4
      then (do
        (code, d, link') ← decode_field fuel decoder link
        elim code [
          | err_no_error ↦ decode_fields fuel rounds d link'
          | other ↦ ok (other, d, link')
        ])
      else ok (err_no_error, decoder, link)

  abbrev no_link : Link B
  no_link = record { link_name = none; key_id = none; link_hash = none }

  -- The errors set the decoder's error, and there is no link.
  unfoldable pub finish_link : ErrorCode → TlvDecoder B → Link B → Option (Link B) × TlvDecoder B
  finish_link err_no_error decoder link = elim link.link_name [
    | none ↦ (
      none,
      (set_error decoder (
          Errors.create err_decode "ccnxCodecSchemaV1LinkCodec_DecodeValue" 195
            (position P decoder))).0,
    )
    | some n ↦ (some link, decoder)
  ]
  finish_link code decoder link = (
    none,
    (set_error decoder
        (Errors.create code "ccnxCodecSchemaV1LinkCodec_DecodeValue" 195 (position P decoder))).0,
  )

  unfoldable pub decode_link_value : ℕ → TlvDecoder B → ℕ → Result (Option (Link B) × TlvDecoder B)
  decode_link_value fuel decoder link_length =
      if ensure_remaining P decoder link_length
      then (do
        (code, d, link) ← decode_fields fuel fuel decoder no_link
        ok (finish_link code d link))
      else ok (finish_link err_too_long decoder no_link)
