-- ===== src/SchemaV1/Hashes.antt =====
-- ccnx/common/codec/schema_v1/ccnxCodecSchemaV1_HashCodec.c: hashes, with their kind as the type of a TLV.
--
-- A PARCCryptoHash belongs to another library: how one is made, and its kind and digest, are parameters.
pub mod Laws
use libccnx_common.Prelude.{
  ℕ, zero, suc, Bool, true, false, List, [], ◌∷◌, Option, none, some, length, ltb, ◌==◌,
  if◌then◌else◌, Result, ok, fault, ◌>>=◌,
}
use libccnx_common.Parc.{ParcBuffer}
use libccnx_common.Errors.{CodecError, missing_mandatory}
use libccnx_common.Errors
use libccnx_common.Decoder.{
  TlvDecoder, ensure_remaining, get_type, get_length, get_value, set_error, position,
}
use libccnx_common.Encoder.{TlvEncoder, append_buffer}
use libccnx_common.Encoder
use libccnx_common.Prelude.{ℤ, pos, negsuc}
use libccnx_common.SchemaV1.CryptoSuites.{
  ParcCryptoHashType, hash_sha256, hash_sha512, hash_crc32c, hash_null, hash_other,
}

-- `_PARCCryptoHashType_SHA256_Sizes` and `_PARCCryptoHashType_SHA512_Sizes`
abbrev pub sha256_sizes : List ℕ
sha256_sizes = 32 ∷ []

abbrev pub sha512_sizes : List ℕ
sha512_sizes = 32 ∷ 64 ∷ []

unfoldable pub valid_hash_size : ℕ → List ℕ → Bool
valid_hash_size size [] = false
valid_hash_size size (s ∷ sizes) =
    let later = valid_hash_size size sizes in if s == size then true else later

-- The type on the wire, and whether the digest has a size of the kind.
unfoldable pub wire_hash : ParcCryptoHashType → ℕ → ℕ × Bool
wire_hash hash_sha256 size = (1, valid_hash_size size sha256_sizes)
wire_hash hash_sha512 size = (2, valid_hash_size size sha512_sizes)
wire_hash other size = (3, true)

unfoldable pub valid_hash : ℕ → ℕ → Bool
valid_hash hash_type hash_size =
    if hash_type == 1
    then valid_hash_size hash_size sha256_sizes
    else (if hash_type == 2 then valid_hash_size hash_size sha512_sizes else true)

-- The switch of DecodeValue.
unfoldable pub kind_of : ℕ → Option ParcCryptoHashType
kind_of hash_type =
    if hash_type == 1
    then some hash_sha256
    else (if hash_type == 2
        then some hash_sha512
        else (if hash_type == 3 then some hash_null else none))

module _ {H B U Signature : Type 0} (allocator : U → ℕ → List ℕ × U) (bytes : B → List ℕ)
    (get_digest : H → B) (get_digest_type : H → ParcCryptoHashType) where
  unfoldable pub encode_hash :
      TlvEncoder U CodecError Signature → H → Result (TlvEncoder U CodecError Signature × ℤ)
  encode_hash encoder hash =
      let digest = bytes (get_digest hash) in
      let wire = wire_hash (get_digest_type hash) (length digest) in
      if wire.1
      then (do (encoder', n) ← append_buffer allocator encoder wire.0 digest; ok (encoder', pos n))
      else ok (
        (Encoder.set_error encoder (
            Errors.create missing_mandatory "ccnxCodecSchemaV1HashCodec_Encode" 120
              (Encoder.position encoder))).0,
        negsuc 0,
      )

module _ {H B : Type 0} (P : ParcBuffer B) (hash_create : ParcCryptoHashType → B → H) where
  -- `parcCryptoHash_Create` for the type; a hash whose size is not one of its kind is released again.
  unfoldable pub make_hash : ℕ → ℕ → Option B → Option H
  make_hash hash_type length none = none
  make_hash hash_type length (some value) = elim (kind_of hash_type) [
    | none ↦ none
    | some kind ↦ if valid_hash hash_type length then some (hash_create kind value) else none
  ]

  unfoldable pub decode_hash_value : TlvDecoder B → ℕ → Result (Option H × TlvDecoder B)
  decode_hash_value decoder limit =
      if ensure_remaining P decoder 4
      then (do
        (hash_type, d) ← get_type P decoder
        (length, d') ← get_length P d
        if ltb limit length
            then ok (
              none,
              (set_error d' (
                  Errors.create missing_mandatory "ccnxCodecSchemaV1HashCodec_DecodeValue" 161
                    (position P d'))).0,
            )
            else (if ensure_remaining P d' length
                then (do
                  (value, d'') ← get_value P d' length
                  ok (make_hash hash_type length value, d''))
                else ok (none, d')))
      else ok (none, decoder)
