-- ===== src/SchemaV1/OptionalHeaders.antt =====
-- ccnx/common/codec/schema_v1/ccnxCodecSchemaV1_OptionalHeadersDecoder.c and
-- ccnxCodecSchemaV1_OptionalHeadersEncoder.c: the headers that a hop may read and change.
--
-- `bytes` gives the bytes that remain in a buffer.
pub mod Safety
pub mod Written
use libccnx_common.Prelude.{
  ℕ, zero, suc, ◌+◌, Bool, true, false, ◌||◌, List, Option, none, some, ◌==◌, if◌then◌else◌, Result,
  ok, ◌>>=◌,
}
use libccnx_common.Parc.{ParcBuffer}
use libccnx_common.Errors.{CodecError, err_decode, err_packettype}
use libccnx_common.Errors
use libccnx_common.Decoder.{TlvDecoder, set_error, position}
use libccnx_common.Dictionary.{
  Values, Dictionary, get_buffer, get_integer, is_value_integer, is_value_buffer,
}
use libccnx_common.Dictionary.Lists.{list_get_by_type}
use libccnx_common.Dictionary.Messages.{
  is_interest, is_interest_return, is_content_object, is_manifest, is_control,
}
use libccnx_common.Encoder.{TlvEncoder, append_buffer, append_var_int}
use libccnx_common.Encoder
use libccnx_common.Prelude.{ℤ, pos, negsuc}
use libccnx_common.Utilities.Decode.{
  decode_container, put_as_buffer, put_as_integer, put_as_list_buffer, encode_custom_list,
}
use libccnx_common.SchemaV1.{
  headers_intfrag, headers_objfrag, headers_interest_lifetime, headers_recommended_cache_time,
  lists_headers,
}

-- `CCNxCodecSchemaV1Types_OptionalHeaders`
abbrev pub interest_lifetime : ℕ
interest_lifetime = 1

abbrev pub recommended_cache_time : ℕ
recommended_cache_time = 2

abbrev pub interest_fragment : ℕ
interest_fragment = 3

abbrev pub content_object_fragment : ℕ
content_object_fragment = 4

module _ {V : Values} (P : ParcBuffer V.Buffer) where
  -- The switch on the type.
  unfoldable pub put_header :
      TlvDecoder V.Buffer
      → Dictionary V
      → ℕ
      → ℕ
      → Result (Bool × TlvDecoder V.Buffer × Dictionary V)
  put_header decoder dictionary type length =
      if type == interest_fragment
      then put_as_buffer P decoder dictionary length headers_intfrag
      else (if type == content_object_fragment
          then put_as_buffer P decoder dictionary length headers_objfrag
          else (if type == interest_lifetime
              then put_as_integer P decoder dictionary length headers_interest_lifetime
              else (if type == recommended_cache_time
                  then put_as_integer P decoder dictionary length headers_recommended_cache_time
                  else put_as_list_buffer P decoder dictionary type length lists_headers)))

  -- `_decodeType`: a failure sets the error of the decoder.
  unfoldable pub decode_header_type :
      TlvDecoder V.Buffer
      → Dictionary V
      → ℕ
      → ℕ
      → Result (Bool × TlvDecoder V.Buffer × Dictionary V)
  decode_header_type decoder dictionary type length = do
    (success, d, dictionary') ← put_header decoder dictionary type length
    ok (
      success,
      (if success
          then d
          else (set_error d (Errors.create err_decode "_decodeType" 104 (position P d))).0),
      dictionary',
    )

  unfoldable pub decode_optional_headers :
      ℕ → TlvDecoder V.Buffer → Dictionary V → Result (Bool × TlvDecoder V.Buffer × Dictionary V)
  decode_optional_headers fuel decoder dictionary =
      decode_container P decode_header_type fuel decoder dictionary

module _ {V : Values} where
  unfoldable pub get_interest_fragment_header : Dictionary V → Result (Option V.Buffer)
  get_interest_fragment_header dictionary = get_buffer dictionary headers_intfrag

  unfoldable pub get_content_object_fragment_header : Dictionary V → Result (Option V.Buffer)
  get_content_object_fragment_header dictionary = get_buffer dictionary headers_objfrag

  unfoldable pub get_interest_lifetime_header : Dictionary V → Result ℕ
  get_interest_lifetime_header dictionary = get_integer dictionary headers_interest_lifetime

  unfoldable pub get_recommended_cache_time_header : Dictionary V → Result ℕ
  get_recommended_cache_time_header dictionary =
      get_integer dictionary headers_recommended_cache_time

  unfoldable pub get_custom_type : Dictionary V → ℕ → Result (Option V.Buffer)
  get_custom_type dictionary key = list_get_by_type dictionary lists_headers key

-- `if (customLength < 0) { return customLength; } length += customLength;`
abbrev pub add_length : ℕ → ℤ → ℤ
add_length length (pos n) = pos (length + n)
add_length length (negsuc n) = negsuc n

-- `if (buffer != NULL) { length = ccnxCodecTlvEncoder_AppendBuffer(...); }`
unfoldable pub encode_present :
    {B U Signature : Type 0}
    → (U → ℕ → List ℕ × U)
    → (B → List ℕ)
    → TlvEncoder U CodecError Signature
    → ℕ
    → Option B
    → Result (TlvEncoder U CodecError Signature × ℕ)
encode_present allocator bytes encoder type none = ok (encoder, 0)
encode_present allocator bytes encoder type (some b) =
    append_buffer allocator encoder type (bytes b)

module _ {V : Values} {U Signature : Type 0} (allocator : U → ℕ → List ℕ × U)
    (bytes : V.Buffer → List ℕ) where
  -- `_EncodeInterestLifetime` and `_EncodeRecommendedCacheTime`: an integer or a buffer.
  unfoldable pub encode_time :
      TlvEncoder U CodecError Signature
      → Dictionary V
      → ℕ
      → ℕ
      → Result (TlvEncoder U CodecError Signature × ℕ)
  encode_time encoder dictionary key type = do
    is_integer ← is_value_integer dictionary key
    if is_integer
        then (do value ← get_integer dictionary key; append_var_int allocator encoder type value)
        else (do
          is_buffer ← is_value_buffer dictionary key
          if is_buffer
              then (do
                value ← get_buffer dictionary key
                encode_present allocator bytes encoder type value)
              else ok (encoder, 0))

  -- `_EncodeInterestFrag` and `_EncodeContentObjectFrag`
  unfoldable pub encode_frag :
      TlvEncoder U CodecError Signature
      → Dictionary V
      → ℕ
      → ℕ
      → Result (TlvEncoder U CodecError Signature × ℕ)
  encode_frag encoder dictionary key type = do
    buffer ← get_buffer dictionary key
    encode_present allocator bytes encoder type buffer

  unfoldable pub encode_interest_headers :
      TlvEncoder U CodecError Signature
      → Dictionary V
      → Result (TlvEncoder U CodecError Signature × ℤ)
  encode_interest_headers encoder dictionary = do
    (encoder1, frag_length) ← encode_frag encoder dictionary headers_intfrag interest_fragment
    (encoder2, life_length) ←
        encode_time encoder1 dictionary headers_interest_lifetime interest_lifetime
    (encoder3, custom_length) ← encode_custom_list allocator bytes encoder2 dictionary lists_headers
    ok (encoder3, add_length (frag_length + life_length) custom_length)

  unfoldable pub encode_content_object_headers :
      TlvEncoder U CodecError Signature
      → Dictionary V
      → Result (TlvEncoder U CodecError Signature × ℤ)
  encode_content_object_headers encoder dictionary = do
    (encoder1, frag_length) ← encode_frag encoder dictionary headers_objfrag content_object_fragment
    (encoder2, time_length) ←
        encode_time encoder1 dictionary headers_recommended_cache_time recommended_cache_time
    (encoder3, custom_length) ← encode_custom_list allocator bytes encoder2 dictionary lists_headers
    ok (encoder3, add_length (frag_length + time_length) custom_length)

  unfoldable pub encode_optional_headers :
      TlvEncoder U CodecError Signature
      → Dictionary V
      → Result (TlvEncoder U CodecError Signature × ℤ)
  encode_optional_headers encoder dictionary =
      if is_interest dictionary || is_interest_return dictionary
      then encode_interest_headers encoder dictionary
      else (if is_content_object dictionary || is_manifest dictionary
          then encode_content_object_headers encoder dictionary
          else (if is_control dictionary
              then encode_custom_list allocator bytes encoder dictionary lists_headers
              else ok (
                (Encoder.set_error encoder (
                    Errors.create err_packettype "ccnxCodecSchemaV1OptionalHeadersEncoder_Encode"
                      199 (Encoder.position encoder))).0,
                negsuc 0,
              )))
