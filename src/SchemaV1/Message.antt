-- ===== src/SchemaV1/Message.antt =====
-- ccnx/common/codec/schema_v1/ccnxCodecSchemaV1_MessageDecoder.c: the fields of a message, with
-- `ccnxCodecTlvUtilities_PutAsName` and `ccnxCodecTlvUtilities_PutAsHash`.
--
-- `name_of` gives the name that a dictionary stores for a list of segments. The objects of a dictionary are
-- the hashes of another library, made by `hash_create`.
pub mod BadNames
use libccnx_common.Prelude.{
  ℕ, zero, suc, Bool, true, false, List, Option, none, some, ◌==◌, ◌%◌, ◌^◌, if◌then◌else◌, Result,
  ok, trap, ◌>>=◌,
}
use libccnx_common.Parc.{ParcBuffer}
use libccnx_common.Errors.{CodecError, err_decode}
use libccnx_common.Errors
use libccnx_common.Decoder.{TlvDecoder, get_var_int, set_error, position}
use libccnx_common.Dictionary.{Values, Dictionary, put_name, put_object, put_integer}
use libccnx_common.Utilities.Decode.{
  decode_container, put_as_buffer, put_as_integer, put_as_list_buffer,
}
use libccnx_common.SchemaV1.{
  message_name, message_keyid_restriction, message_objhash_restriction, message_payload,
  message_payloadtype, message_expiry_time, message_endsegment, lists_message_list,
}
use libccnx_common.SchemaV1.CryptoSuites.{ParcCryptoHashType}
use libccnx_common.SchemaV1.Hashes.{decode_hash_value}
use libccnx_common.SchemaV1.Names.{NameSegment, decode_name_value}

-- `CCNxPayloadType`
pub data PayloadType : Type 0 where
  payload_data : PayloadType
  payload_key : PayloadType
  payload_link : PayloadType
  payload_manifest : PayloadType

-- The values of the enumeration, which the dictionary stores.
unfoldable pub payload_value : PayloadType → ℕ
payload_value payload_data = 0
payload_value payload_key = 1
payload_value payload_link = 2
payload_value payload_manifest = 3

unfoldable pub translate_payload_type : ℕ → Option PayloadType
translate_payload_type wire =
    if wire == 0
    then some payload_data
    else (if wire == 1 then some payload_key else (if wire == 2 then some payload_link else none))

module _ {V : Values} (P : ParcBuffer V.Buffer) (name_of : List (NameSegment V.Buffer) → V.Name)
    (hash_create : ParcCryptoHashType → V.Buffer → V.Object) where
  -- PutName asserts that the name is not NULL.
  unfoldable pub put_as_name :
      ℕ
      → TlvDecoder V.Buffer
      → Dictionary V
      → ℕ
      → ℕ
      → Result (Bool × TlvDecoder V.Buffer × Dictionary V)
  put_as_name fuel decoder dictionary length key = do
    (name, d) ← decode_name_value P fuel decoder length
    elim name [
      | none ↦ trap
      | some segments ↦ (do
        (dictionary', success) ← put_name dictionary key (name_of segments)
        ok (success, d, dictionary'))
    ]

  unfoldable pub put_as_hash :
      TlvDecoder V.Buffer
      → Dictionary V
      → ℕ
      → ℕ
      → Result (Bool × TlvDecoder V.Buffer × Dictionary V)
  put_as_hash decoder dictionary length key = do
    (hash, d) ← decode_hash_value P hash_create decoder length
    elim hash [
      | none ↦ ok (false, d, dictionary)
      | some h ↦ (do
        (dictionary', success) ← put_object dictionary key h
        ok (success, d, dictionary'))
    ]

  unfoldable pub store_payload_type :
      Dictionary V → Option PayloadType → Result (Dictionary V × Bool)
  store_payload_type dictionary none = ok (dictionary, false)
  store_payload_type dictionary (some type) =
      put_integer dictionary message_payloadtype (payload_value type)

  -- The 64-bit value is cast to an enumeration, which has 32 bits.
  unfoldable pub decode_payload_type :
      TlvDecoder V.Buffer → Dictionary V → ℕ → Result (Bool × TlvDecoder V.Buffer × Dictionary V)
  decode_payload_type decoder dictionary length = do
    (wire, d) ← get_var_int P decoder length
    elim wire [
      | none ↦ ok (false, d, dictionary)
      | some w ↦ (do
        (dictionary', success) ← store_payload_type dictionary (translate_payload_type (w % 2 ^ 32))
        ok (success, d, dictionary'))
    ]

  -- The switch on the type.
  unfoldable pub put_field :
      ℕ
      → TlvDecoder V.Buffer
      → Dictionary V
      → ℕ
      → ℕ
      → Result (Bool × TlvDecoder V.Buffer × Dictionary V)
  put_field fuel decoder dictionary type length =
      if type == 0
      then put_as_name fuel decoder dictionary length message_name
      else (if type == 1
          then put_as_buffer P decoder dictionary length message_payload
          else (if type == 2
              then put_as_hash decoder dictionary length message_keyid_restriction
              else (if type == 3
                  then put_as_hash decoder dictionary length message_objhash_restriction
                  else (if type == 5
                      then decode_payload_type decoder dictionary length
                      else (if type == 6
                          then put_as_integer P decoder dictionary length message_expiry_time
                          else (if type == 25
                              then put_as_integer P decoder dictionary length message_endsegment
                              else put_as_list_buffer P decoder dictionary type length
                                  lists_message_list))))))

  unfoldable pub decode_message_type :
      ℕ
      → TlvDecoder V.Buffer
      → Dictionary V
      → ℕ
      → ℕ
      → Result (Bool × TlvDecoder V.Buffer × Dictionary V)
  decode_message_type fuel decoder dictionary type length = do
    (success, d, dictionary') ← put_field fuel decoder dictionary type length
    ok (
      success,
      (if success
          then d
          else (set_error d (Errors.create err_decode "_decodeType" 165 (position P d))).0),
      dictionary',
    )

  -- The rounds are those of the container and of the names in it.
  unfoldable pub decode_message :
      ℕ → TlvDecoder V.Buffer → Dictionary V → Result (Bool × TlvDecoder V.Buffer × Dictionary V)
  decode_message fuel decoder dictionary =
      decode_container P (decode_message_type fuel) fuel decoder dictionary
