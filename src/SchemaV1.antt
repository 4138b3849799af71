-- ===== src/SchemaV1.antt =====
-- ccnx/common/codec/schema_v1: the numbers of the schema, which the files of the codecs share.
mod Tests
pub mod CryptoSuites
pub mod FixedHeader
pub mod Hashes
pub mod Links
pub mod Message
pub mod Names
pub mod OptionalHeaders
use libccnx_common.Prelude.{ℕ}

-- `CCNxCodecSchemaV1TlvDictionary_HeadersFastArray`
abbrev pub headers_fixed_header : ℕ
headers_fixed_header = 1

abbrev pub headers_intfrag : ℕ
headers_intfrag = 2

abbrev pub headers_objfrag : ℕ
headers_objfrag = 3

abbrev pub headers_interest_lifetime : ℕ
headers_interest_lifetime = 6

abbrev pub headers_recommended_cache_time : ℕ
headers_recommended_cache_time = 7

abbrev pub headers_interest_return_code : ℕ
headers_interest_return_code = 12

-- `CCNxCodecSchemaV1TlvDictionary_MessageFastArray`, which starts at 22.
abbrev pub message_name : ℕ
message_name = 22

abbrev pub message_keyid_restriction : ℕ
message_keyid_restriction = 23

abbrev pub message_objhash_restriction : ℕ
message_objhash_restriction = 24

abbrev pub message_payload : ℕ
message_payload = 26

abbrev pub message_hoplimit : ℕ
message_hoplimit = 27

abbrev pub message_payloadtype : ℕ
message_payloadtype = 28

abbrev pub message_expiry_time : ℕ
message_expiry_time = 29

abbrev pub message_endsegment : ℕ
message_endsegment = 30

-- `CCNxCodecSchemaV1TlvDictionary_Lists`
abbrev pub lists_headers : ℕ
lists_headers = 0

abbrev pub lists_message_list : ℕ
lists_message_list = 1

-- `CCNxCodecSchemaV1Types_PacketType`, the ones that the fixed header tells apart.
abbrev pub packet_type_interest : ℕ
packet_type_interest = 0

abbrev pub packet_type_interest_return : ℕ
packet_type_interest_return = 2
