-- ===== src/Dictionary/Messages.antt =====
-- The message types: `SetMessageType_*`, `Is*`, the schema version and the message interface, and the
-- constructors of ccnx/common/codec/schema_v1/ccnxCodecSchemaV1_TlvDictionary.c.
pub mod Laws
use libccnx_common.Prelude.{ℕ, ◌==◌, Bool, ◌≡◌, refl, arith, ◌↔◌}
use libccnx_common.Dictionary.{
  Values, Dictionary, create, message_fast_array_end, DictionaryType, unknown, interest,
  content_object, control, interest_return, manifest,
}
use libccnx_common.Dictionary.Equals.{type_code}

-- `CCNxTlvDictionary_SchemaVersion_V1`
abbrev pub schema_v1 : ℕ
schema_v1 = 1

-- `CCNxCodecSchemaV1TlvDictionary_Lists_END`
abbrev pub lists_end : ℕ
lists_end = 7

module _ {V : Values} where
  unfoldable pub set_message_type_interest : Dictionary V → ℕ → Dictionary V
  set_message_type_interest d version = record d {
    dictionary_type = interest;
    schema_version = version;
  }

  unfoldable pub set_message_type_content_object : Dictionary V → ℕ → Dictionary V
  set_message_type_content_object d version = record d {
    dictionary_type = content_object;
    schema_version = version;
  }

  unfoldable pub set_message_type_control : Dictionary V → ℕ → Dictionary V
  set_message_type_control d version = record d {
    dictionary_type = control;
    schema_version = version;
  }

  unfoldable pub set_message_type_interest_return : Dictionary V → ℕ → Dictionary V
  set_message_type_interest_return d version = record d {
    dictionary_type = interest_return;
    schema_version = version;
  }

  unfoldable pub set_message_type_manifest : Dictionary V → ℕ → Dictionary V
  set_message_type_manifest d version = record d {
    dictionary_type = manifest;
    schema_version = version;
  }

  unfoldable pub is_interest : Dictionary V → Bool
  is_interest d = type_code d.dictionary_type == type_code interest

  unfoldable pub is_interest_return : Dictionary V → Bool
  is_interest_return d = type_code d.dictionary_type == type_code interest_return

  unfoldable pub is_content_object : Dictionary V → Bool
  is_content_object d = type_code d.dictionary_type == type_code content_object

  unfoldable pub is_control : Dictionary V → Bool
  is_control d = type_code d.dictionary_type == type_code control

  unfoldable pub is_manifest : Dictionary V → Bool
  is_manifest d = type_code d.dictionary_type == type_code manifest

  unfoldable pub get_schema_version : Dictionary V → ℕ
  get_schema_version d = d.schema_version

  unfoldable pub set_message_interface : Dictionary V → ℕ → Dictionary V
  set_message_interface d implementation = record d { message_interface = implementation }

  unfoldable pub get_message_interface : Dictionary V → ℕ
  get_message_interface d = d.message_interface

module _ (V : Values) where
  unfoldable pub create_interest : Dictionary V
  unfolding create set_message_type_interest
  create_interest = set_message_type_interest (create V message_fast_array_end lists_end) schema_v1

  unfoldable pub create_content_object : Dictionary V
  unfolding create set_message_type_content_object
  create_content_object =
      set_message_type_content_object (create V message_fast_array_end lists_end) schema_v1

  unfoldable pub create_manifest : Dictionary V
  unfolding create set_message_type_manifest
  create_manifest = set_message_type_manifest (create V message_fast_array_end lists_end) schema_v1

  unfoldable pub create_control : Dictionary V
  unfolding create set_message_type_control
  create_control = set_message_type_control (create V message_fast_array_end lists_end) schema_v1

  unfoldable pub create_interest_return : Dictionary V
  unfolding create set_message_type_interest_return
  create_interest_return =
      set_message_type_interest_return (create V message_fast_array_end lists_end) schema_v1
