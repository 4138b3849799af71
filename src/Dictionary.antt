-- ===== src/Dictionary.antt =====
-- ccnx/common/internal/ccnx_TlvDictionary.c: the state, its creation and the fast array.
-- The lists, the copy, the comparison and the message types are in the child modules.
--
-- The payload types belong to other components or to the PARC library, so they are a parameter, with
-- the equality functions that the comparison calls. Reference counts and frees are not modelled, and
-- an allocation succeeds. `_ccnxTlvDictionary_GetTimeOfDay` is that of the build without DEBUG.
pub mod Lists
pub mod Copy
pub mod Equals
pub mod Messages
pub mod FastArray
mod Tests
use libccnx_common.Prelude.{
  ℕ, ◌+◌, ◌-◌, ◌%◌, ◌^◌, Bool, true, false, List, [], ◌∷◌, Option, none, some,
}
use libccnx_common.Prelude.{get_elem?, set, replicate, ltb, if◌then◌else◌}
use libccnx_common.Prelude.{Result, ok, trap, assert, or_fault, ◌>>=◌, ◌>>◌}

-- What a dictionary stores and how it is compared: `PARCBuffer`, `CCNxName`,
-- `CCNxCodecNetworkBufferIoVec`, `PARCJSON`, `PARCObject`.
pub record Values : Type 1 where
  pub Buffer : Type 0
  pub Name : Type 0
  pub IoVec : Type 0
  pub Json : Type 0
  pub Object : Type 0
  pub buffer_equals : Buffer → Buffer → Bool
  pub name_equals : Name → Name → Bool
  pub io_vec_equals : IoVec → IoVec → Bool
  pub json_equals : Json → Json → Bool
  pub object_equals : Object → Object → Bool

pub data DictionaryType : Type 0 where
  unknown interest content_object control interest_return manifest : DictionaryType

-- `entryType` with the union member that it selects.
pub data Entry (V : Values) : Type 0 where
  unset : Entry V
  buffer : V.Buffer → Entry V
  name : V.Name → Entry V
  integer : ℕ → Entry V
  io_vec : V.IoVec → Entry V
  json : V.Json → Entry V
  object : V.Object → Entry V

-- The `next` links are the list that holds the entry. `key` is a uint16_t.
pub record ListEntry (V : Values) : Type 0 where
  pub buffer : V.Buffer
  pub key : ℕ

-- `extra_list_heads` is the array that `_getListHeadReference` allocates on first use. Before that
-- the pointer is NULL, and nothing tells the absent array from one of empty lists, which it holds here.
-- `info`, `info_free_function` and `message_interface` are addresses, 0 for NULL.
pub record Dictionary (V : Values) : Type 0 where
  pub fixed_list_heads : List (List (ListEntry V))
  pub extra_list_heads : List (List (ListEntry V))
  pub fast_array_size : ℕ
  pub list_size : ℕ
  pub dictionary_type : DictionaryType
  pub schema_version : ℕ
  pub generation : ℕ
  pub creation_time : ℕ × ℕ
  pub info_free_function : ℕ
  pub info : ℕ
  pub message_interface : ℕ
  pub direct_array : List (Entry V)

-- `FIXED_LIST_LENGTH`
abbrev pub fixed_list_length : ℕ
fixed_list_length = 8

-- `CCNxCodecSchemaV1TlvDictionary_MessageFastArray_END`: 13 headers, 9 validation and 12 message keys.
abbrev pub message_fast_array_end : ℕ
message_fast_array_end = 34

abbrev pub is_some : {A : Type 0} → Option A → Bool
is_some none = false
is_some (some a) = true

module _ (V : Values) where
  unfoldable pub create : ℕ → ℕ → Dictionary V
  create buffer_count list_count = record {
    fixed_list_heads = replicate fixed_list_length [];
    extra_list_heads = replicate (list_count - fixed_list_length) [];
    fast_array_size = buffer_count;
    list_size = list_count;
    dictionary_type = unknown;
    schema_version = 0;
    generation = 0;
    creation_time = (0, 0);
    info_free_function = 0;
    info = 0;
    message_interface = 0;
    direct_array = replicate message_fast_array_end unset;
  }

module _ {V : Values} where
  -- The entry that a key selects: `assertTrue(key < fastArraySize)`, then the array element.
  abbrev pub entry_at : Dictionary V → ℕ → Result (Entry V)
  entry_at d key = do assert (ltb key d.fast_array_size); or_fault (get_elem? d.direct_array key)

  -- `entryType == ENTRY_UNSET`
  abbrev pub is_unset : Entry V → Bool
  is_unset unset = true
  is_unset _ = false

  abbrev pub store : Dictionary V → ℕ → Entry V → Dictionary V × Bool
  store d key e = (record d { direct_array = set d.direct_array key e }, true)

  -- The body that the puts share: a value goes into an entry that is unset, and nowhere else.
  unfoldable pub put_unset : Dictionary V → ℕ → Entry V → Result (Dictionary V × Bool)
  put_unset d key e = do
    old ← entry_at d key
    ok (if is_unset old then store d key e else (d, false))

  unfoldable pub put_buffer : Dictionary V → ℕ → V.Buffer → Result (Dictionary V × Bool)
  unfolding put_unset
  put_buffer d key b = put_unset d key (buffer b)

  unfoldable pub put_object : Dictionary V → ℕ → V.Object → Result (Dictionary V × Bool)
  unfolding put_unset
  put_object d key o = put_unset d key (object o)

  unfoldable pub put_name : Dictionary V → ℕ → V.Name → Result (Dictionary V × Bool)
  unfolding put_unset
  put_name d key n = put_unset d key (name n)

  unfoldable pub put_io_vec : Dictionary V → ℕ → V.IoVec → Result (Dictionary V × Bool)
  unfolding put_unset
  put_io_vec d key v = put_unset d key (io_vec v)

  unfoldable pub put_json : Dictionary V → ℕ → V.Json → Result (Dictionary V × Bool)
  unfolding put_unset
  put_json d key j = put_unset d key (json j)

  -- Integers, unlike the others, may be put again.
  abbrev pub takes_integer : Entry V → Bool
  takes_integer unset = true
  takes_integer (integer n) = true
  takes_integer _ = false

  unfoldable pub put_integer : Dictionary V → ℕ → ℕ → Result (Dictionary V × Bool)
  put_integer d key n = do
    old ← entry_at d key
    ok (if takes_integer old then store d key (integer n) else (d, false))

  -- The members of the union, behind the test of `entryType`.
  abbrev pub as_buffer : Entry V → Option V.Buffer
  as_buffer (buffer b) = some b
  as_buffer _ = none

  abbrev pub as_name : Entry V → Option V.Name
  as_name (name n) = some n
  as_name _ = none

  abbrev pub as_integer : Entry V → Option ℕ
  as_integer (integer n) = some n
  as_integer _ = none

  abbrev pub as_io_vec : Entry V → Option V.IoVec
  as_io_vec (io_vec v) = some v
  as_io_vec _ = none

  abbrev pub as_json : Entry V → Option V.Json
  as_json (json j) = some j
  as_json _ = none

  abbrev pub as_object : Entry V → Option V.Object
  as_object (object o) = some o
  as_object _ = none

  unfoldable pub is_value_buffer : Dictionary V → ℕ → Result Bool
  is_value_buffer d key = do e ← entry_at d key; ok (is_some (as_buffer e))

  unfoldable pub is_value_object : Dictionary V → ℕ → Result Bool
  is_value_object d key = do e ← entry_at d key; ok (is_some (as_object e))

  unfoldable pub is_value_integer : Dictionary V → ℕ → Result Bool
  is_value_integer d key = do e ← entry_at d key; ok (is_some (as_integer e))

  unfoldable pub is_value_name : Dictionary V → ℕ → Result Bool
  is_value_name d key = do e ← entry_at d key; ok (is_some (as_name e))

  unfoldable pub is_value_io_vec : Dictionary V → ℕ → Result Bool
  is_value_io_vec d key = do e ← entry_at d key; ok (is_some (as_io_vec e))

  unfoldable pub is_value_json : Dictionary V → ℕ → Result Bool
  is_value_json d key = do e ← entry_at d key; ok (is_some (as_json e))

  -- NULL (`none`) for an entry of another type.
  unfoldable pub get_buffer : Dictionary V → ℕ → Result (Option V.Buffer)
  get_buffer d key = do e ← entry_at d key; ok (as_buffer e)

  unfoldable pub get_name : Dictionary V → ℕ → Result (Option V.Name)
  get_name d key = do e ← entry_at d key; ok (as_name e)

  unfoldable pub get_io_vec : Dictionary V → ℕ → Result (Option V.IoVec)
  get_io_vec d key = do e ← entry_at d key; ok (as_io_vec e)

  unfoldable pub get_json : Dictionary V → ℕ → Result (Option V.Json)
  get_json d key = do e ← entry_at d key; ok (as_json e)

  unfoldable pub get_object : Dictionary V → ℕ → Result (Option V.Object)
  get_object d key = do e ← entry_at d key; ok (as_object e)

  -- `trapIllegalValueIf` where the entry is no integer.
  unfoldable pub get_integer : Dictionary V → ℕ → Result ℕ
  get_integer d key = do e ← entry_at d key; elim (as_integer e) [ none ↦ trap | some n ↦ ok n ]
