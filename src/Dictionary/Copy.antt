-- ===== src/Dictionary/Copy.antt =====
-- `ccnxTlvDictionary_ShallowCopy`.
pub mod Laws
pub mod Entries
use libccnx_common.Prelude.{ℕ, zero, suc, ◌+◌, Option, none, some, Bool, get_elem?}
use libccnx_common.Prelude.{Result, ok, trap, or_fault, stuck_unless, ltb, ◌^◌, ◌>>=◌, ◌>>◌}
use libccnx_common.Dictionary.{
  Values, Entry, unset, buffer, name, integer, io_vec, json, object, Dictionary, create, put_buffer,
  put_name, put_io_vec, put_json, put_integer, put_object, get_buffer, get_name, get_io_vec,
  get_json, get_integer, get_object,
}
use libccnx_common.Dictionary.Lists.{put_list_buffer, list_get_by_position, list_size}

-- `assertNotNull` on the argument of a put.
abbrev pub not_null : {A : Type 0} → Option A → Result A
not_null none = trap
not_null (some a) = ok a

module _ {V : Values} where
  -- `for (i = 0; i < listSize; ++i)`: the rounds left, then the position.
  unfoldable pub copy_list : ℕ → Dictionary V → ℕ → ℕ → Dictionary V → Result (Dictionary V)
  unfolding put_list_buffer list_get_by_position
  copy_list zero source key i new = ok new
  copy_list (suc rounds) source key i new = do
    found ← list_get_by_position source key i
    (b, b_key) ← or_fault found
    (new', _) ← put_list_buffer new key b_key b
    copy_list rounds source key (suc i) new'

  -- `for (uint32_t key = 0; key < source->listSize; ++key)`
  unfoldable pub copy_lists : ℕ → Dictionary V → ℕ → Dictionary V → Result (Dictionary V)
  unfolding copy_list list_size
  copy_lists zero source key new = ok new
  copy_lists (suc rounds) source key new = do
    size ← list_size source key
    new' ← copy_list size source key 0 new
    stuck_unless (ltb (suc key) (2 ^ 32))
    copy_lists rounds source (suc key) new'

  -- The switch on `source->directArray[key].entryType`.
  unfoldable pub copy_entry :
      Entry V → Dictionary V → ℕ → Dictionary V → Result (Dictionary V × Bool)
  unfolding put_buffer put_name put_io_vec put_json put_integer put_object get_buffer get_name
      get_io_vec get_json get_integer get_object
  copy_entry (buffer _) source key new = do
    b ← get_buffer source key
    put_buffer new key (← not_null b)
  copy_entry (name _) source key new = do n ← get_name source key; put_name new key (← not_null n)
  copy_entry (io_vec _) source key new = do
    v ← get_io_vec source key
    put_io_vec new key (← not_null v)
  copy_entry (json _) source key new = do j ← get_json source key; put_json new key (← not_null j)
  copy_entry (integer _) source key new = do n ← get_integer source key; put_integer new key n
  copy_entry (object _) source key new = do
    o ← get_object source key
    put_object new key (← not_null o)
  copy_entry unset source key new = ok (new, Bool.false)

  -- `for (key = 0; key < source->fastArraySize; ++key)`
  unfoldable pub copy_fast_array : ℕ → Dictionary V → ℕ → Dictionary V → Result (Dictionary V)
  unfolding copy_entry
  copy_fast_array zero source key new = ok new
  copy_fast_array (suc rounds) source key new = do
    e ← or_fault (get_elem? source.direct_array key)
    (new', _) ← copy_entry e source key new
    copy_fast_array rounds source (suc key) new'

  -- The new dictionary before its loops.
  abbrev pub copy_header : Dictionary V → Dictionary V
  copy_header source = record (create V source.fast_array_size source.list_size) {
    dictionary_type = source.dictionary_type;
    schema_version = source.schema_version;
    generation = source.generation;
    creation_time = source.creation_time;
    message_interface = source.message_interface;
    info = source.info;
    info_free_function = source.info_free_function;
  }

  unfoldable pub shallow_copy : Dictionary V → Result (Dictionary V)
  unfolding create copy_lists copy_fast_array
  shallow_copy source = do
    new ← copy_lists source.list_size source 0 (copy_header source)
    copy_fast_array source.fast_array_size source 0 new
