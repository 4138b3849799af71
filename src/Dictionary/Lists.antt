-- ===== src/Dictionary/Lists.antt =====
-- The lists of a dictionary: `_getListHeadReference`, `PutListBuffer` and the list getters.
pub mod Views
pub mod Laws
pub mod Search
use libccnx_common.Prelude.{ℕ, zero, suc, ◌+◌, ◌-◌, ◌%◌, ◌^◌, Bool, true, false, List, [], ◌∷◌}
use libccnx_common.Prelude.{Option, none, some, get_elem?, set, length, ltb, ◌==◌, if◌then◌else◌}
use libccnx_common.Prelude.{Result, ok, assert, or_fault, ◌>>=◌, ◌>>◌}
use libccnx_common.Dictionary.{Values, ListEntry, Dictionary, fixed_list_length}

module _ {V : Values} where
  -- `*_getListHeadReference(dictionary, listKey)`, read.
  unfoldable pub get_list_head : Dictionary V → ℕ → Result (List (ListEntry V))
  get_list_head d list_key =
      if ltb list_key fixed_list_length
      then or_fault (get_elem? d.fixed_list_heads list_key)
      else or_fault (get_elem? d.extra_list_heads (list_key - fixed_list_length))

  -- The same reference, assigned.
  unfoldable pub set_list_head : Dictionary V → ℕ → List (ListEntry V) → Dictionary V
  set_list_head d list_key l =
      if ltb list_key fixed_list_length
      then record d { fixed_list_heads = set d.fixed_list_heads list_key l }
      else record d { extra_list_heads = set d.extra_list_heads (list_key - fixed_list_length) l }

  -- `_ccnxTlvDictionaryListEntry_Create`: the uint32_t key is stored in a uint16_t.
  unfoldable pub list_entry : ℕ → V.Buffer → ListEntry V
  list_entry key b = record { buffer = b; key = key % 2 ^ 16 }

  unfoldable pub put_list_buffer : Dictionary V → ℕ → ℕ → V.Buffer → Result (Dictionary V × Bool)
  unfolding get_list_head set_list_head list_entry
  put_list_buffer d list_key key b = do
    assert (ltb list_key d.list_size)
    head ← get_list_head d list_key
    ok (set_list_head d list_key (list_entry key b ∷ head), true)

  -- The walk of `ListGetByPosition`: the buffer and the key at the position, if there is one.
  unfoldable pub by_position : List (ListEntry V) → ℕ → Option (V.Buffer × ℕ)
  by_position [] position = none
  by_position (e ∷ entries) zero = some (e.buffer, e.key)
  by_position (e ∷ entries) (suc position) = by_position entries position

  unfoldable pub list_get_by_position : Dictionary V → ℕ → ℕ → Result (Option (V.Buffer × ℕ))
  unfolding get_list_head by_position
  list_get_by_position d list_key position = do
    assert (ltb list_key d.list_size)
    entries ← get_list_head d list_key
    ok (by_position entries position)

  unfoldable pub by_type : List (ListEntry V) → ℕ → Option V.Buffer
  by_type [] type = none
  by_type (e ∷ entries) type = if e.key == type then some e.buffer else by_type entries type

  unfoldable pub list_get_by_type : Dictionary V → ℕ → ℕ → Result (Option V.Buffer)
  unfolding get_list_head by_type
  list_get_by_type d list_key type = do
    assert (ltb list_key d.list_size)
    entries ← get_list_head d list_key
    ok (by_type entries type)

  -- `while (entry) { size++; ... }`
  unfoldable pub count_entries : ℕ → List (ListEntry V) → ℕ
  count_entries size [] = size
  count_entries size (e ∷ entries) = count_entries (size + 1) entries

  unfoldable pub list_size : Dictionary V → ℕ → Result ℕ
  unfolding get_list_head count_entries
  list_size d list_key = do
    assert (ltb list_key d.list_size)
    entries ← get_list_head d list_key
    ok (count_entries 0 entries)
