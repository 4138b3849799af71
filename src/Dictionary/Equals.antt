-- ===== src/Dictionary/Equals.antt =====
-- `ccnxTlvDictionary_Equals` and the functions below it.
pub mod Laws
pub mod Agreement
pub mod Equivalence
pub mod Copies
use libccnx_common.Prelude.{ℕ, zero, suc, ◌+◌, List, [], ◌∷◌, Option, none, some}
use libccnx_common.Prelude.{Bool, true, false, ◌&&◌, get_elem?, ◌==◌, if◌then◌else◌}
use libccnx_common.Prelude.{Result, ok, or_fault, fault_unless, ltb, ◌^◌, ◌>>=◌, ◌>>◌}
use libccnx_common.Dictionary.{
  Values, Entry, unset, buffer, name, integer, io_vec, json, object, ListEntry, Dictionary,
  DictionaryType, unknown, interest, content_object, control, interest_return, manifest,
}
use libccnx_common.Dictionary.Lists.{get_list_head}

-- The enumeration's values, by which the code compares.
abbrev pub type_code : DictionaryType → ℕ
type_code unknown = 0
type_code interest = 1
type_code content_object = 2
type_code control = 3
type_code interest_return = 4
type_code manifest = 5

module _ {V : Values} where
  -- The arguments are addresses of array elements, so neither is NULL.
  unfoldable pub entry_equals : Entry V → Entry V → Bool
  entry_equals unset unset = true
  entry_equals (buffer a) (buffer b) = V.buffer_equals a b
  entry_equals (object a) (object b) = V.object_equals a b
  entry_equals (integer a) (integer b) = a == b
  entry_equals (io_vec a) (io_vec b) = V.io_vec_equals a b
  entry_equals (json a) (json b) = V.json_equals a b
  entry_equals (name a) (name b) = V.name_equals a b
  entry_equals _ _ = false

  unfoldable pub list_entry_equals : ListEntry V → ListEntry V → Bool
  list_entry_equals a b = a.key == b.key && V.buffer_equals a.buffer b.buffer

  -- A NULL head is the empty list; the walk goes on while both lists do.
  unfoldable pub list_equals : List (ListEntry V) → List (ListEntry V) → Bool
  unfolding list_entry_equals
  list_equals [] [] = true
  list_equals (a ∷ l) (b ∷ l') = if list_entry_equals a b then list_equals l l' else false
  list_equals _ _ = false

  -- `for (i = 0; i < a->fastArraySize && equals; i++)`
  unfoldable pub fast_array_equals : ℕ → Dictionary V → Dictionary V → ℕ → Result Bool
  unfolding entry_equals
  fast_array_equals zero a b i = ok true
  fast_array_equals (suc rounds) a b i = do
    e ← or_fault (get_elem? a.direct_array i)
    e' ← or_fault (get_elem? b.direct_array i)
    elim (entry_equals e e') [ true ↦ fast_array_equals rounds a b (suc i) | false ↦ ok false ]

  -- `for (int i = 0; i < a->listSize && equals; i++)`
  unfoldable pub lists_equals : ℕ → Dictionary V → Dictionary V → ℕ → Result Bool
  unfolding list_equals get_list_head
  lists_equals zero a b i = ok true
  lists_equals (suc rounds) a b i = do
    l ← get_list_head a i
    l' ← get_list_head b i
    fault_unless (ltb (suc i) (2 ^ 31))
    elim (list_equals l l') [ true ↦ lists_equals rounds a b (suc i) | false ↦ ok false ]

  abbrev pub same_header : Dictionary V → Dictionary V → Bool
  same_header a b =
      (a.fast_array_size == b.fast_array_size)
      && (a.list_size == b.list_size)
      && (type_code a.dictionary_type == type_code b.dictionary_type)
      && (a.schema_version == b.schema_version)

  -- `none` is NULL.
  unfoldable pub equals : Option (Dictionary V) → Option (Dictionary V) → Result Bool
  unfolding fast_array_equals lists_equals
  equals none none = ok true
  equals (some a) (some b) = elim (same_header a b) [
    | false ↦ ok false
    | true ↦ do
      fast ← fast_array_equals a.fast_array_size a b 0
      elim fast [ false ↦ ok false | true ↦ lists_equals a.list_size a b 0 ]
  ]
  equals _ _ = ok false
