-- ===== src/Dictionary/Equals/Agreement.antt =====
-- What `ccnxTlvDictionary_Equals` compares: the header fields, the kinds and the payloads of the entries, and the
-- keys and buffers of the lists.
use libccnx_common.Prelude.{
  ℕ, ◌<◌, ◌≡◌, refl, ap, ◌↔◌, Bool, true, List, [], ◌∷◌, some, arith, ◌==◌, ==_iff, ==_true, ok,
}
use libccnx_common.Dictionary.{
  Values, Entry, unset, buffer, name, integer, io_vec, json, object, ListEntry, Dictionary,
  DictionaryType,
}
use libccnx_common.Dictionary.FastArray.{IsValid}
use libccnx_common.Dictionary.Lists.Views.{list_at}
use libccnx_common.Dictionary.Equals.{type_code, entry_equals, list_equals, equals}
use libccnx_common.Dictionary.Equals.Laws.{Passes, equals-Passes, slot_at}

type_code-injective : (a b : DictionaryType) → type_code a ≡ type_code b → a ≡ b
type_code-injective a b h = ground arith

module _ {V : Values} where
  -- Two entries of one kind, with the same payload.
  pub data SameEntry : Entry V → Entry V → Type 0 where
    both_unset : SameEntry unset unset
    both_buffers : (a b : V.Buffer) → V.buffer_equals a b ≡ true → SameEntry (buffer a) (buffer b)
    both_names : (a b : V.Name) → V.name_equals a b ≡ true → SameEntry (name a) (name b)
    both_integers : (a b : ℕ) → a ≡ b → SameEntry (integer a) (integer b)
    both_io_vecs : (a b : V.IoVec) → V.io_vec_equals a b ≡ true → SameEntry (io_vec a) (io_vec b)
    both_jsons : (a b : V.Json) → V.json_equals a b ≡ true → SameEntry (json a) (json b)
    both_objects : (a b : V.Object) → V.object_equals a b ≡ true → SameEntry (object a) (object b)

  -- Two lists of one length, with the same keys and the same buffers in order.
  pub data SameList : List (ListEntry V) → List (ListEntry V) → Type 0 where
    both_empty : SameList [] []
    both_next :
        (a b : ListEntry V) (l m : List (ListEntry V))
        → a.key ≡ b.key
        → V.buffer_equals a.buffer b.buffer ≡ true
        → SameList l m
        → SameList (a ∷ l) (b ∷ m)

  to_entry : (a b : Entry V) → entry_equals a b ≡ true → SameEntry a b
  unfolding entry_equals
  to_entry unset unset h = both_unset
  to_entry (buffer a) (buffer b) h = both_buffers a b h
  to_entry (name a) (name b) h = both_names a b h
  to_entry (integer a) (integer b) h = both_integers a b ((==_iff a b).0 h)
  to_entry (io_vec a) (io_vec b) h = both_io_vecs a b h
  to_entry (json a) (json b) h = both_jsons a b h
  to_entry (object a) (object b) h = both_objects a b h
  to_entry _ _ h = cc

  of_entry : (a b : Entry V) → SameEntry a b → entry_equals a b ≡ true
  unfolding entry_equals
  of_entry _ _ both_unset = refl
  of_entry _ _ (both_buffers a b h) = h
  of_entry _ _ (both_names a b h) = h
  of_entry _ _ (both_integers a b h) = ==_true a b h
  of_entry _ _ (both_io_vecs a b h) = h
  of_entry _ _ (both_jsons a b h) = h
  of_entry _ _ (both_objects a b h) = h

  to_list : (l m : List (ListEntry V)) → list_equals l m ≡ true → SameList l m
  unfolding list_equals
  to_list [] [] h = both_empty
  to_list (a ∷ l) (b ∷ m) h =
      let p : (a.key == b.key) ≡ true = ground arith in
      let q : V.buffer_equals a.buffer b.buffer ≡ true = ground arith in
      both_next a b l m ((==_iff a.key b.key).0 p) q (to_list l m (ground arith))
  to_list [] (b ∷ m) h = cc
  to_list (a ∷ l) [] h = cc

  of_list : (l m : List (ListEntry V)) → SameList l m → list_equals l m ≡ true
  unfolding list_equals
  of_list _ _ both_empty = refl
  of_list _ _ (both_next a b l m p q r) = rw (==_true a.key b.key p, q) (of_list l m r)

  -- The same sizes, type and schema version, the same entries in all slots, and the same lists.
  pub record Agree (a b : Dictionary V) : Type 0 where
    pub fast_array_size : a.fast_array_size ≡ b.fast_array_size
    pub list_size : a.list_size ≡ b.list_size
    pub dictionary_type : a.dictionary_type ≡ b.dictionary_type
    pub schema_version : a.schema_version ≡ b.schema_version
    pub entries : (j : ℕ) → j < a.fast_array_size → SameEntry (slot_at a j) (slot_at b j)
    pub lists : (j : ℕ) → j < a.list_size → SameList (list_at a j) (list_at b j)

  to_Agree : (a b : Dictionary V) → Passes a b → Agree a b
  to_Agree a b p = record {
    fast_array_size = p.fast_array_size;
    list_size = p.list_size;
    dictionary_type = type_code-injective _ _ p.dictionary_type;
    schema_version = p.schema_version;
    entries = λ j h. to_entry _ _ (p.entries j h);
    lists = λ j h. to_list _ _ (p.lists j h);
  }

  of_Agree : (a b : Dictionary V) → Agree a b → Passes a b
  of_Agree a b g = record {
    fast_array_size = g.fast_array_size;
    list_size = g.list_size;
    dictionary_type = ap type_code g.dictionary_type;
    schema_version = g.schema_version;
    entries = λ j h. of_entry _ _ (g.entries j h);
    lists = λ j h. of_list _ _ (g.lists j h);
  }

  -- `Equals` on two valid dictionaries always returns, and returns true exactly when their sizes, types
  -- and schema versions are the same, each slot has entries of one kind with equal payloads, and each list has the
  -- same keys and equal buffers in the same order.
  pub equals_iff :
      (a b : Dictionary V)
      → IsValid a
      → IsValid b
      → (t : Bool) × (equals (some a) (some b) ≡ ok t) × ((t ≡ true) ↔ Agree a b)
  equals_iff a b va vb =
      let (t, run, (to, of)) = equals-Passes a b va vb in
      (t, run, ((λ h. to_Agree a b (to h)), (λ g. of (of_Agree a b g))))
