-- ===== src/Dictionary/Tests.antt =====
-- Dictionaries over numbers: runs, and the theorems at concrete inputs.
use libccnx_common.Prelude.{
  ℕ, zero, suc, ◌≡◌, ◌≢◌, refl, inl, inr, ◌⊎◌, ◌≤◌, Bool, true, false, List, [], ◌∷◌, Option, some,
  arith, ◌==◌, length, replicate, get_or, get_or-replicate, subst, sym, ap, ltb, if◌then◌else◌,
  Bool-cases, ok, trap, ◌↔◌,
}
use libccnx_common.Dictionary.{
  Values, Entry, unset, buffer, ListEntry, Dictionary, unknown, fixed_list_length,
  message_fast_array_end, create, entry_at, put_buffer,
}
use libccnx_common.Dictionary.FastArray.{IsValid, put_entry, accepts, after_put}
use libccnx_common.Dictionary.FastArray.Reads.{Reads, get-put, put_entry_cases}
use libccnx_common.Dictionary.Lists.{put_list_buffer, list_get_by_position, list_get_by_type}
use libccnx_common.Dictionary.Lists.Views.{list_at}
use libccnx_common.Dictionary.Lists.Laws.{Inserted, list_get-put}
use libccnx_common.Dictionary.Lists.Search.{FirstOf, list_get_by_type-FirstOf}
use libccnx_common.Dictionary.Copy.{shallow_copy}
use libccnx_common.Dictionary.Copy.Entries.{IsCopy, shallow_copy-IsCopy}
use libccnx_common.Dictionary.Copy.Laws.{KeysFit, AllKeys}
use libccnx_common.Dictionary.Equals.{equals}
use libccnx_common.Dictionary.Equals.Agreement.{Agree, equals_iff}
use libccnx_common.Dictionary.Equals.Equivalence.{IsLawful, equals_equivalence, nat-IsEquivalence}
use libccnx_common.Dictionary.Equals.Copies.{shallow_copy-ne-source}

abbrev numbers : Values
numbers = record {
  Buffer = ℕ;
  Name = ℕ;
  IoVec = ℕ;
  Json = ℕ;
  Object = ℕ;
  buffer_equals = ◌==◌;
  name_equals = ◌==◌;
  io_vec_equals = ◌==◌;
  json_equals = ◌==◌;
  object_equals = ◌==◌;
}

numbers-IsLawful : IsLawful numbers
numbers-IsLawful = record {
  buffers = nat-IsEquivalence;
  names = nat-IsEquivalence;
  io_vecs = nat-IsEquivalence;
  jsons = nat-IsEquivalence;
  objects = nat-IsEquivalence;
}

abbrev empty : Dictionary numbers
empty = record {
  fixed_list_heads = replicate fixed_list_length [];
  extra_list_heads = [];
  fast_array_size = 5;
  list_size = 3;
  dictionary_type = unknown;
  schema_version = 0;
  generation = 0;
  creation_time = (0, 0);
  info_free_function = 0;
  info = 0;
  message_interface = 0;
  direct_array = replicate message_fast_array_end unset;
}

create-empty : create numbers 5 3 ≡ empty
unfolding create
create-empty = refl

empty-IsValid : IsValid empty
empty-IsValid = omega arith

abbrev seven : Dictionary numbers
seven = record empty {
  direct_array =
      buffer 7
      ∷ unset
      ∷ unset
      ∷ unset
      ∷ unset
      ∷ unset
      ∷ unset
      ∷ unset
      ∷ unset
      ∷ unset
      ∷ unset
      ∷ unset
      ∷ unset
      ∷ unset
      ∷ unset
      ∷ unset
      ∷ unset
      ∷ unset
      ∷ unset
      ∷ unset
      ∷ unset
      ∷ unset
      ∷ unset
      ∷ unset
      ∷ unset
      ∷ unset
      ∷ unset
      ∷ unset
      ∷ unset
      ∷ unset
      ∷ unset
      ∷ unset
      ∷ unset
      ∷ unset
      ∷ [];
}

seven-IsValid : IsValid seven
seven-IsValid = omega arith

put-seven : put_entry empty 0 (buffer 7) ≡ ok (seven, true)
unfolding put_entry put_buffer
put-seven = refl

-- A second buffer does not replace the first.
put_twice : put_entry seven 0 (buffer 8) ≡ ok (seven, false)
unfolding put_entry put_buffer
put_twice = refl

-- Two entries under the keys 2 and 1, and one under 5.
abbrev listed : Dictionary numbers
listed = record seven {
  fixed_list_heads =
      []
      ∷ (record { buffer = 40; key = 2 } ∷ record { buffer = 30; key = 1 } ∷ [])
      ∷ (record { buffer = 50; key = 5 } ∷ [])
      ∷ []
      ∷ []
      ∷ []
      ∷ []
      ∷ []
      ∷ [];
}

-- Only the single entry.
abbrev single : Dictionary numbers
single = record seven {
  fixed_list_heads = [] ∷ [] ∷ (record { buffer = 50; key = 5 } ∷ []) ∷ [] ∷ [] ∷ [] ∷ [] ∷ [] ∷ [];
}

listed-IsValid : IsValid listed
listed-IsValid = omega arith

single-IsValid : IsValid single
single-IsValid = omega arith

list_order : list_get_by_position listed 1 0 ≡ ok (some (40, 2))
unfolding list_get_by_position
list_order = refl

-- Past the third list all are empty.
rest_empty :
    (k : ℕ)
    → ◌≡◌ {A = List (ListEntry numbers)}
        (if ltb (suc (suc (suc k))) 8 then get_or (replicate 5 []) k [] else [])
        []
rest_empty k = elim (Bool-cases (ltb (suc (suc (suc k))) 8)) [
  | inl t ↦ rw (t, get_or-replicate {A = List (ListEntry numbers)} 5 [] k)
  | inr t ↦ rw t
]

listed-KeysFit : KeysFit listed
listed-KeysFit zero = tt
listed-KeysFit (suc zero) = omega arith
listed-KeysFit (suc (suc zero)) = omega arith
listed-KeysFit (suc (suc (suc k))) = subst AllKeys (sym (rest_empty k)) tt

single-KeysFit : KeysFit single
single-KeysFit zero = tt
single-KeysFit (suc zero) = tt
single-KeysFit (suc (suc zero)) = omega arith
single-KeysFit (suc (suc (suc k))) = subst AllKeys (sym (rest_empty k)) tt

single_short : (k : ℕ) → length (list_at single k) ≤ 1
single_short zero = omega arith
single_short (suc zero) = omega arith
single_short (suc (suc zero)) = omega arith
single_short (suc (suc (suc k))) = omega (arith, ap length (rest_empty k))

get-put_example :
    Reads seven 0 (buffer 7)
    × ((j : ℕ) → 0 ≢ j → entry_at seven j ≡ entry_at empty j)
    × IsValid seven
get-put_example = get-put empty seven 0 (buffer 7) empty-IsValid (omega arith) put-seven

put_entry_cases_example :
    (5 ≤ 0) × (put_entry seven 0 (buffer 8) ≡ trap)
    ⊎ ((old : Entry numbers) × (entry_at seven 0 ≡ ok old)
        × (put_entry seven 0 (buffer 8)
            ≡ ok (after_put seven 0 old (buffer 8), accepts old (buffer 8)))
        × IsValid (after_put seven 0 old (buffer 8)))
put_entry_cases_example = put_entry_cases seven 0 (buffer 8) seven-IsValid (λ e. cc)

list_get-put_example :
    (d' : Dictionary numbers) × (put_list_buffer listed 1 3 60 ≡ ok (d', true))
    × Inserted listed d' 1 3 60
list_get-put_example = list_get-put listed 1 3 60 listed-IsValid (omega arith)

list_get_by_type-FirstOf_example :
    (o : Option ℕ) × (list_get_by_type listed 1 1 ≡ ok o) × FirstOf listed 1 1 o
list_get_by_type-FirstOf_example = list_get_by_type-FirstOf listed 1 1 listed-IsValid (omega arith)

shallow_copy-IsCopy_example :
    (copy : Dictionary numbers) × (shallow_copy listed ≡ ok copy) × IsCopy listed copy
shallow_copy-IsCopy_example = shallow_copy-IsCopy listed listed-IsValid listed-KeysFit

equals_iff_example :
    (t : Bool) × (equals (some listed) (some single) ≡ ok t) × ((t ≡ true) ↔ Agree listed single)
equals_iff_example = equals_iff listed single listed-IsValid single-IsValid

equals_equivalence_example :
    (equals (some listed) (some listed) ≡ ok true)
    × (equals (some listed) (some single) ≡ ok true → equals (some single) (some listed) ≡ ok true)
    × (equals (some listed) (some single) ≡ ok true
        → equals (some single) (some listed) ≡ ok true
        → equals (some listed) (some listed) ≡ ok true)
equals_equivalence_example =
    equals_equivalence numbers-IsLawful listed single listed listed-IsValid single-IsValid
      listed-IsValid

shallow_copy-ne-source_example :
    (copy : Dictionary numbers) × (shallow_copy listed ≡ ok copy)
    × (equals (some listed) (some copy) ≡ ok false)
shallow_copy-ne-source_example =
    shallow_copy-ne-source listed 1 (record { buffer = 40; key = 2 })
      (record { buffer = 30; key = 1 }) [] listed-IsValid listed-KeysFit (omega arith) refl
      (omega arith)
