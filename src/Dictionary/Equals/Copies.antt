-- ===== src/Dictionary/Equals/Copies.antt =====
-- What `ccnxTlvDictionary_Equals` says of a dictionary and its `ShallowCopy`.
use libccnx_common.Prelude.{
  ℕ, ◌≤◌, ◌<◌, ◌≡◌, ◌≢◌, refl, sym, ap, ◌∙◌, subst, inl, inr, true, false, List, [], ◌∷◌, ◌++◌,
  reverse, reverse-append, some, arith, length, ==_ne, get_elem?-eq-get_or, lt→ltb, ok,
  ok-injective, Bool-cases,
}
use libccnx_common.Dictionary.{Values, Entry, ListEntry, Dictionary, entry_at}
use libccnx_common.Dictionary.FastArray.{IsValid}
use libccnx_common.Dictionary.Lists.Views.{list_at}
use libccnx_common.Dictionary.Copy.{shallow_copy}
use libccnx_common.Dictionary.Copy.Laws.{KeysFit}
use libccnx_common.Dictionary.Copy.Entries.{IsCopy, shallow_copy-IsCopy}
use libccnx_common.Dictionary.Equals.{entry_equals, list_equals, equals, type_code}
use libccnx_common.Dictionary.Equals.Laws.{equals-Passes, slot_at}
use libccnx_common.Dictionary.Equals.Equivalence.{
  IsLawful, entry_equals_refl, list_equals_refl, equals_of_Passes,
}

reverse_short {ℓ} : {A : Type ℓ} (l : List A) → length l ≤ 1 → reverse l ≡ l
reverse_short [] h = refl
reverse_short (x ∷ []) h = refl
reverse_short (x ∷ y ∷ l) h = absurd (omega arith)

reverse_ends {ℓ} :
    {A : Type ℓ} (x y : A) (mid : List A)
    → reverse (x ∷ (mid ++ (y ∷ []))) ≡ y ∷ (reverse mid ++ (x ∷ []))
reverse_ends x y mid = rw (reverse-append (x ∷ []) (mid ++ (y ∷ [])), reverse-append mid (y ∷ []))

module _ {V : Values} where
  entry_at-slot_at :
      (d : Dictionary V) (j : ℕ)
      → IsValid d
      → j < d.fast_array_size
      → entry_at d j ≡ ok (slot_at d j)
  entry_at-slot_at d j v h = rw (lt→ltb _ _ h) (
      rw (
        get_elem?-eq-get_or {A = Entry V} d.direct_array j Entry.unset
          (omega (arith, v.slots, v.fits))))

  slot_at_copy :
      {source copy : Dictionary V} (j : ℕ)
      → IsValid source
      → IsCopy source copy
      → j < source.fast_array_size
      → slot_at copy j ≡ slot_at source j
  slot_at_copy {source} {copy} j v c h =
      let size : copy.fast_array_size ≡ source.fast_array_size = ap (λ r. r.0) c.kept in
      ok-injective (
        sym (entry_at-slot_at copy j c.valid (omega arith))
        ∙ c.entries j h
        ∙ entry_at-slot_at source j v h)

  -- The copy of a valid dictionary with at most one entry in each list compares equal to it.
  pub shallow_copy-equals :
      (source : Dictionary V)
      → IsLawful V
      → IsValid source
      → KeysFit source
      → ((j : ℕ) → length (list_at source j) ≤ 1)
      → (copy : Dictionary V) × (shallow_copy source ≡ ok copy)
        × (equals (some source) (some copy) ≡ ok true)
  shallow_copy-equals source law v fits short =
      let (copy, run, c) = shallow_copy-IsCopy source v fits in
      (
        copy,
        run,
        equals_of_Passes law source copy v c.valid (record {
          fast_array_size = sym (ap (λ r. r.0) c.kept);
          list_size = sym (ap (λ r. r.1) c.kept);
          dictionary_type = sym (ap (λ r. type_code r.2) c.kept);
          schema_version = sym (ap (λ r. r.3) c.kept);
          entries = λ j lt.
              subst (λ e. entry_equals (slot_at source j) e ≡ true) (sym (slot_at_copy j v c lt))
                (entry_equals_refl law (slot_at source j));
          lists = λ j lt.
              subst (λ l. list_equals (list_at source j) l ≡ true)
                (sym (c.lists j lt ∙ reverse_short _ (short j)))
                (list_equals_refl law (list_at source j));
        }),
      )

  list_equals_heads :
      (x y : ListEntry V) (l m : List (ListEntry V))
      → x.key ≢ y.key
      → list_equals (x ∷ l) (y ∷ m) ≡ false
  unfolding list_equals
  list_equals_heads x y l m ne = rw (==_ne ne)

  -- The copy of a valid dictionary with a list whose first and last key differ compares unequal to it.
  pub shallow_copy-ne-source :
      (source : Dictionary V) (k : ℕ) (x y : ListEntry V) (mid : List (ListEntry V))
      → IsValid source
      → KeysFit source
      → k < source.list_size
      → list_at source k ≡ x ∷ (mid ++ (y ∷ []))
      → x.key ≢ y.key
      → (copy : Dictionary V) × (shallow_copy source ≡ ok copy)
        × (equals (some source) (some copy) ≡ ok false)
  shallow_copy-ne-source source k x y mid v fits h e ne =
      let (copy, run, c) = shallow_copy-IsCopy source v fits in
      let (t, compared, (to, of)) = equals-Passes source copy v c.valid in
      (
        copy,
        run,
        compared
            ∙ ap ok (elim (Bool-cases t) [
              | inr f ↦ f
              | inl p ↦
                  let same : list_equals (list_at source k) (list_at copy k) ≡ true =
                    (to p).lists k h in
                  let apart : list_equals (list_at source k) (list_at copy k) ≡ false =
                    rw (c.lists k h, e, reverse_ends x y mid) (list_equals_heads x y _ _ ne) in
                  cc
            ]),
      )
