-- ===== src/Dictionary/Lists/Views.antt =====
-- The list heads as one total function of the list key.
use libccnx_common.Prelude.{
  ℕ, ◌-◌, ◌≤◌, ◌<◌, ◌≡◌, ◌≢◌, inl, inr, List, [], arith, get_or, length-set, get_elem?-eq-get_or,
  get_or-set_self, get_or-set_ne, get_or-replicate, ltb, ltb→lt, ◌==◌, ==_iff, if◌then◌else◌, ok,
  Bool-cases,
}
use libccnx_common.Dictionary.{
  Values, ListEntry, Dictionary, DictionaryType, create, fixed_list_length,
}
use libccnx_common.Dictionary.FastArray.{IsValid}
use libccnx_common.Dictionary.Lists.{get_list_head, set_list_head}

module _ {V : Values} where
  -- The list at a key, and the empty list where there is none.
  abbrev pub list_at : Dictionary V → ℕ → List (ListEntry V)
  list_at d k =
      if ltb k fixed_list_length
      then get_or d.fixed_list_heads k []
      else get_or d.extra_list_heads (k - fixed_list_length) []

  pub get_list_head_lem :
      {d : Dictionary V} (k : ℕ)
      → IsValid d
      → k < d.list_size
      → get_list_head d k ≡ ok (list_at d k)
  unfolding get_list_head
  get_list_head_lem {d} k v h = elim (Bool-cases (ltb k fixed_list_length)) [
    | inl t ↦
        let p : k < 8 = ltb→lt k 8 t in
        rw (t, get_elem?-eq-get_or d.fixed_list_heads k [] (omega arith))
    | inr t ↦
        let p : 8 ≤ k = ground arith in
        rw (t, get_elem?-eq-get_or d.extra_list_heads (k - 8) [] (omega arith))
  ]

  pub list_at-set_list_head :
      {d : Dictionary V} (k : ℕ) (l : List (ListEntry V)) (j : ℕ)
      → IsValid d
      → k < d.list_size
      → list_at (set_list_head d k l) j ≡ (if k == j then l else list_at d j)
  unfolding set_list_head
  list_at-set_list_head {d} k l j v h = elim (Bool-cases (ltb k fixed_list_length)) [
    | inl t ↦ elim (Bool-cases (k == j)) [
      | inl e ↦
          let p : k ≡ j = (==_iff k j).0 e in
          let q : k < 8 = ltb→lt k 8 t in
          rw (e, t, ← p, t, get_or-set_self d.fixed_list_heads k l [] (omega arith))
      | inr e ↦ rw (e, t, get_or-set_ne d.fixed_list_heads l [] (λ (p : k ≡ j). ground arith))
    ]
    | inr t ↦ elim (Bool-cases (k == j)) [
      | inl e ↦
          let p : k ≡ j = (==_iff k j).0 e in
          let q : 8 ≤ k = ground arith in
          rw (e, t, ← p, t, get_or-set_self d.extra_list_heads (k - 8) l [] (omega arith))
      | inr e ↦ elim (Bool-cases (ltb j fixed_list_length)) [
        | inl u ↦ rw (e, t, u)
        | inr u ↦
            let p : k - 8 ≢ j - 8 = ground arith in
            rw (e, t, u, get_or-set_ne d.extra_list_heads l [] p)
      ]
    ]
  ]

  pub set_list_head-IsValid :
      {d : Dictionary V} (k : ℕ) (l : List (ListEntry V))
      → IsValid d
      → IsValid (set_list_head d k l)
  unfolding set_list_head
  set_list_head-IsValid {d} k l v = elim (Bool-cases (ltb k fixed_list_length)) [
    | inl t ↦ rw t (record {
      fixed = rw length-set v.fixed;
      extra = v.extra;
      slots = v.slots;
      fits = v.fits;
      few = v.few;
    })
    | inr t ↦ rw t (record {
      fixed = v.fixed;
      extra = rw length-set v.extra;
      slots = v.slots;
      fits = v.fits;
      few = v.few;
    })
  ]

  pub list_at-create : (buffers lists k : ℕ) → list_at (create V buffers lists) k ≡ []
  unfolding create
  list_at-create buffers lists k = elim (Bool-cases (ltb k fixed_list_length)) [
    | inl t ↦ rw (t, get_or-replicate)
    | inr t ↦ rw (t, get_or-replicate)
  ]

  -- The fields that neither a put nor an insertion changes.
  abbrev pub header : Dictionary V → ℕ × ℕ × DictionaryType × ℕ × ℕ × (ℕ × ℕ) × ℕ × ℕ × ℕ
  header d = (
    d.fast_array_size, d.list_size, d.dictionary_type, d.schema_version, d.generation,
    d.creation_time, d.info_free_function, d.info, d.message_interface,
  )

  pub header-set_list_head :
      (d : Dictionary V) (k : ℕ) (l : List (ListEntry V)) → header (set_list_head d k l) ≡ header d
  unfolding set_list_head
  header-set_list_head d k l = elim (Bool-cases (ltb k fixed_list_length)) [
    | inl t ↦ rw t
    | inr t ↦ rw t
  ]

  pub direct_array-set_list_head :
      (d : Dictionary V) (k : ℕ) (l : List (ListEntry V))
      → (set_list_head d k l).direct_array ≡ d.direct_array
  unfolding set_list_head
  direct_array-set_list_head d k l = elim (Bool-cases (ltb k fixed_list_length)) [
    | inl t ↦ rw t
    | inr t ↦ rw t
  ]
