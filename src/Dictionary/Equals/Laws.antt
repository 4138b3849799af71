-- ===== src/Dictionary/Equals/Laws.antt =====
-- `ccnxTlvDictionary_Equals` ends on valid dictionaries, and decides when two of them agree.
use libccnx_common.Prelude.{
  ℕ, zero, suc, ◌+◌, ◌≤◌, ◌<◌, ◌≡◌, refl, subst, ◌↔◌, inl, inr, Bool, true, false, ◌&&◌, some,
  arith, ◌==◌, ==_iff, get_or, get_elem?-eq-get_or, lt→ltb, ◌^◌, Result, ok, Bool-cases,
}
use libccnx_common.Dictionary.{Values, Entry, unset, Dictionary, message_fast_array_end}
use libccnx_common.Dictionary.FastArray.{IsValid}
use libccnx_common.Dictionary.Lists.Views.{list_at, get_list_head_lem}
use libccnx_common.Dictionary.Equals.{
  type_code, entry_equals, list_equals, fast_array_equals, lists_equals, same_header, equals,
}

-- A loop that stops at the first test that fails: the rounds left, then the index.
unfoldable pub all_from : (ℕ → Bool) → ℕ → ℕ → Bool
all_from p zero i = true
all_from p (suc r) i = elim (p i) [ true ↦ all_from p r (suc i) | false ↦ false ]

all_from_to :
    (p : ℕ → Bool) (r i : ℕ) → all_from p r i ≡ true → (j : ℕ) → i ≤ j → j < i + r → p j ≡ true
unfolding all_from
all_from_to p zero i h j le lt = absurd (omega arith)
all_from_to p (suc r) i h j le lt = elim (Bool-cases (p i)) [
  | inl t ↦ elim (Bool-cases (i == j)) [
    | inl e ↦ subst (λ k. p k ≡ true) ((==_iff i j).0 e) t
    | inr n ↦ all_from_to p r (suc i) (rw (t, all_from) at h) j (ground arith) (omega arith)
  ]
  | inr f ↦ let q : false ≡ true = rw (f, all_from) at h in cc
]

all_from_of :
    (p : ℕ → Bool) (r i : ℕ) → ((j : ℕ) → i ≤ j → j < i + r → p j ≡ true) → all_from p r i ≡ true
unfolding all_from
all_from_of p zero i h = refl
all_from_of p (suc r) i h =
    rw (h i (omega arith) (omega arith), all_from)
      (all_from_of p r (suc i) (λ j le lt. h j (omega arith) (omega arith)))

four_tests :
    (a b c d e f g h : ℕ)
    → (((a == b) && (c == d) && (e == f) && (g == h)) ≡ true)
      ↔ ((a ≡ b) × (c ≡ d) × (e ≡ f) × (g ≡ h))
four_tests a b c d e f g h = ground arith

-- The value of such a loop on results, round by round.
stop_unless :
    (t : Bool) (m : Result Bool) (b : Bool)
    → m ≡ ok b
    → (elim t [ true ↦ m | false ↦ ok false ]) ≡ ok (elim t [ true ↦ b | false ↦ false ])
stop_unless true m b h = h
stop_unless false m b h = refl

module _ {V : Values} where
  -- The entry in a slot.
  abbrev pub slot_at : Dictionary V → ℕ → Entry V
  slot_at d j = get_or d.direct_array j unset

  abbrev pub same_entry : Dictionary V → Dictionary V → ℕ → Bool
  same_entry a b j = entry_equals (slot_at a j) (slot_at b j)

  abbrev pub same_list : Dictionary V → Dictionary V → ℕ → Bool
  same_list a b j = list_equals (list_at a j) (list_at b j)

  fast_array_equals_lem :
      (r : ℕ) (a b : Dictionary V) (i : ℕ)
      → IsValid a
      → IsValid b
      → i + r ≤ message_fast_array_end
      → fast_array_equals r a b i ≡ ok (all_from (same_entry a b) r i)
  unfolding fast_array_equals all_from
  fast_array_equals_lem zero a b i va vb h = refl
  fast_array_equals_lem (suc r) a b i va vb h =
      rw
        (
          get_elem?-eq-get_or a.direct_array i unset (omega arith),
          get_elem?-eq-get_or b.direct_array i unset (omega arith),
        )
        (stop_unless _ _ _ (fast_array_equals_lem r a b (suc i) va vb (omega arith)))

  lists_equals_lem :
      (r : ℕ) (a b : Dictionary V) (i : ℕ)
      → IsValid a
      → IsValid b
      → i + r ≤ a.list_size
      → i + r ≤ b.list_size
      → lists_equals r a b i ≡ ok (all_from (same_list a b) r i)
  unfolding lists_equals all_from
  lists_equals_lem zero a b i va vb h h' = refl
  lists_equals_lem (suc r) a b i va vb h h' =
      rw
        (
          get_list_head_lem i va (omega arith),
          get_list_head_lem i vb (omega arith),
          lt→ltb (suc i) (2 ^ 31) (omega (arith, va.few)),
        )
        (stop_unless _ _ _ (lists_equals_lem r a b (suc i) va vb (omega arith) (omega arith)))

  -- The tests that two equal dictionaries pass.
  pub record Passes (a b : Dictionary V) : Type 0 where
    pub fast_array_size : a.fast_array_size ≡ b.fast_array_size
    pub list_size : a.list_size ≡ b.list_size
    pub dictionary_type : type_code a.dictionary_type ≡ type_code b.dictionary_type
    pub schema_version : a.schema_version ≡ b.schema_version
    pub entries : (j : ℕ) → j < a.fast_array_size → same_entry a b j ≡ true
    pub lists : (j : ℕ) → j < a.list_size → same_list a b j ≡ true

  pub same_header_iff :
      (a b : Dictionary V)
      → (same_header a b ≡ true) ↔ (
          (a.fast_array_size ≡ b.fast_array_size)
          × (a.list_size ≡ b.list_size)
          × (type_code a.dictionary_type ≡ type_code b.dictionary_type)
          × (a.schema_version ≡ b.schema_version))
  same_header_iff a b = four_tests _ _ _ _ _ _ _ _

  pub equals-Passes :
      (a b : Dictionary V)
      → IsValid a
      → IsValid b
      → (t : Bool) × (equals (some a) (some b) ≡ ok t) × ((t ≡ true) ↔ Passes a b)
  unfolding equals
  equals-Passes a b va vb = elim (Bool-cases (same_header a b)) [
    | inl t ↦
        let (fast, lists, kind, version) = (same_header_iff a b).0 t in
        let slots = fast_array_equals_lem a.fast_array_size a b 0 va vb (omega (arith, va.fits)) in
        let heads = lists_equals_lem a.list_size a b 0 va vb (omega arith) (omega arith) in
        elim (Bool-cases (all_from (same_entry a b) a.fast_array_size 0)) [
          | inl f ↦ (
            all_from (same_list a b) a.list_size 0,
            rw (t, equals, slots, f) heads,
            (
              (λ l. record {
                fast_array_size = fast;
                list_size = lists;
                dictionary_type = kind;
                schema_version = version;
                entries = λ j lt. all_from_to _ _ 0 f j (omega arith) (omega arith);
                lists = λ j lt. all_from_to _ _ 0 l j (omega arith) (omega arith);
              }),
              (λ g. all_from_of _ _ 0 (λ j le lt. g.lists j (omega arith))),
            ),
          )
          | inr f ↦ (
            false,
            rw (t, equals, slots, f),
            (
              (λ p. cc),
              (λ g. cc (
                f,
                all_from_of (same_entry a b) a.fast_array_size 0
                    (λ j le lt. g.entries j (omega arith)),
              )),
            ),
          )
        ]
    | inr f ↦ (
      false,
      rw (f, equals),
      (
        (λ p. cc),
        (λ g. cc (
          f,
          (same_header_iff a b).1
              (g.fast_array_size, g.list_size, g.dictionary_type, g.schema_version),
        )),
      ),
    )
  ]
