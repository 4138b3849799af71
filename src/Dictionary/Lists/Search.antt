-- ===== src/Dictionary/Lists/Search.antt =====
-- What `ListGetByType` finds.
use libccnx_common.Prelude.{
  ℕ, zero, suc, ◌<◌, ◌≡◌, sym, ap, ◌∙◌, ◌≢◌, inl, inr, List, [], ◌∷◌, Option, none, some, false,
  arith, ◌==◌, ==_iff, ok, ok-injective, Bool-cases,
}
use libccnx_common.Dictionary.{Values, ListEntry, Dictionary}
use libccnx_common.Dictionary.FastArray.{IsValid}
use libccnx_common.Dictionary.Lists.{by_position, list_get_by_position, by_type, list_get_by_type}
use libccnx_common.Dictionary.Lists.Views.{list_at}
use libccnx_common.Dictionary.Lists.Laws.{list_get_by_position_lem, list_get_by_type_lem}

module _ {V : Values} where
  -- The answers of a search by type: the buffer at the first position that has the type, or none
  -- where no position has it.
  abbrev Answer : List (ListEntry V) → ℕ → Option V.Buffer → Type 0
  Answer l t none = (i : ℕ) (c : V.Buffer) → by_position l i ≢ some (c, t)
  Answer l t (some b) =
      (i : ℕ) × (by_position l i ≡ some (b, t))
      × ((j : ℕ) (c : V.Buffer) → j < i → by_position l j ≢ some (c, t))

  head_ne :
      (e : ListEntry V) (t : ℕ) (c : V.Buffer)
      → (e.key == t) ≡ false
      → ◌≢◌ {A = Option (V.Buffer × ℕ)} (some (e.buffer, e.key)) (some (c, t))
  head_ne e t c n h = let p : e.key ≡ t = cc in cc (n, (==_iff e.key t).1 p)

  Answer-cons :
      (e : ListEntry V) (l : List (ListEntry V)) (t : ℕ) (o : Option V.Buffer)
      → (e.key == t) ≡ false
      → Answer l t o
      → Answer (e ∷ l) t o
  unfolding by_position
  Answer-cons e l t none n h = miss
    where
      miss : (i : ℕ) (c : V.Buffer) → by_position (e ∷ l) i ≢ some (c, t)
      miss zero c = head_ne e t c n
      miss (suc i) c = h i c
  Answer-cons e l t (some b) n (i, at, before) = (suc i, at, earlier)
    where
      earlier : (j : ℕ) (c : V.Buffer) → j < suc i → by_position (e ∷ l) j ≢ some (c, t)
      earlier zero c lt = head_ne e t c n
      earlier (suc j) c lt = before j c (omega arith)

  by_type-Answer : (l : List (ListEntry V)) (t : ℕ) → Answer l t (by_type l t)
  unfolding by_type by_position
  by_type-Answer [] t = λ i c h. cc
  by_type-Answer (e ∷ l) t = elim (Bool-cases (e.key == t)) [
    | inl y ↦ let p : e.key ≡ t = (==_iff e.key t).0 y in rw y (zero, rw p, λ j c lt. elim lt [ ])
    | inr n ↦ rw n (Answer-cons e l t (by_type l t) n (by_type-Answer l t))
  ]

  -- The same, of the dictionary's getters.
  abbrev pub FirstOf : Dictionary V → ℕ → ℕ → Option V.Buffer → Type 0
  FirstOf d k t none = (i : ℕ) (c : V.Buffer) → list_get_by_position d k i ≢ ok (some (c, t))
  FirstOf d k t (some b) =
      (i : ℕ) × (list_get_by_position d k i ≡ ok (some (b, t)))
      × ((j : ℕ) (c : V.Buffer) → j < i → list_get_by_position d k j ≢ ok (some (c, t)))

  -- On a list of a valid dictionary `ListGetByType` returns the buffer of the first position that holds
  -- the type, and NULL exactly when no position holds it.
  pub list_get_by_type-FirstOf :
      (d : Dictionary V) (k t : ℕ)
      → IsValid d
      → k < d.list_size
      → (o : Option V.Buffer) × (list_get_by_type d k t ≡ ok o) × FirstOf d k t o
  list_get_by_type-FirstOf d k t v h =
      (by_type (list_at d k) t, list_get_by_type_lem k t v h, carry _ (by_type-Answer _ t))
    where
      at : (i : ℕ) → list_get_by_position d k i ≡ ok (by_position (list_at d k) i)
      at i = list_get_by_position_lem k i v h

      carry : (o : Option V.Buffer) → Answer (list_at d k) t o → FirstOf d k t o
      carry none a = λ i c p. a i c (ok-injective (sym (at i) ∙ p))
      carry (some b) (i, p, before) =
          (i, at i ∙ ap ok p, λ j c lt q. before j c lt (ok-injective (sym (at j) ∙ q)))
