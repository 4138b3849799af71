-- ===== src/Dictionary/Lists/Laws.antt =====
-- What the list operations of a dictionary return, and what an insertion changes.
use libccnx_common.Prelude.{
  ℕ, zero, suc, ◌+◌, ◌%◌, ◌^◌, ◌≤◌, ◌<◌, ◌≡◌, refl, sym, ap, ◌∙◌, ◌≢◌, List, [], ◌∷◌, none, some,
  true, arith, length, lt→ltb, ==_ne, ==_refl, ok,
}
use libccnx_common.Dictionary.{Values, ListEntry, Dictionary}
use libccnx_common.Dictionary.FastArray.{IsValid}
use libccnx_common.Dictionary.Lists.{
  set_list_head, list_entry, put_list_buffer, by_position, list_get_by_position, by_type,
  list_get_by_type, count_entries, list_size,
}
use libccnx_common.Dictionary.Lists.Views.{
  list_at, get_list_head_lem, list_at-set_list_head, set_list_head-IsValid, header,
  header-set_list_head, direct_array-set_list_head,
}

module _ {V : Values} where
  count_entries_lem : (n : ℕ) (l : List (ListEntry V)) → count_entries n l ≡ n + length l
  unfolding count_entries
  count_entries_lem n [] = omega arith
  count_entries_lem n (e ∷ l) = omega (arith, count_entries_lem (n + 1) l)

  pub list_size_lem :
      {d : Dictionary V} (k : ℕ)
      → IsValid d
      → k < d.list_size
      → list_size d k ≡ ok (length (list_at d k))
  unfolding list_size
  list_size_lem {d} k v h =
      rw (lt→ltb _ _ h, get_list_head_lem k v h)
        (ap ok (omega (arith, count_entries_lem 0 (list_at d k))))

  pub list_get_by_position_lem :
      {d : Dictionary V} (k i : ℕ)
      → IsValid d
      → k < d.list_size
      → list_get_by_position d k i ≡ ok (by_position (list_at d k) i)
  unfolding list_get_by_position
  list_get_by_position_lem {d} k i v h = rw (lt→ltb _ _ h, get_list_head_lem k v h)

  pub list_get_by_type_lem :
      {d : Dictionary V} (k t : ℕ)
      → IsValid d
      → k < d.list_size
      → list_get_by_type d k t ≡ ok (by_type (list_at d k) t)
  unfolding list_get_by_type
  list_get_by_type_lem {d} k t v h = rw (lt→ltb _ _ h, get_list_head_lem k v h)

  abbrev pub after_insert : Dictionary V → ℕ → ℕ → V.Buffer → Dictionary V
  after_insert d k key b = set_list_head d k (list_entry key b ∷ list_at d k)

  pub put_list_buffer_lem :
      {d : Dictionary V} (k key : ℕ) (b : V.Buffer)
      → IsValid d
      → k < d.list_size
      → put_list_buffer d k key b ≡ ok (after_insert d k key b, true)
  unfolding put_list_buffer
  put_list_buffer_lem {d} k key b v h = rw (lt→ltb _ _ h, get_list_head_lem k v h)

  -- What an insertion of `(key, b)` at the head of list `k` shows to the getters.
  pub record Inserted (d d' : Dictionary V) (k key : ℕ) (b : V.Buffer) : Type 0 where
    pub valid : IsValid d'
    pub kept : header d' ≡ header d
    pub entries : d'.direct_array ≡ d.direct_array
    pub size : list_size d' k ≡ ok (length (list_at d k) + 1)
    pub first : list_get_by_position d' k 0 ≡ ok (some (b, key % 2 ^ 16))
    pub later : (i : ℕ) → list_get_by_position d' k (suc i) ≡ list_get_by_position d k i
    pub found : list_get_by_type d' k (key % 2 ^ 16) ≡ ok (some b)
    pub others : (t : ℕ) → key % 2 ^ 16 ≢ t → list_get_by_type d' k t ≡ list_get_by_type d k t
    pub elsewhere : (j : ℕ) → k ≢ j → list_at d' j ≡ list_at d j

  -- `PutListBuffer` into a list of a valid dictionary succeeds and puts the buffer first under the key
  -- cut to 16 bits: the list grows by one, each earlier position moves up by one, a search by that key
  -- finds the new buffer, searches by other keys, the other lists and the fast array are unchanged.
  pub list_get-put :
      (d : Dictionary V) (k key : ℕ) (b : V.Buffer)
      → IsValid d
      → k < d.list_size
      → (d' : Dictionary V) × (put_list_buffer d k key b ≡ ok (d', true)) × Inserted d d' k key b
  unfolding list_entry by_position by_type
  list_get-put d k key b v h = (
    after_insert d k key b,
    put_list_buffer_lem k key b v h,
    record {
      valid = v';
      kept = header-set_list_head d k _;
      entries = direct_array-set_list_head d k _;
      size = list_size_lem k v' h' ∙ ap ok (ap length here ∙ omega arith);
      first = position 0 ∙ ap (λ l. ok (by_position l 0)) here;
      later = λ i.
          position (suc i)
          ∙ ap (λ l. ok (by_position l (suc i))) here
          ∙ sym (list_get_by_position_lem k i v h);
      found = typed (key % 2 ^ 16) ∙ rw (here, ==_refl);
      others = λ t ne. typed t ∙ rw (here, ==_ne ne) (sym (list_get_by_type_lem k t v h));
      elsewhere = λ j ne. list_at-set_list_head k _ j v h ∙ rw (==_ne ne);
    },
  )
    where
      v' : IsValid (after_insert d k key b)
      v' = set_list_head-IsValid k _ v

      h' : k < (after_insert d k key b).list_size
      h' = rw (ap (λ r. r.1) (header-set_list_head d k (list_entry key b ∷ list_at d k))) h

      here : list_at (after_insert d k key b) k ≡ list_entry key b ∷ list_at d k
      here = list_at-set_list_head k _ k v h ∙ rw ==_refl

      position :
          (i : ℕ)
          → list_get_by_position (after_insert d k key b) k i
            ≡ ok (by_position (list_at (after_insert d k key b) k) i)
      position i = list_get_by_position_lem k i v' h'

      typed :
          (t : ℕ)
          → list_get_by_type (after_insert d k key b) k t
            ≡ ok (by_type (list_at (after_insert d k key b) k) t)
      typed t = list_get_by_type_lem k t v' h'

  -- The positions below the size are those that hold an entry.
  by_position-some :
      (l : List (ListEntry V)) (i : ℕ)
      → i < length l
      → (p : V.Buffer × ℕ) × (by_position l i ≡ some p)
  unfolding by_position
  by_position-some [] i h = elim h [ ]
  by_position-some (e ∷ l) zero h = ((e.buffer, e.key), refl)
  by_position-some (e ∷ l) (suc i) h = by_position-some l i (omega arith)

  by_position-none : (l : List (ListEntry V)) (i : ℕ) → length l ≤ i → by_position l i ≡ none
  unfolding by_position
  by_position-none [] i h = refl
  by_position-none (e ∷ l) zero h = elim h [ ]
  by_position-none (e ∷ l) (suc i) h = by_position-none l i (omega arith)

  -- On a list of a valid dictionary `ListGetByPosition` finds an entry at each position below what
  -- `ListSize` returns, and none at the others.
  pub list_size-bounds :
      (d : Dictionary V) (k i : ℕ)
      → IsValid d
      → k < d.list_size
      → (n : ℕ) × (list_size d k ≡ ok n)
        × (i < n → (p : V.Buffer × ℕ) × (list_get_by_position d k i ≡ ok (some p)))
        × (n ≤ i → list_get_by_position d k i ≡ ok none)
  list_size-bounds d k i v h = (
    length (list_at d k),
    list_size_lem k v h,
    (λ lt. let (p, e) = by_position-some _ i lt in (p, list_get_by_position_lem k i v h ∙ ap ok e)),
    (λ ge. list_get_by_position_lem k i v h ∙ ap ok (by_position-none _ i ge)),
  )
