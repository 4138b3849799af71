-- ===== src/Dictionary/Copy/Laws.antt =====
-- The list loops of `ShallowCopy`: each list of the copy is the source's in reverse.
use libccnx_common.Prelude.{
  lt→ltb, ℕ, zero, suc, ◌+◌, ◌%◌, ◌^◌, ◌≤◌, ◌<◌, ◌≡◌, refl, ap, subst, ◌∙◌, ◌≢◌, inl, inr, List, [],
  ◌∷◌, ◌++◌, reverse, reverse-append, append_assoc, append-nil, some, arith, length, ◌==◌, ==_iff,
  ==_ne, ==_refl, ok, Bool-cases,
}
use libccnx_common.Dictionary.{Values, ListEntry, Dictionary}
use libccnx_common.Dictionary.FastArray.{IsValid}
use libccnx_common.Dictionary.Lists.{list_entry, by_position, list_get_by_position}
use libccnx_common.Dictionary.Lists.Views.{
  list_at, list_at-set_list_head, set_list_head-IsValid, header, header-set_list_head,
  direct_array-set_list_head,
}
use libccnx_common.Dictionary.Lists.Laws.{
  list_size_lem, list_get_by_position_lem, put_list_buffer_lem, after_insert,
}
use libccnx_common.Dictionary.Copy.{copy_list, copy_lists}

reverse-cons {ℓ} :
    {A : Type ℓ} (l : List A) (x : A) (r : List A) → reverse l ++ (x ∷ r) ≡ reverse (x ∷ l) ++ r
reverse-cons l x r = rw (reverse-append (x ∷ []) l, append_assoc)

module _ {V : Values} where
  -- Every key fits the uint16_t that holds it.
  abbrev pub AllKeys : List (ListEntry V) → Type 0
  AllKeys [] = Unit
  AllKeys (e ∷ l) = (e.key < 2 ^ 16) × AllKeys l

  abbrev pub KeysFit : Dictionary V → Type 0
  KeysFit d = (k : ℕ) → AllKeys (list_at d k)

  list_entry_lem : (e : ListEntry V) → e.key < 2 ^ 16 → list_entry e.key e.buffer ≡ e
  unfolding list_entry
  list_entry_lem e h =
      let p : e.key % 2 ^ 16 ≡ e.key = omega arith in λ i. record { buffer = e.buffer; key = p i }

  -- `new'` is `new` with `l` as list `k`.
  record ListSet (new new' : Dictionary V) (k : ℕ) (l : List (ListEntry V)) : Type 0 where
    valid : IsValid new'
    kept : header new' ≡ header new
    entries : new'.direct_array ≡ new.direct_array
    here : list_at new' k ≡ l
    elsewhere : (j : ℕ) → k ≢ j → list_at new' j ≡ list_at new j

  ListSet-insert :
      (new : Dictionary V) (k : ℕ) (e : ListEntry V)
      → e.key < 2 ^ 16
      → IsValid new
      → k < new.list_size
      → ListSet new (after_insert new k e.key e.buffer) k (e ∷ list_at new k)
  ListSet-insert new k e fits v h = record {
    valid = set_list_head-IsValid k _ v;
    kept = header-set_list_head new k _;
    entries = direct_array-set_list_head new k _;
    here = list_at-set_list_head k _ k v h ∙ rw (==_refl, list_entry_lem e fits);
    elsewhere = λ j ne. list_at-set_list_head k _ j v h ∙ rw (==_ne ne);
  }

  ListSet-trans :
      {a b c : Dictionary V} {k : ℕ} {l l' : List (ListEntry V)}
      → ListSet a b k l
      → ListSet b c k l'
      → ListSet a c k l'
  ListSet-trans p q = record {
    valid = q.valid;
    kept = q.kept ∙ p.kept;
    entries = q.entries ∙ p.entries;
    here = q.here;
    elsewhere = λ j ne. q.elsewhere j ne ∙ p.elsewhere j ne;
  }

  -- What is left of the source's list goes to the head of the new list, entry by entry.
  copy_list_lem :
      (rest : List (ListEntry V)) (source : Dictionary V) (k i : ℕ) (new : Dictionary V)
      → IsValid source
      → k < source.list_size
      → ((j : ℕ) → by_position (list_at source k) (i + j) ≡ by_position rest j)
      → AllKeys rest
      → IsValid new
      → k < new.list_size
      → (new' : Dictionary V) × (copy_list (length rest) source k i new ≡ ok new')
        × ListSet new new' k (reverse rest ++ list_at new k)
  unfolding copy_list by_position
  copy_list_lem [] source k i new vs hs at fits v h = (
    new,
    refl,
    record { valid = v; kept = refl; entries = refl; here = refl; elsewhere = λ j ne. refl },
  )
  copy_list_lem (e ∷ rest) source k i new vs hs at (fit, fits) v h =
      let found : list_get_by_position source k i ≡ ok (some (e.buffer, e.key)) =
        list_get_by_position_lem k i vs hs
        ∙ ap ok (ap (by_position (list_at source k)) (omega arith) ∙ at 0) in
      let put = put_list_buffer_lem k e.key e.buffer v h in
      let one = ListSet-insert new k e fit v h in
      let (new', run, more) =
        copy_list_lem rest source k (suc i) (after_insert new k e.key e.buffer) vs hs
          (λ j. ap (by_position (list_at source k)) (omega arith) ∙ at (suc j)) fits one.valid
          (rw (ap (λ r. r.1) one.kept) h) in
      let same = ap (λ l. reverse rest ++ l) one.here ∙ reverse-cons rest e (list_at new k) in
      (new', rw (found, put) run, subst (ListSet new new' k) same (ListSet-trans one more))

  -- `new'` is `new` with the lists from `key` on copied, each in reverse.
  pub record ListsCopied (source new new' : Dictionary V) (key : ℕ) : Type 0 where
    pub valid : IsValid new'
    pub kept : header new' ≡ header new
    pub entries : new'.direct_array ≡ new.direct_array
    pub below : (j : ℕ) → j < key → list_at new' j ≡ list_at new j
    pub copied :
        (j : ℕ) → key ≤ j → j < source.list_size → list_at new' j ≡ reverse (list_at source j)

  pub copy_lists_lem :
      (rounds : ℕ) (source : Dictionary V) (key : ℕ) (new : Dictionary V)
      → key + rounds ≡ source.list_size
      → IsValid source
      → KeysFit source
      → IsValid new
      → new.list_size ≡ source.list_size
      → ((j : ℕ) → key ≤ j → list_at new j ≡ [])
      → (new' : Dictionary V) × (copy_lists rounds source key new ≡ ok new')
        × ListsCopied source new new' key
  unfolding copy_lists
  copy_lists_lem zero source key new sum vs fits v size empty = (
    new,
    refl,
    record {
      valid = v;
      kept = refl;
      entries = refl;
      below = λ j lt. refl;
      copied = λ j le lt. absurd (omega arith);
    },
  )
  copy_lists_lem (suc rounds) source key new sum vs fits v size empty =
      let counted = list_size_lem key vs (omega arith) in
      let (mid, run, one) =
        copy_list_lem (list_at source key) source key 0 new vs (omega arith)
          (λ j. ap (by_position (list_at source key)) (omega arith)) (fits key) v (omega arith) in
      let (new', runs, more) =
        copy_lists_lem rounds source (suc key) mid (omega arith) vs fits one.valid
          (ap (λ r. r.1) one.kept ∙ size)
          (λ j le. one.elsewhere j (omega arith) ∙ empty j (omega arith)) in
      let at_key : list_at new' key ≡ reverse (list_at source key) =
        more.below key (omega arith)
        ∙ one.here
        ∙ ap (λ l. reverse (list_at source key) ++ l) (empty key (omega arith))
        ∙ append-nil _ in
      (
        new',
        rw (counted, run, lt→ltb (suc key) (2 ^ 32) (omega (arith, vs.few))) runs,
        record {
          valid = more.valid;
          kept = more.kept ∙ one.kept;
          entries = more.entries ∙ one.entries;
          below = λ j lt. more.below j (omega arith) ∙ one.elsewhere j (omega arith);
          copied = λ j le lt. elim (Bool-cases (key == j)) [
            | inl e ↦
                subst (λ i. list_at new' i ≡ reverse (list_at source i)) ((==_iff key j).0 e) at_key
            | inr n ↦ more.copied j (ground arith) lt
          ];
        },
      )
