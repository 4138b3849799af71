-- ===== src/Dictionary/Copy/Entries.antt =====
-- The fast array loop of `ShallowCopy`, and the copy as a whole.
use libccnx_common.Prelude.{
  ℕ, zero, suc, ◌+◌, ◌≤◌, ◌<◌, ◌≡◌, refl, sym, ap, subst, ◌∙◌, ◌≢◌, inl, inr, [], reverse, arith,
  lt→ltb, ◌==◌, ==_iff, ==_ne, ==_refl, ok, Bool-cases, length-replicate, get_elem?-replicate,
}
use libccnx_common.Dictionary.{
  Values, Entry, unset, buffer, name, integer, io_vec, json, object, Dictionary, create, entry_at,
  message_fast_array_end,
}
use libccnx_common.Dictionary.FastArray.{
  IsValid, after_put, accepts, entry_at_ok, entry_at-after_put, after_put-IsValid,
}
use libccnx_common.Dictionary.Lists.Views.{list_at, list_at-create, header}
use libccnx_common.Dictionary.Copy.{copy_entry, copy_fast_array, copy_header, shallow_copy}
use libccnx_common.Dictionary.Copy.Laws.{KeysFit, copy_lists_lem}

module _ {V : Values} where
  -- A copied entry is put into the new dictionary under its own kind.
  copy_entry_lem :
      (e : Entry V) (source : Dictionary V) (key : ℕ) (new : Dictionary V)
      → entry_at source key ≡ ok e
      → entry_at new key ≡ ok unset
      → copy_entry e source key new ≡ ok (after_put new key unset e, accepts unset e)
  unfolding copy_entry
  copy_entry_lem unset source key new s n = refl
  copy_entry_lem (buffer b) source key new s n = rw (s, n)
  copy_entry_lem (name b) source key new s n = rw (s, n)
  copy_entry_lem (integer b) source key new s n = rw (s, n)
  copy_entry_lem (io_vec b) source key new s n = rw (s, n)
  copy_entry_lem (json b) source key new s n = rw (s, n)
  copy_entry_lem (object b) source key new s n = rw (s, n)

  -- The slot that was written, which was unset before.
  after_put_self :
      {new : Dictionary V} (key : ℕ) (e : Entry V)
      → IsValid new
      → entry_at new key ≡ ok unset
      → entry_at (after_put new key unset e) key ≡ ok e
  after_put_self {new} key unset v n = n
  after_put_self {new} key (integer m) v n = entry_at-after_put key key (integer m) v n ∙ rw ==_refl
  after_put_self {new} key e v n = entry_at-after_put key key e v n ∙ rw ==_refl

  after_put_other :
      {new : Dictionary V} (key j : ℕ) (e : Entry V)
      → IsValid new
      → entry_at new key ≡ ok unset
      → key ≢ j
      → entry_at (after_put new key unset e) j ≡ entry_at new j
  after_put_other {new} key j unset v n ne = refl
  after_put_other {new} key j (integer m) v n ne =
      entry_at-after_put key j (integer m) v n ∙ rw (==_ne ne)
  after_put_other {new} key j e v n ne = entry_at-after_put key j e v n ∙ rw (==_ne ne)

  -- A put writes the fast array only.
  pub record SameLists (new new' : Dictionary V) : Type 0 where
    pub kept : header new' ≡ header new
    pub lists : (j : ℕ) → list_at new' j ≡ list_at new j

  after_put-SameLists :
      (new : Dictionary V) (key : ℕ) (e : Entry V) → SameLists new (after_put new key unset e)
  after_put-SameLists new key unset = record { kept = refl; lists = λ j. refl }
  after_put-SameLists new key e = record { kept = refl; lists = λ j. refl }

  record EntriesCopied (source new new' : Dictionary V) (key : ℕ) : Type 0 where
    valid : IsValid new'
    same : SameLists new new'
    below : (j : ℕ) → j < key → entry_at new' j ≡ entry_at new j
    copied : (j : ℕ) → key ≤ j → j < source.fast_array_size → entry_at new' j ≡ entry_at source j

  copy_fast_array_lem :
      (rounds : ℕ) (source : Dictionary V) (key : ℕ) (new : Dictionary V)
      → key + rounds ≡ source.fast_array_size
      → IsValid source
      → IsValid new
      → new.fast_array_size ≡ source.fast_array_size
      → ((j : ℕ) → key ≤ j → j < source.fast_array_size → entry_at new j ≡ ok unset)
      → (new' : Dictionary V) × (copy_fast_array rounds source key new ≡ ok new')
        × EntriesCopied source new new' key
  unfolding copy_fast_array
  copy_fast_array_lem zero source key new sum vs v size empty = (
    new,
    refl,
    record {
      valid = v;
      same = record { kept = refl; lists = λ j. refl };
      below = λ j lt. refl;
      copied = λ j le lt. absurd (omega arith);
    },
  )
  copy_fast_array_lem (suc rounds) source key new sum vs v size empty =
      let (e, slot, at) = entry_at_ok key vs (omega arith) in
      let blank = empty key (omega arith) (omega arith) in
      let mid = after_put new key unset e in
      let one = after_put-SameLists new key e in
      let (new', runs, more) =
        copy_fast_array_lem rounds source (suc key) mid (omega arith) vs
          (after_put-IsValid key unset e v) (ap (λ r. r.0) one.kept ∙ size)
          (λ j le lt. after_put_other key j e v blank (omega arith) ∙ empty j (omega arith) lt) in
      let at_key : entry_at new' key ≡ entry_at source key =
        more.below key (omega arith) ∙ after_put_self key e v blank ∙ sym at in
      (
        new',
        rw (slot, copy_entry_lem e source key new at blank) runs,
        record {
          valid = more.valid;
          same = record {
            kept = more.same.kept ∙ one.kept;
            lists = λ j. more.same.lists j ∙ one.lists j;
          };
          below =
              λ j lt. more.below j (omega arith) ∙ after_put_other key j e v blank (omega arith);
          copied = λ j le lt. elim (Bool-cases (key == j)) [
            | inl q ↦ subst (λ i. entry_at new' i ≡ entry_at source i) ((==_iff key j).0 q) at_key
            | inr n ↦ more.copied j (ground arith) lt
          ];
        },
      )

  pub record IsCopy (source copy : Dictionary V) : Type 0 where
    pub valid : IsValid copy
    pub kept : header copy ≡ header source
    pub entries : (j : ℕ) → j < source.fast_array_size → entry_at copy j ≡ entry_at source j
    pub lists : (j : ℕ) → j < source.list_size → list_at copy j ≡ reverse (list_at source j)

  entry_at_cong :
      (d d' : Dictionary V) (j : ℕ)
      → d'.fast_array_size ≡ d.fast_array_size
      → d'.direct_array ≡ d.direct_array
      → entry_at d' j ≡ entry_at d j
  entry_at_cong d d' j p q = rw (p, q)

  header_unset :
      (source : Dictionary V) (j : ℕ)
      → IsValid source
      → j < source.fast_array_size
      → entry_at (copy_header source) j ≡ ok unset
  unfolding create
  header_unset source j v h =
      rw (
        lt→ltb _ _ h,
        get_elem?-replicate {A = Entry V} message_fast_array_end unset j (omega arith),
      )

  copy_header-IsValid : (source : Dictionary V) → IsValid source → IsValid (copy_header source)
  unfolding create
  copy_header-IsValid source v = record {
    fixed = refl;
    extra = length-replicate _ _;
    slots = refl;
    fits = v.fits;
    few = v.few;
  }

  header-copy_header : (source : Dictionary V) → header (copy_header source) ≡ header source
  unfolding create
  header-copy_header source = refl

  list_at-copy_header : (source : Dictionary V) (j : ℕ) → list_at (copy_header source) j ≡ []
  unfolding create
  list_at-copy_header source j = list_at-create 0 source.list_size j

  -- `ShallowCopy` of a valid dictionary whose list keys fit 16 bits succeeds: the copy is valid, has the
  -- source's header fields and fast array, and holds every list in reverse order.
  pub shallow_copy-IsCopy :
      (source : Dictionary V)
      → IsValid source
      → KeysFit source
      → (copy : Dictionary V) × (shallow_copy source ≡ ok copy) × IsCopy source copy
  unfolding shallow_copy
  shallow_copy-IsCopy source v fits =
      let start = copy_header source in
      let same = header-copy_header source in
      let (mid, run, a) =
        copy_lists_lem source.list_size source 0 start (omega arith) v fits
          (copy_header-IsValid source v) (ap (λ r. r.1) same)
          (λ j le. list_at-copy_header source j) in
      let kept = a.kept ∙ same in
      let blank = λ (j : ℕ) (le : 0 ≤ j) (lt : j < source.fast_array_size).
        entry_at_cong start mid j (ap (λ r. r.0) a.kept) a.entries ∙ header_unset source j v lt in
      let (copy, run', b) =
        copy_fast_array_lem source.fast_array_size source 0 mid (omega arith) v a.valid
          (ap (λ r. r.0) kept) blank in
      (
        copy,
        rw run run',
        record {
          valid = b.valid;
          kept = b.same.kept ∙ kept;
          entries = λ j lt. b.copied j (omega arith) lt;
          lists = λ j lt. b.same.lists j ∙ a.copied j (omega arith) lt;
        },
      )
