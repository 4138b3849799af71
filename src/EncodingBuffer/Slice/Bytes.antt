-- ===== src/EncodingBuffer/Slice/Bytes.antt =====
-- The bytes that a slice holds.
use libccnx_common.Prelude.{
  ℕ, zero, suc, ◌+◌, ◌-◌, ◌%◌, ◌^◌, ◌≤◌, ◌<◌, ◌≡◌, refl, sym, ap, ◌∙◌, inl, inr, List, [], ◌∷◌,
  ◌++◌, append_assoc, append-nil, Option, none, some, map, min, length, set, take, drop, ltb, ok,
  arith, Bool-cases, lt→ltb, le→ltb, le→leb, ltb→lt, ==_true, ==_ne,
}
use libccnx_common.Prelude.Segments.{take-all, drop-drop, drop-nil}
use libccnx_common.EncodingBuffer.{IoVec, ArrayEntry}
use libccnx_common.EncodingBuffer.Laws.{
  vecs_of, IsArrayValid, vecs_of-counted, counted-IsArrayValid, count_small,
}
use libccnx_common.EncodingBuffer.Slice.{
  int_of, base_behind, SliceState, cut_length, cut_entry, passed, taken, slice_entry, slice_entries,
}

int_small : (n : ℕ) → n < 2 ^ 31 → int_of n ≡ n
unfolding int_of
int_small n h = let e : n % 2 ^ 32 ≡ n = omega arith in rw (e, lt→ltb n (2 ^ 31) h) refl

cut_length-min : (n m : ℕ) → n < 2 ^ 31 → cut_length n m ≡ min n m
unfolding cut_length
cut_length-min n m h = elim (Bool-cases (ltb m n)) [
  | inl t ↦
      rw (int_small n h, t)
        (int_small m (omega (arith, ltb→lt m n t)) ∙ omega (arith, ltb→lt m n t))
  | inr t ↦ rw (int_small n h, t) (ground arith)
]

take-drop-take {ℓ} :
    {X : Type ℓ} (r k n : ℕ) (ys : List X)
    → k + r ≤ n
    → take r (drop k (take n ys)) ≡ take r (drop k ys)
take-drop-take zero k n ys h = refl
take-drop-take (suc r) zero zero ys h = absurd (omega arith)
take-drop-take (suc r) zero (suc n) [] h = refl
take-drop-take (suc r) zero (suc n) (y ∷ ys) h =
    ap (λ l. y ∷ l) (take-drop-take r zero n ys (omega arith))
take-drop-take (suc r) (suc k) zero ys h = absurd (omega arith)
take-drop-take (suc r) (suc k) (suc n) [] h = refl
take-drop-take (suc r) (suc k) (suc n) (y ∷ ys) h = take-drop-take (suc r) k n ys (omega arith)

pub take_long {ℓ} :
    {X : Type ℓ} (n : ℕ) (xs ys : List X)
    → length xs ≤ n
    → take n (xs ++ ys) ≡ xs ++ take (n - length xs) ys
take_long n [] ys h = ap (λ k. take k ys) {y = n - 0} (omega arith)
take_long zero (x ∷ xs) ys h = absurd (omega arith)
take_long (suc n) (x ∷ xs) ys h =
    ap (λ l. x ∷ l)
      (take_long n xs ys (omega arith)
        ∙ ap (λ k. xs ++ take k ys) {y = suc n - suc (length xs)} (omega arith))

pub drop_long {ℓ} :
    {X : Type ℓ} (n : ℕ) (xs ys : List X)
    → length xs ≤ n
    → drop n (xs ++ ys) ≡ drop (n - length xs) ys
drop_long n [] ys h = ap (λ k. drop k ys) {y = n - 0} (omega arith)
drop_long zero (x ∷ xs) ys h = absurd (omega arith)
drop_long (suc n) (x ∷ xs) ys h =
    drop_long n xs ys (omega arith)
    ∙ ap (λ k. drop k ys) {y = suc n - suc (length xs)} (omega arith)

module _ {A : Type 0} (view : A → List ℕ) where
  -- The bytes of a vector, from the memory of its array.
  unfoldable pub bytes_of : IoVec A → List ℕ
  bytes_of v = elim v.iov_base [
    | none ↦ []
    | some (array, offset) ↦ take v.iov_len (drop offset (view array))
  ]

  abbrev pub flat : List (IoVec A) → List ℕ
  flat [] = []
  flat (v ∷ vs) = bytes_of v ++ flat vs

  -- Each vector lies inside its array.
  abbrev pub AllInside : List (IoVec A) → Type 0
  AllInside [] = Unit
  AllInside (v ∷ vs) = (length (bytes_of v) ≡ v.iov_len) × AllInside vs

  pub flat-append : (vs ws : List (IoVec A)) → flat (vs ++ ws) ≡ flat vs ++ flat ws
  flat-append [] ws = refl
  flat-append (v ∷ vs) ws =
      ap (λ l. bytes_of v ++ l) (flat-append vs ws)
      ∙ sym (append_assoc (bytes_of v) (flat vs) (flat ws))

  bytes_of-behind :
      (base : Option (A × ℕ)) (n k r : ℕ)
      → k + r ≤ n
      → bytes_of (record { iov_base = base_behind base k; iov_len = r })
        ≡ take r (drop k (bytes_of (record { iov_base = base; iov_len = n })))
  unfolding bytes_of
  bytes_of-behind none n k r h = sym (ap (take r) (drop-nil k) ∙ take-all r [] (omega arith))
  bytes_of-behind (some (array, offset)) n k r h =
      ap (take r) (sym (drop-drop offset k (offset + k) (view array) refl))
      ∙ sym (take-drop-take r k n (drop offset (view array)) h)

  module _ {B : Type 0} where
    abbrev pub vecs : List (ArrayEntry B A) → List (IoVec A)
    vecs es = map (λ e. e.vec) es

    -- The loops are at a state from which they go on, over `n` entries of `l` bytes.
    pub record IsReady (s : SliceState B A) (n l : ℕ) : Type 0 where
      pub valid : IsArrayValid s.head
      pub room : s.head.count + n ≤ s.head.capacity
      pub behind : s.position ≤ s.offset
      pub small : s.position + l < 2 ^ 31
      pub fits : s.head.bytes + l < 2 ^ 31
      pub ends : s.offset + s.left < 2 ^ 64
      pub counts : s.total_count ≡ s.head.count

    pub passed_lem :
        (s : SliceState B A) (e : ArrayEntry B A) (n l : ℕ)
        → IsReady s (suc n) (e.vec.iov_len + l)
        → s.position + e.vec.iov_len ≤ s.offset
        → (slice_entry s e ≡ ok (passed s e)) × (passed s e).position ≡ s.position + e.vec.iov_len
    unfolding slice_entry
    passed_lem s e n l r h =
        let m : (s.position + e.vec.iov_len) % 2 ^ 64 ≡ s.position + e.vec.iov_len =
          omega (arith, r.small) in
        (
          rw
              (
                le→leb s.position s.offset r.behind,
                m,
                le→ltb s.offset (s.position + e.vec.iov_len) h,
              )
              refl,
          ap int_of m ∙ int_small (s.position + e.vec.iov_len) (omega (arith, r.small)),
        )

    -- The state behind an entry that is inside the range.
    abbrev pub cut : SliceState B A → ArrayEntry B A → ℕ → SliceState B A
    cut s e r = taken s e r (set s.head.array s.head.count (cut_entry e (s.offset - s.position) r))

    pub taken_lem :
        (s : SliceState B A) (e : ArrayEntry B A) (n l : ℕ)
        → IsReady s (suc n) (e.vec.iov_len + l)
        → s.offset < s.position + e.vec.iov_len
        → slice_entry s e ≡ ok (cut s e (min (e.vec.iov_len - (s.offset - s.position)) s.left))
    unfolding slice_entry
    taken_lem s e n l r h =
        let m : (s.position + e.vec.iov_len) % 2 ^ 64 ≡ s.position + e.vec.iov_len =
          omega (arith, r.small) in
        rw
          (
            le→leb s.position s.offset r.behind,
            m,
            lt→ltb s.offset (s.position + e.vec.iov_len) h,
            cut_length-min (e.vec.iov_len - (s.offset - s.position)) s.left
                (omega (arith, r.small)),
            lt→ltb s.head.count (length s.head.array) (omega (arith, r.room, r.valid.allocated)),
          )
          refl

    pub cut_left :
        (s : SliceState B A) (e : ArrayEntry B A) (r : ℕ)
        → r ≤ s.left
        → s.left < 2 ^ 64
        → (cut s e r).left ≡ s.left - r
    cut_left s e r h k = omega arith

    pub passed-IsReady :
        (s : SliceState B A) (e : ArrayEntry B A) (n l : ℕ)
        → IsReady s (suc n) (e.vec.iov_len + l)
        → s.position + e.vec.iov_len ≤ s.offset
        → IsReady (passed s e) n l
    passed-IsReady s e n l r h =
        let (_, at) = passed_lem s e n l r h in
        record {
          valid = r.valid;
          room = omega (arith, r.room);
          behind = omega (arith, at);
          small = omega (arith, r.small, at);
          fits = omega (arith, r.fits);
          ends = r.ends;
          counts = r.counts;
        }

    -- What an entry inside the range adds to the bytes.
    pub cut_bytes :
        (s : SliceState B A) (e : ArrayEntry B A) (n l k : ℕ)
        → IsReady s (suc n) (e.vec.iov_len + l)
        → (s.offset - s.position) + k ≤ e.vec.iov_len
        → (IsArrayValid (cut s e k).head)
          × (flat (vecs_of (cut s e k).head)
              ≡ flat (vecs_of s.head) ++ take k (drop (s.offset - s.position) (bytes_of e.vec)))
    cut_bytes s e n l k r h =
        let entry = cut_entry e (s.offset - s.position) k in
        let room : s.head.count < s.head.capacity = omega (arith, r.room) in
        let small : s.head.bytes + k < 2 ^ 64 = omega (arith, r.fits) in
        (
          counted-IsArrayValid s.head entry r.valid room small,
          ap flat (vecs_of-counted s.head entry r.valid room small)
              ∙ flat-append (vecs_of s.head) (entry.vec ∷ [])
              ∙ ap (λ l. flat (vecs_of s.head) ++ l)
                  (append-nil (bytes_of entry.vec)
                    ∙ bytes_of-behind e.vec.iov_base e.vec.iov_len (s.offset - s.position) k h),
        )

    pub cut-IsReady :
        (s : SliceState B A) (e : ArrayEntry B A) (n l : ℕ)
        → IsReady s (suc n) (e.vec.iov_len + l)
        → s.offset < s.position + e.vec.iov_len
        → e.vec.iov_len - (s.offset - s.position) ≤ s.left
        → IsReady (cut s e (e.vec.iov_len - (s.offset - s.position))) n l
    cut-IsReady s e n l r h k =
        let rest = e.vec.iov_len - (s.offset - s.position) in
        let (valid, _) = cut_bytes s e n l rest r (omega (arith, r.behind)) in
        let at : int_of ((s.position + e.vec.iov_len) % 2 ^ 64) ≡ s.position + e.vec.iov_len =
          ap int_of {y = s.position + e.vec.iov_len} (omega (arith, r.small))
          ∙ int_small (s.position + e.vec.iov_len) (omega (arith, r.small)) in
        let off : (s.offset + rest) % 2 ^ 64 ≡ s.position + e.vec.iov_len =
          omega (arith, r.ends, r.behind) in
        record {
          valid = valid;
          room = omega (
            arith,
            r.room,
            count_small s.head.count s.head.capacity (omega (arith, r.room)) r.valid.narrow,
          );
          behind = omega (arith, at, off);
          small = omega (arith, r.small, at);
          fits = omega (arith, r.fits, r.behind);
          ends = omega (arith, off, r.ends, r.behind, cut_left s e rest k (omega (arith, r.ends)));
          counts = ap (λ c. (c + 1) % 2 ^ 32) r.counts;
        }

    -- An entry that is taken to its end leaves the offset at the position.
    pub cut_gap :
        (s : SliceState B A) (e : ArrayEntry B A) (n l : ℕ)
        → IsReady s (suc n) (e.vec.iov_len + l)
        → s.offset < s.position + e.vec.iov_len
        → e.vec.iov_len - (s.offset - s.position) ≤ s.left
        → (cut s e (e.vec.iov_len - (s.offset - s.position))).offset
            - (cut s e (e.vec.iov_len - (s.offset - s.position))).position
          ≡ 0
    cut_gap s e n l r h k =
        let rest = e.vec.iov_len - (s.offset - s.position) in
        let at : int_of ((s.position + e.vec.iov_len) % 2 ^ 64) ≡ s.position + e.vec.iov_len =
          ap int_of {y = s.position + e.vec.iov_len} (omega (arith, r.small))
          ∙ int_small (s.position + e.vec.iov_len) (omega (arith, r.small)) in
        let off : (s.offset + rest) % 2 ^ 64 ≡ s.position + e.vec.iov_len =
          omega (arith, r.ends, r.behind) in
        omega (arith, at, off)

    -- What the loops over the entries `es` lead to from `s`.
    abbrev pub Sliced : SliceState B A → List (ArrayEntry B A) → SliceState B A → Type 0
    Sliced s es s' =
        (slice_entries es s ≡ ok s')
        × (IsArrayValid s'.head)
        × (s'.total_count ≡ s'.head.count)
        × (flat (vecs_of s'.head)
            ≡ flat (vecs_of s.head) ++ take s.left (drop (s.offset - s.position) (flat (vecs es))))

    pub slice_done :
        (s : SliceState B A) (es : List (ArrayEntry B A)) → s.left ≡ 0 → slice_entries es s ≡ ok s
    unfolding slice_entries
    slice_done s [] h = refl
    slice_done s (e ∷ es) h = rw (==_true s.left 0 h) refl

    pub slice_step :
        (s s' : SliceState B A) (e : ArrayEntry B A) (es : List (ArrayEntry B A))
        → 0 < s.left
        → slice_entry s e ≡ ok s'
        → slice_entries (e ∷ es) s ≡ slice_entries es s'
    unfolding slice_entries
    slice_step s s' e es h k = rw (==_ne {a = s.left} {b = 0} (omega arith), k) refl
