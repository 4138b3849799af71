-- ===== src/EncodingBuffer/Laws.antt =====
-- What the encoding buffer keeps: the tests of its Validate functions.
use libccnx_common.Prelude.{
  ℕ, zero, suc, ◌+◌, ◌%◌, ◌^◌, ◌≤◌, ◌<◌, ◌≡◌, refl, sym, ap, ◌∙◌, ◌⊎◌, inl, inr, List, [], ◌∷◌,
  ◌++◌, append_assoc, append-nil, some, map, length, set, take, arith, length-set,
}
use libccnx_common.EncodingBuffer.{
  IoVec, ArrayEntry, LinkedArray, EncodingBuffer, last, set_last, counted, entries, vectors,
}

-- The sum of the lengths of the vectors.
abbrev pub lengths : {A : Type 0} → List (IoVec A) → ℕ
lengths [] = 0
lengths (v ∷ vs) = v.iov_len + lengths vs

-- What `_ccnxCodecEncodingBufferLinkedArray_Validate` tests, with the size of the memory.
pub record IsArrayValid {B A : Type 0} (a : LinkedArray B A) : Type 0 where
  pub fits : a.count ≤ a.capacity
  pub narrow : a.capacity < 2 ^ 32
  pub allocated : length a.array ≡ a.capacity
  pub summed : a.bytes ≡ lengths (map (λ e. e.vec) (entries a))

abbrev pub AllValid : {B A : Type 0} → List (LinkedArray B A) → Type 0
AllValid [] = Unit
AllValid (a ∷ more) = IsArrayValid a × AllValid more

-- What `_ccnxCodecEncodingBuffer_Validate` tests.
pub record IsValid {B A : Type 0} (list : EncodingBuffer B A) : Type 0 where
  pub each : AllValid list.arrays
  pub total : list.total_count ≡ length (vectors list.arrays)
  pub bytes_total : list.total_bytes ≡ lengths (vectors list.arrays)

pub lengths-append :
    {A : Type 0} (vs ws : List (IoVec A)) → lengths (vs ++ ws) ≡ lengths vs + lengths ws
lengths-append [] ws = omega arith
lengths-append (v ∷ vs) ws = omega (arith, lengths-append vs ws)

pub take-set {ℓ} :
    {X : Type ℓ} (xs : List X) (n : ℕ) (x : X)
    → n < length xs
    → take (suc n) (set xs n x) ≡ take n xs ++ (x ∷ [])
take-set [] n x h = absurd (omega arith)
take-set (y ∷ xs) zero x h = refl
take-set (y ∷ xs) (suc n) x h = ap (λ l. y ∷ l) (take-set xs n x (omega arith))

pub map_snoc {ℓ} :
    {X Y : Type ℓ} (f : X → Y) (xs : List X) (x : X)
    → map f (xs ++ (x ∷ [])) ≡ map f xs ++ (f x ∷ [])
map_snoc f [] x = refl
map_snoc f (y ∷ xs) x = ap (λ l. f y ∷ l) (map_snoc f xs x)

pub last_snoc {ℓ} : {X : Type ℓ} (xs : List X) (x : X) → last (xs ++ (x ∷ [])) ≡ some x
last_snoc [] x = refl
last_snoc (y ∷ []) x = refl
last_snoc (y ∷ z ∷ xs) x = last_snoc (z ∷ xs) x

pub set_last_snoc {ℓ} :
    {X : Type ℓ} (xs : List X) (x y : X) → set_last (xs ++ (x ∷ [])) y ≡ xs ++ (y ∷ [])
set_last_snoc [] x y = refl
set_last_snoc (z ∷ []) x y = refl
set_last_snoc (z ∷ w ∷ xs) x y = ap (λ l. z ∷ l) (set_last_snoc (w ∷ xs) x y)

pub last_cases {ℓ} :
    {X : Type ℓ} (xs : List X) → (xs ≡ []) ⊎ ((ys : List X) × (y : X) × (xs ≡ ys ++ (y ∷ [])))
last_cases [] = inl refl
last_cases (x ∷ xs) = inr (elim (last_cases xs) [
  | inl e ↦ ([], x, ap (λ l. x ∷ l) e)
  | inr (ys, y, e) ↦ (x ∷ ys, y, ap (λ l. x ∷ l) e)
])

pub add_small : (m n : ℕ) → m + n < 2 ^ 64 → (m + n) % 2 ^ 64 ≡ m + n
add_small m n h = omega arith

pub count_small : (n c : ℕ) → n < c → c < 2 ^ 32 → (n + 1) % 2 ^ 32 ≡ n + 1
count_small n c h k = omega arith

abbrev pub vecs_of : {B A : Type 0} → LinkedArray B A → List (IoVec A)
vecs_of a = map (λ e. e.vec) (entries a)

module _ {B A : Type 0} where
  vectors-append :
      (front back : List (LinkedArray B A))
      → vectors (front ++ back) ≡ vectors front ++ vectors back
  unfolding vectors
  vectors-append [] back = refl
  vectors-append (a ∷ front) back =
      ap (λ l. vecs_of a ++ l) (vectors-append front back)
      ∙ sym (append_assoc (vecs_of a) (vectors front) (vectors back))

  pub vectors_snoc :
      (front : List (LinkedArray B A)) (a : LinkedArray B A)
      → vectors (front ++ (a ∷ [])) ≡ vectors front ++ vecs_of a
  unfolding vectors
  vectors_snoc front a =
      vectors-append front (a ∷ []) ∙ ap (λ l. vectors front ++ l) (append-nil (vecs_of a))

  pub all_split :
      (front : List (LinkedArray B A)) (a : LinkedArray B A)
      → AllValid (front ++ (a ∷ []))
      → AllValid front × IsArrayValid a
  all_split [] a (v, u) = (tt, v)
  all_split (x ∷ front) a (v, vs) = let (l, r) = all_split front a vs in ((v, l), r)

  pub all_join :
      (front : List (LinkedArray B A)) (a : LinkedArray B A)
      → AllValid front
      → IsArrayValid a
      → AllValid (front ++ (a ∷ []))
  all_join [] a u v = (v, tt)
  all_join (x ∷ front) a (v, vs) r = (v, all_join front a vs r)

  -- The array with one more entry.
  module _ (a : LinkedArray B A) (e : ArrayEntry B A) (v : IsArrayValid a)
      (room : a.count < a.capacity) (small : a.bytes + e.vec.iov_len < 2 ^ 64) where
    abbrev pub more : LinkedArray B A
    more = counted a (set a.array a.count e) e.vec.iov_len

    pub vecs_of-counted : vecs_of more ≡ vecs_of a ++ (e.vec ∷ [])
    vecs_of-counted =
        ap (λ n. map (λ e. e.vec) (take n (set a.array a.count e))) {y = suc a.count}
          (omega (arith, count_small a.count a.capacity room v.narrow))
        ∙ ap (map (λ e. e.vec)) (take-set a.array a.count e (omega (arith, v.allocated)))
        ∙ map_snoc (λ e. e.vec) (entries a) e

    pub counted-IsArrayValid : IsArrayValid more
    counted-IsArrayValid = record {
      fits = omega (arith, count_small a.count a.capacity room v.narrow);
      narrow = v.narrow;
      allocated = length-set a.array a.count e ∙ v.allocated;
      summed =
          add_small a.bytes e.vec.iov_len small
          ∙ (omega (arith, v.summed, lengths-append (vecs_of a) (e.vec ∷ [])))
          ∙ sym (ap lengths vecs_of-counted);
    }
