-- ===== src/Prelude/Segments.antt =====
-- Writing a run of elements into a list from a position on, over what is there and past its end.
use Prim.Native.Nat.{ℕ, zero, suc, ◌+◌, ◌-◌, ◌≤◌, ◌<◌}
use mathlib.Core.Path.{◌≡◌, refl, sym, ap, ◌∙◌}
use mathlib.Core.List.{List, [], ◌∷◌, ◌++◌, append-nil, append_assoc}
use native.Mathlib.Omega.{arith}
use libccnx_common.Prelude.Lists.{length, take, drop, length-append, length-drop, length-take}

module _ {ℓ} {A : Type ℓ} where
  -- Nothing is written if the position is past the end.
  unfoldable pub write_at : List A → ℕ → List A → List A
  write_at xs zero ys = ys ++ drop (length ys) xs
  write_at [] (suc p) ys = []
  write_at (x ∷ xs) (suc p) ys = x ∷ write_at xs p ys

  pub drop-nil : (n : ℕ) → drop {A = A} n [] ≡ []
  drop-nil zero = refl
  drop-nil (suc n) = refl

  pub drop-all : (n : ℕ) (xs : List A) → length xs ≤ n → drop n xs ≡ []
  drop-all n [] h = drop-nil n
  drop-all zero (x ∷ xs) h = absurd (omega arith)
  drop-all (suc n) (x ∷ xs) h = drop-all n xs (omega arith)

  pub take-all : (n : ℕ) (xs : List A) → length xs ≤ n → take n xs ≡ xs
  take-all zero [] h = refl
  take-all (suc n) [] h = refl
  take-all zero (x ∷ xs) h = absurd (omega arith)
  take-all (suc n) (x ∷ xs) h = ap (λ l. x ∷ l) (take-all n xs (omega arith))

  pub drop-append : (n : ℕ) (xs zs : List A) → n ≤ length xs → drop n (xs ++ zs) ≡ drop n xs ++ zs
  drop-append zero xs zs h = refl
  drop-append (suc n) [] zs h = absurd (omega arith)
  drop-append (suc n) (x ∷ xs) zs h = drop-append n xs zs (omega arith)

  pub take-length : (xs zs : List A) → take (length xs) (xs ++ zs) ≡ xs
  take-length [] zs = refl
  take-length (x ∷ xs) zs = ap (λ l. x ∷ l) (take-length xs zs)

  pub length-write_at :
      (xs : List A) (p : ℕ) (ys : List A)
      → p ≤ length xs
      → p + length ys ≤ length xs
      → length (write_at xs p ys) ≡ length xs
  unfolding write_at
  length-write_at xs zero ys h k =
      omega (arith, length-append ys (drop (length ys) xs), length-drop (length ys) xs)
  length-write_at [] (suc p) ys h k = refl
  length-write_at (x ∷ xs) (suc p) ys h k =
      ap suc (length-write_at xs p ys (omega arith) (omega arith))

  -- A write that ends inside the first part.
  pub write_at-append_left :
      (xs zs : List A) (p : ℕ) (ys : List A)
      → p + length ys ≤ length xs
      → write_at (xs ++ zs) p ys ≡ write_at xs p ys ++ zs
  unfolding write_at
  write_at-append_left xs zs zero ys h =
      ap (λ l. ys ++ l) (drop-append (length ys) xs zs (omega arith))
      ∙ sym (append_assoc ys (drop (length ys) xs) zs)
  write_at-append_left [] zs (suc p) ys h = absurd (omega arith)
  write_at-append_left (x ∷ xs) zs (suc p) ys h =
      ap (λ l. x ∷ l) (write_at-append_left xs zs p ys (omega arith))

  -- A write behind the first part.
  pub write_at-append_right :
      (xs zs : List A) (p q : ℕ) (ys : List A)
      → p ≡ length xs + q
      → write_at (xs ++ zs) p ys ≡ xs ++ write_at zs q ys
  unfolding write_at
  write_at-append_right [] zs p q ys e = ap (λ k. write_at zs k ys) (omega arith)
  write_at-append_right (x ∷ xs) zs zero q ys e = absurd (omega arith)
  write_at-append_right (x ∷ xs) zs (suc p) q ys e =
      ap (λ l. x ∷ l) (write_at-append_right xs zs p q ys (omega arith))

  pub write_at_end : (xs ys : List A) → write_at xs (length xs) ys ≡ xs ++ ys
  unfolding write_at
  write_at_end [] ys = ap (λ l. ys ++ l) (drop-nil (length ys)) ∙ append-nil ys
  write_at_end (x ∷ xs) ys = ap (λ l. x ∷ l) (write_at_end xs ys)

  -- The bytes up to the end of a write that raises the limit, and up to the limit otherwise.
  take-prefix_long : (ys xs : List A) (n : ℕ) → n ≡ length ys → take n (ys ++ xs) ≡ ys
  take-prefix_long ys xs n e = ap (λ k. take k (ys ++ xs)) e ∙ take-length ys xs

  take-prefix_short :
      (ys xs : List A) (n : ℕ)
      → length ys ≤ n
      → take n (ys ++ drop (length ys) xs) ≡ ys ++ drop (length ys) (take n xs)
  take-prefix_short [] xs n h = refl
  take-prefix_short (y ∷ ys) xs zero h = absurd (omega arith)
  take-prefix_short (y ∷ ys) [] (suc n) h =
      ap (λ l. y ∷ l) (take-all n (ys ++ []) (omega (arith, length-append ys [])))
  take-prefix_short (y ∷ ys) (x ∷ xs) (suc n) h =
      ap (λ l. y ∷ l) (take-prefix_short ys xs n (omega arith))

  pub take-write_at_long :
      (xs : List A) (i l e : ℕ) (ys : List A)
      → e ≡ i + length ys
      → i ≤ l
      → l ≤ length xs
      → l < e
      → take e (write_at xs i ys) ≡ write_at (take l xs) i ys
  unfolding write_at
  take-write_at_long xs zero l e ys q h k m =
      take-prefix_long ys _ e (omega arith)
      ∙ sym (append-nil ys)
      ∙ ap (λ r. ys ++ r) (sym (drop-all (length ys) (take l xs) (omega (arith, length-take l xs))))
  take-write_at_long [] (suc i) l e ys q h k m = absurd (omega arith)
  take-write_at_long (x ∷ xs) (suc i) zero e ys q h k m = absurd (omega arith)
  take-write_at_long (x ∷ xs) (suc i) (suc l) zero ys q h k m = absurd (omega arith)
  take-write_at_long (x ∷ xs) (suc i) (suc l) (suc e) ys q h k m =
      ap (λ r. x ∷ r)
        (take-write_at_long xs i l e ys (omega arith) (omega arith) (omega arith) (omega arith))

  pub take-write_at_short :
      (xs : List A) (i l : ℕ) (ys : List A)
      → i + length ys ≤ l
      → take l (write_at xs i ys) ≡ write_at (take l xs) i ys
  unfolding write_at
  take-write_at_short xs zero l ys h = take-prefix_short ys xs l (omega arith)
  take-write_at_short [] (suc i) zero ys h = refl
  take-write_at_short [] (suc i) (suc l) ys h = refl
  take-write_at_short (x ∷ xs) (suc i) zero ys h = absurd (omega arith)
  take-write_at_short (x ∷ xs) (suc i) (suc l) ys h =
      ap (λ r. x ∷ r) (take-write_at_short xs i l ys (omega arith))

  -- The code's form of a write.
  pub overwrite-write_at :
      (xs : List A) (i e : ℕ) (ys : List A)
      → e ≡ i + length ys
      → i ≤ length xs
      → take i xs ++ (ys ++ drop e xs) ≡ write_at xs i ys
  unfolding write_at
  overwrite-write_at xs zero e ys q h = ap (λ n. ys ++ drop n xs) (omega arith)
  overwrite-write_at [] (suc i) e ys q h = absurd (omega arith)
  overwrite-write_at (x ∷ xs) (suc i) zero ys q h = absurd (omega arith)
  overwrite-write_at (x ∷ xs) (suc i) (suc e) ys q h =
      ap (λ r. x ∷ r) (overwrite-write_at xs i e ys (omega arith) (omega arith))

  pub drop-drop : (m n k : ℕ) (xs : List A) → k ≡ m + n → drop n (drop m xs) ≡ drop k xs
  drop-drop zero n k xs e = ap (λ i. drop i xs) (omega arith)
  drop-drop (suc m) n zero xs e = absurd (omega arith)
  drop-drop (suc m) n (suc k) [] e = drop-nil n
  drop-drop (suc m) n (suc k) (x ∷ xs) e = drop-drop m n k xs (omega arith)

  write_behind :
      (xs zs ys : List A) → write_at (xs ++ zs) (length xs) ys ≡ xs ++ (ys ++ drop (length ys) zs)
  unfolding write_at
  write_behind [] zs ys = refl
  write_behind (x ∷ xs) zs ys = ap (λ l. x ∷ l) (write_behind xs zs ys)

  -- A write that goes on where the last one ended.
  pub write_at-write_at :
      (cs : List A) (p q : ℕ) (xs ys : List A)
      → p ≤ length cs
      → q ≡ p + length xs
      → write_at (write_at cs p xs) q ys ≡ write_at cs p (xs ++ ys)
  unfolding write_at
  write_at-write_at cs zero q xs ys h e =
      ap (λ i. write_at (xs ++ drop (length xs) cs) i ys) (omega arith)
      ∙ write_behind xs (drop (length xs) cs) ys
      ∙ ap (λ l. xs ++ (ys ++ l))
          (drop-drop (length xs) (length ys) (length (xs ++ ys)) cs (length-append xs ys))
      ∙ sym (append_assoc xs ys (drop (length (xs ++ ys)) cs))
  write_at-write_at [] (suc p) q xs ys h e = absurd (omega arith)
  write_at-write_at (c ∷ cs) (suc p) zero xs ys h e = absurd (omega arith)
  write_at-write_at (c ∷ cs) (suc p) (suc q) xs ys h e =
      ap (λ l. c ∷ l) (write_at-write_at cs p q xs ys (omega arith) (omega arith))

  pub write_at-nil : (xs : List A) (p : ℕ) → write_at xs p [] ≡ xs
  unfolding write_at
  write_at-nil xs zero = refl
  write_at-nil [] (suc p) = refl
  write_at-nil (x ∷ xs) (suc p) = ap (λ l. x ∷ l) (write_at-nil xs p)

  pub take-take : (k l : ℕ) (xs : List A) → k ≤ l → take k (take l xs) ≡ take k xs
  take-take zero l xs h = refl
  take-take (suc k) zero xs h = absurd (omega arith)
  take-take (suc k) (suc l) [] h = refl
  take-take (suc k) (suc l) (x ∷ xs) h = ap (λ r. x ∷ r) (take-take k l xs (omega arith))

  pub take-append_left : (n : ℕ) (xs ys : List A) → n ≤ length xs → take n (xs ++ ys) ≡ take n xs
  take-append_left zero xs ys h = refl
  take-append_left (suc n) [] ys h = absurd (omega arith)
  take-append_left (suc n) (x ∷ xs) ys h = ap (λ r. x ∷ r) (take-append_left n xs ys (omega arith))

  pub take-append_right :
      (n k : ℕ) (xs ys : List A) → n ≡ length xs + k → take n (xs ++ ys) ≡ xs ++ take k ys
  take-append_right n k [] ys h = ap (λ i. take i ys) (omega arith)
  take-append_right zero k (x ∷ xs) ys h = absurd (omega arith)
  take-append_right (suc n) k (x ∷ xs) ys h =
      ap (λ r. x ∷ r) (take-append_right n k xs ys (omega arith))

  pub drop-append_right :
      (n k : ℕ) (xs ys : List A) → n ≡ length xs + k → drop n (xs ++ ys) ≡ drop k ys
  drop-append_right n k [] ys h = ap (λ i. drop i ys) (omega arith)
  drop-append_right zero k (x ∷ xs) ys h = absurd (omega arith)
  drop-append_right (suc n) k (x ∷ xs) ys h = drop-append_right n k xs ys (omega arith)

  take-nil : (n : ℕ) → take {A = A} n [] ≡ []
  take-nil zero = refl
  take-nil (suc n) = refl

  pub drop-take : (s l k : ℕ) (xs : List A) → k ≡ l - s → drop s (take l xs) ≡ take k (drop s xs)
  drop-take zero l k xs h = ap (λ i. take i xs) (omega arith)
  drop-take (suc s) zero zero xs h = drop-nil (suc s)
  drop-take (suc s) zero (suc k) xs h = absurd (omega arith)
  drop-take (suc s) (suc l) k [] h = sym (take-nil k)
  drop-take (suc s) (suc l) k (x ∷ xs) h = drop-take s l k xs (omega arith)
