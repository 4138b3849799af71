-- ===== src/Parc.antt =====
-- The operations of PARCBuffer that the decoders call. They belong to another library, so they are
-- parameters; what its documentation says of them is a record of laws.
pub mod Laws
pub mod Zipper
use libccnx_common.Prelude.{
  ℕ, zero, suc, ◌+◌, ◌-◌, ◌*◌, ◌≤◌, ◌≡◌, Bool, List, [], ◌∷◌, ◌++◌, length, take, drop, ltb, Result,
  ok,
}

-- A buffer has a position and a limit. A read or a move returns the buffer after it.
pub record ParcBuffer (B : Type 0) : Type 0 where
  pub position : B → ℕ
  pub remaining : B → ℕ
  pub has_remaining : B → Bool
  pub set_position : B → ℕ → Result B
  pub set_limit : B → ℕ → Result B
  pub slice : B → B
  pub get_uint8 : B → Result (ℕ × B)
  pub get_uint16 : B → Result (ℕ × B)
  pub get_uint32 : B → Result (ℕ × B)
  pub get_uint64 : B → Result (ℕ × B)

-- Big endian, behind what was read before.
abbrev pub number_from : ℕ → List ℕ → ℕ
number_from value [] = value
number_from value (x ∷ xs) = number_from (value * 256 + x) xs

-- The bytes from the position to the limit.
abbrev pub rest : {B : Type 0} → ParcBuffer B → (B → List ℕ) → B → List ℕ
rest P bytes b = drop (P.position b) (bytes b)

-- The same bytes, `n` further.
pub record IsAdvanced {B : Type 0} (P : ParcBuffer B) (bytes : B → List ℕ) (b : B) (n : ℕ) (b' : B)
    : Type 0 where
  pub same : bytes b' ≡ bytes b
  pub at : P.position b' ≡ P.position b + n

abbrev pub Reads : {B : Type 0} → ParcBuffer B → (B → List ℕ) → (B → Result (ℕ × B)) → ℕ → Type 0
Reads {B} P bytes get width =
    (b : B) (ys more : List ℕ)
    → length ys ≡ width
    → rest P bytes b ≡ ys ++ more
    → (b' : B) × (get b ≡ ok (number_from 0 ys, b')) × IsAdvanced P bytes b width b'

-- `bytes b` is what lies below the limit.
pub record IsLawful {B : Type 0} (P : ParcBuffer B) (bytes : B → List ℕ) : Type 0 where
  pub inside : (b : B) → P.position b ≤ length (bytes b)
  pub counts : (b : B) → P.remaining b ≡ length (bytes b) - P.position b
  pub has_counts : (b : B) → P.has_remaining b ≡ ltb 0 (P.remaining b)
  pub moves :
      (b : B) (p : ℕ)
      → p ≤ length (bytes b)
      → (b' : B) × (P.set_position b p ≡ ok b') × (bytes b' ≡ bytes b) × (P.position b' ≡ p)
  pub limits :
      (b : B) (n : ℕ)
      → P.position b ≤ n
      → n ≤ length (bytes b)
      → (b' : B) × (P.set_limit b n ≡ ok b')
        × (bytes b' ≡ take n (bytes b))
        × (P.position b' ≡ P.position b)
  pub slices : (b : B) → (bytes (P.slice b) ≡ rest P bytes b) × (P.position (P.slice b) ≡ 0)
  pub reads_8 : Reads P bytes P.get_uint8 1
  pub reads_16 : Reads P bytes P.get_uint16 2
  pub reads_32 : Reads P bytes P.get_uint32 4
  pub reads_64 : Reads P bytes P.get_uint64 8
