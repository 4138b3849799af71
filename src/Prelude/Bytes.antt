-- ===== src/Prelude/Bytes.antt =====
-- Bytes and machine words.
use Prim.Native.Nat.{ℕ, suc, ◌*◌, ◌/◌, ◌^◌, ◌<◌}
use mathlib.Core.Path.{◌≡◌, sym, ap, ◌∙◌}
use native.Mathlib.Omega.{arith}
use native.Mathlib.Nat.{pow-suc, div-div-eq-div-mul}

abbrev pub IsByte : ℕ → Type 0
IsByte b = b < 256

abbrev pub IsU16 : ℕ → Type 0
IsU16 v = v < 2 ^ 16

pow-byte : (m : ℕ) → 2 ^ (suc (suc (suc (suc (suc (suc (suc (suc m)))))))) ≡ 2 ^ m * 256
pow-byte m = omega (
  arith,
  pow-suc 2 m,
  pow-suc 2 (suc m),
  pow-suc 2 (suc (suc m)),
  pow-suc 2 (suc (suc (suc m))),
  pow-suc 2 (suc (suc (suc (suc m)))),
  pow-suc 2 (suc (suc (suc (suc (suc m))))),
  pow-suc 2 (suc (suc (suc (suc (suc (suc m)))))),
  pow-suc 2 (suc (suc (suc (suc (suc (suc (suc m))))))),
)

-- One byte more.
pub pow_bytes : (n : ℕ) → 2 ^ (8 * suc n) ≡ 2 ^ (8 * n) * 256
pow_bytes n =
    ap (λ k. 2 ^ k) {x = 8 * suc n} {y = suc (suc (suc (suc (suc (suc (suc (suc (8 * n))))))))}
      (omega arith)
    ∙ pow-byte (8 * n)

-- The bytes above a byte, shifted, and the byte.
pub div_byte : (n value : ℕ) → value / 2 ^ (8 * suc n) ≡ value / 2 ^ (8 * n) / 256
div_byte n value =
    ap (λ m. value / m) (pow_bytes n) ∙ sym (div-div-eq-div-mul value (2 ^ (8 * n)) 256)
