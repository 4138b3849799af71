-- ===== src/Parc/Laws.antt =====
-- What the reads of a PARCBuffer give, from the bytes that are left in it.
use libccnx_common.Prelude.{
  ℕ, zero, suc, ◌+◌, ◌*◌, ◌/◌, ◌%◌, ◌^◌, ◌≤◌, ◌<◌, ◌≡◌, refl, sym, ap, ◌∙◌, List, ◌++◌, length,
  length-append, length-drop, drop, arith, Result, ok,
}
use libccnx_common.Prelude.Bytes.{div_byte}
use libccnx_common.Prelude.Segments.{drop-drop, drop-append_right}
use libccnx_common.Network.Integers.{big_endian}
use libccnx_common.Encoder.VarInt.{length-big_endian}
use native.Mathlib.Nat.{div-eq_of_lt}
use libccnx_common.Parc.{ParcBuffer, number_from, rest, IsAdvanced, Reads, IsLawful}

-- Reading back a number that is written big endian.
number_from-big_endian :
    (n value acc : ℕ) → acc ≡ value / 2 ^ (8 * n) → number_from acc (big_endian n value) ≡ value
number_from-big_endian zero value acc e = omega arith
number_from-big_endian (suc n) value acc e =
    number_from-big_endian n value (acc * 256 + value / 2 ^ (8 * n) % 256)
      (omega (arith, div_byte n value))

pub big_endian-number :
    (n value : ℕ) → value < 2 ^ (8 * n) → number_from 0 (big_endian n value) ≡ value
big_endian-number n value h = number_from-big_endian n value 0 (sym (div-eq_of_lt h))

module _ {B : Type 0} (P : ParcBuffer B) (bytes : B → List ℕ) where
  pub advance_none : (b : B) → IsAdvanced P bytes b 0 b
  advance_none b = record { same = refl; at = omega arith }

  pub advance_both :
      (b c e : B) (m n : ℕ)
      → IsAdvanced P bytes b m c
      → IsAdvanced P bytes c n e
      → IsAdvanced P bytes b (m + n) e
  advance_both b c e m n p q = record { same = q.same ∙ p.same; at = omega (arith, p.at, q.at) }

  -- Behind what was read.
  pub rest-advanced :
      (b c : B) (n : ℕ) (ys more : List ℕ)
      → IsAdvanced P bytes b n c
      → length ys ≡ n
      → rest P bytes b ≡ ys ++ more
      → rest P bytes c ≡ more
  rest-advanced b c n ys more p h e =
      ap (λ k. drop k (bytes c)) p.at
      ∙ ap (λ l. drop (P.position b + n) l) p.same
      ∙ sym (drop-drop (P.position b) n (P.position b + n) (bytes b) refl)
      ∙ ap (λ l. drop n l) e
      ∙ drop-append_right n 0 ys more (omega arith)

module _ {B : Type 0} (P : ParcBuffer B) (bytes : B → List ℕ) (p : IsLawful P bytes) where
  pub remaining-rest : (b : B) → P.remaining b ≡ length (rest P bytes b)
  remaining-rest b = p.counts b ∙ sym (length-drop (P.position b) (bytes b))

  pub remaining_two :
      (b : B) (ys more : List ℕ)
      → rest P bytes b ≡ ys ++ more
      → P.remaining b ≡ length ys + length more
  remaining_two b ys more e = remaining-rest b ∙ ap length e ∙ length-append ys more

  -- A move forward within the bytes.
  pub move_lem :
      (b : B) (n : ℕ)
      → n ≤ P.remaining b
      → (b' : B) × (P.set_position b (P.position b + n) ≡ ok b') × IsAdvanced P bytes b n b'
  move_lem b n h =
      let (b', q, s, t) = p.moves b (P.position b + n) (omega (arith, p.counts b, p.inside b)) in
      (b', q, record { same = s; at = t })

  -- A read of an integer that is written big endian.
  pub read_lem :
      (width : ℕ) (get : B → Result (ℕ × B)) (b : B) (value : ℕ) (more : List ℕ)
      → Reads P bytes get width
      → value < 2 ^ (8 * width)
      → rest P bytes b ≡ big_endian width value ++ more
      → (b' : B) × (get b ≡ ok (value, b'))
        × IsAdvanced P bytes b width b'
        × (rest P bytes b' ≡ more)
  read_lem width get b value more r h e =
      let (b', q, a) = r b (big_endian width value) more (length-big_endian width value) e in
      (
        b',
        q ∙ ap (λ v. ok (v, b')) (big_endian-number width value h),
        a,
        rest-advanced P bytes b b' width (big_endian width value) more a
            (length-big_endian width value) e,
      )
