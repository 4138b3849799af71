-- ===== src/Utilities/VarInt.antt =====
-- `ccnxCodecTlvUtilities_GetVarInt`, and that it reads what `AppendVarInt` writes.
use libccnx_common.Prelude.{
  ℕ, zero, suc, ◌+◌, ◌*◌, ◌/◌, ◌%◌, ◌^◌, ◌<◌, ◌≡◌, refl, sym, ap, ◌∙◌, List, ◌∷◌, ◌++◌, length,
  length-append, arith, Option, some, none, ◌&&◌, leb, le→leb, if◌then◌else◌, Result, ok, ◌>>=◌,
}
use native.Mathlib.Nat.{div-le_self, div-eq_of_lt}
use libccnx_common.Prelude.Bytes.{div_byte}
use libccnx_common.Network.Integers.{big_endian}
use libccnx_common.Encoder.{compute_var_int_length}
use libccnx_common.Encoder.VarInt.{var_int_length-least, length-big_endian}

-- `parcBuffer_Remaining` and `parcBuffer_GetUint8` are parameters: what is read, and the buffer after it.
module _ {B : Type 0} (remaining : B → ℕ) (get_uint8 : B → Result (ℕ × B)) where
  -- `for (int i = 0; i < length; i++) value = value << 8 | parcBuffer_GetUint8(input);`
  unfoldable pub read_bytes : ℕ → B → ℕ → Result (ℕ × B)
  read_bytes zero input value = ok (value, input)
  read_bytes (suc rounds) input value = do
    (byte, input') ← get_uint8 input
    read_bytes rounds input' (value * 256 % 2 ^ 64 + byte)

  -- No value where the code returns false.
  unfoldable pub get_var_int : B → ℕ → Result (Option ℕ × B)
  unfolding read_bytes
  get_var_int input length =
      if leb 1 length && (leb length 8 && leb length (remaining input))
      then (do (value, input') ← read_bytes length input 0; ok (some value, input'))
      else ok (none, input)

-- What the code relies on: `view` is the bytes from the position to the limit, `remaining` is how many,
-- and a read takes the first.
pub record IsParcBuffer {B : Type 0} (view : B → List ℕ) (remaining : B → ℕ)
    (get_uint8 : B → Result (ℕ × B)) : Type 0 where
  pub counts : (b : B) → remaining b ≡ length (view b)
  pub reads :
      (b : B) (x : ℕ) (xs : List ℕ)
      → view b ≡ x ∷ xs
      → (b' : B) × (get_uint8 b ≡ ok (x, b')) × (view b' ≡ xs)

module _ {B : Type 0} (view : B → List ℕ) (remaining : B → ℕ) (get_uint8 : B → Result (ℕ × B))
    (p : IsParcBuffer view remaining get_uint8) where
  read_bytes_lem :
      (n value : ℕ) (b : B) (rest : List ℕ) (acc : ℕ)
      → value < 2 ^ 64
      → acc ≡ value / 2 ^ (8 * n)
      → view b ≡ big_endian n value ++ rest
      → (b' : B) × (read_bytes remaining get_uint8 n b acc ≡ ok (value, b')) × (view b' ≡ rest)
  unfolding read_bytes
  read_bytes_lem zero value b rest acc h a e = (b, ap (λ v. ok (v, b)) (omega arith), e)
  read_bytes_lem (suc n) value b rest acc h a e =
      let (b', q, t) = p.reads b (value / 2 ^ (8 * n) % 256) (big_endian n value ++ rest) e in
      let (b'', q', t') =
        read_bytes_lem n value b' rest (acc * 256 % 2 ^ 64 + value / 2 ^ (8 * n) % 256) h
          (omega (arith, div_byte n value, div-le_self value (2 ^ (8 * n)))) t in
      (b'', rw (q, q') refl, t')

  -- If the input begins with the bytes that AppendVarInt writes for a 64-bit value, and the
  -- operations of the PARCBuffer keep their laws, GetVarInt of their length returns the value, and
  -- has read these bytes and no more.
  pub get_var_int-append :
      (value : ℕ) (b : B) (rest : List ℕ)
      → value < 2 ^ 64
      → view b ≡ big_endian (compute_var_int_length value) value ++ rest
      → (b' : B) × (get_var_int remaining get_uint8 b (compute_var_int_length value)
          ≡ ok (some value, b'))
        × (view b' ≡ rest)
  unfolding get_var_int
  get_var_int-append value b rest h e =
      let n = compute_var_int_length value in
      let least = var_int_length-least value h in
      let here = p.counts b ∙ ap length e ∙ length-append (big_endian n value) rest in
      let (b', q, t) = read_bytes_lem n value b rest 0 h (sym (div-eq_of_lt (least.2))) e in
      (
        b',
        rw
            (
              le→leb 1 n (omega (arith, least)),
              le→leb n 8 (omega (arith, least)),
              le→leb n (remaining b) (omega (arith, here, length-big_endian n value)),
              q,
            )
            refl,
        t,
      )
