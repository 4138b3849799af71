-- ===== src/Encoder/VarInt.antt =====
-- `AppendVarInt`: the shortest big endian form of an integer.
use libccnx_common.Prelude.{
  ℕ, zero, suc, ◌+◌, ◌-◌, ◌*◌, ◌/◌, ◌%◌, ◌^◌, ◌≤◌, ◌<◌, ◌≡◌, ◌≢◌, refl, sym, ap, subst, inl, inr,
  ◌⊎◌, true, false, not, ◌||◌, List, [], ◌∷◌, length, arith, ok, ◌>>=◌, ◌==◌,
}
use libccnx_common.Prelude.Segments.{write_at-nil}
use libccnx_common.Network.{NetworkBuffer}
use libccnx_common.Network.Put
use libccnx_common.Network.Inv.{Grants, IsValid, contents}
use libccnx_common.Network.Writes.{Writes, put_uint8_lem, write_then}
use libccnx_common.Network.Integers.{big_endian}
use libccnx_common.Encoder.{TlvEncoder, compute_var_int_length, put_var_int, append_var_int}
use libccnx_common.Encoder.Appends.{IsAtEnd, Encodes, tlv, encode_tlv, appended}

-- For every 64-bit value ComputeVarIntLength is the least number of bytes, 1 at least, that hold it.
pub var_int_length-least :
    (value : ℕ)
    → value < 2 ^ 64
    → (1 ≤ compute_var_int_length value)
      × (compute_var_int_length value ≤ 8)
      × (value < 2 ^ (8 * compute_var_int_length value))
      × (compute_var_int_length value ≡ 1 ⊎ 2 ^ (8 * (compute_var_int_length value - 1)) ≤ value)
unfolding compute_var_int_length
var_int_length-least value h = ground arith

pub length-big_endian : (n value : ℕ) → length (big_endian n value) ≡ n
length-big_endian zero value = refl
length-big_endian (suc n) value = ap suc (length-big_endian n value)

goes_on : (b byte : ℕ) → (not (b == 0) || ((byte == 0) || true)) ≡ true
goes_on b byte = ground arith

starts :
    (b byte : ℕ)
    → ((not (b == 0) || ((byte == 0) || false)) ≡ true) × (byte ≡ 0 ⊎ b ≢ 0)
      ⊎ ((not (b == 0) || ((byte == 0) || false)) ≡ false) × (b ≡ 0) × (byte ≢ 0)
starts b byte = ground arith

-- What the loop finds at a byte of a value that the byte and those below it hold: if it is zero, those
-- below hold the value, and if it is not, the length ends with it.
abbrev ByteFacts : ℕ → Type 0
ByteFacts byte =
    ((value : ℕ)
      → value < 2 ^ (8 * byte + 8)
      → value / 2 ^ (byte * 8) % 256 ≡ 0
      → value < 2 ^ (8 * byte))
    × ((value : ℕ)
        → value < 2 ^ (8 * byte + 8)
        → byte ≡ 0 ⊎ value / 2 ^ (byte * 8) % 256 ≢ 0
        → compute_var_int_length value ≡ suc byte)

facts_0 : ByteFacts 0
unfolding compute_var_int_length
facts_0 = ((λ value h z. omega arith), (λ value h c. ground arith))

facts_1 : ByteFacts 1
unfolding compute_var_int_length
facts_1 = ((λ value h z. omega arith), (λ value h c. ground arith))

facts_2 : ByteFacts 2
unfolding compute_var_int_length
facts_2 = ((λ value h z. omega arith), (λ value h c. ground arith))

facts_3 : ByteFacts 3
unfolding compute_var_int_length
facts_3 = ((λ value h z. omega arith), (λ value h c. ground arith))

facts_4 : ByteFacts 4
unfolding compute_var_int_length
facts_4 = ((λ value h z. omega arith), (λ value h c. ground arith))

facts_5 : ByteFacts 5
unfolding compute_var_int_length
facts_5 = ((λ value h z. omega arith), (λ value h c. ground arith))

facts_6 : ByteFacts 6
unfolding compute_var_int_length
facts_6 = ((λ value h z. omega arith), (λ value h c. ground arith))

facts_7 : ByteFacts 7
unfolding compute_var_int_length
facts_7 = ((λ value h z. omega arith), (λ value h c. ground arith))

module _ {U : Type 0} (allocator : U → ℕ → List ℕ × U) (g : Grants allocator) where
  write_byte :
      (byte : ℕ) (nb : NetworkBuffer U) (value : ℕ)
      → IsValid nb
      → ((nb' : NetworkBuffer U)
          → IsValid nb'
          → Writes nb' (big_endian byte value) (put_var_int allocator byte true nb' value))
      → Writes nb (big_endian (suc byte) value) (do
        nb' ← Put.put_uint8 allocator nb (value / 2 ^ (byte * 8) % 256)
        put_var_int allocator byte true nb' value)
  write_byte byte nb value v rest =
      let (nb', e, w) = put_uint8_lem allocator g nb (value / 2 ^ (byte * 8) % 256) v in
      rw e (
        subst
          (λ k.
            Writes nb (value / 2 ^ k % 256 ∷ big_endian byte value)
              (put_var_int allocator byte true nb' value))
          (omega arith)
          (write_then nb nb' (value / 2 ^ (byte * 8) % 256 ∷ []) (big_endian byte value) _ v w
            (rest nb' w.valid)))

  -- After the first byte all the others follow.
  put_rest :
      (n : ℕ) (nb : NetworkBuffer U) (value : ℕ)
      → IsValid nb
      → Writes nb (big_endian n value) (put_var_int allocator n true nb value)
  unfolding put_var_int
  put_rest zero nb value v = (
    nb,
    refl,
    record {
      valid = v;
      stored = sym (write_at-nil (contents nb) nb.position);
      moved = omega arith;
    },
  )
  put_rest (suc byte) nb value v =
      rw (goes_on (value / 2 ^ (byte * 8) % 256) byte)
        (write_byte byte nb value v (λ nb' v'. put_rest byte nb' value v'))

  -- A round of the loop before the first byte.
  put_first :
      (byte : ℕ) (nb : NetworkBuffer U) (value : ℕ) (ys : List ℕ)
      → IsValid nb
      → (value / 2 ^ (byte * 8) % 256 ≡ 0
          → byte ≢ 0
          → Writes nb ys (put_var_int allocator byte false nb value))
      → (byte ≡ 0 ⊎ value / 2 ^ (byte * 8) % 256 ≢ 0 → ys ≡ big_endian (suc byte) value)
      → Writes nb ys (put_var_int allocator (suc byte) false nb value)
  unfolding put_var_int
  put_first byte nb value ys v skip here = elim (starts (value / 2 ^ (byte * 8) % 256) byte) [
    | inl (t, c) ↦
        rw (t, here c) (write_byte byte nb value v (λ nb' v'. put_rest byte nb' value v'))
    | inr (t, z, p) ↦ rw t (skip z p)
  ]

  abbrev Bounded : ℕ → Type 0
  Bounded n =
      (nb : NetworkBuffer U) (value : ℕ)
      → value < 2 ^ (8 * n)
      → IsValid nb
      → Writes nb (big_endian (compute_var_int_length value) value)
          (put_var_int allocator n false nb value)

  step : (byte : ℕ) → ByteFacts byte → (byte ≢ 0 → Bounded byte) → Bounded (suc byte)
  step byte (below, length) rest nb value h v =
      let h' : value < 2 ^ (8 * byte + 8) = subst (λ k. value < 2 ^ k) (omega arith) h in
      put_first byte nb value _ v (λ z p. rest p nb value (below value h' z) v)
        (λ c. ap (λ k. big_endian k value) (length value h' c))

  -- The loop of AppendVarInt.
  pub put_var_int_lem : Bounded 8
  put_var_int_lem = step 7 facts_7 (λ p7. step 6 facts_6 (λ p6. step 5 facts_5 (λ p5.
      step 4 facts_4 (λ p4. step 3 facts_3 (λ p3.
        step 2 facts_2 (λ p2. step 1 facts_1 (λ p1. step 0 facts_0 (λ p0. absurd (p0 refl)))))))))

module _ {U Error Signature : Type 0} (allocator : U → ℕ → List ℕ × U) (g : Grants allocator) where
  -- At the end of a valid buffer, with an allocator that grants what is asked for, AppendVarInt of
  -- a 64-bit value returns, and has appended the TLV of the value's least number of bytes, the
  -- highest first.
  pub append_var_int-tlv :
      (encoder : TlvEncoder U Error Signature) (type value : ℕ)
      → IsAtEnd encoder.buffer
      → value < 2 ^ 64
      → Encodes encoder
          (tlv type (big_endian (compute_var_int_length value) value))
          (append_var_int allocator encoder type value)
  unfolding append_var_int
  append_var_int-tlv encoder type value v h =
      let ys = big_endian (compute_var_int_length value) value in
      let len = length-big_endian (compute_var_int_length value) value in
      subst
        (λ n. Encodes encoder (tlv type ys) (do
          nb ← Put.put_uint16 allocator encoder.buffer type
          nb' ← Put.put_uint16 allocator nb n
          nb'' ← put_var_int allocator 8 false nb' value
          ok (record encoder { buffer = nb'' }, compute_var_int_length value + 4)))
        len
        (encode_tlv allocator g encoder type ys (λ nb. put_var_int allocator 8 false nb value)
          (compute_var_int_length value + 4) v
          (λ nb w. appended nb ys _ w (put_var_int_lem allocator g nb value h w.valid))
          (omega (arith, len)))
