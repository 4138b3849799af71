-- ===== src/Decoder/VarInt.antt =====
-- `ccnxCodecTlvDecoder_BufferToVarInt` and `ccnxCodecTlvDecoder_GetVarInt`, and the other copy of the
-- same loop in the TLV utilities.
use native.Mathlib.Nat.{pow-le-pow_right}
use libccnx_common.Prelude.Bytes.{pow_bytes}
use libccnx_common.Prelude.{
  ◌≤◌, ◌⊎◌, inl, inr, sym, subst, length, length-take, take, drop, take-drop, Bool-cases, Option,
  true, false, ℕ, zero, suc, ◌+◌, ◌*◌, ◌%◌, ◌^◌, ◌<◌, ◌≡◌, refl, ap, ◌∙◌, fun_ext, List, [], ◌∷◌,
  ◌++◌, arith, some, ◌&&◌, leb, ok, ◌>>=◌, if◌then◌else◌, none,
}
use libccnx_common.Network.Integers.{big_endian}
use libccnx_common.Encoder.{compute_var_int_length}
use libccnx_common.Parc.{ParcBuffer, rest, number_from, IsAdvanced, IsLawful}
use libccnx_common.Parc.Laws.{remaining-rest, rest-advanced, advance_none, advance_both}
use libccnx_common.Utilities.VarInt.{IsParcBuffer, get_var_int-append}
use libccnx_common.Utilities.VarInt
use libccnx_common.Decoder.{TlvDecoder, read_bytes, buffer_to_var_int, get_var_int}

guard_true : (n m : ℕ) → (leb 1 n && (leb n 8 && leb n m)) ≡ true → (0 < n) × (n ≤ 8) × (n ≤ m)
guard_true n m h = (ground arith, ground arith, ground arith)

guard_false :
    (n m l : ℕ) → m ≡ l → (leb 1 n && (leb n 8 && leb n m)) ≡ false → (n ≡ 0) ⊎ ((8 < n) ⊎ (l < n))
guard_false n m l e h = ground arith

abbrev pub AreBytes : List ℕ → Type 0
AreBytes [] = Unit {0}
AreBytes (x ∷ xs) = (x < 256) × AreBytes xs

AreBytes-take : (n : ℕ) (xs : List ℕ) → AreBytes xs → AreBytes (take n xs)
AreBytes-take zero xs h = tt
AreBytes-take (suc n) [] h = tt
AreBytes-take (suc n) (x ∷ xs) (h, hs) = (h, AreBytes-take n xs hs)

module _ {B : Type 0} (P : ParcBuffer B) where
  read_bytes_both :
      (n : ℕ) (b : B) (value : ℕ)
      → read_bytes P n b value ≡ VarInt.read_bytes P.remaining P.get_uint8 n b value
  unfolding read_bytes VarInt.read_bytes
  read_bytes_both zero b value = refl
  read_bytes_both (suc n) b value =
      ap (λ next. P.get_uint8 b >>= next)
        (fun_ext (λ x. read_bytes_both n (x.1) (value * 256 % 2 ^ 64 + x.0)))

  -- The two copies agree on every buffer, lawful or not.
  pub buffer_to_var_int-get_var_int :
      (b : B) (length : ℕ)
      → buffer_to_var_int P b length ≡ VarInt.get_var_int P.remaining P.get_uint8 b length
  unfolding buffer_to_var_int VarInt.get_var_int
  buffer_to_var_int-get_var_int b length =
      ap
        (λ r.
          if leb 1 length && (leb length 8 && leb length (P.remaining b))
          then (r >>= (λ x. ok (some x.0, x.1)))
          else ok (none, b))
        (read_bytes_both length b 0)

module _ {B : Type 0} (P : ParcBuffer B) (bytes : B → List ℕ) (p : IsLawful P bytes) where
  bytes-IsParcBuffer : IsParcBuffer (rest P bytes) P.remaining P.get_uint8
  bytes-IsParcBuffer = record {
    counts = remaining-rest P bytes p;
    reads = λ b x xs e.
        let (b', q, a) = p.reads_8 b (x ∷ []) xs refl e in
        (
          b',
          q ∙ ap (λ v. ok (v, b')) (omega arith),
          rest-advanced P bytes b b' 1 (x ∷ []) xs a refl e,
        );
  }

  -- The bytes `ys` behind a number of `k` bytes.
  number_lem :
      (n k : ℕ) (ys more : List ℕ) (b : B) (value : ℕ)
      → length ys ≡ n
      → AreBytes ys
      → k + n ≤ 8
      → value < 2 ^ (8 * k)
      → rest P bytes b ≡ ys ++ more
      → (b' : B) × (read_bytes P n b value ≡ ok (number_from value ys, b'))
        × IsAdvanced P bytes b n b'
  unfolding read_bytes
  number_lem zero k [] more b value l y h m e = (b, refl, advance_none P bytes b)
  number_lem zero k (x ∷ ys) more b value l y h m e = absurd (omega arith)
  number_lem (suc n) k [] more b value l y h m e = absurd (omega arith)
  number_lem (suc n) k (x ∷ ys) more b value l (y, z) h m e =
      let (c, q, a) = p.reads_8 b (x ∷ []) (ys ++ more) refl e in
      let t = rest-advanced P bytes b c 1 (x ∷ []) (ys ++ more) a refl e in
      let high : 2 ^ (8 * suc k) ≤ 2 ^ 64 = pow-le-pow_right (omega arith) {j = 64} (omega arith) in
      let next : value * 256 + x < 2 ^ (8 * suc k) = omega (arith, m, y, pow_bytes k) in
      let (b', q', a') =
        number_lem n (suc k) ys more c (value * 256 + x) (omega arith) z (omega arith) next t in
      let shifted : value * 256 % 2 ^ 64 ≡ value * 256 = omega (arith, m, pow_bytes k, high) in
      (
        b',
        rw q (ap (λ v. read_bytes P n c v) {y = value * 256 + x} (omega (arith, shifted)) ∙ q'),
        subst (λ j. IsAdvanced P bytes b j b') (omega arith) (advance_both P bytes b c b' 1 n a a'),
      )

  -- What a read of `n` bytes may come to: the number that the next bytes are in big endian order, or nothing.
  abbrev pub IsVarInt : B → ℕ → Option ℕ → B → Type 0
  IsVarInt b n o b' =
      ((0 < n)
        × (n ≤ 8)
        × (n ≤ length (rest P bytes b))
        × (o ≡ some (number_from 0 (take n (rest P bytes b))))
        × IsAdvanced P bytes b n b')
      ⊎ (((n ≡ 0) ⊎ ((8 < n) ⊎ (length (rest P bytes b) < n))) × (o ≡ none) × (b' ≡ b))

  -- For every length, BufferToVarInt of the decoder and GetVarInt of the utilities return the same. If the length
  -- is one to eight and there are as many bytes left, each below 256, it is the number that these bytes are in big endian
  -- order, and the buffer is behind them. In all other cases there is no value, and the buffer is where it was.
  pub buffer_to_var_int_lem :
      (b : B) (n : ℕ)
      → AreBytes (rest P bytes b)
      → (o : Option ℕ) × (b' : B) × (buffer_to_var_int P b n ≡ ok (o, b'))
        × (VarInt.get_var_int P.remaining P.get_uint8 b n ≡ ok (o, b'))
        × IsVarInt b n o b'
  buffer_to_var_int_lem b n y =
      let same = sym (buffer_to_var_int-get_var_int P b n) in
      let xs = rest P bytes b in
      let left = remaining-rest P bytes p b in
      elim (Bool-cases (leb 1 n && (leb n 8 && leb n (P.remaining b)))) [
        | inl t ↦
            let (g, h, l) = guard_true n (P.remaining b) t in
            let (b', q, a) =
              number_lem n 0 (take n xs) (drop n xs) b 0 (omega (arith, length-take n xs, left))
                (AreBytes-take n xs y) (omega arith) (omega arith) (sym (take-drop n xs)) in
            let run : buffer_to_var_int P b n ≡ ok (some (number_from 0 (take n xs)), b') =
              unfold buffer_to_var_int in rw (t, q) refl in
            (
              some (number_from 0 (take n xs)),
              b',
              run,
              same ∙ run,
              inl (g, h, omega (arith, left), refl, a),
            )
        | inr t ↦
            let run : buffer_to_var_int P b n ≡ ok (none, b) =
              unfold buffer_to_var_int in rw t refl in
            (
              none,
              b,
              run,
              same ∙ run,
              inr (guard_false n (P.remaining b) (length xs) left t, refl, refl),
            )
      ]

  -- If the next bytes of a decoder are those that AppendVarInt writes for a 64-bit value, GetVarInt
  -- of their number returns the value, and the decoder has these bytes behind it and no more.
  pub get_var_int_lem :
      (decoder : TlvDecoder B) (value : ℕ) (more : List ℕ)
      → value < 2 ^ 64
      → rest P bytes decoder.buffer ≡ big_endian (compute_var_int_length value) value ++ more
      → (b : B) × (get_var_int P decoder (compute_var_int_length value)
          ≡ ok (some value, record decoder { buffer = b }))
        × (rest P bytes b ≡ more)
  unfolding get_var_int
  get_var_int_lem decoder value more h e =
      let (b, q, t) =
        get_var_int-append (rest P bytes) P.remaining P.get_uint8 bytes-IsParcBuffer value
          decoder.buffer more h e in
      (
        b,
        rw (buffer_to_var_int-get_var_int P decoder.buffer (compute_var_int_length value), q) refl,
        t,
      )
