-- ===== src/Utilities/Loop.antt =====
-- The loop of `ccnxCodecTlvUtilities_DecodeContainer`: it ends on any bytes, and it refuses what is left
-- behind the last whole TLV.
use libccnx_common.Prelude.{
  ℕ, zero, suc, ◌+◌, ◌≤◌, ◌<◌, ◌≡◌, refl, sym, ap, List, Bool, false, inl, inr, length, take, drop,
  take-drop, length-take, arith, leb, Bool-cases, leb→le, ok,
}
use libccnx_common.Parc.{ParcBuffer, rest, number_from, IsLawful}
use libccnx_common.Parc.Laws.{remaining-rest}
use libccnx_common.Decoder.{TlvDecoder, ensure_remaining, get_type, get_length, is_empty}
use libccnx_common.Utilities.Decode.{TypeDecoder, decode_container}

-- On a dictionary that is well formed, the callback returns one that is, and does not move the decoder back.
abbrev pub IsForward : {B D : Type 0} → ParcBuffer B → (D → Type 0) → TypeDecoder B D → Type 0
IsForward {B} {D} P Formed type_decoder =
    (decoder : TlvDecoder B) (dictionary : D) (type n : ℕ)
    → Formed dictionary
    → n ≤ P.remaining decoder.buffer
    → (success : Bool) × (decoder' : TlvDecoder B) × (dictionary' : D) × (type_decoder decoder
          dictionary type n
        ≡ ok (success, decoder', dictionary'))
      × (P.remaining decoder'.buffer ≤ P.remaining decoder.buffer)
      × Formed dictionary'

module _ {B : Type 0} (P : ParcBuffer B) (bytes : B → List ℕ) (p : IsLawful P bytes) where
  -- A read of two bytes, whatever they are.
  short_lem :
      (b : B)
      → 2 ≤ P.remaining b
      → (value : ℕ) × (b' : B) × (P.get_uint16 b ≡ ok (value, b'))
        × (P.remaining b' + 2 ≡ P.remaining b)
  short_lem b h =
      let m = remaining-rest P bytes p b in
      let (b', q, a) =
        p.reads_16 b (take 2 (rest P bytes b)) (drop 2 (rest P bytes b))
          (omega (arith, length-take 2 (rest P bytes b))) (sym (take-drop 2 (rest P bytes b))) in
      (
        number_from 0 (take 2 (rest P bytes b)),
        b',
        q,
        omega (arith, p.counts b, p.counts b', ap length a.same, a.at),
      )

  header_any :
      (decoder : TlvDecoder B)
      → 4 ≤ P.remaining decoder.buffer
      → (type : ℕ) × (n : ℕ) × (d : TlvDecoder B) × (d' : TlvDecoder B) × (get_type P decoder
          ≡ ok (type, d))
        × (get_length P d ≡ ok (n, d'))
        × (P.remaining d'.buffer + 4 ≡ P.remaining decoder.buffer)
  unfolding get_type get_length
  header_any decoder h =
      let (type, b, q, m) = short_lem decoder.buffer (omega arith) in
      let (n, b', q', m') = short_lem b (omega arith) in
      (
        type,
        n,
        record decoder { buffer = b },
        record decoder { buffer = b' },
        rw q refl,
        rw q' refl,
        omega arith,
      )

module _ {B D : Type 0} (P : ParcBuffer B) (bytes : B → List ℕ) (p : IsLawful P bytes) where
  -- On any bytes and a well-formed dictionary, if the callback returns for every length that is left, does not move
  -- the decoder back and keeps the dictionary well formed, then DecodeContainer returns, in no more rounds than there
  -- are bytes left, and one, and the dictionary is well formed.
  pub decode_container-returns :
      (Formed : D → Type 0) (type_decoder : TypeDecoder B D) (fuel : ℕ) (decoder : TlvDecoder B)
      (dictionary : D)
      → IsForward P Formed type_decoder
      → Formed dictionary
      → P.remaining decoder.buffer < fuel
      → (success : Bool) × (decoder' : TlvDecoder B) × (dictionary' : D) × (decode_container P
            type_decoder fuel decoder dictionary
          ≡ ok (success, decoder', dictionary'))
        × Formed dictionary'
  unfolding decode_container ensure_remaining
  decode_container-returns Formed type_decoder zero decoder dictionary f i h = absurd (omega arith)
  decode_container-returns Formed type_decoder (suc fuel) decoder dictionary f i h =
      elim (Bool-cases (leb 4 (P.remaining decoder.buffer))) [
        | inr t ↦ (is_empty P decoder, decoder, dictionary, rw t refl, i)
        | inl t ↦
            let (type, n, d, d', q, q', m) = header_any P bytes p decoder (leb→le _ _ t) in
            elim (Bool-cases (leb n (P.remaining d'.buffer))) [
              | inr u ↦ (false, d', dictionary, rw (t, q, q', u) refl, i)
              | inl u ↦
                  let (s, d'', dictionary', r, k, i') = f d' dictionary type n i (leb→le _ _ u) in
                  elim (Bool-cases s) [
                    | inr x ↦ (false, d'', dictionary', rw (t, q, q', u, r, x) refl, i')
                    | inl x ↦
                        let (s', e, dictionary'', w, i'') =
                          decode_container-returns Formed type_decoder fuel d'' dictionary' f i'
                            (omega arith) in
                        (s', e, dictionary'', rw (t, q, q', u, r, x) w, i'')
                  ]
            ]
      ]
