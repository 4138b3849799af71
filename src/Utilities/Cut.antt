-- ===== src/Utilities/Cut.antt =====
-- `ccnxCodecTlvUtilities_DecodeContainer` where the last TLV of the container is cut off.
use libccnx_common.Prelude.{
  ℕ, zero, suc, ◌^◌, ◌<◌, ◌≡◌, refl, sym, ap, ◌∙◌, List, [], ◌∷◌, ◌++◌, true, false, inl, inr,
  length, length-append, append_assoc, arith, le→leb, lt→leb, lt→ltb, Bool-cases, ok,
}
use libccnx_common.Network.Integers.{big_endian}
use libccnx_common.Parc.{ParcBuffer, rest, IsLawful}
use libccnx_common.Parc.Laws.{remaining-rest}
use libccnx_common.Decoder.{TlvDecoder, ensure_remaining, is_empty}
use libccnx_common.Utilities.Decode.{TypeDecoder, decode_container}
use libccnx_common.Utilities.Fields.{
  tlvs, AreShort, Handler, handle_all, handle_all_step, Handles, next_lem, over,
}

-- Too few bytes for a type and a length, or for the value.
pub data IsCut (tail : List ℕ) : Type 0 where
  no_header : 0 < length tail → length tail < 4 → IsCut tail
  no_value :
      (type n : ℕ) (more : List ℕ)
      → type < 2 ^ 16
      → n < 2 ^ 16
      → length more < n
      → tail ≡ big_endian 2 type ++ (big_endian 2 n ++ more)
      → IsCut tail

module _ {B D : Type 0} (P : ParcBuffer B) (bytes : B → List ℕ) (p : IsLawful P bytes) where
  cut_lem :
      (type_decoder : TypeDecoder B D) (fuel : ℕ) (decoder : TlvDecoder B) (dictionary : D)
      (tail : List ℕ)
      → IsCut tail
      → rest P bytes decoder.buffer ≡ tail
      → (decoder' : TlvDecoder B) × (decode_container P type_decoder (suc fuel) decoder dictionary
          ≡ ok (false, decoder', dictionary))
  unfolding decode_container ensure_remaining is_empty
  cut_lem type_decoder fuel decoder dictionary tail (no_header a b) e =
      let m = remaining-rest P bytes p decoder.buffer ∙ ap length e in
      (
        decoder,
        rw
            (
              lt→leb 4 (P.remaining decoder.buffer) (omega arith),
              p.has_counts decoder.buffer,
              lt→ltb 0 (P.remaining decoder.buffer) (omega arith),
            )
            refl,
      )
  cut_lem type_decoder fuel decoder dictionary tail (no_value type n more a b c d) e =
      let m = remaining-rest P bytes p decoder.buffer ∙ ap length (e ∙ d) in
      let (x, x', q, q', t, _) = next_lem P bytes p decoder type n more a b (e ∙ d) in
      let m' = remaining-rest P bytes p x'.buffer ∙ ap length t in
      (
        x',
        rw
            (
              le→leb 4 (P.remaining decoder.buffer) (omega (arith, m)),
              q,
              q',
              lt→leb n (P.remaining x'.buffer) (omega (arith, m')),
            )
            refl,
      )

  -- If a container holds TLVs whose types and lengths are of 16 bits, and behind them one that is cut off in its
  -- header or in its value, the callback does what a handler says, the handler accepts the whole ones, and there
  -- are more rounds than these, then DecodeContainer returns false.
  pub decode_container-cut :
      (type_decoder : TypeDecoder B D) (handle : Handler D) (fields : List (ℕ × List ℕ))
      (tail : List ℕ) (fuel : ℕ) (decoder : TlvDecoder B) (dictionary : D)
      → Handles P bytes type_decoder handle
      → AreShort fields
      → IsCut tail
      → (handle_all handle dictionary fields).0 ≡ true
      → length fields < fuel
      → rest P bytes decoder.buffer ≡ tlvs fields ++ tail
      → (decoder' : TlvDecoder B) × (decode_container P type_decoder fuel decoder dictionary
          ≡ ok (false, decoder', (handle_all handle dictionary fields).1))
  decode_container-cut type_decoder handle fields tail zero decoder dictionary f s c g h e =
      absurd (omega arith)
  decode_container-cut type_decoder handle [] tail (suc fuel) decoder dictionary f s c g h e =
      cut_lem type_decoder fuel decoder dictionary tail c e
  decode_container-cut type_decoder handle ((type, value) ∷ fields) tail (suc fuel) decoder
        dictionary f (a, b, s) c g h e =
      let e' : rest P bytes decoder.buffer
          ≡ big_endian 2 type ++ (big_endian 2 (length value) ++ (value ++ (tlvs fields ++ tail))) =
        e
        ∙ ap (λ l. big_endian 2 type ++ (big_endian 2 (length value) ++ l))
            (append_assoc value (tlvs fields) tail) in
      let (d, d', q, q', t, _) =
        next_lem P bytes p decoder type (length value) (value ++ (tlvs fields ++ tail)) a b e' in
      let (d'', r, z) = f d' dictionary type value (tlvs fields ++ tail) t in
      let o =
        over P bytes p type_decoder fuel decoder d d' d'' dictionary type (length value)
          (handle dictionary type value) (omega (arith, ap length e')) q q'
          (omega (arith, ap length t, length-append value (tlvs fields ++ tail))) r in
      elim (Bool-cases (handle dictionary type value).0) [
        | inl y ↦
            let step = handle_all_step handle dictionary type value fields true y in
            let (w, v) =
              decode_container-cut type_decoder handle fields tail fuel d''
                (handle dictionary type value).1 f s c (sym (ap (λ x. x.0) step) ∙ g) (omega arith)
                (z y) in
            rw step (w, o ∙ rw y v)
        | inr y ↦
            let step = handle_all_step handle dictionary type value fields false y in
            let n : false ≡ true = sym y ∙ (sym (ap (λ x. x.0) step) ∙ g) in cc
      ]
