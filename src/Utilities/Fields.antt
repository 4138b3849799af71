-- ===== src/Utilities/Fields.antt =====
-- `ccnxCodecTlvUtilities_DecodeContainer`: the loop ends, and it hands each TLV of a container to its
-- callback, in order.
use libccnx_common.Prelude.{
  ℕ, zero, suc, ◌^◌, ◌≤◌, ◌<◌, ◌≡◌, refl, ap, ◌∙◌, List, [], ◌∷◌, ◌++◌, Bool, true, false, inl, inr,
  length, length-append, arith, le→leb, Bool-cases, ok,
}
use libccnx_common.Network.Integers.{big_endian}
use libccnx_common.Encoder.Appends.{tlv}
use libccnx_common.Parc.{ParcBuffer, rest, IsLawful}
use libccnx_common.Parc.Laws.{remaining-rest, read_lem}
use libccnx_common.Decoder.{TlvDecoder, ensure_remaining, get_type, get_length, is_empty}
use libccnx_common.Utilities.Decode.{TypeDecoder, decode_container}

-- The TLVs of a container, one behind the other.
abbrev pub tlvs : List (ℕ × List ℕ) → List ℕ
tlvs [] = []
tlvs ((type, value) ∷ fields) = tlv type value ++ tlvs fields

-- Each type and each length is a uint16_t.
abbrev pub AreShort : List (ℕ × List ℕ) → Type 0
AreShort [] = Unit {0}
AreShort ((type, value) ∷ fields) = (type < 2 ^ 16) × (length value < 2 ^ 16) × AreShort fields

-- What a callback does with a dictionary, without the decoder.
abbrev pub Handler : Type 0 → Type 0
Handler D = D → ℕ → List ℕ → Bool × D

-- The fields in order, up to the first that fails.
abbrev pub handle_all : {D : Type 0} → Handler D → D → List (ℕ × List ℕ) → Bool × D
handle_all handle dictionary [] = (true, dictionary)
handle_all handle dictionary ((type, value) ∷ fields) = elim (handle dictionary type value).0 [
  | true ↦ handle_all handle (handle dictionary type value).1 fields
  | false ↦ handle dictionary type value
]

pub handle_all_step :
    {D : Type 0} (handle : Handler D) (dictionary : D) (type : ℕ) (value : List ℕ)
    (fields : List (ℕ × List ℕ)) (b : Bool)
    → (handle dictionary type value).0 ≡ b
    → handle_all handle dictionary ((type, value) ∷ fields) ≡ (elim b [
      | true ↦ handle_all handle (handle dictionary type value).1 fields
      | false ↦ handle dictionary type value
    ])
handle_all_step handle dictionary type value fields b e =
    ap
      (λ x. elim x [
        | true ↦ handle_all handle (handle dictionary type value).1 fields
        | false ↦ handle dictionary type value
      ])
      e

-- On a value of its length the callback returns what the handler says, and if that is success, the value
-- is behind the decoder.
abbrev pub Handles :
    {B D : Type 0} (P : ParcBuffer B) (bytes : B → List ℕ) → TypeDecoder B D → Handler D → Type 0
Handles {B} {D} P bytes type_decoder handle =
    (decoder : TlvDecoder B) (dictionary : D) (type : ℕ) (value more : List ℕ)
    → rest P bytes decoder.buffer ≡ value ++ more
    → (decoder' : TlvDecoder B) × (type_decoder decoder dictionary type (length value)
        ≡ ok ((handle dictionary type value).0, decoder', (handle dictionary type value).1))
      × ((handle dictionary type value).0 ≡ true → rest P bytes decoder'.buffer ≡ more)

module _ {B : Type 0} (P : ParcBuffer B) (bytes : B → List ℕ) (p : IsLawful P bytes) where
  -- The type and the length of the next TLV.
  pub next_lem :
      (decoder : TlvDecoder B) (type n : ℕ) (more : List ℕ)
      → type < 2 ^ 16
      → n < 2 ^ 16
      → rest P bytes decoder.buffer ≡ big_endian 2 type ++ (big_endian 2 n ++ more)
      → (d : TlvDecoder B) × (d' : TlvDecoder B) × (get_type P decoder ≡ ok (type, d))
        × (get_length P d ≡ ok (n, d'))
        × (rest P bytes d'.buffer ≡ more)
        × (d'.error ≡ decoder.error)
  unfolding get_type get_length
  next_lem decoder type n more h k e =
      let (b, q, _, t) = read_lem P bytes p 2 P.get_uint16 decoder.buffer type _ p.reads_16 h e in
      let (b', q', _, t') = read_lem P bytes p 2 P.get_uint16 b n more p.reads_16 k t in
      (
        record decoder { buffer = b },
        record decoder { buffer = b' },
        rw q refl,
        rw q' refl,
        t',
        refl,
      )

  pub has_bytes :
      (decoder : TlvDecoder B) (n : ℕ)
      → n ≤ length (rest P bytes decoder.buffer)
      → ensure_remaining P decoder n ≡ true
  unfolding ensure_remaining
  has_bytes decoder n h =
      le→leb n (P.remaining decoder.buffer) (omega (arith, remaining-rest P bytes p decoder.buffer))

  pub at_end :
      (decoder : TlvDecoder B)
      → rest P bytes decoder.buffer ≡ []
      → (ensure_remaining P decoder 4 ≡ false) × (is_empty P decoder ≡ true)
  unfolding ensure_remaining is_empty
  at_end decoder e =
      let m : P.remaining decoder.buffer ≡ 0 =
        remaining-rest P bytes p decoder.buffer ∙ ap length e in
      (rw m refl, rw (p.has_counts decoder.buffer, m) refl)

  -- The rounds of the loop, from what its first round does.
  pub over :
      {D : Type 0} (type_decoder : TypeDecoder B D) (fuel : ℕ) (decoder d d' d'' : TlvDecoder B)
      (dictionary : D) (type n : ℕ) (result : Bool × D)
      → 4 ≤ length (rest P bytes decoder.buffer)
      → get_type P decoder ≡ ok (type, d)
      → get_length P d ≡ ok (n, d')
      → n ≤ length (rest P bytes d'.buffer)
      → type_decoder d' dictionary type n ≡ ok (result.0, d'', result.1)
      → decode_container P type_decoder (suc fuel) decoder dictionary ≡ (elim result.0 [
        | true ↦ decode_container P type_decoder fuel d'' result.1
        | false ↦ ok (false, d'', result.1)
      ])
  unfolding decode_container
  over type_decoder fuel decoder d d' d'' dictionary type n result h q q' k r =
      rw (has_bytes decoder 4 h, q, q', has_bytes d' n k, r) refl

module _ {B D : Type 0} (P : ParcBuffer B) (bytes : B → List ℕ) (p : IsLawful P bytes) where
  -- If the bytes left of a decoder are TLVs whose types and lengths are of 16 bits, the callback does what a
  -- handler says, and there are more rounds than TLVs, then DecodeContainer returns what the handler makes of
  -- all the values in order up to the first that fails, and on success no byte is left.
  pub decode_container-tlvs :
      (type_decoder : TypeDecoder B D) (handle : Handler D) (fields : List (ℕ × List ℕ)) (fuel : ℕ)
      (decoder : TlvDecoder B) (dictionary : D)
      → Handles P bytes type_decoder handle
      → AreShort fields
      → length fields < fuel
      → rest P bytes decoder.buffer ≡ tlvs fields
      → (decoder' : TlvDecoder B) × (decode_container P type_decoder fuel decoder dictionary
          ≡ ok (
            (handle_all handle dictionary fields).0,
            decoder',
            (handle_all handle dictionary fields).1,
          ))
        × ((handle_all handle dictionary fields).0 ≡ true → rest P bytes decoder'.buffer ≡ [])
  unfolding decode_container
  decode_container-tlvs type_decoder handle fields zero decoder dictionary f s h e =
      absurd (omega arith)
  decode_container-tlvs type_decoder handle [] (suc fuel) decoder dictionary f s h e =
      let (x, y) = at_end P bytes p decoder e in (decoder, rw (x, y) refl, λ _. e)
  decode_container-tlvs type_decoder handle ((type, value) ∷ fields) (suc fuel) decoder dictionary f
        (a, b, s) h e =
      let e' : rest P bytes decoder.buffer
          ≡ big_endian 2 type ++ (big_endian 2 (length value) ++ (value ++ tlvs fields)) =
        e in
      let (d, d', q, q', t, _) =
        next_lem P bytes p decoder type (length value) (value ++ tlvs fields) a b e' in
      let (d'', r, g) = f d' dictionary type value (tlvs fields) t in
      let o =
        over P bytes p type_decoder fuel decoder d d' d'' dictionary type (length value)
          (handle dictionary type value) (omega (arith, ap length e')) q q'
          (omega (arith, ap length t, length-append value (tlvs fields))) r in
      elim (Bool-cases (handle dictionary type value).0) [
        | inl y ↦
            let (c, w, z) =
              decode_container-tlvs type_decoder handle fields fuel d''
                (handle dictionary type value).1 f s (omega arith) (g y) in
            rw (handle_all_step handle dictionary type value fields true y) (c, o ∙ rw y w, z)
        | inr y ↦
            rw (handle_all_step handle dictionary type value fields false y)
              (d'', o ∙ rw y refl, λ x. cc)
      ]
