-- ===== src/SchemaV1/FixedHeader/Refusals.antt =====
-- The headers that the decoder of the fixed header refuses.
use libccnx_common.Prelude.{
  ℕ, ◌+◌, ◌*◌, ◌<◌, ◌≡◌, refl, sym, ap, subst, some_inj, ◌∙◌, Bool, true, false, List, ◌∷◌, length,
  arith, Option, some, none, ltb, lt→leb, ◌==◌, if◌then◌else◌, Bool-cases, inl, inr, ok,
}
use libccnx_common.Parc.{ParcBuffer, rest, IsAdvanced, IsLawful}
use libccnx_common.Parc.Laws.{remaining-rest}
use libccnx_common.Errors.{
  ErrorCode, CodecError, err_version, err_packetlength_too_short, err_headerlength_too_short,
  err_packetlengthshorter, err_decode,
}
use libccnx_common.Errors
use libccnx_common.Decoder.{TlvDecoder, ensure_remaining, set_error, has_error, position}
use libccnx_common.Dictionary.{Values, Dictionary}
use libccnx_common.SchemaV1.FixedHeader.{fail, validate, decode}
use libccnx_common.SchemaV1.FixedHeader.Reads.{IsFresh, with_header, decode-header}

-- The error that the tests give for a version, a packet length and a header length, and the offset that it
-- names: `none` if all is well.
abbrev pub fault_of : ℕ → ℕ → ℕ → Option (ErrorCode × ℕ)
fault_of version packet_length header_length =
    if version == 1
    then (if ltb packet_length 8
        then some (err_packetlength_too_short, 1)
        else (if ltb header_length 8
            then some (err_headerlength_too_short, 7)
            else (if ltb packet_length header_length
                then some (err_packetlengthshorter, 1)
                else none)))
    else some (err_version, 0)

-- The decoder has the error of this code and offset.
abbrev pub HasError : {B : Type 0} → TlvDecoder B → ErrorCode × ℕ → Type 0
HasError decoder (code, offset) =
    (error : CodecError) × (decoder.error ≡ some error)
    × (error.code ≡ code)
    × (error.byte_offset ≡ offset)

-- False, with the error, and where it was.
abbrev pub Refuses : {B : Type 0} → TlvDecoder B → TlvDecoder B × Bool → ErrorCode × ℕ → Type 0
Refuses decoder (decoder', success) e =
    (success ≡ false) × (decoder'.buffer ≡ decoder.buffer) × HasError decoder' e

fail_lem :
    {B : Type 0} (decoder : TlvDecoder B) (code : ErrorCode) (line offset : ℕ) (e : ErrorCode × ℕ)
    → decoder.error ≡ none
    → some (code, offset) ≡ some e
    → Refuses decoder (fail decoder code line offset, false) e
unfolding fail set_error has_error Errors.create
fail_lem decoder code line offset e h q =
    subst (λ x. Refuses decoder (fail decoder code line offset, false) x) (some_inj q)
      (rw h (
        refl,
        refl,
        (
          Errors.create code "ccnxCodecSchemaV1FixedHeaderDecoder_Decode" line offset,
          refl,
          refl,
          refl,
        ),
      ))

validate-fault_of :
    {B : Type 0} (decoder : TlvDecoder B) (stored : Bool) (v l n : ℕ) (e : ErrorCode × ℕ)
    → decoder.error ≡ none
    → fault_of v l n ≡ some e
    → Refuses decoder (validate decoder stored v l n) e
unfolding validate
validate-fault_of decoder stored v l n e h q = elim (Bool-cases (v == 1)) [
  | inr t ↦ let q' = rw t at q in rw t (fail_lem decoder err_version 108 0 e h q')
  | inl t ↦
      let q1 = rw t at q in
      elim (Bool-cases (ltb l 8)) [
        | inl u ↦
            let q' = rw u at q1 in
            rw (t, u) (fail_lem decoder err_packetlength_too_short 113 1 e h q')
        | inr u ↦
            let q2 = rw u at q1 in
            elim (Bool-cases (ltb n 8)) [
              | inl w ↦
                  let q' = rw w at q2 in
                  rw (t, u, w) (fail_lem decoder err_headerlength_too_short 118 7 e h q')
              | inr w ↦
                  let q3 = rw w at q2 in
                  elim (Bool-cases (ltb l n)) [
                    | inl x ↦
                        let q' = rw x at q3 in
                        rw (t, u, w, x) (fail_lem decoder err_packetlengthshorter 123 1 e h q')
                    | inr x ↦ let q' = rw x at q3 in cc
                  ]
            ]
      ]
]

module _ {V : Values} (P : ParcBuffer V.Buffer) (bytes : V.Buffer → List ℕ)
    (p : IsLawful P bytes) where
  -- If the version is not 1, the packet length or the header length is below 8, or the packet length is below the
  -- header length, then Decode on a decoder with no error, and a dictionary with no entries of a header, returns
  -- false, with the error and the offset of the first of these tests that fails; the header and its two integers
  -- are in the dictionary all the same, and the decoder is behind the eight bytes.
  pub decode-fault_of :
      (decoder : TlvDecoder V.Buffer) (d : Dictionary V) (v t l1 l0 h r f n : ℕ) (more : List ℕ)
      (e : ErrorCode × ℕ)
      → IsFresh d
      → decoder.error ≡ none
      → fault_of v (l1 * 256 + l0) n ≡ some e
      → rest P bytes decoder.buffer ≡ v ∷ t ∷ l1 ∷ l0 ∷ h ∷ r ∷ f ∷ n ∷ more
      → (decoder' : TlvDecoder V.Buffer) × (b : V.Buffer) × (decode P decoder d
          ≡ ok (false, decoder', with_header d b h r))
        × HasError decoder' e
        × IsAdvanced P bytes decoder.buffer 8 decoder'.buffer
  decode-fault_of decoder d v t l1 l0 h r f n more e x y q k =
      let (b, c, z, _, a) = decode-header P bytes p decoder d v t l1 l0 h r f n more x k in
      let (s, u, w) =
        validate-fault_of (record decoder { buffer = c }) true v (l1 * 256 + l0) n e y q in
      (
        (validate (record decoder { buffer = c }) true v (l1 * 256 + l0) n).0,
        b,
        z
            ∙ ap
                (λ o. ok (
                  o,
                  (validate (record decoder { buffer = c }) true v (l1 * 256 + l0) n).0,
                  with_header d b h r,
                ))
                s,
        w,
        subst (λ o. IsAdvanced P bytes decoder.buffer 8 o) (sym u) a,
      )

  -- With fewer than eight bytes left Decode returns false, with a decoding error at the position where the decoder
  -- stays, and the dictionary is the same.
  pub decode-short :
      (decoder : TlvDecoder V.Buffer) (d : Dictionary V)
      → decoder.error ≡ none
      → length (rest P bytes decoder.buffer) < 8
      → (decoder' : TlvDecoder V.Buffer) × (decode P decoder d ≡ ok (false, decoder', d))
        × HasError decoder' (err_decode, position P decoder)
        × (decoder'.buffer ≡ decoder.buffer)
  unfolding decode ensure_remaining
  decode-short decoder d y h =
      let m = remaining-rest P bytes p decoder.buffer in
      let (_, u, w) =
        fail_lem decoder err_decode 143 (position P decoder) (err_decode, position P decoder) y
          refl in
      (
        fail decoder err_decode 143 (position P decoder),
        rw (lt→leb 8 (P.remaining decoder.buffer) (omega arith)) refl,
        w,
        u,
      )
