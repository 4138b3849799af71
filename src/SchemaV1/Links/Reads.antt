-- ===== src/SchemaV1/Links/Reads.antt =====
-- What the decoder of links reads: to the end of its decoder, whatever the length of the link.
use libccnx_common.Prelude.{
  ℕ, zero, suc, ◌^◌, ◌≤◌, ◌<◌, ◌≡◌, ◌≢◌, refl, ap, ◌∙◌, List, ◌++◌, map, length, arith, some, none,
  le→leb, ◌==◌, ==_ne, if◌then◌else◌, ok,
}
use libccnx_common.Encoder.Appends.{tlv}
use libccnx_common.Parc.{ParcBuffer, rest, IsLawful}
use libccnx_common.Parc.Laws.{rest-advanced, remaining-rest, remaining_two}
use libccnx_common.Errors.{ErrorCode, CodecError, err_decode, err_no_error}
use libccnx_common.Errors
use libccnx_common.Decoder.{TlvDecoder, ensure_remaining, set_error, has_error, position}
use libccnx_common.Decoder.Tlv.{tlv_rest}
use libccnx_common.Utilities.Fields.{tlvs, AreShort}
use libccnx_common.SchemaV1.Names.{NameSegment}
use libccnx_common.SchemaV1.Names.Decodes.{seen, AreNamed, head_lem, decode_name_value-tlvs}
use libccnx_common.SchemaV1.Links.{
  Link, decode_link_name, decode_key_id, decode_link_hash, decode_field, decode_fields, no_link,
  finish_link, decode_link_value,
}

module _ {B : Type 0} (P : ParcBuffer B) (bytes : B → List ℕ) (p : IsLawful P bytes) where
  -- The field that the next TLV selects.
  field_lem :
      (fuel : ℕ) (decoder : TlvDecoder B) (link : Link B) (type : ℕ) (value more : List ℕ)
      → type < 2 ^ 16
      → length value < 2 ^ 16
      → rest P bytes decoder.buffer ≡ tlv type value ++ more
      → (b : B) × (decode_field P fuel decoder link ≡ (
          if type == 0
          then decode_link_name P fuel (record decoder { buffer = b }) link (length value)
          else (if type == 1
              then decode_key_id P (record decoder { buffer = b }) link (length value)
              else (if type == 2
                  then decode_link_hash P (record decoder { buffer = b }) link (length value)
                  else ok (err_decode, record decoder { buffer = b }, link)))))
        × (rest P bytes b ≡ value ++ more)
        × (4 ≤ P.remaining decoder.buffer)
  unfolding decode_field ensure_remaining
  field_lem fuel decoder link type value more h k e =
      let e' = e ∙ tlv_rest P bytes p type value more in
      let (b, b', q, q', a, t) =
        head_lem P bytes p decoder type (length value) (value ++ more) h k e' in
      let m = remaining_two P bytes p b' value more t in
      let m' = remaining-rest P bytes p decoder.buffer ∙ ap length e' in
      (
        b',
        rw (q, q', le→leb (length value) (P.remaining b') (omega arith)) refl,
        t,
        omega (arith, m'),
      )

  name_lem :
      (fuel rounds : ℕ) (decoder : TlvDecoder B) (fields : List (ℕ × List ℕ)) (more : List ℕ)
      → length (tlvs fields) < 2 ^ 16
      → AreShort fields
      → AreNamed fields
      → length fields < fuel
      → rest P bytes decoder.buffer ≡ tlv 0 (tlvs fields) ++ more
      → (segments : List (NameSegment B)) × (b : B) × (decode_fields P fuel
            (suc rounds)
            decoder
            (no_link P)
          ≡ decode_fields P fuel rounds
              (record decoder { buffer = b })
              (record { link_name = some segments; key_id = none; link_hash = none }))
        × (map (seen P bytes) segments ≡ fields)
        × (rest P bytes b ≡ more)
  unfolding decode_fields decode_link_name ensure_remaining
  name_lem fuel rounds decoder fields more k s g f e =
      let (b, q, t, r) =
        field_lem fuel decoder (no_link P) 0 (tlvs fields) more (omega arith) k e in
      let (segments, (c, q', a), w) =
        decode_name_value-tlvs P bytes p fields fuel (record decoder { buffer = b }) more s g f t in
      (
        segments,
        c,
        rw (le→leb 4 (P.remaining decoder.buffer) r, q, q') refl,
        w,
        rest-advanced P bytes b c (length (tlvs fields)) (tlvs fields) more a refl t,
      )

  other_lem :
      (fuel rounds : ℕ) (decoder : TlvDecoder B) (link : Link B) (type : ℕ) (value more : List ℕ)
      → 2 < type
      → type < 2 ^ 16
      → length value < 2 ^ 16
      → rest P bytes decoder.buffer ≡ tlv type value ++ more
      → (b : B) × (decode_fields P fuel (suc rounds) decoder link
          ≡ ok (err_decode, record decoder { buffer = b }, link))
  unfolding decode_fields ensure_remaining
  other_lem fuel rounds decoder link type value more n h m e =
      let (b, q, _, r) = field_lem fuel decoder link type value more h m e in
      let n0 : type ≢ 0 = λ (x : type ≡ 0). omega arith in
      let n1 : type ≢ 1 = λ (x : type ≡ 1). omega arith in
      let n2 : type ≢ 2 = λ (x : type ≡ 2). omega arith in
      (b, rw (le→leb 4 (P.remaining decoder.buffer) r, q, ==_ne n0, ==_ne n1, ==_ne n2) refl)

  -- If the next bytes of a decoder without an error are a link that is only a name, with types and lengths of 16 bits and
  -- no segment of type zero, and behind the link stands a TLV of another container whose type is none of a link's,
  -- then the decoder of links, called with the length of the link and two rounds and more than the segments, returns no
  -- link, and sets a decoding error.
  pub decode_link_value-behind :
      (fields : List (ℕ × List ℕ)) (type fuel : ℕ) (value more : List ℕ) (decoder : TlvDecoder B)
      → length (tlvs fields) < 2 ^ 16
      → AreShort fields
      → AreNamed fields
      → length fields < fuel
      → 1 < fuel
      → 2 < type
      → type < 2 ^ 16
      → length value < 2 ^ 16
      → decoder.error ≡ none
      → rest P bytes decoder.buffer ≡ tlv 0 (tlvs fields) ++ (tlv type value ++ more)
      → (decoder' : TlvDecoder B) × (error : CodecError) × (decode_link_value P fuel decoder
            (length (tlv 0 (tlvs fields)))
          ≡ ok (none, decoder'))
        × (decoder'.error ≡ some error)
        × (error.code ≡ err_decode)
  unfolding decode_link_value finish_link ensure_remaining set_error has_error Errors.create
  decode_link_value-behind fields type zero value more decoder k s g f l n h m x e =
      absurd (omega arith)
  decode_link_value-behind fields type (suc zero) value more decoder k s g f l n h m x e =
      absurd (omega arith)
  decode_link_value-behind fields type (suc (suc fuel)) value more decoder k s g f l n h m x e =
      let r =
        remaining_two P bytes p decoder.buffer (tlv 0 (tlvs fields)) (tlv type value ++ more) e in
      let (segments, b, q, _, t) =
        name_lem (suc (suc fuel)) (suc fuel) decoder fields (tlv type value ++ more) k s g f e in
      let link : Link B = record { link_name = some segments; key_id = none; link_hash = none } in
      let (c, q') =
        other_lem (suc (suc fuel)) fuel (record decoder { buffer = b }) link type value more n h m
          t in
      let d : TlvDecoder B = record decoder { buffer = c } in
      let error =
        Errors.create err_decode "ccnxCodecSchemaV1LinkCodec_DecodeValue" 195 (position P d) in
      (
        (set_error d error).0,
        error,
        rw
            (
              le→leb (length (tlv 0 (tlvs fields))) (P.remaining decoder.buffer) (omega arith),
              q ∙ q',
            )
            refl,
        rw x refl,
        refl,
      )
