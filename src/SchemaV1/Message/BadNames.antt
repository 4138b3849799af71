-- ===== src/SchemaV1/Message/BadNames.antt =====
-- A message whose name has a segment that cannot be decoded.
use libccnx_common.Prelude.{
  ℕ, zero, suc, ◌+◌, ◌^◌, ◌<◌, ◌≡◌, ◌⊎◌, inl, inr, refl, ap, ◌∙◌, List, [], ◌∷◌, ◌++◌, append_assoc,
  length, length-append, arith, le→leb, lt→leb, lt→ltb, none, trap, ok,
}
use libccnx_common.Encoder.Appends.{tlv}
use libccnx_common.Parc.{ParcBuffer, rest, IsLawful}
use libccnx_common.Parc.Laws.{remaining-rest, rest-advanced, remaining_two}
use libccnx_common.Decoder.{TlvDecoder, ensure_remaining, position}
use libccnx_common.Decoder.Tlv.{get_value_lem, tlv_rest}
use libccnx_common.Dictionary.{Values, Dictionary}
use libccnx_common.Utilities.Decode.{decode_container}
use libccnx_common.Utilities.Fields.{tlvs, AreShort}
use libccnx_common.SchemaV1.CryptoSuites.{ParcCryptoHashType}
use libccnx_common.SchemaV1.Names.{
  NameSegment, label_create, create_type_value, segment_is_valid, name_append, decode_segment,
  decode_segments, decode_name_value,
}
use libccnx_common.SchemaV1.Names.Decodes.{AreNamed, head_lem, decode_segment_lem}
use libccnx_common.SchemaV1.Message.{put_as_name, put_field, decode_message_type, decode_message}

-- What no segment can be read from: a segment of type zero, or one to three bytes at the end.
abbrev pub IsBad : List ℕ → Type 0
IsBad bad =
    ((value : List ℕ) × (more : List ℕ) × (length value < 2 ^ 16) × (bad ≡ tlv 0 value ++ more))
    ⊎ ((0 < length bad) × (length bad < 4))

module _ {B : Type 0} (P : ParcBuffer B) (bytes : B → List ℕ) (p : IsLawful P bytes) where
  -- There is no segment.
  bad_segment :
      (decoder : TlvDecoder B) (bad : List ℕ)
      → IsBad bad
      → rest P bytes decoder.buffer ≡ bad
      → (d : TlvDecoder B) × (decode_segment P decoder ≡ ok (none, d))
  unfolding decode_segment ensure_remaining create_type_value label_create
  bad_segment decoder bad (inl (value, more, k, q)) e =
      let e' = e ∙ q ∙ tlv_rest P bytes p 0 value more in
      let (b, b', h, h', a, t) = head_lem P bytes p decoder 0 (length value) _ (omega arith) k e' in
      let (w, (c, r, _), _, _) =
        get_value_lem P bytes p (record decoder { buffer = b' }) value more t in
      let m = remaining-rest P bytes p decoder.buffer ∙ ap length e' in
      let m' = remaining_two P bytes p b' value more t in
      (
        record decoder { buffer = c },
        rw
            (
              le→leb 4 (P.remaining decoder.buffer) (omega (arith, m)),
              h,
              h',
              le→leb (length value) (P.remaining b') (omega arith),
              r,
            )
            refl,
      )
  bad_segment decoder bad (inr (h, k)) e =
      let m = remaining-rest P bytes p decoder.buffer ∙ ap length e in
      (decoder, rw (lt→leb 4 (P.remaining decoder.buffer) (omega (arith, m))) refl)

  -- The loop gets to the bad segment, and the append of it stops.
  bad_segments :
      (fields : List (ℕ × List ℕ)) (fuel name_end : ℕ) (decoder : TlvDecoder B)
      (name : List (NameSegment B)) (bad : List ℕ)
      → AreShort fields
      → AreNamed fields
      → length fields < fuel
      → P.position decoder.buffer + length (tlvs fields) < name_end
      → IsBad bad
      → rest P bytes decoder.buffer ≡ tlvs fields ++ bad
      → decode_segments P fuel decoder name_end name ≡ trap
  unfolding decode_segments position name_append segment_is_valid
  bad_segments fields zero name_end decoder name bad s g h n w e = absurd (omega arith)
  bad_segments [] (suc fuel) name_end decoder name bad s g h n w e =
      let (d, q) = bad_segment decoder bad w e in
      rw (lt→ltb (P.position decoder.buffer) name_end (omega arith), q) refl
  bad_segments ((type, value) ∷ fields) (suc fuel) name_end decoder name bad (x, y, s) (z, g) h n w
        e =
      let e' : rest P bytes decoder.buffer ≡ tlv type value ++ (tlvs fields ++ bad) =
        e ∙ append_assoc (tlv type value) (tlvs fields) bad in
      let l = length-append (tlv type value) (tlvs fields) in
      let (c, b, q, _, a) =
        decode_segment_lem P bytes p decoder type value (tlvs fields ++ bad) z x y e' in
      let t =
        rest-advanced P bytes decoder.buffer b (4 + length value) (tlv type value)
          (tlvs fields ++ bad) a (omega arith) e' in
      rw (lt→ltb (P.position decoder.buffer) name_end (omega arith), q)
        (bad_segments fields fuel name_end (record decoder { buffer = b }) (name ++ (c ∷ [])) bad s
          g (omega arith) (omega (arith, a.at, l)) w t)

  bad_length : (bad : List ℕ) → IsBad bad → 0 < length bad
  bad_length bad (inl (value, more, k, q)) =
      omega (arith, ap length q, length-append (tlv 0 value) more)
  bad_length bad (inr (h, k)) = h

  bad_name :
      (fields : List (ℕ × List ℕ)) (fuel : ℕ) (decoder : TlvDecoder B) (bad : List ℕ)
      → AreShort fields
      → AreNamed fields
      → length fields < fuel
      → IsBad bad
      → rest P bytes decoder.buffer ≡ tlvs fields ++ bad
      → decode_name_value P fuel decoder (length (tlvs fields ++ bad)) ≡ trap
  unfolding decode_name_value ensure_remaining position
  bad_name fields fuel decoder bad s g h w e =
      let m = remaining-rest P bytes p decoder.buffer ∙ ap length e in
      rw
        (
          le→leb (length (tlvs fields ++ bad)) (P.remaining decoder.buffer) (omega (arith, m)),
          bad_segments fields fuel (P.position decoder.buffer + length (tlvs fields ++ bad)) decoder
              [] bad s g h (omega (arith, length-append (tlvs fields) bad, bad_length bad w)) w e,
        )
        refl

module _ {V : Values} (P : ParcBuffer V.Buffer) (bytes : V.Buffer → List ℕ) (p : IsLawful P bytes)
    (name_of : List (NameSegment V.Buffer) → V.Name)
    (hash_create : ParcCryptoHashType → V.Buffer → V.Object) where
  -- If all that is left of a message is a name of less than 65536 bytes, with some segments of 16-bit lengths and of types
  -- that are not zero, and behind them a segment of type zero, or one to three bytes, and there are more rounds than
  -- segments before it, then the decoder of messages does not return false: in a build with validation it stops in the
  -- assertion of ccnxName_Append, which is given a NULL segment.
  pub decode_message-bad_name :
      (fields : List (ℕ × List ℕ)) (bad : List ℕ) (fuel : ℕ) (decoder : TlvDecoder V.Buffer)
      (d : Dictionary V)
      → AreShort fields
      → AreNamed fields
      → IsBad bad
      → length (tlvs fields ++ bad) < 2 ^ 16
      → length fields < suc fuel
      → rest P bytes decoder.buffer ≡ tlv 0 (tlvs fields ++ bad)
      → decode_message P name_of hash_create (suc fuel) decoder d ≡ trap
  unfolding decode_message decode_container decode_message_type put_field put_as_name
      ensure_remaining
  decode_message-bad_name fields bad fuel decoder d s g w k h e =
      let value = tlvs fields ++ bad in
      let (b, b', q, q', a, t) =
        head_lem P bytes p decoder 0 (length value) value (omega arith) k e in
      let m = remaining-rest P bytes p decoder.buffer ∙ ap length e in
      let m' = remaining-rest P bytes p b' ∙ ap length t in
      rw
        (
          le→leb 4 (P.remaining decoder.buffer) (omega (arith, m)),
          q,
          q',
          le→leb (length value) (P.remaining b') (omega (arith, m')),
          bad_name P bytes p fields (suc fuel) (record decoder { buffer = b' }) bad s g h w t,
        )
        refl
