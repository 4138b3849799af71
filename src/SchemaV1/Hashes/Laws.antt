-- ===== src/SchemaV1/Hashes/Laws.antt =====
-- A hash is decoded as it was encoded, if its digest has a size of its kind.
use libccnx_common.Prelude.{
  ℕ, ◌+◌, ◌^◌, ◌≤◌, ◌<◌, ◌≡◌, refl, sym, ap, subst, ◌∙◌, List, [], ◌++◌, length, drop, append-nil,
  arith, some, true, le→leb, le→ltb, ok, ok_pair,
}
use libccnx_common.Prelude.Segments.{drop-append_right}
use libccnx_common.Network.Inv.{Grants, contents}
use libccnx_common.Errors.{CodecError}
use libccnx_common.Encoder.{TlvEncoder}
use libccnx_common.Encoder.Appends.{tlv, IsAtEnd, append_buffer-tlv}
use libccnx_common.Parc.{ParcBuffer, rest, IsLawful}
use libccnx_common.Parc.Laws.{advance_both, remaining-rest, remaining_two}
use libccnx_common.Decoder.{TlvDecoder, ensure_remaining}
use libccnx_common.Decoder.Tlv.{Gives, tlv_rest, get_value_lem}
use libccnx_common.Prelude.{pos}
use libccnx_common.SchemaV1.CryptoSuites.{
  ParcCryptoHashType, hash_sha256, hash_sha512, hash_crc32c, hash_null, hash_other,
}
use libccnx_common.SchemaV1.Hashes.{
  wire_hash, valid_hash, kind_of, make_hash, encode_hash, decode_hash_value,
}
use libccnx_common.SchemaV1.Names.Decodes.{head_lem}

-- The kind that a decoder gives: the kinds without a type of their own come back as none.
abbrev pub carried : ParcCryptoHashType → ParcCryptoHashType
carried hash_sha256 = hash_sha256
carried hash_sha512 = hash_sha512
carried _ = hash_null

module _ {H B : Type 0} (P : ParcBuffer B) (bytes : B → List ℕ) (p : IsLawful P bytes)
    (hash_create : ParcCryptoHashType → B → H) where
  value_lem :
      (decoder : TlvDecoder B) (type limit : ℕ) (value more : List ℕ)
      → type < 2 ^ 16
      → length value < 2 ^ 16
      → length value ≤ limit
      → rest P bytes decoder.buffer ≡ tlv type value ++ more
      → (w : B) × Gives P bytes decoder
          (4 + length value)
          (make_hash P hash_create type (length value) (some w))
          (decode_hash_value P hash_create decoder limit)
        × (rest P bytes w ≡ value)
  unfolding decode_hash_value ensure_remaining
  value_lem decoder type limit value more h k l e =
      let e' = e ∙ tlv_rest P bytes p type value more in
      let (b, b', q, q', a, t) =
        head_lem P bytes p decoder type (length value) (value ++ more) h k e' in
      let (w, (c, r, a'), s, z) =
        get_value_lem P bytes p (record decoder { buffer = b' }) value more t in
      let m = remaining-rest P bytes p decoder.buffer ∙ ap length e' in
      let m' = remaining_two P bytes p b' value more t in
      (
        w,
        (
          c,
          rw
              (
                le→leb 4 (P.remaining decoder.buffer) (omega (arith, m)),
                q,
                q',
                le→ltb limit (length value) l,
                le→leb (length value) (P.remaining b') (omega arith),
                r,
              )
              refl,
          advance_both P bytes decoder.buffer b' c 4 (length value) a a',
        ),
        ap (λ n. drop n (bytes w)) z ∙ s,
      )

module _ {H B : Type 0} (P : ParcBuffer B) (hash_create : ParcCryptoHashType → B → H) where
  -- A hash of the kind, on the wire, is made again.
  made :
      (kind : ParcCryptoHashType) (n : ℕ) (w : B)
      → (wire_hash kind n).1 ≡ true
      → make_hash P hash_create (wire_hash kind n).0 n (some w)
        ≡ some (hash_create (carried kind) w)
  unfolding make_hash wire_hash valid_hash kind_of
  made hash_sha256 n w h = rw h refl
  made hash_sha512 n w h = rw h refl
  made hash_crc32c n w h = refl
  made hash_null n w h = refl
  made (hash_other k) n w h = refl

pos-injective : {m n : ℕ} → pos m ≡ pos n → m ≡ n
pos-injective h = cc

small : (kind : ParcCryptoHashType) (n : ℕ) → (wire_hash kind n).0 < 2 ^ 16
unfolding wire_hash
small hash_sha256 n = omega arith
small hash_sha512 n = omega arith
small hash_crc32c n = omega arith
small hash_null n = omega arith
small (hash_other k) n = omega arith

module _ {H B U Signature : Type 0} (allocator : U → ℕ → List ℕ × U) (g : Grants allocator)
    (P : ParcBuffer B) (bytes : B → List ℕ) (p : IsLawful P bytes)
    (hash_create : ParcCryptoHashType → B → H) (get_digest : H → B)
    (get_digest_type : H → ParcCryptoHashType) where
  -- If the encoder of hashes has appended a hash, its digest of a size of its kind, and of at most 65535 bytes, at the
  -- end of a valid buffer, then the decoder of hashes, on a decoder of the appended bytes and with a limit that the digest
  -- keeps, creates a hash of the same kind from a buffer of the same bytes, and has read the count that was returned. The
  -- kinds other than SHA256 and SHA512 come back as the null kind.
  pub decode_hash_value-encode_hash :
      (encoder encoder' : TlvEncoder U CodecError Signature) (hash : H) (limit count : ℕ)
      (decoder : TlvDecoder B)
      → IsAtEnd encoder.buffer
      → (wire_hash (get_digest_type hash) (length (rest P bytes (get_digest hash)))).1 ≡ true
      → length (rest P bytes (get_digest hash)) ≤ 65535
      → length (rest P bytes (get_digest hash)) ≤ limit
      → encode_hash allocator (rest P bytes) get_digest get_digest_type encoder hash
        ≡ ok (encoder', pos count)
      → rest P bytes decoder.buffer
        ≡ drop (length (contents encoder.buffer)) (contents encoder'.buffer)
      → (w : B) × Gives P bytes decoder count
          (some (hash_create (carried (get_digest_type hash)) w))
          (decode_hash_value P hash_create decoder limit)
        × (rest P bytes w ≡ rest P bytes (get_digest hash))
  unfolding encode_hash
  decode_hash_value-encode_hash encoder encoder' hash limit count decoder v t h l o e =
      let value = rest P bytes (get_digest hash) in
      let kind = get_digest_type hash in
      let type = (wire_hash kind (length value)).0 in
      let (nb, q, w, s) = append_buffer-tlv allocator g encoder type value v h in
      let done : encode_hash allocator (rest P bytes) get_digest get_digest_type encoder hash
          ≡ ok (record encoder { buffer = nb }, pos (4 + length value)) =
        rw (t, q)
          (ap (λ n. ok (record encoder { buffer = nb }, pos n)) {y = 4 + length value}
            (omega arith)) in
      let (x, y) =
        ok_pair (encode_hash allocator (rest P bytes) get_digest get_digest_type encoder hash) done
          o in
      let s' =
        ap (λ k. drop (length (contents encoder.buffer)) (contents k.buffer)) (sym x)
        ∙ ap (λ k. drop (length (contents encoder.buffer)) k) s
        ∙ drop-append_right (length (contents encoder.buffer)) 0 (contents encoder.buffer)
            (tlv type value) (omega arith)
        ∙ sym (append-nil (tlv type value)) in
      let (c, r, z) =
        value_lem P bytes p hash_create decoder type limit value [] (small kind (length value))
          (omega arith) l (e ∙ s') in
      (
        c,
        subst
            (λ m.
              Gives P bytes decoder m (some (hash_create (carried kind) c))
                (decode_hash_value P hash_create decoder limit))
            (pos-injective y)
            (subst
              (λ m.
                Gives P bytes decoder (4 + length value) m
                  (decode_hash_value P hash_create decoder limit))
              (made P hash_create kind (length value) c t) r),
        z,
      )
