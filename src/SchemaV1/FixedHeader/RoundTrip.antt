-- ===== src/SchemaV1/FixedHeader/RoundTrip.antt =====
-- The fixed header, encoded and decoded, and the headers that the decoder refuses.
use libccnx_common.Prelude.{
  ℕ, ◌+◌, ◌*◌, ◌/◌, ◌%◌, ◌^◌, ◌≤◌, ◌<◌, ◌≡◌, ◌≢◌, refl, ap, subst, ◌∙◌, true, List, [], ◌∷◌, ◌++◌,
  length, drop, arith, le→ltb, le→leb, ==_true, ==_ne, ◌==◌, set, if◌then◌else◌, Bool-cases, inl,
  inr, Result, ok,
}
use libccnx_common.Network.Inv.{Grants, contents}
use libccnx_common.Network.Arrays.{put_array_lem}
use libccnx_common.Encoder.{TlvEncoder, append_raw_array}
use libccnx_common.Encoder.Appends.{IsAtEnd, Encodes, appended}
use libccnx_common.Parc.{ParcBuffer, rest, IsAdvanced, IsLawful}
use libccnx_common.Decoder.RoundTrip.{appended_rest}
use libccnx_common.Decoder.{TlvDecoder}
use libccnx_common.Dictionary.{
  Values, Dictionary, unset, buffer, integer, entry_at, get_buffer, get_integer,
}
use libccnx_common.Dictionary.FastArray.{entry_at-after_put, after_put-IsValid}
use libccnx_common.Dictionary.FastArray.Reads.{Reads-of_entry}
use libccnx_common.Prelude.{pos}
use libccnx_common.SchemaV1.{
  headers_fixed_header, headers_interest_return_code, message_hoplimit, packet_type_interest,
  packet_type_interest_return,
}
use libccnx_common.SchemaV1.FixedHeader.{
  FixedHeader, for_type, header_bytes, encode_header, validate, read_at, decode, get_field,
  get_version, get_packet_type, get_packet_length, get_header_length, get_hop_limit,
  get_return_code, get_flags,
}
use libccnx_common.SchemaV1.FixedHeader.Reads.{IsFresh, with_header, read_at_lem, decode-header}

module _ {U Error Signature : Type 0} (allocator : U → ℕ → List ℕ × U) (g : Grants allocator) where
  -- At the end of a valid buffer, with an allocator that grants what is asked for, EncodeHeader of version 1
  -- appends the eight bytes of the header, without the fields that its packet type does not have.
  pub encode_header_lem :
      (encoder : TlvEncoder U Error Signature) (header : FixedHeader)
      → IsAtEnd encoder.buffer
      → header.version ≡ 1
      → Encodes encoder (header_bytes (for_type header)) (encode_header allocator encoder header)
  unfolding encode_header append_raw_array header_bytes
  encode_header_lem encoder header v h =
      let (nb, e, v', s) =
        appended encoder.buffer (header_bytes (for_type header)) _ v
          (put_array_lem allocator g encoder.buffer (header_bytes (for_type header)) v.valid) in
      (nb, rw (==_true header.version 1 h, e) refl, v', s)

-- The call returns the value.
abbrev pub Returns : {A S : Type 0} → Result (A × S) → A → Type 0
Returns {A} {S} r a = (s : S) × (r ≡ ok (a, s))

-- The getters of the fixed header, and the integers of the dictionary, answer for a header.
pub record HoldsHeader {V : Values} (P : ParcBuffer V.Buffer) (d : Dictionary V)
    (header : FixedHeader) : Type 0 where
  pub version : Returns (get_version P d) (pos header.version)
  pub packet_type : Returns (get_packet_type P d) (pos header.packet_type)
  pub packet_length : Returns (get_packet_length P d) (pos header.packet_length)
  pub header_length : Returns (get_header_length P d) (pos header.header_length)
  pub hop_limit : Returns (get_hop_limit P d) (pos header.hop_limit)
  pub return_code : Returns (get_return_code P d) (pos header.return_code)
  pub flags : Returns (get_flags P d) (pos header.flags)
  pub hoplimit : get_integer d message_hoplimit ≡ ok header.hop_limit
  pub interest_return_code : get_integer d headers_interest_return_code ≡ ok header.return_code

module _ {V : Values} where
  -- The entries of a dictionary that holds a header.
  pub entry_at-with_header :
      (d : Dictionary V) (b : V.Buffer) (h r j : ℕ)
      → IsFresh d
      → entry_at (with_header d b h r) j ≡ (
          if headers_interest_return_code == j
          then ok (integer r)
          else (if message_hoplimit == j
              then ok (integer h)
              else (if headers_fixed_header == j then ok (buffer b) else entry_at d j)))
  entry_at-with_header d b h r j f =
      let read1 =
        λ (i : ℕ). entry_at-after_put headers_fixed_header i (buffer b) f.valid f.header in
      let v1 = after_put-IsValid headers_fixed_header unset (buffer b) f.valid in
      let at27 = read1 message_hoplimit ∙ f.hoplimit in
      let read2 = λ (i : ℕ). entry_at-after_put message_hoplimit i (integer h) v1 at27 in
      let v2 = after_put-IsValid message_hoplimit unset (integer h) v1 in
      let at12 =
        read2 headers_interest_return_code ∙ read1 headers_interest_return_code ∙ f.return_code in
      entry_at-after_put headers_interest_return_code j (integer r) v2 at12
      ∙ ap (λ x. if headers_interest_return_code == j then ok (integer r) else x)
          (read2 j ∙ ap (λ x. if message_hoplimit == j then ok (integer h) else x) (read1 j))

module _ {V : Values} (P : ParcBuffer V.Buffer) (bytes : V.Buffer → List ℕ)
    (p : IsLawful P bytes) where
  field_lem :
      (d : Dictionary V) (b : V.Buffer) (offset width value : ℕ)
      (get : V.Buffer → Result (ℕ × V.Buffer)) (xs : List ℕ)
      → entry_at d headers_fixed_header ≡ ok (buffer b)
      → ((b' : V.Buffer) × (read_at P b offset get ≡ ok (value, b')) × (bytes b' ≡ xs))
      → Returns (get_field P offset get d) (pos value)
  unfolding get_field get_buffer
  field_lem d b offset width value get xs e (b', q, _) = (
    record d { direct_array = set d.direct_array headers_fixed_header (buffer b') },
    rw (e, q) refl,
  )

  holds_lem :
      (d : Dictionary V) (b : V.Buffer) (header : FixedHeader)
      → header.packet_length < 2 ^ 16
      → 8 ≤ header.header_length
      → entry_at d headers_fixed_header ≡ ok (buffer b)
      → entry_at d message_hoplimit ≡ ok (integer header.hop_limit)
      → entry_at d headers_interest_return_code ≡ ok (integer header.return_code)
      → bytes b ≡ header_bytes header
      → HoldsHeader P d header
  unfolding header_bytes get_version get_packet_type get_packet_length get_header_length
      get_hop_limit get_return_code get_flags
  holds_lem d b header h k e e27 e12 s =
      let xs = header_bytes header in
      let byte =
        λ (offset value : ℕ) (more : List ℕ) (l : offset ≤ 8)
            (q : drop offset xs ≡ (value ∷ []) ++ more).
          field_lem d b offset 1 value P.get_uint8 xs e (
            read_at_lem P bytes p 1 P.get_uint8 b offset value xs (value ∷ []) more p.reads_8 s
              (omega (arith, l)) q refl (omega arith)) in
      let (d7, q7) = byte 7 header.header_length [] (omega arith) refl in
      record {
        version = byte 0 header.version (drop 1 xs) (omega arith) refl;
        packet_type = byte 1 header.packet_type (drop 2 xs) (omega arith) refl;
        packet_length = field_lem d b 2 2 header.packet_length P.get_uint16 xs e (
            read_at_lem P bytes p 2 P.get_uint16 b 2 header.packet_length xs
              (header.packet_length / 256 % 256 ∷ header.packet_length % 256 ∷ []) (drop 4 xs)
              p.reads_16 s (omega arith) refl refl (omega arith));
        header_length = (d7, rw (q7, le→leb 8 header.header_length k) refl);
        hop_limit = byte 4 header.hop_limit (drop 5 xs) (omega arith) refl;
        return_code = byte 5 header.return_code (drop 6 xs) (omega arith) refl;
        flags = byte 6 header.flags (drop 7 xs) (omega arith) refl;
        hoplimit = (Reads-of_entry e27).integer;
        interest_return_code = (Reads-of_entry e12).integer;
      }

validate_ok :
    {B : Type 0} (decoder : TlvDecoder B) (packet_length header_length : ℕ)
    → 8 ≤ header_length
    → header_length ≤ packet_length
    → validate decoder true 1 packet_length header_length ≡ (decoder, true)
unfolding validate
validate_ok decoder packet_length header_length h k =
    rw
      (
        le→ltb packet_length 8 (omega arith),
        le→ltb header_length 8 h,
        le→ltb packet_length header_length k,
      )
      refl

for_type-keeps :
    (header : FixedHeader)
    → ((for_type header).version ≡ header.version)
      × ((for_type header).packet_length ≡ header.packet_length)
      × ((for_type header).header_length ≡ header.header_length)
unfolding for_type
for_type-keeps header = elim (Bool-cases (header.packet_type == packet_type_interest)) [
  | inl t ↦ rw t (refl, refl, refl)
  | inr t ↦ elim (Bool-cases (header.packet_type == packet_type_interest_return)) [
    | inl u ↦ rw (t, u) (refl, refl, refl)
    | inr u ↦ rw (t, u) (refl, refl, refl)
  ]
]

module _ {V : Values} (P : ParcBuffer V.Buffer) (bytes : V.Buffer → List ℕ)
    (p : IsLawful P bytes) where
  -- If the next bytes of a decoder are a header of version 1 with lengths that fit, and the dictionary has no
  -- entry of a header, then Decode returns true, the decoder is behind the header and has the error it had, and
  -- the getters and the integers of the dictionary answer for the header; the other entries are as before.
  pub decode-header_bytes :
      (decoder : TlvDecoder V.Buffer) (d : Dictionary V) (header : FixedHeader) (more : List ℕ)
      → IsFresh d
      → header.version ≡ 1
      → header.packet_length < 2 ^ 16
      → 8 ≤ header.header_length
      → header.header_length ≤ header.packet_length
      → rest P bytes decoder.buffer ≡ header_bytes header ++ more
      → (c : V.Buffer) × (d' : Dictionary V) × (decode P decoder d
          ≡ ok (true, record decoder { buffer = c }, d'))
        × IsAdvanced P bytes decoder.buffer 8 c
        × HoldsHeader P d' header
        × ((j : ℕ)
            → headers_fixed_header ≢ j
            → headers_interest_return_code ≢ j
            → message_hoplimit ≢ j
            → entry_at d' j ≡ entry_at d j)
  unfolding header_bytes
  decode-header_bytes decoder d header more f v h k l e =
      let (b, c, q, s, a) =
        decode-header P bytes p decoder d header.version header.packet_type
          (header.packet_length / 256 % 256) (header.packet_length % 256) header.hop_limit
          header.return_code header.flags header.header_length more f e in
      let entries = λ (j : ℕ). entry_at-with_header d b header.hop_limit header.return_code j f in
      let same : header.packet_length / 256 % 256 * 256 + header.packet_length % 256
          ≡ header.packet_length =
        omega arith in
      let valid =
        ap
          (λ x.
            validate (record decoder { buffer = c }) true x
              (header.packet_length / 256 % 256 * 256 + header.packet_length % 256)
              header.header_length)
          v
        ∙ ap (λ x. validate (record decoder { buffer = c }) true 1 x header.header_length) same
        ∙ validate_ok (record decoder { buffer = c }) header.packet_length header.header_length k
            l in
      (
        c,
        with_header d b header.hop_limit header.return_code,
        q ∙ ap (λ x. ok (x.1, x.0, with_header d b header.hop_limit header.return_code)) valid,
        a,
        holds_lem P bytes p _ b header h k (entries headers_fixed_header) (entries message_hoplimit)
            (entries headers_interest_return_code) s,
        λ j n1 n12 n27. entries j ∙ rw (==_ne n12, ==_ne n27, ==_ne n1) refl,
      )

  module _ {U Error Signature : Type 0} (allocator : U → ℕ → List ℕ × U)
      (g : Grants allocator) where
    -- If EncodeHeader has appended a header of version 1 with lengths that fit at the end of an encoder's valid
    -- buffer, and the dictionary has no entry of a header, then Decode of the appended bytes returns true and has
    -- read them all, and the getters and the integers of the dictionary answer for the header, without the fields
    -- that its packet type does not have.
    pub decode-encode_header :
        (encoder encoder' : TlvEncoder U Error Signature) (count : ℕ) (header : FixedHeader)
        (decoder : TlvDecoder V.Buffer) (d : Dictionary V)
        → IsAtEnd encoder.buffer
        → IsFresh d
        → header.version ≡ 1
        → header.packet_length < 2 ^ 16
        → 8 ≤ header.header_length
        → header.header_length ≤ header.packet_length
        → encode_header allocator encoder header ≡ ok (encoder', count)
        → rest P bytes decoder.buffer
          ≡ drop (length (contents encoder.buffer)) (contents encoder'.buffer)
        → (c : V.Buffer) × (d' : Dictionary V) × (decode P decoder d
            ≡ ok (true, record decoder { buffer = c }, d'))
          × IsAdvanced P bytes decoder.buffer count c
          × HoldsHeader P d' (for_type header)
    unfolding header_bytes
    decode-encode_header encoder encoder' count header decoder d v f o h k l q e =
        let (s, n) =
          appended_rest encoder encoder' count (header_bytes (for_type header)) _
            (encode_header_lem allocator g encoder header v o) q in
        let (x, y, z) = for_type-keeps header in
        let (c, d', r, a, w, _) =
          decode-header_bytes decoder d (for_type header) [] f (x ∙ o) (omega (arith, y))
            (omega (arith, z)) (omega (arith, y, z)) (e ∙ s) in
        (c, d', r, subst (λ m. IsAdvanced P bytes decoder.buffer m c) (eight n) a, w)
      where
        eight : length (header_bytes (for_type header)) ≡ count → 8 ≡ count
        eight n = n
