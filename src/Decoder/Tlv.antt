-- ===== src/Decoder/Tlv.antt =====
-- The reads of a decoder at a TLV: `GetBuffer`, `GetContainer`, `GetUint8` and the other integers.
use libccnx_common.Prelude.{
  ℕ, ◌+◌, ◌^◌, ◌≤◌, ◌<◌, ◌≡◌, refl, sym, ap, subst, ◌∙◌, List, [], ◌++◌, length, take, arith, some,
  le→leb, ==_refl, Result, ok, length-append,
}
use libccnx_common.Prelude.Segments.{take-length}
use libccnx_common.Network.Integers.{big_endian}
use libccnx_common.Encoder.Appends.{tlv}
use libccnx_common.Parc.{ParcBuffer, rest, IsAdvanced, IsLawful}
use libccnx_common.Parc.Laws.{
  advance_both, rest-advanced, remaining-rest, remaining_two, move_lem, read_lem,
}
use libccnx_common.Decoder.{
  TlvDecoder, ensure_remaining, peek_type, get_type, get_length, get_value, get_buffer,
}

-- The call returns the value and the decoder, its buffer `n` bytes further, and nothing else of it changed.
abbrev pub Gives :
    {B A : Type 0} (P : ParcBuffer B) (bytes : B → List ℕ)
    → TlvDecoder B
    → ℕ
    → A
    → Result (A × TlvDecoder B)
    → Type 0
Gives {B} P bytes decoder n a r =
    (b : B) × (r ≡ ok (a, record decoder { buffer = b })) × IsAdvanced P bytes decoder.buffer n b

module _ {B : Type 0} (P : ParcBuffer B) (bytes : B → List ℕ) (p : IsLawful P bytes) where
  pub peek_lem :
      (decoder : TlvDecoder B) (type : ℕ) (more : List ℕ)
      → type < 2 ^ 16
      → rest P bytes decoder.buffer ≡ big_endian 2 type ++ more
      → (b : B) × (peek_type P decoder ≡ ok (type, record decoder { buffer = b }))
        × IsAdvanced P bytes decoder.buffer 0 b
        × (rest P bytes b ≡ big_endian 2 type ++ more)
  unfolding peek_type
  peek_lem decoder type more h e =
      let (b, q, a, _) =
        read_lem P bytes p 2 P.get_uint16 decoder.buffer type more p.reads_16 h e in
      let (b', q', s, t) = p.moves b (P.position decoder.buffer) (
        subst (λ l. P.position decoder.buffer ≤ length l) (sym a.same) (p.inside decoder.buffer)) in
      let back : IsAdvanced P bytes decoder.buffer 0 b' = record {
        same = s ∙ a.same;
        at = omega (arith, t);
      } in
      (
        b',
        rw (q, q') refl,
        back,
        rest-advanced P bytes decoder.buffer b' 0 [] (big_endian 2 type ++ more) back refl e,
      )

  -- The type is looked at, and then read, and then the length.
  pub header_lem :
      (decoder : TlvDecoder B) (type n : ℕ) (more : List ℕ)
      → type < 2 ^ 16
      → n < 2 ^ 16
      → rest P bytes decoder.buffer ≡ big_endian 2 type ++ (big_endian 2 n ++ more)
      → (b : B) × (b' : B) × (b'' : B) × (peek_type P decoder
          ≡ ok (type, record decoder { buffer = b }))
        × (get_type P (record decoder { buffer = b }) ≡ ok (type, record decoder { buffer = b' }))
        × (get_length P (record decoder { buffer = b' }) ≡ ok (n, record decoder { buffer = b'' }))
        × IsAdvanced P bytes decoder.buffer 4 b''
        × (rest P bytes b'' ≡ more)
  unfolding get_type get_length
  header_lem decoder type n more h k e =
      let (b, q, a, t) = peek_lem decoder type (big_endian 2 n ++ more) h e in
      let (b', q', a', t') = read_lem P bytes p 2 P.get_uint16 b type _ p.reads_16 h t in
      let (b'', q'', a'', t'') = read_lem P bytes p 2 P.get_uint16 b' n more p.reads_16 k t' in
      (
        b,
        b',
        b'',
        q,
        rw q' refl,
        rw q'' refl,
        advance_both P bytes decoder.buffer b b'' 0 4 a (advance_both P bytes b b' b'' 2 2 a' a''),
        t'',
      )

  -- If the next bytes of a decoder are the value and the length is the value's, GetValue returns a
  -- buffer of exactly these bytes, at its start, and the decoder is behind them.
  pub get_value_lem :
      (decoder : TlvDecoder B) (value more : List ℕ)
      → rest P bytes decoder.buffer ≡ value ++ more
      → (w : B) × Gives P bytes decoder (length value) (some w) (get_value P decoder (length value))
        × (bytes w ≡ value)
        × (P.position w ≡ 0)
  unfolding get_value ensure_remaining
  get_value_lem decoder value more e =
      let h = remaining_two P bytes p decoder.buffer value more e in
      let (s, z) = p.slices decoder.buffer in
      let (w, q, t, y) =
        p.limits (P.slice decoder.buffer) (length value) (omega (arith, z))
          (omega (arith, ap length s, ap length e, length-append value more)) in
      let (b, q', a) = move_lem P bytes p decoder.buffer (length value) (omega arith) in
      (
        w,
        (b, rw (le→leb (length value) (P.remaining decoder.buffer) (omega arith), q, q') refl, a),
        t ∙ ap (λ l. take (length value) l) (s ∙ e) ∙ take-length value more,
        y ∙ z,
      )

  pub tlv_rest :
      (type : ℕ) (value more : List ℕ)
      → tlv type value ++ more
        ≡ big_endian 2 type ++ (big_endian 2 (length value) ++ (value ++ more))
  tlv_rest type value more = refl

  -- If the next bytes of a decoder are a TLV with this type, GetBuffer returns a buffer of exactly
  -- the bytes of its value, at its start, and the decoder is behind the TLV.
  pub get_buffer-tlv :
      (decoder : TlvDecoder B) (type : ℕ) (value more : List ℕ)
      → type < 2 ^ 16
      → length value < 2 ^ 16
      → rest P bytes decoder.buffer ≡ tlv type value ++ more
      → (w : B) × Gives P bytes decoder (4 + length value) (some w) (get_buffer P decoder type)
        × (bytes w ≡ value)
        × (P.position w ≡ 0)
  unfolding get_buffer ensure_remaining
  get_buffer-tlv decoder type value more h k e =
      let e' = e ∙ tlv_rest type value more in
      let (b, b', b'', q, q', q'', a, t) = header_lem decoder type (length value) _ h k e' in
      let (w, (c, r, a'), s, z) = get_value_lem (record decoder { buffer = b'' }) value more t in
      let m = remaining-rest P bytes p decoder.buffer ∙ ap length e' in
      (
        w,
        (
          c,
          rw (le→leb 4 (P.remaining decoder.buffer) (omega (arith, m)), q, ==_refl type, q', q'', r)
              refl,
          advance_both P bytes decoder.buffer b'' c 4 (length value) a a',
        ),
        s,
        z,
      )
