-- ===== src/Decoder/Integers.antt =====
-- `GetContainer`, and `GetUint8`, `GetUint16`, `GetUint32` and `GetUint64`, which read what the encoder's
-- appends of the same names write.
use libccnx_common.Prelude.{
  ℕ, ◌+◌, ◌*◌, ◌^◌, ◌<◌, ◌≡◌, refl, ap, ◌∙◌, List, ◌++◌, length, drop, arith, Option, some, le→leb,
  ==_refl, Result,
}
use libccnx_common.Network.Integers.{big_endian}
use libccnx_common.Encoder.Appends.{tlv}
use libccnx_common.Encoder.VarInt.{length-big_endian}
use libccnx_common.Parc.{ParcBuffer, rest, Reads, IsLawful}
use libccnx_common.Parc.Laws.{advance_both, remaining-rest, remaining_two, read_lem}
use libccnx_common.Decoder.{
  TlvDecoder, create, ensure_remaining, get_container, create_inner, get_integer, get_uint8,
  get_uint16, get_uint32, get_uint64,
}
use libccnx_common.Decoder.Tlv.{Gives, header_lem, get_value_lem}

module _ {B : Type 0} (P : ParcBuffer B) (bytes : B → List ℕ) (p : IsLawful P bytes) where
  -- If the next bytes of a decoder are the value, GetContainer of their number returns a decoder
  -- whose bytes left are exactly these, without an error, and the decoder is behind them.
  pub get_container_lem :
      (decoder : TlvDecoder B) (value more : List ℕ)
      → rest P bytes decoder.buffer ≡ value ++ more
      → (inner : TlvDecoder B) × Gives P bytes decoder
          (length value)
          (some inner)
          (get_container P decoder (length value))
        × (rest P bytes inner.buffer ≡ value)
  unfolding get_container ensure_remaining create_inner create
  get_container_lem decoder value more e =
      let h = remaining_two P bytes p decoder.buffer value more e in
      let (w, (b, q, a), s, z) = get_value_lem P bytes p decoder value more e in
      let (s', z') = p.slices w in
      (
        create P w,
        (b, rw (le→leb (length value) (P.remaining decoder.buffer) (omega arith), q) refl, a),
        ap (λ k. drop k (bytes (P.slice w))) z' ∙ s' ∙ ap (λ k. drop k (bytes w)) z ∙ s,
      )

  get_integer-tlv :
      (width : ℕ) (get : B → Result (ℕ × B)) (decoder : TlvDecoder B) (type value : ℕ)
      (more : List ℕ)
      → Reads P bytes get width
      → type < 2 ^ 16
      → width < 2 ^ 16
      → value < 2 ^ (8 * width)
      → rest P bytes decoder.buffer
        ≡ big_endian 2 type ++ (big_endian 2 width ++ (big_endian width value ++ more))
      → Gives P bytes decoder (4 + width) (some value) (get_integer P width get decoder type)
  unfolding get_integer
  get_integer-tlv width get decoder type value more r h k l e =
      let (b, b', b'', q, q', q'', a, t) = header_lem P bytes p decoder type width _ h k e in
      let (c, r', a', t') = read_lem P bytes p width get b'' value more r l t in
      let m = remaining-rest P bytes p decoder.buffer ∙ ap length e in
      let n = remaining_two P bytes p b'' (big_endian width value) more t in
      let o = remaining-rest P bytes p b'' ∙ ap length t in
      (
        c,
        rw
            (
              le→leb (4 + width) (P.remaining decoder.buffer)
                  (omega (arith, m, n, o, length-big_endian width value)),
              q,
              ==_refl type,
              q',
              q'',
              ==_refl width,
              r',
            )
            refl,
        advance_both P bytes decoder.buffer b'' c 4 width a a',
      )

-- The widths of the integers.
pub data Width : Type 0 where
  one_byte : Width
  two_bytes : Width
  four_bytes : Width
  eight_bytes : Width

abbrev pub size_of : Width → ℕ
size_of one_byte = 1
size_of two_bytes = 2
size_of four_bytes = 4
size_of eight_bytes = 8

module _ {B : Type 0} (P : ParcBuffer B) where
  -- The operation of the decoder for a width.
  abbrev pub get_of : Width → TlvDecoder B → ℕ → Result (Option ℕ × TlvDecoder B)
  get_of one_byte = get_uint8 P
  get_of two_bytes = get_uint16 P
  get_of four_bytes = get_uint32 P
  get_of eight_bytes = get_uint64 P

module _ {B : Type 0} (P : ParcBuffer B) (bytes : B → List ℕ) (p : IsLawful P bytes) where
  -- If the next bytes of a decoder are a TLV with this type, and its value is an integer in 1, 2, 4
  -- or 8 bytes, big endian, then GetUint8, GetUint16, GetUint32 or GetUint64 returns the integer,
  -- and the decoder is behind the TLV.
  pub get_of-tlv :
      (width : Width) (decoder : TlvDecoder B) (type value : ℕ) (more : List ℕ)
      → type < 2 ^ 16
      → value < 2 ^ (8 * size_of width)
      → rest P bytes decoder.buffer ≡ tlv type (big_endian (size_of width) value) ++ more
      → Gives P bytes decoder (4 + size_of width) (some value) (get_of P width decoder type)
  unfolding get_uint8 get_uint16 get_uint32 get_uint64
  get_of-tlv one_byte decoder type value more h k e =
      get_integer-tlv P bytes p 1 P.get_uint8 decoder type value more p.reads_8 h (omega arith) k e
  get_of-tlv two_bytes decoder type value more h k e =
      get_integer-tlv P bytes p 2 P.get_uint16 decoder type value more p.reads_16 h (omega arith) k
        e
  get_of-tlv four_bytes decoder type value more h k e =
      get_integer-tlv P bytes p 4 P.get_uint32 decoder type value more p.reads_32 h (omega arith) k
        e
  get_of-tlv eight_bytes decoder type value more h k e =
      get_integer-tlv P bytes p 8 P.get_uint64 decoder type value more p.reads_64 h (omega arith) k
        e
