-- ===== src/Decoder/Misses.antt =====
-- The reads of a decoder that return nothing: too few bytes, another type, another length, or a length
-- past the end.
use libccnx_common.Prelude.{
  ℕ, ◌+◌, ◌^◌, ◌≤◌, ◌<◌, ◌≡◌, ◌≢◌, refl, ap, ◌∙◌, List, ◌++◌, length, arith, none, leb, le→leb,
  lt→leb, Bool-cases, inl, inr, ==_refl, ==_ne, Result, ok,
}
use libccnx_common.Network.Integers.{big_endian}
use libccnx_common.Parc.{ParcBuffer, rest, IsLawful}
use libccnx_common.Parc.Laws.{advance_none, remaining-rest}
use libccnx_common.Decoder.{
  TlvDecoder, ensure_remaining, get_value, get_buffer, get_integer, get_uint8, get_uint16,
  get_uint32, get_uint64,
}
use libccnx_common.Decoder.Tlv.{Gives, peek_lem, header_lem}
use libccnx_common.Decoder.Integers.{
  Width, one_byte, two_bytes, four_bytes, eight_bytes, size_of, get_of,
}

module _ {B : Type 0} (P : ParcBuffer B) (bytes : B → List ℕ) (p : IsLawful P bytes) where
  -- The integer that is not there, in the body that the four getters share.
  miss_type :
      (width : ℕ) (get : B → Result (ℕ × B)) (decoder : TlvDecoder B) (type found : ℕ)
      (more : List ℕ)
      → found ≢ type
      → found < 2 ^ 16
      → rest P bytes decoder.buffer ≡ big_endian 2 found ++ more
      → Gives P bytes decoder 0 none (get_integer P width get decoder type)
  unfolding get_integer
  miss_type width get decoder type found more n h e =
      let (b, q, a, _) = peek_lem P bytes p decoder found more h e in
      elim (Bool-cases (leb (4 + width) (P.remaining decoder.buffer))) [
        | inl t ↦ (b, rw (t, q, ==_ne n) refl, a)
        | inr t ↦ (decoder.buffer, rw t refl, advance_none P bytes decoder.buffer)
      ]

  miss_buffer :
      (decoder : TlvDecoder B) (type found : ℕ) (more : List ℕ)
      → found ≢ type
      → found < 2 ^ 16
      → rest P bytes decoder.buffer ≡ big_endian 2 found ++ more
      → Gives P bytes decoder 0 none (get_buffer P decoder type)
  unfolding get_buffer ensure_remaining
  miss_buffer decoder type found more n h e =
      let (b, q, a, _) = peek_lem P bytes p decoder found more h e in
      elim (Bool-cases (leb 4 (P.remaining decoder.buffer))) [
        | inl t ↦ (b, rw (t, q, ==_ne n) refl, a)
        | inr t ↦ (decoder.buffer, rw t refl, advance_none P bytes decoder.buffer)
      ]

  miss_length :
      (width : ℕ) (get : B → Result (ℕ × B)) (decoder : TlvDecoder B) (type n : ℕ) (more : List ℕ)
      → n ≢ width
      → type < 2 ^ 16
      → n < 2 ^ 16
      → width ≤ length more
      → rest P bytes decoder.buffer ≡ big_endian 2 type ++ (big_endian 2 n ++ more)
      → Gives P bytes decoder 4 none (get_integer P width get decoder type)
  unfolding get_integer
  miss_length width get decoder type n more w h k l e =
      let (b, b', b'', q, q', q'', a, t) = header_lem P bytes p decoder type n more h k e in
      let m = remaining-rest P bytes p decoder.buffer ∙ ap length e in
      (
        b'',
        rw
            (
              le→leb (4 + width) (P.remaining decoder.buffer) (omega (arith, m)),
              q,
              ==_refl type,
              q',
              q'',
              ==_ne w,
            )
            refl,
        a,
      )

  -- If the next type of a decoder is another one, GetBuffer, GetUint8, GetUint16, GetUint32 and
  -- GetUint64 return no value, and the decoder is where it was, with the bytes it had.
  pub get_of-other_type :
      (width : Width) (decoder : TlvDecoder B) (type found : ℕ) (more : List ℕ)
      → found ≢ type
      → found < 2 ^ 16
      → rest P bytes decoder.buffer ≡ big_endian 2 found ++ more
      → Gives P bytes decoder 0 none (get_buffer P decoder type)
        × Gives P bytes decoder 0 none (get_of P width decoder type)
  unfolding get_uint8 get_uint16 get_uint32 get_uint64
  get_of-other_type width decoder type found more n h e = (buffer, integer width)
    where
      buffer : Gives P bytes decoder 0 none (get_buffer P decoder type)
      buffer = miss_buffer decoder type found more n h e

      integer : (width : Width) → Gives P bytes decoder 0 none (get_of P width decoder type)
      integer one_byte = miss_type 1 P.get_uint8 decoder type found more n h e
      integer two_bytes = miss_type 2 P.get_uint16 decoder type found more n h e
      integer four_bytes = miss_type 4 P.get_uint32 decoder type found more n h e
      integer eight_bytes = miss_type 8 P.get_uint64 decoder type found more n h e

  -- If the next type of a decoder is this one, and the length is not the width of the integer that is
  -- asked for, but as many bytes are left, GetUint8, GetUint16, GetUint32 and GetUint64 return no
  -- value, and the decoder is behind the type and the length.
  pub get_of-other_length :
      (width : Width) (decoder : TlvDecoder B) (type n : ℕ) (more : List ℕ)
      → n ≢ size_of width
      → type < 2 ^ 16
      → n < 2 ^ 16
      → size_of width ≤ length more
      → rest P bytes decoder.buffer ≡ big_endian 2 type ++ (big_endian 2 n ++ more)
      → Gives P bytes decoder 4 none (get_of P width decoder type)
  unfolding get_uint8 get_uint16 get_uint32 get_uint64
  get_of-other_length one_byte decoder type n more w h k l e =
      miss_length 1 P.get_uint8 decoder type n more w h k l e
  get_of-other_length two_bytes decoder type n more w h k l e =
      miss_length 2 P.get_uint16 decoder type n more w h k l e
  get_of-other_length four_bytes decoder type n more w h k l e =
      miss_length 4 P.get_uint32 decoder type n more w h k l e
  get_of-other_length eight_bytes decoder type n more w h k l e =
      miss_length 8 P.get_uint64 decoder type n more w h k l e

  -- If fewer bytes are left than the length says, GetValue returns no buffer; and if fewer are left
  -- than the header and the integer take, so do GetUint8, GetUint16, GetUint32 and GetUint64. The
  -- decoder is the same.
  pub get_value-short :
      (decoder : TlvDecoder B) (type n : ℕ) (width : Width)
      → length (rest P bytes decoder.buffer) < n
      → n ≤ 4 + size_of width
      → (get_value P decoder n ≡ ok (none, decoder))
        × (get_of P width decoder type ≡ ok (none, decoder))
  unfolding get_value ensure_remaining get_integer get_uint8 get_uint16 get_uint32 get_uint64
  get_value-short decoder type n width h k = (
    rw (lt→leb n (P.remaining decoder.buffer) (omega (arith, m))) refl,
    integer width (omega (arith, m)),
  )
    where
      m : P.remaining decoder.buffer ≡ length (rest P bytes decoder.buffer)
      m = remaining-rest P bytes p decoder.buffer

      integer :
          (width : Width)
          → P.remaining decoder.buffer < 4 + size_of width
          → get_of P width decoder type ≡ ok (none, decoder)
      integer one_byte l = rw (lt→leb 5 (P.remaining decoder.buffer) l) refl
      integer two_bytes l = rw (lt→leb 6 (P.remaining decoder.buffer) l) refl
      integer four_bytes l = rw (lt→leb 8 (P.remaining decoder.buffer) l) refl
      integer eight_bytes l = rw (lt→leb 12 (P.remaining decoder.buffer) l) refl
