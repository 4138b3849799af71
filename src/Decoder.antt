-- ===== src/Decoder.antt =====
-- ccnx/common/codec/ccnxCodec_TlvDecoder.c: the reader of TLVs with 2 bytes of type and 2 bytes of length.
--
-- An operation returns what it reads and the decoder after it. An output that the code leaves unset, or a
-- NULL, is `none`. The buffers are those of a library that is not read here, with its operations `P`.
mod Tests
pub mod Integers
pub mod Misses
pub mod RoundTrip
pub mod Tlv
pub mod VarInt
use libccnx_common.Prelude.{
  ℕ, zero, suc, ◌+◌, ◌*◌, ◌%◌, ◌^◌, Bool, true, false, not, ◌&&◌, Option, none, some, leb, ◌==◌,
  if◌then◌else◌, Result, ok, trap, ◌>>=◌,
}
use libccnx_common.Parc.{ParcBuffer}
use libccnx_common.Errors.{CodecError}

pub record TlvDecoder (B : Type 0) : Type 0 where
  pub buffer : B
  pub error : Option CodecError

module _ {B : Type 0} (P : ParcBuffer B) where
  -- A slice, so that the position and the limit are the decoder's own.
  unfoldable pub create : B → TlvDecoder B
  create buffer = record { buffer = P.slice buffer; error = none }

  unfoldable pub is_empty : TlvDecoder B → Bool
  is_empty decoder = not (P.has_remaining decoder.buffer)

  unfoldable pub ensure_remaining : TlvDecoder B → ℕ → Bool
  ensure_remaining decoder bytes = leb bytes (P.remaining decoder.buffer)

  unfoldable pub remaining : TlvDecoder B → ℕ
  remaining decoder = P.remaining decoder.buffer

  unfoldable pub peek_type : TlvDecoder B → Result (ℕ × TlvDecoder B)
  peek_type decoder = do
    (type, b) ← P.get_uint16 decoder.buffer
    b' ← P.set_position b (P.position decoder.buffer)
    ok (type, record decoder { buffer = b' })

  unfoldable pub get_type : TlvDecoder B → Result (ℕ × TlvDecoder B)
  get_type decoder = do
    (type, b) ← P.get_uint16 decoder.buffer
    ok (type, record decoder { buffer = b })

  unfoldable pub get_length : TlvDecoder B → Result (ℕ × TlvDecoder B)
  get_length decoder = do
    (length, b) ← P.get_uint16 decoder.buffer
    ok (length, record decoder { buffer = b })

  unfoldable pub get_value : TlvDecoder B → ℕ → Result (Option B × TlvDecoder B)
  get_value decoder length =
      if ensure_remaining decoder length
      then (do
        value ← P.set_limit (P.slice decoder.buffer) length
        b ← P.set_position decoder.buffer (P.position decoder.buffer + length)
        ok (some value, record decoder { buffer = b }))
      else ok (none, decoder)

  unfoldable pub get_buffer : TlvDecoder B → ℕ → Result (Option B × TlvDecoder B)
  get_buffer decoder type =
      if ensure_remaining decoder 4
      then (do
        (found, d) ← peek_type decoder
        if found == type
            then (do (_, d') ← get_type d; (length, d'') ← get_length d'; get_value d'' length)
            else ok (none, d))
      else ok (none, decoder)

  -- `ccnxCodecTlvDecoder_Create` of the value, which is not NULL.
  unfoldable pub create_inner : Option B → Result (TlvDecoder B)
  create_inner none = trap
  create_inner (some value) = ok (create value)

  unfoldable pub get_container : TlvDecoder B → ℕ → Result (Option (TlvDecoder B) × TlvDecoder B)
  get_container decoder length =
      if ensure_remaining decoder length
      then (do
        (value, d) ← get_value decoder length
        inner ← create_inner value
        ok (some inner, d))
      else ok (none, decoder)

  -- The body that the four integer getters share: the width and the read of the buffer.
  unfoldable pub get_integer :
      ℕ → (B → Result (ℕ × B)) → TlvDecoder B → ℕ → Result (Option ℕ × TlvDecoder B)
  get_integer value_length get decoder type =
      if leb (4 + value_length) (P.remaining decoder.buffer)
      then (do
        (found, d) ← peek_type decoder
        if found == type
            then (do
              (_, d') ← get_type d
              (length, d'') ← get_length d'
              if length == value_length
                  then (do
                    (output, b) ← get d''.buffer
                    ok (some output, record d'' { buffer = b }))
                  else ok (none, d''))
            else ok (none, d))
      else ok (none, decoder)

  unfoldable pub get_uint8 : TlvDecoder B → ℕ → Result (Option ℕ × TlvDecoder B)
  get_uint8 decoder type = get_integer 1 P.get_uint8 decoder type

  unfoldable pub get_uint16 : TlvDecoder B → ℕ → Result (Option ℕ × TlvDecoder B)
  get_uint16 decoder type = get_integer 2 P.get_uint16 decoder type

  unfoldable pub get_uint32 : TlvDecoder B → ℕ → Result (Option ℕ × TlvDecoder B)
  get_uint32 decoder type = get_integer 4 P.get_uint32 decoder type

  unfoldable pub get_uint64 : TlvDecoder B → ℕ → Result (Option ℕ × TlvDecoder B)
  get_uint64 decoder type = get_integer 8 P.get_uint64 decoder type

  unfoldable pub position : TlvDecoder B → ℕ
  position decoder = P.position decoder.buffer

  unfoldable pub advance : TlvDecoder B → ℕ → Result (Bool × TlvDecoder B)
  advance decoder length =
      if leb length (P.remaining decoder.buffer)
      then (do
        b ← P.set_position decoder.buffer (P.position decoder.buffer + length)
        ok (true, record decoder { buffer = b }))
      else ok (false, decoder)

  -- `for (int i = 0; i < length; i++) value = value << 8 | parcBuffer_GetUint8(buffer);`
  unfoldable pub read_bytes : ℕ → B → ℕ → Result (ℕ × B)
  read_bytes zero input value = ok (value, input)
  read_bytes (suc rounds) input value = do
    (byte, input') ← P.get_uint8 input
    read_bytes rounds input' (value * 256 % 2 ^ 64 + byte)

  unfoldable pub buffer_to_var_int : B → ℕ → Result (Option ℕ × B)
  buffer_to_var_int buffer length =
      if leb 1 length && (leb length 8 && leb length (P.remaining buffer))
      then (do (value, b) ← read_bytes length buffer 0; ok (some value, b))
      else ok (none, buffer)

  unfoldable pub get_var_int : TlvDecoder B → ℕ → Result (Option ℕ × TlvDecoder B)
  get_var_int decoder length = do
    (output, b) ← buffer_to_var_int decoder.buffer length
    ok (output, record decoder { buffer = b })

module _ {B : Type 0} where
  unfoldable pub has_error : TlvDecoder B → Bool
  has_error decoder = elim decoder.error [ none ↦ false | some e ↦ true ]

  unfoldable pub set_error : TlvDecoder B → CodecError → TlvDecoder B × Bool
  unfolding has_error
  set_error decoder error =
      if has_error decoder then (decoder, false) else (record decoder { error = some error }, true)

  unfoldable pub clear_error : TlvDecoder B → TlvDecoder B
  unfolding has_error
  clear_error decoder = if has_error decoder then record decoder { error = none } else decoder

  unfoldable pub get_error : TlvDecoder B → Option CodecError
  get_error decoder = decoder.error
