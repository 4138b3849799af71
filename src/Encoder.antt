-- ===== src/Encoder.antt =====
-- ccnx/common/codec/ccnxCodec_TlvEncoder.c: TLVs with 2 bytes of type and 2 bytes of length, written to a
-- network buffer.
--
-- An operation returns the encoder, and the number of bytes where the code returns one. A PARCBuffer is
-- the list of its remaining bytes. The error object and the signature are the caller's types.
pub mod Appends
pub mod Containers
pub mod Fixture
mod Tests
pub mod VarInt
use libccnx_common.Prelude.{
  ℕ, zero, suc, ◌+◌, ◌*◌, ◌/◌, ◌%◌, ◌^◌, Bool, true, false, not, ◌||◌, List, Option, none, some,
  length, leb, ◌==◌, if◌then◌else◌, Result, ok, trap, assert, ◌>>=◌, ◌>>◌,
}
use libccnx_common.Network.{NetworkBuffer, limit}
use libccnx_common.Network
use libccnx_common.Network.Put
use libccnx_common.Network.Position
use libccnx_common.Network.Sign
use libccnx_common.Network.Read
use libccnx_common.Network.Read.{NetworkIoVec, create_parc_buffer}

-- Which ends of the signed region are marked: the OR of START_SET and END_SET.
pub data Marks : Type 0 where
  none_set : Marks
  start_set : Marks
  end_set : Marks
  both_set : Marks

unfoldable pub or_start : Marks → Marks
or_start none_set = start_set
or_start start_set = start_set
or_start end_set = both_set
or_start both_set = both_set

unfoldable pub or_end : Marks → Marks
or_end none_set = end_set
or_end start_set = both_set
or_end end_set = end_set
or_end both_set = both_set

unfoldable pub is_both : Marks → Bool
is_both both_set = true
is_both _ = false

pub record TlvEncoder (U Error Signature : Type 0) : Type 0 where
  pub buffer : NetworkBuffer U
  pub signature_start_end_set : Marks
  pub signature_start : ℕ
  pub signature_end : ℕ
  pub error : Option Error
  pub signer : Option (List ℕ → Signature)

-- The branches of `_ccnxCodecTlvEncoder_ComputeVarIntLength`, its bounds 0xFF, 0xFFFF and so on.
unfoldable pub compute_var_int_length : ℕ → ℕ
compute_var_int_length value =
    if leb value 255
    then 1
    else (if leb value 65535
        then 2
        else (if leb value 16777215
            then 3
            else (if leb value 4294967295
                then 4
                else (if leb value 1099511627775
                    then 5
                    else (if leb value 281474976710655
                        then 6
                        else (if leb value 72057594037927935 then 7 else 8))))))

module _ {U : Type 0} (allocator : U → ℕ → List ℕ × U) where
  -- `for (int byte = 7; byte >= 0; byte--)`, with `byte + 1` rounds left.
  unfoldable pub put_var_int : ℕ → Bool → NetworkBuffer U → ℕ → Result (NetworkBuffer U)
  put_var_int zero must_continue nb value = ok nb
  put_var_int (suc byte) must_continue nb value =
      let b = value / 2 ^ (byte * 8) % 256 in
      if not (b == 0) || ((byte == 0) || must_continue)
      then (do nb' ← Put.put_uint8 allocator nb b; put_var_int byte true nb' value)
      else put_var_int byte must_continue nb value

module _ {U Error Signature : Type 0} (allocator : U → ℕ → List ℕ × U) where
  -- The userarg of the standard memory functions is NULL, `u` here.
  unfoldable pub create : U → Result (TlvEncoder U Error Signature)
  unfolding Network.create
  create u = do
    nb ← Network.create allocator u
    ok (record {
      buffer = nb;
      signature_start_end_set = none_set;
      signature_start = 0;
      signature_end = 0;
      error = none;
      signer = none;
    })

  -- `PutUint16(type); PutUint16(length)`
  unfoldable pub append_container :
      TlvEncoder U Error Signature → ℕ → ℕ → Result (TlvEncoder U Error Signature × ℕ)
  append_container encoder type length = do
    nb ← Put.put_uint16 allocator encoder.buffer type
    nb' ← Put.put_uint16 allocator nb length
    ok (record encoder { buffer = nb' }, 4)

  unfoldable pub append_buffer :
      TlvEncoder U Error Signature → ℕ → List ℕ → Result (TlvEncoder U Error Signature × ℕ)
  append_buffer encoder type remaining = do
    assert (leb (length remaining) 65535)
    nb ← Put.put_uint16 allocator encoder.buffer type
    nb' ← Put.put_uint16 allocator nb (length remaining)
    nb'' ← Put.put_buffer allocator nb' remaining
    ok (record encoder { buffer = nb'' }, 4 + length remaining)

  -- The array's length is a uint16_t.
  unfoldable pub append_array :
      TlvEncoder U Error Signature → ℕ → List ℕ → Result (TlvEncoder U Error Signature × ℕ)
  append_array encoder type array = do
    nb ← Put.put_uint16 allocator encoder.buffer type
    nb' ← Put.put_uint16 allocator nb (length array)
    nb'' ← Put.put_array allocator nb' array
    ok (record encoder { buffer = nb'' }, length array + 4)

  unfoldable pub append_uint8 :
      TlvEncoder U Error Signature → ℕ → ℕ → Result (TlvEncoder U Error Signature × ℕ)
  append_uint8 encoder type value = do
    nb ← Put.put_uint16 allocator encoder.buffer type
    nb' ← Put.put_uint16 allocator nb 1
    nb'' ← Put.put_uint8 allocator nb' value
    ok (record encoder { buffer = nb'' }, 5)

  unfoldable pub append_uint16 :
      TlvEncoder U Error Signature → ℕ → ℕ → Result (TlvEncoder U Error Signature × ℕ)
  append_uint16 encoder type value = do
    nb ← Put.put_uint16 allocator encoder.buffer type
    nb' ← Put.put_uint16 allocator nb 2
    nb'' ← Put.put_uint16 allocator nb' value
    ok (record encoder { buffer = nb'' }, 6)

  unfoldable pub append_uint32 :
      TlvEncoder U Error Signature → ℕ → ℕ → Result (TlvEncoder U Error Signature × ℕ)
  append_uint32 encoder type value = do
    nb ← Put.put_uint16 allocator encoder.buffer type
    nb' ← Put.put_uint16 allocator nb 4
    nb'' ← Put.put_uint32 allocator nb' value
    ok (record encoder { buffer = nb'' }, 8)

  unfoldable pub append_uint64 :
      TlvEncoder U Error Signature → ℕ → ℕ → Result (TlvEncoder U Error Signature × ℕ)
  append_uint64 encoder type value = do
    nb ← Put.put_uint16 allocator encoder.buffer type
    nb' ← Put.put_uint16 allocator nb 8
    nb'' ← Put.put_uint64 allocator nb' value
    ok (record encoder { buffer = nb'' }, 12)

  unfoldable pub append_var_int :
      TlvEncoder U Error Signature → ℕ → ℕ → Result (TlvEncoder U Error Signature × ℕ)
  unfolding compute_var_int_length put_var_int
  append_var_int encoder type value = do
    nb ← Put.put_uint16 allocator encoder.buffer type
    nb' ← Put.put_uint16 allocator nb (compute_var_int_length value)
    nb'' ← put_var_int allocator 8 false nb' value
    ok (record encoder { buffer = nb'' }, compute_var_int_length value + 4)

  unfoldable pub append_raw_array :
      TlvEncoder U Error Signature → List ℕ → Result (TlvEncoder U Error Signature × ℕ)
  append_raw_array encoder array = do
    nb ← Put.put_array allocator encoder.buffer array
    ok (record encoder { buffer = nb }, length array)

  -- +2 because it skips over the Type field.
  unfoldable pub set_container_length :
      TlvEncoder U Error Signature → ℕ → ℕ → Result (TlvEncoder U Error Signature)
  set_container_length encoder offset length = do
    nb ← Position.set_position encoder.buffer (offset + 2)
    nb' ← Put.put_uint16 allocator nb length
    nb'' ← Position.set_position nb' (Network.position encoder.buffer)
    ok (record encoder { buffer = nb'' })

  unfoldable pub put_uint8 :
      TlvEncoder U Error Signature → ℕ → ℕ → Result (TlvEncoder U Error Signature × ℕ)
  put_uint8 encoder offset value = do
    nb ← Position.set_position encoder.buffer offset
    nb' ← Put.put_uint8 allocator nb value
    nb'' ← Position.set_position nb' (Network.position encoder.buffer)
    ok (record encoder { buffer = nb'' }, 1)

  unfoldable pub put_uint16 :
      TlvEncoder U Error Signature → ℕ → ℕ → Result (TlvEncoder U Error Signature × ℕ)
  put_uint16 encoder offset value = do
    nb ← Position.set_position encoder.buffer offset
    nb' ← Put.put_uint16 allocator nb value
    nb'' ← Position.set_position nb' (Network.position encoder.buffer)
    ok (record encoder { buffer = nb'' }, 2)

module _ {U Error Signature : Type 0} where
  unfoldable pub position : TlvEncoder U Error Signature → ℕ
  position encoder = Network.position encoder.buffer

  unfoldable pub set_position :
      TlvEncoder U Error Signature → ℕ → Result (TlvEncoder U Error Signature × ℕ)
  set_position encoder position = do
    end ← limit encoder.buffer
    assert (leb position end)
    nb ← Position.set_position encoder.buffer position
    ok (record encoder { buffer = nb }, position)

  unfoldable pub finalize : TlvEncoder U Error Signature → Result (TlvEncoder U Error Signature)
  finalize encoder = do nb ← Position.finalize encoder.buffer; ok (record encoder { buffer = nb })

  unfoldable pub create_buffer : TlvEncoder U Error Signature → Result (List ℕ)
  create_buffer encoder = create_parc_buffer encoder.buffer

  unfoldable pub create_io_vec : TlvEncoder U Error Signature → Result (NetworkIoVec U)
  create_io_vec encoder = Read.create_io_vec encoder.buffer

  unfoldable pub mark_signature_start : TlvEncoder U Error Signature → TlvEncoder U Error Signature
  unfolding or_start
  mark_signature_start encoder = record encoder {
    signature_start = Network.position encoder.buffer;
    signature_start_end_set = or_start encoder.signature_start_end_set;
  }

  unfoldable pub mark_signature_end : TlvEncoder U Error Signature → TlvEncoder U Error Signature
  unfolding or_end
  mark_signature_end encoder = record encoder {
    signature_end = Network.position encoder.buffer;
    signature_start_end_set = or_end encoder.signature_start_end_set;
  }

  unfoldable pub compute_signature : TlvEncoder U Error Signature → Result (Option Signature)
  unfolding is_both
  compute_signature encoder = do
    assert (is_both encoder.signature_start_end_set)
    Sign.compute_signature encoder.buffer encoder.signature_start encoder.signature_end
        encoder.signer

  unfoldable pub has_error : TlvEncoder U Error Signature → Bool
  has_error encoder = elim encoder.error [ none ↦ false | some e ↦ true ]

  unfoldable pub set_error :
      TlvEncoder U Error Signature → Error → TlvEncoder U Error Signature × Bool
  unfolding has_error
  set_error encoder error =
      if has_error encoder then (encoder, false) else (record encoder { error = some error }, true)

  unfoldable pub clear_error : TlvEncoder U Error Signature → TlvEncoder U Error Signature
  unfolding has_error
  clear_error encoder = if has_error encoder then record encoder { error = none } else encoder

  unfoldable pub get_error : TlvEncoder U Error Signature → Option Error
  get_error encoder = encoder.error

  unfoldable pub set_signer :
      TlvEncoder U Error Signature → Option (List ℕ → Signature) → TlvEncoder U Error Signature
  set_signer encoder signer = record encoder { signer = signer }

  unfoldable pub get_signer : TlvEncoder U Error Signature → Option (List ℕ → Signature)
  get_signer encoder = encoder.signer
