-- ===== src/Utilities.antt =====
-- ccnx/common/codec/ccnxCodec_TlvUtilities.c: an encoder nested in a container.
pub mod Custom
pub mod Cut
pub mod Decode
pub mod Fields
pub mod Loop
pub mod Nested
mod Tests
pub mod VarInt
use libccnx_common.Prelude.{ℕ, zero, suc, List, Result, ok, ◌>>=◌, ℤ, pos, negsuc}
use libccnx_common.Network.{sub_size}
use libccnx_common.Encoder.{
  TlvEncoder, position, append_container, set_container_length, set_position,
}

module _ {U Error Signature : Type 0} (allocator : U → ℕ → List ℕ × U) where
  -- What follows the nested encoder: the length is fixed up, or the container is rewound.
  unfoldable pub close_container :
      TlvEncoder U Error Signature → ℕ → ℤ → Result (TlvEncoder U Error Signature × ℤ)
  close_container encoder start (pos (suc n)) = do
    encoder' ← set_container_length allocator encoder start (suc n)
    ok (encoder', pos (sub_size (position encoder') start))
  close_container encoder start nested_length = do
    (encoder', _) ← set_position encoder start
    ok (encoder', nested_length)

  -- The nested encoder, with the packet dictionary that it is called with, is an argument.
  unfoldable pub nested_encode :
      TlvEncoder U Error Signature
      → ℕ
      → (TlvEncoder U Error Signature → Result (TlvEncoder U Error Signature × ℤ))
      → Result (TlvEncoder U Error Signature × ℤ)
  unfolding close_container
  nested_encode outer nested_type nested_encoder_function = do
    (encoder, _) ← append_container allocator outer nested_type 0
    (encoder', nested_length) ← nested_encoder_function encoder
    close_container encoder' (position outer) nested_length
