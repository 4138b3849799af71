-- ===== src/Network/Read.antt =====
-- The readers of `ccnxCodec_NetworkBuffer.c`: the bytes as one buffer, one byte, and the I/O vector.
use libccnx_common.Prelude.{
  ℤ, to_int, rounds_of, ◌%◌, ◌^◌, ℕ, ◌+◌, ◌-◌, Bool, true, false, List, [], ◌∷◌, ◌++◌, Option, none,
  some, length, get_elem?, take, ltb, ◌==◌, if◌then◌else◌, Result, ok, trap, or_fault, assert,
  ◌>>=◌, ◌>>◌,
}
use libccnx_common.Network.{Block, NetworkBuffer, contains_position, limit, block_count, acquire}

-- The blocks' bytes, as far as `length` is not used up.
unfoldable pub gather : List Block → ℕ → List ℕ
gather [] length = []
gather (b ∷ chain) length =
    let available = if ltb b.limit length then b.limit else length in
    take available b.memory ++ gather chain (length - available)

unfoldable pub read_at : List Block → ℕ → Result ℕ
unfolding contains_position
read_at [] position = trap
read_at (b ∷ chain) position =
    let later = read_at chain position in
    if contains_position b position
    then or_fault (get_elem? b.memory (position - b.begin))
    else later

-- An entry of the vector: the bytes at `iov_base` for `iov_len`.
unfoldable pub io_entries : List Block → List (List ℕ × ℕ)
io_entries [] = []
io_entries (b ∷ chain) = (b.memory, b.limit) ∷ io_entries chain

unfoldable pub sum_limits : List Block → ℕ → ℕ
sum_limits [] total = total
sum_limits (b ∷ chain) total = sum_limits chain (total + b.limit)

-- The buffer that the vector keeps is a snapshot: the documentation makes the vector read only.
pub record NetworkIoVec (U : Type 0) : Type 0 where
  pub network_buffer : NetworkBuffer U
  pub refcount : ℕ
  pub total_bytes : ℕ
  pub iovcnt : ℤ
  pub array : List (List ℕ × ℕ)

module _ {U : Type 0} where
  -- What the PARCBuffer that `CreateParcBuffer` fills and flips holds.
  unfoldable pub create_parc_buffer : NetworkBuffer U → Result (List ℕ)
  unfolding limit gather
  create_parc_buffer nb = do length ← limit nb; ok (gather nb.chain length)

  unfoldable pub get_uint8 : NetworkBuffer U → ℕ → Result ℕ
  unfolding limit read_at
  get_uint8 nb position = do end ← limit nb; assert (ltb position end); read_at nb.chain position

  -- `for (int i = 0; i < vec->iovcnt; i++)`, from the head on.
  unfoldable pub create_io_vec : NetworkBuffer U → Result (NetworkIoVec U)
  unfolding acquire block_count io_entries sum_limits
  create_io_vec nb = do
    nb' ← acquire nb
    ok (record {
      network_buffer = nb';
      refcount = 1;
      total_bytes = sum_limits (take (rounds_of (to_int (block_count nb))) nb.chain) 0;
      iovcnt = to_int (block_count nb);
      array = io_entries (take (rounds_of (to_int (block_count nb))) nb.chain);
    })

  unfoldable pub io_vec_get_count : NetworkIoVec U → ℤ
  io_vec_get_count vec = vec.iovcnt

  unfoldable pub io_vec_get_array : NetworkIoVec U → List (List ℕ × ℕ)
  io_vec_get_array vec = vec.array

  unfoldable pub io_vec_length : NetworkIoVec U → ℕ
  io_vec_length vec = vec.total_bytes

  unfoldable pub io_vec_acquire : NetworkIoVec U → Result (NetworkIoVec U)
  io_vec_acquire vec = do
    assert (ltb 0 vec.refcount)
    ok (record vec { refcount = (vec.refcount + 1) % 2 ^ 32 })

  -- `parc_buffer_equals` is `parcBuffer_Equals`. The buffers are made only where the lengths agree.
  unfoldable pub io_vec_equals :
      (List ℕ → List ℕ → Bool) → Option (NetworkIoVec U) → Option (NetworkIoVec U) → Result Bool
  unfolding create_parc_buffer
  io_vec_equals parc_buffer_equals none none = ok true
  io_vec_equals parc_buffer_equals (some a) (some b) =
      if a.total_bytes == b.total_bytes
      then (do
        x ← create_parc_buffer a.network_buffer
        y ← create_parc_buffer b.network_buffer
        ok (parc_buffer_equals x y))
      else ok false
  io_vec_equals parc_buffer_equals _ _ = ok false
