-- ===== src/Network/Put.antt =====
-- The writes of `ccnxCodec_NetworkBuffer.c`.
use libccnx_common.Prelude.{
  ℕ, zero, suc, ◌+◌, ◌-◌, ◌*◌, ◌/◌, ◌%◌, ◌^◌, List, [], ◌∷◌, ◌++◌, length, get_elem?, set, take,
  drop, ltb, leb, ◌==◌, if◌then◌else◌, Result, ok, fault, stuck, or_fault, ◌>>=◌,
}
use libccnx_common.Network.{
  Block, NetworkBuffer, remaining_current_block, allocate_if_needed, ensure_remaining,
}

-- The memory with `bytes` written from index `i` on.
abbrev pub overwrite : List ℕ → ℕ → List ℕ → List ℕ
overwrite memory i bytes = take i memory ++ (bytes ++ drop (i + length bytes) memory)

-- The block with `bytes` written, and its limit raised to the end of the write.
abbrev pub block_write : Block → ℕ → List ℕ → Block
block_write b i bytes = record b {
  memory = overwrite b.memory i bytes;
  limit = if ltb b.limit (i + length bytes) then i + length bytes else b.limit;
}

module _ {U : Type 0} where
  -- The write to the current block that `PutUint8` and `PutArray` end in: `relativePosition` is
  -- `position - begin`, and a write past the allocated memory, or before it, is a fault.
  unfoldable pub write_current : NetworkBuffer U → List ℕ → Result (NetworkBuffer U)
  write_current nb bytes = do
    b ← or_fault (get_elem? nb.chain nb.current)
    if ltb nb.position b.begin
        then fault
        else (if leb (nb.position - b.begin + length bytes) (length b.memory)
            then ok (record nb {
              chain = set nb.chain nb.current (block_write b (nb.position - b.begin) bytes);
              position = nb.position + length bytes;
            })
            else fault)

module _ {U : Type 0} (allocator : U → ℕ → List ℕ × U) where
  -- The argument is a uint8_t.
  unfoldable pub put_uint8 : NetworkBuffer U → ℕ → Result (NetworkBuffer U)
  unfolding allocate_if_needed write_current
  put_uint8 nb value = do nb' ← allocate_if_needed allocator nb; write_current nb' (value ∷ [])

  unfoldable pub put_uint16 : NetworkBuffer U → ℕ → Result (NetworkBuffer U)
  unfolding ensure_remaining put_uint8
  put_uint16 nb value = do
    nb' ← ensure_remaining allocator nb 2
    nb'' ← put_uint8 nb' (value / 256 % 256)
    put_uint8 nb'' (value % 256)

  -- `for (i = n; i > 0; i--)`: the bytes above the lowest, the highest first.
  unfoldable pub put_high_bytes : ℕ → NetworkBuffer U → ℕ → Result (NetworkBuffer U)
  unfolding put_uint8
  put_high_bytes zero nb value = ok nb
  put_high_bytes (suc i) nb value = do
    nb' ← put_uint8 nb (value / 2 ^ (suc i * 8) % 256)
    put_high_bytes i nb' value

  unfoldable pub put_uint32 : NetworkBuffer U → ℕ → Result (NetworkBuffer U)
  unfolding ensure_remaining put_high_bytes put_uint8
  put_uint32 nb value = do
    nb' ← ensure_remaining allocator nb 4
    nb'' ← put_high_bytes 3 nb' value
    put_uint8 nb'' (value % 256)

  unfoldable pub put_uint64 : NetworkBuffer U → ℕ → Result (NetworkBuffer U)
  unfolding ensure_remaining put_high_bytes put_uint8
  put_uint64 nb value = do
    nb' ← ensure_remaining allocator nb 8
    nb'' ← put_high_bytes 7 nb' value
    put_uint8 nb'' (value % 256)

  -- `while (offset < length)` of `PutArray`, over the bytes from `offset` on, with fuel.
  unfoldable pub put_array_loop : ℕ → NetworkBuffer U → List ℕ → Result (NetworkBuffer U)
  unfolding remaining_current_block allocate_if_needed write_current
  put_array_loop fuel nb [] = ok nb
  put_array_loop zero nb (x ∷ rest) = stuck
  put_array_loop (suc fuel) nb (x ∷ rest) = do
    available ← remaining_current_block nb
    if available == 0
        then (do nb' ← allocate_if_needed allocator nb; put_array_loop fuel nb' (x ∷ rest))
        else (do
          let n = if ltb (length (x ∷ rest)) available then length (x ∷ rest) else available
          nb' ← write_current nb (take n (x ∷ rest))
          put_array_loop fuel nb' (drop n (x ∷ rest)))

  -- Each round writes a byte at least or enters a block with room, so two rounds for each byte suffice.
  unfoldable pub put_array : NetworkBuffer U → List ℕ → Result (NetworkBuffer U)
  unfolding allocate_if_needed put_array_loop
  put_array nb bytes = do
    nb' ← allocate_if_needed allocator nb
    put_array_loop (2 * length bytes) nb' bytes

  -- The PARCBuffer is the list of its remaining bytes, which `parcBuffer_Overlay(value, 0)` points to.
  unfoldable pub put_buffer : NetworkBuffer U → List ℕ → Result (NetworkBuffer U)
  unfolding put_array
  put_buffer nb remaining = if ltb 0 (length remaining) then put_array nb remaining else ok nb
