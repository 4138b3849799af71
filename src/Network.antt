-- ===== src/Network.antt =====
-- ccnx/common/codec/ccnxCodec_NetworkBuffer.c: the chain of memory blocks and its growth.
-- The puts, the moves of the position and the readers are in the child modules.
--
-- The chain is the list of the blocks in the order of their `next` links, from `head` on; the pointers
-- `current` and `tail` are indices into it, and a block has a next one unless it is the last. A block's
-- memory is the list of the bytes that were allocated for it. All blocks are live in one 64-bit address
-- space, so sums of their sizes do not wrap; a difference that may fall below zero is written out.
pub mod Arrays
pub mod Chain
pub mod Final
pub mod Grow
pub mod Integers
pub mod Inv
pub mod Moves
pub mod Put
pub mod Position
pub mod Read
pub mod Readers
pub mod Sign
pub mod Signatures
mod Tests
pub mod Writes
use libccnx_common.Prelude.{
  ℕ, ◌+◌, ◌-◌, ◌%◌, ◌^◌, Bool, ◌&&◌, List, [], ◌∷◌, ◌++◌, length, get_elem?, set, take, drop, ltb,
  leb, ◌==◌, if◌then◌else◌, Result, ok, trap, or_fault, assert, ◌>>=◌, ◌>>◌,
}

pub record Block : Type 0 where
  pub begin : ℕ
  pub limit : ℕ
  pub capacity : ℕ
  pub memory : List ℕ

-- `userarg` is the caller's allocation state. The allocation functions are a parameter of what allocates.
pub record NetworkBuffer (U : Type 0) : Type 0 where
  pub position : ℕ
  pub capacity : ℕ
  pub chain : List Block
  pub current : ℕ
  pub tail : ℕ
  pub userarg : U
  pub refcount : ℕ

-- `sizeof(CCNxCodecNetworkBufferMemory)`, five words of 8 bytes.
abbrev pub block_header : ℕ
block_header = 40

-- size_t subtraction.
abbrev pub sub_size : ℕ → ℕ → ℕ
sub_size a b = (a + 2 ^ 64 - b) % 2 ^ 64

unfoldable pub contains_position : Block → ℕ → Bool
contains_position b position = leb b.begin position && ltb position (b.begin + b.limit)

-- `_ccnxCodecNetworkBufferMemory_Wrap`: a block of the caller's memory, full from the start.
unfoldable pub wrap : List ℕ → Block
wrap bytes = record { begin = 0; limit = length bytes; capacity = length bytes; memory = bytes }

module _ {U : Type 0} where
  abbrev pub block_at : NetworkBuffer U → ℕ → Result Block
  block_at nb i = or_fault (get_elem? nb.chain i)

  -- `current->next != NULL`
  abbrev pub has_next : NetworkBuffer U → Bool
  has_next nb = ltb (nb.current + 1) (length nb.chain)

  -- `_ccnxCodecNetworkBuffer_RemainingCurrentBlock`
  unfoldable pub remaining_current_block : NetworkBuffer U → Result ℕ
  remaining_current_block nb = do
    b ← block_at nb nb.current
    ok (sub_size (b.begin + b.capacity) nb.position)

  unfoldable pub block_count : NetworkBuffer U → ℕ
  block_count nb = length nb.chain

  -- `tail->begin + tail->limit`
  unfoldable pub limit : NetworkBuffer U → Result ℕ
  limit nb = do b ← block_at nb nb.tail; ok (b.begin + b.limit)

  unfoldable pub position : NetworkBuffer U → ℕ
  position nb = nb.position

  unfoldable pub acquire : NetworkBuffer U → Result (NetworkBuffer U)
  acquire nb = do
    assert (ltb 0 nb.refcount)
    ok (record nb { refcount = (nb.refcount + 1) % 2 ^ 32 })

-- `allocator u n` is the memory that the caller's allocator hands out when asked for `n` bytes, and its
-- new state; the size that it reports is the length of the memory.
module _ {U : Type 0} (allocator : U → ℕ → List ℕ × U) where
  -- `_ccnxCodecNetworkBufferMemory_Allocate`
  unfoldable pub allocate_block : U → ℕ → Result (Block × U)
  allocate_block u bytes =
      let (raw, u') = allocator u (bytes + block_header) in
      if ltb block_header (length raw)
      then ok (
        record {
          begin = 0;
          limit = 0;
          capacity = length raw - block_header;
          memory = drop block_header raw;
        },
        u',
      )
      else trap

  unfoldable pub create : U → Result (NetworkBuffer U)
  unfolding allocate_block
  create u = do
    (b, u') ← allocate_block u 1536
    ok (record {
      position = 0;
      capacity = b.capacity;
      chain = b ∷ [];
      current = 0;
      tail = 0;
      userarg = u';
      refcount = 1;
    })

  unfoldable pub create_from_array : U → List ℕ → NetworkBuffer U
  unfolding wrap
  create_from_array u bytes = record {
    position = 0;
    capacity = length bytes;
    chain = wrap bytes ∷ [];
    current = 0;
    tail = 0;
    userarg = u;
    refcount = 1;
  }

  -- The tail is frozen at its limit, and a new block follows it.
  unfoldable pub expand : NetworkBuffer U → Result (NetworkBuffer U)
  unfolding allocate_block
  expand nb = do
    (b, u') ← allocate_block nb.userarg 2048
    last ← block_at nb nb.tail
    ok (record nb {
      capacity = nb.capacity + b.capacity;
      chain =
          take nb.tail nb.chain
          ++ (record last { capacity = last.limit }
              ∷ record b { begin = last.begin + last.limit }
              ∷ []);
      tail = nb.tail + 1;
      userarg = u';
    })

  -- `_ccnxCodecNetworkBuffer_Expand(buffer); buffer->current = buffer->tail;`
  abbrev pub expand_and_enter : NetworkBuffer U → Result (NetworkBuffer U)
  expand_and_enter nb = do nb' ← expand nb; ok (record nb' { current = nb'.tail })

  unfoldable pub allocate_if_needed : NetworkBuffer U → Result (NetworkBuffer U)
  allocate_if_needed nb = do
    b ← block_at nb nb.current
    if nb.position == b.begin + b.capacity
        then (if has_next nb
            then ok (record nb { current = nb.current + 1 })
            else expand_and_enter nb)
        else ok nb

  unfoldable pub ensure_remaining : NetworkBuffer U → ℕ → Result (NetworkBuffer U)
  unfolding allocate_if_needed
  ensure_remaining nb n = do
    b ← block_at nb nb.current
    if ltb (sub_size (b.begin + b.capacity) nb.position) n
        then (if ltb n 32 && (nb.current + 1 == length nb.chain)
            then expand_and_enter nb
            else allocate_if_needed nb)
        else ok nb
