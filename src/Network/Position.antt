-- ===== src/Network/Position.antt =====
-- `SetPosition` and `Finalize` of `ccnxCodec_NetworkBuffer.c`.
use libccnx_common.Prelude.{
  ℕ, ◌+◌, ◌-◌, List, [], ◌∷◌, ◌++◌, Option, none, some, get_elem?, take, leb, ltb, ◌==◌,
  if◌then◌else◌, Result, ok, trap, or_fault, assert, ◌>>=◌, ◌>>◌,
}
use libccnx_common.Network.{Block, NetworkBuffer, block_at, contains_position, limit}

-- `while (!ContainsPosition(memory, position)) memory = memory->next;` from the block with index `i`.
unfoldable pub find_block : List Block → ℕ → ℕ → Option ℕ
unfolding contains_position
find_block [] position i = none
find_block (b ∷ chain) position i =
    let later = find_block chain position (i + 1) in
    if contains_position b position then some i else later

-- `assertNotNull(memory, ...)`: the walk ran off the chain.
abbrev pub found_or_trap : Option ℕ → Result ℕ
found_or_trap none = trap
found_or_trap (some i) = ok i

module _ {U : Type 0} where
  -- The current block if it holds the position, and otherwise the first block from the head that does.
  unfoldable pub locate : NetworkBuffer U → ℕ → Result ℕ
  unfolding find_block contains_position
  locate nb position = do
    b ← block_at nb nb.current
    if contains_position b position
        then ok nb.current
        else found_or_trap (find_block nb.chain position 0)

  unfoldable pub set_position : NetworkBuffer U → ℕ → Result (NetworkBuffer U)
  unfolding limit locate
  set_position nb position = do
    end ← limit nb
    assert (leb position end)
    if position == end
        then ok (record nb { current = nb.tail; position = position })
        else (do i ← locate nb position; ok (record nb { current = i; position = position }))

  -- The blocks after the current one are dropped, and it ends at the position.
  unfoldable pub finalize : NetworkBuffer U → Result (NetworkBuffer U)
  unfolding limit locate
  finalize nb = do
    end ← limit nb
    if ltb nb.position end
        then (do
          i ← locate nb nb.position
          b ← or_fault (get_elem? nb.chain i)
          ok (record nb {
            chain = take i nb.chain ++ (record b { limit = nb.position - b.begin } ∷ []);
            current = i;
            tail = i;
          }))
        else ok nb
