-- ===== src/Network/Writes.antt =====
-- What the puts of a network buffer do to its bytes.
use libccnx_common.Prelude.{
  ℕ, ◌+◌, ◌-◌, ◌^◌, ◌≤◌, ◌<◌, ◌≡◌, refl, ap, ◌∙◌, List, [], ◌∷◌, ◌++◌, arith, length, length-append,
  length-set, get_elem?-set_self, get_elem?-lt_length, set, Result, ok, le→ltb, le→leb,
}
use libccnx_common.Prelude.Segments.{write_at, write_at-write_at}
use libccnx_common.Network.{NetworkBuffer, sub_size}
use libccnx_common.Network.Put.{block_write, write_current, put_uint8}
use libccnx_common.Network.Chain.{block_write-limit, chain_write}
use libccnx_common.Network.Inv.{Grants, IsValid, contents, bounds}
use libccnx_common.Network.Grow.{IsReady, allocate_if_needed_lem}

-- The bytes are written over the contents from the position on, and the position moves past them.
pub record IsWritten {U : Type 0} (nb : NetworkBuffer U) (ys : List ℕ) (nb' : NetworkBuffer U)
    : Type 0 where
  pub valid : IsValid nb'
  pub stored : contents nb' ≡ write_at (contents nb) nb.position ys
  pub moved : nb'.position ≡ nb.position + length ys

-- The call returns, with the bytes written.
abbrev pub Writes : {U : Type 0} → NetworkBuffer U → List ℕ → Result (NetworkBuffer U) → Type 0
Writes {U} nb ys r = (nb' : NetworkBuffer U) × (r ≡ ok nb') × IsWritten nb ys nb'

module _ {U : Type 0} where
  pub write_current_lem :
      (nb : NetworkBuffer U) (v : IsValid nb) (ys : List ℕ)
      → nb.position + length ys ≤ v.block.begin + v.block.capacity
      → Writes nb ys (write_current nb ys)
  unfolding write_current
  write_current_lem nb v ys h =
      let k = nb.position - v.block.begin in
      let (c, w) =
        chain_write nb.chain 0 nb.current nb.position k v.block ys v.chain v.here
          (omega (arith, v.low)) (omega (arith, v.high)) (omega (arith, v.low)) in
      (
        record nb {
          chain = set nb.chain nb.current (block_write v.block k ys);
          position = nb.position + length ys;
        },
        rw
            (
              v.here,
              le→ltb nb.position v.block.begin v.low,
              le→leb (k + length ys) (length v.block.memory) (omega (arith, bounds v, v.low)),
            )
            refl,
        record {
          valid = record {
            chain = c;
            tail = omega (arith, v.tail, length-set nb.chain nb.current (block_write v.block k ys));
            block = block_write v.block k ys;
            here =
                get_elem?-set_self nb.chain nb.current _
                  (get_elem?-lt_length nb.chain nb.current v.block v.here);
            low = omega (arith, v.low);
            high = omega (arith, v.low, block_write-limit v.block k ys);
          };
          stored = w;
          moved = refl;
        },
      )

  -- A write after a step that only makes room.
  pub ready_then :
      (nb nb' : NetworkBuffer U) (ys : List ℕ) (r : Result (NetworkBuffer U))
      → IsReady nb nb'
      → Writes nb' ys r
      → Writes nb ys r
  ready_then nb nb' ys r (v, room, s, p) (n, e, w) = (
    n,
    e,
    record {
      valid = w.valid;
      stored = w.stored ∙ rw (s, p) refl;
      moved = w.moved ∙ ap (λ i. i + length ys) p;
    },
  )

  -- Two writes, one after the other.
  pub write_then :
      (nb nb' : NetworkBuffer U) (xs ys : List ℕ) (r : Result (NetworkBuffer U))
      → IsValid nb
      → IsWritten nb xs nb'
      → Writes nb' ys r
      → Writes nb (xs ++ ys) r
  write_then nb nb' xs ys r v a (n, e, w) = (
    n,
    e,
    record {
      valid = w.valid;
      stored =
          w.stored
          ∙ rw a.stored (
              write_at-write_at (contents nb) nb.position nb'.position xs ys
                (omega (arith, v.high, bounds v)) a.moved);
      moved = omega (arith, w.moved, a.moved, length-append xs ys);
    },
  )

pub sub_size_lem : (a b : ℕ) → b ≤ a → a < b + 2 ^ 64 → sub_size a b ≡ a - b
sub_size_lem a b h k = omega arith

pub remaining_lem :
    {U : Type 0} (nb : NetworkBuffer U) (v : IsValid nb)
    → sub_size (v.block.begin + v.block.capacity) nb.position
      ≡ v.block.begin + v.block.capacity - nb.position
remaining_lem nb v =
    sub_size_lem (v.block.begin + v.block.capacity) nb.position (omega (arith, v.high, bounds v))
      (omega (arith, v.low, bounds v))

module _ {U : Type 0} (allocator : U → ℕ → List ℕ × U) (g : Grants allocator) where
  -- On every valid buffer with an allocator that grants what is asked for, PutUint8 returns: the buffer
  -- is valid again, its bytes are the old ones with the byte written over them at the position (or behind
  -- them, at the end), whatever blocks that takes, and the position is one further.
  pub put_uint8_lem :
      (nb : NetworkBuffer U) (value : ℕ)
      → IsValid nb
      → Writes nb (value ∷ []) (put_uint8 allocator nb value)
  unfolding put_uint8
  put_uint8_lem nb value v =
      let (nb', e, (v', room, s, p)) = allocate_if_needed_lem allocator g nb v in
      rw e (
        ready_then nb nb' (value ∷ []) _ (v', room, s, p)
          (write_current_lem nb' v' (value ∷ []) (omega (arith, room))))
