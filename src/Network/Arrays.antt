-- ===== src/Network/Arrays.antt =====
-- The puts of byte arrays and buffers: `PutArray` and `PutBuffer`.
use libccnx_common.Prelude.{
  ℕ, zero, suc, ◌+◌, ◌*◌, ◌≤◌, ◌≢◌, refl, sym, subst, inl, inr, ◌⊎◌, List, [], ◌∷◌, arith, length,
  length-take, length-drop, take, drop, take-drop, ltb, ◌==◌, lt→ltb, if◌then◌else◌, Bool-cases,
  ==_iff, ==_false,
}
use libccnx_common.Prelude.Segments.{write_at-nil}
use libccnx_common.Network.{NetworkBuffer, sub_size}
use libccnx_common.Network.Put.{put_array_loop, put_array, put_buffer}
use libccnx_common.Network.Inv.{Grants, IsValid, contents, bounds}
use libccnx_common.Network.Grow.{HasRoom, allocate_if_needed_lem}
use libccnx_common.Network.Writes.{Writes, write_current_lem, ready_then, write_then, remaining_lem}

-- How much of the rest one round of the loop writes.
chunk :
    (total available : ℕ)
    → 1 ≤ total
    → available ≢ 0
    → ((if ltb total available then total else available) ≤ available)
      × ((if ltb total available then total else available) ≤ total)
      × (1 ≤ (if ltb total available then total else available))
chunk total available h k = ground arith

module _ {U : Type 0} (allocator : U → ℕ → List ℕ × U) (g : Grants allocator) where
  -- Enough fuel: a round that finds no room is followed by one that writes.
  EnoughFuel : {nb : NetworkBuffer U} → IsValid nb → ℕ → ℕ → Type 0
  EnoughFuel v n fuel = 2 * n ≤ fuel ⊎ HasRoom v × (2 * n ≤ fuel + 1)

  put_array_loop_lem :
      (fuel : ℕ) (nb : NetworkBuffer U) (ys : List ℕ) (v : IsValid nb)
      → EnoughFuel v (length ys) fuel
      → Writes nb ys (put_array_loop allocator fuel nb ys)
  unfolding put_array_loop EnoughFuel
  put_array_loop_lem fuel nb [] v h = (
    nb,
    refl,
    record {
      valid = v;
      stored = sym (write_at-nil (contents nb) nb.position);
      moved = omega arith;
    },
  )
  put_array_loop_lem zero nb (y ∷ ys) v h = absurd (omega (arith, h))
  put_array_loop_lem (suc fuel) nb (y ∷ ys) v h =
      let available = sub_size (v.block.begin + v.block.capacity) nb.position in
      let left = remaining_lem nb v in
      elim (Bool-cases (sub_size (v.block.begin + v.block.capacity) nb.position == 0)) [
        | inl e ↦
            let (nb', q, r) = allocate_if_needed_lem allocator g nb v in
            let q' = rw v.here at q in
            rw (v.here, e, q')
              (ready_then nb nb' _ _ r (
                put_array_loop_lem fuel nb' (y ∷ ys) (r.0)
                  (inr (r.1, omega (arith, h, (==_iff _ _).0 e, left)))))
        | inr e ↦
            let n = if ltb (length (y ∷ ys)) available then length (y ∷ ys) else available in
            let len = length-take n (y ∷ ys) in
            let (nb', q, w) = write_current_lem nb v (take n (y ∷ ys)) (
              omega (
                arith,
                len,
                left,
                v.high,
                bounds v,
                chunk (length (y ∷ ys)) available (omega arith) (==_false available 0 e),
              )) in
            let q' = rw v.here at q in
            rw (v.here, e, q')
              (subst (λ zs. Writes nb zs (put_array_loop allocator fuel nb' (drop n (y ∷ ys))))
                (take-drop n (y ∷ ys))
                (write_then nb nb' _ _ _ v w (
                  put_array_loop_lem fuel nb' (drop n (y ∷ ys)) w.valid (
                    inl (
                      omega (
                        arith,
                        h,
                        ==_false available 0 e,
                        length-drop n (y ∷ ys),
                        chunk (length (y ∷ ys)) available (omega arith) (==_false available 0 e),
                      ))))))
      ]

  -- On every valid buffer, with an allocator that grants what is asked for, PutArray returns,
  -- within two rounds of its loop for each byte: the buffer is valid, with the whole array written
  -- at the position, and the position is behind it.
  pub put_array_lem :
      (nb : NetworkBuffer U) (bytes : List ℕ)
      → IsValid nb
      → Writes nb bytes (put_array allocator nb bytes)
  unfolding put_array EnoughFuel
  put_array_lem nb bytes v =
      let (nb', e, r) = allocate_if_needed_lem allocator g nb v in
      rw e (
        ready_then nb nb' bytes _ r
          (put_array_loop_lem (2 * length bytes) nb' bytes (r.0) (enough nb' (r.0) bytes)))
    where
      enough :
          (nb' : NetworkBuffer U) (v' : IsValid nb') (bytes : List ℕ)
          → EnoughFuel v' (length bytes) (2 * length bytes)
      enough nb' v' bytes = inl (omega arith)

  -- On every valid buffer, with an allocator that grants what is asked for, PutBuffer returns, also
  -- if the PARCBuffer has no bytes left: the buffer is valid, with all the remaining bytes written
  -- at the position, and the position is behind them.
  pub put_buffer_lem :
      (nb : NetworkBuffer U) (remaining : List ℕ)
      → IsValid nb
      → Writes nb remaining (put_buffer allocator nb remaining)
  unfolding put_buffer
  put_buffer_lem nb [] v = (
    nb,
    refl,
    record {
      valid = v;
      stored = sym (write_at-nil (contents nb) nb.position);
      moved = omega arith;
    },
  )
  put_buffer_lem nb (x ∷ remaining) v =
      rw (lt→ltb 0 (length (x ∷ remaining)) (omega arith)) (put_array_lem nb (x ∷ remaining) v)
