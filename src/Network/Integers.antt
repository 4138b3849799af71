-- ===== src/Network/Integers.antt =====
-- The puts of integers: `PutUint16`, `PutUint32` and `PutUint64` write them big endian.
use libccnx_common.Prelude.{
  ℕ, zero, suc, ◌+◌, ◌-◌, ◌*◌, ◌/◌, ◌%◌, ◌^◌, ◌≤◌, ◌<◌, ◌≡◌, refl, sym, ap, subst, ◌∙◌, inl, inr,
  ◌⊎◌, List, [], ◌∷◌, ◌++◌, arith, length, ok, ◌>>=◌, true, ltb, ◌==◌, lt→ltb, Bool-cases, ==_iff,
  ==_true, false, get_elem?, some, fault, ltb→lt,
}
use libccnx_common.Prelude.Segments.{write_at-nil}
use libccnx_common.Network.{Block, NetworkBuffer, allocate_if_needed, sub_size, ensure_remaining}
use libccnx_common.Network.Put.{
  write_current, put_uint8, put_uint16, put_high_bytes, put_uint32, put_uint64,
}
use libccnx_common.Network.Inv.{Grants, IsValid, contents, bounds, at_tail}
use libccnx_common.Network.Grow.{IsReady, expand_and_enter_lem, expand_step, allocate_if_needed_lem}
use libccnx_common.Network.Writes.{Writes, ready_then, write_then, remaining_lem, put_uint8_lem}

-- At the end of the bytes, or with `n` bytes before the end.
abbrev pub Fits : {U : Type 0} → NetworkBuffer U → ℕ → Type 0
Fits nb n = nb.position ≡ length (contents nb) ⊎ nb.position + n ≤ length (contents nb)

-- The lowest `n` bytes of a number, the highest first.
abbrev pub big_endian : ℕ → ℕ → List ℕ
big_endian zero value = []
big_endian (suc n) value = value / 2 ^ (8 * n) % 256 ∷ big_endian n value

-- The `i` bytes above the lowest one, the highest first.
abbrev high_bytes : ℕ → ℕ → List ℕ
high_bytes zero value = []
high_bytes (suc i) value = value / 2 ^ (suc i * 8) % 256 ∷ high_bytes i value

lowest : (i value : ℕ) → high_bytes i value ++ (value % 256 ∷ []) ≡ big_endian (suc i) value
lowest zero value = ap (λ x. x % 256 ∷ []) (omega arith)
lowest (suc i) value =
    ap (λ l. value / 2 ^ (suc i * 8) % 256 ∷ l) (lowest i value)
    ∙ ap (λ k. value / 2 ^ k % 256 ∷ big_endian (suc i) value) (omega arith)

module _ {U : Type 0} (allocator : U → ℕ → List ℕ × U) (g : Grants allocator) where
  ensure_remaining_lem :
      (nb : NetworkBuffer U) (n : ℕ)
      → IsValid nb
      → 0 < n
      → n < 32
      → Fits nb n
      → (nb' : NetworkBuffer U) × (ensure_remaining allocator nb n ≡ ok nb') × IsReady nb nb'
  unfolding ensure_remaining
  ensure_remaining_lem nb n v z m f =
      elim (Bool-cases (ltb (sub_size (v.block.begin + v.block.capacity) nb.position) n)) [
        | inr t ↦ (nb, rw (v.here, t) refl, (v, ground (arith, left, v.high, bounds v), refl, refl))
        | inl t ↦ elim (Bool-cases (nb.current + 1 == length nb.chain)) [
          | inl l ↦
              let last = (==_iff _ _).0 l in
              let (nb', q, r) =
                expand_and_enter_lem allocator g nb v (omega (arith, facts t last))
                  (omega (arith, facts t last)) last in
              (nb', rw (v.here, t, lt→ltb n 32 m, l) q, r)
          | inr l ↦
              let (nb', q, r) = allocate_if_needed_lem allocator g nb v in
              (nb', rw (v.here, t, lt→ltb n 32 m, l) (rw v.here at q), r)
        ]
      ]
    where
      left :
          sub_size (v.block.begin + v.block.capacity) nb.position
          ≡ v.block.begin + v.block.capacity - nb.position
      left = remaining_lem nb v

      facts :
          ltb (sub_size (v.block.begin + v.block.capacity) nb.position) n ≡ true
          → nb.current + 1 ≡ length nb.chain
          → (0 < v.block.limit) × (nb.position ≡ v.block.begin + v.block.limit)
      facts t last = (
        omega (arith, ltb→lt _ _ t, left, f, v.high, v.low, bounds v, at_tail v last),
        omega (arith, ltb→lt _ _ t, left, f, v.high, v.low, bounds v, at_tail v last),
      )

  -- On a valid buffer whose position is at the end of the bytes, or at least 2 bytes before it,
  -- with an allocator that grants what is asked for, PutUint16 returns a valid buffer with the 2
  -- bytes of the value, the highest first, written at the position.
  pub put_uint16_lem :
      (nb : NetworkBuffer U) (value : ℕ)
      → IsValid nb
      → Fits nb 2
      → Writes nb (value / 256 % 256 ∷ value % 256 ∷ []) (put_uint16 allocator nb value)
  unfolding put_uint16
  put_uint16_lem nb value v f =
      let (nb', e, r) = ensure_remaining_lem nb 2 v (omega arith) (omega arith) f in
      let (nb'', e', w) = put_uint8_lem allocator g nb' (value / 256 % 256) (r.0) in
      rw (e, e')
        (ready_then nb nb' _ _ r (
          write_then nb' nb'' _ _ _ (r.0) w (put_uint8_lem allocator g nb'' (value % 256) w.valid)))

  put_high_bytes_lem :
      (i : ℕ) (nb : NetworkBuffer U) (value : ℕ)
      → IsValid nb
      → Writes nb (high_bytes i value) (put_high_bytes allocator i nb value)
  unfolding put_high_bytes
  put_high_bytes_lem zero nb value v = (
    nb,
    refl,
    record {
      valid = v;
      stored = sym (write_at-nil (contents nb) nb.position);
      moved = omega arith;
    },
  )
  put_high_bytes_lem (suc i) nb value v =
      let (nb', e, w) = put_uint8_lem allocator g nb (value / 2 ^ (suc i * 8) % 256) v in
      rw e (write_then nb nb' _ (high_bytes i value) _ v w (put_high_bytes_lem i nb' value w.valid))

  -- The bytes above the lowest, and the lowest.
  put_bytes_lem :
      (i : ℕ) (nb : NetworkBuffer U) (value : ℕ)
      → IsValid nb
      → suc i < 32
      → Fits nb (suc i)
      → Writes nb (high_bytes i value ++ (value % 256 ∷ [])) (do
        nb' ← ensure_remaining allocator nb (suc i)
        nb'' ← put_high_bytes allocator i nb' value
        put_uint8 allocator nb'' (value % 256))
  put_bytes_lem i nb value v m f =
      let (nb', e, r) = ensure_remaining_lem nb (suc i) v (omega arith) m f in
      let (nb'', e', w) = put_high_bytes_lem i nb' value (r.0) in
      rw (e, e')
        (ready_then nb nb' _ _ r (
          write_then nb' nb'' _ _ _ (r.0) w (put_uint8_lem allocator g nb'' (value % 256) w.valid)))

  -- On a valid buffer whose position is at the end of the bytes, or at least 4 bytes before it,
  -- with an allocator that grants what is asked for, PutUint32 returns a valid buffer with the
  -- lowest 4 bytes of the value, big endian, written at the position.
  pub put_uint32_lem :
      (nb : NetworkBuffer U) (value : ℕ)
      → IsValid nb
      → Fits nb 4
      → Writes nb (big_endian 4 value) (put_uint32 allocator nb value)
  unfolding put_uint32
  put_uint32_lem nb value v f =
      subst (λ ys. Writes nb ys (put_uint32 allocator nb value)) (lowest 3 value)
        (put_bytes_lem 3 nb value v (omega arith) f)

  -- On a valid buffer whose position is at the end of the bytes, or at least 8 bytes before it,
  -- with an allocator that grants what is asked for, PutUint64 returns a valid buffer with the
  -- lowest 8 bytes of the value, big endian, written at the position.
  pub put_uint64_lem :
      (nb : NetworkBuffer U) (value : ℕ)
      → IsValid nb
      → Fits nb 8
      → Writes nb (big_endian 8 value) (put_uint64 allocator nb value)
  unfolding put_uint64
  put_uint64_lem nb value v f =
      subst (λ ys. Writes nb ys (put_uint64 allocator nb value)) (lowest 7 value)
        (put_bytes_lem 7 nb value v (omega arith) f)

  before_block :
      (nb : NetworkBuffer U) (b : Block) (value : ℕ)
      → get_elem? nb.chain nb.current ≡ some b
      → nb.position < b.begin
      → put_uint8 allocator nb value ≡ fault
  unfolding put_uint8 allocate_if_needed write_current
  before_block nb b value e h =
      rw
        (e, apart nb.position (b.begin + b.capacity) (omega arith), e, lt→ltb nb.position b.begin h)
        refl
    where
      apart : (p q : ℕ) → p < q → (p == q) ≡ false
      apart p q h = ground arith

  -- On a valid buffer whose position is one byte before the end of its last block, which is full,
  -- with an allocator that grants what is asked for, PutUint16 enters a new block that begins
  -- behind the position, and its write leaves the memory.
  pub put_uint16-fault :
      (nb : NetworkBuffer U) (value : ℕ) (v : IsValid nb)
      → nb.current + 1 ≡ length nb.chain
      → nb.position + 1 ≡ v.block.begin + v.block.capacity
      → v.block.limit ≡ v.block.capacity
      → put_uint16 allocator nb value ≡ fault
  unfolding put_uint16 ensure_remaining put_uint8
  put_uint16-fault nb value v t p l =
      let (nb', e, x) = expand_step allocator g nb v (omega (arith, at_tail v t)) t in
      let left = remaining_lem nb v in
      rw
        (
          v.here,
          lt→ltb (sub_size (v.block.begin + v.block.capacity) nb.position) 2 (omega (arith, left)),
          ==_true (nb.current + 1) (length nb.chain) t,
          e,
          before_block nb' x.block (value / 256 % 256) x.here (omega (arith, x.at, x.begin)),
        )
        refl
