-- ===== src/Network/Readers.antt =====
-- What the readers of a network buffer return.
use libccnx_common.Prelude.Segments.{take-all}
use libccnx_common.Prelude.{
  pos, to_int_small, ◌%◌, ◌^◌, ℕ, suc, ◌+◌, ◌-◌, ◌≤◌, ◌<◌, ◌≡◌, ◌↔◌, refl, sym, ap, ◌∙◌, inl, inr,
  List, [], ◌∷◌, ◌++◌, Option, none, some, arith, length, length-append, length-take, take,
  get_elem?, get_elem?-none, get_elem?-some, get_elem?-append_left, get_elem?-append_right,
  get_elem?-take, Result, ok, trap, Bool, true, false, ltb, ◌==◌, ==_false, lt→ltb, if◌then◌else◌,
  Bool-cases,
}
use libccnx_common.Network.{Block, NetworkBuffer, contains_position, block_count, acquire}
use libccnx_common.Network.Read.{
  gather, read_at, io_entries, sum_limits, NetworkIoVec, create_parc_buffer, get_uint8,
  create_io_vec, io_vec_get_count, io_vec_get_array, io_vec_length, io_vec_equals,
}
use libccnx_common.Network.Chain.{IsChain, bytes}
use libccnx_common.Network.Moves.{contains_iff, contains_not}
use libccnx_common.Network.Inv.{IsValid, contents, limit_lem}

-- A byte that is not there stops the call.
abbrev pub or_trap : Option ℕ → Result ℕ
or_trap (some x) = ok x
or_trap none = trap

-- The bytes that the entries of a vector point to.
abbrev pub flatten : List (List ℕ × ℕ) → List ℕ
flatten [] = []
flatten ((base, n) ∷ entries) = take n base ++ flatten entries

gather_block :
    (b : Block) (chain : List Block) (n : ℕ)
    → b.limit ≤ n
    → gather (b ∷ chain) n ≡ take b.limit b.memory ++ gather chain (n - b.limit)
unfolding gather
gather_block b chain n h = ap (λ a. take a b.memory ++ gather chain (n - a)) (whole b.limit n h)
  where
    whole : (l n : ℕ) → l ≤ n → (if ltb l n then l else n) ≡ l
    whole l n h = ground arith

gather-nil : (n : ℕ) → gather [] n ≡ []
unfolding gather
gather-nil n = refl

gather_lem :
    (chain : List Block) (start n : ℕ)
    → IsChain start chain
    → n ≡ length (bytes chain)
    → gather chain n ≡ bytes chain
gather_lem [] start n c h = elim c [ ]
gather_lem (b ∷ []) start n (s, l) h =
    gather_block b [] n
      (omega (arith, l, h, length-append (take b.limit b.memory) [], length-take b.limit b.memory))
    ∙ ap (λ r. take b.limit b.memory ++ r) (gather-nil _)
gather_lem (b ∷ d ∷ rest) start n (s, f, c) h =
    let split = length-append (take b.limit b.memory) (bytes (d ∷ rest)) in
    let part = length-take b.limit b.memory in
    gather_block b (d ∷ rest) n (omega (arith, f, h, split, part))
    ∙ ap (λ r. take b.limit b.memory ++ r)
        (gather_lem (d ∷ rest) (start + b.limit) (n - b.limit) c (omega (arith, f, h, split, part)))

read_block :
    (b : Block) (chain : List Block) (start p : ℕ)
    → b.begin ≡ start
    → b.limit ≤ length b.memory
    → start ≤ p
    → (start + b.limit ≤ p
        → read_at chain p ≡ or_trap (get_elem? (bytes chain) (p - (start + b.limit))))
    → read_at (b ∷ chain) p ≡ or_trap (get_elem? (bytes (b ∷ chain)) (p - start))
unfolding read_at
read_block b chain start p s m h later =
    let part = length-take b.limit b.memory in
    elim (Bool-cases (contains_position b p)) [
      | inl t ↦
          let (a, e) = get_elem?-some b.memory (p - start) (omega (arith, m, contains_iff b p t)) in
          rw
            (
              t,
              s,
              e,
              get_elem?-append_left (take b.limit b.memory) (bytes chain) (p - start)
                  (omega (arith, part, m, contains_iff b p t)),
              get_elem?-take b.limit b.memory (p - start) (omega (arith, contains_iff b p t)),
              e,
            )
            refl
      | inr t ↦ rw t (
          later (omega (arith, contains_not b p t (omega arith)))
          ∙ ap or_trap (
              sym (
                get_elem?-append_right (take b.limit b.memory) (bytes chain) (p - start)
                  (p - (start + b.limit))
                  (omega (arith, part, m, contains_not b p t (omega arith))))))
    ]

read_at_lem :
    (chain : List Block) (start p : ℕ)
    → IsChain start chain
    → start ≤ p
    → read_at chain p ≡ or_trap (get_elem? (bytes chain) (p - start))
unfolding read_at
read_at_lem [] start p c h = elim c [ ]
read_at_lem (b ∷ []) start p (s, l) h = read_block b [] start p s (omega (arith, l)) h (λ k. refl)
read_at_lem (b ∷ d ∷ rest) start p (s, f, c) h =
    read_block b (d ∷ rest) start p s (omega (arith, f)) h
      (λ k. read_at_lem (d ∷ rest) (start + b.limit) p c k)

flatten-io_entries : (chain : List Block) → flatten (io_entries chain) ≡ bytes chain
unfolding io_entries
flatten-io_entries [] = refl
flatten-io_entries (b ∷ chain) = ap (λ r. take b.limit b.memory ++ r) (flatten-io_entries chain)

length-io_entries : (chain : List Block) → length (io_entries chain) ≡ length chain
unfolding io_entries
length-io_entries [] = refl
length-io_entries (b ∷ chain) = ap suc (length-io_entries chain)

sum_limits_lem :
    (chain : List Block) (start total : ℕ)
    → IsChain start chain
    → sum_limits chain total ≡ total + length (bytes chain)
unfolding sum_limits
sum_limits_lem [] start total c = omega arith
sum_limits_lem (b ∷ []) start total (s, l) =
    omega (arith, length-append (take b.limit b.memory) [], length-take b.limit b.memory)
sum_limits_lem (b ∷ d ∷ rest) start total (s, f, c) =
    sum_limits_lem (d ∷ rest) (start + b.limit) (total + b.limit) c
    ∙ omega (
      arith,
      length-append (take b.limit b.memory) (bytes (d ∷ rest)),
      length-take b.limit b.memory,
    )

one_more : (n : ℕ) → n + 1 < 2 ^ 32 → (n + 1) % 2 ^ 32 ≡ n + 1
one_more n h = omega arith

module _ {U : Type 0} where
  -- On a valid buffer CreateParcBuffer returns the bytes of all blocks in order.
  pub create_parc_buffer_lem :
      (nb : NetworkBuffer U) → IsValid nb → create_parc_buffer nb ≡ ok (contents nb)
  unfolding create_parc_buffer
  create_parc_buffer_lem nb v = rw (limit_lem nb v) (ap ok (gather_lem nb.chain 0 _ v.chain refl))

  -- On a valid buffer GetUint8 returns the byte at the position, and traps if it is not before the end.
  pub get_uint8_lem :
      (nb : NetworkBuffer U) (p : ℕ)
      → IsValid nb
      → get_uint8 nb p ≡ or_trap (get_elem? (contents nb) p)
  unfolding get_uint8
  get_uint8_lem nb p v = elim (Bool-cases (ltb p (length (contents nb)))) [
    | inl t ↦
        rw (limit_lem nb v, t)
          (read_at_lem nb.chain 0 p v.chain (omega arith)
            ∙ ap (λ i. or_trap (get_elem? (contents nb) i)) (omega arith))
    | inr t ↦
        rw (limit_lem nb v, t, get_elem?-none (contents nb) p (outside p (length (contents nb)) t))
          refl
  ]
    where
      outside : (p n : ℕ) → ltb p n ≡ false → n ≤ p
      outside p n h = ground arith

  -- The vector's count, its total and its entries agree with the buffer.
  pub record IsVectorOf (vec : NetworkIoVec U) (nb : NetworkBuffer U) : Type 0 where
    pub count : io_vec_get_count vec ≡ pos (length (io_vec_get_array vec))
    pub total : io_vec_length vec ≡ length (contents nb)
    pub entries : flatten (io_vec_get_array vec) ≡ contents nb
    pub buffer : vec.network_buffer ≡ record nb { refcount = nb.refcount + 1 }

  -- On a valid buffer of fewer than 2 ^ 31 blocks, with a reference and fewer than 2 ^ 32 - 1, CreateIoVec returns a
  -- vector: its count is the number of its
  -- entries, its total the number of bytes, its entries point to the bytes in order, and it holds a
  -- reference to the buffer.
  pub create_io_vec_lem :
      (nb : NetworkBuffer U)
      → IsValid nb
      → 0 < nb.refcount
      → nb.refcount + 1 < 2 ^ 32
      → length nb.chain < 2 ^ 31
      → (vec : NetworkIoVec U) × (create_io_vec nb ≡ ok vec) × IsVectorOf vec nb
  unfolding create_io_vec acquire block_count io_vec_get_array io_vec_get_count io_vec_length
  create_io_vec_lem nb v h k m = (
    record {
      network_buffer = record nb { refcount = nb.refcount + 1 };
      refcount = 1;
      total_bytes = sum_limits nb.chain 0;
      iovcnt = pos (length nb.chain);
      array = io_entries nb.chain;
    },
    rw
        (
          lt→ltb 0 nb.refcount h,
          to_int_small (length nb.chain) m,
          take-all (length nb.chain) nb.chain (omega arith),
          one_more nb.refcount k,
        )
        refl,
    record {
      count = ap pos (sym (length-io_entries nb.chain));
      total = sum_limits_lem nb.chain 0 0 v.chain ∙ omega arith;
      entries = flatten-io_entries nb.chain;
      buffer = refl;
    },
  )

  -- If parcBuffer_Equals decides the equality of bytes, IoVec equality returns for vectors of valid
  -- buffers, and is true exactly if the buffers hold the same bytes, however they are cut in blocks.
  pub io_vec_equals_lem :
      (parc_buffer_equals : List ℕ → List ℕ → Bool) (a b : NetworkBuffer U) (va vb : NetworkIoVec U)
      → ((x y : List ℕ) → (parc_buffer_equals x y ≡ true) ↔ (x ≡ y))
      → IsValid a
      → IsValid b
      → IsVectorOf va a
      → IsVectorOf vb b
      → (r : Bool) × (io_vec_equals parc_buffer_equals (some va) (some vb) ≡ ok r)
        × ((r ≡ true) ↔ (contents a ≡ contents b))
  unfolding io_vec_equals io_vec_length
  io_vec_equals_lem peq a b va vb decides v w x y =
      elim (Bool-cases (va.total_bytes == vb.total_bytes)) [
        | inl t ↦ (
          peq (contents a) (contents b),
          rw (t, buffer_bytes a va v x, buffer_bytes b vb w y) refl,
          decides (contents a) (contents b),
        )
        | inr t ↦ (
          false,
          rw t refl,
          ((λ h. cc), (λ h. absurd (==_false _ _ t (x.total ∙ ap length h ∙ sym y.total)))),
        )
      ]
    where
      buffer_bytes :
          (nb : NetworkBuffer U) (vec : NetworkIoVec U)
          → IsValid nb
          → IsVectorOf vec nb
          → create_parc_buffer vec.network_buffer ≡ ok (contents nb)
      buffer_bytes nb vec v x =
          ap create_parc_buffer x.buffer
          ∙ create_parc_buffer_lem (record nb { refcount = nb.refcount + 1 })
              (record {
                chain = v.chain;
                tail = v.tail;
                block = v.block;
                here = v.here;
                low = v.low;
                high = v.high;
              })
