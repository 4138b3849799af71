-- ===== src/Network/Chain.antt =====
-- Well-formed chains of memory blocks, the bytes that they hold, and a write to one of their blocks.
use libccnx_common.Prelude.{
  ℕ, zero, suc, ◌+◌, ◌-◌, ◌*◌, ◌^◌, ◌≤◌, ◌<◌, ◌≡◌, refl, sym, ap, subst, some_inj, ◌∙◌, inl, inr,
  ◌⊎◌, List, [], ◌∷◌, ◌++◌, append-nil, some, arith, length, length-append, length-take,
  length-drop, get_elem?, set, take, drop, ltb, Bool-cases, ltb→lt,
}
use libccnx_common.Prelude.Segments.{
  write_at, take-write_at_long, take-write_at_short, overwrite-write_at, write_at-append_left,
  write_at-append_right,
}
use libccnx_common.Network.{Block}
use libccnx_common.Network.Put.{overwrite, block_write}

-- A block that is no longer the last is full; the last one has room beyond its limit, and if it is empty
-- at least for the longest integer that is kept in one block. A capacity is a size_t.
abbrev pub IsFrozen : Block → Type 0
IsFrozen b =
    (0 < b.limit) × (b.capacity ≡ b.limit) × (b.limit ≤ length b.memory) × (b.capacity < 2 ^ 64)

abbrev pub IsLast : Block → Type 0
IsLast b =
    (b.limit ≤ b.capacity)
    × (b.capacity ≤ length b.memory)
    × (32 ≤ b.capacity + 32 * b.limit)
    × (b.capacity < 2 ^ 64)

-- The blocks follow one another from the position `start` on.
abbrev pub IsChain : ℕ → List Block → Type 0
IsChain start [] = ⊥
IsChain start (b ∷ []) = (b.begin ≡ start) × IsLast b
IsChain start (b ∷ c ∷ rest) = (b.begin ≡ start) × IsFrozen b × IsChain (start + b.limit) (c ∷ rest)

-- The bytes up to the limits.
abbrev pub bytes : List Block → List ℕ
bytes [] = []
bytes (b ∷ chain) = take b.limit b.memory ++ bytes chain

pub begin_ge :
    (chain : List Block) (start i : ℕ) (b : Block)
    → IsChain start chain
    → get_elem? chain i ≡ some b
    → start ≤ b.begin
begin_ge [] start i b c e = cc
begin_ge (h ∷ []) start zero b (p, l) e = omega (arith, ap (λ x. x.begin) (some_inj e))
begin_ge (h ∷ []) start (suc i) b c e = cc
begin_ge (h ∷ c' ∷ rest) start zero b (p, f, c) e = omega (arith, ap (λ x. x.begin) (some_inj e))
begin_ge (h ∷ c' ∷ rest) start (suc i) b (p, f, c) e =
    omega (arith, begin_ge (c' ∷ rest) (start + h.limit) i b c e)

-- The write itself, within the memory and from the limit on at most.
block_write-bytes :
    (b : Block) (i : ℕ) (ys : List ℕ)
    → i ≤ b.limit
    → b.limit ≤ length b.memory
    → i + length ys ≤ length b.memory
    → take (block_write b i ys).limit (block_write b i ys).memory
      ≡ write_at (take b.limit b.memory) i ys
block_write-bytes b i ys h k m = elim (Bool-cases (ltb b.limit (i + length ys))) [
  | inl t ↦
      rw (t, overwrite-write_at b.memory i (i + length ys) ys refl (omega arith))
        (take-write_at_long b.memory i b.limit (i + length ys) ys refl h k (ltb→lt _ _ t))
  | inr t ↦
      rw (t, overwrite-write_at b.memory i (i + length ys) ys refl (omega arith))
        (take-write_at_short b.memory i b.limit ys (ground arith))
]

pub length-overwrite :
    (memory : List ℕ) (i : ℕ) (ys : List ℕ)
    → i + length ys ≤ length memory
    → length (overwrite memory i ys) ≡ length memory
length-overwrite memory i ys h = omega (
  arith,
  length-append (take i memory) (ys ++ drop (i + length ys) memory),
  length-append ys (drop (i + length ys) memory),
  length-take i memory,
  length-drop (i + length ys) memory,
)

pub block_write-limit :
    (b : Block) (i : ℕ) (ys : List ℕ)
    → ((block_write b i ys).limit ≡ b.limit) × (i + length ys ≤ b.limit)
      ⊎ ((block_write b i ys).limit ≡ i + length ys) × (b.limit < i + length ys)
block_write-limit b i ys = ground arith

abbrev WrittenTo : List Block → ℕ → ℕ → ℕ → List ℕ → ℕ → Block → Type 0
WrittenTo chain start i k ys p b =
    IsChain start (set chain i (block_write b k ys))
    × (bytes (set chain i (block_write b k ys)) ≡ write_at (bytes chain) p ys)

write_last :
    (h : Block) (start p k : ℕ) (ys : List ℕ)
    → IsChain start (h ∷ [])
    → start + p ≡ h.begin + k
    → k ≤ h.limit
    → k + length ys ≤ h.capacity
    → WrittenTo (h ∷ []) start 0 k ys p h
write_last h start p k ys (s, l) q a m = (
  (s, omega (arith, l, block_write-limit h k ys, length-overwrite h.memory k ys)),
  rw (append-nil, append-nil, block_write-bytes h k ys a (omega arith) (omega arith))
      (ap (λ i. write_at (take h.limit h.memory) i ys) (omega arith)),
)

write_frozen :
    (h n : Block) (rest : List Block) (start p k : ℕ) (ys : List ℕ)
    → IsChain start (h ∷ n ∷ rest)
    → start + p ≡ h.begin + k
    → k ≤ h.limit
    → k + length ys ≤ h.capacity
    → WrittenTo (h ∷ n ∷ rest) start 0 k ys p h
write_frozen h n rest start p k ys (s, f, c) q a m = (
  (
    s,
    omega (arith, f, same, length-overwrite h.memory k ys),
    subst (λ l. IsChain (start + l) (n ∷ rest)) (sym same) c,
  ),
  rw (block_write-bytes h k ys a (omega arith) (omega arith)) (
      sym (
        write_at-append_left (take h.limit h.memory) (bytes (n ∷ rest)) k ys
          (omega (arith, length-take h.limit h.memory)))
      ∙ ap (λ i. write_at (bytes (h ∷ n ∷ rest)) i ys) (omega arith)),
)
  where
    same : (block_write h k ys).limit ≡ h.limit
    same = omega (arith, f, m, block_write-limit h k ys)

pub IsChain-cons :
    (h : Block) (chain : List Block) (start : ℕ)
    → h.begin ≡ start
    → IsFrozen h
    → IsChain (start + h.limit) chain
    → IsChain start (h ∷ chain)
IsChain-cons h [] start s f c = absurd c
IsChain-cons h (n ∷ rest) start s f c = (s, f, c)

-- A write to block `i` at the offset `k` is a write to the bytes of the chain at the position `p`.
pub chain_write :
    (chain : List Block) (start i p k : ℕ) (b : Block) (ys : List ℕ)
    → IsChain start chain
    → get_elem? chain i ≡ some b
    → start + p ≡ b.begin + k
    → k ≤ b.limit
    → k + length ys ≤ b.capacity
    → WrittenTo chain start i k ys p b
chain_write [] start i p k b ys c e q h m = elim c [ ]
chain_write (h ∷ []) start zero p k b ys c e q a m =
    subst
      (λ x.
        start + p ≡ x.begin + k
        → k ≤ x.limit
        → k + length ys ≤ x.capacity
        → WrittenTo (h ∷ []) start 0 k ys p x)
      (some_inj e) (write_last h start p k ys c) q a m
chain_write (h ∷ []) start (suc i) p k b ys c e q a m = cc
chain_write (h ∷ n ∷ rest) start zero p k b ys c e q a m =
    subst
      (λ x.
        start + p ≡ x.begin + k
        → k ≤ x.limit
        → k + length ys ≤ x.capacity
        → WrittenTo (h ∷ n ∷ rest) start 0 k ys p x)
      (some_inj e) (write_frozen h n rest start p k ys c) q a m
chain_write (h ∷ n ∷ rest) start (suc i) p k b ys (s, f, c) e q a m =
    let low = begin_ge (n ∷ rest) (start + h.limit) i b c e in
    let (c', w) =
      chain_write (n ∷ rest) (start + h.limit) i (p - h.limit) k b ys c e (omega arith) a m in
    (
      IsChain-cons h _ start s f c',
      ap (λ r. take h.limit h.memory ++ r) w
          ∙ sym (
              write_at-append_right (take h.limit h.memory) (bytes (n ∷ rest)) p (p - h.limit) ys
                (omega (arith, length-take h.limit h.memory))),
    )

-- The first block begins at the start, and its limit is in its memory.
pub head_bounds :
    (h : Block) (rest : List Block) (start : ℕ)
    → IsChain start (h ∷ rest)
    → (h.begin ≡ start) × (h.limit ≤ length h.memory) × (h.limit < 2 ^ 64)
head_bounds h [] start (s, l) = (s, omega (arith, l), omega (arith, l))
head_bounds h (n ∷ rest) start (s, f, c) = (s, omega (arith, f), omega (arith, f))
