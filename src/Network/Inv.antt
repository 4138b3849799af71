-- ===== src/Network/Inv.antt =====
-- The invariant of a network buffer, and what a valid chain says of its blocks.
use libccnx_common.Prelude.{
  ℕ, zero, suc, ◌+◌, ◌*◌, ◌^◌, ◌≤◌, ◌<◌, ◌≡◌, refl, ap, subst, ◌∙◌, inl, inr, ◌⊎◌, List, [], ◌∷◌,
  ◌++◌, some, some_inj, arith, length, length-append, length-take, get_elem?, get_elem?-some, take,
  ok,
}
use libccnx_common.Network.{Block, NetworkBuffer, limit}
use libccnx_common.Network.Chain.{IsFrozen, IsLast, IsChain, bytes}

-- The allocator's documented promise: a block of at least the requested number of bytes (of less than
-- half of the address space). Its size is a size_t.
abbrev pub Grants : {U : Type 0} → (U → ℕ → List ℕ × U) → Type 0
Grants {U} allocator =
    (u : U) (n : ℕ)
    → n < 2 ^ 63
    → (n ≤ length (allocator u n).0) × (length (allocator u n).0 < 2 ^ 64)

-- The position lies in the current block or at its end.
pub record IsValid {U : Type 0} (nb : NetworkBuffer U) : Type 0 where
  pub chain : IsChain 0 nb.chain
  pub tail : nb.tail + 1 ≡ length nb.chain
  pub block : Block
  pub here : get_elem? nb.chain nb.current ≡ some block
  pub low : block.begin ≤ nb.position
  pub high : nb.position ≤ block.begin + block.limit

abbrev pub contents : {U : Type 0} → NetworkBuffer U → List ℕ
contents nb = bytes nb.chain

-- What a block of a chain is, by its index.
pub block_cases :
    (chain : List Block) (start i : ℕ) (b : Block)
    → IsChain start chain
    → get_elem? chain i ≡ some b
    → (i + 1 < length chain) × IsFrozen b × (b.begin + b.limit ≤ start + length (bytes chain))
      ⊎ (i + 1 ≡ length chain) × IsLast b × (b.begin + b.limit ≡ start + length (bytes chain))
block_cases [] start i b c e = elim c [ ]
block_cases (h ∷ []) start zero b (s, l) e =
    subst
      (λ x.
        (1 < 1) × IsFrozen x × (x.begin + x.limit ≤ start + length (take h.limit h.memory ++ []))
        ⊎ (0 + 1 ≡ 1)
          × IsLast x
          × (x.begin + x.limit ≡ start + length (take h.limit h.memory ++ [])))
      (some_inj e)
      (inr (
        omega arith,
        l,
        omega (arith, length-append (take h.limit h.memory) [], length-take h.limit h.memory),
      ))
block_cases (h ∷ []) start (suc i) b c e = cc
block_cases (h ∷ n ∷ rest) start zero b (s, f, c) e =
    subst
      (λ x.
        (0 + 1 < suc (suc (length rest)))
          × IsFrozen x
          × (x.begin + x.limit ≤ start + length (bytes (h ∷ n ∷ rest)))
        ⊎ (0 + 1 ≡ suc (suc (length rest)))
          × IsLast x
          × (x.begin + x.limit ≡ start + length (bytes (h ∷ n ∷ rest))))
      (some_inj e)
      (inl (
        omega arith,
        f,
        omega (
          arith,
          length-append (take h.limit h.memory) (bytes (n ∷ rest)),
          length-take h.limit h.memory,
        ),
      ))
block_cases (h ∷ n ∷ rest) start (suc i) b (s, f, c) e =
    let split = length-append (take h.limit h.memory) (bytes (n ∷ rest)) in
    let part = length-take h.limit h.memory in
    elim (block_cases (n ∷ rest) (start + h.limit) i b c e) [
      | inl (p, q, r) ↦ inl (omega arith, q, omega (arith, split, part))
      | inr (p, q, r) ↦ inr (omega arith, q, omega (arith, split, part))
    ]

first_begin :
    (n : Block) (rest : List Block) (start : ℕ) → IsChain start (n ∷ rest) → n.begin ≡ start
first_begin n [] start c = c.0
first_begin n (r ∷ rest) start c = c.0

block_room :
    (chain : List Block) (start i : ℕ) (b : Block)
    → IsChain start chain
    → get_elem? chain i ≡ some b
    → 0 < b.capacity
block_room chain start i b c e = elim (block_cases chain start i b c e) [
  | inl t ↦ omega (arith, t)
  | inr t ↦ omega (arith, t)
]

-- The next block has room, and it begins where this one ends.
abbrev IsNext : List Block → ℕ → Block → Type 0
IsNext chain i b =
    (n : Block) × (get_elem? chain i ≡ some n) × (n.begin ≡ b.begin + b.limit) × (0 < n.capacity)

pub block_behind :
    (chain : List Block) (start i : ℕ) (b : Block)
    → IsChain start chain
    → get_elem? chain i ≡ some b
    → suc i < length chain
    → IsNext chain (suc i) b
block_behind [] start i b c e h = elim c [ ]
block_behind (x ∷ []) start i b c e h = absurd (omega arith)
block_behind (x ∷ n ∷ rest) start zero b (s, f, c) e h = (
  n,
  refl,
  subst (λ y. n.begin ≡ y.begin + y.limit) (some_inj e) (omega (arith, s, first_begin n rest _ c)),
  block_room (n ∷ rest) _ 0 n c refl,
)
block_behind (x ∷ n ∷ rest) start (suc i) b (s, f, c) e h =
    block_behind (n ∷ rest) (start + x.limit) i b c e (omega arith)

pub ending_block :
    (chain : List Block) (start i : ℕ)
    → IsChain start chain
    → i + 1 ≡ length chain
    → (b : Block) × (get_elem? chain i ≡ some b)
      × IsLast b
      × (b.begin + b.limit ≡ start + length (bytes chain))
ending_block chain start i c e =
    let (b, q) = get_elem?-some chain i (omega arith) in
    elim (block_cases chain start i b c q) [
      | inl t ↦ absurd (omega (arith, t))
      | inr (p, l, r) ↦ (b, q, l, r)
    ]

module _ {U : Type 0} where
  pub limit_lem : (nb : NetworkBuffer U) → IsValid nb → limit nb ≡ ok (length (contents nb))
  unfolding limit
  limit_lem nb v =
      let (b, q, l, r) = ending_block nb.chain 0 nb.tail v.chain v.tail in
      rw q (ap ok (omega (arith, r)))

  -- The limit, the capacity and the memory of the current block.
  pub bounds :
      {nb : NetworkBuffer U} (v : IsValid nb)
      → (v.block.limit ≤ v.block.capacity)
        × (v.block.limit ≤ length v.block.memory)
        × (v.block.capacity ≤ length v.block.memory)
        × (v.block.begin + v.block.limit ≤ length (contents nb))
        × (v.block.capacity < 2 ^ 64)
  bounds {nb} v = elim (block_cases nb.chain 0 nb.current v.block v.chain v.here) [
    | inl t ↦
        (omega (arith, t), omega (arith, t), omega (arith, t), omega (arith, t), omega (arith, t))
    | inr t ↦
        (omega (arith, t), omega (arith, t), omega (arith, t), omega (arith, t), omega (arith, t))
  ]

  -- The current block, if it is the last.
  pub at_tail :
      {nb : NetworkBuffer U} (v : IsValid nb)
      → nb.current + 1 ≡ length nb.chain
      → (get_elem? nb.chain nb.tail ≡ some v.block)
        × (32 ≤ v.block.capacity + 32 * v.block.limit)
        × (v.block.begin + v.block.limit ≡ length (contents nb))
  at_tail {nb} v t = elim (block_cases nb.chain 0 nb.current v.block v.chain v.here) [
    | inl p ↦ absurd (omega (arith, p))
    | inr p ↦ (
      ap (λ i. get_elem? nb.chain i) (omega (arith, v.tail)) ∙ v.here,
      omega (arith, p),
      omega (arith, p),
    )
  ]
