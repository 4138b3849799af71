-- ===== src/Network/Moves.antt =====
-- New buffers, moves of the position, and `Finalize`.
use libccnx_common.Prelude.{
  ℕ, suc, ◌+◌, ◌≤◌, ◌<◌, ◌≡◌, refl, ap, ◌∙◌, inl, inr, List, [], ◌∷◌, some, arith, length,
  length-append, length-take, take, get_elem?, ok, trap, true, false, ◌==◌, le→leb, lt→leb,
  Bool-cases, ==_iff,
}
use libccnx_common.Network.{Block, NetworkBuffer, contains_position}
use libccnx_common.Network.Position.{find_block, locate, set_position}
use libccnx_common.Network.Chain.{IsChain, bytes}
use libccnx_common.Network.Inv.{IsValid, contents, ending_block, limit_lem}

abbrev pub Holds : Block → ℕ → Type 0
Holds b p = (b.begin ≤ p) × (p < b.begin + b.limit)

pub contains_iff : (b : Block) (p : ℕ) → contains_position b p ≡ true → Holds b p
unfolding contains_position
contains_iff b p e = ground arith

pub contains_true : (b : Block) (p : ℕ) → Holds b p → contains_position b p ≡ true
unfolding contains_position
contains_true b p h = ground arith

pub contains_not :
    (b : Block) (p : ℕ) → contains_position b p ≡ false → b.begin ≤ p → b.begin + b.limit ≤ p
unfolding contains_position
contains_not b p e h = ground arith

-- The walk from the head ends at a block that holds the position.
find_block_lem :
    (chain : List Block) (start p i : ℕ)
    → IsChain start chain
    → start ≤ p
    → p < start + length (bytes chain)
    → (j : ℕ) × (b : Block) × (find_block chain p i ≡ some (i + j))
      × (get_elem? chain j ≡ some b)
      × Holds b p
unfolding find_block
find_block_lem [] start p i c h k = elim c [ ]
find_block_lem (b ∷ []) start p i (s, l) h k = elim (Bool-cases (contains_position b p)) [
  | inl t ↦ (0, b, rw t (ap some (omega arith)), refl, contains_iff b p t)
  | inr t ↦ absurd (
      omega (
        arith,
        contains_not b p t (omega arith),
        length-append (take b.limit b.memory) [],
        length-take b.limit b.memory,
      ))
]
find_block_lem (b ∷ n ∷ rest) start p i (s, f, c) h k = elim (Bool-cases (contains_position b p)) [
  | inl t ↦ (0, b, rw t (ap some (omega arith)), refl, contains_iff b p t)
  | inr t ↦
      let split = length-append (take b.limit b.memory) (bytes (n ∷ rest)) in
      let (j, d, e, g, o) =
        find_block_lem (n ∷ rest) (start + b.limit) p (i + 1) c
          (omega (arith, contains_not b p t (omega arith)))
          (omega (arith, split, length-take b.limit b.memory)) in
      (suc j, d, rw t (e ∙ ap some (omega arith)), g, o)
]

module _ {U : Type 0} where
  pub locate_lem :
      (nb : NetworkBuffer U) (p : ℕ)
      → IsValid nb
      → p < length (contents nb)
      → (j : ℕ) × (b : Block) × (locate nb p ≡ ok j) × (get_elem? nb.chain j ≡ some b) × Holds b p
  unfolding locate
  locate_lem nb p v h = elim (Bool-cases (contains_position v.block p)) [
    | inl t ↦ (nb.current, v.block, rw (v.here, t) refl, v.here, contains_iff v.block p t)
    | inr t ↦
        let (j, b, e, g, o) = find_block_lem nb.chain 0 p 0 v.chain (omega arith) (omega arith) in
        (j, b, rw (v.here, t, e) (ap ok (omega arith)), g, o)
  ]

  -- The same bytes, at another position.
  pub record IsMoved (nb : NetworkBuffer U) (p : ℕ) (nb' : NetworkBuffer U) : Type 0 where
    pub valid : IsValid nb'
    pub same : contents nb' ≡ contents nb
    pub at : nb'.position ≡ p

  -- On a valid buffer SetPosition to any position up to the end of the bytes returns: the buffer is valid,
  -- with the same bytes and that position, and the current block holds it.
  pub set_position-ok :
      (nb : NetworkBuffer U) (p : ℕ)
      → IsValid nb
      → p ≤ length (contents nb)
      → (nb' : NetworkBuffer U) × (set_position nb p ≡ ok nb') × IsMoved nb p nb'
  unfolding set_position
  set_position-ok nb p v h = elim (Bool-cases (p == length (contents nb))) [
    | inl e ↦
        let (b, q, l, r) = ending_block nb.chain 0 nb.tail v.chain v.tail in
        (
          record nb { current = nb.tail; position = p },
          rw (limit_lem nb v, le→leb _ _ h, e) refl,
          record {
            valid = record {
              chain = v.chain;
              tail = v.tail;
              block = b;
              here = q;
              low = omega (arith, r, (==_iff _ _).0 e);
              high = omega (arith, r, (==_iff _ _).0 e);
            };
            same = refl;
            at = refl;
          },
        )
    | inr e ↦
        let (j, b, q, g, o) = locate_lem nb p v (ground arith) in
        (
          record nb { current = j; position = p },
          rw (limit_lem nb v, le→leb _ _ h, e, q) refl,
          record {
            valid = record {
              chain = v.chain;
              tail = v.tail;
              block = b;
              here = g;
              low = omega (arith, o);
              high = omega (arith, o);
            };
            same = refl;
            at = refl;
          },
        )
  ]

  -- On a valid buffer SetPosition behind the end of the bytes traps.
  pub set_position-trap :
      (nb : NetworkBuffer U) (p : ℕ)
      → IsValid nb
      → length (contents nb) < p
      → set_position nb p ≡ trap
  unfolding set_position
  set_position-trap nb p v h = rw (limit_lem nb v, lt→leb p (length (contents nb)) h) refl
