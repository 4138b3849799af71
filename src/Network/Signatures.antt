-- ===== src/Network/Signatures.antt =====
-- Which bytes `ComputeSignature` hands to the hasher.
use libccnx_common.Prelude.{
  ℕ, ◌+◌, ◌-◌, ◌≤◌, ◌<◌, ◌≡◌, refl, sym, ap, subst, ◌∙◌, inl, inr, List, [], ◌∷◌, ◌++◌, append-nil,
  some, arith, length, length-take, length-drop, take, drop, ok, ltb, lt→ltb, le→ltb, le→leb,
  Bool-cases, ltb→lt,
}
use libccnx_common.Prelude.Segments.{take-take, drop-take, drop-append, take-append_left}
use libccnx_common.Network.{Block, NetworkBuffer, contains_position, sub_size}
use libccnx_common.Network.Sign.{hash_blocks, compute_signature}
use libccnx_common.Network.Chain.{IsChain, bytes, head_bounds}
use libccnx_common.Network.Moves.{contains_true}
use libccnx_common.Network.Writes.{sub_size_lem}
use libccnx_common.Network.Inv.{IsValid, contents}

-- Nothing is left to hash.
hash_block_done :
    (b : Block) (chain : List Block) (e : ℕ) (hashed : List ℕ)
    → b.limit ≤ length b.memory
    → hash_blocks chain e e hashed ≡ ok hashed
    → hash_blocks (b ∷ chain) e e hashed ≡ ok hashed
unfolding hash_blocks
hash_block_done b chain e hashed m r = elim (Bool-cases (ltb e (b.begin + b.limit))) [
  | inr f ↦ rw f refl
  | inl t ↦ elim (Bool-cases (contains_position b e)) [
    | inr f ↦ rw (f, t) r
    | inl c ↦
        rw
          (
            c,
            t,
            le→ltb (b.begin + b.limit) e (omega (arith, ltb→lt _ _ t)),
            none_left e,
            le→leb (e - b.begin + 0) (length b.memory) (omega (arith, ltb→lt _ _ t, m)),
            append-nil hashed,
          )
          (ap (λ i. hash_blocks chain i e hashed) (omega arith) ∙ r)
  ]
]
  where
    none_left : (e : ℕ) → sub_size e e ≡ 0
    none_left e = omega arith

hash_done :
    (chain : List Block) (start e : ℕ) (hashed : List ℕ)
    → IsChain start chain
    → hash_blocks chain e e hashed ≡ ok hashed
unfolding hash_blocks
hash_done [] start e hashed c = refl
hash_done (b ∷ []) start e hashed (s, l) = hash_block_done b [] e hashed (omega (arith, l)) refl
hash_done (b ∷ d ∷ rest) start e hashed (s, f, c) =
    hash_block_done b (d ∷ rest) e hashed (omega (arith, f))
      (hash_done (d ∷ rest) (start + b.limit) e hashed c)

hash_rest :
    (h : Block) (rest : List Block) (start e : ℕ) (hashed : List ℕ)
    → IsChain start (h ∷ rest)
    → hash_blocks rest e e hashed ≡ ok hashed
unfolding hash_blocks
hash_rest h [] start e hashed c = refl
hash_rest h (n ∷ rest) start e hashed (s, f, c) = hash_done (n ∷ rest) (start + h.limit) e hashed c

-- The bytes from `s` to `e`, all of them before the limit `l`.
slice :
    (memory behind : List ℕ) (l s e : ℕ)
    → s ≤ e
    → e ≤ l
    → s ≤ l
    → l ≤ length memory
    → take (e - s) (drop s memory) ≡ take (e - s) (drop s (take l memory ++ behind))
slice memory behind l s e p q r m =
    let n = length-take l memory in
    sym (take-take (e - s) (l - s) (drop s memory) (omega arith))
    ∙ ap (λ x. take (e - s) x) (sym (drop-take s l (l - s) memory refl))
    ∙ sym (
        take-append_left (e - s) (drop s (take l memory)) behind
          (omega (arith, n, length-drop s (take l memory))))
    ∙ ap (λ x. take (e - s) x) (sym (drop-append s (take l memory) behind (omega (arith, n))))

-- The part of the first block.
hash_first :
    (h : Block) (rest : List Block) (s e : ℕ)
    → IsChain 0 (h ∷ rest)
    → s ≤ e
    → s < h.limit
    → e ≤ h.limit
    → hash_blocks (h ∷ rest) s e [] ≡ ok (take (e - s) (drop s (bytes (h ∷ rest))))
unfolding hash_blocks
hash_first h rest s e c le lt end =
    let (z, m, w) = head_bounds h rest 0 c in
    rw
      (
        contains_true h s (omega (arith, z), omega (arith, z)),
        lt→ltb s (h.begin + h.limit) (omega (arith, z)),
        le→ltb (h.begin + h.limit) e (omega (arith, z)),
        sub_size_lem e s le (omega arith),
        le→leb (s - h.begin + (e - s)) (length h.memory) (omega (arith, z)),
      )
      (ap (λ i. hash_blocks rest i e (take (e - s) (drop (s - h.begin) h.memory))) (omega arith)
        ∙ hash_rest h rest 0 e _ c
        ∙ ap ok (
            ap (λ i. take (e - s) (drop i h.memory)) (omega (arith, z))
            ∙ slice h.memory (bytes rest) h.limit s e le end (omega (arith, lt)) m))

module _ {U Signature : Type 0} where
  -- On a valid buffer ComputeSignature of a region that starts before the end of the first block and ends
  -- in it or at its end signs exactly the bytes of the region.
  pub signs_first :
      (nb : NetworkBuffer U) (h : Block) (rest : List Block) (s e : ℕ) (sign : List ℕ → Signature)
      → IsValid nb
      → nb.chain ≡ h ∷ rest
      → s ≤ e
      → s < h.limit
      → e ≤ h.limit
      → compute_signature nb s e (some sign)
        ≡ ok (some (sign (take (e - s) (drop s (contents nb)))))
  unfolding compute_signature
  signs_first nb h rest s e sign v q le lt end =
      rw (le→leb s e le, q, hash_first h rest s e (subst (IsChain 0) q v.chain) le lt end) refl

  -- On a valid buffer ComputeSignature of a region that starts at the end of the first block or behind
  -- it signs no bytes, whatever the region.
  pub signs_nothing :
      (nb : NetworkBuffer U) (h : Block) (rest : List Block) (s e : ℕ) (sign : List ℕ → Signature)
      → IsValid nb
      → nb.chain ≡ h ∷ rest
      → s ≤ e
      → h.limit ≤ s
      → compute_signature nb s e (some sign) ≡ ok (some (sign []))
  unfolding compute_signature hash_blocks
  signs_nothing nb h rest s e sign v q le k =
      rw
        (
          le→leb s e le,
          q,
          le→ltb s (h.begin + h.limit)
              (omega (arith, k, head_bounds h rest 0 (subst (IsChain 0) q v.chain))),
        )
        refl
