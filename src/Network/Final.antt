-- ===== src/Network/Final.antt =====
-- New buffers, and `Finalize`.
use libccnx_common.Prelude.{
  ℕ, zero, suc, ◌+◌, ◌-◌, ◌^◌, ◌<◌, ◌≡◌, refl, sym, ap, subst, ◌∙◌, inl, inr, List, [], ◌∷◌, ◌++◌,
  append-nil, some, some_inj, arith, length, length-take, take, get_elem?, get_elem?-lt_length,
  get_elem?-take_append, ok, ltb, Bool-cases, ltb→lt,
}
use libccnx_common.Prelude.Segments.{take-all, take-take, take-append_left, take-append_right}
use libccnx_common.Network.{Block, NetworkBuffer, limit, create, create_from_array, wrap}
use libccnx_common.Network.Position.{finalize}
use libccnx_common.Network.Chain.{IsChain, bytes, begin_ge}
use libccnx_common.Network.Inv.{Grants, IsValid, contents, bounds, limit_lem}
use libccnx_common.Network.Grow.{allocate_block-ok}
use libccnx_common.Network.Moves.{Holds, locate_lem}

cut_one :
    (h b : Block) (p : ℕ)
    → h ≡ b
    → Holds b p
    → take (p - b.begin) b.memory ≡ take (p - h.begin) (take h.limit h.memory)
cut_one h b p e o =
    subst
      (λ x. Holds x p → take (p - x.begin) x.memory ≡ take (p - h.begin) (take h.limit h.memory)) e
      (λ o'. sym (take-take (p - h.begin) h.limit h.memory (omega (arith, o')))) o

-- The chain that ends in block `j` at the position `p`.
cut :
    (chain : List Block) (start j p : ℕ) (b : Block)
    → IsChain start chain
    → get_elem? chain j ≡ some b
    → Holds b p
    → bytes (take j chain ++ (record b { limit = p - b.begin } ∷ []))
      ≡ take (p - start) (bytes chain)
cut [] start j p b c e o = elim c [ ]
cut (h ∷ []) start zero p b (s, l) e o =
    rw (append-nil, append-nil, cut_one h b p (some_inj e) o)
      (ap (λ i. take (p - i) (take h.limit h.memory)) s)
cut (h ∷ []) start (suc j) p b c e o = cc
cut (h ∷ n ∷ rest) start zero p b (s, f, c) e o =
    append-nil _
    ∙ cut_one h b p (some_inj e) o
    ∙ ap (λ i. take (p - i) (take h.limit h.memory)) s
    ∙ sym (
        take-append_left (p - start) (take h.limit h.memory) (bytes (n ∷ rest)) (
          omega (arith, length-take h.limit h.memory, subst (λ x. Holds x p) (sym (some_inj e)) o)))
cut (h ∷ n ∷ rest) start (suc j) p b (s, f, c) e o =
    ap (λ r. take h.limit h.memory ++ r) (cut (n ∷ rest) (start + h.limit) j p b c e o)
    ∙ sym (
        take-append_right (p - start) (p - (start + h.limit)) (take h.limit h.memory)
          (bytes (n ∷ rest))
          (omega (
            arith,
            length-take h.limit h.memory,
            begin_ge (n ∷ rest) (start + h.limit) j b c e,
            o,
          )))

module _ {U : Type 0} where
  -- What is left after `Finalize`: the bytes before the position, which is the end.
  pub record IsFinal (nb nb' : NetworkBuffer U) : Type 0 where
    pub kept : contents nb' ≡ take nb.position (contents nb)
    pub at : nb'.position ≡ nb.position
    pub end : limit nb' ≡ ok nb.position

  -- On a valid buffer Finalize returns: the bytes are those before the position, the position is the same,
  -- and it is the limit.
  pub finalize_lem :
      (nb : NetworkBuffer U)
      → IsValid nb
      → (nb' : NetworkBuffer U) × (finalize nb ≡ ok nb') × IsFinal nb nb'
  unfolding finalize limit
  finalize_lem nb v = elim (Bool-cases (ltb nb.position (length (contents nb)))) [
    | inr f ↦ (
      nb,
      rw (limit_lem nb v, f) refl,
      record {
        kept = sym (take-all nb.position (contents nb) (ground (arith, bounds v)));
        at = refl;
        end = limit_lem nb v ∙ ap ok (ground (arith, v.high, bounds v));
      },
    )
    | inl t ↦
        let (j, b, q, g, o) = locate_lem nb nb.position v (ltb→lt _ _ t) in
        (
          record nb {
            chain = take j nb.chain ++ (record b { limit = nb.position - b.begin } ∷ []);
            current = j;
            tail = j;
          },
          rw (limit_lem nb v, t, q, g) refl,
          record {
            kept =
                cut nb.chain 0 j nb.position b v.chain g o
                ∙ ap (λ i. take i (contents nb)) (omega arith);
            at = refl;
            end =
                rw
                  (get_elem?-take_append nb.chain j (record b { limit = nb.position - b.begin })
                    (omega (arith, get_elem?-lt_length nb.chain j b g)))
                  (ap ok (omega (arith, o)));
          },
        )
  ]

  -- CreateFromArray of one byte or more (and less than the address space) makes a valid buffer of them.
  pub create_from_array_lem :
      (allocator : U → ℕ → List ℕ × U) (u : U) (bytes : List ℕ)
      → 0 < length bytes
      → length bytes < 2 ^ 64
      → IsValid (create_from_array allocator u bytes)
        × (contents (create_from_array allocator u bytes) ≡ bytes)
  unfolding create_from_array wrap
  create_from_array_lem allocator u bytes h k = (
    record {
      chain = (refl, omega arith);
      tail = refl;
      block = wrap bytes;
      here = refl;
      low = omega arith;
      high = omega arith;
    },
    append-nil _ ∙ take-all (length bytes) bytes (omega arith),
  )

  -- With an allocator that grants what is asked for, Create returns a valid empty buffer at position 0.
  pub create_lem :
      (allocator : U → ℕ → List ℕ × U) (u : U)
      → Grants allocator
      → (nb : NetworkBuffer U) × (create allocator u ≡ ok nb)
        × IsValid nb
        × (contents nb ≡ [])
        × (nb.position ≡ 0)
  unfolding create
  create_lem allocator u g =
      let (b, u', a, l, z, y) =
        allocate_block-ok allocator g u 1536 0 (omega arith) (omega arith) in
      (
        record {
          position = 0;
          capacity = b.capacity;
          chain = b ∷ [];
          current = 0;
          tail = 0;
          userarg = u';
          refcount = 1;
        },
        rw a refl,
        record {
          chain = (y, l);
          tail = refl;
          block = b;
          here = refl;
          low = omega (arith, y);
          high = omega arith;
        },
        rw z refl,
        refl,
      )
