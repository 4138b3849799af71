-- ===== src/Network/Grow.antt =====
-- The growth of a network buffer: `_ccnxCodecNetworkBuffer_Expand` and `AllocateIfNeeded` keep the bytes
-- and leave room at the position.
use libccnx_common.Prelude.{
  ℕ, zero, suc, ◌+◌, ◌-◌, ◌≤◌, ◌<◌, ◌≡◌, refl, ap, subst, ◌∙◌, inl, inr, List, [], ◌∷◌, ◌++◌, some,
  some_inj, arith, length, length-drop, get_elem?, get_elem?-lt_length, take, drop, ok, false, ltb,
  ◌==◌, lt→ltb, Bool-cases, ==_iff, ltb→lt,
}
use libccnx_common.Network.{
  Block, NetworkBuffer, block_header, allocate_block, expand, expand_and_enter, allocate_if_needed,
}
use libccnx_common.Network.Chain.{IsLast, IsChain, IsChain-cons, bytes}
use libccnx_common.Network.Inv.{
  Grants, IsValid, contents, block_cases, block_behind, bounds, at_tail,
}

-- The tail ends at its limit.
abbrev pub frozen : Block → Block
frozen b = record b { capacity = b.limit }

abbrev pub grown : List Block → ℕ → Block → Block → List Block
grown chain t last new = take t chain ++ (frozen last ∷ new ∷ [])

abbrev IsGrown : List Block → ℕ → ℕ → Block → Block → Type 0
IsGrown chain start t last new =
    IsChain start (grown chain t last new)
    × (bytes (grown chain t last new) ≡ bytes chain)
    × (length (grown chain t last new) ≡ suc (length chain))
    × (get_elem? (grown chain t last new) (suc t) ≡ some new)

grow_one :
    (h new : Block) (start : ℕ)
    → IsChain start (h ∷ [])
    → 0 < h.limit
    → IsLast new
    → new.limit ≡ 0
    → new.begin ≡ h.begin + h.limit
    → IsGrown (h ∷ []) start 0 h new
grow_one h new start (s, k) p l z b = (
  (s, (p, refl, omega (arith, k), omega (arith, k)), (omega (arith, s), l)),
  ap (λ m. take h.limit h.memory ++ (take m new.memory ++ [])) z,
  refl,
  refl,
)

pub grow :
    (chain : List Block) (start t : ℕ) (last new : Block)
    → IsChain start chain
    → get_elem? chain t ≡ some last
    → t + 1 ≡ length chain
    → 0 < last.limit
    → IsLast new
    → new.limit ≡ 0
    → new.begin ≡ last.begin + last.limit
    → IsGrown chain start t last new
grow [] start t last new c e q p l z b = elim c [ ]
grow (h ∷ []) start zero last new c e q p l z b =
    subst (λ x. 0 < x.limit → new.begin ≡ x.begin + x.limit → IsGrown (h ∷ []) start 0 x new)
      (some_inj e) (λ p' b'. grow_one h new start c p' l z b') p b
grow (h ∷ []) start (suc t) last new c e q p l z b = absurd (omega arith)
grow (h ∷ n ∷ rest) start zero last new c e q p l z b = absurd (omega arith)
grow (h ∷ n ∷ rest) start (suc t) last new (s, f, c) e q p l z b =
    let (c', w, k, g) = grow (n ∷ rest) (start + h.limit) t last new c e (omega arith) p l z b in
    (IsChain-cons h _ start s f c', ap (λ r. take h.limit h.memory ++ r) w, ap suc k, g)

-- The position lies before the end of the current block's memory.
abbrev pub HasRoom : {U : Type 0} {nb : NetworkBuffer U} → IsValid nb → Type 0
HasRoom {U} {nb} v = nb.position < v.block.begin + v.block.capacity

-- The same bytes at the same position, with room there.
abbrev pub IsReady : {U : Type 0} → NetworkBuffer U → NetworkBuffer U → Type 0
IsReady nb nb' =
    (v : IsValid nb') × HasRoom v × (contents nb' ≡ contents nb) × (nb'.position ≡ nb.position)

-- The result of an expansion: the current block is new, and begins at `start`.
pub record IsExpanded {U : Type 0} (nb : NetworkBuffer U) (start : ℕ) (nb' : NetworkBuffer U)
    : Type 0 where
  pub chain : IsChain 0 nb'.chain
  pub tail : nb'.tail + 1 ≡ length nb'.chain
  pub block : Block
  pub here : get_elem? nb'.chain nb'.current ≡ some block
  pub begin : block.begin ≡ start
  pub empty : block.limit ≡ 0
  pub room : 32 ≤ block.capacity
  pub same : contents nb' ≡ contents nb
  pub at : nb'.position ≡ nb.position

pub enter_next :
    {U : Type 0} (nb : NetworkBuffer U) (v : IsValid nb)
    → nb.position ≡ v.block.begin + v.block.capacity
    → nb.current + 1 < length nb.chain
    → IsReady nb (record nb { current = nb.current + 1 })
enter_next nb v p h =
    let (n, e, b, room) = block_behind nb.chain 0 nb.current v.block v.chain v.here (omega arith) in
    elim (block_cases nb.chain 0 nb.current v.block v.chain v.here) [
      | inl t ↦ (
        record {
          chain = v.chain;
          tail = v.tail;
          block = n;
          here = ap (λ i. get_elem? nb.chain i) (omega arith) ∙ e;
          low = omega (arith, b, t);
          high = omega (arith, b, t);
        },
        omega (arith, b, t, room),
        refl,
        refl,
      )
      | inr t ↦ absurd (omega (arith, t))
    ]

module _ {U : Type 0} (allocator : U → ℕ → List ℕ × U) where
  -- A block of 2048 bytes at least.
  pub allocate_block-ok :
      Grants allocator
      → (u : U) (n start : ℕ) → 32 ≤ n
      → n ≤ 65536
      → (b : Block) × (u' : U) × (allocate_block allocator u n ≡ ok (b, u'))
        × IsLast (record b { begin = start })
        × (b.limit ≡ 0)
        × (b.begin ≡ 0)
  unfolding allocate_block
  allocate_block-ok g u n start h i =
      let (size, small) = g u (n + block_header) (omega arith) in
      let raw = (allocator u (n + block_header)).0 in
      (
        record {
          begin = 0;
          limit = 0;
          capacity = length raw - block_header;
          memory = drop block_header raw;
        },
        (allocator u (n + block_header)).1,
        rw (lt→ltb block_header (length raw) (omega arith)) refl,
        omega (arith, length-drop block_header raw),
        refl,
        refl,
      )

  -- A new block follows the last one, and is the current one; the position does not move.
  pub expand_step :
      Grants allocator
      → (nb : NetworkBuffer U) (v : IsValid nb) → 0 < v.block.limit
      → nb.current + 1 ≡ length nb.chain
      → (nb' : NetworkBuffer U) × (expand_and_enter allocator nb ≡ ok nb')
        × IsExpanded nb (v.block.begin + v.block.limit) nb'
  unfolding expand
  expand_step g nb v p t =
      let (e, m, r) = at_tail v t in
      let last = v.block in
      let (b, u', a, lb, z, y) =
        allocate_block-ok g nb.userarg 2048 (last.begin + last.limit) (omega arith) (omega arith) in
      let new = record b { begin = last.begin + last.limit } in
      let (c, w, k, n) = grow nb.chain 0 nb.tail last new v.chain e v.tail p lb z refl in
      let nb' = record nb {
        capacity = nb.capacity + b.capacity;
        chain = grown nb.chain nb.tail last new;
        current = nb.tail + 1;
        tail = nb.tail + 1;
        userarg = u';
      } in
      (
        nb',
        rw (a, e) refl,
        record {
          chain = c;
          tail = omega (arith, k, v.tail);
          block = new;
          here = ap (λ i. get_elem? (grown nb.chain nb.tail last new) i) (omega arith) ∙ n;
          begin = refl;
          empty = z;
          room = omega (arith, lb, z);
          same = w;
          at = refl;
        },
      )

  pub expand_and_enter_lem :
      Grants allocator
      → (nb : NetworkBuffer U) (v : IsValid nb) → 0 < v.block.limit
      → nb.position ≡ v.block.begin + v.block.limit
      → nb.current + 1 ≡ length nb.chain
      → (nb' : NetworkBuffer U) × (expand_and_enter allocator nb ≡ ok nb') × IsReady nb nb'
  expand_and_enter_lem g nb v p q t =
      let (nb', e, x) = expand_step g nb v p t in
      (
        nb',
        e,
        (
          record {
            chain = x.chain;
            tail = x.tail;
            block = x.block;
            here = x.here;
            low = omega (arith, x.begin, x.at, q);
            high = omega (arith, x.begin, x.at, q);
          },
          omega (arith, x.begin, x.at, q, x.room),
          x.same,
          x.at,
        ),
      )

  pub allocate_if_needed_lem :
      Grants allocator
      → (nb : NetworkBuffer U) → IsValid nb
      → (nb' : NetworkBuffer U) × (allocate_if_needed allocator nb ≡ ok nb') × IsReady nb nb'
  unfolding allocate_if_needed
  allocate_if_needed_lem g nb v =
      elim (Bool-cases (nb.position == v.block.begin + v.block.capacity)) [
        | inr f ↦ (nb, rw (v.here, f) refl, (v, ground (arith, bounds v), refl, refl))
        | inl e ↦ elim (Bool-cases (ltb (nb.current + 1) (length nb.chain))) [
          | inl n ↦ (
            record nb { current = nb.current + 1 },
            rw (v.here, e, n) refl,
            enter_next nb v ((==_iff _ _).0 e) (ltb→lt _ _ n),
          )
          | inr n ↦
              let (nb', q, r) =
                expand_and_enter_lem g nb v
                  (omega (arith, (==_iff _ _).0 e, bounds v, at_tail v (last n)))
                  (omega (arith, (==_iff _ _).0 e, bounds v)) (last n) in
              (nb', rw (v.here, e, n) q, r)
        ]
      ]
    where
      last : ltb (nb.current + 1) (length nb.chain) ≡ false → nb.current + 1 ≡ length nb.chain
      last n = ground (arith, get_elem?-lt_length nb.chain nb.current v.block v.here)
