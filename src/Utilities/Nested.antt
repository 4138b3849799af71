-- ===== src/Utilities/Nested.antt =====
-- What `NestedEncode` leaves in the buffer.
use libccnx_common.Prelude.{
  ℕ, zero, suc, ◌+◌, ◌^◌, ◌≤◌, ◌<◌, ◌≡◌, refl, sym, ap, subst, ◌∙◌, List, [], ◌∷◌, ◌++◌,
  append_assoc, length, length-append, arith, Result, ok, le→leb,
}
use libccnx_common.Network
use libccnx_common.Network.{NetworkBuffer, sub_size}
use libccnx_common.Network.Inv.{Grants, IsValid, contents, limit_lem}
use libccnx_common.Network.Integers.{big_endian}
use libccnx_common.Network.Moves.{IsMoved, set_position-ok}
use libccnx_common.Encoder.{
  TlvEncoder, position, append_container, set_container_length, set_position,
}
use libccnx_common.Encoder.Appends.{IsAtEnd, tlv, header_lem}
use libccnx_common.Encoder.Containers.{set_container_length-tlv}
use libccnx_common.Prelude.{ℤ, pos, negsuc}
use libccnx_common.Utilities.{close_container, nested_encode}

-- The nested encoder appends the bytes and returns the length.
abbrev pub AppendsInside :
    {U Error Signature : Type 0}
    → TlvEncoder U Error Signature
    → List ℕ
    → ℕ
    → Result (TlvEncoder U Error Signature × ℤ)
    → Type 0
AppendsInside {U} encoder ys n r =
    (nb : NetworkBuffer U) × (r ≡ ok (record encoder { buffer = nb }, pos n))
    × IsAtEnd nb
    × (contents nb ≡ contents encoder.buffer ++ ys)

-- Zero or less.
abbrev pub IsFailure : ℤ → Type 0
IsFailure (pos zero) = Unit
IsFailure (pos (suc n)) = ⊥
IsFailure (negsuc n) = Unit

advanced : (end start n : ℕ) → end ≡ start + n → n < 2 ^ 64 → sub_size end start ≡ n
advanced end start n h k = omega arith

module _ {U Error Signature : Type 0} (allocator : U → ℕ → List ℕ × U) (g : Grants allocator) where
  -- At the end of a valid buffer, with an allocator that grants what is asked for, if the nested
  -- encoder returns and appends 1 to 65535 bytes wherever it starts, NestedEncode returns: it has
  -- appended the TLV of these bytes, and returns its whole length.
  pub nested_encode-tlv :
      (outer : TlvEncoder U Error Signature) (type : ℕ) (inside : List ℕ)
      (nested : TlvEncoder U Error Signature → Result (TlvEncoder U Error Signature × ℤ))
      → IsAtEnd outer.buffer
      → 0 < length inside
      → length inside ≤ 65535
      → ((encoder : TlvEncoder U Error Signature)
          → IsAtEnd encoder.buffer
          → AppendsInside encoder inside (length inside) (nested encoder))
      → AppendsInside outer
          (tlv type inside)
          (4 + length inside)
          (nested_encode allocator outer type nested)
  unfolding nested_encode append_container position Network.position
  nested_encode-tlv outer type [] nested v h k later = absurd (omega arith)
  nested_encode-tlv outer type (x ∷ inside) nested v h k later =
      let (a, b, e, e', v', s) = header_lem allocator g outer.buffer type 0 v in
      let (c, e'', v'', t) = later (record outer { buffer = b }) v' in
      let all =
        t
        ∙ ap (λ r. r ++ (x ∷ inside)) s
        ∙ append_assoc (contents outer.buffer) (big_endian 2 type ++ big_endian 2 0) (x ∷ inside) in
      let (d, q, w, p, u) =
        set_container_length-tlv allocator g (record outer { buffer = c }) (contents outer.buffer)
          (x ∷ inside) type 0 v''.valid all in
      let q' =
        subst
          (λ i.
            set_container_length allocator (record outer { buffer = c }) i (length (x ∷ inside))
            ≡ ok (record outer { buffer = d }))
          (sym v.end) q in
      let len = length-append (contents outer.buffer) (tlv type (x ∷ inside)) in
      let old =
        ap length all
        ∙ length-append (contents outer.buffer)
            (big_endian 2 type ++ (big_endian 2 0 ++ (x ∷ inside))) in
      (
        d,
        rw (e, e', e'', q')
            (ap (λ n. ok (record outer { buffer = d }, pos n))
              (advanced d.position outer.buffer.position (4 + length (x ∷ inside))
                (omega (arith, p, v''.end, old, v.end)) (omega arith))),
        record { valid = w; end = omega (arith, p, v''.end, old, ap length u, len) },
        u,
      )

  -- At the end of a valid buffer, with an allocator that grants what is asked for, if the nested
  -- encoder returns a length that is not positive, and has kept what was in the buffer before it,
  -- NestedEncode returns that length at the position where it began.
  pub nested_encode-rewind :
      (outer : TlvEncoder U Error Signature) (type : ℕ) (n : ℤ) (after : NetworkBuffer U)
      (nested : TlvEncoder U Error Signature → Result (TlvEncoder U Error Signature × ℤ))
      → IsAtEnd outer.buffer
      → IsFailure n
      → IsValid after
      → length (contents outer.buffer) ≤ length (contents after)
      → ((encoder : TlvEncoder U Error Signature)
          → nested encoder ≡ ok (record encoder { buffer = after }, n))
      → (nb : NetworkBuffer U) × (nested_encode allocator outer type nested
          ≡ ok (record outer { buffer = nb }, n))
        × IsMoved after outer.buffer.position nb
  unfolding nested_encode close_container append_container set_position position Network.position
  nested_encode-rewind outer type (pos (suc n)) after nested v f w h returns = absurd f
  nested_encode-rewind outer type (pos zero) after nested v f w h returns =
      let (a, b, e, e', v', s) = header_lem allocator g outer.buffer type 0 v in
      let (nb, q, m) = set_position-ok after outer.buffer.position w (omega (arith, v.end)) in
      (
        nb,
        rw
            (
              e,
              e',
              returns (record outer { buffer = b }),
              limit_lem after w,
              le→leb outer.buffer.position (length (contents after)) (omega (arith, v.end)),
              q,
            )
            refl,
        m,
      )
  nested_encode-rewind outer type (negsuc n) after nested v f w h returns =
      let (a, b, e, e', v', s) = header_lem allocator g outer.buffer type 0 v in
      let (nb, q, m) = set_position-ok after outer.buffer.position w (omega (arith, v.end)) in
      (
        nb,
        rw
            (
              e,
              e',
              returns (record outer { buffer = b }),
              limit_lem after w,
              le→leb outer.buffer.position (length (contents after)) (omega (arith, v.end)),
              q,
            )
            refl,
        m,
      )
