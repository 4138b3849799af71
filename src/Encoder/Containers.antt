-- ===== src/Encoder/Containers.antt =====
-- Containers, whose length is known only after their contents, and the marks of the signed region.
use libccnx_common.Prelude.{
  ℕ, ◌+◌, ◌/◌, ◌%◌, ◌≤◌, ◌≡◌, refl, ap, ◌∙◌, inr, List, [], ◌∷◌, ◌++◌, length, length-append, arith,
  ok, trap,
}
use libccnx_common.Prelude.Segments.{write_at, length-write_at, write_at-append_right}
use libccnx_common.Network.{NetworkBuffer, limit}
use libccnx_common.Network
use libccnx_common.Network.Sign
use libccnx_common.Network.Inv.{Grants, IsValid, contents, bounds}
use libccnx_common.Network.Integers.{big_endian, put_uint16_lem}
use libccnx_common.Network.Moves.{set_position-ok}
use libccnx_common.Encoder.{
  TlvEncoder, set_container_length, mark_signature_start, mark_signature_end, compute_signature,
  or_start, or_end, is_both, none_set,
}
use libccnx_common.Encoder.Appends.{tlv}

-- A uint16_t, big endian.
abbrev pub short : ℕ → List ℕ
short n = n / 256 % 256 ∷ n % 256 ∷ []

-- The bytes at the offset are replaced, within the buffer, and the position is what it was.
pub record IsPatched {U : Type 0} (nb : NetworkBuffer U) (offset : ℕ) (ys : List ℕ)
    (nb' : NetworkBuffer U) : Type 0 where
  pub valid : IsValid nb'
  pub stored : contents nb' ≡ write_at (contents nb) offset ys
  pub same : nb'.position ≡ nb.position

module _ {U Error Signature : Type 0} (allocator : U → ℕ → List ℕ × U) (g : Grants allocator) where
  -- On a valid buffer SetContainerLength of a container whose header is in the buffer returns: the two
  -- bytes behind its type are the length, and the other bytes and the position are unchanged.
  pub set_container_length_lem :
      (encoder : TlvEncoder U Error Signature) (offset n : ℕ)
      → IsValid encoder.buffer
      → offset + 4 ≤ length (contents encoder.buffer)
      → (nb : NetworkBuffer U) × (set_container_length allocator encoder offset n
          ≡ ok (record encoder { buffer = nb }))
        × IsPatched encoder.buffer (offset + 2) (short n) nb
  unfolding set_container_length Network.position
  set_container_length_lem encoder offset n v h =
      let (a, e, m) = set_position-ok encoder.buffer (offset + 2) v (omega arith) in
      let (b, e', w) =
        put_uint16_lem allocator g a n m.valid (inr (omega (arith, m.at, ap length m.same))) in
      let stored =
        w.stored
        ∙ ap (λ c. write_at c a.position (short n)) m.same
        ∙ ap (λ p. write_at (contents encoder.buffer) p (short n)) m.at in
      let long =
        ap length stored
        ∙ length-write_at (contents encoder.buffer) (offset + 2) (short n) (omega arith)
            (omega arith) in
      let (d, e'', m') =
        set_position-ok b encoder.buffer.position w.valid (omega (arith, long, v.high, bounds v)) in
      (
        d,
        rw (e, e', e'') refl,
        record { valid = m'.valid; stored = m'.same ∙ stored; same = m'.at },
      )

  -- If a valid buffer, with an allocator that grants what is asked for, ends in a container's
  -- header and its contents, SetContainerLength with the contents' length makes the end the TLV of
  -- the contents, whatever length the header had.
  pub set_container_length-tlv :
      (encoder : TlvEncoder U Error Signature) (before inside : List ℕ) (type old : ℕ)
      → IsValid encoder.buffer
      → contents encoder.buffer ≡ before ++ (big_endian 2 type ++ (big_endian 2 old ++ inside))
      → (nb : NetworkBuffer U) × (set_container_length allocator encoder
            (length before)
            (length inside)
          ≡ ok (record encoder { buffer = nb }))
        × IsValid nb
        × (nb.position ≡ encoder.buffer.position)
        × (contents nb ≡ before ++ tlv type inside)
  unfolding write_at
  set_container_length-tlv encoder before inside type old v s =
      let (nb, e, x) = set_container_length_lem encoder (length before) (length inside) v (
        omega (
          arith,
          ap length s,
          length-append before (big_endian 2 type ++ (big_endian 2 old ++ inside)),
        )) in
      (
        nb,
        e,
        x.valid,
        x.same,
        x.stored
            ∙ ap (λ c. write_at c (length before + 2) (short (length inside))) s
            ∙ patched (length inside),
      )
    where
      patched :
          (n : ℕ)
          → write_at
              (before ++ (big_endian 2 type ++ (big_endian 2 old ++ inside)))
              (length before + 2)
              (short n)
            ≡ before ++ (big_endian 2 type ++ (big_endian 2 n ++ inside))
      patched n =
          write_at-append_right before _ (length before + 2) 2 _ refl
          ∙ ap (λ r. before ++ r)
              (ap (λ k. big_endian 2 type ++ (n / 256 % 256 ∷ k % 256 ∷ inside)) (omega arith))

module _ {U Error Signature : Type 0} where
  -- After MarkSignatureStart, any change of the buffer and MarkSignatureEnd, ComputeSignature signs what
  -- lies between the two positions. Without one of the marks on a new encoder it traps.
  pub compute_signature-marks :
      (encoder : TlvEncoder U Error Signature) (nb : NetworkBuffer U)
      → encoder.signature_start_end_set ≡ none_set
      → (compute_signature
            (mark_signature_end (record (mark_signature_start encoder) { buffer = nb }))
          ≡ Sign.compute_signature nb encoder.buffer.position nb.position encoder.signer)
        × (compute_signature encoder ≡ trap)
        × (compute_signature (mark_signature_start encoder) ≡ trap)
        × (compute_signature (mark_signature_end encoder) ≡ trap)
  unfolding compute_signature mark_signature_start mark_signature_end or_start or_end is_both
      Network.position
  compute_signature-marks encoder nb e = (rw e refl, rw e refl, rw e refl, rw e refl)
