-- ===== src/Network/Tests.antt =====
-- The theorems on network buffers at concrete buffers.
use libccnx_common.Prelude.{
  ℕ, ◌≤◌, ◌≡◌, refl, inl, List, [], ◌∷◌, some, arith, length-replicate, replicate, ok, fault,
}
use libccnx_common.Network.{NetworkBuffer}
use libccnx_common.Network.Put.{put_uint16, put_uint64, put_array}
use libccnx_common.Network.Position.{set_position, finalize}
use libccnx_common.Network.Read.{NetworkIoVec, create_parc_buffer, create_io_vec}
use libccnx_common.Network.Sign.{compute_signature}
use libccnx_common.Network.Inv.{Grants, IsValid}
use libccnx_common.Network.Writes.{Writes}
use libccnx_common.Network.Integers.{put_uint64_lem, put_uint16-fault}
use libccnx_common.Network.Arrays.{put_array_lem}
use libccnx_common.Network.Moves.{IsMoved, set_position-ok}
use libccnx_common.Network.Final.{IsFinal, finalize_lem}
use libccnx_common.Network.Readers.{IsVectorOf, create_parc_buffer_lem, create_io_vec_lem}
use libccnx_common.Network.Signatures.{signs_first, signs_nothing}

-- An allocator without a state, which hands out zeros.
abbrev zeros : Unit {0} → ℕ → List ℕ × Unit {0}
zeros u n = (replicate n 0, u)

abbrev zero_byte : ℕ
zero_byte = 0

zeros-Grants : Grants zeros
zeros-Grants u n h =
    (omega (arith, length-replicate n zero_byte), omega (arith, length-replicate n zero_byte))

-- Three bytes in one full block, with the position at `p`.
abbrev three_at : ℕ → NetworkBuffer (Unit {0})
three_at p = record {
  position = p;
  capacity = 3;
  chain = record { begin = 0; limit = 3; capacity = 3; memory = 1 ∷ 2 ∷ 3 ∷ [] } ∷ [];
  current = 0;
  tail = 0;
  userarg = tt;
  refcount = 1;
}

abbrev three_at-IsValid : (p : ℕ) → p ≤ 3 → IsValid (three_at p)
three_at-IsValid p h = record {
  chain = (refl, omega arith);
  tail = refl;
  block = record { begin = 0; limit = 3; capacity = 3; memory = 1 ∷ 2 ∷ 3 ∷ [] };
  here = refl;
  low = omega arith;
  high = omega arith;
}

put_uint64_lem_example :
    Writes (three_at 3) (0 ∷ 0 ∷ 0 ∷ 0 ∷ 0 ∷ 0 ∷ 1 ∷ 2 ∷ []) (put_uint64 zeros (three_at 3) 258)
put_uint64_lem_example =
    put_uint64_lem zeros zeros-Grants (three_at 3) 258 (three_at-IsValid 3 (omega arith)) (inl refl)

put_uint16-fault_example : put_uint16 zeros (three_at 2) 258 ≡ fault
put_uint16-fault_example =
    put_uint16-fault zeros zeros-Grants (three_at 2) 258 (three_at-IsValid 2 (omega arith)) refl
      refl refl

put_array_lem_example :
    Writes (three_at 2) (7 ∷ 8 ∷ 9 ∷ []) (put_array zeros (three_at 2) (7 ∷ 8 ∷ 9 ∷ []))
put_array_lem_example =
    put_array_lem zeros zeros-Grants (three_at 2) (7 ∷ 8 ∷ 9 ∷ [])
      (three_at-IsValid 2 (omega arith))

set_position-ok_example :
    (nb' : NetworkBuffer (Unit {0})) × (set_position (three_at 3) 1 ≡ ok nb')
    × IsMoved (three_at 3) 1 nb'
set_position-ok_example =
    set_position-ok (three_at 3) 1 (three_at-IsValid 3 (omega arith)) (omega arith)

finalize_lem_example :
    (nb' : NetworkBuffer (Unit {0})) × (finalize (three_at 2) ≡ ok nb') × IsFinal (three_at 2) nb'
finalize_lem_example = finalize_lem (three_at 2) (three_at-IsValid 2 (omega arith))

create_parc_buffer_lem_example : create_parc_buffer (three_at 0) ≡ ok (1 ∷ 2 ∷ 3 ∷ [])
create_parc_buffer_lem_example =
    create_parc_buffer_lem (three_at 0) (three_at-IsValid 0 (omega arith))

create_io_vec_lem_example :
    (vec : NetworkIoVec (Unit {0})) × (create_io_vec (three_at 1) ≡ ok vec)
    × IsVectorOf vec (three_at 1)
create_io_vec_lem_example =
    create_io_vec_lem (three_at 1) (three_at-IsValid 1 (omega arith)) (omega arith) (omega arith)
      (omega arith)

signs_first_example :
    compute_signature (three_at 0) 1 3 (some (λ bytes. bytes)) ≡ ok (some (2 ∷ 3 ∷ []))
signs_first_example =
    signs_first (three_at 0) _ [] 1 3 (λ bytes. bytes) (three_at-IsValid 0 (omega arith)) refl
      (omega arith) (omega arith) (omega arith)

signs_nothing_example : compute_signature (three_at 0) 3 3 (some (λ bytes. bytes)) ≡ ok (some [])
signs_nothing_example =
    signs_nothing (three_at 0) _ [] 3 3 (λ bytes. bytes) (three_at-IsValid 0 (omega arith)) refl
      (omega arith) (omega arith)
