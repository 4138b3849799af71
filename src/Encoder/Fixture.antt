-- ===== src/Encoder/Fixture.antt =====
-- An encoder for the tests, at the end of a buffer that holds two bytes.
use libccnx_common.Prelude.{ℕ, refl, List, [], ◌∷◌, none, arith, length-replicate, replicate}
use libccnx_common.Network.{NetworkBuffer}
use libccnx_common.Network.Inv.{Grants, IsValid}
use libccnx_common.Encoder.{TlvEncoder, none_set}
use libccnx_common.Encoder.Appends.{IsAtEnd}

-- An allocator whose blocks are zero.
abbrev pub zeros : Unit {0} → ℕ → List ℕ × Unit {0}
zeros u n = (replicate n 0, u)

abbrev zero_byte : ℕ
zero_byte = 0

pub zeros-Grants : Grants zeros
zeros-Grants u n h =
    (omega (arith, length-replicate n zero_byte), omega (arith, length-replicate n zero_byte))

abbrev pub two_bytes_buffer : NetworkBuffer (Unit {0})
two_bytes_buffer = record {
  position = 2;
  capacity = 2;
  chain = record { begin = 0; limit = 2; capacity = 2; memory = 1 ∷ 2 ∷ [] } ∷ [];
  current = 0;
  tail = 0;
  userarg = tt;
  refcount = 1;
}

abbrev pub start : {Error : Type 0} → TlvEncoder (Unit {0}) Error ℕ
start = record {
  buffer = two_bytes_buffer;
  signature_start_end_set = none_set;
  signature_start = 0;
  signature_end = 0;
  error = none;
  signer = none;
}

two_bytes_buffer-IsValid : IsValid two_bytes_buffer
two_bytes_buffer-IsValid = record {
  chain = (refl, omega arith);
  tail = refl;
  block = record { begin = 0; limit = 2; capacity = 2; memory = 1 ∷ 2 ∷ [] };
  here = refl;
  low = omega arith;
  high = omega arith;
}

pub two_bytes_buffer-IsAtEnd : IsAtEnd two_bytes_buffer
two_bytes_buffer-IsAtEnd = record { valid = two_bytes_buffer-IsValid; end = refl }
