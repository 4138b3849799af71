-- ===== src/Encoder/Tests.antt =====
-- The theorems on TLV encoders at a concrete encoder.
use libccnx_common.Prelude.{
  ℕ, ◌*◌, ◌-◌, ◌^◌, ◌≤◌, ◌<◌, ◌≡◌, ◌⊎◌, refl, List, [], ◌∷◌, none, some, arith, length-replicate,
  replicate, ok,
}
use libccnx_common.Network.{NetworkBuffer}
use libccnx_common.Network.Inv.{Grants, IsValid, contents}
use libccnx_common.Encoder.{
  TlvEncoder, none_set, compute_var_int_length, append_uint8, append_uint16, append_uint32,
  append_uint64, append_var_int, set_container_length,
}
use libccnx_common.Encoder.Appends.{IsAtEnd, Encodes, integers-tlv}
use libccnx_common.Encoder.VarInt.{append_var_int-tlv, var_int_length-least}
use libccnx_common.Encoder.Containers.{set_container_length-tlv}

abbrev zeros : Unit {0} → ℕ → List ℕ × Unit {0}
zeros u n = (replicate n 0, u)

abbrev zero_byte : ℕ
zero_byte = 0

zeros-Grants : Grants zeros
zeros-Grants u n h =
    (omega (arith, length-replicate n zero_byte), omega (arith, length-replicate n zero_byte))

-- Six bytes of a full block: one byte, a container's header with the length 0, and its one byte.
abbrev six_bytes : List ℕ
six_bytes = 9 ∷ 0 ∷ 5 ∷ 0 ∷ 0 ∷ 7 ∷ []

abbrev six : NetworkBuffer (Unit {0})
six = record {
  position = 6;
  capacity = 6;
  chain = record { begin = 0; limit = 6; capacity = 6; memory = six_bytes } ∷ [];
  current = 0;
  tail = 0;
  userarg = tt;
  refcount = 1;
}

abbrev encoder : TlvEncoder (Unit {0}) ℕ (List ℕ)
encoder = record {
  buffer = six;
  signature_start_end_set = none_set;
  signature_start = 0;
  signature_end = 0;
  error = none;
  signer = some (λ bytes. bytes);
}

six-IsValid : IsValid six
six-IsValid = record {
  chain = (refl, omega arith);
  tail = refl;
  block = record { begin = 0; limit = 6; capacity = 6; memory = six_bytes };
  here = refl;
  low = omega arith;
  high = omega arith;
}

six-IsAtEnd : IsAtEnd six
six-IsAtEnd = record { valid = six-IsValid; end = refl }

integers-tlv_example :
    Encodes encoder (0 ∷ 3 ∷ 0 ∷ 1 ∷ 200 ∷ []) (append_uint8 zeros encoder 3 200)
    × Encodes encoder (0 ∷ 3 ∷ 0 ∷ 2 ∷ 0 ∷ 200 ∷ []) (append_uint16 zeros encoder 3 200)
    × Encodes encoder (0 ∷ 3 ∷ 0 ∷ 4 ∷ 0 ∷ 0 ∷ 0 ∷ 200 ∷ []) (append_uint32 zeros encoder 3 200)
    × Encodes encoder
        (0 ∷ 3 ∷ 0 ∷ 8 ∷ 0 ∷ 0 ∷ 0 ∷ 0 ∷ 0 ∷ 0 ∷ 0 ∷ 200 ∷ [])
        (append_uint64 zeros encoder 3 200)
integers-tlv_example = integers-tlv zeros zeros-Grants encoder 3 200 six-IsAtEnd

append_var_int-tlv_example :
    Encodes encoder (0 ∷ 3 ∷ 0 ∷ 2 ∷ 1 ∷ 2 ∷ []) (append_var_int zeros encoder 3 258)
unfolding compute_var_int_length
append_var_int-tlv_example =
    append_var_int-tlv zeros zeros-Grants encoder 3 258 six-IsAtEnd (omega arith)

var_int_length-least_example :
    (1 ≤ compute_var_int_length 258)
    × (compute_var_int_length 258 ≤ 8)
    × (258 < 2 ^ (8 * compute_var_int_length 258))
    × (compute_var_int_length 258 ≡ 1 ⊎ 2 ^ (8 * (compute_var_int_length 258 - 1)) ≤ 258)
var_int_length-least_example = var_int_length-least 258 (omega arith)

set_container_length-tlv_example :
    (nb : NetworkBuffer (Unit {0})) × (set_container_length zeros encoder 1 1
      ≡ ok (record encoder { buffer = nb }))
    × IsValid nb
    × (nb.position ≡ 6)
    × (contents nb ≡ 9 ∷ 0 ∷ 5 ∷ 0 ∷ 1 ∷ 7 ∷ [])
set_container_length-tlv_example =
    set_container_length-tlv zeros zeros-Grants encoder (9 ∷ []) (7 ∷ []) 5 0 six-IsValid refl
