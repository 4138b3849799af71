-- ===== src/Utilities/Tests.antt =====
-- The theorems on the TLV utilities at concrete inputs.
use libccnx_common.Prelude.{
  ℕ, ◌+◌, ◌≡◌, refl, Bool, true, false, List, [], ◌∷◌, none, arith, length, length-replicate,
  replicate, Result, ok, ◌>>=◌,
}
use libccnx_common.Network.{NetworkBuffer}
use libccnx_common.Network.Inv.{Grants, IsValid}
use libccnx_common.Encoder.{TlvEncoder, none_set, append_array}
use libccnx_common.Encoder.Appends.{tlv, IsAtEnd, append_array-tlv}
use libccnx_common.Prelude.{ℤ, pos}
use libccnx_common.Utilities.{nested_encode}
use libccnx_common.Parc.{rest}
use libccnx_common.Parc.Laws.{rest-advanced}
use libccnx_common.Parc.Zipper.{Zipper, zipper, zipper_bytes, zipper-IsLawful}
use libccnx_common.Decoder.{TlvDecoder, get_value}
use libccnx_common.Decoder.Tlv.{get_value_lem}
use libccnx_common.Utilities.Decode.{TypeDecoder, decode_container}
use libccnx_common.Utilities.Fields.{Handler, Handles, decode_container-tlvs}
use libccnx_common.Utilities.Cut.{no_value, decode_container-cut}
use libccnx_common.Utilities.Loop.{decode_container-returns}
use libccnx_common.Utilities.Nested.{AppendsInside, nested_encode-tlv}

abbrev zeros : Unit {0} → ℕ → List ℕ × Unit {0}
zeros u n = (replicate n 0, u)

abbrev zero_byte : ℕ
zero_byte = 0

zeros-Grants : Grants zeros
zeros-Grants u n h =
    (omega (arith, length-replicate n zero_byte), omega (arith, length-replicate n zero_byte))

abbrev two : NetworkBuffer (Unit {0})
two = record {
  position = 2;
  capacity = 2;
  chain = record { begin = 0; limit = 2; capacity = 2; memory = 1 ∷ 2 ∷ [] } ∷ [];
  current = 0;
  tail = 0;
  userarg = tt;
  refcount = 1;
}

abbrev outer : TlvEncoder (Unit {0}) ℕ ℕ
outer = record {
  buffer = two;
  signature_start_end_set = none_set;
  signature_start = 0;
  signature_end = 0;
  error = none;
  signer = none;
}

two-IsValid : IsValid two
two-IsValid = record {
  chain = (refl, omega arith);
  tail = refl;
  block = record { begin = 0; limit = 2; capacity = 2; memory = 1 ∷ 2 ∷ [] };
  here = refl;
  low = omega arith;
  high = omega arith;
}

two-IsAtEnd : IsAtEnd two
two-IsAtEnd = record { valid = two-IsValid; end = refl }

-- One TLV of two bytes.
abbrev one_array : TlvEncoder (Unit {0}) ℕ ℕ → Result (TlvEncoder (Unit {0}) ℕ ℕ × ℤ)
one_array encoder = do
  (encoder', n) ← append_array zeros encoder 3 (8 ∷ 9 ∷ [])
  ok (encoder', pos n)

one_array-tlv :
    (encoder : TlvEncoder (Unit {0}) ℕ ℕ)
    → IsAtEnd encoder.buffer
    → AppendsInside encoder (tlv 3 (8 ∷ 9 ∷ [])) 6 (one_array encoder)
one_array-tlv encoder v =
    let (nb, e, v', s) = append_array-tlv zeros zeros-Grants encoder 3 (8 ∷ 9 ∷ []) v in
    (nb, rw e refl, v', s)

nested_encode-tlv_example :
    AppendsInside outer
      (0 ∷ 5 ∷ 0 ∷ 6 ∷ 0 ∷ 3 ∷ 0 ∷ 2 ∷ 8 ∷ 9 ∷ [])
      10
      (nested_encode zeros outer 5 one_array)
nested_encode-tlv_example =
    nested_encode-tlv zeros zeros-Grants outer 5 (tlv 3 (8 ∷ 9 ∷ [])) one_array two-IsAtEnd
      (omega arith) (omega arith) one_array-tlv

-- A decoder of these bytes.
abbrev over : List ℕ → TlvDecoder Zipper
over xs = record { buffer = ([], xs); error = none }

-- A callback that skips the value and counts it.
abbrev skip : TypeDecoder Zipper ℕ
skip decoder dictionary type n = do
  (value, d) ← get_value zipper decoder n
  ok (true, d, dictionary + 1)

abbrev counted : Handler ℕ
counted dictionary type value = (true, dictionary + 1)

skip-Handles : Handles zipper zipper_bytes skip counted
skip-Handles decoder dictionary type value more e =
    let (w, (b, q, a), _, _) =
      get_value_lem zipper zipper_bytes zipper-IsLawful decoder value more e in
    (
      record decoder { buffer = b },
      rw q refl,
      λ _. rest-advanced zipper zipper_bytes decoder.buffer b (length value) value more a refl e,
    )

-- Two fields, and their bytes.
abbrev two_fields : List (ℕ × List ℕ)
two_fields = (3, 8 ∷ 9 ∷ []) ∷ (4, []) ∷ []

decode_container-tlvs_example :
    (decoder' : TlvDecoder Zipper) × (decode_container zipper skip 3
        (over (0 ∷ 3 ∷ 0 ∷ 2 ∷ 8 ∷ 9 ∷ 0 ∷ 4 ∷ 0 ∷ 0 ∷ []))
        0
      ≡ ok (true, decoder', 2))
    × (◌≡◌ {A = Bool} true true → rest zipper zipper_bytes decoder'.buffer ≡ [])
decode_container-tlvs_example =
    decode_container-tlvs zipper zipper_bytes zipper-IsLawful skip counted two_fields 3
      (over (0 ∷ 3 ∷ 0 ∷ 2 ∷ 8 ∷ 9 ∷ 0 ∷ 4 ∷ 0 ∷ 0 ∷ [])) 0 skip-Handles (omega arith) (omega arith)
      refl

decode_container-cut_example :
    (decoder' : TlvDecoder Zipper) × (decode_container zipper skip 3
        (over (0 ∷ 3 ∷ 0 ∷ 2 ∷ 8 ∷ 9 ∷ 0 ∷ 4 ∷ 0 ∷ 0 ∷ 0 ∷ 5 ∷ 0 ∷ 9 ∷ 7 ∷ []))
        0
      ≡ ok (false, decoder', 2))
decode_container-cut_example =
    decode_container-cut zipper zipper_bytes zipper-IsLawful skip counted two_fields
      (0 ∷ 5 ∷ 0 ∷ 9 ∷ 7 ∷ []) 3
      (over (0 ∷ 3 ∷ 0 ∷ 2 ∷ 8 ∷ 9 ∷ 0 ∷ 4 ∷ 0 ∷ 0 ∷ 0 ∷ 5 ∷ 0 ∷ 9 ∷ 7 ∷ [])) 0 skip-Handles
      (omega arith) (no_value 5 9 (7 ∷ []) (omega arith) (omega arith) (omega arith) refl) refl
      (omega arith) refl

-- A callback that leaves the value where it is.
abbrev stay : TypeDecoder Zipper ℕ
stay decoder dictionary type n = ok (true, decoder, dictionary + n)

decode_container-returns_example :
    (success : Bool) × (decoder' : TlvDecoder Zipper) × (dictionary' : ℕ) × (decode_container zipper
        stay 6
        (over (0 ∷ 3 ∷ 0 ∷ 1 ∷ 8 ∷ []))
        0
      ≡ ok (success, decoder', dictionary'))
    × Unit {0}
decode_container-returns_example =
    decode_container-returns zipper zipper_bytes zipper-IsLawful (λ _. Unit {0}) stay 6
      (over (0 ∷ 3 ∷ 0 ∷ 1 ∷ 8 ∷ [])) 0
      (λ decoder dictionary type n i h. (true, decoder, dictionary + n, refl, omega arith, tt)) tt
      (omega arith)
