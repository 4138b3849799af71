-- ===== src/Decoder/Tests.antt =====
-- The theorems on the decoder at concrete inputs.
use libccnx_common.Prelude.{
  ℕ, ◌≡◌, refl, sym, ap, List, [], ◌∷◌, arith, drop, some, none, Option, ok,
}
use libccnx_common.Encoder.Appends.{append_uint16-tlv}
use libccnx_common.Encoder.Fixture.{zeros, zeros-Grants, start, two_bytes_buffer-IsAtEnd}
use libccnx_common.Parc.Zipper.{Zipper, zipper, zipper_bytes, zipper-IsLawful}
use libccnx_common.Decoder.{TlvDecoder, get_uint16, get_uint32, buffer_to_var_int}
use libccnx_common.Decoder.Tlv.{Gives}
use libccnx_common.Decoder.Integers.{two_bytes, four_bytes}
use libccnx_common.Decoder.Misses.{get_of-other_length}
use libccnx_common.Decoder.RoundTrip.{get_of-append_of}
use libccnx_common.Decoder.VarInt.{IsVarInt, buffer_to_var_int_lem}
use libccnx_common.Utilities.VarInt

-- A decoder of these bytes.
abbrev over : List ℕ → TlvDecoder Zipper
over xs = record { buffer = ([], xs); error = none }

get_of-append_of_example :
    Gives zipper zipper_bytes
      (over (0 ∷ 3 ∷ 0 ∷ 2 ∷ 1 ∷ 2 ∷ []))
      6
      (some 258)
      (get_uint16 zipper (over (0 ∷ 3 ∷ 0 ∷ 2 ∷ 1 ∷ 2 ∷ [])) 3)
get_of-append_of_example =
    let (nb, q, _, s) =
      append_uint16-tlv {Error = ℕ} {Signature = ℕ} zeros zeros-Grants start 3 258
        two_bytes_buffer-IsAtEnd in
    get_of-append_of zeros zeros-Grants zipper zipper_bytes zipper-IsLawful two_bytes start
      (record start { buffer = nb }) 3 258 6 (over (0 ∷ 3 ∷ 0 ∷ 2 ∷ 1 ∷ 2 ∷ []))
      two_bytes_buffer-IsAtEnd (omega arith) (omega arith) q (sym (ap (λ c. drop 2 c) s))

get_of-other_length_example :
    Gives zipper zipper_bytes
      (over (0 ∷ 3 ∷ 0 ∷ 2 ∷ 8 ∷ 9 ∷ 7 ∷ 7 ∷ []))
      4
      none
      (get_uint32 zipper (over (0 ∷ 3 ∷ 0 ∷ 2 ∷ 8 ∷ 9 ∷ 7 ∷ 7 ∷ [])) 3)
get_of-other_length_example =
    get_of-other_length zipper zipper_bytes zipper-IsLawful four_bytes
      (over (0 ∷ 3 ∷ 0 ∷ 2 ∷ 8 ∷ 9 ∷ 7 ∷ 7 ∷ [])) 3 2 (8 ∷ 9 ∷ 7 ∷ 7 ∷ [])
      (λ (h : ◌≡◌ {A = ℕ} 2 4). omega arith) (omega arith) (omega arith) (omega arith) refl

buffer_to_var_int_lem_example :
    (o : Option ℕ) × (b' : Zipper) × (buffer_to_var_int zipper ([], 1 ∷ 2 ∷ []) 2 ≡ ok (o, b'))
    × (VarInt.get_var_int zipper.remaining zipper.get_uint8 ([], 1 ∷ 2 ∷ []) 2 ≡ ok (o, b'))
    × IsVarInt zipper zipper_bytes zipper-IsLawful ([], 1 ∷ 2 ∷ []) 2 o b'
buffer_to_var_int_lem_example =
    buffer_to_var_int_lem zipper zipper_bytes zipper-IsLawful ([], 1 ∷ 2 ∷ []) 2 (omega arith)
