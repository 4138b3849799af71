-- ===== src/Decoder/RoundTrip.antt =====
-- A decoder reads what an encoder has appended.
use libccnx_common.Prelude.{
  ℕ, ◌+◌, ◌*◌, ◌/◌, ◌%◌, ◌^◌, ◌≤◌, ◌<◌, ◌≡◌, sym, ap, subst, ◌∙◌, List, [], ◌∷◌, ◌++◌, length, drop,
  append-nil, arith, some, Result, ok, ok_pair,
}
use libccnx_common.Prelude.Segments.{drop-append_right}
use libccnx_common.Network.Inv.{Grants, contents}
use libccnx_common.Network.Integers.{big_endian}
use libccnx_common.Encoder.{
  TlvEncoder, append_buffer, append_uint8, append_uint16, append_uint32, append_uint64,
}
use libccnx_common.Encoder.Appends.{
  tlv, IsAtEnd, Encodes, append_buffer-tlv, append_uint8-tlv, append_uint16-tlv, append_uint32-tlv,
  append_uint64-tlv,
}
use libccnx_common.Parc.{ParcBuffer, rest, IsLawful}
use libccnx_common.Decoder.{TlvDecoder, get_buffer}
use libccnx_common.Decoder.Tlv.{Gives, get_buffer-tlv}
use libccnx_common.Decoder.Integers.{
  Width, one_byte, two_bytes, four_bytes, eight_bytes, size_of, get_of, get_of-tlv,
}

module _ {U Error Signature : Type 0} where
  -- What an append left in the buffer, behind what was there.
  pub appended_rest :
      (encoder encoder' : TlvEncoder U Error Signature) (count : ℕ) (ys : List ℕ)
      (r : Result (TlvEncoder U Error Signature × ℕ))
      → Encodes encoder ys r
      → r ≡ ok (encoder', count)
      → (drop (length (contents encoder.buffer)) (contents encoder'.buffer) ≡ ys ++ [])
        × (length ys ≡ count)
  appended_rest encoder encoder' count ys r (nb, e, _, s) q =
      let (x, y) = ok_pair r e q in
      (
        ap (λ k. drop (length (contents encoder.buffer)) (contents k.buffer)) (sym x)
            ∙ ap (λ l. drop (length (contents encoder.buffer)) l) s
            ∙ drop-append_right (length (contents encoder.buffer)) 0 (contents encoder.buffer) ys
                (omega arith)
            ∙ sym (append-nil ys),
        y,
      )

module _ {U Error Signature : Type 0} (allocator : U → ℕ → List ℕ × U) where
  -- The operation of the encoder for a width.
  abbrev pub append_of :
      Width → TlvEncoder U Error Signature → ℕ → ℕ → Result (TlvEncoder U Error Signature × ℕ)
  append_of one_byte = append_uint8 allocator
  append_of two_bytes = append_uint16 allocator
  append_of four_bytes = append_uint32 allocator
  append_of eight_bytes = append_uint64 allocator

module _ {U Error Signature : Type 0} (allocator : U → ℕ → List ℕ × U) (g : Grants allocator) where
  append_of-tlv :
      (width : Width) (encoder : TlvEncoder U Error Signature) (type value : ℕ)
      → IsAtEnd encoder.buffer
      → value < 2 ^ (8 * size_of width)
      → Encodes encoder
          (tlv type (big_endian (size_of width) value))
          (append_of allocator width encoder type value)
  append_of-tlv one_byte encoder type value v h =
      subst (λ x. Encodes encoder (tlv type (x ∷ [])) (append_uint8 allocator encoder type value))
        (omega arith) (append_uint8-tlv allocator g encoder type value v)
  append_of-tlv two_bytes encoder type value v h =
      subst
        (λ x.
          Encodes encoder (tlv type (value / 256 % 256 ∷ x ∷ []))
            (append_uint16 allocator encoder type value))
        (omega arith) (append_uint16-tlv allocator g encoder type value v)
  append_of-tlv four_bytes encoder type value v h =
      append_uint32-tlv allocator g encoder type value v
  append_of-tlv eight_bytes encoder type value v h =
      append_uint64-tlv allocator g encoder type value v

  module _ {B : Type 0} (P : ParcBuffer B) (bytes : B → List ℕ) (p : IsLawful P bytes) where
    -- If AppendUint8, AppendUint16, AppendUint32 or AppendUint64 has appended an integer of its width at the
    -- end of an encoder's valid buffer, then the getter of the same width, on a decoder of the appended bytes,
    -- returns the integer, and has read the count that the append returned.
    pub get_of-append_of :
        (width : Width) (encoder encoder' : TlvEncoder U Error Signature) (type value count : ℕ)
        (decoder : TlvDecoder B)
        → IsAtEnd encoder.buffer
        → type < 2 ^ 16
        → value < 2 ^ (8 * size_of width)
        → append_of allocator width encoder type value ≡ ok (encoder', count)
        → rest P bytes decoder.buffer
          ≡ drop (length (contents encoder.buffer)) (contents encoder'.buffer)
        → Gives P bytes decoder count (some value) (get_of P width decoder type)
    get_of-append_of width encoder encoder' type value count decoder v h k q e =
        let (s, n) =
          appended_rest encoder encoder' count _ _ (append_of-tlv width encoder type value v k) q in
        subst (λ m. Gives P bytes decoder m (some value) (get_of P width decoder type)) (n' width n)
          (get_of-tlv P bytes p width decoder type value [] h k (e ∙ s))
      where
        n' :
            (width : Width)
            → length (tlv type (big_endian (size_of width) value)) ≡ count
            → 4 + size_of width ≡ count
        n' one_byte n = n
        n' two_bytes n = n
        n' four_bytes n = n
        n' eight_bytes n = n

    -- If AppendBuffer has appended at most 65535 bytes at the end of an encoder's valid buffer, then GetBuffer,
    -- on a decoder of the appended bytes, returns a buffer of these bytes, and has read the count that the
    -- append returned.
    pub get_buffer-append_buffer :
        (encoder encoder' : TlvEncoder U Error Signature) (type count : ℕ) (value : List ℕ)
        (decoder : TlvDecoder B)
        → IsAtEnd encoder.buffer
        → type < 2 ^ 16
        → length value ≤ 65535
        → append_buffer allocator encoder type value ≡ ok (encoder', count)
        → rest P bytes decoder.buffer
          ≡ drop (length (contents encoder.buffer)) (contents encoder'.buffer)
        → (w : B) × Gives P bytes decoder count (some w) (get_buffer P decoder type)
          × (bytes w ≡ value)
    get_buffer-append_buffer encoder encoder' type count value decoder v h k q e =
        let (s, n) =
          appended_rest encoder encoder' count _ _
            (append_buffer-tlv allocator g encoder type value v k) q in
        let (w, f, t, _) = get_buffer-tlv P bytes p decoder type value [] h (omega arith) (e ∙ s) in
        (
          w,
          subst (λ m. Gives P bytes decoder m (some w) (get_buffer P decoder type))
              (omega (arith, n)) f,
          t,
        )
