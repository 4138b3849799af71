-- ===== src/Encoder/Appends.antt =====
-- What the appends of a TLV encoder write, at the end of its buffer.
use libccnx_common.Prelude.{
  ℕ, ◌+◌, ◌/◌, ◌%◌, ◌≤◌, ◌≡◌, ap, subst, ◌∙◌, inl, List, [], ◌∷◌, ◌++◌, append_assoc, length,
  length-append, arith, Result, ok, ◌>>=◌, le→leb,
}
use libccnx_common.Prelude.Segments.{write_at, write_at_end}
use libccnx_common.Network.{NetworkBuffer}
use libccnx_common.Network.Put
use libccnx_common.Network.Inv.{Grants, IsValid, contents}
use libccnx_common.Network.Writes.{Writes, put_uint8_lem}
use libccnx_common.Network.Integers.{big_endian, put_uint16_lem, put_uint32_lem, put_uint64_lem}
use libccnx_common.Network.Arrays.{put_array_lem, put_buffer_lem}
use libccnx_common.Encoder.{
  TlvEncoder, append_buffer, append_array, append_uint8, append_uint16, append_uint32,
  append_uint64,
}

-- A TLV: the type, the length of the value and the value.
abbrev pub tlv : ℕ → List ℕ → List ℕ
tlv type value = big_endian 2 type ++ (big_endian 2 (length value) ++ value)

-- The buffer is valid, and the position is at the end of its bytes.
pub record IsAtEnd {U : Type 0} (nb : NetworkBuffer U) : Type 0 where
  pub valid : IsValid nb
  pub end : nb.position ≡ length (contents nb)

-- The call returns, with the bytes appended.
abbrev pub Appends : {U : Type 0} → NetworkBuffer U → List ℕ → Result (NetworkBuffer U) → Type 0
Appends {U} nb ys r =
    (nb' : NetworkBuffer U) × (r ≡ ok nb') × IsAtEnd nb' × (contents nb' ≡ contents nb ++ ys)

module _ {U : Type 0} where
  pub appended :
      (nb : NetworkBuffer U) (ys : List ℕ) (r : Result (NetworkBuffer U))
      → IsAtEnd nb
      → Writes nb ys r
      → Appends nb ys r
  appended nb ys r v (nb', e, w) =
      let s =
        w.stored ∙ ap (λ i. write_at (contents nb) i ys) v.end ∙ write_at_end (contents nb) ys in
      (
        nb',
        e,
        record {
          valid = w.valid;
          end = omega (arith, w.moved, v.end, ap length s, length-append (contents nb) ys);
        },
        s,
      )

  -- One append after another.
  pub append_then :
      (nb nb' : NetworkBuffer U) (xs ys : List ℕ) (r : Result (NetworkBuffer U))
      → contents nb' ≡ contents nb ++ xs
      → Appends nb' ys r
      → Appends nb (xs ++ ys) r
  append_then nb nb' xs ys r s (nb'', e, v, t) =
      (nb'', e, v, t ∙ ap (λ c. c ++ ys) s ∙ append_assoc (contents nb) xs ys)

module _ {U : Type 0} (allocator : U → ℕ → List ℕ × U) (g : Grants allocator) where
  put_short :
      (nb : NetworkBuffer U) (value : ℕ)
      → IsAtEnd nb
      → Appends nb (big_endian 2 value) (Put.put_uint16 allocator nb value)
  put_short nb value v = appended nb _ _ v (
      subst (λ k. Writes nb (value / 256 % 256 ∷ k % 256 ∷ []) (Put.put_uint16 allocator nb value))
        (omega arith) (put_uint16_lem allocator g nb value v.valid (inl v.end)))

  -- The type and the length.
  pub header_lem :
      (nb : NetworkBuffer U) (type n : ℕ)
      → IsAtEnd nb
      → (nb' : NetworkBuffer U) × (nb'' : NetworkBuffer U) × (Put.put_uint16 allocator nb type
          ≡ ok nb')
        × (Put.put_uint16 allocator nb' n ≡ ok nb'')
        × IsAtEnd nb''
        × (contents nb'' ≡ contents nb ++ (big_endian 2 type ++ big_endian 2 n))
  header_lem nb type n v =
      let (nb', e, v', s) = put_short nb type v in
      let (nb'', e', v'', s') = put_short nb' n v' in
      (
        nb',
        nb'',
        e,
        e',
        v'',
        s'
            ∙ ap (λ c. c ++ big_endian 2 n) s
            ∙ append_assoc (contents nb) (big_endian 2 type) (big_endian 2 n),
      )

-- The call returns the encoder with the bytes behind those of its buffer, nothing else of it changed, and
-- how many they are.
abbrev pub Encodes :
    {U Error Signature : Type 0}
    → TlvEncoder U Error Signature
    → List ℕ
    → Result (TlvEncoder U Error Signature × ℕ)
    → Type 0
Encodes {U} encoder ys r =
    (nb : NetworkBuffer U) × (r ≡ ok (record encoder { buffer = nb }, length ys))
    × IsAtEnd nb
    × (contents nb ≡ contents encoder.buffer ++ ys)

module _ {U Error Signature : Type 0} (allocator : U → ℕ → List ℕ × U) (g : Grants allocator) where
  tlv_end :
      (encoder : TlvEncoder U Error Signature) (type : ℕ) (value : List ℕ)
      (nb nb' : NetworkBuffer U)
      → contents nb ≡ contents encoder.buffer ++ (big_endian 2 type ++ big_endian 2 (length value))
      → contents nb' ≡ contents nb ++ value
      → contents nb' ≡ contents encoder.buffer ++ tlv type value
  tlv_end encoder type value nb nb' s t =
      t
      ∙ ap (λ c. c ++ value) s
      ∙ append_assoc (contents encoder.buffer) (big_endian 2 type ++ big_endian 2 (length value))
          value

  -- A put of the value behind the type and its length.
  pub encode_tlv :
      (encoder : TlvEncoder U Error Signature) (type : ℕ) (value : List ℕ)
      (put : NetworkBuffer U → Result (NetworkBuffer U)) (count : ℕ)
      → IsAtEnd encoder.buffer
      → ((nb : NetworkBuffer U) → IsAtEnd nb → Appends nb value (put nb))
      → count ≡ 4 + length value
      → Encodes encoder (tlv type value) (do
        nb ← Put.put_uint16 allocator encoder.buffer type
        nb' ← Put.put_uint16 allocator nb (length value)
        nb'' ← put nb'
        ok (record encoder { buffer = nb'' }, count))
  encode_tlv encoder type value put count v later h =
      let (nb, nb', e, e', v', s) = header_lem allocator g encoder.buffer type (length value) v in
      let (nb'', e'', v'', t) = later nb' v' in
      (
        nb'',
        rw (e, e', e'') (ap (λ n. ok (record encoder { buffer = nb'' }, n)) (omega arith)),
        v'',
        tlv_end encoder type value nb' nb'' s t,
      )

  -- At the end of a valid buffer, with an allocator that grants what is asked for, AppendArray
  -- returns, and has appended the TLV of the array, and nothing else of the encoder changes.
  pub append_array-tlv :
      (encoder : TlvEncoder U Error Signature) (type : ℕ) (array : List ℕ)
      → IsAtEnd encoder.buffer
      → Encodes encoder (tlv type array) (append_array allocator encoder type array)
  unfolding append_array
  append_array-tlv encoder type array v =
      encode_tlv encoder type array (λ nb. Put.put_array allocator nb array) _ v
        (λ nb w. appended nb _ _ w (put_array_lem allocator g nb array w.valid)) (omega arith)

  -- At the end of a valid buffer, with an allocator that grants what is asked for, AppendBuffer of
  -- at most 65535 bytes returns, and has appended the TLV of the bytes, and nothing else of the
  -- encoder changes.
  pub append_buffer-tlv :
      (encoder : TlvEncoder U Error Signature) (type : ℕ) (remaining : List ℕ)
      → IsAtEnd encoder.buffer
      → length remaining ≤ 65535
      → Encodes encoder (tlv type remaining) (append_buffer allocator encoder type remaining)
  unfolding append_buffer
  append_buffer-tlv encoder type remaining v h = rw (le→leb (length remaining) 65535 h) (
      encode_tlv encoder type remaining (λ nb. Put.put_buffer allocator nb remaining) _ v
        (λ nb w. appended nb _ _ w (put_buffer_lem allocator g nb remaining w.valid)) (omega arith))

  pub append_uint8-tlv :
      (encoder : TlvEncoder U Error Signature) (type : ℕ) (value : ℕ)
      → IsAtEnd encoder.buffer
      → Encodes encoder (tlv type (value ∷ [])) (append_uint8 allocator encoder type value)
  unfolding append_uint8
  append_uint8-tlv encoder type value v =
      encode_tlv encoder type (value ∷ []) (λ nb. Put.put_uint8 allocator nb value) _ v
        (λ nb w. appended nb _ _ w (put_uint8_lem allocator g nb value w.valid)) (omega arith)

  pub append_uint16-tlv :
      (encoder : TlvEncoder U Error Signature) (type : ℕ) (value : ℕ)
      → IsAtEnd encoder.buffer
      → Encodes encoder
          (tlv type (value / 256 % 256 ∷ value % 256 ∷ []))
          (append_uint16 allocator encoder type value)
  unfolding append_uint16
  append_uint16-tlv encoder type value v =
      encode_tlv encoder type (value / 256 % 256 ∷ value % 256 ∷ [])
        (λ nb. Put.put_uint16 allocator nb value) _ v
        (λ nb w. appended nb _ _ w (put_uint16_lem allocator g nb value w.valid (inl w.end)))
        (omega arith)

  pub append_uint32-tlv :
      (encoder : TlvEncoder U Error Signature) (type : ℕ) (value : ℕ)
      → IsAtEnd encoder.buffer
      → Encodes encoder (tlv type (big_endian 4 value)) (append_uint32 allocator encoder type value)
  unfolding append_uint32
  append_uint32-tlv encoder type value v =
      encode_tlv encoder type (big_endian 4 value) (λ nb. Put.put_uint32 allocator nb value) _ v
        (λ nb w. appended nb _ _ w (put_uint32_lem allocator g nb value w.valid (inl w.end)))
        (omega arith)

  pub append_uint64-tlv :
      (encoder : TlvEncoder U Error Signature) (type : ℕ) (value : ℕ)
      → IsAtEnd encoder.buffer
      → Encodes encoder (tlv type (big_endian 8 value)) (append_uint64 allocator encoder type value)
  unfolding append_uint64
  append_uint64-tlv encoder type value v =
      encode_tlv encoder type (big_endian 8 value) (λ nb. Put.put_uint64 allocator nb value) _ v
        (λ nb w. appended nb _ _ w (put_uint64_lem allocator g nb value w.valid (inl w.end)))
        (omega arith)

  -- At the end of a valid buffer, with an allocator that grants what is asked for, AppendUint8,
  -- AppendUint16, AppendUint32 and AppendUint64 return, and have appended the TLV of the value in
  -- 1, 2, 4 and 8 bytes, big endian.
  pub integers-tlv :
      (encoder : TlvEncoder U Error Signature) (type value : ℕ)
      → IsAtEnd encoder.buffer
      → Encodes encoder (tlv type (value ∷ [])) (append_uint8 allocator encoder type value)
        × Encodes encoder
            (tlv type (value / 256 % 256 ∷ value % 256 ∷ []))
            (append_uint16 allocator encoder type value)
        × Encodes encoder
            (tlv type (big_endian 4 value))
            (append_uint32 allocator encoder type value)
        × Encodes encoder
            (tlv type (big_endian 8 value))
            (append_uint64 allocator encoder type value)
  integers-tlv encoder type value v = (
    append_uint8-tlv encoder type value v,
    append_uint16-tlv encoder type value v,
    append_uint32-tlv encoder type value v,
    append_uint64-tlv encoder type value v,
  )
