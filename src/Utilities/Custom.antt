-- ===== src/Utilities/Custom.antt =====
-- `ccnxCodecTlvUtilities_EncodeCustomList`: the TLVs of a list of a dictionary.
use libccnx_common.Prelude.{
  ℕ, ◌+◌, ◌≤◌, ◌<◌, ◌≡◌, refl, sym, ap, ◌∙◌, List, [], ◌∷◌, ◌++◌, map, length, length-append,
  append_assoc, append-nil, arith, some, ok,
}
use libccnx_common.Network.{NetworkBuffer}
use libccnx_common.Network.Inv.{Grants, contents}
use libccnx_common.Encoder.{TlvEncoder}
use libccnx_common.Encoder.Appends.{tlv, IsAtEnd, append_buffer-tlv}
use libccnx_common.Dictionary.{Values, Dictionary, ListEntry}
use libccnx_common.Dictionary.FastArray.{IsValid}
use libccnx_common.Dictionary.Lists.{by_position}
use libccnx_common.Dictionary.Lists.Views.{list_at}
use libccnx_common.Dictionary.Lists.Laws.{list_size_lem, list_get_by_position_lem}
use libccnx_common.Prelude.{pos}
use libccnx_common.Utilities.Decode.{encode_from, encode_custom_list}
use libccnx_common.Utilities.Fields.{tlvs}

-- The TLVs of the entries, the head of the list first.
abbrev pub entry_fields :
    {V : Values} → (V.Buffer → List ℕ) → List (ListEntry V) → List (ℕ × List ℕ)
entry_fields bytes entries = map (λ e. (e.key, bytes e.buffer)) entries

-- The buffers are short enough for the assertion of AppendBuffer.
abbrev pub HasShortBuffers : {V : Values} → (V.Buffer → List ℕ) → List (ListEntry V) → Type 0
HasShortBuffers bytes [] = Unit {0}
HasShortBuffers bytes (e ∷ entries) =
    (length (bytes e.buffer) ≤ 65535) × HasShortBuffers bytes entries

by_position_here :
    {V : Values} (before after : List (ListEntry V)) (e : ListEntry V)
    → by_position (before ++ (e ∷ after)) (length before) ≡ some (e.buffer, e.key)
unfolding by_position
by_position_here [] after e = refl
by_position_here (x ∷ before) after e = by_position_here before after e

module _ {V : Values} {U Error Signature : Type 0} (allocator : U → ℕ → List ℕ × U)
    (g : Grants allocator) (bytes : V.Buffer → List ℕ) where
  from_lem :
      (after before : List (ListEntry V)) (encoder : TlvEncoder U Error Signature)
      (d : Dictionary V) (k n : ℕ)
      → IsValid d
      → k < d.list_size
      → list_at d k ≡ before ++ after
      → IsAtEnd encoder.buffer
      → HasShortBuffers bytes after
      → (nb : NetworkBuffer U) × (encode_from allocator bytes
            (length after)
            (length before)
            encoder
            d
            k
            n
          ≡ ok (record encoder { buffer = nb }, pos (n + length (tlvs (entry_fields bytes after)))))
        × IsAtEnd nb
        × (contents nb ≡ contents encoder.buffer ++ tlvs (entry_fields bytes after))
  unfolding encode_from
  from_lem [] before encoder d k n v h e w s = (
    encoder.buffer,
    ap (λ i. ok (encoder, pos i)) (omega arith),
    w,
    sym (append-nil (contents encoder.buffer)),
  )
  from_lem (x ∷ after) before encoder d k n v h e w (s, ss) =
      let found =
        list_get_by_position_lem k (length before) v h
        ∙ ap (λ l. ok (by_position l (length before))) e
        ∙ ap ok (by_position_here before after x) in
      let first = tlv x.key (bytes x.buffer) in
      let (a, q, w', t) = append_buffer-tlv allocator g encoder x.key (bytes x.buffer) w s in
      let (b, r, w'', u) =
        from_lem after (before ++ (x ∷ [])) (record encoder { buffer = a }) d k (n + length first) v
          h (e ∙ sym (append_assoc before (x ∷ []) after)) w' ss in
      let l = length-append first (tlvs (entry_fields bytes after)) in
      let i : length (before ++ (x ∷ [])) ≡ length before + 1 = length-append before (x ∷ []) in
      (
        b,
        rw (found, q)
            (ap
                (λ j.
                  encode_from allocator bytes (length after) j (record encoder { buffer = a }) d k
                    (n + length first))
                (sym i)
              ∙ r
              ∙ ap (λ j. ok (record encoder { buffer = b }, pos j)) (omega (arith, l))),
        w'',
        u
            ∙ ap (λ c. c ++ tlvs (entry_fields bytes after)) t
            ∙ append_assoc (contents encoder.buffer) first (tlvs (entry_fields bytes after)),
      )

  -- At the end of a valid buffer, with an allocator that grants what is asked for, EncodeCustomList of a list of a
  -- valid dictionary, its buffers of at most 65535 bytes each, returns, and has appended the TLVs of the entries,
  -- the one that was put last first; it returns how many bytes they are, and nothing else of the encoder changes.
  pub encode_custom_list-tlvs :
      (encoder : TlvEncoder U Error Signature) (d : Dictionary V) (k : ℕ)
      → IsValid d
      → k < d.list_size
      → IsAtEnd encoder.buffer
      → HasShortBuffers bytes (list_at d k)
      → (nb : NetworkBuffer U) × (encode_custom_list allocator bytes encoder d k
          ≡ ok (
            record encoder { buffer = nb },
            pos (length (tlvs (entry_fields bytes (list_at d k)))),
          ))
        × IsAtEnd nb
        × (contents nb ≡ contents encoder.buffer ++ tlvs (entry_fields bytes (list_at d k)))
  unfolding encode_custom_list
  encode_custom_list-tlvs encoder d k v h w s =
      let (nb, q, w', t) = from_lem (list_at d k) [] encoder d k 0 v h refl w s in
      (
        nb,
        rw (list_size_lem k v h)
            (q ∙ ap (λ j. ok (record encoder { buffer = nb }, pos j)) (omega arith)),
        w',
        t,
      )
