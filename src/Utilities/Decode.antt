-- ===== src/Utilities/Decode.antt =====
-- ccnx/common/codec/ccnxCodec_TlvUtilities.c: the helpers of the decoders, and `EncodeCustomList`.
--
-- The buffers of a dictionary are the buffers that the decoder slices.
use libccnx_common.Prelude.{
  ℕ, zero, suc, ◌+◌, Bool, true, false, List, none, some, if◌then◌else◌, Result, ok, trap, stuck,
  ◌>>=◌,
}
use libccnx_common.Parc.{ParcBuffer}
use libccnx_common.Decoder.{
  TlvDecoder, ensure_remaining, get_type, get_length, get_value, get_container, get_var_int,
  is_empty,
}
use libccnx_common.Dictionary.{Values, Dictionary, put_buffer, put_integer}
use libccnx_common.Dictionary.Lists.{put_list_buffer, list_size, list_get_by_position}
use libccnx_common.Encoder.{TlvEncoder, append_buffer}
use libccnx_common.Prelude.{ℤ, pos, negsuc}

-- A callback that decodes the value of one TLV: the decoder, the dictionary, the type and the length.
abbrev pub TypeDecoder : Type 0 → Type 0 → Type 0
TypeDecoder B D = TlvDecoder B → D → ℕ → ℕ → Result (Bool × TlvDecoder B × D)

module _ {B D : Type 0} (P : ParcBuffer B) where
  -- `while (ccnxCodecTlvDecoder_EnsureRemaining(decoder, 4))`, in `fuel` rounds at most.
  unfoldable pub decode_container :
      TypeDecoder B D → ℕ → TlvDecoder B → D → Result (Bool × TlvDecoder B × D)
  decode_container type_decoder zero decoder dictionary = stuck
  decode_container type_decoder (suc fuel) decoder dictionary =
      if ensure_remaining P decoder 4
      then (do
        (type, d) ← get_type P decoder
        (length, d') ← get_length P d
        if ensure_remaining P d' length
            then (do
              (success, d'', dictionary') ← type_decoder d' dictionary type length
              elim success [
                | true ↦ decode_container type_decoder fuel d'' dictionary'
                | false ↦ ok (false, d'', dictionary')
              ])
            else ok (false, d', dictionary))
      else ok (is_empty P decoder, decoder, dictionary)

  -- The decoder that is created inside is given up after the call.
  unfoldable pub decode_subcontainer :
      TlvDecoder B
      → D
      → ℕ
      → (TlvDecoder B → D → Result (Bool × TlvDecoder B × D))
      → Result (Bool × TlvDecoder B × D)
  decode_subcontainer decoder dictionary length subcontainer_decoder = do
    (inner, d) ← get_container P decoder length
    elim inner [
      | none ↦ ok (false, d, dictionary)
      | some inner_decoder ↦ (do
        (success, _, dictionary') ← subcontainer_decoder inner_decoder dictionary
        ok (success, d, dictionary'))
    ]

module _ {V : Values} (P : ParcBuffer V.Buffer) where
  unfoldable pub put_as_integer :
      TlvDecoder V.Buffer
      → Dictionary V
      → ℕ
      → ℕ
      → Result (Bool × TlvDecoder V.Buffer × Dictionary V)
  put_as_integer decoder dictionary length key = do
    (value, d) ← get_var_int P decoder length
    elim value [
      | none ↦ ok (false, d, dictionary)
      | some v ↦ (do
        (dictionary', success) ← put_integer dictionary key v
        ok (success, d, dictionary'))
    ]

  -- PutBuffer and PutListBuffer assert that the buffer is not NULL.
  unfoldable pub put_as_buffer :
      TlvDecoder V.Buffer
      → Dictionary V
      → ℕ
      → ℕ
      → Result (Bool × TlvDecoder V.Buffer × Dictionary V)
  put_as_buffer decoder dictionary length key = do
    (buffer, d) ← get_value P decoder length
    elim buffer [
      | none ↦ trap
      | some b ↦ (do
        (dictionary', success) ← put_buffer dictionary key b
        ok (success, d, dictionary'))
    ]

  unfoldable pub put_as_list_buffer :
      TlvDecoder V.Buffer
      → Dictionary V
      → ℕ
      → ℕ
      → ℕ
      → Result (Bool × TlvDecoder V.Buffer × Dictionary V)
  put_as_list_buffer decoder dictionary type length list_key = do
    (buffer, d) ← get_value P decoder length
    elim buffer [
      | none ↦ trap
      | some b ↦ (do
        (dictionary', success) ← put_list_buffer dictionary list_key type b
        ok (success, d, dictionary'))
    ]

-- `bytes` gives the bytes that remain in a buffer of the dictionary.
module _ {V : Values} {U Error Signature : Type 0} (allocator : U → ℕ → List ℕ × U)
    (bytes : V.Buffer → List ℕ) where
  -- `for (int i = 0; i < size; i++)`, with `rounds` left.
  unfoldable pub encode_from :
      ℕ
      → ℕ
      → TlvEncoder U Error Signature
      → Dictionary V
      → ℕ
      → ℕ
      → Result (TlvEncoder U Error Signature × ℤ)
  encode_from zero i encoder dictionary list_key length = ok (encoder, pos length)
  encode_from (suc rounds) i encoder dictionary list_key length = do
    found ← list_get_by_position dictionary list_key i
    elim found [
      | none ↦ ok (encoder, negsuc 0)
      | some (buffer, key) ↦ (do
        (encoder', inner_length) ← append_buffer allocator encoder key (bytes buffer)
        encode_from rounds (i + 1) encoder' dictionary list_key (length + inner_length))
    ]

  unfoldable pub encode_custom_list :
      TlvEncoder U Error Signature → Dictionary V → ℕ → Result (TlvEncoder U Error Signature × ℤ)
  encode_custom_list encoder dictionary list_key = do
    size ← list_size dictionary list_key
    encode_from size 0 encoder dictionary list_key 0
