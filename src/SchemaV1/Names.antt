-- ===== src/SchemaV1/Names.antt =====
-- ccnx/common/codec/schema_v1/ccnxCodecSchemaV1_NameSegmentCodec.c and ccnxCodecSchemaV1_NameCodec.c: names on
-- the wire.
--
-- A name is the list of its segments, a segment its type and its value. The creation of a segment and of its
-- label, in ccnx/common/ccnx_NameSegment.c and ccnx/common/ccnx_NameLabel.c, and the append to a name, in
-- ccnx/common/ccnx_Name.c, are those of a build with validation. `bytes` gives the bytes that remain in
-- a buffer.
pub mod Decodes
pub mod Encodes
use libccnx_common.Prelude.{
  ℕ, zero, suc, ◌+◌, Bool, true, false, List, [], ◌∷◌, ◌++◌, Option, none, some, length, leb, ltb,
  ◌==◌, ◌||◌, if◌then◌else◌, Result, ok, fault, stuck, assert, ◌>>=◌, ◌>>◌,
}
use libccnx_common.Parc.{ParcBuffer}
use libccnx_common.Decoder.{
  TlvDecoder, ensure_remaining, peek_type, get_type, get_length, get_value, position,
}
use libccnx_common.Encoder.{TlvEncoder, append_buffer, append_container, set_container_length}
use libccnx_common.Encoder

pub record NameSegment (B : Type 0) : Type 0 where
  pub type : ℕ
  pub value : B

module _ {B U Error Signature : Type 0} (allocator : U → ℕ → List ℕ × U) (bytes : B → List ℕ) where
  unfoldable pub encode_segment :
      TlvEncoder U Error Signature → NameSegment B → Result (TlvEncoder U Error Signature × ℕ)
  encode_segment encoder segment = do
    assert (leb (length (bytes segment.value)) 65535)
    append_buffer allocator encoder segment.type (bytes segment.value)

  -- `for (int i = 0; i < segmentCount; i++)`
  unfoldable pub encode_segments :
      TlvEncoder U Error Signature
      → List (NameSegment B)
      → ℕ
      → Result (TlvEncoder U Error Signature × ℕ)
  encode_segments encoder [] inner_length = ok (encoder, inner_length)
  encode_segments encoder (segment ∷ segments) inner_length = do
    (encoder', n) ← encode_segment encoder segment
    encode_segments encoder' segments (inner_length + n)

  unfoldable pub encode_name :
      TlvEncoder U Error Signature
      → ℕ
      → List (NameSegment B)
      → Result (TlvEncoder U Error Signature × ℕ)
  encode_name encoder type name = do
    (encoder', container_length) ← append_container allocator encoder type 0
    (encoder'', inner_length) ← encode_segments encoder' name 0
    encoder''' ← set_container_length allocator encoder'' (Encoder.position encoder) inner_length
    ok (encoder''', container_length + inner_length)

-- `CCNxNameLabelType_BADNAME` and `CCNxNameLabelType_Unknown`
abbrev pub label_bad_name : ℕ
label_bad_name = 0

abbrev pub label_unknown : ℕ
label_unknown = 1048575

-- The type of the new label.
unfoldable pub label_create : ℕ → Option ℕ
label_create type = if type == label_bad_name || type == label_unknown then none else some type

module _ {B : Type 0} where
  unfoldable pub create_type_value : ℕ → B → Option (NameSegment B)
  create_type_value type value = elim (label_create type) [
    | none ↦ none
    | some label ↦ some (record { type = label; value = value })
  ]

  -- A value that is held by a segment is a valid buffer.
  unfoldable pub segment_is_valid : Option (NameSegment B) → Bool
  segment_is_valid none = false
  segment_is_valid (some segment) = true

  -- `parcLinkedList_Append`
  abbrev pub linked : List (NameSegment B) → Option (NameSegment B) → List (NameSegment B)
  linked name none = name
  linked name (some segment) = name ++ (segment ∷ [])

  unfoldable pub name_append :
      List (NameSegment B) → Option (NameSegment B) → Result (List (NameSegment B))
  name_append name segment = do assert (segment_is_valid segment); ok (linked name segment)

module _ {B : Type 0} (P : ParcBuffer B) where
  -- A NULL value would be used as a buffer; `ensure_remaining` excludes it.
  unfoldable pub decode_segment : TlvDecoder B → Result (Option (NameSegment B) × TlvDecoder B)
  decode_segment decoder =
      if ensure_remaining P decoder 4
      then (do
        (type, d) ← get_type P decoder
        (length, d') ← get_length P d
        if ensure_remaining P d' length
            then (do
              (value, d'') ← get_value P d' length
              elim value [ none ↦ fault | some b ↦ ok (create_type_value type b, d'') ])
            else ok (none, d'))
      else ok (none, decoder)

  -- `while (ccnxCodecTlvDecoder_Position(decoder) < nameEnd)`, in `fuel` rounds at most.
  unfoldable pub decode_segments :
      ℕ → TlvDecoder B → ℕ → List (NameSegment B) → Result (List (NameSegment B) × TlvDecoder B)
  decode_segments zero decoder name_end name = stuck
  decode_segments (suc fuel) decoder name_end name =
      if ltb (position P decoder) name_end
      then (do
        (segment, d) ← decode_segment decoder
        name' ← name_append name segment
        decode_segments fuel d name_end name')
      else ok (name, decoder)

  unfoldable pub decode_name_value :
      ℕ → TlvDecoder B → ℕ → Result (Option (List (NameSegment B)) × TlvDecoder B)
  decode_name_value fuel decoder length =
      if ensure_remaining P decoder length
      then (do
        (name, d) ← decode_segments fuel decoder (position P decoder + length) []
        ok (some name, d))
      else ok (none, decoder)

  unfoldable pub decode_name :
      ℕ → TlvDecoder B → ℕ → Result (Option (List (NameSegment B)) × TlvDecoder B)
  decode_name fuel decoder type =
      if ensure_remaining P decoder 4
      then (do
        (found, d) ← peek_type P decoder
        if found == type
            then (do
              (_, d') ← get_type P d
              (length, d'') ← get_length P d'
              decode_name_value fuel d'' length)
            else ok (none, d))
      else ok (none, decoder)
