-- ===== src/SchemaV1/FixedHeader.antt =====
-- ccnx/common/codec/schema_v1/ccnxCodecSchemaV1_FixedHeaderEncoder.c and
-- ccnxCodecSchemaV1_FixedHeaderDecoder.c: the eight bytes at the start of a packet.
--
-- The dictionary holds the header's buffer itself, so a read of it moves the position that the dictionary sees.
pub mod Reads
pub mod Refusals
pub mod RoundTrip
use libccnx_common.Prelude.{
  ℕ, zero, suc, ◌+◌, ◌-◌, ◌*◌, ◌/◌, ◌%◌, Bool, true, false, not, List, [], ◌∷◌, Option, none, some,
  set, ltb, leb, ◌==◌, if◌then◌else◌, Result, ok, trap, fault, ◌>>=◌,
}
use Prim.Native.String.{String}
use libccnx_common.Parc.{ParcBuffer}
use libccnx_common.Errors.{
  ErrorCode, err_version, err_packetlength_too_short, err_headerlength_too_short,
  err_packetlengthshorter, err_decode,
}
use libccnx_common.Errors
use libccnx_common.Decoder.{TlvDecoder, ensure_remaining, get_value, set_error, position}
use libccnx_common.Dictionary.{
  Values, Dictionary, Entry, buffer, put_buffer, put_integer, get_buffer,
}
use libccnx_common.Encoder.{TlvEncoder, append_raw_array}
use libccnx_common.Prelude.{ℤ, pos, negsuc}
use libccnx_common.SchemaV1.{
  headers_fixed_header, headers_interest_return_code, message_hoplimit, packet_type_interest,
  packet_type_interest_return,
}

-- The header with the fields of an Interest, `CCNxCodecSchemaV1InterestHeader`.
pub record FixedHeader : Type 0 where
  pub version : ℕ
  pub packet_type : ℕ
  pub packet_length : ℕ
  pub hop_limit : ℕ
  pub return_code : ℕ
  pub flags : ℕ
  pub header_length : ℕ

-- The fields that a packet of the type does not have are sent as 0.
unfoldable pub for_type : FixedHeader → FixedHeader
for_type header =
    if header.packet_type == packet_type_interest
    then record header { return_code = 0 }
    else (if header.packet_type == packet_type_interest_return
        then header
        else record header { hop_limit = 0; return_code = 0; flags = 0 })

-- The bytes of the packed structure, its length in network order (`htons`).
unfoldable pub header_bytes : FixedHeader → List ℕ
header_bytes header =
    header.version
    ∷ header.packet_type
    ∷ header.packet_length / 256 % 256
    ∷ header.packet_length % 256
    ∷ header.hop_limit
    ∷ header.return_code
    ∷ header.flags
    ∷ header.header_length
    ∷ []

module _ {U Error Signature : Type 0} (allocator : U → ℕ → List ℕ × U) where
  unfoldable pub encode_header :
      TlvEncoder U Error Signature → FixedHeader → Result (TlvEncoder U Error Signature × ℕ)
  encode_header encoder header = if not (header.version == 1) then trap else (do
    (encoder', _) ← append_raw_array allocator encoder (header_bytes (for_type header))
    ok (encoder', 8))

-- `ccnxCodecError_Create` in Decode, and `ccnxCodecTlvDecoder_SetError`.
unfoldable pub fail : {B : Type 0} → TlvDecoder B → ErrorCode → ℕ → ℕ → TlvDecoder B
fail decoder code line offset =
    (set_error decoder
      (Errors.create code "ccnxCodecSchemaV1FixedHeaderDecoder_Decode" line offset)).0

-- The tests of the header, the first that fails setting the error.
unfoldable pub validate : {B : Type 0} → TlvDecoder B → Bool → ℕ → ℕ → ℕ → TlvDecoder B × Bool
validate decoder success version packet_length header_length =
    if not (version == 1)
    then (fail decoder err_version 108 0, false)
    else (if ltb packet_length 8
        then (fail decoder err_packetlength_too_short 113 1, false)
        else (if ltb header_length 8
            then (fail decoder err_headerlength_too_short 118 7, false)
            else (if ltb packet_length header_length
                then (fail decoder err_packetlengthshorter 123 1, false)
                else (decoder, success))))

-- `parcBuffer_SetPosition`, and a read.
unfoldable pub read_at : {B : Type 0} → ParcBuffer B → B → ℕ → (B → Result (ℕ × B)) → Result (ℕ × B)
read_at P b offset get = do b' ← P.set_position b offset; get b'

-- At least 8, or -1.
abbrev pub at_least_eight : ℤ → ℤ
at_least_eight (pos n) = if leb 8 n then pos n else negsuc 0
at_least_eight (negsuc n) = negsuc n

-- The int and the size_t are subtracted as size_t; the int that is returned has the value of the difference.
abbrev pub minus_eight : ℤ → ℤ
minus_eight (pos n) = if leb 8 n then pos (n - 8) else negsuc (7 - n)
minus_eight (negsuc n) = negsuc (n + 8)

module _ {V : Values} (P : ParcBuffer V.Buffer) where
  -- The buffer is put before it is read. The dictionary's entry is the same object, so that it is
  -- put here as the reads leave it.
  unfoldable pub decode :
      TlvDecoder V.Buffer → Dictionary V → Result (Bool × TlvDecoder V.Buffer × Dictionary V)
  decode decoder dictionary =
      if ensure_remaining P decoder 8
      then (do
        (value, d) ← get_value P decoder 8
        elim value [
          | none ↦ fault
          | some b ↦ (do
            (version, b1) ← read_at P b 0 P.get_uint8
            (packet_length, b2) ← read_at P b1 2 P.get_uint16
            (return_code, b3) ← read_at P b2 5 P.get_uint8
            (hop_limit, b4) ← read_at P b3 4 P.get_uint8
            (header_length, b5) ← read_at P b4 7 P.get_uint8
            (dictionary1, stored) ← put_buffer dictionary headers_fixed_header b5
            let (d', success) = validate d stored version packet_length header_length
            (dictionary2, _) ← put_integer dictionary1 message_hoplimit hop_limit
            (dictionary3, _) ← put_integer dictionary2 headers_interest_return_code return_code
            ok (success, d', dictionary3))
        ])
      else ok (false, fail decoder err_decode 143 (position P decoder), dictionary)

  -- The body that the getters share. The dictionary's buffer is left behind what was read.
  unfoldable pub get_field :
      ℕ → (V.Buffer → Result (ℕ × V.Buffer)) → Dictionary V → Result (ℤ × Dictionary V)
  get_field offset get dictionary = do
    fixed_header ← get_buffer dictionary headers_fixed_header
    elim fixed_header [
      | none ↦ ok (negsuc 0, dictionary)
      | some b ↦ (do
        (value, b') ← read_at P b offset get
        ok (
          pos value,
          record dictionary {
            direct_array = set dictionary.direct_array headers_fixed_header (buffer b');
          },
        ))
    ]

  unfoldable pub get_version : Dictionary V → Result (ℤ × Dictionary V)
  get_version dictionary = get_field 0 P.get_uint8 dictionary

  unfoldable pub get_packet_type : Dictionary V → Result (ℤ × Dictionary V)
  get_packet_type dictionary = get_field 1 P.get_uint8 dictionary

  unfoldable pub get_packet_length : Dictionary V → Result (ℤ × Dictionary V)
  get_packet_length dictionary = get_field 2 P.get_uint16 dictionary

  unfoldable pub get_header_length : Dictionary V → Result (ℤ × Dictionary V)
  get_header_length dictionary = do
    (length, dictionary') ← get_field 7 P.get_uint8 dictionary
    ok (at_least_eight length, dictionary')

  unfoldable pub get_optional_header_length : Dictionary V → Result (ℤ × Dictionary V)
  get_optional_header_length dictionary = do
    (length, dictionary') ← get_header_length dictionary
    ok (minus_eight length, dictionary')

  unfoldable pub get_hop_limit : Dictionary V → Result (ℤ × Dictionary V)
  get_hop_limit dictionary = get_field 4 P.get_uint8 dictionary

  unfoldable pub get_return_code : Dictionary V → Result (ℤ × Dictionary V)
  get_return_code dictionary = get_field 5 P.get_uint8 dictionary

  unfoldable pub get_flags : Dictionary V → Result (ℤ × Dictionary V)
  get_flags dictionary = get_field 6 P.get_uint8 dictionary
