-- ===== src/Errors.antt =====
-- ccnx/common/codec/ccnxCodec_Error.c: the error of an encoder or a decoder, and the messages of the codes.
use Prim.Native.String.{String}
use libccnx_common.Prelude.{
  ◌%◌, ◌^◌, ℕ, ◌+◌, List, [], ◌∷◌, ◌==◌, ltb, if◌then◌else◌, Result, ok, assert, ◌>>◌,
}

pub data ErrorCode : Type 0 where
  err_no_error : ErrorCode
  err_version : ErrorCode
  err_packettype : ErrorCode
  err_beyond_packet_end : ErrorCode
  err_too_long : ErrorCode
  err_not_fixed_size : ErrorCode
  err_duplicate_field : ErrorCode
  err_empty_space : ErrorCode
  err_decode : ErrorCode
  err_packetlength_too_short : ErrorCode
  err_headerlength_too_short : ErrorCode
  err_packetlengthshorter : ErrorCode
  missing_mandatory : ErrorCode

-- The values of the enumeration.
unfoldable pub code_value : ErrorCode → ℕ
code_value err_no_error = 0
code_value err_version = 1
code_value err_packettype = 2
code_value err_beyond_packet_end = 3
code_value err_too_long = 4
code_value err_not_fixed_size = 5
code_value err_duplicate_field = 6
code_value err_empty_space = 7
code_value err_decode = 8
code_value err_packetlength_too_short = 9
code_value err_headerlength_too_short = 10
code_value err_packetlengthshorter = 11
code_value missing_mandatory = 12

-- `TlvErrorMessages`, up to its sentinel.
abbrev pub error_messages : List (ErrorCode × String)
error_messages =
    (err_no_error, "No error")
    ∷ (err_version, "Unsupported version")
    ∷ (err_packettype, "Unsupported packet type")
    ∷ (err_beyond_packet_end, "Field goes beyond end of packet")
    ∷ (err_too_long, "Length too long for parent container")
    ∷ (err_not_fixed_size, "Fixed size Type wrong Length")
    ∷ (err_duplicate_field, "Duplicate field")
    ∷ (err_empty_space, "The sum of child TLVs did not add up to parent container length")
    ∷ (missing_mandatory, "Missing mandatory field")
    ∷ (err_decode, "Decoding error")
    ∷ (err_packetlength_too_short, "Packet length less than 8")
    ∷ (err_headerlength_too_short, "Header length less than 8")
    ∷ (err_packetlengthshorter, "Packet length less than header length")
    ∷ []

unfoldable pub find_message : List (ErrorCode × String) → ErrorCode → String
unfolding code_value
find_message [] code = "No error message found"
find_message ((c, message) ∷ messages) code =
    let later = find_message messages code in
    if code_value c == code_value code then message else later

-- `ccnxCodecErrors_ErrorMessage`
unfoldable pub error_message : ErrorCode → String
unfolding find_message
error_message code = find_message error_messages code

pub record CodecError : Type 0 where
  pub code : ErrorCode
  pub function_name : String
  pub line : ℕ
  pub byte_offset : ℕ
  pub refcount : ℕ

unfoldable pub create : ErrorCode → String → ℕ → ℕ → CodecError
create code func line byte_offset = record {
  code = code;
  function_name = func;
  line = line;
  byte_offset = byte_offset;
  refcount = 1;
}

unfoldable pub acquire : CodecError → Result CodecError
acquire error = do
  assert (ltb 0 error.refcount)
  ok (record error { refcount = (error.refcount + 1) % 2 ^ 32 })

unfoldable pub get_byte_offset : CodecError → ℕ
get_byte_offset error = error.byte_offset

unfoldable pub get_error_code : CodecError → ErrorCode
get_error_code error = error.code

unfoldable pub get_function : CodecError → String
get_function error = error.function_name

unfoldable pub get_line : CodecError → ℕ
get_line error = error.line

unfoldable pub get_error_message : CodecError → String
unfolding error_message
get_error_message error = error_message error.code
