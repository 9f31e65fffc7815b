-- ===== src/Codec/Frames.antt =====
-- `is_supported_opcode`, `has_valid_semantics`, `encode` and `decode`.
use mathlib.Core.Option.{Option}
use industrial_memory_protoc.Prelude.{
  ℕ, ◌+◌, ◌-◌, ◌%◌, ◌^◌, Bool, true, false, not, ◌&&◌, ◌||◌, List, [], ◌∷◌, ◌++◌, ltb, ◌==◌,
  if◌then◌else◌, length, take, drop, bit_and,
}
use industrial_memory_protoc.Types.{
  magic, protocol_version, response_flag, header_size, checksum_size, maximum_payload_size, Opcode,
  opcode_value, opcode_of_value, opcode_eq, Status, status_value, status_of_value, status_eq,
  CodecError, Frame, EncodeResult, DecodeResult,
}
use industrial_memory_protoc.Codec.Words.{append_u16, append_u32, read_u16, read_u32, byte_at}
use industrial_memory_protoc.Codec.Crc.{crc32}

abbrev pub is_supported_opcode : Opcode → Bool
is_supported_opcode Opcode.read_request = true
is_supported_opcode Opcode.write_request = true
is_supported_opcode Opcode.data_response = true
is_supported_opcode Opcode.write_acknowledgement = true
is_supported_opcode Opcode.error_response = true
is_supported_opcode (Opcode.unassigned n) = false

-- `!=` of two truth values.
abbrev bool_ne : Bool → Bool → Bool
bool_ne true b = not b
bool_ne false b = b

-- `static_cast<uint8_t>(~flag)`.
abbrev pub complement8 : ℕ → ℕ
complement8 flag = 0xff - flag

unfoldable pub has_valid_semantics : Frame → Bool
has_valid_semantics f =
    let is_response = not (bit_and f.flags response_flag == 0) in
    let expects_response_flag =
      opcode_eq f.opcode Opcode.data_response
      || opcode_eq f.opcode Opcode.write_acknowledgement
      || opcode_eq f.opcode Opcode.error_response in
    if bool_ne is_response expects_response_flag
    then false
    else if not (bit_and f.flags (complement8 response_flag) == 0)
    then false
    else if opcode_eq f.opcode Opcode.read_request
    then status_eq f.status Status.ok && length f.payload == 2
    else if opcode_eq f.opcode Opcode.write_request
    then status_eq f.status Status.ok && not (length f.payload == 0)
    else if opcode_eq f.opcode Opcode.data_response
    then status_eq f.status Status.ok
    else if opcode_eq f.opcode Opcode.write_acknowledgement
    then status_eq f.status Status.ok && length f.payload == 0
    else opcode_eq f.opcode Opcode.error_response && not (status_eq f.status Status.ok)

abbrev pub encoding_failed : CodecError → EncodeResult
encoding_failed e = record { bytes = []; error = e }

-- The output vector before the checksum is appended, and with it.
unfoldable pub encode_body : Frame → List ℕ
encode_body f =
    let start =
      (((magic ++ f.version ∷ []) ++ opcode_value f.opcode ∷ []) ++ f.flags ∷ []) ++ 0 ∷ [] in
    let correlated = append_u32 (append_u32 start f.request_id) f.address in
    let header =
      append_u16 (append_u16 correlated (length f.payload % 2 ^ 16)) (status_value f.status) in
    header ++ f.payload

unfoldable pub encode_output : Frame → List ℕ
unfolding encode_body
encode_output f = append_u32 (encode_body f) (crc32 (encode_body f))

unfoldable pub encode : Frame → EncodeResult
encode f =
    if not (f.version == protocol_version)
    then encoding_failed CodecError.unsupported_version
    else if not (is_supported_opcode f.opcode)
    then encoding_failed CodecError.unsupported_opcode
    else if ltb maximum_payload_size (length f.payload)
    then encoding_failed CodecError.payload_too_large
    else if not (has_valid_semantics f)
    then encoding_failed CodecError.invalid_semantics
    else record { bytes = encode_output f; error = CodecError.none }

abbrev pub decoding_failed : CodecError → ℕ → DecodeResult
decoding_failed e consumed = record { frame = Option.none; error = e; consumed = consumed }

-- `std::equal` from the beginning of the span; a span that ends early is unequal.
abbrev pub begins_with : List ℕ → List ℕ → Bool
begins_with [] bytes = true
begins_with (m ∷ ms) [] = false
begins_with (m ∷ ms) (b ∷ bs) = m == b && begins_with ms bs

-- The aggregate that `decode` builds once the checksum agrees.
unfoldable pub decode_frame : List ℕ → Frame
decode_frame bytes = record {
  version = protocol_version;
  opcode = opcode_of_value (byte_at bytes 3);
  flags = byte_at bytes 4;
  request_id = read_u32 bytes 6;
  address = read_u32 bytes 10;
  status = status_of_value (read_u16 bytes 16);
  payload = take (read_u16 bytes 14) (drop header_size bytes);
}

-- `header_size + payload_size + checksum_size`.
abbrev pub expected_size : List ℕ → ℕ
expected_size bytes = header_size + read_u16 bytes 14 + checksum_size

unfoldable pub decode : List ℕ → DecodeResult
decode bytes =
    let size = expected_size bytes in
    if ltb (length bytes) header_size
    then decoding_failed CodecError.truncated 0
    else if not (begins_with magic bytes)
    then decoding_failed CodecError.bad_magic 0
    else if not (byte_at bytes 2 == protocol_version)
    then decoding_failed CodecError.unsupported_version 0
    else if not (is_supported_opcode (opcode_of_value (byte_at bytes 3)))
    then decoding_failed CodecError.unsupported_opcode 0
    else if not (bit_and (byte_at bytes 4) (complement8 response_flag) == 0)
    then decoding_failed CodecError.unsupported_flags 0
    else if not (byte_at bytes 5 == 0)
    then decoding_failed CodecError.nonzero_reserved 0
    else if ltb maximum_payload_size (read_u16 bytes 14)
    then decoding_failed CodecError.payload_too_large 0
    else if ltb (length bytes) size
    then decoding_failed CodecError.truncated 0
    else if not (length bytes == size)
    then decoding_failed CodecError.length_mismatch size
    else if not (crc32 (take (size - checksum_size) bytes) == read_u32 bytes (size - checksum_size))
    then decoding_failed CodecError.checksum_mismatch size
    else if not (has_valid_semantics (decode_frame bytes))
    then decoding_failed CodecError.invalid_semantics size
    else record {
      frame = Option.some (decode_frame bytes);
      error = CodecError.none;
      consumed = size;
    }
