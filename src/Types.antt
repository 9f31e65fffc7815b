-- ===== src/Types.antt =====
-- include/imlp/types.hpp: limits, wire enumerations, error categories, frames and results.
-- A byte is a number below 256 and a span or vector of bytes a list of numbers.
use mathlib.Core.Option.{Option}
use industrial_memory_protoc.Prelude.{
  ℕ, ◌+◌, Bool, true, false, ◌&&◌, List, [], ◌∷◌, ◌==◌, if◌then◌else◌,
}

abbrev pub magic : List ℕ
magic = 0x49 ∷ 0x4d ∷ []

abbrev pub protocol_version : ℕ
protocol_version = 1

abbrev pub response_flag : ℕ
response_flag = 0x01

abbrev pub header_size : ℕ
header_size = 18

abbrev pub checksum_size : ℕ
checksum_size = 4

abbrev pub maximum_payload_size : ℕ
maximum_payload_size = 256

abbrev pub maximum_frame_size : ℕ
maximum_frame_size = header_size + maximum_payload_size + checksum_size

-- The enumeration has a fixed underlying type, so a cast can give it any other value of that type.
pub data Opcode : Type 0 where
  read_request write_request data_response write_acknowledgement error_response : Opcode
  unassigned : ℕ → Opcode

abbrev pub opcode_value : Opcode → ℕ
opcode_value Opcode.read_request = 0x01
opcode_value Opcode.write_request = 0x02
opcode_value Opcode.data_response = 0x81
opcode_value Opcode.write_acknowledgement = 0x82
opcode_value Opcode.error_response = 0xff
opcode_value (Opcode.unassigned n) = n

-- `static_cast<Opcode>`.
abbrev pub opcode_of_value : ℕ → Opcode
opcode_of_value n =
    if n == 0x01
    then Opcode.read_request
    else if n == 0x02
    then Opcode.write_request
    else if n == 0x81
    then Opcode.data_response
    else if n == 0x82
    then Opcode.write_acknowledgement
    else if n == 0xff
    then Opcode.error_response
    else Opcode.unassigned n

-- `==` of two opcodes compares the underlying values.
abbrev pub opcode_eq : Opcode → Opcode → Bool
opcode_eq a b = opcode_value a == opcode_value b

pub data Status : Type 0 where
  ok bad_request out_of_range write_disabled access_denied internal_error : Status
  unassigned : ℕ → Status

abbrev pub status_value : Status → ℕ
status_value Status.ok = 0
status_value Status.bad_request = 1
status_value Status.out_of_range = 2
status_value Status.write_disabled = 3
status_value Status.access_denied = 4
status_value Status.internal_error = 5
status_value (Status.unassigned n) = n

abbrev pub status_of_value : ℕ → Status
status_of_value n =
    if n == 0
    then Status.ok
    else if n == 1
    then Status.bad_request
    else if n == 2
    then Status.out_of_range
    else if n == 3
    then Status.write_disabled
    else if n == 4
    then Status.access_denied
    else if n == 5
    then Status.internal_error
    else Status.unassigned n

abbrev pub status_eq : Status → Status → Bool
status_eq a b = status_value a == status_value b

pub data CodecError : Type 0 where
  none truncated bad_magic unsupported_version unsupported_opcode unsupported_flags nonzero_reserved
        payload_too_large length_mismatch checksum_mismatch invalid_semantics :
      CodecError

abbrev pub is_none : CodecError → Bool
is_none CodecError.none = true
is_none _ = false

pub record Frame : Type 0 where
  pub version : ℕ
  pub opcode : Opcode
  pub flags : ℕ
  pub request_id : ℕ
  pub address : ℕ
  pub status : Status
  pub payload : List ℕ

pub record EncodeResult : Type 0 where
  pub bytes : List ℕ
  pub error : CodecError

-- `explicit operator bool` of each result.
abbrev pub is_encoded : EncodeResult → Bool
is_encoded r = is_none r.error

pub record DecodeResult : Type 0 where
  pub frame : Option Frame
  pub error : CodecError
  pub consumed : ℕ

abbrev pub has_value {ℓ} : {A : Type ℓ} → Option A → Bool
has_value Option.none = false
has_value (Option.some a) = true

abbrev pub is_decoded : DecodeResult → Bool
is_decoded r = is_none r.error && has_value r.frame

-- What the callers of `decode` work with: the frame, if the result counts as decoded.
abbrev pub accepted : DecodeResult → Option Frame
accepted r = if is_decoded r then r.frame else Option.none
