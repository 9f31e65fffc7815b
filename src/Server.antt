-- ===== src/Server.antt =====
-- src/server.cpp and include/imlp/server.hpp: the simulator and its write policy.
pub mod Response
pub mod Handle
pub mod Contract
pub mod History
use Prim.Native.String.{String}
use mathlib.Core.Option.{Option}
use industrial_memory_protoc.Prelude.{
  ℕ, ◌+◌, ◌-◌, ◌*◌, ◌^◌, Bool, true, false, not, ◌&&◌, ◌||◌, List, [], ◌∷◌, ltb, leb, ◌==◌,
  if◌then◌else◌, length, take, bit_or, min,
}
use industrial_memory_protoc.Types.{
  Opcode, opcode_eq, Status, status_eq, Frame, EncodeResult, is_encoded, DecodeResult, accepted,
  protocol_version, response_flag, maximum_payload_size,
}
use industrial_memory_protoc.Codec.Words.{byte_at, ◌<<<◌}
use industrial_memory_protoc.Codec.Frames.{encode, decode}
use industrial_memory_protoc.Codec.Names.{codec_error_name}
use industrial_memory_protoc.Memory.{
  MemoryMap, make_memory_map, MemoryResult, is_ok, codes, read, write,
}

pub record ServerPolicy : Type 0 where
  pub writes_enabled : Bool
  pub write_allow_begin : ℕ
  pub write_allow_end : ℕ

-- The member initialisers.
abbrev pub default_policy : ServerPolicy
default_policy = record {
  writes_enabled = false;
  write_allow_begin = 0x0100;
  write_allow_end = 0x07ff;
}

pub record ServerEvent : Type 0 where
  pub request_decoded : Bool
  pub request_id : ℕ
  pub status : Status
  pub detail : String

pub record HandleResult : Type 0 where
  pub response : List ℕ
  pub event : ServerEvent

pub record MemoryServer : Type 0 where
  pub policy : ServerPolicy
  pub memory : MemoryMap

unfoldable pub make_memory_server : ServerPolicy → MemoryServer
make_memory_server policy = record { policy = policy; memory = make_memory_map }

unfoldable pub text_payload : String → List ℕ
text_payload text = let bytes = codes text in take (min (length bytes) maximum_payload_size) bytes

-- `length` is a size_t and the policy's bounds are 32 bits wide, so the sum in 64 bits is exact.
unfoldable pub write_is_allowed : ServerPolicy → ℕ → ℕ → Bool
write_is_allowed policy address len =
    if len == 0 || ltb address policy.write_allow_begin || ltb policy.write_allow_end address
    then false
    else let available = policy.write_allow_end - address + 1 in leb len available

unfoldable pub make_response : Frame → Opcode → Status → List ℕ → String → HandleResult
make_response request opcode status payload detail =
    let encoded = encode (record {
      version = protocol_version;
      opcode = opcode;
      flags = response_flag;
      request_id = request.request_id;
      address = request.address;
      status = status;
      payload = payload;
    }) in
    if not (is_encoded encoded)
    then record {
      response = [];
      event = record {
        request_decoded = true;
        request_id = request.request_id;
        status = Status.internal_error;
        detail = "response_encoding_failed";
      };
    }
    else record {
      response = encoded.bytes;
      event = record {
        request_decoded = true;
        request_id = request.request_id;
        status = status;
        detail = detail;
      };
    }

-- `(payload[0] << 8) | payload[1]`.
unfoldable pub requested_length : Frame → ℕ
requested_length request = bit_or (byte_at request.payload 0 <<< 8) (byte_at request.payload 1)

unfoldable pub handle_read : MemoryServer → Frame → HandleResult × MemoryServer
handle_read server request =
    let result = read server.memory request.address (requested_length request) in
    if is_ok result
    then (make_response request Opcode.data_response Status.ok result.bytes "read_ok", server)
    else (
      make_response request Opcode.error_response result.status (text_payload "read_rejected")
          "read_rejected",
      server,
    )

unfoldable pub handle_write : MemoryServer → Frame → HandleResult × MemoryServer
handle_write server request =
    if not server.policy.writes_enabled
    then (
      make_response request Opcode.error_response Status.write_disabled
          (text_payload "write_disabled") "write_disabled",
      server,
    )
    else if not (write_is_allowed server.policy request.address (length request.payload))
    then (
      make_response request Opcode.error_response Status.access_denied
          (text_payload "outside_write_allowlist") "outside_write_allowlist",
      server,
    )
    else let (status, memory) = write server.memory request.address request.payload in
      if not (status_eq status Status.ok)
      then (
        make_response request Opcode.error_response status (text_payload "memory_write_rejected")
            "memory_write_rejected",
        record server { memory = memory },
      )
      else (
        make_response request Opcode.write_acknowledgement Status.ok [] "write_ok",
        record server { memory = memory },
      )

-- What `handle` does with a decoded frame.
unfoldable pub handle_frame : MemoryServer → Frame → HandleResult × MemoryServer
handle_frame server request =
    if opcode_eq request.opcode Opcode.read_request
    then handle_read server request
    else if opcode_eq request.opcode Opcode.write_request
    then handle_write server request
    else (
      make_response request Opcode.error_response Status.bad_request
          (text_payload "request_opcode_required") "request_opcode_required",
      server,
    )

-- `MemoryServer::handle`: the result and the server after the call.
unfoldable pub handle : MemoryServer → List ℕ → HandleResult × MemoryServer
handle server bytes =
    let decoded = decode bytes in
    elim (accepted decoded) [
      | Option.none ↦ (
        record {
          response = [];
          event = record {
            request_decoded = false;
            request_id = 0;
            status = Status.bad_request;
            detail = codec_error_name decoded.error;
          };
        },
        server,
      )
      | Option.some request ↦ handle_frame server request
    ]
