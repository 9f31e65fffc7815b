-- ===== src/Client/Verdict.antt =====
-- What the client makes of a response: `validate_response`.
use Prim.Native.String.{String}
use mathlib.Core.Option.{Option}
use industrial_memory_protoc.Prelude.{ℕ, not, ◌||◌, List, [], ◌==◌, if◌then◌else◌, length}
use industrial_memory_protoc.Types.{Opcode, opcode_eq, Status, Frame, accepted}
use industrial_memory_protoc.Codec.Frames.{decode}
use industrial_memory_protoc.Codec.Names.{codec_error_name}
use industrial_memory_protoc.Client.Types.{ClientError, OperationResult, Client, increment}

-- A result with the members that the source leaves at their initialisers.
abbrev pub failed : ClientError → ℕ → ℕ → String → OperationResult
failed e request_id attempts detail = record {
  error = e;
  remote_status = Status.ok;
  request_id = request_id;
  attempts = attempts;
  bytes = [];
  detail = detail;
}

abbrev pub counted_protocol_error : {T : Type 0} → Client T → Client T
counted_protocol_error c = record c {
  metrics = record c.metrics { protocol_errors = increment c.metrics.protocol_errors };
}

-- The part of `validate_response` that follows a successful decode.
unfoldable pub validate_frame :
    {T : Type 0} → Client T → Frame → Frame → Opcode → ℕ → ℕ → OperationResult × Client T
validate_frame c request frame expected_opcode expected_length attempts =
    if not (frame.request_id == request.request_id) || not (frame.address == request.address)
    then (
      record {
        error = ClientError.correlation_mismatch;
        remote_status = frame.status;
        request_id = request.request_id;
        attempts = attempts;
        bytes = [];
        detail = "response request ID or address did not match";
      },
      counted_protocol_error c,
    )
    else if opcode_eq frame.opcode Opcode.error_response
    then (
      record {
        error = ClientError.remote_error;
        remote_status = frame.status;
        request_id = request.request_id;
        attempts = attempts;
        bytes = frame.payload;
        detail = "remote request rejected";
      },
      c,
    )
    else if not (opcode_eq frame.opcode expected_opcode)
        || not (length frame.payload == expected_length)
    then (
      record {
        error = ClientError.unexpected_response;
        remote_status = frame.status;
        request_id = request.request_id;
        attempts = attempts;
        bytes = [];
        detail = "response opcode or payload length did not match";
      },
      counted_protocol_error c,
    )
    else (
      record {
        error = ClientError.none;
        remote_status = frame.status;
        request_id = request.request_id;
        attempts = attempts;
        bytes = frame.payload;
        detail = "ok";
      },
      c,
    )

unfoldable pub validate_response :
    {T : Type 0} → Client T → Frame → List ℕ → Opcode → ℕ → ℕ → OperationResult × Client T
validate_response c request response expected_opcode expected_length attempts =
    let decoded = decode response in
    elim (accepted decoded) [
      | Option.none ↦ (
        failed ClientError.malformed_response request.request_id attempts
            (codec_error_name decoded.error),
        counted_protocol_error c,
      )
      | Option.some frame ↦ validate_frame c request frame expected_opcode expected_length attempts
    ]
