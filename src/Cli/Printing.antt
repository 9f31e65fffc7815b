-- ===== src/Cli/Printing.antt =====
-- `status_name`, and what the program writes to its output: `print_usage`, `print_result` and
-- `print_trace`. A text is the list of its characters' codes.
use Prim.Native.String.{String}
use industrial_memory_protoc.Prelude.{ℕ, List, [], ◌∷◌, ◌++◌, ◌==◌, if◌then◌else◌, length}
use industrial_memory_protoc.Types.{Status}
use industrial_memory_protoc.Memory.{codes}
use industrial_memory_protoc.Codec.Hex.{bytes_to_hex}
use industrial_memory_protoc.Transport.{TraceRecord}
use industrial_memory_protoc.Client.Types.{OperationResult}
use industrial_memory_protoc.Client.Names.{client_error_name}
use industrial_memory_protoc.Cli.Numbers.{decimal}

unfoldable pub status_name : Status → String
status_name Status.ok = "ok"
status_name Status.bad_request = "bad_request"
status_name Status.out_of_range = "out_of_range"
status_name Status.write_disabled = "write_disabled"
status_name Status.access_denied = "access_denied"
status_name Status.internal_error = "internal_error"
status_name (Status.unassigned n) = "unknown"

unfoldable pub print_usage : List ℕ
print_usage =
    codes "Industrial Memory Protocol Workbench (synthetic simulator only)\n"
    ++ codes "usage:\n"
    ++ codes "  imlp-cli inspect <frame-hex>\n"
    ++ codes "  imlp-cli encode-read <address> <length>\n"
    ++ codes "  imlp-cli read <address> <length>\n"
    ++ codes "  imlp-cli write <address> <payload-hex> --allow-writes\n"
    ++ codes "  imlp-cli demo\n"

unfoldable pub print_result : OperationResult → List ℕ
print_result result =
    codes "request_id="
    ++ decimal result.request_id
    ++ codes " client_error="
    ++ codes (client_error_name result.error)
    ++ codes " remote_status="
    ++ codes (status_name result.remote_status)
    ++ codes " attempts="
    ++ decimal result.attempts
    ++ codes " detail="
    ++ codes result.detail
    ++ (if length result.bytes == 0 then [] else codes " data=" ++ bytes_to_hex result.bytes)
    ++ codes "\n"

unfoldable pub print_trace : List TraceRecord → List ℕ
print_trace [] = []
print_trace (entry ∷ trace) =
    codes "trace="
    ++ decimal entry.sequence
    ++ codes " direction="
    ++ codes entry.direction
    ++ codes " outcome="
    ++ codes entry.outcome
    ++ codes " bytes="
    ++ bytes_to_hex entry.bytes
    ++ codes "\n"
    ++ print_trace trace
