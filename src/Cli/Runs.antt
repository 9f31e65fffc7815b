-- ===== src/Cli/Runs.antt =====
-- A run that reaches the client: `report` on a new client.
use industrial_memory_protoc.Prelude.{ℕ, ◌≡◌, refl, List, ◌++◌, arith, [], if◌then◌else◌}
use industrial_memory_protoc.Memory.Store.{make_memory_map-IsMap}
use industrial_memory_protoc.Server.{ServerPolicy, make_memory_server}
use industrial_memory_protoc.Transport.{TraceRecord, LoopbackTransport, make_loopback}
use industrial_memory_protoc.Client.Types.{OperationResult, Client}
use industrial_memory_protoc.Client.{make_client}
use industrial_memory_protoc.Client.Loopback.{Quiet}
use industrial_memory_protoc.Cli.Printing.{print_result, print_trace}
use industrial_memory_protoc.Cli.Commands.{Outcome, succeeded, fresh, report}

pub fresh-Quiet : (policy : ServerPolicy) → Quiet (fresh policy)
unfolding fresh make_client make_loopback make_memory_server
fresh-Quiet policy = record {
  is_map = make_memory_map-IsMap;
  request_id = omega arith;
  faults = refl;
  attempts = omega arith;
}

-- What a run that reaches the client comes to.
abbrev pub reported_run : ℕ → OperationResult → List TraceRecord → Outcome
reported_run status result trace = record {
  status = status;
  output = print_result result ++ print_trace trace;
  errors = [];
}

pub report-reported_run :
    (o : OperationResult × Client LoopbackTransport) (status : ℕ) (result : OperationResult)
    (trace : List TraceRecord)
    → o.0 ≡ result
    → o.1.transport.trace ≡ trace
    → (if succeeded result then 0 else 4) ≡ status
    → report o ≡ reported_run status result trace
unfolding report
report-reported_run o status result trace e f g = rw (e, f, g) refl
