-- ===== src/Tests/Session.antt =====
-- Witnesses of the sessions and of the client's counters.
use mathlib.Core.List.{map}
use industrial_memory_protoc.Prelude.{◌≡◌, refl, List, [], ◌∷◌, All, arith}
use industrial_memory_protoc.Transport.{
  pos, TransportFault, LoopbackTransport, make_loopback, loopback,
}
use industrial_memory_protoc.Memory.Store.{make_memory_map-IsMap}
use industrial_memory_protoc.Server.{make_memory_server}
use industrial_memory_protoc.Client.Types.{Client}
use industrial_memory_protoc.Client.{make_client, read, write}
use industrial_memory_protoc.Codec.Frames.{encode_output}
use industrial_memory_protoc.Client.Executes.{read_request, write_request}
use industrial_memory_protoc.Client.Accounts.{IsClient, Accounted, read-Accounted, write-Accounted}
use industrial_memory_protoc.Session.{run}
use industrial_memory_protoc.Session.Device.{Call, IsCall, Behaves}
use industrial_memory_protoc.Session.Calls.{IsSession}
use industrial_memory_protoc.Session.Refinement.{run-Behaves}
use industrial_memory_protoc.Session.Reference.{answer, device, IsOperation, run-device}
use industrial_memory_protoc.Tests.Samples.{writable}

-- Two read attempts over a loopback transport.
abbrev persistent : Client LoopbackTransport
persistent = make_client (make_loopback writable) 2

persistent-IsClient : IsClient persistent
unfolding make_client make_loopback
persistent-IsClient = record {
  metrics = record {
    operations = omega arith;
    transport_attempts = omega arith;
    reconnects = omega arith;
    retries = omega arith;
    timeouts = omega arith;
    protocol_errors = omega arith;
  };
  above = omega arith;
  below = omega arith;
  tries = omega arith;
}

persistent-IsSession : IsSession persistent
unfolding make_client make_loopback make_memory_server
persistent-IsSession = record { is_client = persistent-IsClient; is_map = make_memory_map-IsMap }

no_faults : persistent.transport.faults ≡ []
unfolding make_client make_loopback
no_faults = refl

-- A write, a read whose first response is damaged, and a write that is lost.
abbrev calls : List Call
calls =
    Call.write 0x100 (0xaa ∷ 0x55 ∷ []) (pos 50)
    ∷ Call.inject TransportFault.corrupt_response
    ∷ Call.read 0x100 2 (pos 50)
    ∷ Call.inject TransportFault.timeout
    ∷ Call.write 0x100 (0 ∷ []) (pos 50)
    ∷ []

calls-IsCall : All IsCall calls
calls-IsCall = (omega arith, (omega arith, omega arith))

run-Behaves_example :
    Behaves persistent.transport.server calls
      (run calls persistent).0
      (run calls persistent).1.transport.server
    × IsSession (run calls persistent).1
run-Behaves_example = run-Behaves calls persistent persistent-IsSession calls-IsCall

read-Accounted_example :
    Accounted loopback
      (encode_output (read_request persistent.next_request_id 0x100 4))
      (pos 50)
      persistent.maximum_read_attempts
      persistent
      (read loopback persistent 0x100 4 (pos 50))
read-Accounted_example = read-Accounted persistent persistent-IsClient loopback 0x100 (pos 50) 4

write-Accounted_example :
    Accounted loopback
      (encode_output (write_request persistent.next_request_id 0x100 (0xaa ∷ 0x55 ∷ [])))
      (pos 50)
      1
      persistent
      (write loopback persistent 0x100 (0xaa ∷ 0x55 ∷ []) (pos 50))
write-Accounted_example =
    write-Accounted persistent persistent-IsClient loopback 0x100 (pos 50) (0xaa ∷ 0x55 ∷ [])

-- A write, a read of what it stored, a write that the regions forbid, and a refused read.
abbrev operations : List Call
operations =
    Call.write 0x100 (0xaa ∷ 0x55 ∷ []) (pos 50)
    ∷ Call.read 0x100 2 (pos 50)
    ∷ Call.write 0 (0 ∷ []) (pos 50)
    ∷ Call.read 0x100 0 (pos 50)
    ∷ []

operations-IsOperation : All IsOperation operations
operations-IsOperation = (omega arith, (omega arith, (omega arith, (omega arith, tt))))

run-device_example :
    (map answer (run operations persistent).0, (run operations persistent).1.transport.server)
    ≡ device operations persistent.transport.server
run-device_example =
    run-device operations persistent persistent-IsSession no_faults operations-IsOperation
