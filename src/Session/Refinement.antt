-- ===== src/Session/Refinement.antt =====
-- Every sequence of calls behaves as the device does.
use industrial_memory_protoc.Prelude.{◌∙◌, List, [], ◌∷◌, All}
use industrial_memory_protoc.Memory.Store.{IsMap, length-copy, All-copy}
use industrial_memory_protoc.Server.{MemoryServer}
use industrial_memory_protoc.Transport.{LoopbackTransport, loopback, push_fault}
use industrial_memory_protoc.Client.Types.{OperationResult, Client}
use industrial_memory_protoc.Client.{read, write}
use industrial_memory_protoc.Client.Accounts.{read-Accounted, write-Accounted}
use industrial_memory_protoc.Session.{run}
use industrial_memory_protoc.Session.Device.{
  Call, IsCall, Answers, read_ok, read_failed, write_ok, write_dropped, write_unacknowledged,
  Behaves, stops, answers, injects,
}
use industrial_memory_protoc.Session.Calls.{IsSession}
use industrial_memory_protoc.Session.Reads.{read-Answers}
use industrial_memory_protoc.Session.Writes.{write-Answers}

-- A call leaves a well-formed map.
Answers-IsMap :
    {s s' : MemoryServer} {call : Call} {r : OperationResult}
    → IsCall call
    → IsMap s.memory
    → Answers s call r s'
    → IsMap s'.memory
Answers-IsMap fine m (read_ok readable ok got e) = rw e m
Answers-IsMap fine m (read_failed bad e) = rw e m
Answers-IsMap {s} fine m (write_ok {address} {content} writable ok e) = rw e (record {
  size = length-copy content address s.memory.cells ∙ m.size;
  valid = All-copy content address s.memory.cells fine.1 m.valid;
})
Answers-IsMap fine m (write_dropped bad e) = rw e m
Answers-IsMap {s} fine m (write_unacknowledged {address} {content} bad writable e) = rw e (record {
  size = length-copy content address s.memory.cells ∙ m.size;
  valid = All-copy content address s.memory.cells fine.1 m.valid;
})

-- Whatever reads and writes a caller makes, with whatever faults queued in between, the results
-- that it gets and the memory that the server is left with are a behaviour of the device: every
-- read that succeeds returns the cells as the writes before it have left them, no read changes one,
-- a write that succeeds has stored its content where that is permitted, and one that fails has
-- stored all of its content, where that is permitted, or nothing. The session is one of a
-- well-formed client and a well-formed map and stays one, addresses have 32 bits and contents are
-- bytes; lengths and deadlines are arbitrary.
pub run-Behaves :
    (calls : List Call) (c : Client LoopbackTransport)
    → IsSession c
    → All IsCall calls
    → let (results, last) = run calls c in
      Behaves c.transport.server calls results last.transport.server × IsSession last
unfolding run push_fault
run-Behaves [] c q fine = (stops, q)
run-Behaves (Call.read address len deadline ∷ calls) c q fine =
    let after = (read loopback c address len deadline).1 in
    let step = read-Answers c q address deadline fine.0 len in
    let next : IsSession after = record {
      is_client = (read-Accounted c q.is_client loopback address deadline len).valid;
      is_map = Answers-IsMap fine.0 q.is_map step;
    } in
    let rest = run-Behaves calls after next fine.1 in (answers step rest.0, rest.1)
run-Behaves (Call.write address content deadline ∷ calls) c q fine =
    let after = (write loopback c address content deadline).1 in
    let step = write-Answers c q address deadline fine.0.0 content fine.0.1 in
    let next : IsSession after = record {
      is_client = (write-Accounted c q.is_client loopback address deadline content).valid;
      is_map = Answers-IsMap fine.0 q.is_map step;
    } in
    let rest = run-Behaves calls after next fine.1 in (answers step rest.0, rest.1)
run-Behaves (Call.inject fault ∷ calls) c q fine =
    let after : Client LoopbackTransport = record c { transport = push_fault c.transport fault } in
    let kept = q.is_client in
    let next : IsSession after = record {
      is_client = record {
        metrics = kept.metrics;
        above = kept.above;
        below = kept.below;
        tries = kept.tries;
      };
      is_map = q.is_map;
    } in
    let rest = run-Behaves calls after next fine.1 in (injects rest.0, rest.1)
