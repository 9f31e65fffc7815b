-- ===== src/Session.antt =====
-- The client, the loopback transport and the server together, over any sequence of calls: the caller
-- of include/imlp/client.hpp and include/imlp/transport.hpp, such as the demonstration of
-- apps/cli_main.cpp.
pub mod Device
pub mod Effects
pub mod Calls
pub mod Reads
pub mod Writes
pub mod Refinement
pub mod Faultless
pub mod Reference
use industrial_memory_protoc.Prelude.{ℕ, List, [], ◌∷◌, All, ◌≤◌}
use industrial_memory_protoc.Prelude.Bits.{IsByte, IsU32}
use industrial_memory_protoc.Memory.Store.{IsMap}
use industrial_memory_protoc.Transport.{ℤ, TransportFault, LoopbackTransport, push_fault, loopback}
use industrial_memory_protoc.Client.Types.{OperationResult, Client}
use industrial_memory_protoc.Client.{read, write}
use industrial_memory_protoc.Session.Device.{Call}

-- The results of the calls, one for each read and each write, and the client after them.
unfoldable pub run :
    List Call → Client LoopbackTransport → List OperationResult × Client LoopbackTransport
run [] c = ([], c)
run (Call.read address len deadline ∷ calls) c =
    let (result, after) = read loopback c address len deadline in
    let (results, last) = run calls after in (result ∷ results, last)
run (Call.write address content deadline ∷ calls) c =
    let (result, after) = write loopback c address content deadline in
    let (results, last) = run calls after in (result ∷ results, last)
run (Call.inject fault ∷ calls) c =
    run calls (record c { transport = push_fault c.transport fault })
