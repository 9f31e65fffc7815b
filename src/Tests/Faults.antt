-- ===== src/Tests/Faults.antt =====
-- Witnesses of the operations over a transport with queued faults.
use industrial_memory_protoc.Prelude.{refl, take, drop, inl, inr, ◌+◌, ◌≡◌, [], ◌∷◌, arith, length}
use industrial_memory_protoc.Types.{Status}
use industrial_memory_protoc.Transport.{
  TransportFault, push_fault, pos, LoopbackTransport, make_loopback, loopback,
}
use industrial_memory_protoc.Memory.Store.{make_memory_map-IsMap}
use industrial_memory_protoc.Server.{make_memory_server}
use industrial_memory_protoc.Client.Loopback.Retries.{Recovers, read-outages}
use industrial_memory_protoc.Client.Loopback.GivesUp.{Fails, Exhausts, read-gives_up}
use industrial_memory_protoc.Client.Loopback.WriteRequests.{IsWritable, stored}
use industrial_memory_protoc.Client.Loopback.Damaged.{
  damage_error, Spoiled, write-damaged, read-damaged,
}
use industrial_memory_protoc.Client.Types.{ClientError, Client}
use industrial_memory_protoc.Client.{make_client, read, write}
use industrial_memory_protoc.Tests.Samples.{writable}

-- Three read attempts, over a transport that will time out and then disconnect.
abbrev unlucky : Client LoopbackTransport
unlucky =
    make_client
      (push_fault (push_fault (make_loopback writable) TransportFault.timeout)
        TransportFault.disconnect)
      3

unlucky-Recovers : Recovers unlucky
unfolding make_client make_loopback make_memory_server push_fault
unlucky-Recovers = record {
  is_map = make_memory_map-IsMap;
  request_id = omega arith;
  outages = (inl refl, (inr refl, tt));
  enough = omega arith;
}

read-outages_example :
    ((read loopback unlucky 0 4 (pos 50)).0 ≡ record {
      error = ClientError.none;
      remote_status = Status.ok;
      request_id = unlucky.next_request_id;
      attempts = length unlucky.transport.faults + 1;
      bytes = take 4 (drop 0 unlucky.transport.server.memory.cells);
      detail = "ok";
    })
    × ((read loopback unlucky 0 4 (pos 50)).1.transport.server ≡ unlucky.transport.server)
read-outages_example =
    read-outages unlucky unlucky-Recovers 0 (pos 50) refl (omega arith) 4 (omega arith)
      (omega arith) (omega arith)

-- A transport that will corrupt a response.
abbrev garbled : Client LoopbackTransport
garbled = make_client (push_fault (make_loopback writable) TransportFault.corrupt_response) 3

garbled-Spoiled : Spoiled garbled TransportFault.corrupt_response []
unfolding make_client make_loopback make_memory_server push_fault
garbled-Spoiled = record {
  is_map = make_memory_map-IsMap;
  request_id = omega arith;
  faults = refl;
  damages = inr (inl refl);
}

garbled-IsWritable : IsWritable garbled.transport.server 0x100 2
unfolding make_client make_loopback make_memory_server push_fault
garbled-IsWritable = record {
  enabled = refl;
  begins = omega arith;
  ends = omega arith;
  above = omega arith;
  below = omega arith;
}

write-damaged_example :
    let (result, after) = write loopback garbled 0x100 (0xaa ∷ 0x55 ∷ []) (pos 50) in
    (result.error ≡ damage_error TransportFault.corrupt_response)
    × (result.attempts ≡ 1)
    × (result.bytes ≡ [])
    × (after.transport.server ≡ stored garbled.transport.server 0x100 (0xaa ∷ 0x55 ∷ []))
write-damaged_example =
    write-damaged garbled TransportFault.corrupt_response [] garbled-Spoiled 0x100 (pos 50) refl
      (omega arith) (0xaa ∷ 0x55 ∷ []) (omega arith) (omega arith) (omega arith) garbled-IsWritable

read-damaged_example :
    let (result, after) = read loopback garbled 0 4 (pos 50) in
    (result.error ≡ damage_error TransportFault.corrupt_response)
    × (result.attempts ≡ 1)
    × (result.bytes ≡ [])
    × (after.transport.server ≡ garbled.transport.server)
unfolding make_client
read-damaged_example =
    read-damaged garbled TransportFault.corrupt_response [] garbled-Spoiled 0 (pos 50) refl
      (omega arith) 4 (omega arith) (omega arith) (omega arith)

-- Two read attempts, and two outages in front of a third.
abbrev hopeless : Client LoopbackTransport
hopeless = record unlucky {
  maximum_read_attempts = 2;
  transport = push_fault unlucky.transport TransportFault.timeout;
}

hopeless-Exhausts :
    Exhausts hopeless
      (TransportFault.timeout ∷ [])
      TransportFault.disconnect
      (TransportFault.timeout ∷ [])
unfolding make_client make_loopback make_memory_server push_fault
hopeless-Exhausts = record {
  faults = refl;
  outages = (inl refl, tt);
  final = inr refl;
  enough = omega arith;
}

read-gives_up_example :
    Fails TransportFault.disconnect 2
      (TransportFault.timeout ∷ [])
      hopeless
      (read loopback hopeless 0 4 (pos 50))
read-gives_up_example =
    read-gives_up hopeless (TransportFault.timeout ∷ []) TransportFault.disconnect
      (TransportFault.timeout ∷ []) hopeless-Exhausts 0 4 (pos 50) refl (omega arith) (omega arith)
