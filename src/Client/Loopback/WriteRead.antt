-- ===== src/Client/Loopback/WriteRead.antt =====
-- A write over the loopback transport, and a read of what it stored.
use industrial_memory_protoc.Prelude.{
  ℕ, ◌≡◌, ◌≤◌, sym, ap, subst, ◌∙◌, false, List, arith, length, take, drop, All,
}
use industrial_memory_protoc.Prelude.Bits.{IsByte, IsU32}
use industrial_memory_protoc.Types.{Status}
use industrial_memory_protoc.Codec.Frames.{encode_output}
use industrial_memory_protoc.Memory.Store.{IsMap, length-copy, All-copy, slice-copy}
use industrial_memory_protoc.Server.{MemoryServer}
use industrial_memory_protoc.Transport.{ℤ, not_positive, LoopbackTransport, loopback}
use industrial_memory_protoc.Client.Types.{Client, ClientError, OperationResult}
use industrial_memory_protoc.Client.{allocate_request_id, read, write}
use industrial_memory_protoc.Client.Loopback.{Quiet, ready-Quiet, sent-Quiet}
use industrial_memory_protoc.Client.Operations.{ready}
use industrial_memory_protoc.Client.Loopback.Reads.{read-loopback}
use industrial_memory_protoc.Client.Loopback.WriteRequests.{IsWritable, stored}
use industrial_memory_protoc.Client.Loopback.Writes.{request, acknowledged, write-loopback}

module _ (c : Client LoopbackTransport) (q : Quiet c) (address : ℕ) (deadline : ℤ)
    (positive : not_positive deadline ≡ false) (within : IsU32 address) (content : List ℕ)
    (valid : All IsByte content) (low : 1 ≤ length content) (high : length content ≤ 256)
    (writable : IsWritable c.transport.server address (length content)) where
  abbrev wrote : Client LoopbackTransport
  wrote = (write loopback c address content deadline).1

  abbrev now : MemoryServer
  now = stored c.transport.server address content

  now-IsMap : IsMap now.memory
  now-IsMap = record {
    size = length-copy content address c.transport.server.memory.cells ∙ q.is_map.size;
    valid = All-copy content address c.transport.server.memory.cells valid q.is_map.valid;
  }

  wrote-Quiet : Quiet wrote
  unfolding allocate_request_id
  wrote-Quiet =
      let a = acknowledged c q address deadline positive within content valid low high writable in
      subst Quiet (sym (ap (λ o. o.1) a.0)) (
        sent-Quiet (ready c) (ready-Quiet c q) deadline positive
          (encode_output (request c q address deadline positive within content valid low high))
          (rw a.2 now-IsMap))

  -- After a write of 1 to 256 bytes, with a positive deadline, to a range that the policy and the
  -- regions let be written, over a transport without queued faults to a server with a well-formed map,
  -- from a client that may try at least once and whose next identifier has 32 bits: a read of the same
  -- range by the client that wrote, with a positive deadline of its own, succeeds and returns
  -- the content at its first attempt, under that client's next identifier, and keeps what the write
  -- left in the server.
  pub write-read :
      (later : ℤ)
      → not_positive later ≡ false
      → ((read loopback wrote address (length content) later).0 ≡ record {
        error = ClientError.none;
        remote_status = Status.ok;
        request_id = wrote.next_request_id;
        attempts = 1;
        bytes = content;
        detail = "ok";
      })
        × ((read loopback wrote address (length content) later).1.transport.server ≡ now)
  write-read later soon =
      let done =
        write-loopback c q address deadline positive within content valid low high writable in
      let got =
        read-loopback wrote wrote-Quiet address later soon within (length content) low high
          writable.below in
      let slice =
        slice-copy content address c.transport.server.memory.cells
          (omega (arith, writable.below, q.is_map.size)) in
      let cells = ap (λ v. take (length content) (drop address v.memory.cells)) done.1 ∙ slice in
      (
        got.0
            ∙ ap
                (λ (bytes : List ℕ).
                  let r : OperationResult = record {
                    error = ClientError.none;
                    remote_status = Status.ok;
                    request_id = wrote.next_request_id;
                    attempts = 1;
                    bytes = bytes;
                    detail = "ok";
                  } in
                  r)
                cells,
        got.1 ∙ done.1,
      )
