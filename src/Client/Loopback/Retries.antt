-- ===== src/Client/Loopback/Retries.antt =====
-- Reads over a loopback transport whose next exchanges fail.
use industrial_memory_protoc.Prelude.{
  zero, suc, ◌-◌, List, [], ◌∷◌, All, length, ℕ, ◌+◌, ◌≤◌, ◌<◌, ◌≡◌, refl, ap, ◌∙◌, false, arith,
  take, drop,
}
use industrial_memory_protoc.Prelude.Bits.{IsU32}
use industrial_memory_protoc.Types.{Opcode, Status, Frame, accepted}
use industrial_memory_protoc.Codec.Frames.{encode_output, decode}
use industrial_memory_protoc.Server.{MemoryServer, handle}
use industrial_memory_protoc.Server.Response.{reply_frame}
use industrial_memory_protoc.Transport.Faults.{IsOutage}
use industrial_memory_protoc.Memory.Store.{IsMap}
use industrial_memory_protoc.Transport.{
  TransportFault, close, ℤ, not_positive, LoopbackTransport, loopback,
}
use industrial_memory_protoc.Client.Types.{Client, ClientError}
use industrial_memory_protoc.Client.{
  after_failure, read_loop, exchange_once, allocate_request_id, read,
}
use industrial_memory_protoc.Client.Verdict.{validate_response}
use industrial_memory_protoc.Client.Traffic.{sent, replied, after_failure_lem}
use industrial_memory_protoc.Client.Executes.{
  execute_read_lem, read_request, read_request-Encodable,
}
use industrial_memory_protoc.Client.Operations.{ready, read-execute_read}
use industrial_memory_protoc.Client.Loopback.Requests.{data_reply, read_granted}
use industrial_memory_protoc.Client.Rounds.{
  try_judged, try_again, undelivered, retried, loop_finished, loop_again,
}
use industrial_memory_protoc.Client.Loopback.{outage_lem, linked_lem, replied_lem, judged_reply}

close_lem : (t : LoopbackTransport) → ((close t).faults ≡ t.faults) × ((close t).server ≡ t.server)
unfolding close
close_lem t = (refl, refl)

module _ (request : Frame) (len : ℕ) (deadline : ℤ) (positive : not_positive deadline ≡ false) where
  abbrev wire : List ℕ
  wire = encode_output request

  abbrev pub shut : Client LoopbackTransport → Client LoopbackTransport
  shut c =
      after_failure loopback (sent loopback c wire deadline)
        (replied loopback c wire deadline).error

  -- A round that meets an outage uses it up.
  pub shut_lem :
      (c : Client LoopbackTransport) (fault : TransportFault) (rest : List TransportFault)
      → c.transport.faults ≡ fault ∷ rest
      → IsOutage fault
      → ((shut c).transport.faults ≡ rest)
        × ((shut c).transport.server ≡ c.transport.server)
        × ((shut c).maximum_read_attempts ≡ c.maximum_read_attempts)
  unfolding exchange_once
  shut_lem c fault rest front out =
      let o = outage_lem c deadline positive fault rest front out wire in
      let a = after_failure_lem loopback wire deadline c (replied loopback c wire deadline).error in
      let l = close_lem (sent loopback c wire deadline).transport in
      (ap (λ t. t.faults) a.0 ∙ l.0 ∙ o.2, ap (λ t. t.server) a.0 ∙ l.1 ∙ o.1, a.2)

  -- The loop with fewer outages queued than rounds are left ends in the round behind them.
  outages-loop :
      (fs : List TransportFault) (left n total : ℕ) (c : Client LoopbackTransport)
      → All IsOutage fs
      → c.transport.faults ≡ fs
      → length fs ≤ left
      → n + suc left ≡ c.maximum_read_attempts
      → total ≡ suc n + length fs
      → (last : Client LoopbackTransport) × (read_loop loopback
            (suc left)
            request
            wire
            len
            deadline
            (suc n)
            c
          ≡ validate_response
              (sent loopback last wire deadline)
              request
              (replied loopback last wire deadline).bytes
              Opcode.data_response
              len
              total)
        × (last.transport.faults ≡ [])
        × (last.transport.server ≡ c.transport.server)
  outages-loop [] left n total c out front fits rounds e =
      let now : total ≡ suc n = omega (arith, e) in
      (
        c,
        rw now (
            loop_finished loopback wire deadline request len c left n c
              (validate_response (sent loopback c wire deadline) request
                (replied loopback c wire deadline).bytes Opcode.data_response len (suc n))
              (try_judged loopback wire deadline request len (suc n) c (linked_lem c).0
                (rw (replied_lem c deadline positive front wire).0 refl))),
        front,
        refl,
      )
  outages-loop (f ∷ fs) zero n total c out front fits rounds e = absurd (omega (arith, fits))
  outages-loop (f ∷ fs) (suc left) n total c out front fits rounds e =
      let r = replied loopback c wire deadline in
      let failed = (outage_lem c deadline positive f fs front out.0 wire).0 in
      let k = shut_lem c f fs front out.0 in
      let again =
        loop_again loopback wire deadline request len c (suc left) n c
          (retried loopback wire deadline request len (suc n) c)
          (try_again loopback wire deadline request len (suc n) c (linked_lem c).0 failed
            (undelivered loopback wire deadline r failed) (omega (arith, rounds))) in
      let (last, loop, quiet, server) =
        outages-loop fs left (suc n) total (retried loopback wire deadline request len (suc n) c)
          out.1 k.0 (omega (arith, fits)) (omega (arith, rounds, k.2)) (omega (arith, e)) in
      (last, again ∙ loop, quiet, server ∙ k.1)

-- What a read recovers from: only timeouts and dropped connections are queued, and fewer of them than
-- the client may try.
pub record Recovers (c : Client LoopbackTransport) : Type 0 where
  pub is_map : IsMap c.transport.server.memory
  pub request_id : IsU32 c.next_request_id
  pub outages : All IsOutage c.transport.faults
  pub enough : length c.transport.faults < c.maximum_read_attempts

module _ (c : Client LoopbackTransport) (q : Recovers c) (address : ℕ) (deadline : ℤ)
    (positive : not_positive deadline ≡ false) (within : IsU32 address) (len : ℕ) (low : 1 ≤ len)
    (high : len ≤ 256) where
  abbrev asked : Frame
  asked = read_request c.next_request_id address len

  -- The read comes to the verdict on the reply that a client without outages gets.
  recovered :
      (last : Client LoopbackTransport) × (read loopback c address len deadline
        ≡ validate_response
            (sent loopback last (encode_output asked) deadline)
            asked
            (replied loopback last (encode_output asked) deadline).bytes
            Opcode.data_response
            len
            (length c.transport.faults + 1))
      × (last.transport.faults ≡ [])
      × (last.transport.server ≡ c.transport.server)
  unfolding allocate_request_id
  recovered =
      let left = c.maximum_read_attempts - 1 in
      let rounds : c.maximum_read_attempts ≡ suc left = omega (arith, q.enough) in
      let (last, loop, quiet, server) =
        outages-loop asked len deadline positive c.transport.faults left 0
          (length c.transport.faults + 1) (ready c) q.outages refl (omega (arith, q.enough))
          (omega (arith, rounds)) (omega arith) in
      (
        last,
        read-execute_read loopback c address deadline len (ground (arith, low, high, positive))
            ∙ execute_read_lem loopback (ready c) asked deadline
                (read_request-Encodable c.next_request_id address len) len
            ∙ ap (λ m. read_loop loopback m asked (encode_output asked) len deadline 1 (ready c))
                rounds
            ∙ loop,
        quiet,
        server,
      )

  -- Timeouts and dropped connections, fewer than the client may try, do not keep a read from its end:
  -- over a transport with only these queued, to a server with a well-formed map, and with a positive
  -- deadline, a read of 1 to 256 bytes that ends below 0x800 succeeds at the attempt behind them and
  -- returns the cells of the range, from a client whose next identifier has 32 bits; the server stays
  -- as it was.
  pub read-outages :
      address + len ≤ 0x800
      → ((read loopback c address len deadline).0 ≡ record {
        error = ClientError.none;
        remote_status = Status.ok;
        request_id = c.next_request_id;
        attempts = length c.transport.faults + 1;
        bytes = take len (drop address c.transport.server.memory.cells);
        detail = "ok";
      })
        × ((read loopback c address len deadline).1.transport.server ≡ c.transport.server)
  read-outages below =
      let (last, verdict, quiet, server) = recovered in
      let g =
        read_granted c.transport.server q.is_map c.next_request_id address len q.request_id within
          low high below in
      let frame = reply_frame asked (data_reply c.transport.server address len) in
      let decodes =
        ap (λ (s : MemoryServer). accepted (decode (handle s (encode_output asked)).0.response))
          server
        ∙ g.0 in
      let whole =
        verdict
        ∙ judged_reply last deadline positive quiet asked frame Opcode.data_response len
            (length c.transport.faults + 1) decodes g.2 in
      (
        ap (λ o. o.0) whole,
        ap (λ o. o.1.transport.server) whole
            ∙ (replied_lem last deadline positive quiet (encode_output asked)).1
            ∙ ap (λ (s : MemoryServer). (handle s (encode_output asked)).1) server
            ∙ g.1,
      )
