-- ===== src/Client/Loopback/Writes.antt =====
-- A write over the loopback transport.
use industrial_memory_protoc.Prelude.{
  ℕ, ◌≤◌, ◌≡◌, refl, ap, ◌∙◌, false, List, [], arith, length, All,
}
use industrial_memory_protoc.Prelude.Bits.{IsByte, IsU32}
use industrial_memory_protoc.Types.{Opcode, Status, Frame}
use industrial_memory_protoc.Codec.Frames.{encode_output}
use industrial_memory_protoc.Server.{handle}
use industrial_memory_protoc.Server.Response.{reply_frame}
use industrial_memory_protoc.Transport.{ℤ, not_positive, LoopbackTransport, loopback}
use industrial_memory_protoc.Client.Types.{Client, ClientError}
use industrial_memory_protoc.Client.{allocate_request_id, write}
use industrial_memory_protoc.Client.Verdict.{validate_response}
use industrial_memory_protoc.Client.Traffic.{sent, replied}
use industrial_memory_protoc.Client.Response.{success}
use industrial_memory_protoc.Client.Executes.{judged_lem, write_request, write_request-Encodable}
use industrial_memory_protoc.Client.Operations.{ready, write-execute_write}
use industrial_memory_protoc.Client.Loopback.WriteRequests.{
  IsWritable, acknowledgement, stored, write_granted, write_turned_down,
}
use industrial_memory_protoc.Client.Loopback.{
  refused_reply, Quiet, linked_lem, replied_lem, judged_reply,
}

module _ (c : Client LoopbackTransport) (q : Quiet c) (address : ℕ) (deadline : ℤ)
    (positive : not_positive deadline ≡ false) (within : IsU32 address) (content : List ℕ)
    (valid : All IsByte content) (low : 1 ≤ length content) (high : length content ≤ 256) where
  abbrev pub request : Frame
  request = write_request c.next_request_id address content

  abbrev pub after : Client LoopbackTransport
  after = sent loopback (ready c) (encode_output request) deadline

  pub outcome_lem :
      write loopback c address content deadline
      ≡ validate_response after request
          (replied loopback (ready c) (encode_output request) deadline).bytes
          Opcode.write_acknowledgement
          0
          1
  unfolding allocate_request_id
  outcome_lem =
      write-execute_write loopback c address deadline content (ground (arith, low, high, positive))
      ∙ judged_lem loopback (ready c) request deadline
          (write_request-Encodable c.next_request_id address content (ground (arith, low)) high)
          (linked_lem (ready c)).0
          (rw (replied_lem (ready c) deadline positive q.faults (encode_output request)).0 refl)

  -- Over a transport without queued faults, to a server with a well-formed map, and with a positive
  -- deadline, a write of 1 to 256 bytes to a range that the policy or the regions do not let be
  -- written, from a client that may try at least once and whose next identifier has 32 bits, is
  -- reported as a remote error after one attempt, and the server stays as it was.
  pub write-turned_down :
      ¬ IsWritable c.transport.server address (length content)
      → ((write loopback c address content deadline).0.error ≡ ClientError.remote_error)
        × ((write loopback c address content deadline).0.attempts ≡ 1)
        × ((write loopback c address content deadline).1.transport.server ≡ c.transport.server)
  unfolding allocate_request_id
  write-turned_down closed =
      let (status, text, decodes, same) =
        write_turned_down c.transport.server q.is_map c.next_request_id address content q.request_id
          within valid low high closed in
      let verdict =
        outcome_lem
        ∙ refused_reply (ready c) deadline positive q.faults request status text
            Opcode.write_acknowledgement 0 1 decodes in
      (
        ap (λ o. o.0.error) verdict,
        ap (λ o. o.0.attempts) verdict,
        ap (λ o. o.1.transport.server) verdict
            ∙ (replied_lem (ready c) deadline positive q.faults (encode_output request)).1
            ∙ same,
      )

  pub acknowledged :
      IsWritable c.transport.server address (length content)
      → (write loopback c address content deadline
          ≡ (success request (reply_frame request acknowledgement) 1, after))
        × (after.transport.server ≡ stored c.transport.server address content)
        × ((handle c.transport.server (encode_output request)).1
            ≡ stored c.transport.server address content)
  unfolding allocate_request_id
  acknowledged writable =
      let g =
        write_granted c.transport.server q.is_map c.next_request_id address content q.request_id
          within valid low high writable in
      (
        outcome_lem
            ∙ judged_reply (ready c) deadline positive q.faults request
                (reply_frame request acknowledgement) Opcode.write_acknowledgement 0 1 g.0 g.2,
        (replied_lem (ready c) deadline positive q.faults (encode_output request)).1 ∙ g.1,
        g.1,
      )

  -- Over a transport without queued faults, to a server with a well-formed map, and with a positive
  -- deadline, a write of 1 to 256 bytes to a range that the policy and the regions let be written
  -- succeeds with one attempt, from a client that may try at least once and whose next identifier has
  -- 32 bits: the result is empty, under that identifier, and the server's memory has the content
  -- copied to the range and is otherwise the same, as is its policy.
  pub write-loopback :
      IsWritable c.transport.server address (length content)
      → ((write loopback c address content deadline).0 ≡ record {
        error = ClientError.none;
        remote_status = Status.ok;
        request_id = c.next_request_id;
        attempts = 1;
        bytes = [];
        detail = "ok";
      })
        × ((write loopback c address content deadline).1.transport.server
            ≡ stored c.transport.server address content)
  write-loopback writable =
      let a = acknowledged writable in (ap (λ o. o.0) a.0, ap (λ o. o.1.transport.server) a.0 ∙ a.1)
