-- ===== src/Client/Loopback/Reads.antt =====
-- A read over the loopback transport.
use industrial_memory_protoc.Prelude.{
  ℕ, ◌+◌, ◌≤◌, ◌<◌, ◌≡◌, refl, ap, ◌∙◌, false, arith, take, drop,
}
use industrial_memory_protoc.Prelude.Bits.{IsU32}
use industrial_memory_protoc.Types.{Opcode, Status, Frame}
use industrial_memory_protoc.Codec.Frames.{encode_output}
use industrial_memory_protoc.Server.{text_payload}
use industrial_memory_protoc.Server.Response.{reply_frame}
use industrial_memory_protoc.Transport.{ℤ, not_positive, LoopbackTransport, loopback}
use industrial_memory_protoc.Client.Types.{Client, ClientError}
use industrial_memory_protoc.Client.{allocate_request_id, read}
use industrial_memory_protoc.Client.Verdict.{validate_response}
use industrial_memory_protoc.Client.Traffic.{sent, replied}
use industrial_memory_protoc.Client.Executes.{
  execute_read_judged, read_request, read_request-Encodable,
}
use industrial_memory_protoc.Client.Operations.{ready, read-execute_read}
use industrial_memory_protoc.Client.Loopback.Requests.{
  data_reply, read_status, read_granted, read_turned_down,
}
use industrial_memory_protoc.Client.Loopback.{
  refused_reply, Quiet, linked_lem, replied_lem, judged_reply,
}

module _ (c : Client LoopbackTransport) (q : Quiet c) (address : ℕ) (deadline : ℤ)
    (positive : not_positive deadline ≡ false) (within : IsU32 address) where
  module _ (len : ℕ) (low : 1 ≤ len) (high : len ≤ 256) where
    abbrev request : Frame
    request = read_request c.next_request_id address len

    abbrev after : Client LoopbackTransport
    after = sent loopback (ready c) (encode_output request) deadline

    pub outcome_lem :
        read loopback c address len deadline
        ≡ validate_response after request
            (replied loopback (ready c) (encode_output request) deadline).bytes
            Opcode.data_response
            len
            1
    unfolding allocate_request_id
    outcome_lem =
        read-execute_read loopback c address deadline len (ground (arith, low, high, positive))
        ∙ execute_read_judged loopback (ready c) request deadline
            (read_request-Encodable c.next_request_id address len) len q.attempts
            (linked_lem (ready c)).0
            (rw (replied_lem (ready c) deadline positive q.faults (encode_output request)).0 refl)

    -- Over a transport without queued faults, a server with a well-formed map, and with a positive
    -- deadline, a read of 1 to 256 bytes that ends behind 0x7ff, from a client that may try at least
    -- once and whose next identifier has 32 bits, is reported as a remote error after one attempt, with
    -- the status `out_of_range` if the range ends behind the map's 4096 cells and `access_denied` if
    -- not, and with the server's text in place of cells; the server stays as it was.
    pub read-turned_down :
        0x800 < address + len
        → ((read loopback c address len deadline).0 ≡ record {
          error = ClientError.remote_error;
          remote_status = read_status address len;
          request_id = c.next_request_id;
          attempts = 1;
          bytes = text_payload "read_rejected";
          detail = "remote request rejected";
        })
          × ((read loopback c address len deadline).1.transport.server ≡ c.transport.server)
    unfolding allocate_request_id
    read-turned_down above =
        let t =
          read_turned_down c.transport.server q.is_map c.next_request_id address len q.request_id
            within low high above in
        let verdict =
          outcome_lem
          ∙ refused_reply (ready c) deadline positive q.faults request (read_status address len)
              "read_rejected" Opcode.data_response len 1 t.0 in
        (
          ap (λ o. o.0) verdict,
          ap (λ o. o.1.transport.server) verdict
              ∙ (replied_lem (ready c) deadline positive q.faults (encode_output request)).1
              ∙ t.1,
        )

  module _ (len : ℕ) (low : 1 ≤ len) (high : len ≤ 256) (below : address + len ≤ 0x800) where
    -- Over a transport without queued faults, a server with a well-formed map, and with a positive
    -- deadline, a read of 1 to 256 bytes that ends below 0x800 succeeds at its first attempt, from a
    -- client that may try at least once and whose next identifier has 32 bits: it returns the cells of
    -- the range, under that identifier, and the server stays as it was.
    pub read-loopback :
        ((read loopback c address len deadline).0 ≡ record {
          error = ClientError.none;
          remote_status = Status.ok;
          request_id = c.next_request_id;
          attempts = 1;
          bytes = take len (drop address c.transport.server.memory.cells);
          detail = "ok";
        })
        × ((read loopback c address len deadline).1.transport.server ≡ c.transport.server)
    unfolding allocate_request_id
    read-loopback =
        let g =
          read_granted c.transport.server q.is_map c.next_request_id address len q.request_id within
            low high below in
        let wanted = request len low high in
        let verdict =
          outcome_lem len low high
          ∙ judged_reply (ready c) deadline positive q.faults wanted
              (reply_frame wanted (data_reply c.transport.server address len)) Opcode.data_response
              len 1 g.0 g.2 in
        (
          ap (λ o. o.0) verdict,
          ap (λ o. o.1.transport.server) verdict
              ∙ (replied_lem (ready c) deadline positive q.faults (encode_output wanted)).1
              ∙ g.1,
        )
