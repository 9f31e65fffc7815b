-- ===== src/Client/Loopback.antt =====
-- The client, the loopback transport and the server together, without faults.
pub mod Requests
pub mod Reads
pub mod Retries
pub mod GivesUp
pub mod WriteRequests
pub mod Writes
pub mod WriteRead
pub mod Damaged
use Prim.Native.String.{String}
use mathlib.Core.Option.{Option}
use industrial_memory_protoc.Prelude.{
  ℕ, ◌-◌, ◌≤◌, ◌≡◌, refl, sym, subst, ap, ◌∙◌, true, false, List, [], ◌∷◌, ◌⊎◌, inl, inr, arith,
}
use industrial_memory_protoc.Prelude.Bits.{IsU32}
use industrial_memory_protoc.Types.{Opcode, Status, Frame, accepted}
use industrial_memory_protoc.Codec.Frames.{encode_output, decode}
use industrial_memory_protoc.Codec.RoundTrip.{IsFrame, Encodable, decode-encode_output}
use industrial_memory_protoc.Memory.Store.{IsMap}
use industrial_memory_protoc.Server.{MemoryServer, text_payload, handle}
use industrial_memory_protoc.Server.Response.{reply_frame}
use industrial_memory_protoc.Server.Handle.{rejection}
use industrial_memory_protoc.Server.Contract.{Served, decoded-Served}
use industrial_memory_protoc.Transport.{
  is_delivered, ℤ, not_positive, TransportError, TransportReply, LoopbackTransport, loopback,
  exchange, connect, damage, TransportFault,
}
use industrial_memory_protoc.Transport.Exchange.{
  Exchanged, expired, timed_out, dropped, delivered, exchange-Exchanged, Passes, no_fault,
  truncates, corrupts, misnumbers,
}
use industrial_memory_protoc.Transport.Faults.{
  outage_error, IsOutage, exchange_passed, exchange_outage,
}
use industrial_memory_protoc.Client.Types.{Client, ClientError}
use industrial_memory_protoc.Client.{ensure_connected, exchange_once, allocate_request_id, read}
use industrial_memory_protoc.Client.Verdict.{validate_frame, validate_response}
use industrial_memory_protoc.Client.Traffic.{linked, replied, sent, sent_lem}
use industrial_memory_protoc.Client.Response.{
  Matches, success, validate_some, validate_frame-Matches,
}
use industrial_memory_protoc.Client.Operations.{ready}

-- The transport that the client exchanges over is connected, and otherwise the same.
pub linked_lem :
    (c : Client LoopbackTransport)
    → let u = (linked loopback c).transport in
      ((ensure_connected loopback c).0 ≡ true)
      × (u.is_connected ≡ true)
      × (u.faults ≡ c.transport.faults)
      × (u.server ≡ c.transport.server)
unfolding ensure_connected connect
linked_lem c = ground arith

-- What a fault-free operation starts from: a well-formed map, an identifier of 32 bits, no fault
-- queued, and a try at least.
pub record Quiet (c : Client LoopbackTransport) : Type 0 where
  pub is_map : IsMap c.transport.server.memory
  pub request_id : IsU32 c.next_request_id
  pub faults : c.transport.faults ≡ []
  pub attempts : 1 ≤ c.maximum_read_attempts

-- Taking an identifier keeps a client so.
pub ready-Quiet : (c : Client LoopbackTransport) → Quiet c → Quiet (ready c)
unfolding allocate_request_id
ready-Quiet c q = record {
  is_map = q.is_map;
  request_id = ground (arith, q.request_id);
  faults = q.faults;
  attempts = q.attempts;
}

module _ (c : Client LoopbackTransport) (deadline : ℤ)
    (positive : not_positive deadline ≡ false) where
  -- The client's next exchange, where the queue lets it through.
  pub passed_lem :
      {fault : Option TransportFault} {rest : List TransportFault}
      → Passes c.transport.faults fault rest
      → (bytes : List ℕ)
      → (replied loopback c bytes deadline ≡ record {
        error = TransportError.none;
        bytes = damage fault (handle c.transport.server bytes).0.response;
      })
        × ((sent loopback c bytes deadline).transport.server ≡ (handle c.transport.server bytes).1)
        × ((sent loopback c bytes deadline).transport.faults ≡ rest)
  unfolding exchange_once
  passed_lem {fault} {rest} p bytes =
      let l = linked_lem c in
      let line = (linked loopback c).transport in
      let q : Passes line.faults fault rest = subst (λ fs. Passes fs fault rest) (sym l.2) p in
      let s = exchange_passed line bytes deadline l.1 positive q in
      (
        s.0
            ∙ ap
                (λ (v : MemoryServer).
                  let r : TransportReply = record {
                    error = TransportError.none;
                    bytes = damage fault (handle v bytes).0.response;
                  } in
                  r)
                l.3,
        s.1 ∙ ap (λ v. (handle v bytes).1) l.3,
        s.2,
      )

  -- The client's next exchange, where an outage stands in front.
  pub outage_lem :
      (fault : TransportFault) (rest : List TransportFault)
      → c.transport.faults ≡ fault ∷ rest
      → IsOutage fault
      → (bytes : List ℕ)
      → (is_delivered (replied loopback c bytes deadline) ≡ false)
        × ((sent loopback c bytes deadline).transport.server ≡ c.transport.server)
        × ((sent loopback c bytes deadline).transport.faults ≡ rest)
        × ((replied loopback c bytes deadline).error ≡ outage_error fault)
  unfolding exchange_once
  outage_lem fault rest front out bytes =
      let l = linked_lem c in
      let line = (linked loopback c).transport in
      let s = exchange_outage line bytes deadline l.1 positive fault rest (l.2 ∙ front) out in
      (s.0, s.1 ∙ l.3, s.2, s.3)

  module _ (quiet : c.transport.faults ≡ []) where
    -- The reply to the encoded request is the server's response.
    pub replied_lem :
        (bytes : List ℕ)
        → (replied loopback c bytes deadline ≡ record {
          error = TransportError.none;
          bytes = (handle c.transport.server bytes).0.response;
        })
          × ((sent loopback c bytes deadline).transport.server
              ≡ (handle c.transport.server bytes).1)
          × ((sent loopback c bytes deadline).transport.faults ≡ [])
    unfolding damage
    replied_lem bytes =
        passed_lem (subst (λ fs. Passes fs Option.none []) (sym quiet) no_fault) bytes

    -- The verdict on the server's response.
    judged_lem :
        (request frame : Frame) (expected_opcode : Opcode) (expected_length attempts : ℕ)
        → accepted (decode (handle c.transport.server (encode_output request)).0.response)
          ≡ Option.some frame
        → validate_response
            (sent loopback c (encode_output request) deadline)
            request
            (replied loopback c (encode_output request) deadline).bytes
            expected_opcode
            expected_length
            attempts
          ≡ validate_frame
              (sent loopback c (encode_output request) deadline)
              request
              frame
              expected_opcode
              expected_length
              attempts
    judged_lem request frame expected_opcode expected_length attempts e =
        let wire = encode_output request in
        let s = sent loopback c wire deadline in
        let r = (handle c.transport.server wire).0.response in
        ap
          (λ (response : List ℕ).
            validate_response s request response expected_opcode expected_length attempts)
          (ap (λ (v : TransportReply). v.bytes) (replied_lem wire).0)
        ∙ validate_some s request r expected_opcode expected_length attempts frame e

    -- A reply frame that matches is the result.
    pub judged_reply :
        (request frame : Frame) (expected_opcode : Opcode) (expected_length attempts : ℕ)
        → accepted (decode (handle c.transport.server (encode_output request)).0.response)
          ≡ Option.some frame
        → Matches request frame expected_opcode expected_length
        → validate_response
            (sent loopback c (encode_output request) deadline)
            request
            (replied loopback c (encode_output request) deadline).bytes
            expected_opcode
            expected_length
            attempts
          ≡ (success request frame attempts, sent loopback c (encode_output request) deadline)
    judged_reply request frame expected_opcode expected_length attempts e m =
        judged_lem request frame expected_opcode expected_length attempts e
        ∙ validate_frame-Matches (sent loopback c (encode_output request) deadline) request
            (encode_output request) expected_opcode expected_length attempts frame m

    -- An error response is the result.
    pub refused_reply :
        (request : Frame) (status : Status) (text : String) (expected_opcode : Opcode)
        (expected_length attempts : ℕ)
        → accepted (decode (handle c.transport.server (encode_output request)).0.response)
          ≡ Option.some (reply_frame request (rejection status text))
        → validate_response
            (sent loopback c (encode_output request) deadline)
            request
            (replied loopback c (encode_output request) deadline).bytes
            expected_opcode
            expected_length
            attempts
          ≡ (
            record {
              error = ClientError.remote_error;
              remote_status = status;
              request_id = request.request_id;
              attempts = attempts;
              bytes = text_payload text;
              detail = "remote request rejected";
            },
            sent loopback c (encode_output request) deadline,
          )
    unfolding validate_frame
    refused_reply request status text expected_opcode expected_length attempts e =
        judged_lem request (reply_frame request (rejection status text)) expected_opcode
          expected_length attempts e
        ∙ ground arith

-- A fault-free operation may follow a fault-free exchange.
pub sent-Quiet :
    (c : Client LoopbackTransport)
    → Quiet c
    → (deadline : ℤ) → not_positive deadline ≡ false
    → (bytes : List ℕ) → IsMap (handle c.transport.server bytes).1.memory
    → Quiet (sent loopback c bytes deadline)
sent-Quiet c q deadline positive bytes m =
    let kept = sent_lem loopback bytes deadline c in
    let r = replied_lem c deadline positive q.faults bytes in
    record {
      is_map = rw (ap (λ v. v.memory) r.1) m;
      request_id = rw kept.1 q.request_id;
      faults = r.2;
      attempts = rw kept.2 q.attempts;
    }

-- The server answers a request that a read or a write has built.
pub answered :
    (s : MemoryServer) (request : Frame)
    → IsMap s.memory
    → IsFrame request
    → Encodable request
    → Served s request (handle s (encode_output request))
answered s request m f e =
    decoded-Served s (encode_output request) request (f, e) m
      (ap accepted (decode-encode_output request f e))
