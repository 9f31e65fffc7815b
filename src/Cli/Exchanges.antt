-- ===== src/Cli/Exchanges.antt =====
-- The packet trace of a command that makes one exchange, and what it prints.
use Prim.Native.String.{String}
use industrial_memory_protoc.Prelude.{ℕ, ◌≡◌, refl, sym, ap, ap₂, ◌∙◌, List, [], ◌∷◌}
use industrial_memory_protoc.Types.{Opcode, Frame, EncodeResult}
use industrial_memory_protoc.Codec.Frames.{encode_output}
use industrial_memory_protoc.Codec.RoundTrip.{Encodable-encode}
use industrial_memory_protoc.Codec.Canonical.{encode-decode, decode-IsFrame}
use industrial_memory_protoc.Server.{ServerPolicy, HandleResult, handle}
use industrial_memory_protoc.Server.Response.{Reply, reply_frame}
use industrial_memory_protoc.Server.Contract.{Served}
use industrial_memory_protoc.Transport.{
  pos, TraceRecord, LoopbackTransport, loopback, make_loopback, reported, connect, exchange,
  consume_fault, deliver, record_packet, damage,
}
use industrial_memory_protoc.Client.Types.{OperationResult, Client}
use industrial_memory_protoc.Client.{
  make_client, allocate_request_id, ensure_connected, exchange_once,
}
use industrial_memory_protoc.Client.Verdict.{validate_response}
use industrial_memory_protoc.Client.Response.{validate_kept}
use industrial_memory_protoc.Client.Traffic.{sent}
use industrial_memory_protoc.Client.Operations.{ready}
use industrial_memory_protoc.Cli.Commands.{fresh}

abbrev packets : List ℕ → String → List ℕ → List TraceRecord
packets request text response =
    record { sequence = 1; direction = "client_to_server"; outcome = "sent"; bytes = request }
    ∷ record { sequence = 2; direction = "server_to_client"; outcome = text; bytes = response }
    ∷ []

-- A request and its reply, as they are traced.
abbrev pub exchange_trace : Frame → Reply → List TraceRecord
exchange_trace request reply =
    packets (encode_output request) reply.detail (encode_output (reply_frame request reply))

module _ (policy : ServerPolicy) (request : Frame) where
  abbrev c : Client LoopbackTransport
  c = fresh policy

  abbrev wire : List ℕ
  wire = encode_output request

  abbrev handled : HandleResult
  handled = (handle c.transport.server wire).0

  sent_trace :
      (sent loopback (ready c) wire (pos 100)).transport.trace
      ≡ packets wire (reported handled) handled.response
  unfolding fresh make_client make_loopback allocate_request_id ensure_connected exchange_once
      connect exchange consume_fault deliver record_packet damage
  sent_trace = refl

  served_trace :
      (served : Served c.transport.server request (handle c.transport.server wire))
      → packets wire (reported handled) handled.response ≡ exchange_trace request served.reply
  served_trace served =
      let text : reported handled ≡ served.reply.detail = rw served.event refl in
      let encodes =
        encode-decode handled.response (reply_frame request served.reply) served.bytes
          served.decodes in
      let fine =
        decode-IsFrame handled.response (reply_frame request served.reply) served.bytes
          served.decodes in
      let same : handled.response ≡ encode_output (reply_frame request served.reply) =
        ap (λ (r : EncodeResult). r.bytes)
          (sym encodes ∙ Encodable-encode (reply_frame request served.reply) fine.1) in
      ap₂ (packets wire) text same

  -- The trace that an operation leaves whose verdict is on the reply.
  pub verdict_trace :
      (served : Served c.transport.server request (handle c.transport.server wire)) (reply : Reply)
      → served.reply ≡ reply
      → (o : OperationResult × Client LoopbackTransport) (response : List ℕ) (op : Opcode)
        (len n : ℕ)
      → o ≡ validate_response (sent loopback (ready c) wire (pos 100)) request response op len n
      → o.1.transport.trace ≡ exchange_trace request reply
  verdict_trace served reply is o response op len n e =
      ap (λ v. v.1.transport.trace) e
      ∙ ap (λ t. t.trace)
          (validate_kept (sent loopback (ready c) wire (pos 100)) request response op len n).1
      ∙ sent_trace
      ∙ served_trace served
      ∙ ap (exchange_trace request) is
