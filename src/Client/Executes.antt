-- ===== src/Client/Executes.antt =====
-- `execute_read` and `execute_write`.
use Prim.Native.String.{◌++◌ as str_append}
use industrial_memory_protoc.Prelude.{
  ℕ, ◌-◌, ◌≤◌, ◌≡◌, refl, ◌∙◌, suc, ap, ◌%◌, ◌^◌, ◌==◌, ◌∷◌, length, bit_and, inl, inr, true, false,
  List, [], arith, Bool-cases, subst,
}
use industrial_memory_protoc.Types.{Opcode, Status, Frame}
use industrial_memory_protoc.Codec.Words.{◌>>>◌}
use industrial_memory_protoc.Codec.Frames.{encode_output, has_valid_semantics}
use industrial_memory_protoc.Codec.RoundTrip.{Encodable, Encodable-encode}
use industrial_memory_protoc.Transport.{ℤ, is_delivered, ITransport}
use industrial_memory_protoc.Transport.Names.{transport_error_name}
use industrial_memory_protoc.Client.Types.{ClientError, OperationResult, Client}
use industrial_memory_protoc.Client.Response.{validate_kept}
use industrial_memory_protoc.Client.{
  client_error_of, ensure_connected, exchange_once, after_failure, read_loop, execute_read,
  execute_write,
}
use industrial_memory_protoc.Client.Verdict.{failed, validate_response}
use industrial_memory_protoc.Client.Traffic.{
  silence, unlinks, sends, no_link, no_reply, judged, Run, ensure_lem, ensure-Links,
  client_error_of-IsLoss, linked, replied, sent, Traffic-ensure, Traffic-sent, sent_lem,
  after_failure_lem,
}
use industrial_memory_protoc.Client.Rounds.{read_loop-Run, try_judged, loop_finished}

-- The request that `read` sends.
abbrev pub read_request : ℕ → ℕ → ℕ → Frame
read_request request_id address len = record {
  version = 1;
  opcode = Opcode.read_request;
  flags = 0;
  request_id = request_id;
  address = address;
  status = Status.ok;
  payload = bit_and (len % 2 ^ 16 >>> 8) 0xff ∷ bit_and (len % 2 ^ 16) 0xff ∷ [];
}

-- The request that `write` sends.
abbrev pub write_request : ℕ → ℕ → List ℕ → Frame
write_request request_id address content = record {
  version = 1;
  opcode = Opcode.write_request;
  flags = 0;
  request_id = request_id;
  address = address;
  status = Status.ok;
  payload = content;
}

pub read_request-Encodable :
    (request_id address len : ℕ) → Encodable (read_request request_id address len)
unfolding has_valid_semantics
read_request-Encodable request_id address len = record {
  version = refl;
  opcode = refl;
  ceiling = omega arith;
  semantics = refl;
}

pub write_request-Encodable :
    (request_id address : ℕ) (content : List ℕ)
    → (length content == 0) ≡ false
    → length content ≤ 256
    → Encodable (write_request request_id address content)
unfolding has_valid_semantics
write_request-Encodable request_id address content h k = record {
  version = refl;
  opcode = refl;
  ceiling = k;
  semantics = ground arith;
}

module _ {T : Type 0} (i : ITransport T) where
  module _ (c : Client T) (request : Frame) (deadline : ℤ) (e : Encodable request) where
    abbrev wire : List ℕ
    wire = encode_output request

    pub execute_read_lem :
        (len : ℕ)
        → execute_read i c request len deadline
          ≡ read_loop i c.maximum_read_attempts request wire len deadline 1 c
    unfolding execute_read
    execute_read_lem len = rw (Encodable-encode request e) refl

    -- The first round suffices where its exchange succeeds.
    pub execute_read_judged :
        (len : ℕ)
        → 1 ≤ c.maximum_read_attempts
        → (ensure_connected i c).0 ≡ true
        → is_delivered (replied i c wire deadline) ≡ true
        → execute_read i c request len deadline
          ≡ validate_response
              (sent i c wire deadline)
              request
              (replied i c wire deadline).bytes
              Opcode.data_response
              len
              1
    execute_read_judged len positive up d =
        let left = c.maximum_read_attempts - 1 in
        let more : c.maximum_read_attempts ≡ suc left = omega (positive, arith) in
        let stop =
          loop_finished i wire deadline request len c left 0 c
            (validate_response (sent i c wire deadline) request (replied i c wire deadline).bytes
              Opcode.data_response len 1)
            (try_judged i wire deadline request len 1 c up d) in
        execute_read_lem len ∙ ap (λ m. read_loop i m request wire len deadline 1 c) more ∙ stop

    pub execute_read-Run :
        (len : ℕ)
        → 1 ≤ c.maximum_read_attempts
        → Run i c request wire deadline Opcode.data_response len c.maximum_read_attempts
            (execute_read i c request len deadline)
    execute_read-Run len positive = rw (execute_read_lem len) (
        subst
          (λ m.
            Run i c request wire deadline Opcode.data_response len c.maximum_read_attempts
              (read_loop i m request wire len deadline 1 c))
          (omega (positive, arith))
          (read_loop-Run i wire deadline request len c (c.maximum_read_attempts - 1) 0 c silence
            refl (omega (positive, arith))))

    pub unlinked_lem :
        (ensure_connected i c).0 ≡ false
        → execute_write i c request deadline ≡ (
          failed ClientError.connect_failed request.request_id 1 "transport connect failed",
          linked i c,
        )
    unfolding execute_write
    unlinked_lem down = rw (Encodable-encode request e) (ground arith)

    pub judged_lem :
        (ensure_connected i c).0 ≡ true
        → is_delivered (replied i c wire deadline) ≡ true
        → execute_write i c request deadline
          ≡ validate_response
              (sent i c wire deadline)
              request
              (replied i c wire deadline).bytes
              Opcode.write_acknowledgement
              0
              1
    unfolding execute_write exchange_once
    judged_lem up d = rw (Encodable-encode request e) (ground arith)

    pub failed_lem :
        (ensure_connected i c).0 ≡ true
        → is_delivered (replied i c wire deadline) ≡ false
        → execute_write i c request deadline ≡ (
          failed (client_error_of (replied i c wire deadline).error) request.request_id 1 (
              str_append "write not retried: "
                (transport_error_name (replied i c wire deadline).error)),
          after_failure i (sent i c wire deadline) (replied i c wire deadline).error,
        )
    unfolding execute_write exchange_once
    failed_lem up d = rw (Encodable-encode request e) (ground arith)

    abbrev WriteRun : OperationResult × Client T → Type 0
    WriteRun o = Run i c request wire deadline Opcode.write_acknowledgement 0 1 o

    connected-Run : (ensure_connected i c).0 ≡ true → WriteRun (execute_write i c request deadline)
    connected-Run up = elim (Bool-cases (is_delivered (replied i c wire deadline))) [
      | inl d ↦
          let kept =
            validate_kept (sent i c wire deadline) request (replied i c wire deadline).bytes
              Opcode.write_acknowledgement 0 1 in
          let s = sent_lem i wire deadline c in
          rw (judged_lem up d) (record {
            exchanges = 1;
            within = omega arith;
            traffic = sends (Traffic-ensure i wire deadline c.transport 0 c silence) (kept.1 ∙ s.0);
            ending =
                judged (sent i c wire deadline) 0 c.transport (linked i c).transport refl silence
                  (ensure-Links i c true up)
                  (Traffic-ensure i wire deadline c.transport 0 c silence) d refl (kept.1 ∙ s.0);
            request_id = kept.0;
            next_id = kept.2 ∙ s.1;
          })
      | inr d ↦
          let s = after_failure_lem i wire deadline c (replied i c wire deadline).error in
          rw (failed_lem up d) (record {
            exchanges = 1;
            within = omega arith;
            traffic = unlinks (Traffic-sent i wire deadline c.transport 0 c silence) s.0;
            ending =
                no_reply 0 c.transport (linked i c).transport refl silence
                  (ensure-Links i c true up) d
                  (client_error_of-IsLoss (replied i c wire deadline).error) refl refl s.0;
            request_id = refl;
            next_id = s.1;
          })
    ]

    pub execute_write-Run : WriteRun (execute_write i c request deadline)
    execute_write-Run = elim (Bool-cases (ensure_connected i c).0) [
      | inl up ↦ connected-Run up
      | inr down ↦ rw (unlinked_lem down) (record {
        exchanges = 0;
        within = omega arith;
        traffic = Traffic-ensure i wire deadline c.transport 0 c silence;
        ending = no_link c.transport silence (ensure-Links i c false down) refl refl refl;
        request_id = refl;
        next_id = (ensure_lem i c).1;
      })
    ]
