-- ===== src/Cli/Stores.antt =====
-- The write that `run_write` makes, on every branch.
use industrial_memory_protoc.Prelude.{
  ℕ, ◌+◌, ◌^◌, ◌<◌, ◌≤◌, ◌≡◌, refl, ap, ap₂, ◌∙◌, List, [], length, arith, All, true,
}
use industrial_memory_protoc.Prelude.Bits.{IsByte}
use industrial_memory_protoc.Types.{Opcode, Status, Frame}
use industrial_memory_protoc.Codec.Frames.{encode_output}
use industrial_memory_protoc.Server.{MemoryServer, make_memory_server, text_payload, handle}
use industrial_memory_protoc.Server.Response.{Reply}
use industrial_memory_protoc.Server.Contract.{Served}
use industrial_memory_protoc.Server.Handle.{
  Serves, loads, stores, rejects, bad_read, disabled, not_allowed, bad_write as bad_range,
  not_a_request, rejection,
}
use industrial_memory_protoc.Transport.{pos, LoopbackTransport, make_loopback, loopback}
use industrial_memory_protoc.Client.Types.{ClientError, OperationResult, Client}
use industrial_memory_protoc.Client.{allocate_request_id, make_client, write}
use industrial_memory_protoc.Client.Verdict.{failed}
use industrial_memory_protoc.Client.Traffic.{replied}
use industrial_memory_protoc.Client.Executes.{write_request}
use industrial_memory_protoc.Client.Operations.{is_refused, ready}
use industrial_memory_protoc.Client.Loopback.{Quiet, refused_reply}
use industrial_memory_protoc.Client.Loopback.WriteRequests.{
  IsWritable, acknowledgement, write_answer, write_reply,
}
use industrial_memory_protoc.Client.Loopback.Writes.{write-loopback, outcome_lem}
use industrial_memory_protoc.Cli.Commands.{writes_enabled_policy, fresh, report}
use industrial_memory_protoc.Cli.Exchanges.{exchange_trace, verdict_trace}
use industrial_memory_protoc.Cli.Runs.{fresh-Quiet, reported_run, report-reported_run}

abbrev pub client : Client LoopbackTransport
client = fresh writes_enabled_policy

module _ (address : ℕ) (payload : List ℕ) (within : address < 2 ^ 32) (valid : All IsByte payload)
    (low : 1 ≤ length payload) where
  writable_lem :
      (IsWritable client.transport.server address (length payload)
        → (0x100 ≤ address) × (address + length payload ≤ 0x800))
      × ((0x100 ≤ address)
          → (address + length payload ≤ 0x800)
          → IsWritable client.transport.server address (length payload))
  unfolding fresh make_client make_loopback make_memory_server
  writable_lem = (
    λ w. (w.above, w.below),
    λ above below. record {
      enabled = refl;
      begins = above;
      ends = omega (arith, below);
      above = above;
      below = below;
    },
  )

  abbrev outcome : OperationResult × Client LoopbackTransport
  outcome = write loopback client address payload (pos 100)

  pub refused_lem :
      is_refused (length payload) (pos 100) ≡ true
      → report outcome
        ≡ reported_run 4
            (failed ClientError.invalid_argument 1 0
              "write payload and deadline must be positive and bounded")
            []
  unfolding write allocate_request_id fresh make_client make_loopback
  refused_lem e =
      let result : outcome.0
          ≡ failed ClientError.invalid_argument 1 0
              "write payload and deadline must be positive and bounded" =
        rw (e, write) refl in
      let trace : outcome.1.transport.trace ≡ [] = rw (e, write) refl in
      report-reported_run outcome 4
        (failed ClientError.invalid_argument 1 0
          "write payload and deadline must be positive and bounded")
        [] result trace refl

  module _ (high : length payload ≤ 256) where
    abbrev s : MemoryServer
    s = client.transport.server

    abbrev request : Frame
    request = write_request client.next_request_id address payload

    quiet : Quiet client
    quiet = fresh-Quiet writes_enabled_policy

    abbrev answer : Served s request (handle s (encode_output request))
    answer =
        write_answer s quiet.is_map client.next_request_id address payload quiet.request_id within
          valid low high

    -- The trace of a write that reaches the server.
    write_trace :
        (reply : Reply)
        → answer.reply ≡ reply
        → outcome.1.transport.trace ≡ exchange_trace request reply
    write_trace reply is =
        verdict_trace writes_enabled_policy request answer reply is outcome
          (replied loopback (ready client) (encode_output request) (pos 100)).bytes
          Opcode.write_acknowledgement 0 1
          (outcome_lem client quiet address (pos 100) refl within payload valid low high)

    -- The window of the policy is that of the regions, so that it is the policy that turns a write down.
    denied_reply :
        {r : Reply} {s' : MemoryServer}
        → ¬ ((0x100 ≤ address) × (address + length payload ≤ 0x800))
        → Serves s request r s'
        → r ≡ rejection Status.access_denied "outside_write_allowlist"
    unfolding fresh make_client make_loopback make_memory_server
    denied_reply out (loads op low' high' fits er es) = absurd cc
    denied_reply out (stores op on allowed most above fits er es) = absurd (out (above, fits))
    denied_reply out (rejects status text (bad_read op r e) er es) = absurd cc
    denied_reply out (rejects status text (disabled op off _ _) er es) = absurd (cc off)
    denied_reply out (rejects status text (not_allowed op on n e f) er es) = er ∙ ap₂ rejection e f
    denied_reply out (rejects status text (bad_range op on a w _) er es) =
        absurd (out (a.1, omega (arith, a.2)))
    denied_reply out (rejects status text (not_a_request p q _ _) er es) = absurd (q refl)

    pub denied_lem :
        ¬ ((0x100 ≤ address) × (address + length payload ≤ 0x800))
        → report outcome
          ≡ reported_run 4
              (record {
                error = ClientError.remote_error;
                remote_status = Status.access_denied;
                request_id = 1;
                attempts = 1;
                bytes = text_payload "outside_write_allowlist";
                detail = "remote request rejected";
              })
              (exchange_trace
                (write_request 1 address payload)
                (rejection Status.access_denied "outside_write_allowlist"))
    unfolding fresh make_client make_loopback make_memory_server allocate_request_id
    denied_lem out =
        let reply = rejection Status.access_denied "outside_write_allowlist" in
        let is = denied_reply out answer.serves in
        let got =
          outcome_lem client quiet address (pos 100) refl within payload valid low high
          ∙ refused_reply (ready client) (pos 100) refl refl request Status.access_denied
              "outside_write_allowlist" Opcode.write_acknowledgement 0 1
              (rw is at answer.decodes) in
        report-reported_run outcome 4 _ (exchange_trace (write_request 1 address payload) reply)
          (ap (λ o. o.0) got) (write_trace reply is) refl

    pub granted_lem :
        0x100 ≤ address
        → address + length payload ≤ 0x800
        → report outcome
          ≡ reported_run 0
              (record {
                error = ClientError.none;
                remote_status = Status.ok;
                request_id = 1;
                attempts = 1;
                bytes = [];
                detail = "ok";
              })
              (exchange_trace (write_request 1 address payload) acknowledgement)
    unfolding fresh make_client make_loopback make_memory_server
    granted_lem above below =
        let w = writable_lem.1 above below in
        let is =
          (write_reply s quiet.is_map client.next_request_id address payload quiet.request_id within
            valid low high w answer.serves).0 in
        let got =
          write-loopback client quiet address (pos 100) refl within payload valid low high w in
        report-reported_run outcome 0 _
          (exchange_trace (write_request 1 address payload) acknowledgement) got.0
          (write_trace acknowledgement is) refl
