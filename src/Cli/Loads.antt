-- ===== src/Cli/Loads.antt =====
-- The read that `run_read` makes, on every branch.
use industrial_memory_protoc.Prelude.{ℕ, ◌+◌, ◌^◌, ◌<◌, ◌≤◌, ◌≡◌, refl, take, drop, [], true}
use industrial_memory_protoc.Types.{Opcode, Status}
use industrial_memory_protoc.Memory.{make_memory_map}
use industrial_memory_protoc.Server.{
  MemoryServer, default_policy, make_memory_server, text_payload, handle,
}
use industrial_memory_protoc.Transport.{pos, LoopbackTransport, make_loopback, loopback}
use industrial_memory_protoc.Client.Types.{ClientError, OperationResult, Client}
use industrial_memory_protoc.Client.{allocate_request_id, make_client, read}
use industrial_memory_protoc.Client.Verdict.{failed}
use industrial_memory_protoc.Client.Traffic.{replied}
use industrial_memory_protoc.Client.Executes.{read_request}
use industrial_memory_protoc.Client.Operations.{is_refused, ready}
use industrial_memory_protoc.Client.Loopback.{Quiet}
use industrial_memory_protoc.Client.Loopback.Requests.{
  read_status, data_reply, read_answer, read_reply, read_rejection,
}
use industrial_memory_protoc.Client.Loopback.Reads.{read-loopback, read-turned_down, outcome_lem}
use industrial_memory_protoc.Cli.Commands.{fresh, report}
use industrial_memory_protoc.Cli.Exchanges.{exchange_trace, verdict_trace}
use industrial_memory_protoc.Codec.Frames.{encode_output}
use industrial_memory_protoc.Server.Handle.{rejection}
use industrial_memory_protoc.Server.Response.{Reply}
use industrial_memory_protoc.Server.Contract.{Served}
use industrial_memory_protoc.Cli.Runs.{fresh-Quiet, reported_run, report-reported_run}

abbrev pub client : Client LoopbackTransport
client = fresh default_policy

module _ (address len : ℕ) (within : address < 2 ^ 32) where
  abbrev outcome : OperationResult × Client LoopbackTransport
  outcome = read loopback client address len (pos 100)

  pub refused_lem :
      is_refused len (pos 100) ≡ true
      → report outcome
        ≡ reported_run 4
            (failed ClientError.invalid_argument 1 0
              "read length and deadline must be positive and bounded")
            []
  unfolding read allocate_request_id fresh make_client make_loopback
  refused_lem e =
      let result : outcome.0
          ≡ failed ClientError.invalid_argument 1 0
              "read length and deadline must be positive and bounded" =
        rw (e, read) refl in
      let trace : outcome.1.transport.trace ≡ [] = rw (e, read) refl in
      report-reported_run outcome 4
        (failed ClientError.invalid_argument 1 0
          "read length and deadline must be positive and bounded")
        [] result trace refl

  module _ (low : 1 ≤ len) (high : len ≤ 256) where
    abbrev s : MemoryServer
    s = client.transport.server

    quiet : Quiet client
    quiet = fresh-Quiet default_policy

    abbrev answer :
        Served s
          (read_request client.next_request_id address len)
          (handle s (encode_output (read_request client.next_request_id address len)))
    answer =
        read_answer s quiet.is_map client.next_request_id address len quiet.request_id within low
          high

    -- The trace of a read that reaches the server.
    read_trace :
        (reply : Reply)
        → answer.reply ≡ reply
        → outcome.1.transport.trace
          ≡ exchange_trace (read_request client.next_request_id address len) reply
    read_trace reply is =
        verdict_trace default_policy (read_request client.next_request_id address len) answer reply
          is outcome
          (replied loopback (ready client)
            (encode_output (read_request client.next_request_id address len)) (pos 100)).bytes
          Opcode.data_response len 1
          (outcome_lem client quiet address (pos 100) refl within len low high)

    pub denied_lem :
        0x800 < address + len
        → report outcome
          ≡ reported_run 4
              (record {
                error = ClientError.remote_error;
                remote_status = read_status address len;
                request_id = 1;
                attempts = 1;
                bytes = text_payload "read_rejected";
                detail = "remote request rejected";
              })
              (exchange_trace
                (read_request 1 address len)
                (rejection (read_status address len) "read_rejected"))
    unfolding fresh make_client make_loopback make_memory_server
    denied_lem above =
        let reply = rejection (read_status address len) "read_rejected" in
        let is =
          (read_rejection s quiet.is_map client.next_request_id address len quiet.request_id within
            low high above answer.serves).0 in
        let got = read-turned_down client quiet address (pos 100) refl within len low high above in
        report-reported_run outcome 4 _ (exchange_trace (read_request 1 address len) reply) got.0
          (read_trace reply is) refl

    pub granted_lem :
        address + len ≤ 0x800
        → report outcome
          ≡ reported_run 0
              (record {
                error = ClientError.none;
                remote_status = Status.ok;
                request_id = 1;
                attempts = 1;
                bytes = take len (drop address make_memory_map.cells);
                detail = "ok";
              })
              (exchange_trace (read_request 1 address len) (record {
                opcode = Opcode.data_response;
                status = Status.ok;
                payload = take len (drop address make_memory_map.cells);
                detail = "read_ok";
              }))
    unfolding fresh make_client make_loopback make_memory_server
    granted_lem below =
        let reply = data_reply s address len in
        let is =
          (read_reply s quiet.is_map client.next_request_id address len quiet.request_id within low
            high below answer.serves).0 in
        let got = read-loopback client quiet address (pos 100) refl within len low high below in
        report-reported_run outcome 0 _ (exchange_trace (read_request 1 address len) reply) got.0
          (read_trace reply is) refl
