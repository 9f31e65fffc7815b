-- ===== src/Client/Accounts.antt =====
-- What `read` and `write` add to the counters, and that they keep a client well-formed.
use Prim.Native.String.{◌++◌ as str_append}
use industrial_memory_protoc.Prelude.{
  ℕ, suc, ◌+◌, ◌-◌, ◌%◌, ◌^◌, ◌≤◌, ◌<◌, ◌≡◌, refl, sym, subst, inl, inr, List, arith, Bool-cases,
  if◌then◌else◌,
}
use industrial_memory_protoc.Types.{Opcode}
use industrial_memory_protoc.Codec.Frames.{encode_output}
use industrial_memory_protoc.Codec.RoundTrip.{Encodable}
use industrial_memory_protoc.Transport.{ℤ, ITransport, is_delivered}
use industrial_memory_protoc.Transport.Names.{transport_error_name}
use industrial_memory_protoc.Client.Types.{ClientError, OperationResult, Client, increment}
use industrial_memory_protoc.Client.{
  ensure_connected, read_loop, execute_read, execute_write, allocate_request_id, read, read_loop,
  write,
}
use industrial_memory_protoc.Client.Traffic.{replied}
use industrial_memory_protoc.Client.Executes.{
  execute_read_lem, read_request, write_request, read_request-Encodable, write_request-Encodable,
  unlinked_lem, judged_lem, failed_lem,
}
use industrial_memory_protoc.Client.Operations.{
  ready, read-execute_read, write-execute_write, refused, ran, read-Operation, write-Operation,
}
use industrial_memory_protoc.Client.Steps.{Use, idle}
use industrial_memory_protoc.Client.Metrics.{IsMetrics, is_protocol_error, is_connect_failed}
use industrial_memory_protoc.Client.Tallies.{
  Tally, unlinked_Tally, judged_Tally, closed_Tally, loop_Tally,
}

-- The members of a client hold values of their C++ types; the identifier is not zero, and a read is
-- tried at least once.
pub record IsClient {T : Type 0} (c : Client T) : Type 0 where
  pub metrics : IsMetrics c.metrics
  pub above : 1 ≤ c.next_request_id
  pub below : c.next_request_id < 2 ^ 32
  pub tries : 1 ≤ c.maximum_read_attempts

-- What an operation from `c` with the request's bytes does, in at most `bound` attempts: the counters
-- tell what the result reports, and how the transport was used.
pub record Accounted {T : Type 0} (i : ITransport T) (bytes : List ℕ) (deadline : ℤ) (bound : ℕ)
    (c : Client T) (o : OperationResult × Client T) : Type 0 where
  pub connections : ℕ
  pub timed_out : ℕ
  pub transport :
      Use i bytes deadline c.transport
        (o.0.attempts - (if is_connect_failed o.0.error then 1 else 0))
        connections
        timed_out
        o.1.transport
  pub operations : o.1.metrics.operations ≡ (c.metrics.operations + 1) % 2 ^ 64
  pub transport_attempts :
      o.1.metrics.transport_attempts
      ≡ (c.metrics.transport_attempts
          + (o.0.attempts - (if is_connect_failed o.0.error then 1 else 0)))
        % 2 ^ 64
  pub reconnects : o.1.metrics.reconnects ≡ (c.metrics.reconnects + connections) % 2 ^ 64
  pub timeouts : o.1.metrics.timeouts ≡ (c.metrics.timeouts + timed_out) % 2 ^ 64
  pub retries : o.1.metrics.retries ≡ (c.metrics.retries + (o.0.attempts - 1)) % 2 ^ 64
  pub protocol_errors :
      o.1.metrics.protocol_errors
      ≡ (c.metrics.protocol_errors + (if is_protocol_error o.0.error then 1 else 0)) % 2 ^ 64
  pub attempts : o.0.attempts ≤ bound
  pub limit : o.1.maximum_read_attempts ≡ c.maximum_read_attempts
  pub valid : IsClient o.1

module _ {T : Type 0} (c : Client T) (q : IsClient c) where
  ready-IsClient : IsClient (ready c)
  unfolding allocate_request_id
  ready-IsClient = record {
    metrics = record {
      operations = omega arith;
      transport_attempts = q.metrics.transport_attempts;
      reconnects = q.metrics.reconnects;
      retries = q.metrics.retries;
      timeouts = q.metrics.timeouts;
      protocol_errors = q.metrics.protocol_errors;
    };
    above = ground arith;
    below = ground arith;
    tries = q.tries;
  }

  ready_lem :
      ((ready c).metrics ≡ record c.metrics { operations = increment c.metrics.operations })
      × ((ready c).maximum_read_attempts ≡ c.maximum_read_attempts)
  unfolding allocate_request_id
  ready_lem = (refl, refl)

  module _ (i : ITransport T) (bytes : List ℕ) (deadline : ℤ) where
    Tally-Accounted :
        (most : ℕ) (o : OperationResult × Client T)
        → o.1.next_request_id ≡ (ready c).next_request_id
        → Tally i bytes deadline (ready c) 0 most o
        → Accounted i bytes deadline (suc most) c o
    unfolding allocate_request_id
    Tally-Accounted most o next t =
        let used : t.more + (if is_connect_failed o.0.error then 0 else 1)
            ≡ o.0.attempts - (if is_connect_failed o.0.error then 1 else 0) =
          ground (arith, t.attempts) in
        let totals = t.step.totals in
        record {
          connections = t.step.connections;
          timed_out = t.step.timed_out;
          transport =
              subst
                (λ n.
                  Use i bytes deadline c.transport n t.step.connections t.step.timed_out
                    o.1.transport)
                used t.step.transport;
          operations = totals.operations;
          transport_attempts = ground (arith, totals.transport_attempts, t.attempts);
          reconnects = t.step.reconnects;
          timeouts = t.step.timeouts;
          retries = ground (arith, totals.retries, t.attempts);
          protocol_errors = totals.protocol_errors;
          attempts = omega (arith, t.attempts, t.bound);
          limit = t.step.limit;
          valid = record {
            metrics = totals.valid;
            above = rw next ready-IsClient.above;
            below = rw next ready-IsClient.below;
            tries = rw t.step.limit q.tries;
          };
        }

    refused-Accounted :
        (bound : ℕ) (o : OperationResult × Client T)
        → o.0.error ≡ ClientError.invalid_argument
        → o.0.attempts ≡ 0
        → o.1 ≡ ready c
        → Accounted i bytes deadline bound c o
    unfolding allocate_request_id
    refused-Accounted bound o e a same =
        let m = q.metrics in
        rw (same, e, a)
          (record {
            connections = 0;
            timed_out = 0;
            transport = idle refl refl refl refl;
            operations = refl;
            transport_attempts = omega (arith, m.transport_attempts);
            reconnects = omega (arith, m.reconnects);
            timeouts = omega (arith, m.timeouts);
            retries = omega (arith, m.retries);
            protocol_errors = omega (arith, m.protocol_errors);
            attempts = omega arith;
            limit = refl;
            valid = ready-IsClient;
          })

  module _ (i : ITransport T) (address : ℕ) (deadline : ℤ) where
    read_Tally :
        (len : ℕ)
        → let request = read_request c.next_request_id address len in
          Tally i
            (encode_output request)
            deadline
            (ready c)
            0
            (c.maximum_read_attempts - 1)
            (execute_read i (ready c) request len deadline)
    unfolding allocate_request_id
    read_Tally len =
        let request = read_request c.next_request_id address len in
        let left = c.maximum_read_attempts - 1 in
        let rounds : c.maximum_read_attempts ≡ suc left = omega (arith, q.tries) in
        rw
          (execute_read_lem i (ready c) request deadline
            (read_request-Encodable c.next_request_id address len) len)
          (subst
            (λ m.
              Tally i (encode_output request) deadline (ready c) 0 left
                (read_loop i m request (encode_output request) len deadline 1 (ready c)))
            (sym rounds)
            (loop_Tally i (encode_output request) deadline request len left 0 (ready c)
              ready-IsClient.metrics (omega (arith, rounds))))

    write_Tally :
        (content : List ℕ)
        → let request = write_request c.next_request_id address content in
          Encodable request
          → Tally i
              (encode_output request)
              deadline
              (ready c)
              0
              0
              (execute_write i (ready c) request deadline)
    write_Tally content encodable =
        let request = write_request c.next_request_id address content in
        let wire = encode_output request in
        let m = ready-IsClient.metrics in
        elim (Bool-cases (ensure_connected i (ready c)).0) [
          | inr down ↦
              rw (unlinked_lem i (ready c) request deadline encodable down)
                (unlinked_Tally i wire deadline (ready c) m request 0 0)
          | inl up ↦ elim (Bool-cases (is_delivered (replied i (ready c) wire deadline))) [
            | inl came ↦ rw (judged_lem i (ready c) request deadline encodable up came) (
                judged_Tally i wire deadline (ready c) m request 0 0 Opcode.write_acknowledgement 0
                  came)
            | inr lost ↦ rw (failed_lem i (ready c) request deadline encodable up lost) (
                closed_Tally i wire deadline (ready c) m request 0 0 (
                  str_append "write not retried: "
                    (transport_error_name (replied i (ready c) wire deadline).error)))
          ]
        ]

    -- From a well-formed client, `read` leaves a well-formed one after at most its maximum of
    -- attempts, and its counters tell what its result reports and how it used the transport: one
    -- more operation; as many more exchanges of its request as it reports attempts, less one if
    -- the last could not connect; a retry for each attempt behind the first; a reconnection for each
    -- time it asked the transport for a connection, where there was none; a timeout for each exchange
    -- that timed out; and one more protocol error exactly if its error is of that kind, all in 64 bits.
    pub read-Accounted :
        (len : ℕ)
        → Accounted i
            (encode_output (read_request c.next_request_id address len))
            deadline
            c.maximum_read_attempts
            c
            (read i c address len deadline)
    read-Accounted len =
        let wire = encode_output (read_request c.next_request_id address len) in
        elim (read-Operation i c address deadline len q.tries) [
          | refused closed e b a r same ↦
              refused-Accounted i wire deadline c.maximum_read_attempts
                (read i c address len deadline) e a same
          | ran (low, high, positive) en run ↦
              let rounds : suc (c.maximum_read_attempts - 1) ≡ c.maximum_read_attempts =
                omega (arith, q.tries) in
              subst (λ m. Accounted i wire deadline m c (read i c address len deadline)) rounds
                (Tally-Accounted i wire deadline (c.maximum_read_attempts - 1)
                  (read i c address len deadline) run.next_id
                  (rw
                    (read-execute_read i c address deadline len
                      (ground (arith, low, high, positive)))
                    (read_Tally len)))
        ]

    -- From a well-formed client, `write` leaves a well-formed one after at most one attempt, so
    -- without a retry, and its counters tell what its result reports and how it used the transport:
    -- one more operation; as many more exchanges of its request as it reports attempts, less one if
    -- it could not connect; a reconnection if it asked the transport for a connection, where there
    -- was none; a timeout if its exchange timed out; and one more protocol error exactly if its error
    -- is of that kind, all in 64 bits.
    pub write-Accounted :
        (content : List ℕ)
        → Accounted i
            (encode_output (write_request c.next_request_id address content))
            deadline
            1
            c
            (write i c address content deadline)
    write-Accounted content =
        let wire = encode_output (write_request c.next_request_id address content) in
        elim (write-Operation i c address deadline content) [
          | refused closed e b a r same ↦
              refused-Accounted i wire deadline 1 (write i c address content deadline) e a same
          | ran (low, high, positive) en run ↦
              Tally-Accounted i wire deadline 0 (write i c address content deadline) run.next_id (
                rw
                  (write-execute_write i c address deadline content
                    (ground (arith, low, high, positive)))
                  (write_Tally content (
                    write_request-Encodable c.next_request_id address content (ground (arith, low))
                      high)))
        ]
