-- ===== src/Client/Effects.antt =====
-- The steps of an operation: linking, exchanging, closing, and the verdict.
use industrial_memory_protoc.Prelude.{
  ℕ, ◌+◌, ◌%◌, ◌^◌, ◌<◌, ◌⊎◌, ◌≡◌, ◌≢◌, refl, ap, inl, inr, Bool, true, false, List, arith,
  Bool-cases,
}
use industrial_memory_protoc.Types.{Opcode, Frame}
use industrial_memory_protoc.Transport.{ℤ, TransportError, TransportReply, is_delivered, ITransport}
use industrial_memory_protoc.Client.Types.{OperationResult, Client, increment}
use industrial_memory_protoc.Client.{is_timeout, ensure_connected, exchange_once, after_failure}
use industrial_memory_protoc.Client.Verdict.{validate_response}
use industrial_memory_protoc.Client.Response.{validate_kept}
use industrial_memory_protoc.Client.Traffic.{linked, replied, sent}
use industrial_memory_protoc.Client.Metrics.{
  IsMetrics, is_protocol_error, is_connect_failed, verdict-Totals,
}
use industrial_memory_protoc.Client.Steps.{
  idle, dials, hangs_up, waits, exchanges, Step, Step-trans,
}

unmoved : (n n' : ℕ) → n < 2 ^ 64 → n' ≡ n → n' ≡ (n + 0) % 2 ^ 64
unmoved n n' small same = omega (arith, small, same)

delivered_in_time : (r : TransportReply) → is_delivered r ≡ true → r.error ≢ TransportError.timeout
delivered_in_time r came late = cc (came, ap is_sound late)
  where
    is_sound : TransportError → Bool
    is_sound TransportError.none = true
    is_sound _ = false

timeout_cases :
    (e : TransportError)
    → ((is_timeout e ≡ true) × (e ≡ TransportError.timeout))
      ⊎ ((is_timeout e ≡ false) × (e ≢ TransportError.timeout))
timeout_cases e = ground arith

module _ {T : Type 0} (i : ITransport T) (bytes : List ℕ) (deadline : ℤ) (c : Client T)
    (valid : IsMetrics c.metrics) where
  standing_lem : i.connected c.transport ≡ true → linked i c ≡ c
  unfolding ensure_connected
  standing_lem e = rw (linked, ensure_connected, e) refl

  abbrev connecting : Client T
  connecting = record c {
    metrics = record c.metrics { reconnects = increment c.metrics.reconnects };
    transport = (i.connect c.transport).1;
  }

  connecting_lem : i.connected c.transport ≡ false → linked i c ≡ connecting
  unfolding ensure_connected
  connecting_lem e = rw (linked, ensure_connected, e) refl

  -- A standing link is used as it is; a missing one is asked for, and counted.
  pub linked-Step : Step i bytes deadline c (linked i c) 0 0 false
  linked-Step = elim (Bool-cases (i.connected c.transport)) [
    | inl e ↦ rw (standing_lem e) (record {
      connections = 0;
      timed_out = 0;
      transport = idle refl refl refl refl;
      totals = ground arith;
      reconnects = unmoved c.metrics.reconnects c.metrics.reconnects valid.reconnects refl;
      timeouts = unmoved c.metrics.timeouts c.metrics.timeouts valid.timeouts refl;
      limit = refl;
    })
    | inr e ↦ rw (connecting_lem e) (record {
      connections = 1;
      timed_out = 0;
      transport = dials (idle refl refl refl refl) e refl refl;
      totals = ground arith;
      reconnects = refl;
      timeouts = unmoved c.metrics.timeouts c.metrics.timeouts valid.timeouts refl;
      limit = refl;
    })
  ]

  -- The exchange behind it, with the reply it gets.
  abbrev exchanged : Client T → Client T
  exchanged d = (exchange_once i d bytes deadline).1

  pub exchanged-Step :
      (d : Client T)
      → IsMetrics d.metrics
      → is_delivered (i.exchange d.transport bytes deadline).0 ≡ true
      → Step i bytes deadline d (exchanged d) 1 0 false
  unfolding exchange_once
  exchanged-Step d v came = record {
    connections = 0;
    timed_out = 0;
    transport =
        exchanges (idle refl refl refl refl)
          (delivered_in_time (i.exchange d.transport bytes deadline).0 came) refl refl;
    totals = ground arith;
    reconnects = unmoved d.metrics.reconnects d.metrics.reconnects v.reconnects refl;
    timeouts = unmoved d.metrics.timeouts d.metrics.timeouts v.timeouts refl;
    limit = refl;
  }

  -- The exchange, if it fails: a timeout is counted, and the transport closed.
  pub closed_exchange-Step :
      (d : Client T)
      → IsMetrics d.metrics
      → Step i bytes deadline d
          (after_failure i (exchanged d) (i.exchange d.transport bytes deadline).0.error)
          1
          0
          false
  unfolding exchange_once after_failure
  closed_exchange-Step d v = elim (timeout_cases (i.exchange d.transport bytes deadline).0.error) [
    | inl (flag, late) ↦ record {
      connections = 0;
      timed_out = 1;
      transport = hangs_up (waits (idle refl refl refl refl) late refl refl refl) refl;
      totals = ground arith;
      reconnects = unmoved d.metrics.reconnects d.metrics.reconnects v.reconnects refl;
      timeouts = rw flag refl;
      limit = refl;
    }
    | inr (flag, lost) ↦ record {
      connections = 0;
      timed_out = 0;
      transport = hangs_up (exchanges (idle refl refl refl refl) lost refl refl) refl;
      totals = ground arith;
      reconnects = unmoved d.metrics.reconnects d.metrics.reconnects v.reconnects refl;
      timeouts = rw flag (unmoved d.metrics.timeouts d.metrics.timeouts v.timeouts refl);
      limit = refl;
    }
  ]

  pub sent-Step :
      is_delivered (replied i c bytes deadline) ≡ true
      → Step i bytes deadline c (sent i c bytes deadline) 1 0 false
  sent-Step came =
      Step-trans i bytes deadline 1 0 linked-Step
        (exchanged-Step (linked i c) linked-Step.totals.valid came) refl refl

  pub closed-Step :
      Step i bytes deadline c
        (after_failure i (sent i c bytes deadline) (replied i c bytes deadline).error)
        1
        0
        false
  closed-Step =
      Step-trans i bytes deadline 1 0 linked-Step
        (closed_exchange-Step (linked i c) linked-Step.totals.valid) refl refl

  pub verdict-Step :
      (request : Frame) (response : List ℕ) (expected_opcode : Opcode)
      (expected_length attempts : ℕ)
      → let v = validate_response c request response expected_opcode expected_length attempts in
        Step i bytes deadline c v.1 0 0 (is_protocol_error v.0.error)
        × (is_connect_failed v.0.error ≡ false)
        × (v.0.attempts ≡ attempts)
  verdict-Step request response op len attempts =
      let v : OperationResult × Client T = validate_response c request response op len attempts in
      let t = verdict-Totals c request response op len attempts valid in
      let step : Step i bytes deadline c v.1 0 0 (is_protocol_error v.0.error) = record {
        connections = 0;
        timed_out = 0;
        transport = idle refl refl refl (validate_kept c request response op len attempts).1;
        totals = t.0;
        reconnects = unmoved c.metrics.reconnects v.1.metrics.reconnects valid.reconnects t.5;
        timeouts = unmoved c.metrics.timeouts v.1.metrics.timeouts valid.timeouts t.4;
        limit = t.3;
      } in
      (step, t.1, t.2)

-- `++retries`.
pub again-Step :
    {T : Type 0} (i : ITransport T) (bytes : List ℕ) (deadline : ℤ) {c c' : Client T}
    → Step i bytes deadline c c' 1 0 false
    → Step i bytes deadline c
        (record c' { metrics = record c'.metrics { retries = increment c'.metrics.retries } })
        1
        1
        false
again-Step i bytes deadline a = record {
  connections = a.connections;
  timed_out = a.timed_out;
  transport = a.transport;
  totals = ground (arith, a.totals.retries);
  reconnects = a.reconnects;
  timeouts = a.timeouts;
  limit = a.limit;
}
