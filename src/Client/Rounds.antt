-- ===== src/Client/Rounds.antt =====
-- `execute_read`: the rounds of its loop, and the loop.
use industrial_memory_protoc.Prelude.{
  ℕ, zero, suc, ◌+◌, ◌≤◌, ◌<◌, ◌≡◌, refl, ap, ◌∙◌, inl, inr, true, false, List, arith, Bool-cases,
  lt-cases, subst,
}
use industrial_memory_protoc.Types.{Opcode, Frame}
use industrial_memory_protoc.Transport.{ℤ, TransportReply, is_delivered, ITransport}
use industrial_memory_protoc.Transport.Names.{transport_error_name}
use industrial_memory_protoc.Client.Types.{ClientError, OperationResult, Client, increment}
use industrial_memory_protoc.Client.Response.{validate_kept}
use industrial_memory_protoc.Client.{
  Attempt, finished, again, is_transient, client_error_of, ensure_connected, exchange_once,
  after_failure, read_attempt, read_loop,
}
use industrial_memory_protoc.Client.Verdict.{failed, validate_response}
use industrial_memory_protoc.Client.Traffic.{
  Traffic, unlinks, sends, Ending, no_link, no_reply, judged, Run, ensure_lem, ensure-Links,
  client_error_of-IsLoss, linked, replied, sent, Traffic-ensure, Traffic-sent, sent_lem,
  after_failure_lem,
}

module _ {T : Type 0} (i : ITransport T) (bytes : List ℕ) (deadline : ℤ) where
  -- What one round of the read loop comes to, after `n` exchanges.
  data AttemptOutcome (request : Frame) (len : ℕ) (c : Client T) (t : T) (n : ℕ) (a : Attempt T)
      : Type 0 where
    stops :
        (o : OperationResult × Client T) (m : ℕ)
        → a ≡ finished o
        → m ≤ suc n
        → Traffic i bytes deadline t m o.1.transport
        → Ending i t request bytes deadline Opcode.data_response len m o.0 o.1.transport
        → o.0.request_id ≡ request.request_id
        → o.1.next_request_id ≡ c.next_request_id
        → AttemptOutcome request len c t n a
    continues :
        (c' : Client T)
        → a ≡ again c'
        → suc n < c.maximum_read_attempts
        → Traffic i bytes deadline t (suc n) c'.transport
        → c'.next_request_id ≡ c.next_request_id
        → c'.maximum_read_attempts ≡ c.maximum_read_attempts
        → AttemptOutcome request len c t n a

  module _ (request : Frame) (len attempt : ℕ) (c : Client T) where
    abbrev pub try : Attempt T
    try = read_attempt i request bytes len deadline attempt c

    pub try_unlinked :
        (ensure_connected i c).0 ≡ false
        → try
          ≡ finished (
            failed ClientError.connect_failed request.request_id attempt "transport connect failed",
            linked i c,
          )
    unfolding read_attempt
    try_unlinked e = ground arith

    pub try_judged :
        (ensure_connected i c).0 ≡ true
        → is_delivered (replied i c bytes deadline) ≡ true
        → try
          ≡ finished (
              validate_response
                (sent i c bytes deadline)
                request
                (replied i c bytes deadline).bytes
                Opcode.data_response
                len
                attempt)
    unfolding read_attempt exchange_once
    try_judged e d = ground arith

    abbrev pub closed : Client T
    closed = after_failure i (sent i c bytes deadline) (replied i c bytes deadline).error

    abbrev pub retried : Client T
    retried = record closed {
      metrics = record closed.metrics { retries = increment closed.metrics.retries };
    }

    pub try_again :
        (ensure_connected i c).0 ≡ true
        → is_delivered (replied i c bytes deadline) ≡ false
        → is_transient (replied i c bytes deadline).error ≡ true
        → attempt < c.maximum_read_attempts
        → try ≡ again retried
    unfolding read_attempt exchange_once
    try_again e d k h = ground arith

    pub try_gives_up :
        (ensure_connected i c).0 ≡ true
        → is_delivered (replied i c bytes deadline) ≡ false
        → c.maximum_read_attempts ≤ attempt
        → try
          ≡ finished (
            failed
                (client_error_of (replied i c bytes deadline).error)
                request.request_id
                attempt
                (transport_error_name (replied i c bytes deadline).error),
            closed,
          )
    unfolding read_attempt exchange_once
    try_gives_up e d h = ground arith

  pub undelivered : (r : TransportReply) → is_delivered r ≡ false → is_transient r.error ≡ true
  undelivered r = ground arith

  module _ (request : Frame) (len n : ℕ) (c : Client T) (t : T)
      (h : Traffic i bytes deadline t n c.transport) where
    abbrev OutcomeOf : Attempt T → Type 0
    OutcomeOf = AttemptOutcome request len c t n

    outcome_unlinked : (ensure_connected i c).0 ≡ false → OutcomeOf (try request len (suc n) c)
    outcome_unlinked e =
        stops
          (
            failed ClientError.connect_failed request.request_id (suc n) "transport connect failed",
            linked i c,
          )
          n (try_unlinked request len (suc n) c e) (omega arith)
          (Traffic-ensure i bytes deadline t n c h)
          (no_link c.transport h (ensure-Links i c false e) refl refl refl) refl (ensure_lem i c).1

    outcome_judged :
        (ensure_connected i c).0 ≡ true
        → is_delivered (replied i c bytes deadline) ≡ true
        → OutcomeOf (try request len (suc n) c)
    outcome_judged e d =
        let v =
          validate_response (sent i c bytes deadline) request (replied i c bytes deadline).bytes
            Opcode.data_response len (suc n) in
        let kept =
          validate_kept (sent i c bytes deadline) request (replied i c bytes deadline).bytes
            Opcode.data_response len (suc n) in
        let s = sent_lem i bytes deadline c in
        stops v (suc n) (try_judged request len (suc n) c e d) (omega arith)
          (sends (Traffic-ensure i bytes deadline t n c h) (kept.1 ∙ s.0))
          (judged (sent i c bytes deadline) n c.transport (linked i c).transport refl h
            (ensure-Links i c true e) (Traffic-ensure i bytes deadline t n c h) d refl
            (kept.1 ∙ s.0))
          kept.0 (kept.2 ∙ s.1)

    outcome_failed :
        (ensure_connected i c).0 ≡ true
        → is_delivered (replied i c bytes deadline) ≡ false
        → OutcomeOf (try request len (suc n) c)
    outcome_failed e d =
        let s = after_failure_lem i bytes deadline c (replied i c bytes deadline).error in
        let traffic = unlinks (Traffic-sent i bytes deadline t n c h) s.0 in
        elim (lt-cases (suc n) c.maximum_read_attempts) [
          | inl l ↦
              continues (retried request len (suc n) c)
                (try_again request len (suc n) c e d (undelivered (replied i c bytes deadline) d) l)
                l traffic s.1 s.2
          | inr l ↦
              stops
                (
                  failed (client_error_of (replied i c bytes deadline).error) request.request_id
                      (suc n) (transport_error_name (replied i c bytes deadline).error),
                  closed request len (suc n) c,
                )
                (suc n) (try_gives_up request len (suc n) c e d l) (omega arith) traffic
                (no_reply n c.transport (linked i c).transport refl h (ensure-Links i c true e) d
                  (client_error_of-IsLoss (replied i c bytes deadline).error) refl refl s.0)
                refl s.1
        ]

    try-AttemptOutcome : OutcomeOf (try request len (suc n) c)
    try-AttemptOutcome = elim (Bool-cases (ensure_connected i c).0) [
      | inr e ↦ outcome_unlinked e
      | inl e ↦ elim (Bool-cases (is_delivered (replied i c bytes deadline))) [
        | inl d ↦ outcome_judged e d
        | inr d ↦ outcome_failed e d
      ]
    ]

  module _ (request : Frame) (len : ℕ) (c₀ : Client T) where
    abbrev pub LoopRun : ℕ → OperationResult × Client T → Type 0
    LoopRun bound o = Run i c₀ request bytes deadline Opcode.data_response len bound o

    pub loop_finished :
        (left n : ℕ) (c : Client T) (o : OperationResult × Client T)
        → try request len (suc n) c ≡ finished o
        → read_loop i (suc left) request bytes len deadline (suc n) c ≡ o
    unfolding read_loop
    loop_finished left n c o e = rw (e, read_loop) refl

    pub loop_again :
        (left n : ℕ) (c c' : Client T)
        → try request len (suc n) c ≡ again c'
        → read_loop i (suc left) request bytes len deadline (suc n) c
          ≡ read_loop i left request bytes len deadline (suc (suc n)) c'
    unfolding read_loop
    loop_again left n c c' e =
        rw (e, read_loop) (ap (λ a. read_loop i left request bytes len deadline a c') (omega arith))

    loop_stops :
        (left n m : ℕ) (c : Client T) (o : OperationResult × Client T)
        → n + suc left ≡ c.maximum_read_attempts
        → c.next_request_id ≡ c₀.next_request_id
        → try request len (suc n) c ≡ finished o
        → m ≤ suc n
        → Traffic i bytes deadline c₀.transport m o.1.transport
        → Ending i c₀.transport request bytes deadline Opcode.data_response len m o.0 o.1.transport
        → o.0.request_id ≡ request.request_id
        → o.1.next_request_id ≡ c.next_request_id
        → LoopRun c.maximum_read_attempts
            (read_loop i (suc left) request bytes len deadline (suc n) c)
    loop_stops left n m c o total k e le traffic ending id next =
        rw (loop_finished left n c o e) (record {
          exchanges = m;
          within = omega (le, total, arith);
          traffic = traffic;
          ending = ending;
          request_id = id;
          next_id = next ∙ k;
        })

    pub read_loop-Run :
        (left n : ℕ) (c : Client T)
        → Traffic i bytes deadline c₀.transport n c.transport
        → c.next_request_id ≡ c₀.next_request_id
        → n + suc left ≡ c.maximum_read_attempts
        → LoopRun c.maximum_read_attempts
            (read_loop i (suc left) request bytes len deadline (suc n) c)
    read_loop-Run zero n c h k total = elim (try-AttemptOutcome request len n c c₀.transport h) [
      | stops o m e le traffic ending id next ↦
          loop_stops zero n m c o total k e le traffic ending id next
      | continues c' e l traffic next same ↦ absurd (omega (l, total, arith))
    ]
    read_loop-Run (suc left) n c h k total =
        elim (try-AttemptOutcome request len n c c₀.transport h) [
          | stops o m e le traffic ending id next ↦
              loop_stops (suc left) n m c o total k e le traffic ending id next
          | continues c' e l traffic next same ↦ rw (loop_again (suc left) n c c' e) (
              subst
                (λ b.
                  LoopRun b (read_loop i (suc left) request bytes len deadline (suc (suc n)) c'))
                same
                (read_loop-Run left (suc n) c' traffic (next ∙ k) (omega (total, same, arith))))
        ]
