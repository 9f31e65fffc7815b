-- ===== src/Client/Tallies.antt =====
-- What `read` and `write` add to the counters, and that they keep a client well-formed.
use Prim.Native.String.{String}
use industrial_memory_protoc.Prelude.{
  ℕ, zero, suc, ◌+◌, ◌<◌, ◌≤◌, ◌≡◌, refl, ◌∙◌, inl, inr, true, false, List, arith, Bool-cases,
  lt-cases, if◌then◌else◌,
}
use industrial_memory_protoc.Types.{Opcode, Frame}
use industrial_memory_protoc.Transport.{ℤ, TransportError, ITransport, is_delivered}
use industrial_memory_protoc.Transport.Names.{transport_error_name}
use industrial_memory_protoc.Client.Types.{ClientError, OperationResult, Client}
use industrial_memory_protoc.Client.{client_error_of, ensure_connected, read_loop, after_failure}
use industrial_memory_protoc.Client.Verdict.{failed, validate_response}
use industrial_memory_protoc.Client.Traffic.{linked, sent, replied}
use industrial_memory_protoc.Client.Rounds.{
  try_unlinked, try_judged, try_again, try_gives_up, undelivered, retried, closed, loop_finished,
  loop_again,
}
use industrial_memory_protoc.Client.Metrics.{IsMetrics, is_protocol_error, is_connect_failed}
use industrial_memory_protoc.Client.Steps.{Step, Step-trans}
use industrial_memory_protoc.Client.Effects.{
  linked-Step, sent-Step, closed-Step, verdict-Step, again-Step,
}

module _ {T : Type 0} (i : ITransport T) (bytes : List ℕ) (deadline : ℤ) where
  -- What an operation that has made `n` attempts before adds from the client `c` on, with `most`
  -- further attempts behind its next one.
  pub record Tally (c : Client T) (n most : ℕ) (o : OperationResult × Client T) : Type 0 where
    pub more : ℕ
    pub bound : more ≤ most
    pub attempts : o.0.attempts ≡ suc n + more
    pub step :
        Step i bytes deadline c o.1
          (more + (if is_connect_failed o.0.error then 0 else 1))
          more
          (is_protocol_error o.0.error)

  client_error_lem :
      (e : TransportError)
      → (is_connect_failed (client_error_of e) ≡ false)
        × (is_protocol_error (client_error_of e) ≡ false)
  client_error_lem e = ground arith

  module _ (c : Client T) (valid : IsMetrics c.metrics) (request : Frame) (n most : ℕ) where
    pub unlinked_Tally : Tally c n most (
      failed ClientError.connect_failed request.request_id (suc n) "transport connect failed",
      linked i c,
    )
    unlinked_Tally = record {
      more = 0;
      bound = omega arith;
      attempts = omega arith;
      step = linked-Step i bytes deadline c valid;
    }

    pub judged_Tally :
        (expected_opcode : Opcode) (len : ℕ)
        → is_delivered (replied i c bytes deadline) ≡ true
        → Tally c n most (
            validate_response
              (sent i c bytes deadline)
              request
              (replied i c bytes deadline).bytes
              expected_opcode
              len
              (suc n))
    judged_Tally op len came =
        let s = sent-Step i bytes deadline c valid came in
        let v =
          verdict-Step i bytes deadline (sent i c bytes deadline) s.totals.valid request
            (replied i c bytes deadline).bytes op len (suc n) in
        record {
          more = 0;
          bound = omega arith;
          attempts = v.2 ∙ omega arith;
          step = rw v.1 (Step-trans i bytes deadline 1 0 s v.0 refl refl);
        }

    pub closed_Tally :
        (detail : String)
        → let e = (replied i c bytes deadline).error in
          Tally c n most (
            failed (client_error_of e) request.request_id (suc n) detail,
            after_failure i (sent i c bytes deadline) e,
          )
    closed_Tally detail =
        let same = client_error_lem (replied i c bytes deadline).error in
        record {
          more = 0;
          bound = omega arith;
          attempts = omega arith;
          step = rw (same.0, same.1) (closed-Step i bytes deadline c valid);
        }

    pub retried-Step :
        (len : ℕ)
        → Step i bytes deadline c (retried i bytes deadline request len (suc n) c) 1 1 false
    retried-Step len = again-Step i bytes deadline (closed-Step i bytes deadline c valid)

  module _ (request : Frame) (len : ℕ) where
    -- The attempts behind the first, counted from the client before them.
    later_Tally :
        (c c' : Client T) (n most : ℕ) (o : OperationResult × Client T)
        → Step i bytes deadline c c' 1 1 false
        → Tally c' (suc n) most o
        → Tally c n (suc most) o
    later_Tally c c' n most o first t = record {
      more = suc t.more;
      bound = omega (arith, t.bound);
      attempts = omega (arith, t.attempts);
      step =
          Step-trans i bytes deadline (suc t.more + (if is_connect_failed o.0.error then 0 else 1))
            (suc t.more) first t.step (omega arith) (omega arith);
    }

    -- How a round of the loop goes on.
    data Round (left n : ℕ) (c : Client T) : Type 0 where
      over :
          (o : OperationResult × Client T)
          → read_loop i (suc left) request bytes len deadline (suc n) c ≡ o
          → Tally c n left o
          → Round left n c
      repeats :
          (c' : Client T)
          → suc n < c.maximum_read_attempts
          → read_loop i (suc left) request bytes len deadline (suc n) c
            ≡ read_loop i left request bytes len deadline (suc (suc n)) c'
          → Step i bytes deadline c c' 1 1 false
          → Round left n c

    Round-lost :
        (left n : ℕ) (c : Client T)
        → IsMetrics c.metrics
        → (ensure_connected i c).0 ≡ true
        → is_delivered (replied i c bytes deadline) ≡ false
        → Round left n c
    Round-lost left n c valid up lost =
        let r = replied i c bytes deadline in
        elim (lt-cases (suc n) c.maximum_read_attempts) [
          | inl more ↦
              let next = retried i bytes deadline request len (suc n) c in
              let again =
                try_again i bytes deadline request len (suc n) c up lost
                  (undelivered i bytes deadline r lost) more in
              repeats next more (loop_again i bytes deadline request len c left n c next again)
                (retried-Step c valid request n left len)
          | inr last ↦
              let o : OperationResult × Client T = (
                failed (client_error_of r.error) request.request_id (suc n)
                    (transport_error_name r.error),
                closed i bytes deadline request len (suc n) c,
              ) in
              over o
                (loop_finished i bytes deadline request len c left n c o
                  (try_gives_up i bytes deadline request len (suc n) c up lost last))
                (closed_Tally c valid request n left (transport_error_name r.error))
        ]

    round_lem : (left n : ℕ) (c : Client T) → IsMetrics c.metrics → Round left n c
    round_lem left n c valid = elim (Bool-cases (ensure_connected i c).0) [
      | inr down ↦
          let o : OperationResult × Client T = (
            failed ClientError.connect_failed request.request_id (suc n) "transport connect failed",
            linked i c,
          ) in
          over o
            (loop_finished i bytes deadline request len c left n c o
              (try_unlinked i bytes deadline request len (suc n) c down))
            (unlinked_Tally c valid request n left)
      | inl up ↦ elim (Bool-cases (is_delivered (replied i c bytes deadline))) [
        | inl came ↦
            let o : OperationResult × Client T =
              validate_response (sent i c bytes deadline) request (replied i c bytes deadline).bytes
                Opcode.data_response len (suc n) in
            over o
              (loop_finished i bytes deadline request len c left n c o
                (try_judged i bytes deadline request len (suc n) c up came))
              (judged_Tally c valid request n left Opcode.data_response len came)
        | inr lost ↦ Round-lost left n c valid up lost
      ]
    ]

    pub loop_Tally :
        (left n : ℕ) (c : Client T)
        → IsMetrics c.metrics
        → n + suc left ≡ c.maximum_read_attempts
        → Tally c n left (read_loop i (suc left) request bytes len deadline (suc n) c)
    loop_Tally zero n c valid rounds = elim (round_lem 0 n c valid) [
      | over o e t ↦ rw e t
      | repeats c' more e k ↦ absurd (omega (arith, more, rounds))
    ]
    loop_Tally (suc left) n c valid rounds = elim (round_lem (suc left) n c valid) [
      | over o e t ↦ rw e t
      | repeats c' more e k ↦
          let rest = loop_Tally left (suc n) c' k.totals.valid (omega (arith, rounds, k.limit)) in
          rw e (
            later_Tally c c' n left
              (read_loop i (suc left) request bytes len deadline (suc (suc n)) c') k rest)
    ]
