-- ===== src/Client/Metrics.antt =====
-- The counters of a client, over any transport.
use industrial_memory_protoc.Prelude.{
  ℕ, ◌+◌, ◌%◌, ◌^◌, ◌<◌, ◌≡◌, ◌∙◌, inl, inr, Bool, true, false, List, arith, Option-cases,
  if◌then◌else◌,
}
use industrial_memory_protoc.Types.{Opcode, Frame, accepted}
use industrial_memory_protoc.Codec.Frames.{decode}
use industrial_memory_protoc.Client.Types.{ClientError, ClientMetrics, OperationResult, Client}
use industrial_memory_protoc.Client.Verdict.{validate_frame, validate_response}
use industrial_memory_protoc.Client.Response.{validate_some}

-- The counters hold values of their C++ type.
pub record IsMetrics (m : ClientMetrics) : Type 0 where
  pub operations : m.operations < 2 ^ 64
  pub transport_attempts : m.transport_attempts < 2 ^ 64
  pub reconnects : m.reconnects < 2 ^ 64
  pub retries : m.retries < 2 ^ 64
  pub timeouts : m.timeouts < 2 ^ 64
  pub protocol_errors : m.protocol_errors < 2 ^ 64

-- The errors that `protocol_errors` counts.
abbrev pub is_protocol_error : ClientError → Bool
is_protocol_error ClientError.malformed_response = true
is_protocol_error ClientError.correlation_mismatch = true
is_protocol_error ClientError.unexpected_response = true
is_protocol_error _ = false

abbrev pub is_connect_failed : ClientError → Bool
is_connect_failed ClientError.connect_failed = true
is_connect_failed _ = false

-- What a step from `m` to `m'` counts: exchanges, retries, and a protocol error or none.
pub record Totals (m m' : ClientMetrics) (exchanges again_sent : ℕ) (failed : Bool) : Type 0 where
  pub valid : IsMetrics m'
  pub operations : m'.operations ≡ m.operations
  pub transport_attempts : m'.transport_attempts ≡ (m.transport_attempts + exchanges) % 2 ^ 64
  pub retries : m'.retries ≡ (m.retries + again_sent) % 2 ^ 64
  pub protocol_errors :
      m'.protocol_errors ≡ (m.protocol_errors + (if failed then 1 else 0)) % 2 ^ 64

pub Totals-trans :
    {m m' m'' : ClientMetrics} {e r e' r' : ℕ} {failed : Bool} (exchanges again_sent : ℕ)
    → Totals m m' e r false
    → Totals m' m'' e' r' failed
    → exchanges ≡ e + e'
    → again_sent ≡ r + r'
    → Totals m m'' exchanges again_sent failed
Totals-trans {failed} exchanges again_sent a b sum_e sum_r = record {
  valid = b.valid;
  operations = b.operations ∙ a.operations;
  transport_attempts = omega (arith, a.transport_attempts, b.transport_attempts, sum_e);
  retries = omega (arith, a.retries, b.retries, sum_r);
  protocol_errors = ground (arith, a.protocol_errors, b.protocol_errors);
}

module _ {T : Type 0} (c : Client T) (request : Frame) (response : List ℕ)
    (expected_opcode : Opcode) (expected_length attempts : ℕ) (valid : IsMetrics c.metrics) where
  abbrev verdict : OperationResult × Client T
  verdict = validate_response c request response expected_opcode expected_length attempts

  frame-Totals :
      (frame : Frame)
      → let v = validate_frame c request frame expected_opcode expected_length attempts in
        Totals c.metrics v.1.metrics 0 0 (is_protocol_error v.0.error)
        × (is_connect_failed v.0.error ≡ false)
        × (v.0.attempts ≡ attempts)
        × (v.1.maximum_read_attempts ≡ c.maximum_read_attempts)
        × (v.1.metrics.timeouts ≡ c.metrics.timeouts)
        × (v.1.metrics.reconnects ≡ c.metrics.reconnects)
  unfolding validate_frame
  frame-Totals frame = ground arith

  pub verdict-Totals :
      Totals c.metrics verdict.1.metrics 0 0 (is_protocol_error verdict.0.error)
      × (is_connect_failed verdict.0.error ≡ false)
      × (verdict.0.attempts ≡ attempts)
      × (verdict.1.maximum_read_attempts ≡ c.maximum_read_attempts)
      × (verdict.1.metrics.timeouts ≡ c.metrics.timeouts)
      × (verdict.1.metrics.reconnects ≡ c.metrics.reconnects)
  unfolding validate_response
  verdict-Totals = elim (Option-cases (accepted (decode response))) [
    | inl e ↦ rw (e, validate_response) (ground arith)
    | inr (frame, e) ↦
        rw (validate_some c request response expected_opcode expected_length attempts frame e)
          (frame-Totals frame)
  ]
