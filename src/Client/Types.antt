-- ===== src/Client/Types.antt =====
-- include/imlp/client.hpp: the client's errors, counters, results and state.
use Prim.Native.String.{String}
use industrial_memory_protoc.Prelude.{ℕ, List, ◌+◌, ◌%◌, ◌^◌}
use industrial_memory_protoc.Types.{Status}

pub data ClientError : Type 0 where
  none invalid_argument connect_failed timeout disconnected encoding_failed malformed_response
        correlation_mismatch unexpected_response remote_error :
      ClientError

-- `ClientOptions`, which has one member.
abbrev pub default_maximum_read_attempts : ℕ
default_maximum_read_attempts = 2

pub record ClientMetrics : Type 0 where
  pub operations : ℕ
  pub transport_attempts : ℕ
  pub reconnects : ℕ
  pub retries : ℕ
  pub timeouts : ℕ
  pub protocol_errors : ℕ

pub record OperationResult : Type 0 where
  pub error : ClientError
  pub remote_status : Status
  pub request_id : ℕ
  pub attempts : ℕ
  pub bytes : List ℕ
  pub detail : String

-- The reference to the transport is the transport's state, of which the client is the only user.
pub record Client (T : Type 0) : Type 0 where
  pub maximum_read_attempts : ℕ
  pub metrics : ClientMetrics
  pub next_request_id : ℕ
  pub transport : T

-- `++` on a 64-bit counter.
abbrev pub increment : ℕ → ℕ
increment n = (n + 1) % 2 ^ 64
