-- ===== src/Session/Calls.antt =====
-- Where a session stands between two calls, and the errors of its results.
use industrial_memory_protoc.Prelude.{◌≡◌, ◌≢◌, ◌⊎◌, arith}
use industrial_memory_protoc.Memory.Store.{IsMap}
use industrial_memory_protoc.Transport.{LoopbackTransport}
use industrial_memory_protoc.Client.Types.{ClientError, Client}
use industrial_memory_protoc.Client.Accounts.{IsClient}

-- What a caller starts from: any faults may be queued, and the transport may be connected or not.
pub record IsSession (c : Client LoopbackTransport) : Type 0 where
  pub is_client : IsClient c
  pub is_map : IsMap c.transport.server.memory

pub error_cases : (e : ClientError) → (e ≡ ClientError.none) ⊎ (e ≢ ClientError.none)
error_cases e = ground arith
