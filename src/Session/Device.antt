-- ===== src/Session/Device.antt =====
-- What a caller may rely on: a memory behind a policy, without frames, transports or attempts.
use industrial_memory_protoc.Prelude.{ℕ, ◌≡◌, ◌≢◌, List, [], ◌∷◌, All, length, take, drop}
use industrial_memory_protoc.Prelude.Bits.{IsByte, IsU32}
use industrial_memory_protoc.Transport.{ℤ, TransportFault}
use industrial_memory_protoc.Server.{MemoryServer}
use industrial_memory_protoc.Client.Types.{ClientError, OperationResult}
use industrial_memory_protoc.Client.Loopback.Requests.{IsReadable}
use industrial_memory_protoc.Client.Loopback.WriteRequests.{IsWritable, stored}

-- Addresses have 32 bits and contents are bytes.
pub data Call : Type 0 where
  read : (address len : ℕ) → ℤ → Call
  write : (address : ℕ) → (content : List ℕ) → ℤ → Call
  inject : TransportFault → Call

abbrev pub IsCall : Call → Type 0
IsCall (Call.read address len deadline) = IsU32 address
IsCall (Call.write address content deadline) = IsU32 address × All IsByte content
IsCall (Call.inject fault) = Unit

-- A call on the device `s`, with the result that it reports and the device that it leaves. A read
-- that succeeds returns the cells as they are, and no read changes one. A write that succeeds has
-- stored its content, where the policy and the regions let it; one that fails has stored all of it,
-- where they let it, or nothing.
pub data Answers (s : MemoryServer) : Call → OperationResult → MemoryServer → Type 0 where
  read_ok :
      {address len : ℕ} {deadline : ℤ} {r : OperationResult} {s' : MemoryServer}
      → IsReadable address len
      → r.error ≡ ClientError.none
      → r.bytes ≡ take len (drop address s.memory.cells)
      → s' ≡ s
      → Answers s (Call.read address len deadline) r s'
  read_failed :
      {address len : ℕ} {deadline : ℤ} {r : OperationResult} {s' : MemoryServer}
      → r.error ≢ ClientError.none
      → s' ≡ s
      → Answers s (Call.read address len deadline) r s'
  write_ok :
      {address : ℕ} {content : List ℕ} {deadline : ℤ} {r : OperationResult} {s' : MemoryServer}
      → IsWritable s address (length content)
      → r.error ≡ ClientError.none
      → s' ≡ stored s address content
      → Answers s (Call.write address content deadline) r s'
  write_dropped :
      {address : ℕ} {content : List ℕ} {deadline : ℤ} {r : OperationResult} {s' : MemoryServer}
      → r.error ≢ ClientError.none
      → s' ≡ s
      → Answers s (Call.write address content deadline) r s'
  write_unacknowledged :
      {address : ℕ} {content : List ℕ} {deadline : ℤ} {r : OperationResult} {s' : MemoryServer}
      → r.error ≢ ClientError.none
      → IsWritable s address (length content)
      → s' ≡ stored s address content
      → Answers s (Call.write address content deadline) r s'

-- A sequence of calls, in order; a fault that is queued is no concern of the device.
pub data Behaves : MemoryServer → List Call → List OperationResult → MemoryServer → Type 0 where
  stops : {s : MemoryServer} → Behaves s [] [] s
  answers :
      {call : Call} {calls : List Call} {r : OperationResult} {rs : List OperationResult}
      {s s' s'' : MemoryServer}
      → Answers s call r s'
      → Behaves s' calls rs s''
      → Behaves s (call ∷ calls) (r ∷ rs) s''
  injects :
      {fault : TransportFault} {calls : List Call} {rs : List OperationResult} {s s' : MemoryServer}
      → Behaves s calls rs s'
      → Behaves s (Call.inject fault ∷ calls) rs s'
