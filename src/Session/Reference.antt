-- ===== src/Session/Reference.antt =====
-- Sessions without faults, against a device that answers at once.
use mathlib.Core.List.{map}
use industrial_memory_protoc.Prelude.{
  ℕ, ◌+◌, ◌≡◌, refl, ap, ap₂, ◌∙◌, Bool, true, false, ◌&&◌, List, [], ◌∷◌, All, length, take, drop,
  arith, leb, if◌then◌else◌, Bool-cases, inl, inr,
}
use industrial_memory_protoc.Prelude.Bits.{IsByte, IsU32}
use industrial_memory_protoc.Server.{MemoryServer}
use industrial_memory_protoc.Transport.{ℤ, LoopbackTransport, loopback}
use industrial_memory_protoc.Client.Types.{ClientError, OperationResult, Client}
use industrial_memory_protoc.Client.{allocate_request_id, read, write}
use industrial_memory_protoc.Client.Operations.{
  is_refused, refused_iff, refused, ran, read-Operation, write-Operation,
}
use industrial_memory_protoc.Client.Loopback.Reads.{read-loopback, read-turned_down}
use industrial_memory_protoc.Client.Loopback.Writes.{write-loopback, write-turned_down}
use industrial_memory_protoc.Client.Loopback.WriteRequests.{IsWritable, stored}
use industrial_memory_protoc.Session.{run}
use industrial_memory_protoc.Session.Device.{Call, IsCall}
use industrial_memory_protoc.Session.Calls.{IsSession}
use industrial_memory_protoc.Session.Faultless.{IsSession-Quiet, read-faultless, write-faultless}
use industrial_memory_protoc.Session.Refinement.{run-Behaves}

-- What a caller takes from a result: its error, and the cells of a success.
abbrev pub Answer : Type 0
Answer = ClientError × List ℕ

abbrev pub cells_of : ClientError → List ℕ → List ℕ
cells_of ClientError.none bytes = bytes
cells_of _ bytes = []

abbrev pub answer : OperationResult → Answer
answer r = (r.error, cells_of r.error r.bytes)

abbrev pub is_writable : MemoryServer → ℕ → ℕ → Bool
is_writable s address len =
    s.policy.writes_enabled
    && leb s.policy.write_allow_begin address
    && leb (address + len) (s.policy.write_allow_end + 1)
    && leb 0x100 address
    && leb (address + len) 0x800

is_writable_iff :
    (s : MemoryServer) (address len : ℕ)
    → ((is_writable s address len ≡ true) → IsWritable s address len)
      × ((is_writable s address len ≡ false) → ¬ IsWritable s address len)
is_writable_iff s address len = ground arith

-- The device: a memory and its policy, without frames, identifiers or a transport.
unfoldable pub device_read : MemoryServer → ℕ → ℕ → ℤ → Answer
device_read s address len deadline =
    if is_refused len deadline
    then (ClientError.invalid_argument, [])
    else if leb (address + len) 0x800
    then (ClientError.none, take len (drop address s.memory.cells))
    else (ClientError.remote_error, [])

unfoldable pub device_write : MemoryServer → ℕ → List ℕ → ℤ → Answer × MemoryServer
device_write s address content deadline =
    if is_refused (length content) deadline
    then ((ClientError.invalid_argument, []), s)
    else if is_writable s address (length content)
    then ((ClientError.none, []), stored s address content)
    else ((ClientError.remote_error, []), s)

unfoldable pub device : List Call → MemoryServer → List Answer × MemoryServer
device [] s = ([], s)
device (Call.read address len deadline ∷ calls) s =
    let (answers, last) = device calls s in (device_read s address len deadline ∷ answers, last)
device (Call.write address content deadline ∷ calls) s =
    let (one, after) = device_write s address content deadline in
    let (answers, last) = device calls after in (one ∷ answers, last)
device (Call.inject fault ∷ calls) s = device calls s

-- The calls without those that queue a fault.
abbrev pub IsOperation : Call → Type 0
IsOperation (Call.inject fault) = ⊥
IsOperation call = IsCall call

module _ (c : Client LoopbackTransport) (q : IsSession c) (none_left : c.transport.faults ≡ [])
    (address : ℕ) (deadline : ℤ) (within : IsU32 address) where
  abbrev s : MemoryServer
  s = c.transport.server

  read_lem :
      (len : ℕ)
      → let (r, after) = read loopback c address len deadline in
        (answer r ≡ device_read s address len deadline) × (after.transport.server ≡ s)
  unfolding device_read allocate_request_id
  read_lem len = elim (Bool-cases (is_refused len deadline)) [
    | inl e ↦ elim (read-Operation loopback c address deadline len q.is_client.tries) [
      | refused closed bad b a i same ↦
          (rw (bad, e) refl, ap (λ (d : Client LoopbackTransport). d.transport.server) same)
      | ran asked encodes run ↦ absurd ((refused_iff len deadline).0 e asked)
    ]
    | inr e ↦
        let (low, high, positive) = (refused_iff len deadline).1 e in
        let quiet = IsSession-Quiet c q none_left in
        elim (Bool-cases (leb (address + len) 0x800)) [
          | inl below ↦
              let got =
                read-loopback c quiet address deadline positive within len low high
                  (ground (arith, below)) in
              (ap answer got.0 ∙ rw (e, below) refl, got.1)
          | inr above ↦
              let got =
                read-turned_down c quiet address deadline positive within len low high
                  (ground (arith, above)) in
              (ap answer got.0 ∙ rw (e, above) refl, got.1)
        ]
  ]

  write_lem :
      (content : List ℕ)
      → All IsByte content
      → let (r, after) = write loopback c address content deadline in
        (answer r, after.transport.server) ≡ device_write s address content deadline
  unfolding device_write allocate_request_id
  write_lem content valid = elim (Bool-cases (is_refused (length content) deadline)) [
    | inl e ↦ elim (write-Operation loopback c address deadline content) [
      | refused closed bad b a i same ↦
          let kept = ap (λ (d : Client LoopbackTransport). d.transport.server) same in
          rw (bad, kept, e) refl
      | ran asked encodes run ↦ absurd ((refused_iff (length content) deadline).0 e asked)
    ]
    | inr e ↦
        let (low, high, positive) = (refused_iff (length content) deadline).1 e in
        let quiet = IsSession-Quiet c q none_left in
        let allowed = is_writable_iff s address (length content) in
        elim (Bool-cases (is_writable s address (length content))) [
          | inl w ↦
              let done =
                write-loopback c quiet address deadline positive within content valid low high
                  (allowed.0 w) in
              rw (e, w) (ap₂ (λ r (v : MemoryServer). (answer r, v)) done.0 done.1)
          | inr w ↦
              let turned =
                write-turned_down c quiet address deadline positive within content valid low high
                  (allowed.1 w) in
              rw (e, w, turned.0, turned.2) refl
        ]
  ]

-- Without faults, a session is the device: for any sequence of reads and writes, from a well-formed
-- client with a well-formed map and no fault queued, `read` and `write` give exactly the errors and
-- the cells that the device answers, call by call, and leave the server as the device leaves its
-- memory. Addresses have 32 bits and contents are bytes; lengths and deadlines are arbitrary.
pub run-device :
    (calls : List Call) (c : Client LoopbackTransport)
    → IsSession c
    → c.transport.faults ≡ []
    → All IsOperation calls
    → (map answer (run calls c).0, (run calls c).1.transport.server)
      ≡ device calls c.transport.server
unfolding run device
run-device [] c q none_left fine = refl
run-device (Call.read address len deadline ∷ calls) c q none_left fine =
    let after = (read loopback c address len deadline).1 in
    let next : IsSession after =
      (run-Behaves (Call.read address len deadline ∷ []) c q (fine.0, tt)).1 in
    let one = read_lem c q none_left address deadline fine.0 len in
    let rest =
      run-device calls after next (read-faultless c q none_left address deadline len) fine.1 in
    ap₂ (λ a (o : List Answer × MemoryServer). (a ∷ o.0, o.1)) one.0
      (rest ∙ ap (device calls) one.1)
run-device (Call.write address content deadline ∷ calls) c q none_left fine =
    let after = (write loopback c address content deadline).1 in
    let next : IsSession after =
      (run-Behaves (Call.write address content deadline ∷ []) c q (fine.0, tt)).1 in
    let one = write_lem c q none_left address deadline fine.0.0 content fine.0.1 in
    let rest =
      run-device calls after next (write-faultless c q none_left address deadline content) fine.1 in
    ap₂ (λ a (o : List Answer × MemoryServer). (a ∷ o.0, o.1)) (ap (λ o. o.0) one)
      (rest ∙ ap (λ o. device calls o.1) one)
run-device (Call.inject fault ∷ calls) c q none_left fine = absurd fine.0
