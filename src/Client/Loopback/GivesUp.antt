-- ===== src/Client/Loopback/GivesUp.antt =====
-- Reads over a loopback transport where every permitted exchange fails.
use industrial_memory_protoc.Prelude.{
  inl, inr, suc, List, [], ◌∷◌, ◌++◌, All, length, ℕ, ◌+◌, ◌≤◌, ◌≡◌, refl, ap, ◌∙◌, false, arith,
}
use industrial_memory_protoc.Types.{Frame}
use industrial_memory_protoc.Codec.Frames.{encode_output}
use industrial_memory_protoc.Transport.{
  TransportFault, ℤ, not_positive, LoopbackTransport, loopback,
}
use industrial_memory_protoc.Transport.Names.{transport_error_name}
use industrial_memory_protoc.Transport.Faults.{IsOutage, outage_error}
use industrial_memory_protoc.Client.Types.{Client, ClientError, OperationResult}
use industrial_memory_protoc.Client.{client_error_of, read_loop, allocate_request_id, read}
use industrial_memory_protoc.Client.Verdict.{failed}
use industrial_memory_protoc.Client.Traffic.{replied}
use industrial_memory_protoc.Client.Executes.{
  execute_read_lem, read_request, read_request-Encodable,
}
use industrial_memory_protoc.Client.Operations.{ready, read-execute_read}
use industrial_memory_protoc.Client.Rounds.{
  try_gives_up, try_again, undelivered, retried, loop_finished, loop_again,
}
use industrial_memory_protoc.Client.Loopback.{outage_lem, linked_lem}
use industrial_memory_protoc.Client.Loopback.Retries.{shut, shut_lem}

-- What a read reports for an outage.
abbrev pub reported_error : TransportFault → ClientError
reported_error TransportFault.timeout = ClientError.timeout
reported_error _ = ClientError.disconnected

reported_error_lem :
    (fault : TransportFault)
    → IsOutage fault
    → client_error_of (outage_error fault) ≡ reported_error fault
reported_error_lem fault (inl e) = rw e refl
reported_error_lem fault (inr e) = rw e refl

-- An operation that fails with the error of an outage.
abbrev pub Fails :
    TransportFault
    → ℕ
    → List TransportFault
    → Client LoopbackTransport
    → OperationResult × Client LoopbackTransport
    → Type 0
Fails fault attempts rest c o =
    (o.0.error ≡ reported_error fault)
    × (o.0.attempts ≡ attempts)
    × (o.0.bytes ≡ [])
    × (o.1.transport.faults ≡ rest)
    × (o.1.transport.server ≡ c.transport.server)

module _ (request : Frame) (len : ℕ) (deadline : ℤ) (positive : not_positive deadline ≡ false)
    (last : TransportFault) (rest : List TransportFault) (final : IsOutage last) where
  abbrev wire : List ℕ
  wire = encode_output request

  last_round :
      (n : ℕ) (c : Client LoopbackTransport)
      → c.transport.faults ≡ last ∷ rest
      → n + 1 ≡ c.maximum_read_attempts
      → Fails last (suc n) rest c (read_loop loopback 1 request wire len deadline (suc n) c)
  last_round n c front rounds =
      let o = outage_lem c deadline positive last rest front final wire in
      let k = shut_lem request len deadline positive c last rest front final in
      let r = replied loopback c wire deadline in
      let stop =
        loop_finished loopback wire deadline request len c 0 n c
          (
            failed (client_error_of r.error) request.request_id (suc n)
                (transport_error_name r.error),
            shut request len deadline positive c,
          )
          (try_gives_up loopback wire deadline request len (suc n) c (linked_lem c).0 o.0
            (omega (arith, rounds))) in
      rw stop (ap client_error_of o.3 ∙ reported_error_lem last final, refl, refl, k.0, k.1)

  rounds_lem :
      (earlier : List TransportFault) (n : ℕ) (c : Client LoopbackTransport)
      → All IsOutage earlier
      → c.transport.faults ≡ earlier ++ last ∷ rest
      → n + suc (length earlier) ≡ c.maximum_read_attempts
      → Fails last c.maximum_read_attempts rest c
          (read_loop loopback (suc (length earlier)) request wire len deadline (suc n) c)
  rounds_lem [] n c out front rounds =
      let now : suc n ≡ c.maximum_read_attempts = omega (arith, rounds) in
      let f = last_round n c front (omega (arith, rounds)) in (f.0, f.1 ∙ now, f.2, f.3, f.4)
  rounds_lem (f ∷ fs) n c out front rounds =
      let r = replied loopback c wire deadline in
      let failed_now = (outage_lem c deadline positive f (fs ++ last ∷ rest) front out.0 wire).0 in
      let k = shut_lem request len deadline positive c f (fs ++ last ∷ rest) front out.0 in
      let next = retried loopback wire deadline request len (suc n) c in
      let again = loop_again loopback wire deadline request len c (suc (length fs)) n c next (
        try_again loopback wire deadline request len (suc n) c (linked_lem c).0 failed_now
          (undelivered loopback wire deadline r failed_now) (omega (arith, rounds))) in
      let more = rounds_lem fs (suc n) next out.1 k.0 (omega (arith, rounds, k.2)) in
      rw again (more.0, more.1 ∙ k.2, more.2, more.3, more.4 ∙ k.1)

-- As many outages are queued in front as the client may try, the last of them `last`.
pub record Exhausts (c : Client LoopbackTransport) (earlier : List TransportFault)
    (last : TransportFault) (rest : List TransportFault) : Type 0 where
  pub faults : c.transport.faults ≡ earlier ++ last ∷ rest
  pub outages : All IsOutage earlier
  pub final : IsOutage last
  pub enough : length earlier + 1 ≡ c.maximum_read_attempts

-- A read gives up once it has made all its attempts: over a loopback transport with as many timeouts
-- or dropped connections queued in front as the client may try, a read of 1 to 256 bytes with a
-- positive deadline ends after that many attempts, and reports a timeout if the last of these
-- faults is one and a lost connection if not, with no bytes; the faults behind them stay queued and
-- the server stays as it was.
pub read-gives_up :
    (c : Client LoopbackTransport) (earlier : List TransportFault) (last : TransportFault)
    (rest : List TransportFault)
    → Exhausts c earlier last rest
    → (address len : ℕ) (deadline : ℤ) → not_positive deadline ≡ false
    → 1 ≤ len
    → len ≤ 256
    → Fails last c.maximum_read_attempts rest c (read loopback c address len deadline)
unfolding allocate_request_id
read-gives_up c earlier last rest x address len deadline positive low high =
    let asked = read_request c.next_request_id address len in
    let rounds : c.maximum_read_attempts ≡ suc (length earlier) = omega (arith, x.enough) in
    let run =
      read-execute_read loopback c address deadline len (ground (arith, low, high, positive))
      ∙ execute_read_lem loopback (ready c) asked deadline
          (read_request-Encodable c.next_request_id address len) len
      ∙ ap (λ m. read_loop loopback m asked (encode_output asked) len deadline 1 (ready c))
          rounds in
    let f =
      rounds_lem asked len deadline positive last rest x.final earlier 0 (ready c) x.outages
        x.faults (omega (arith, rounds)) in
    rw run f
