-- ===== src/Transport/Faults.antt =====
-- What the fault at the front of the queue does to one exchange.
use mathlib.Core.Option.{Option}
use industrial_memory_protoc.Prelude.{
  ℕ, ◌≡◌, refl, ap, ◌∙◌, true, false, List, [], ◌∷◌, ◌⊎◌, inl, inr,
}
use industrial_memory_protoc.Server.{handle}
use industrial_memory_protoc.Transport.{
  is_delivered, ℤ, not_positive, TransportError, TransportReply, LoopbackTransport, exchange,
  damage, TransportFault,
}
use industrial_memory_protoc.Transport.Exchange.{
  Exchanged, expired, timed_out, dropped, delivered, exchange-Exchanged, Passes, no_fault,
  truncates, corrupts, misnumbers,
}

-- What a queue lets through: the fault that goes with the response, if any, and what is left.
abbrev taken : List TransportFault → Option (Option TransportFault × List TransportFault)
taken [] = Option.some (Option.none, [])
taken (TransportFault.timeout ∷ rest) = Option.none
taken (TransportFault.disconnect ∷ rest) = Option.none
taken (TransportFault.truncate_response ∷ rest) =
    Option.some (Option.some TransportFault.truncate_response, rest)
taken (TransportFault.corrupt_response ∷ rest) =
    Option.some (Option.some TransportFault.corrupt_response, rest)
taken (TransportFault.wrong_request_id ∷ rest) =
    Option.some (Option.some TransportFault.wrong_request_id, rest)

Passes-taken :
    {fs rest : List TransportFault} {fault : Option TransportFault}
    → Passes fs fault rest
    → taken fs ≡ Option.some (fault, rest)
Passes-taken no_fault = refl
Passes-taken (truncates rest) = refl
Passes-taken (corrupts rest) = refl
Passes-taken (misnumbers rest) = refl

-- The faults that keep a request from the server.
abbrev pub IsOutage : TransportFault → Type 0
IsOutage fault = (fault ≡ TransportFault.timeout) ⊎ (fault ≡ TransportFault.disconnect)

-- What the transport reports for them.
abbrev pub outage_error : TransportFault → TransportError
outage_error TransportFault.timeout = TransportError.timeout
outage_error TransportFault.disconnect = TransportError.disconnected
outage_error _ = TransportError.none

IsOutage-taken :
    (fault : TransportFault) (rest : List TransportFault)
    → IsOutage fault
    → taken (fault ∷ rest) ≡ Option.none
IsOutage-taken fault rest (inl e) = rw e refl
IsOutage-taken fault rest (inr e) = rw e refl

module _ (t : LoopbackTransport) (request : List ℕ) (deadline : ℤ) (up : t.is_connected ≡ true)
    (positive : not_positive deadline ≡ false) where
  -- An exchange that is let through is a call of the server.
  pub exchange_passed :
      {fault : Option TransportFault} {rest : List TransportFault}
      → Passes t.faults fault rest
      → ((exchange t request deadline).0 ≡ record {
        error = TransportError.none;
        bytes = damage fault (handle t.server request).0.response;
      })
        × ((exchange t request deadline).1.server ≡ (handle t.server request).1)
        × ((exchange t request deadline).1.faults ≡ rest)
  exchange_passed {fault} {rest} p = cases (exchange-Exchanged t request deadline up)
    where
      through : taken t.faults ≡ Option.some (fault, rest)
      through = Passes-taken p

      cases :
          {r : TransportReply} {u : LoopbackTransport}
          → Exchanged t request deadline r u
          → (r ≡ record {
            error = TransportError.none;
            bytes = damage fault (handle t.server request).0.response;
          })
            × (u.server ≡ (handle t.server request).1)
            × (u.faults ≡ rest)
      cases (expired d er eu) = absurd (cc (d, positive))
      cases (timed_out rest' d f er eu) = absurd (cc (ap taken f, through))
      cases (dropped rest' d f er eu) = absurd (cc (ap taken f, through))
      cases (delivered fault' rest' d p' er eu) =
          let same : fault' ≡ fault = cc (Passes-taken p', through) in
          let left : rest' ≡ rest = cc (Passes-taken p', through) in
          (
            er
                ∙ ap
                    (λ (x : Option TransportFault).
                      let r : TransportReply = record {
                        error = TransportError.none;
                        bytes = damage x (handle t.server request).0.response;
                      } in
                      r)
                    same,
            ap (λ v. v.server) eu,
            ap (λ v. v.faults) eu ∙ left,
          )

  -- An outage fails the exchange, is used up, and does not reach the server.
  pub exchange_outage :
      (fault : TransportFault) (rest : List TransportFault)
      → t.faults ≡ fault ∷ rest
      → IsOutage fault
      → (is_delivered (exchange t request deadline).0 ≡ false)
        × ((exchange t request deadline).1.server ≡ t.server)
        × ((exchange t request deadline).1.faults ≡ rest)
        × ((exchange t request deadline).0.error ≡ outage_error fault)
  exchange_outage fault rest front out = cases (exchange-Exchanged t request deadline up)
    where
      cases :
          {r : TransportReply} {u : LoopbackTransport}
          → Exchanged t request deadline r u
          → (is_delivered r ≡ false)
            × (u.server ≡ t.server)
            × (u.faults ≡ rest)
            × (r.error ≡ outage_error fault)
      cases (expired d er eu) = absurd (cc (d, positive))
      cases (timed_out rest' d f er eu) =
          let same : rest' ≡ rest = cc (front, f) in
          let kind : TransportFault.timeout ≡ fault = cc (front, f) in
          (
            ap is_delivered er,
            ap (λ v. v.server) eu,
            ap (λ v. v.faults) eu ∙ same,
            ap (λ v. v.error) er ∙ ap outage_error kind,
          )
      cases (dropped rest' d f er eu) =
          let same : rest' ≡ rest = cc (front, f) in
          let kind : TransportFault.disconnect ≡ fault = cc (front, f) in
          (
            ap is_delivered er,
            ap (λ v. v.server) eu,
            ap (λ v. v.faults) eu ∙ same,
            ap (λ v. v.error) er ∙ ap outage_error kind,
          )
      cases (delivered fault' rest' d p er eu) =
          absurd (cc (ap taken front, IsOutage-taken fault rest out, Passes-taken p))
