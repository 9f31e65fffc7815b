-- ===== src/Session/Faultless.antt =====
-- A transport without queued faults stays without.
use industrial_memory_protoc.Prelude.{ℕ, ◌≡◌, refl, ap, ◌∙◌, List, [], Bool-cases, inl, inr}
use mathlib.Core.Option.{Option}
use industrial_memory_protoc.Transport.{
  ℤ, TransportFault, TransportReply, LoopbackTransport, loopback, exchange, connect, close,
}
use industrial_memory_protoc.Transport.Exchange.{
  Exchanged, expired, timed_out, dropped, delivered, exchange-Exchanged, exchange_closed, Passes,
  no_fault, truncates, corrupts, misnumbers,
}
use industrial_memory_protoc.Client.Types.{Client}
use industrial_memory_protoc.Client.{allocate_request_id, read, write}
use industrial_memory_protoc.Client.Traffic.{Traffic, silence, links, unlinks, sends}
use industrial_memory_protoc.Client.Operations.{refused, ran, read-Operation, write-Operation}
use industrial_memory_protoc.Client.Loopback.{Quiet}
use industrial_memory_protoc.Session.Calls.{IsSession}

Passes-faultless :
    {fs rest : List TransportFault} {fault : Option TransportFault}
    → Passes fs fault rest
    → fs ≡ []
    → rest ≡ []
Passes-faultless no_fault e = refl
Passes-faultless (truncates rest) e = absurd (cc e)
Passes-faultless (corrupts rest) e = absurd (cc e)
Passes-faultless (misnumbers rest) e = absurd (cc e)

module _ (wire : List ℕ) (deadline : ℤ) where
  exchange_faultless :
      (t : LoopbackTransport) → t.faults ≡ [] → (exchange t wire deadline).1.faults ≡ []
  exchange_faultless t none_left = elim (Bool-cases t.is_connected) [
    | inr c ↦ ap (λ o. o.1.faults) (exchange_closed t wire deadline c) ∙ none_left
    | inl c ↦ cases (exchange-Exchanged t wire deadline c)
  ]
    where
      cases :
          {r : TransportReply} {u : LoopbackTransport}
          → Exchanged t wire deadline r u
          → u.faults ≡ []
      cases (expired d er eu) = ap (λ v. v.faults) eu ∙ none_left
      cases (timed_out rest d f er eu) = absurd (cc (f, none_left))
      cases (dropped rest d f er eu) = absurd (cc (f, none_left))
      cases (delivered fault rest d p er eu) = ap (λ v. v.faults) eu ∙ Passes-faultless p none_left

  Traffic-faultless :
      {t u : LoopbackTransport} {n : ℕ}
      → Traffic loopback wire deadline t n u
      → t.faults ≡ []
      → u.faults ≡ []
  unfolding connect close
  Traffic-faultless silence h = h
  Traffic-faultless (links tr e) h = ap (λ v. v.faults) e ∙ Traffic-faultless tr h
  Traffic-faultless (unlinks tr e) h = ap (λ v. v.faults) e ∙ Traffic-faultless tr h
  Traffic-faultless (sends {u = u} tr e) h =
      ap (λ v. v.faults) e ∙ exchange_faultless u (Traffic-faultless tr h)

module _ (c : Client LoopbackTransport) (q : IsSession c)
    (none_left : c.transport.faults ≡ []) where
  pub IsSession-Quiet : Quiet c
  IsSession-Quiet = record {
    is_map = q.is_map;
    request_id = q.is_client.below;
    faults = none_left;
    attempts = q.is_client.tries;
  }

  module _ (address : ℕ) (deadline : ℤ) where
    pub read-faultless : (len : ℕ) → (read loopback c address len deadline).1.transport.faults ≡ []
    unfolding allocate_request_id
    read-faultless len = elim (read-Operation loopback c address deadline len q.is_client.tries) [
      | refused closed e b a i same ↦ ap (λ d. d.transport.faults) same ∙ none_left
      | ran asked encodes run ↦ Traffic-faultless _ deadline run.traffic none_left
    ]

    pub write-faultless :
        (content : List ℕ) → (write loopback c address content deadline).1.transport.faults ≡ []
    unfolding allocate_request_id
    write-faultless content = elim (write-Operation loopback c address deadline content) [
      | refused closed e b a i same ↦ ap (λ d. d.transport.faults) same ∙ none_left
      | ran asked encodes run ↦ Traffic-faultless _ deadline run.traffic none_left
    ]
