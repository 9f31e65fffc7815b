-- ===== src/Session/Effects.antt =====
-- What the exchanges of one operation do to the server, and what a success tells of it.
use mathlib.Core.Option.{Option}
use industrial_memory_protoc.Prelude.{
  ℕ, ◌≤◌, ◌≡◌, ◌≢◌, refl, ap, sym, subst, ◌∙◌, ◌⊎◌, inl, inr, true, List, arith, Bool-cases,
}
use industrial_memory_protoc.Types.{Opcode, Frame}
use industrial_memory_protoc.Codec.Frames.{encode_output}
use industrial_memory_protoc.Server.{MemoryServer, handle}
use industrial_memory_protoc.Server.Response.{reply_frame}
use industrial_memory_protoc.Server.Contract.{Served}
use industrial_memory_protoc.Transport.{
  ℤ, TransportFault, TransportReply, LoopbackTransport, loopback, exchange, is_delivered, connect,
  close, damage,
}
use industrial_memory_protoc.Transport.Exchange.{
  Exchanged, expired, timed_out, dropped, delivered, exchange-Exchanged, exchange_closed, Passes,
  no_fault, truncates, corrupts, misnumbers,
}
use industrial_memory_protoc.Client.Types.{ClientError, OperationResult, Client}
use industrial_memory_protoc.Client.Verdict.{validate_response}
use industrial_memory_protoc.Client.Response.{Matches, validate_response_iff}
use industrial_memory_protoc.Client.Traffic.{Traffic, silence, links, unlinks, sends}
use industrial_memory_protoc.Client.Loopback.Damaged.{IsDamage, damage_error, damaged}

-- An exchange calls the server once or not at all.
pub exchange_server :
    (t : LoopbackTransport) (wire : List ℕ) (deadline : ℤ)
    → let after = (exchange t wire deadline).1 in
      (after.server ≡ t.server) ⊎ (after.server ≡ (handle t.server wire).1)
exchange_server t wire deadline = elim (Bool-cases t.is_connected) [
  | inr c ↦ inl (ap (λ o. o.1.server) (exchange_closed t wire deadline c))
  | inl c ↦ cases (exchange-Exchanged t wire deadline c)
]
  where
    cases :
        {r : TransportReply} {u : LoopbackTransport}
        → Exchanged t wire deadline r u
        → (u.server ≡ t.server) ⊎ (u.server ≡ (handle t.server wire).1)
    cases (expired d er eu) = inl (ap (λ v. v.server) eu)
    cases (timed_out rest d f er eu) = inl (ap (λ v. v.server) eu)
    cases (dropped rest d f er eu) = inl (ap (λ v. v.server) eu)
    cases (delivered fault rest d p er eu) = inr (ap (λ v. v.server) eu)

-- What passes with a response damages it, if it is a fault.
Passes-IsDamage :
    {fs rest : List TransportFault} {fault : Option TransportFault}
    → Passes fs fault rest
    → (fault ≡ Option.none) ⊎ ((f : TransportFault) × (fault ≡ Option.some f) × IsDamage f)
Passes-IsDamage no_fault = inl refl
Passes-IsDamage (truncates rest) = inr (TransportFault.truncate_response, refl, inl refl)
Passes-IsDamage (corrupts rest) = inr (TransportFault.corrupt_response, refl, inr (inl refl))
Passes-IsDamage (misnumbers rest) = inr (TransportFault.wrong_request_id, refl, inr (inr refl))

damage_error-ne-none : (f : TransportFault) → damage_error f ≢ ClientError.none
damage_error-ne-none TransportFault.timeout e = cc
damage_error-ne-none TransportFault.disconnect e = cc
damage_error-ne-none TransportFault.truncate_response e = cc
damage_error-ne-none TransportFault.corrupt_response e = cc
damage_error-ne-none TransportFault.wrong_request_id e = cc

module _ (wire : List ℕ) (deadline : ℤ) where
  -- A delivered reply is the server's response, with the damage of a fault or without.
  delivered_lem :
      (u : LoopbackTransport)
      → is_delivered (exchange u wire deadline).0 ≡ true
      → ((exchange u wire deadline).1.server ≡ (handle u.server wire).1)
        × (fault : Option TransportFault) × ((fault ≡ Option.none)
            ⊎ ((f : TransportFault) × (fault ≡ Option.some f) × IsDamage f))
        × ((exchange u wire deadline).0.bytes ≡ damage fault (handle u.server wire).0.response)
  delivered_lem u came = elim (Bool-cases u.is_connected) [
    | inr c ↦ absurd (cc (came, ap (λ o. is_delivered o.0) (exchange_closed u wire deadline c)))
    | inl c ↦ cases (exchange-Exchanged u wire deadline c) came
  ]
    where
      cases :
          {r : TransportReply} {v : LoopbackTransport}
          → Exchanged u wire deadline r v
          → is_delivered r ≡ true
          → (v.server ≡ (handle u.server wire).1)
            × (fault : Option TransportFault) × ((fault ≡ Option.none)
                ⊎ ((f : TransportFault) × (fault ≡ Option.some f) × IsDamage f))
            × (r.bytes ≡ damage fault (handle u.server wire).0.response)
      cases (expired d er eu) came = absurd (cc (came, ap is_delivered er))
      cases (timed_out rest d f er eu) came = absurd (cc (came, ap is_delivered er))
      cases (dropped rest d f er eu) came = absurd (cc (came, ap is_delivered er))
      cases (delivered fault rest d p er eu) came =
          (ap (λ w. w.server) eu, fault, Passes-IsDamage p, ap (λ w. w.bytes) er)

  -- Operations that leave the server as it is may exchange as often as they want.
  pub Traffic-kept :
      (s : MemoryServer)
      → (handle s wire).1 ≡ s
      → {t u : LoopbackTransport} {n : ℕ} → Traffic loopback wire deadline t n u
      → t.server ≡ s
      → u.server ≡ s
  unfolding connect close
  Traffic-kept s kept silence h = h
  Traffic-kept s kept (links {u = u} tr e) h = ap (λ v. v.server) e ∙ Traffic-kept s kept tr h
  Traffic-kept s kept (unlinks {u = u} tr e) h = ap (λ v. v.server) e ∙ Traffic-kept s kept tr h
  Traffic-kept s kept (sends {u = u} tr e) h =
      let before = Traffic-kept s kept tr h in
      elim (exchange_server u wire deadline) [
        | inl same ↦ ap (λ v. v.server) e ∙ same ∙ before
        | inr called ↦ ap (λ v. v.server) e ∙ called ∙ ap (λ v. (handle v wire).1) before ∙ kept
      ]

  pub Traffic-silent :
      {t u : LoopbackTransport} {n : ℕ}
      → Traffic loopback wire deadline t n u
      → n ≡ 0
      → u.server ≡ t.server
  unfolding connect close
  Traffic-silent silence z = refl
  Traffic-silent (links tr e) z = ap (λ v. v.server) e ∙ Traffic-silent tr z
  Traffic-silent (unlinks tr e) z = ap (λ v. v.server) e ∙ Traffic-silent tr z
  Traffic-silent (sends tr e) z = absurd (omega (arith, z))

  pub Traffic-once :
      {t u : LoopbackTransport} {n : ℕ}
      → Traffic loopback wire deadline t n u
      → n ≤ 1
      → (u.server ≡ t.server) ⊎ (u.server ≡ (handle t.server wire).1)
  unfolding connect close
  Traffic-once silence z = inl refl
  Traffic-once (links tr e) z = rw (ap (λ v. v.server) e) (Traffic-once tr z)
  Traffic-once (unlinks tr e) z = rw (ap (λ v. v.server) e) (Traffic-once tr z)
  Traffic-once (sends {u = u} tr e) z =
      let before = Traffic-silent tr (omega (arith, z)) in
      elim (exchange_server u wire deadline) [
        | inl same ↦ inl (ap (λ v. v.server) e ∙ same ∙ before)
        | inr called ↦ inr (ap (λ v. v.server) e ∙ called ∙ ap (λ v. (handle v wire).1) before)
      ]

module _ (request : Frame) (deadline : ℤ) where
  abbrev sent_wire : List ℕ
  sent_wire = encode_output request

  -- A success after an exchange with `u` is the verdict on the undamaged reply of the server there.
  pub success_lem :
      (c : Client LoopbackTransport) (u : LoopbackTransport) (expected_opcode : Opcode)
      (expected_length n : ℕ)
      → is_delivered (exchange u sent_wire deadline).0 ≡ true
      → (served : Served u.server request (handle u.server sent_wire)) → (r : OperationResult)
      → r
        ≡ (validate_response c request
            (exchange u sent_wire deadline).0.bytes
            expected_opcode
            expected_length
            n).0
      → r.error ≡ ClientError.none
      → Matches request (reply_frame request served.reply) expected_opcode expected_length
        × (r.bytes ≡ served.reply.payload)
        × ((exchange u sent_wire deadline).1.server ≡ (handle u.server sent_wire).1)
  unfolding damage
  success_lem c u op len n came served r judgement ok =
      let (server, fault, kind, got) = delivered_lem sent_wire deadline u came in
      elim kind [
        | inl intact ↦
            let response = (handle u.server sent_wire).0.response in
            let same : (exchange u sent_wire deadline).0.bytes ≡ response =
              got ∙ ap (λ f. damage f response) intact in
            let fine = rw same at judgement in
            let (frame, decoded, matches, verdict) =
              (validate_response_iff c request response op len n).0
                (ap (λ (v : OperationResult). v.error) (sym fine) ∙ ok) in
            let this : frame ≡ reply_frame request served.reply = cc (decoded, served.decodes) in
            (
              subst (λ f. Matches request f op len) this matches,
              ap (λ (v : OperationResult). v.bytes) fine
                  ∙ ap (λ o. o.0.bytes) verdict
                  ∙ ap (λ (f : Frame). f.payload) this,
              server,
            )
        | inr (f, spoilt_by, isdamage) ↦
            let response = (handle u.server sent_wire).0.response in
            let same : (exchange u sent_wire deadline).0.bytes ≡ damage (Option.some f) response =
              got ∙ ap (λ g. damage g response) spoilt_by in
            let spoilt = rw same at judgement in
            let bad =
              damaged c request (reply_frame request served.reply) response op len n served.bytes
                served.decodes refl f isdamage in
            absurd (
              damage_error-ne-none f
                (sym bad.0 ∙ ap (λ (v : OperationResult). v.error) (sym spoilt) ∙ ok))
      ]
