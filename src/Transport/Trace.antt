-- ===== src/Transport/Trace.antt =====
-- The packet trace over every sequence of calls.
use Prim.Native.String.{String}
use industrial_memory_protoc.Prelude.{
  ℕ, ◌+◌, ◌%◌, ◌^◌, ◌≡◌, refl, sym, ap, ◌∙◌, true, List, [], ◌∷◌, ◌++◌, inl, inr, Bool-cases,
}
use industrial_memory_protoc.Server.{MemoryServer, handle}
use industrial_memory_protoc.Transport.{
  ℤ, TransportReply, TransportFault, TraceRecord, LoopbackTransport, make_loopback, connect, close,
  push_fault, clear_trace, exchange, reported,
}
use industrial_memory_protoc.Transport.Exchange.{
  Exchanged, expired, timed_out, dropped, delivered, exchange-Exchanged, exchange_closed,
  request_record, response_record,
}

-- A call of one of the public methods.
pub data Step (t u : LoopbackTransport) : Type 0 where
  connects : u ≡ (connect t).1 → Step t u
  closes : u ≡ close t → Step t u
  pushes : (fault : TransportFault) → u ≡ push_fault t fault → Step t u
  clears : u ≡ clear_trace t → Step t u
  exchanges : (request : List ℕ) (deadline : ℤ) → u ≡ (exchange t request deadline).1 → Step t u

pub data Reach (s : LoopbackTransport) : LoopbackTransport → Type 0 where
  here : Reach s s
  next : {t u : LoopbackTransport} → Reach s t → Step t u → Reach s u

-- The records are numbered one after the other from `start`, in 64 bits, and `following` is next.
abbrev pub Numbered : ℕ → List TraceRecord → ℕ → Type 0
Numbered start [] following = start ≡ following
Numbered start (r ∷ rs) following =
    (r.sequence ≡ start) × Numbered ((start + 1) % 2 ^ 64) rs following

abbrev pub IsNumbered : LoopbackTransport → Type 0
IsNumbered t = (start : ℕ) × Numbered start t.trace t.next_sequence

Numbered-append :
    (start : ℕ) (rs : List TraceRecord) (n : ℕ) (r : TraceRecord)
    → Numbered start rs n
    → r.sequence ≡ n
    → Numbered start (rs ++ r ∷ []) ((n + 1) % 2 ^ 64)
Numbered-append start [] n r h e = (e ∙ sym h, ap (λ (k : ℕ). (k + 1) % 2 ^ 64) h)
Numbered-append start (q ∷ rs) n r h e = (h.0, Numbered-append ((start + 1) % 2 ^ 64) rs n r h.1 e)

-- An exchange on a connected transport appends the request, as it was sent, and the response, with
-- the bytes of the reply, under the next two numbers.
pub exchange_trace :
    (t : LoopbackTransport) (request : List ℕ) (deadline : ℤ)
    → t.is_connected ≡ true
    → (outcome : String) × ((exchange t request deadline).1.trace
        ≡ (t.trace ++ request_record t request ∷ [])
          ++ response_record t outcome (exchange t request deadline).0.bytes ∷ [])
      × ((exchange t request deadline).1.next_sequence
          ≡ ((t.next_sequence + 1) % 2 ^ 64 + 1) % 2 ^ 64)
exchange_trace t request deadline c = cases (exchange-Exchanged t request deadline c)
  where
    cases :
        {r : TransportReply} {u : LoopbackTransport}
        → Exchanged t request deadline r u
        → (outcome : String) × (u.trace
            ≡ (t.trace ++ request_record t request ∷ []) ++ response_record t outcome r.bytes ∷ [])
          × (u.next_sequence ≡ ((t.next_sequence + 1) % 2 ^ 64 + 1) % 2 ^ 64)
    cases (expired d er eu) = ("deadline_expired", rw (er, eu) refl, rw eu refl)
    cases (timed_out rest d f er eu) = ("timeout", rw (er, eu) refl, rw eu refl)
    cases (dropped rest d f er eu) = ("disconnected", rw (er, eu) refl, rw eu refl)
    cases (delivered fault rest d f er eu) =
        (reported (handle t.server request).0, rw (er, eu) refl, rw eu refl)

exchange-IsNumbered :
    (t : LoopbackTransport) (request : List ℕ) (deadline : ℤ)
    → IsNumbered t
    → IsNumbered (exchange t request deadline).1
exchange-IsNumbered t request deadline (start, h) = elim (Bool-cases t.is_connected) [
  | inr c ↦ rw (exchange_closed t request deadline c) (start, h)
  | inl c ↦
      let (outcome, trace, number) = exchange_trace t request deadline c in
      (
        start,
        rw (trace, number)
            (Numbered-append start (t.trace ++ request_record t request ∷ [])
              ((t.next_sequence + 1) % 2 ^ 64)
              (response_record t outcome (exchange t request deadline).0.bytes)
              (Numbered-append start t.trace t.next_sequence (request_record t request) h refl)
              refl),
      )
]

Step-IsNumbered : {t u : LoopbackTransport} → Step t u → IsNumbered t → IsNumbered u
unfolding connect close push_fault clear_trace
Step-IsNumbered (connects e) h = rw e h
Step-IsNumbered (closes e) h = rw e h
Step-IsNumbered (pushes fault e) h = rw e h
Step-IsNumbered {t} (clears e) h = rw e (t.next_sequence, refl)
Step-IsNumbered {t} (exchanges request deadline e) h =
    rw e (exchange-IsNumbered t request deadline h)

-- Whatever methods are called, in whatever order, the trace that a fresh transport has collected is
-- numbered without gap or repetition (in 64 bits), up to the number that comes next.
pub Reach-IsNumbered :
    (server : MemoryServer) {t : LoopbackTransport} → Reach (make_loopback server) t → IsNumbered t
unfolding make_loopback
Reach-IsNumbered server here = (1, refl)
Reach-IsNumbered server (next r s) = Step-IsNumbered s (Reach-IsNumbered server r)
