-- ===== src/Transport/Moves.antt =====
-- `exchange`, described by what arrives at either end.
use Prim.Native.String.{String}
use mathlib.Core.Option.{Option}
use industrial_memory_protoc.Prelude.{
  ℕ, ◌+◌, ◌%◌, ◌^◌, ◌≡◌, ◌⊎◌, refl, ap, subst, true, false, List, [], ◌∷◌, ◌++◌, bit_xor,
  Bool-cases, Option-cases, inl, inr,
}
use industrial_memory_protoc.Types.{Frame, accepted, is_encoded}
use industrial_memory_protoc.Codec.Frames.{encode, decode}
use industrial_memory_protoc.Server.{HandleResult, handle}
use industrial_memory_protoc.Transport.{
  ℤ, not_positive, TransportError, TransportFault, TransportReply, LoopbackTransport, exchange,
  pop_back, flip_back, shift_request_id, damage, reported,
}
use industrial_memory_protoc.Transport.Exchange.{
  failure, request_record, response_record, Exchanged, expired, timed_out, dropped, delivered,
  exchange-Exchanged, exchange_closed, Passes, no_fault, truncates, corrupts, misnumbers,
}
use industrial_memory_protoc.Transport.Damage.{renumbered}

-- What arrives of a response, by the faults that are queued, and those that are left.
pub data Arrives (response : List ℕ)
    : List TransportFault → List ℕ → List TransportFault → Type 0 where
  intact : Arrives response [] response []
  empty_truncated :
      (rest : List TransportFault)
      → response ≡ []
      → Arrives response (TransportFault.truncate_response ∷ rest) [] rest
  truncated :
      (rest : List TransportFault) (front : List ℕ) (last : ℕ)
      → response ≡ front ++ last ∷ []
      → Arrives response (TransportFault.truncate_response ∷ rest) front rest
  empty_corrupted :
      (rest : List TransportFault)
      → response ≡ []
      → Arrives response (TransportFault.corrupt_response ∷ rest) [] rest
  corrupted :
      (rest : List TransportFault) (front : List ℕ) (last : ℕ)
      → response ≡ front ++ last ∷ []
      → Arrives response
          (TransportFault.corrupt_response ∷ rest)
          (front ++ bit_xor last 1 ∷ [])
          rest
  misnumbered :
      (rest : List TransportFault) (frame : Frame)
      → accepted (decode response) ≡ Option.some frame
      → is_encoded (encode (renumbered frame)) ≡ true
      → Arrives response
          (TransportFault.wrong_request_id ∷ rest)
          (encode (renumbered frame)).bytes
          rest
  undecoded :
      (rest : List TransportFault)
      → accepted (decode response) ≡ Option.none
      → Arrives response (TransportFault.wrong_request_id ∷ rest) response rest
  unencoded :
      (rest : List TransportFault) (frame : Frame)
      → accepted (decode response) ≡ Option.some frame
      → is_encoded (encode (renumbered frame)) ≡ false
      → Arrives response (TransportFault.wrong_request_id ∷ rest) response rest

-- What the trace says of a response.
pub data IsTraced (handled : HandleResult) : String → Type 0 where
  answered : handled.event.request_decoded ≡ true → IsTraced handled handled.event.detail
  unread : handled.event.request_decoded ≡ false → IsTraced handled "rejected"

-- The transport with the request and the response in its trace.
abbrev pub traced : LoopbackTransport → List ℕ → String → List ℕ → LoopbackTransport
traced t request outcome response = record t {
  trace = (t.trace ++ request_record t request ∷ []) ++ response_record t outcome response ∷ [];
  next_sequence = ((t.next_sequence + 1) % 2 ^ 64 + 1) % 2 ^ 64;
}

-- All that an exchange comes to.
pub data Move (t : LoopbackTransport) (request : List ℕ) (deadline : ℤ) (reply : TransportReply)
    (t' : LoopbackTransport) : Type 0 where
  closed :
      t.is_connected ≡ false
      → reply ≡ failure TransportError.not_connected
      → t' ≡ t
      → Move t request deadline reply t'
  too_late :
      t.is_connected ≡ true
      → not_positive deadline ≡ true
      → reply ≡ failure TransportError.timeout
      → t' ≡ traced t request "deadline_expired" []
      → Move t request deadline reply t'
  lost :
      (rest : List TransportFault)
      → t.is_connected ≡ true
      → not_positive deadline ≡ false
      → t.faults ≡ TransportFault.timeout ∷ rest
      → reply ≡ failure TransportError.timeout
      → t' ≡ record (traced t request "timeout" []) { faults = rest }
      → Move t request deadline reply t'
  cut :
      (rest : List TransportFault)
      → t.is_connected ≡ true
      → not_positive deadline ≡ false
      → t.faults ≡ TransportFault.disconnect ∷ rest
      → reply ≡ failure TransportError.disconnected
      → t' ≡ record (traced t request "disconnected" []) { is_connected = false; faults = rest }
      → Move t request deadline reply t'
  arrives :
      (rest : List TransportFault) (got : List ℕ) (outcome : String)
      → t.is_connected ≡ true
      → not_positive deadline ≡ false
      → Arrives (handle t.server request).0.response t.faults got rest
      → IsTraced (handle t.server request).0 outcome
      → reply ≡ record { error = TransportError.none; bytes = got }
      → t' ≡ record (traced t request outcome got) {
        server = (handle t.server request).1;
        faults = rest;
      }
      → Move t request deadline reply t'

pop_back_lem : (front : List ℕ) (last : ℕ) → pop_back (front ++ last ∷ []) ≡ front
unfolding pop_back
pop_back_lem [] last = refl
pop_back_lem (b ∷ []) last = refl
pop_back_lem (b ∷ c ∷ front) last = ap (λ bs. b ∷ bs) (pop_back_lem (c ∷ front) last)

flip_back_lem :
    (front : List ℕ) (last : ℕ) → flip_back (front ++ last ∷ []) ≡ front ++ bit_xor last 1 ∷ []
unfolding flip_back
flip_back_lem [] last = refl
flip_back_lem (b ∷ []) last = refl
flip_back_lem (b ∷ c ∷ front) last = ap (λ bs. b ∷ bs) (flip_back_lem (c ∷ front) last)

ends :
    (bytes : List ℕ) → (bytes ≡ []) ⊎ ((front : List ℕ) × (last : ℕ) × (bytes ≡ front ++ last ∷ []))
ends [] = inl refl
ends (b ∷ bytes) = elim (ends bytes) [
  | inl e ↦ inr ([], b, ap (λ bs. b ∷ bs) e)
  | inr (front, last, e) ↦ inr (b ∷ front, last, ap (λ bs. b ∷ bs) e)
]

truncated_lem :
    (response : List ℕ) (rest : List TransportFault)
    → Arrives response (TransportFault.truncate_response ∷ rest) (pop_back response) rest
unfolding pop_back
truncated_lem response rest = elim (ends response) [
  | inl e ↦ rw (e, pop_back) (empty_truncated rest refl)
  | inr (front, last, e) ↦ rw (e, pop_back_lem front last) (truncated rest front last refl)
]

corrupted_lem :
    (response : List ℕ) (rest : List TransportFault)
    → Arrives response (TransportFault.corrupt_response ∷ rest) (flip_back response) rest
unfolding flip_back
corrupted_lem response rest = elim (ends response) [
  | inl e ↦ rw (e, flip_back) (empty_corrupted rest refl)
  | inr (front, last, e) ↦ rw (e, flip_back_lem front last) (corrupted rest front last refl)
]

misnumbered_lem :
    (response : List ℕ) (rest : List TransportFault)
    → Arrives response (TransportFault.wrong_request_id ∷ rest) (shift_request_id response) rest
unfolding shift_request_id
misnumbered_lem response rest = elim (Option-cases (accepted (decode response))) [
  | inl e ↦ rw (e, shift_request_id) (undecoded rest e)
  | inr (f, e) ↦ elim (Bool-cases (is_encoded (encode (renumbered f)))) [
    | inl k ↦ rw (e, shift_request_id, k) (misnumbered rest f e k)
    | inr k ↦ rw (e, shift_request_id, k) (unencoded rest f e k)
  ]
]

damage-Arrives :
    (response : List ℕ) {fs rest : List TransportFault} {fault : Option TransportFault}
    → Passes fs fault rest
    → Arrives response fs (damage fault response) rest
unfolding damage
damage-Arrives response no_fault = intact
damage-Arrives response (truncates rest) = truncated_lem response rest
damage-Arrives response (corrupts rest) = corrupted_lem response rest
damage-Arrives response (misnumbers rest) = misnumbered_lem response rest

reported-IsTraced : (handled : HandleResult) → IsTraced handled (reported handled)
reported-IsTraced handled = elim (Bool-cases handled.event.request_decoded) [
  | inl e ↦
      let same : handled.event.detail ≡ reported handled = rw e refl in
      subst (IsTraced handled) same (answered e)
  | inr e ↦
      let same : "rejected" ≡ reported handled = rw e refl in
      subst (IsTraced handled) same (unread e)
]

Exchanged-Move :
    (t : LoopbackTransport) (request : List ℕ) (deadline : ℤ) {r : TransportReply}
    {u : LoopbackTransport}
    → t.is_connected ≡ true
    → Exchanged t request deadline r u
    → Move t request deadline r u
Exchanged-Move t request deadline c (expired d er eu) = too_late c d er eu
Exchanged-Move t request deadline c (timed_out rest d f er eu) = lost rest c d f er eu
Exchanged-Move t request deadline c (dropped rest d f er eu) = cut rest c d f er eu
Exchanged-Move t request deadline c (delivered fault rest d p er eu) =
    let handled = (handle t.server request).0 in
    arrives rest (damage fault handled.response) (reported handled) c d
      (damage-Arrives handled.response p) (reported-IsTraced handled) er eu

-- An exchange makes one of five moves. Over a closed connection it fails and changes nothing. With a
-- deadline that is not positive it times out and keeps the fault queue. A queued timeout or
-- disconnect is taken off and fails it, and a disconnect also drops the connection. Otherwise
-- the server handles the request, and what arrives is its response, unless a fault is taken off the
-- queue: truncation drops the last byte, corruption flips that byte's lowest bit, both if there
-- is one, and a wrong identifier has the response, if it decodes and encodes, encoded under the
-- next one. All moves but the first add two records to the trace, under the next two numbers: the
-- request, and what came back with the reason of the failure, the server's text for the event if
-- the request was decoded, or `rejected`.
pub exchange-Move :
    (t : LoopbackTransport) (request : List ℕ) (deadline : ℤ)
    → Move t request deadline (exchange t request deadline).0 (exchange t request deadline).1
exchange-Move t request deadline = elim (Bool-cases t.is_connected) [
  | inr c ↦
      let e = exchange_closed t request deadline c in closed c (ap (λ o. o.0) e) (ap (λ o. o.1) e)
  | inl c ↦ Exchanged-Move t request deadline c (exchange-Exchanged t request deadline c)
]
