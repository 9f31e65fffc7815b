-- ===== src/Transport/Exchange.antt =====
-- What one exchange does, as one of four branches.
use Prim.Native.String.{String}
use mathlib.Core.Option.{Option}
use industrial_memory_protoc.Prelude.{
  ℕ, ◌+◌, ◌%◌, ◌^◌, ◌≡◌, refl, true, false, List, [], ◌∷◌, ◌++◌, arith, Bool-cases, inl, inr,
}
use industrial_memory_protoc.Server.{handle}
use industrial_memory_protoc.Transport.{
  ℤ, not_positive, TransportError, TransportFault, TransportReply, TraceRecord, LoopbackTransport,
  record_packet, reported, damage, deliver, consume_fault, exchange,
}

abbrev pub failure : TransportError → TransportReply
failure e = record { error = e; bytes = [] }

-- The request and the response as they are traced.
abbrev pub request_record : LoopbackTransport → List ℕ → TraceRecord
request_record t request = record {
  sequence = t.next_sequence;
  direction = "client_to_server";
  outcome = "sent";
  bytes = request;
}

abbrev pub response_record : LoopbackTransport → String → List ℕ → TraceRecord
response_record t outcome bytes = record {
  sequence = (t.next_sequence + 1) % 2 ^ 64;
  direction = "server_to_client";
  outcome = outcome;
  bytes = bytes;
}

-- The faults that let the request through, and what the queue becomes.
pub data Passes : List TransportFault → Option TransportFault → List TransportFault → Type 0 where
  no_fault : Passes [] Option.none []
  truncates :
      (rest : List TransportFault)
      → Passes
          (TransportFault.truncate_response ∷ rest)
          (Option.some TransportFault.truncate_response)
          rest
  corrupts :
      (rest : List TransportFault)
      → Passes
          (TransportFault.corrupt_response ∷ rest)
          (Option.some TransportFault.corrupt_response)
          rest
  misnumbers :
      (rest : List TransportFault)
      → Passes
          (TransportFault.wrong_request_id ∷ rest)
          (Option.some TransportFault.wrong_request_id)
          rest

-- The effect of an exchange on a connected transport: what the reply is, which faults are left,
-- whether the server was reached, and the two records that the trace gains.
pub data Exchanged (t : LoopbackTransport) (request : List ℕ) (deadline : ℤ)
    (reply : TransportReply) (t' : LoopbackTransport) : Type 0 where
  expired :
      not_positive deadline ≡ true
      → reply ≡ failure TransportError.timeout
      → t' ≡ record t {
        trace =
            (t.trace ++ request_record t request ∷ [])
            ++ response_record t "deadline_expired" [] ∷ [];
        next_sequence = ((t.next_sequence + 1) % 2 ^ 64 + 1) % 2 ^ 64;
      }
      → Exchanged t request deadline reply t'
  timed_out :
      (rest : List TransportFault)
      → not_positive deadline ≡ false
      → t.faults ≡ TransportFault.timeout ∷ rest
      → reply ≡ failure TransportError.timeout
      → t' ≡ record t {
        faults = rest;
        trace = (t.trace ++ request_record t request ∷ []) ++ response_record t "timeout" [] ∷ [];
        next_sequence = ((t.next_sequence + 1) % 2 ^ 64 + 1) % 2 ^ 64;
      }
      → Exchanged t request deadline reply t'
  dropped :
      (rest : List TransportFault)
      → not_positive deadline ≡ false
      → t.faults ≡ TransportFault.disconnect ∷ rest
      → reply ≡ failure TransportError.disconnected
      → t' ≡ record t {
        is_connected = false;
        faults = rest;
        trace =
            (t.trace ++ request_record t request ∷ []) ++ response_record t "disconnected" [] ∷ [];
        next_sequence = ((t.next_sequence + 1) % 2 ^ 64 + 1) % 2 ^ 64;
      }
      → Exchanged t request deadline reply t'
  delivered :
      (fault : Option TransportFault) (rest : List TransportFault)
      → not_positive deadline ≡ false
      → Passes t.faults fault rest
      → reply ≡ record {
        error = TransportError.none;
        bytes = damage fault (handle t.server request).0.response;
      }
      → t' ≡ record t {
        server = (handle t.server request).1;
        faults = rest;
        trace =
            (t.trace ++ request_record t request ∷ [])
            ++ response_record t
                (reported (handle t.server request).0)
                (damage fault (handle t.server request).0.response)
              ∷ [];
        next_sequence = ((t.next_sequence + 1) % 2 ^ 64 + 1) % 2 ^ 64;
      }
      → Exchanged t request deadline reply t'

pub exchange_closed :
    (t : LoopbackTransport) (request : List ℕ) (deadline : ℤ)
    → t.is_connected ≡ false
    → exchange t request deadline ≡ (failure TransportError.not_connected, t)
unfolding exchange
exchange_closed t request deadline e = ground arith

module _ (t : LoopbackTransport) (request : List ℕ) (deadline : ℤ) where
  abbrev sent : LoopbackTransport
  sent = record_packet t "client_to_server" "sent" request

  consume-Exchanged :
      not_positive deadline ≡ false
      → (fs : List TransportFault) → t.faults ≡ fs
      → Exchanged t request deadline
          (consume_fault fs sent request).0
          (consume_fault fs sent request).1
  unfolding consume_fault deliver record_packet
  consume-Exchanged d [] e = delivered Option.none [] d (rw e no_fault) refl (ground arith)
  consume-Exchanged d (TransportFault.timeout ∷ rest) e = timed_out rest d e refl refl
  consume-Exchanged d (TransportFault.disconnect ∷ rest) e = dropped rest d e refl refl
  consume-Exchanged d (TransportFault.truncate_response ∷ rest) e =
      delivered (Option.some TransportFault.truncate_response) rest d (rw e (truncates rest)) refl
        refl
  consume-Exchanged d (TransportFault.corrupt_response ∷ rest) e =
      delivered (Option.some TransportFault.corrupt_response) rest d (rw e (corrupts rest)) refl
        refl
  consume-Exchanged d (TransportFault.wrong_request_id ∷ rest) e =
      delivered (Option.some TransportFault.wrong_request_id) rest d (rw e (misnumbers rest)) refl
        refl

  exchange_expired :
      t.is_connected ≡ true
      → not_positive deadline ≡ true
      → exchange t request deadline ≡ (
        failure TransportError.timeout,
        record_packet sent "server_to_client" "deadline_expired" [],
      )
  unfolding exchange
  exchange_expired c d = ground arith

  exchange_consume :
      t.is_connected ≡ true
      → not_positive deadline ≡ false
      → exchange t request deadline ≡ consume_fault sent.faults sent request
  unfolding exchange
  exchange_consume c d = ground arith

  -- An exchange on a connected transport makes one of four moves: with a deadline that is not
  -- positive it times out and keeps the fault queue; a queued timeout or disconnect is taken off
  -- and fails it, and a disconnect also drops the connection; otherwise the server handles the
  -- request and the reply is its response, damaged by the fault at the front of the queue, if any,
  -- which is taken off. Each move adds the request and the response to the trace under the next
  -- two numbers.
  pub exchange-Exchanged :
      t.is_connected ≡ true
      → Exchanged t request deadline (exchange t request deadline).0 (exchange t request deadline).1
  unfolding record_packet
  exchange-Exchanged c = elim (Bool-cases (not_positive deadline)) [
    | inl d ↦ rw (exchange_expired c d) (expired d refl refl)
    | inr d ↦ rw (exchange_consume c d) (consume-Exchanged d t.faults refl)
  ]
