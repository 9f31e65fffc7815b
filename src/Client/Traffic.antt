-- ===== src/Client/Traffic.antt =====
-- How often, and with which bytes, an operation uses the transport.
use industrial_memory_protoc.Prelude.{
  Bool, Bool-cases, subst, ◌≢◌, ℕ, zero, suc, ◌≤◌, ◌≡◌, refl, ◌⊎◌, inl, inr, true, false, List, [],
  arith,
}
use industrial_memory_protoc.Types.{Opcode, Frame}
use industrial_memory_protoc.Transport.{ℤ, TransportError, TransportReply, is_delivered, ITransport}
use industrial_memory_protoc.Client.Types.{ClientError, OperationResult, Client}
use industrial_memory_protoc.Client.{
  client_error_of, ensure_connected, exchange_once, after_failure,
}
use industrial_memory_protoc.Client.Verdict.{validate_response}

-- The client's error for an exchange without a reply.
pub data IsLoss : TransportError → ClientError → Type 0 where
  late : IsLoss TransportError.timeout ClientError.timeout
  away : {e : TransportError} → e ≢ TransportError.timeout → IsLoss e ClientError.disconnected

pub client_error_of-IsLoss : (e : TransportError) → IsLoss e (client_error_of e)
client_error_of-IsLoss TransportError.timeout = late
client_error_of-IsLoss TransportError.none = away (λ f. cc f)
client_error_of-IsLoss TransportError.disconnected = away (λ f. cc f)
client_error_of-IsLoss TransportError.not_connected = away (λ f. cc f)

pub IsLoss-ne-none : {e : TransportError} {x : ClientError} → IsLoss e x → x ≢ ClientError.none
IsLoss-ne-none late f = cc f
IsLoss-ne-none (away h) f = cc f

module _ {T : Type 0} (i : ITransport T) where
  -- The transport went from one state to another by the interface's methods, with `n` exchanges,
  -- each of the same bytes.
  pub data Traffic (bytes : List ℕ) (deadline : ℤ) (t : T) : ℕ → T → Type 0 where
    silence : Traffic bytes deadline t zero t
    links :
        {n : ℕ} {u v : T}
        → Traffic bytes deadline t n u
        → v ≡ (i.connect u).1
        → Traffic bytes deadline t n v
    unlinks :
        {n : ℕ} {u v : T}
        → Traffic bytes deadline t n u
        → v ≡ i.close u
        → Traffic bytes deadline t n v
    sends :
        {n : ℕ} {u v : T}
        → Traffic bytes deadline t n u
        → v ≡ (i.exchange u bytes deadline).1
        → Traffic bytes deadline t (suc n) v

  -- The link from `u` to `v` in front of an exchange: it stands, or the transport is asked for one,
  -- and its answer is whether there is a link.
  pub data Links (u : T) : Bool → T → Type 0 where
    stands : {v : T} → i.connected u ≡ true → v ≡ u → Links u true v
    dialled :
        {up : Bool} {v : T}
        → i.connected u ≡ false
        → (i.connect u).0 ≡ up
        → v ≡ (i.connect u).1
        → Links u up v

  -- How an operation that found the transport in `t₀` ends after `n` exchanges: it asks for a
  -- connection and gets none, the last exchange fails over a link, or its reply is judged.
  pub data Ending (t₀ : T) (request : Frame) (bytes : List ℕ) (deadline : ℤ)
      (expected_opcode : Opcode) (expected_length n : ℕ) (r : OperationResult) (t : T)
      : Type 0 where
    no_link :
        (v : T)
        → Traffic bytes deadline t₀ n v
        → Links v false t
        → r.error ≡ ClientError.connect_failed
        → r.bytes ≡ []
        → r.attempts ≡ suc n
        → Ending t₀ request bytes deadline expected_opcode expected_length n r t
    no_reply :
        (m : ℕ) (v u : T)
        → n ≡ suc m
        → Traffic bytes deadline t₀ m v
        → Links v true u
        → is_delivered (i.exchange u bytes deadline).0 ≡ false
        → IsLoss (i.exchange u bytes deadline).0.error r.error
        → r.bytes ≡ []
        → r.attempts ≡ n
        → t ≡ i.close (i.exchange u bytes deadline).1
        → Ending t₀ request bytes deadline expected_opcode expected_length n r t
    judged :
        (c : Client T) (m : ℕ) (v u : T)
        → n ≡ suc m
        → Traffic bytes deadline t₀ m v
        → Links v true u
        → Traffic bytes deadline t₀ m u
        → is_delivered (i.exchange u bytes deadline).0 ≡ true
        → r
          ≡ (validate_response c request
              (i.exchange u bytes deadline).0.bytes
              expected_opcode
              expected_length
              n).0
        → t ≡ (i.exchange u bytes deadline).1
        → Ending t₀ request bytes deadline expected_opcode expected_length n r t

  -- A run of an operation from the client `c`.
  pub record Run (c : Client T) (request : Frame) (bytes : List ℕ) (deadline : ℤ)
      (expected_opcode : Opcode) (expected_length bound : ℕ) (outcome : OperationResult × Client T)
      : Type 0 where
    pub exchanges : ℕ
    pub within : exchanges ≤ bound
    pub traffic : Traffic bytes deadline c.transport exchanges outcome.1.transport
    pub ending :
        Ending c.transport request bytes deadline expected_opcode expected_length exchanges
          outcome.0 outcome.1.transport
    pub request_id : outcome.0.request_id ≡ request.request_id
    pub next_id : outcome.1.next_request_id ≡ c.next_request_id

  -- `ensure_connected` connects or does nothing.
  pub ensure_lem :
      (c : Client T)
      → let (up, linked) = ensure_connected i c in
        ((linked.transport ≡ c.transport) ⊎ (linked.transport ≡ (i.connect c.transport).1))
        × (linked.next_request_id ≡ c.next_request_id)
        × (linked.maximum_read_attempts ≡ c.maximum_read_attempts)
  unfolding ensure_connected
  ensure_lem c = ground arith

  ensure_Links :
      (c : Client T) → Links c.transport (ensure_connected i c).0 (ensure_connected i c).1.transport
  unfolding ensure_connected
  ensure_Links c = elim (Bool-cases (i.connected c.transport)) [
    | inl e ↦ rw (e, ensure_connected) (stands e refl)
    | inr e ↦ rw (e, ensure_connected) (dialled e refl refl)
  ]

  pub ensure-Links :
      (c : Client T) (up : Bool)
      → (ensure_connected i c).0 ≡ up
      → Links c.transport up (ensure_connected i c).1.transport
  ensure-Links c up e =
      subst (λ b. Links c.transport b (ensure_connected i c).1.transport) e (ensure_Links c)

  abbrev pub linked : Client T → Client T
  linked c = (ensure_connected i c).1

  abbrev pub replied : Client T → List ℕ → ℤ → TransportReply
  replied c bytes deadline = (i.exchange (linked c).transport bytes deadline).0

  abbrev pub sent : Client T → List ℕ → ℤ → Client T
  sent c bytes deadline = (exchange_once i (linked c) bytes deadline).1

  module _ (bytes : List ℕ) (deadline : ℤ) where
    pub Traffic-ensure :
        (t : T) (n : ℕ) (c : Client T)
        → Traffic bytes deadline t n c.transport
        → Traffic bytes deadline t n (linked c).transport
    Traffic-ensure t n c h = elim (ensure_lem c).0 [ inl e ↦ rw e h | inr e ↦ links h e ]

    pub Traffic-sent :
        (t : T) (n : ℕ) (c : Client T)
        → Traffic bytes deadline t n c.transport
        → Traffic bytes deadline t (suc n) (i.exchange (linked c).transport bytes deadline).1
    Traffic-sent t n c h = sends (Traffic-ensure t n c h) refl

    pub sent_lem :
        (c : Client T)
        → ((sent c bytes deadline).transport ≡ (i.exchange (linked c).transport bytes deadline).1)
          × ((sent c bytes deadline).next_request_id ≡ c.next_request_id)
          × ((sent c bytes deadline).maximum_read_attempts ≡ c.maximum_read_attempts)
    unfolding exchange_once
    sent_lem c = (refl, (ensure_lem c).1, (ensure_lem c).2)

    pub after_failure_lem :
        (c : Client T) (e : TransportError)
        → let closed = after_failure i (sent c bytes deadline) e in
          (closed.transport ≡ i.close (i.exchange (linked c).transport bytes deadline).1)
          × (closed.next_request_id ≡ c.next_request_id)
          × (closed.maximum_read_attempts ≡ c.maximum_read_attempts)
    unfolding exchange_once after_failure
    after_failure_lem c e = (refl, (ensure_lem c).1, (ensure_lem c).2)
