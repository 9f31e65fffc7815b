-- ===== src/Client/Operations.antt =====
-- `read` and `write`.
use industrial_memory_protoc.Prelude.{
  ℕ, ◌≤◌, ◌≡◌, refl, ◌==◌, length, inl, inr, Bool, true, false, ◌||◌, List, [], arith, Bool-cases,
  ltb,
}
use industrial_memory_protoc.Types.{Opcode, Frame}
use industrial_memory_protoc.Codec.Frames.{encode, encode_output}
use industrial_memory_protoc.Codec.RoundTrip.{Encodable-encode, encoded}
use industrial_memory_protoc.Transport.{ℤ, not_positive, ITransport}
use industrial_memory_protoc.Client.Types.{ClientError, OperationResult, Client}
use industrial_memory_protoc.Client.{
  counted_operation, allocate_request_id, execute_read, execute_write, read, write,
}
use industrial_memory_protoc.Client.Traffic.{Run}
use industrial_memory_protoc.Client.Executes.{
  read_request, write_request, read_request-Encodable, write_request-Encodable, execute_read-Run,
  execute_write-Run,
}

-- The arguments that `read` and `write` take on.
abbrev pub IsRequested : ℕ → ℤ → Type 0
IsRequested len deadline = (1 ≤ len) × (len ≤ 256) × (not_positive deadline ≡ false)

-- The client once an operation is counted and its identifier taken.
abbrev pub ready : {T : Type 0} → Client T → Client T
ready c = (allocate_request_id (counted_operation c)).1

-- All that an operation on `len` bytes comes to.
pub data Operation {T : Type 0} (i : ITransport T) (c : Client T) (len : ℕ) (request : Frame)
    (expected_opcode : Opcode) (expected_length bound : ℕ) (deadline : ℤ)
    (outcome : OperationResult × Client T) : Type 0 where
  refused :
      (IsRequested len deadline → ⊥)
      → outcome.0.error ≡ ClientError.invalid_argument
      → outcome.0.bytes ≡ []
      → outcome.0.attempts ≡ 0
      → outcome.0.request_id ≡ request.request_id
      → outcome.1 ≡ ready c
      → Operation i c len request expected_opcode expected_length bound deadline outcome
  ran :
      IsRequested len deadline
      → encode request ≡ encoded request
      → Run i
          (ready c)
          request
          (encode_output request)
          deadline
          expected_opcode
          expected_length
          bound
          outcome
      → Operation i c len request expected_opcode expected_length bound deadline outcome

abbrev pub is_refused : ℕ → ℤ → Bool
is_refused len deadline = len == 0 || ltb 256 len || not_positive deadline

pub refused_iff :
    (len : ℕ) (deadline : ℤ)
    → ((is_refused len deadline ≡ true) → IsRequested len deadline → ⊥)
      × ((is_refused len deadline ≡ false) → IsRequested len deadline)
refused_iff len deadline = ground arith

module _ {T : Type 0} (i : ITransport T) (c : Client T) (address : ℕ) (deadline : ℤ) where
  pub read-execute_read :
      (len : ℕ)
      → is_refused len deadline ≡ false
      → read i c address len deadline
        ≡ execute_read i (ready c) (read_request c.next_request_id address len) len deadline
  unfolding read allocate_request_id
  read-execute_read len e = rw e refl

  pub write-execute_write :
      (content : List ℕ)
      → is_refused (length content) deadline ≡ false
      → write i c address content deadline
        ≡ execute_write i (ready c) (write_request c.next_request_id address content) deadline
  unfolding write allocate_request_id
  write-execute_write content e = rw e refl

  -- For a client that may try at least once, `read` either refuses its arguments, because the length
  -- is outside 1 to 256 or the deadline is not positive, and then reports `invalid_argument` with no
  -- attempt and leaves the transport as it was; or its request encodes, and the operation uses the
  -- transport only to connect, to close, and to exchange the same bytes, the request's encoding, at
  -- most the client's maximum of read attempts. It ends in one of three ways: the transport was
  -- without a connection, was asked for one and gave none, and a failed connection is reported; or
  -- the last exchange went over a connection that stood or was given, and got no reply, after which
  -- the transport was closed, and a timeout is reported exactly if the transport reported one, or
  -- else a lost connection; or it got a reply, and the verdict on that is reported. The result names
  -- the next identifier, and one identifier is taken.
  pub read-Operation :
      (len : ℕ)
      → 1 ≤ c.maximum_read_attempts
      → Operation i c len
          (read_request c.next_request_id address len)
          Opcode.data_response
          len
          c.maximum_read_attempts
          deadline
          (read i c address len deadline)
  unfolding read allocate_request_id
  read-Operation len positive = elim (Bool-cases (is_refused len deadline)) [
    | inl e ↦
        refused ((refused_iff len deadline).0 e) (rw e refl) (rw e refl) (rw e refl) (rw e refl)
          (rw e refl)
    | inr e ↦
        let request = read_request c.next_request_id address len in
        let encodable = read_request-Encodable c.next_request_id address len in
        ran ((refused_iff len deadline).1 e) (Encodable-encode request encodable)
          (rw e (execute_read-Run i (ready c) request deadline encodable len positive))
  ]

  -- `write` either refuses its arguments, because the payload is empty or longer than 256 bytes or the
  -- deadline is not positive, and then reports `invalid_argument` with no attempt and leaves the
  -- transport as it was; or its request encodes, and the operation uses the transport only to connect,
  -- to close, and to exchange the request's encoding at most once, so that no write is sent again. It
  -- ends in one of three ways: the transport was without a connection, was asked for one and gave
  -- none, and a failed connection is reported; or the exchange went over a connection that stood or
  -- was given, and got no reply, after which the transport was closed, and a timeout is reported
  -- exactly if the transport reported one, or else a lost connection; or it got a reply, and the
  -- verdict on that is reported. The result names the next identifier, and one identifier is taken.
  pub write-Operation :
      (content : List ℕ)
      → Operation i c
          (length content)
          (write_request c.next_request_id address content)
          Opcode.write_acknowledgement
          0
          1
          deadline
          (write i c address content deadline)
  unfolding write allocate_request_id
  write-Operation content = elim (Bool-cases (is_refused (length content) deadline)) [
    | inl e ↦
        refused ((refused_iff (length content) deadline).0 e) (rw e refl) (rw e refl) (rw e refl)
          (rw e refl) (rw e refl)
    | inr e ↦
        let requested = (refused_iff (length content) deadline).1 e in
        let request = write_request c.next_request_id address content in
        let encodable =
          write_request-Encodable c.next_request_id address content (ground arith) requested.1 in
        ran requested (Encodable-encode request encodable)
          (rw e (execute_write-Run i (ready c) request deadline encodable))
  ]
