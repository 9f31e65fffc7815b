-- ===== src/Client.antt =====
-- src/client.cpp: the client over any transport.
pub mod Types
pub mod Names
pub mod Verdict
pub mod Ids
pub mod Response
pub mod Judgement
pub mod Metrics
pub mod Steps
pub mod Effects
pub mod Traffic
pub mod Rounds
pub mod Executes
pub mod Operations
pub mod Tallies
pub mod Accounts
pub mod Loopback
use Prim.Native.String.{String}
use Prim.Native.String.{◌++◌ as str_append}
use mathlib.Core.Option.{Option}
use industrial_memory_protoc.Prelude.{
  ℕ, zero, suc, ◌+◌, ◌%◌, ◌^◌, max, Bool, true, false, not, ◌&&◌, ◌||◌, List, [], ◌∷◌, ltb, ◌==◌,
  if◌then◌else◌, length, bit_and,
}
use industrial_memory_protoc.Types.{
  Opcode, opcode_eq, Status, Frame, EncodeResult, is_encoded, accepted, protocol_version,
  maximum_payload_size,
}
use industrial_memory_protoc.Codec.Words.{◌>>>◌}
use industrial_memory_protoc.Codec.Frames.{encode, decode}
use industrial_memory_protoc.Codec.Names.{codec_error_name}
use industrial_memory_protoc.Transport.{
  ℤ, not_positive, TransportError, TransportReply, is_delivered, ITransport,
}
use industrial_memory_protoc.Transport.Names.{transport_error_name}
use Types.{ClientError, ClientMetrics, OperationResult, Client, increment}
use Verdict.{failed, validate_response}

-- The constructor: at least one read attempt, zeroed counters, identifiers from 1.
unfoldable pub make_client : {T : Type 0} → T → ℕ → Client T
make_client transport maximum_read_attempts = record {
  maximum_read_attempts = max 1 maximum_read_attempts;
  metrics = record {
    operations = 0;
    transport_attempts = 0;
    reconnects = 0;
    retries = 0;
    timeouts = 0;
    protocol_errors = 0;
  };
  next_request_id = 1;
  transport = transport;
}

-- The identifier is 32 bits wide and skips zero.
unfoldable pub allocate_request_id : {T : Type 0} → Client T → ℕ × Client T
allocate_request_id c =
    let following = (c.next_request_id + 1) % 2 ^ 32 in
    (c.next_request_id, record c { next_request_id = if following == 0 then 1 else following })

-- `++operations`.
abbrev pub counted_operation : {T : Type 0} → Client T → Client T
counted_operation c = record c {
  metrics = record c.metrics { operations = increment c.metrics.operations };
}

-- How one round of the read loop ends.
pub data Attempt (T : Type 0) : Type 0 where
  finished : OperationResult × Client T → Attempt T
  again : Client T → Attempt T

abbrev pub is_timeout : TransportError → Bool
is_timeout TransportError.timeout = true
is_timeout _ = false

abbrev pub is_transient : TransportError → Bool
is_transient TransportError.none = false
is_transient _ = true

abbrev pub client_error_of : TransportError → ClientError
client_error_of e = if is_timeout e then ClientError.timeout else ClientError.disconnected

module _ {T : Type 0} (i : ITransport T) where
  unfoldable pub ensure_connected : Client T → Bool × Client T
  ensure_connected c =
      if i.connected c.transport
      then (true, c)
      else let (up, t) = i.connect c.transport in
        (
          up,
          record c {
            metrics = record c.metrics { reconnects = increment c.metrics.reconnects };
            transport = t;
          },
        )

  -- `++transport_attempts`, the exchange, and the state after it.
  unfoldable pub exchange_once : Client T → List ℕ → ℤ → TransportReply × Client T
  exchange_once c bytes deadline =
      let (reply, t) = i.exchange c.transport bytes deadline in
      (
        reply,
        record c {
          metrics = record c.metrics {
            transport_attempts = increment c.metrics.transport_attempts;
          };
          transport = t;
        },
      )

  -- A failed exchange is counted, if it timed out, and closes the transport.
  unfoldable pub after_failure : Client T → TransportError → Client T
  after_failure c e = record c {
    metrics = record c.metrics {
      timeouts = if is_timeout e then increment c.metrics.timeouts else c.metrics.timeouts;
    };
    transport = i.close c.transport;
  }

  -- The body of the loop in `execute_read`.
  unfoldable pub read_attempt : Frame → List ℕ → ℕ → ℤ → ℕ → Client T → Attempt T
  read_attempt request bytes expected_length deadline attempt c =
      let (up, linked) = ensure_connected c in
      if not up
      then finished (
        failed ClientError.connect_failed request.request_id attempt "transport connect failed",
        linked,
      )
      else let (reply, sent) = exchange_once linked bytes deadline in
        if is_delivered reply
        then finished (
            validate_response sent request reply.bytes Opcode.data_response expected_length attempt)
        else let closed = after_failure sent reply.error in
          if ltb attempt c.maximum_read_attempts && is_transient reply.error
          then again (record closed {
            metrics = record closed.metrics { retries = increment closed.metrics.retries };
          })
          else finished (
            failed (client_error_of reply.error) request.request_id attempt
                (transport_error_name reply.error),
            closed,
          )

  -- The loop, with the rounds that its condition leaves. The last case follows the loop.
  unfoldable pub read_loop : ℕ → Frame → List ℕ → ℕ → ℤ → ℕ → Client T → OperationResult × Client T
  read_loop zero request bytes expected_length deadline attempt c = (
    failed ClientError.disconnected request.request_id c.maximum_read_attempts
        "read attempts exhausted",
    c,
  )
  read_loop (suc left) request bytes expected_length deadline attempt c =
      elim (read_attempt request bytes expected_length deadline attempt c) [
        | finished outcome ↦ outcome
        | again c' ↦ read_loop left request bytes expected_length deadline (attempt + 1) c'
      ]

  unfoldable pub execute_read : Client T → Frame → ℕ → ℤ → OperationResult × Client T
  execute_read c request expected_length deadline =
      let encoded = encode request in
      if not (is_encoded encoded)
      then (
        failed ClientError.encoding_failed request.request_id 0 (codec_error_name encoded.error),
        c,
      )
      else read_loop c.maximum_read_attempts request encoded.bytes expected_length deadline 1 c

  unfoldable pub execute_write : Client T → Frame → ℤ → OperationResult × Client T
  execute_write c request deadline =
      let encoded = encode request in
      if not (is_encoded encoded)
      then (
        failed ClientError.encoding_failed request.request_id 0 (codec_error_name encoded.error),
        c,
      )
      else let (up, linked) = ensure_connected c in
        if not up
        then (
          failed ClientError.connect_failed request.request_id 1 "transport connect failed",
          linked,
        )
        else let (reply, sent) = exchange_once linked encoded.bytes deadline in
          if not (is_delivered reply)
          then (
            failed (client_error_of reply.error) request.request_id 1
                (str_append "write not retried: " (transport_error_name reply.error)),
            after_failure sent reply.error,
          )
          else validate_response sent request reply.bytes Opcode.write_acknowledgement 0 1

  -- `Client::read`.
  unfoldable pub read : Client T → ℕ → ℕ → ℤ → OperationResult × Client T
  read c address len deadline =
      let (request_id, ready) = allocate_request_id (counted_operation c) in
      if len == 0 || ltb maximum_payload_size len || not_positive deadline
      then (
        failed ClientError.invalid_argument request_id 0
            "read length and deadline must be positive and bounded",
        ready,
      )
      else let wire_length = len % 2 ^ 16 in
        execute_read ready
          (record {
            version = protocol_version;
            opcode = Opcode.read_request;
            flags = 0;
            request_id = request_id;
            address = address;
            status = Status.ok;
            payload = bit_and (wire_length >>> 8) 0xff ∷ bit_and wire_length 0xff ∷ [];
          })
          len deadline

  -- `Client::write`.
  unfoldable pub write : Client T → ℕ → List ℕ → ℤ → OperationResult × Client T
  write c address content deadline =
      let (request_id, ready) = allocate_request_id (counted_operation c) in
      if length content == 0 || ltb maximum_payload_size (length content) || not_positive deadline
      then (
        failed ClientError.invalid_argument request_id 0
            "write payload and deadline must be positive and bounded",
        ready,
      )
      else execute_write ready
          (record {
            version = protocol_version;
            opcode = Opcode.write_request;
            flags = 0;
            request_id = request_id;
            address = address;
            status = Status.ok;
            payload = content;
          })
          deadline
