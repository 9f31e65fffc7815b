-- ===== src/Transport.antt =====
-- src/transport.cpp and include/imlp/transport.hpp: the transport interface and the loopback
-- transport with its fault script and packet trace. The loopback transport refers to a server that
-- it shares with nobody else here, so the server's state is part of its own.
pub mod Names
pub mod Exchange
pub mod Faults
pub mod Damage
pub mod Moves
pub mod Trace
use Prim.Native.String.{String}
use mathlib.Core.Option.{Option}
use industrial_memory_protoc.Prelude.{
  ℕ, zero, suc, ◌+◌, ◌%◌, ◌^◌, Bool, true, false, not, List, [], ◌∷◌, ◌++◌, ◌==◌, if◌then◌else◌,
  bit_xor,
}
use industrial_memory_protoc.Types.{Frame, accepted, is_encoded}
use industrial_memory_protoc.Codec.Frames.{encode, decode}
use industrial_memory_protoc.Server.{MemoryServer, HandleResult, handle}

-- A signed count of milliseconds; `negsuc n` is -(n + 1).
pub data ℤ : Type 0 where
  pos : ℕ → ℤ
  negsuc : ℕ → ℤ

-- `deadline <= std::chrono::milliseconds::zero()`.
abbrev pub not_positive : ℤ → Bool
not_positive (pos n) = n == 0
not_positive (negsuc n) = true

pub data TransportError : Type 0 where
  none not_connected timeout disconnected : TransportError

pub data TransportFault : Type 0 where
  timeout disconnect truncate_response corrupt_response wrong_request_id : TransportFault

pub record TransportReply : Type 0 where
  pub error : TransportError
  pub bytes : List ℕ

abbrev pub is_delivered : TransportReply → Bool
is_delivered r = elim r.error [ TransportError.none ↦ true | _ ↦ false ]

pub record TraceRecord : Type 0 where
  pub sequence : ℕ
  pub direction : String
  pub outcome : String
  pub bytes : List ℕ

-- The abstract class, over the states `T` of an implementation.
pub record ITransport (T : Type 0) : Type 0 where
  pub connect : T → Bool × T
  pub close : T → T
  pub connected : T → Bool
  pub exchange : T → List ℕ → ℤ → TransportReply × T

pub record LoopbackTransport : Type 0 where
  pub server : MemoryServer
  pub is_connected : Bool
  pub faults : List TransportFault
  pub trace : List TraceRecord
  pub next_sequence : ℕ

unfoldable pub make_loopback : MemoryServer → LoopbackTransport
make_loopback server = record {
  server = server;
  is_connected = false;
  faults = [];
  trace = [];
  next_sequence = 1;
}

unfoldable pub connect : LoopbackTransport → Bool × LoopbackTransport
connect t = (true, record t { is_connected = true })

unfoldable pub close : LoopbackTransport → LoopbackTransport
close t = record t { is_connected = false }

unfoldable pub push_fault : LoopbackTransport → TransportFault → LoopbackTransport
push_fault t fault = record t { faults = t.faults ++ fault ∷ [] }

unfoldable pub clear_trace : LoopbackTransport → LoopbackTransport
clear_trace t = record t { trace = [] }

-- `LoopbackTransport::record`; the sequence number is 64 bits wide.
unfoldable pub record_packet : LoopbackTransport → String → String → List ℕ → LoopbackTransport
record_packet t direction outcome bytes = record t {
  trace =
      t.trace
      ++ record {
        sequence = t.next_sequence;
        direction = direction;
        outcome = outcome;
        bytes = bytes;
      }
        ∷ [];
  next_sequence = (t.next_sequence + 1) % 2 ^ 64;
}

unfoldable pub pop_back : List ℕ → List ℕ
pop_back [] = []
pop_back (b ∷ []) = []
pop_back (b ∷ c ∷ bs) = b ∷ pop_back (c ∷ bs)

-- `response.back() ^= 0x01`.
unfoldable pub flip_back : List ℕ → List ℕ
flip_back [] = []
flip_back (b ∷ []) = bit_xor b 0x01 ∷ []
flip_back (b ∷ c ∷ bs) = b ∷ flip_back (c ∷ bs)

-- The response decoded, its identifier incremented in 32 bits, and encoded again.
unfoldable pub shift_request_id : List ℕ → List ℕ
shift_request_id response = elim (accepted (decode response)) [
  | Option.none ↦ response
  | Option.some frame ↦
      let encoded = encode (record frame { request_id = (frame.request_id + 1) % 2 ^ 32 }) in
      if is_encoded encoded then encoded.bytes else response
]

-- What a fault does to a response that is delivered.
unfoldable pub damage : Option TransportFault → List ℕ → List ℕ
damage (Option.some TransportFault.truncate_response) response = pop_back response
damage (Option.some TransportFault.corrupt_response) response = flip_back response
damage (Option.some TransportFault.wrong_request_id) response = shift_request_id response
damage (Option.some TransportFault.timeout) response = response
damage (Option.some TransportFault.disconnect) response = response
damage Option.none response = response

abbrev failed : TransportError → LoopbackTransport → TransportReply × LoopbackTransport
failed e t = (record { error = e; bytes = [] }, t)

-- The outcome that is traced with a response.
abbrev pub reported : HandleResult → String
reported handled = if handled.event.request_decoded then handled.event.detail else "rejected"

-- The part of `exchange` that reaches the server.
unfoldable pub deliver :
    LoopbackTransport → Option TransportFault → List ℕ → TransportReply × LoopbackTransport
deliver t fault request =
    let (handled, server) = handle t.server request in
    let response = damage fault handled.response in
    let outcome = reported handled in
    (
      record { error = TransportError.none; bytes = response },
      record_packet (record t { server = server }) "server_to_client" outcome response,
    )

-- The front of the fault queue, if any, is taken off and acts.
unfoldable pub consume_fault :
    List TransportFault → LoopbackTransport → List ℕ → TransportReply × LoopbackTransport
consume_fault [] t request = deliver t Option.none request
consume_fault (TransportFault.timeout ∷ rest) t request =
    failed TransportError.timeout
      (record_packet (record t { faults = rest }) "server_to_client" "timeout" [])
consume_fault (TransportFault.disconnect ∷ rest) t request = failed TransportError.disconnected (
    record_packet (record t { faults = rest; is_connected = false }) "server_to_client"
      "disconnected" [])
consume_fault (TransportFault.truncate_response ∷ rest) t request =
    deliver (record t { faults = rest }) (Option.some TransportFault.truncate_response) request
consume_fault (TransportFault.corrupt_response ∷ rest) t request =
    deliver (record t { faults = rest }) (Option.some TransportFault.corrupt_response) request
consume_fault (TransportFault.wrong_request_id ∷ rest) t request =
    deliver (record t { faults = rest }) (Option.some TransportFault.wrong_request_id) request

unfoldable pub exchange : LoopbackTransport → List ℕ → ℤ → TransportReply × LoopbackTransport
exchange t request deadline =
    if not t.is_connected
    then failed TransportError.not_connected t
    else let sent = record_packet t "client_to_server" "sent" request in
      if not_positive deadline
      then failed TransportError.timeout
          (record_packet sent "server_to_client" "deadline_expired" [])
      else consume_fault sent.faults sent request

-- The loopback transport implements the interface.
abbrev pub loopback : ITransport LoopbackTransport
loopback = record {
  connect = connect;
  close = close;
  connected = λ t. t.is_connected;
  exchange = exchange;
}
