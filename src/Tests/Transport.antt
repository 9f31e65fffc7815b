-- ===== src/Tests/Transport.antt =====
-- Witnesses of the loopback transport.
use mathlib.Core.Option.{Option}
use industrial_memory_protoc.Prelude.{◌≡◌, refl, ◌≢◌, true, arith}
use industrial_memory_protoc.Types.{CodecError, accepted}
use industrial_memory_protoc.Codec.Frames.{decode}
use industrial_memory_protoc.Transport.{
  pos, LoopbackTransport, make_loopback, connect, exchange, push_fault, TransportFault, pop_back,
  flip_back, shift_request_id,
}
use industrial_memory_protoc.Transport.Moves.{Move, exchange-Move}
use industrial_memory_protoc.Transport.Damage.{
  decode-pop_back, decode-flip_back, decode-shift_request_id, renumbered,
}
use industrial_memory_protoc.Transport.Trace.{
  connects, exchanges, here, next, IsNumbered, Reach-IsNumbered,
}
use industrial_memory_protoc.Tests.Samples.{
  writable, sample_read, sample_read_bytes, sample_read-accepted,
}

abbrev started : LoopbackTransport
started = (connect (make_loopback writable)).1

-- A transport that will drop the next exchange.
abbrev dropping : LoopbackTransport
dropping = push_fault started TransportFault.disconnect

started_connected : started.is_connected ≡ true
unfolding connect
started_connected = refl

exchange-Move_example :
    Move dropping sample_read_bytes
      (pos 50)
      (exchange dropping sample_read_bytes (pos 50)).0
      (exchange dropping sample_read_bytes (pos 50)).1
exchange-Move_example = exchange-Move dropping sample_read_bytes (pos 50)

Reach-IsNumbered_example : IsNumbered (exchange started sample_read_bytes (pos 50)).1
Reach-IsNumbered_example =
    Reach-IsNumbered writable
      (next (next here (connects refl)) (exchanges sample_read_bytes (pos 50) refl))

decode-pop_back_example : (decode (pop_back sample_read_bytes)).error ≡ CodecError.truncated
decode-pop_back_example = decode-pop_back sample_read_bytes sample_read sample_read-accepted

decode-flip_back_example :
    (decode (flip_back sample_read_bytes)).error ≡ CodecError.checksum_mismatch
decode-flip_back_example =
    decode-flip_back sample_read_bytes sample_read (omega arith) sample_read-accepted

decode-shift_request_id_example :
    (accepted (decode (shift_request_id sample_read_bytes)) ≡ Option.some (renumbered sample_read))
    × ((renumbered sample_read).request_id ≢ sample_read.request_id)
decode-shift_request_id_example =
    decode-shift_request_id sample_read_bytes sample_read (omega arith) sample_read-accepted
