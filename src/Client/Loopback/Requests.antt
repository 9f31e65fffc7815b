-- ===== src/Client/Loopback/Requests.antt =====
-- What the server makes of the requests that the client builds.
use mathlib.Core.Option.{Option}
use industrial_memory_protoc.Prelude.{
  lt-cases, inl, inr, ℕ, ◌+◌, ◌*◌, ◌/◌, ◌%◌, ◌^◌, ◌≤◌, ◌≡◌, refl, ◌∙◌, arith, ltb, if◌then◌else◌,
  ◌<◌, take, drop, length-take, length-drop,
}
use industrial_memory_protoc.Prelude.Bits.{IsU32, bit_and_byte, bit_or-eq-add}
use industrial_memory_protoc.Types.{Opcode, Status, Frame, accepted}
use industrial_memory_protoc.Codec.Frames.{encode_output, decode}
use industrial_memory_protoc.Codec.RoundTrip.{IsFrame}
use industrial_memory_protoc.Memory.Store.{IsMap}
use industrial_memory_protoc.Server.{MemoryServer, handle, requested_length}
use industrial_memory_protoc.Server.Response.{reply_frame, Reply}
use industrial_memory_protoc.Server.Handle.{
  Serves, rejection, loads, stores, rejects, bad_read, disabled, not_allowed, bad_write,
  not_a_request,
}
use industrial_memory_protoc.Server.Contract.{Served}
use industrial_memory_protoc.Client.Response.{Matches}
use industrial_memory_protoc.Client.Executes.{read_request, read_request-Encodable}
use industrial_memory_protoc.Client.Loopback.{answered}

requested_length-read_request :
    (request_id address len : ℕ)
    → len ≤ 256
    → requested_length (read_request request_id address len) ≡ len
unfolding requested_length
requested_length-read_request request_id address len h =
    let wide = len % 2 ^ 16 in
    rw (bit_and_byte (wide / 2 ^ 8), bit_and_byte wide)
      (bit_or-eq-add 8 (wide / 2 ^ 8 % 256) (wide / 2 ^ 8 % 256 * 2 ^ 8) (wide % 256) refl
          (omega arith)
        ∙ omega (arith, h))

pub read_request-IsFrame :
    (request_id address len : ℕ)
    → IsU32 request_id
    → IsU32 address
    → IsFrame (read_request request_id address len)
read_request-IsFrame request_id address len hr ha = record {
  flags = omega arith;
  request_id = hr;
  address = ha;
  status = tt;
  payload = (
    omega (arith, bit_and_byte (len % 2 ^ 16 / 2 ^ 8)),
    (omega (arith, bit_and_byte (len % 2 ^ 16)), tt),
  );
}

-- The ranges that are read.
abbrev pub IsReadable : ℕ → ℕ → Type 0
IsReadable address len = (1 ≤ len) × (len ≤ 256) × (address + len ≤ 0x800)

-- The reply to a read that is granted.
abbrev pub data_reply : MemoryServer → ℕ → ℕ → Reply
data_reply s address len = record {
  opcode = Opcode.data_response;
  status = Status.ok;
  payload = take len (drop address s.memory.cells);
  detail = "read_ok";
}

-- The status of a read of 1 to 256 bytes that is not.
abbrev pub read_status : ℕ → ℕ → Status
read_status address len =
    if ltb 4096 (address + len) then Status.out_of_range else Status.access_denied

module _ (s : MemoryServer) (m : IsMap s.memory) (request_id address len : ℕ)
    (named : IsU32 request_id) (within : IsU32 address) (low : 1 ≤ len) (high : len ≤ 256) where
  abbrev request : Frame
  request = read_request request_id address len

  pub size : requested_length request ≡ len
  size = requested_length-read_request request_id address len high

  pub read_answer : Served s request (handle s (encode_output request))
  read_answer =
      answered s request m (read_request-IsFrame request_id address len named within)
        (read_request-Encodable request_id address len)

  pub read_reply :
      {r : Reply} {s' : MemoryServer}
      → address + len ≤ 0x800
      → Serves s request r s'
      → (r ≡ data_reply s address len) × (s' ≡ s)
  read_reply below (loads op low' high' fits er es) = (er ∙ rw size refl, es)
  read_reply below (stores op on allowed most above fits er es) = absurd cc
  read_reply below (rejects status text (bad_read op r e) er es) =
      absurd (omega (arith, size, r, low, high, below))
  read_reply below (rejects status text (disabled op off _ _) er es) = absurd cc
  read_reply below (rejects status text (not_allowed op on n _ _) er es) = absurd cc
  read_reply below (rejects status text (bad_write op on a w _) er es) = absurd cc
  read_reply below (rejects status text (not_a_request p q _ _) er es) = absurd (p refl)

  pub read_rejection :
      {r : Reply} {s' : MemoryServer}
      → 0x800 < address + len
      → Serves s request r s'
      → (r ≡ rejection (read_status address len) "read_rejected") × (s' ≡ s)
  read_rejection above (loads op low' high' fits er es) = absurd (omega (arith, size, fits, above))
  read_rejection above (stores op on allowed most _ fits er es) = absurd cc
  read_rejection above (rejects status text (bad_read op r e) er es) =
      let known : status ≡ read_status address len = ground (arith, size, r, low, high, above) in
      (rw known at (rw e at er), es)
  read_rejection above (rejects status text (disabled op off _ _) er es) = absurd cc
  read_rejection above (rejects status text (not_allowed op on n _ _) er es) = absurd cc
  read_rejection above (rejects status text (bad_write op on a w _) er es) = absurd cc
  read_rejection above (rejects status text (not_a_request p q _ _) er es) = absurd (p refl)

  pub read_granted :
      address + len ≤ 0x800
      → (accepted (decode (handle s (encode_output request)).0.response)
          ≡ Option.some (reply_frame request (data_reply s address len)))
        × ((handle s (encode_output request)).1 ≡ s)
        × Matches request (reply_frame request (data_reply s address len)) Opcode.data_response len
  read_granted below =
      let g = read_reply below read_answer.serves in
      (
        rw g.0 at read_answer.decodes,
        g.1,
        record {
          request_id = refl;
          address = refl;
          no_error = λ e. omega (arith, e);
          opcode = refl;
          size = omega (
            arith,
            low,
            below,
            m.size,
            length-drop address s.memory.cells,
            length-take len (drop address s.memory.cells),
          );
        },
      )

  pub read_turned_down :
      0x800 < address + len
      → (accepted (decode (handle s (encode_output request)).0.response)
          ≡ Option.some (reply_frame request (rejection (read_status address len) "read_rejected")))
        × ((handle s (encode_output request)).1 ≡ s)
  read_turned_down above =
      let g = read_rejection above read_answer.serves in (rw g.0 at read_answer.decodes, g.1)

  -- A read never changes the server.
  pub read_keeps : (handle s (encode_output request)).1 ≡ s
  read_keeps = elim (lt-cases 0x800 (address + len)) [
    | inl above ↦ (read_turned_down above).1
    | inr below ↦ (read_granted below).1
  ]
