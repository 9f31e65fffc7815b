-- ===== src/Client/Loopback/WriteRequests.antt =====
-- What the server makes of the writes that the client builds.
use Prim.Native.String.{String}
use mathlib.Core.Option.{Option}
use industrial_memory_protoc.Prelude.{ℕ, ◌+◌, ◌≤◌, ◌≡◌, refl, true, List, [], arith, length, All}
use industrial_memory_protoc.Prelude.Bits.{IsByte, IsU32}
use industrial_memory_protoc.Types.{Opcode, Status, Frame, accepted}
use industrial_memory_protoc.Codec.Frames.{encode_output, decode}
use industrial_memory_protoc.Codec.RoundTrip.{IsFrame}
use industrial_memory_protoc.Memory.{copy}
use industrial_memory_protoc.Memory.Store.{IsMap}
use industrial_memory_protoc.Server.{MemoryServer, handle}
use industrial_memory_protoc.Server.Response.{reply_frame, Reply}
use industrial_memory_protoc.Server.Handle.{
  Serves, Refuses, rejection, loads, stores, rejects, bad_read, disabled, not_allowed, bad_write,
  not_a_request,
}
use industrial_memory_protoc.Server.Contract.{Served}
use industrial_memory_protoc.Client.Response.{Matches}
use industrial_memory_protoc.Client.Executes.{write_request, write_request-Encodable}
use industrial_memory_protoc.Client.Loopback.{answered}

-- The policy and the regions let the range be written.
pub record IsWritable (s : MemoryServer) (address len : ℕ) : Type 0 where
  pub enabled : s.policy.writes_enabled ≡ true
  pub begins : s.policy.write_allow_begin ≤ address
  pub ends : address + len ≤ s.policy.write_allow_end + 1
  pub above : 0x100 ≤ address
  pub below : address + len ≤ 0x800

abbrev pub acknowledgement : Reply
acknowledgement = record {
  opcode = Opcode.write_acknowledgement;
  status = Status.ok;
  payload = [];
  detail = "write_ok";
}

-- The server with the content stored.
abbrev pub stored : MemoryServer → ℕ → List ℕ → MemoryServer
stored s address content = record s {
  memory = record { cells = copy content address s.memory.cells };
}

module _ (s : MemoryServer) (m : IsMap s.memory) (request_id address : ℕ) (content : List ℕ)
    (named : IsU32 request_id) (within : IsU32 address) (valid : All IsByte content)
    (low : 1 ≤ length content) (high : length content ≤ 256) where
  abbrev request : Frame
  request = write_request request_id address content

  request-IsFrame : IsFrame request
  request-IsFrame = record {
    flags = omega arith;
    request_id = named;
    address = within;
    status = tt;
    payload = valid;
  }

  pub write_answer : Served s request (handle s (encode_output request))
  write_answer =
      answered s request m request-IsFrame
        (write_request-Encodable request_id address content (ground (arith, low)) high)

  never :
      {status : Status} {text : String}
      → IsWritable s address (length content)
      → Refuses s request status text
      → ⊥
  never writable (bad_read op r e) = cc
  never writable (disabled op off es et) = cc (off, writable.enabled)
  never writable (not_allowed op on n es et) = n (low, writable.begins, writable.ends)
  never writable (bad_write op on a w e) =
      omega (arith, w, low, high, writable.above, writable.below)
  never writable (not_a_request no_read no_write es et) = no_write refl

  pub write_reply :
      {r : Reply} {s' : MemoryServer}
      → IsWritable s address (length content)
      → Serves s request r s'
      → (r ≡ acknowledgement) × (s' ≡ stored s address content)
  write_reply writable (loads op low' high' fits er es) = absurd cc
  write_reply writable (stores op on allowed most above fits er es) = (er, es)
  write_reply writable (rejects status text why er es) = absurd (never writable why)

  write_rejection :
      {r : Reply} {s' : MemoryServer}
      → ¬ IsWritable s address (length content)
      → Serves s request r s'
      → (status : Status) × (text : String) × (r ≡ rejection status text) × (s' ≡ s)
  write_rejection closed (loads op low' high' fits er es) = absurd cc
  write_rejection closed (stores op on allowed most above fits er es) = absurd (
      closed (record {
        enabled = on;
        begins = allowed.1;
        ends = allowed.2;
        above = above;
        below = fits;
      }))
  write_rejection closed (rejects status text why er es) = (status, text, er, es)

  pub write_granted :
      IsWritable s address (length content)
      → (accepted (decode (handle s (encode_output request)).0.response)
          ≡ Option.some (reply_frame request acknowledgement))
        × ((handle s (encode_output request)).1 ≡ stored s address content)
        × Matches request (reply_frame request acknowledgement) Opcode.write_acknowledgement 0
  write_granted writable =
      let g = write_reply writable write_answer.serves in
      (
        rw g.0 at write_answer.decodes,
        g.1,
        record {
          request_id = refl;
          address = refl;
          no_error = λ e. omega (arith, e);
          opcode = refl;
          size = refl;
        },
      )

  pub write_turned_down :
      ¬ IsWritable s address (length content)
      → (status : Status) × (text : String) × (accepted
            (decode (handle s (encode_output request)).0.response)
          ≡ Option.some (reply_frame request (rejection status text)))
        × ((handle s (encode_output request)).1 ≡ s)
  write_turned_down closed =
      let (status, text, er, es) = write_rejection closed write_answer.serves in
      (status, text, rw er at write_answer.decodes, es)
