-- ===== src/Server/Handle/Rules.antt =====
-- The rules by which `handle` serves or refuses a decoded frame.
use Prim.Native.String.{String}
use industrial_memory_protoc.Prelude.{
  ℕ, ◌+◌, ◌≤◌, ◌≡◌, ◌≢◌, true, false, [], arith, length, take, drop,
}
use industrial_memory_protoc.Types.{Opcode, Status, Frame}
use industrial_memory_protoc.Memory.{MemoryMap, copy}
use industrial_memory_protoc.Memory.Store.{ReadRefusal, WriteRefusal}
use industrial_memory_protoc.Server.{
  MemoryServer, HandleResult, text_payload, write_is_allowed, requested_length,
}
use industrial_memory_protoc.Server.Response.{Reply, respond}

abbrev pub rejection : Status → String → Reply
rejection s text = record {
  opcode = Opcode.error_response;
  status = s;
  payload = text_payload text;
  detail = text;
}

-- Within the policy's window, both ends included.
abbrev pub IsAllowed : MemoryServer → ℕ → ℕ → Type 0
IsAllowed s address len =
    (1 ≤ len)
    × (s.policy.write_allow_begin ≤ address)
    × (address + len ≤ s.policy.write_allow_end + 1)

pub write_is_allowed_iff :
    (s : MemoryServer) (address len : ℕ)
    → (write_is_allowed s.policy address len ≡ true → IsAllowed s address len)
      × (IsAllowed s address len → write_is_allowed s.policy address len ≡ true)
unfolding write_is_allowed
write_is_allowed_iff s address len = (λ h. ground arith, λ h. ground arith)

-- The map after the payload of `f` is stored.
abbrev pub stored_map : MemoryServer → Frame → MemoryMap
stored_map s f = record { cells = copy f.payload f.address s.memory.cells }

-- When a decoded frame is turned down, with which status and which text.
pub data Refuses (s : MemoryServer) (f : Frame) (status : Status) (text : String) : Type 0 where
  bad_read :
      f.opcode ≡ Opcode.read_request
      → ReadRefusal f.address (requested_length f) status
      → text ≡ "read_rejected"
      → Refuses s f status text
  disabled :
      f.opcode ≡ Opcode.write_request
      → s.policy.writes_enabled ≡ false
      → status ≡ Status.write_disabled
      → text ≡ "write_disabled"
      → Refuses s f status text
  not_allowed :
      f.opcode ≡ Opcode.write_request
      → s.policy.writes_enabled ≡ true
      → ¬ IsAllowed s f.address (length f.payload)
      → status ≡ Status.access_denied
      → text ≡ "outside_write_allowlist"
      → Refuses s f status text
  bad_write :
      f.opcode ≡ Opcode.write_request
      → s.policy.writes_enabled ≡ true
      → IsAllowed s f.address (length f.payload)
      → WriteRefusal f.address (length f.payload) status
      → text ≡ "memory_write_rejected"
      → Refuses s f status text
  not_a_request :
      f.opcode ≢ Opcode.read_request
      → f.opcode ≢ Opcode.write_request
      → status ≡ Status.bad_request
      → text ≡ "request_opcode_required"
      → Refuses s f status text

-- The behaviour of the server on a decoded frame: its reply, and its state after the call.
pub data Serves (s : MemoryServer) (f : Frame) (r : Reply) (s' : MemoryServer) : Type 0 where
  loads :
      f.opcode ≡ Opcode.read_request
      → 1 ≤ requested_length f
      → requested_length f ≤ 256
      → f.address + requested_length f ≤ 0x800
      → r ≡ record {
        opcode = Opcode.data_response;
        status = Status.ok;
        payload = take (requested_length f) (drop f.address s.memory.cells);
        detail = "read_ok";
      }
      → s' ≡ s
      → Serves s f r s'
  stores :
      f.opcode ≡ Opcode.write_request
      → s.policy.writes_enabled ≡ true
      → IsAllowed s f.address (length f.payload)
      → length f.payload ≤ 256
      → 0x100 ≤ f.address
      → f.address + length f.payload ≤ 0x800
      → r ≡ record {
        opcode = Opcode.write_acknowledgement;
        status = Status.ok;
        payload = [];
        detail = "write_ok";
      }
      → s' ≡ record s { memory = stored_map s f }
      → Serves s f r s'
  rejects :
      (status : Status) (text : String)
      → Refuses s f status text
      → r ≡ rejection status text
      → s' ≡ s
      → Serves s f r s'

-- The result of `handle_frame`, described.
pub record Handled (s : MemoryServer) (f : Frame) (result : HandleResult × MemoryServer)
    : Type 0 where
  pub reply : Reply
  pub after : MemoryServer
  pub serves : Serves s f reply after
  pub result_eq : result ≡ (respond f reply, after)
