-- ===== src/Server/Handle.antt =====
-- What `handle` does with each decoded frame, as one of five branches.
mod Rules
use Prim.Native.String.{String}
use industrial_memory_protoc.Prelude.{
  ℕ, ◌+◌, ◌≤◌, ◌≡◌, refl, ap, ◌⊎◌, inl, inr, ◌≢◌, true, false, [], arith, length, take, drop,
  Bool-cases,
}
use industrial_memory_protoc.Types.{Opcode, Status, Frame}
use industrial_memory_protoc.Codec.Frames.{is_supported_opcode}
use industrial_memory_protoc.Memory.{MemoryMap, copy, read, write}
use industrial_memory_protoc.Memory.Store.{
  ReadRefusal, WriteRefusal, ReadOutcome, loaded, read-ReadOutcome, WriteOutcome, stored,
  write-WriteOutcome,
}
use industrial_memory_protoc.Server.{
  MemoryServer, HandleResult, text_payload, write_is_allowed, requested_length, handle_read,
  handle_write, handle_frame,
}
use industrial_memory_protoc.Server.Response.{Reply, respond}
pub use industrial_memory_protoc.Server.Handle.Rules.*

module _ (s : MemoryServer) (f : Frame) where
  rejected :
      (status : Status) (text : String)
      → Refuses s f status text
      → Handled s f (respond f (rejection status text), s)
  rejected status text why = record {
    reply = rejection status text;
    after = s;
    serves = rejects status text why refl refl;
    result_eq = refl;
  }

  handle_read-refused :
      (status : Status)
      → ReadRefusal f.address (requested_length f) status
      → read s.memory f.address (requested_length f) ≡ record { status = status; bytes = [] }
      → handle_read s f ≡ (respond f (rejection status "read_rejected"), s)
  unfolding handle_read
  handle_read-refused status (inl p) e = rw (e, p.1) refl
  handle_read-refused status (inr p) e = rw (e, p.2) refl

  handle_read-Handled : f.opcode ≡ Opcode.read_request → Handled s f (handle_read s f)
  handle_read-Handled op = elim (read-ReadOutcome s.memory f.address (requested_length f)) [
    | ReadOutcome.refused status r e ↦
        rw (handle_read-refused status r e) (rejected status "read_rejected" (bad_read op r refl))
    | loaded low high fits e ↦ record {
      reply = record {
        opcode = Opcode.data_response;
        status = Status.ok;
        payload = take (requested_length f) (drop f.address s.memory.cells);
        detail = "read_ok";
      };
      after = s;
      serves = loads op low high fits refl refl;
      result_eq = unfold handle_read in rw e refl;
    }
  ]

  handle_write-refused :
      (status : Status)
      → s.policy.writes_enabled ≡ true
      → write_is_allowed s.policy f.address (length f.payload) ≡ true
      → WriteRefusal f.address (length f.payload) status
      → write s.memory f.address f.payload ≡ (status, s.memory)
      → handle_write s f ≡ (respond f (rejection status "memory_write_rejected"), s)
  unfolding handle_write
  handle_write-refused status on allowed (inl p) e = ground (arith, p.1)
  handle_write-refused status on allowed (inr p) e = ground (arith, p.2)

  handle_write-stored :
      s.policy.writes_enabled ≡ true
      → write_is_allowed s.policy f.address (length f.payload) ≡ true
      → write s.memory f.address f.payload ≡ (Status.ok, stored_map s f)
      → handle_write s f ≡ (
        respond f (record {
          opcode = Opcode.write_acknowledgement;
          status = Status.ok;
          payload = [];
          detail = "write_ok";
        }),
        record s { memory = stored_map s f },
      )
  unfolding handle_write
  handle_write-stored on allowed e = ground arith

  handle_write_allowed :
      f.opcode ≡ Opcode.write_request
      → s.policy.writes_enabled ≡ true
      → write_is_allowed s.policy f.address (length f.payload) ≡ true
      → Handled s f (handle_write s f)
  handle_write_allowed op on allowed = elim (write-WriteOutcome s.memory f.address f.payload) [
    | WriteOutcome.refused status r e ↦ rw (handle_write-refused status on allowed r e) (
        rejected status "memory_write_rejected" (
          bad_write op on ((write_is_allowed_iff s f.address (length f.payload)).0 allowed) r refl))
    | stored low high above below e ↦ record {
      reply = record {
        opcode = Opcode.write_acknowledgement;
        status = Status.ok;
        payload = [];
        detail = "write_ok";
      };
      after = record s { memory = stored_map s f };
      serves =
          stores op on ((write_is_allowed_iff s f.address (length f.payload)).0 allowed) high above
            below refl refl;
      result_eq = handle_write-stored on allowed e;
    }
  ]

  handle_write-disabled :
      s.policy.writes_enabled ≡ false
      → handle_write s f ≡ (respond f (rejection Status.write_disabled "write_disabled"), s)
  unfolding handle_write
  handle_write-disabled off = ground arith

  handle_write-outside :
      s.policy.writes_enabled ≡ true
      → write_is_allowed s.policy f.address (length f.payload) ≡ false
      → handle_write s f ≡ (respond f (rejection Status.access_denied "outside_write_allowlist"), s)
  unfolding handle_write
  handle_write-outside on outside = ground arith

  handle_write-Handled : f.opcode ≡ Opcode.write_request → Handled s f (handle_write s f)
  handle_write-Handled op = elim (Bool-cases s.policy.writes_enabled) [
    | inr off ↦
        rw (handle_write-disabled off)
          (rejected Status.write_disabled "write_disabled" (disabled op off refl refl))
    | inl on ↦ elim (Bool-cases (write_is_allowed s.policy f.address (length f.payload))) [
      | inl allowed ↦ handle_write_allowed op on allowed
      | inr outside ↦ rw (handle_write-outside on outside) (
          rejected Status.access_denied "outside_write_allowlist" (
            not_allowed op on
              (λ h. cc (outside, (write_is_allowed_iff s f.address (length f.payload)).1 h)) refl
              refl))
    ]
  ]

  other_opcode :
      f.opcode ≢ Opcode.read_request
      → f.opcode ≢ Opcode.write_request
      → handle_frame s f ≡ (respond f (rejection Status.bad_request "request_opcode_required"), s)
      → Handled s f (handle_frame s f)
  other_opcode p q e =
      rw e (rejected Status.bad_request "request_opcode_required" (not_a_request p q refl refl))

  frame_read : f.opcode ≡ Opcode.read_request → handle_frame s f ≡ handle_read s f
  unfolding handle_frame
  frame_read e = ground arith

  frame_write : f.opcode ≡ Opcode.write_request → handle_frame s f ≡ handle_write s f
  unfolding handle_frame
  frame_write e = ground arith

  frame_other :
      (o : Opcode)
      → f.opcode ≡ o
      → (o ≡ Opcode.data_response)
        ⊎ (o ≡ Opcode.write_acknowledgement)
        ⊎ (o ≡ Opcode.error_response)
      → handle_frame s f ≡ (respond f (rejection Status.bad_request "request_opcode_required"), s)
  unfolding handle_frame
  frame_other o e h = ground arith

  -- Every decoded frame is served: one reply, and the state that goes with it.
  pub handle_frame-Handled : is_supported_opcode f.opcode ≡ true → Handled s f (handle_frame s f)
  handle_frame-Handled supported = by_opcode f.opcode refl
    where
      no_opcode : (n : ℕ) → f.opcode ≡ Opcode.unassigned n → ⊥
      no_opcode n e = cc (supported, ap is_supported_opcode e)

      by_opcode : (o : Opcode) → f.opcode ≡ o → Handled s f (handle_frame s f)
      by_opcode Opcode.read_request e = rw (frame_read e) (handle_read-Handled e)
      by_opcode Opcode.write_request e = rw (frame_write e) (handle_write-Handled e)
      by_opcode (Opcode.unassigned n) e = absurd (no_opcode n e)
      by_opcode Opcode.data_response e =
          other_opcode (λ h. cc) (λ h. cc) (frame_other Opcode.data_response e (inl refl))
      by_opcode Opcode.write_acknowledgement e =
          other_opcode (λ h. cc) (λ h. cc)
            (frame_other Opcode.write_acknowledgement e (inr (inl refl)))
      by_opcode Opcode.error_response e =
          other_opcode (λ h. cc) (λ h. cc) (frame_other Opcode.error_response e (inr (inr refl)))
