-- ===== src/Client/Response.antt =====
-- `validate_response`: when it reports success, and that it always names the request.
use mathlib.Core.Option.{Option}
use industrial_memory_protoc.Prelude.{
  ℕ, ◌≡◌, refl, ◌≢◌, ◌↔◌, inl, inr, List, [], ◌∙◌, length, arith, Option-cases,
}
use industrial_memory_protoc.Types.{Opcode, opcode_value, Frame, accepted}
use industrial_memory_protoc.Codec.Frames.{decode}
use industrial_memory_protoc.Client.Types.{ClientError, OperationResult, Client}
use industrial_memory_protoc.Client.Verdict.{
  validate_frame, validate_response, counted_protocol_error,
}

-- The frame answers the request in the expected way.
pub record Matches (request frame : Frame) (expected_opcode : Opcode) (expected_length : ℕ)
    : Type 0 where
  pub request_id : frame.request_id ≡ request.request_id
  pub address : frame.address ≡ request.address
  pub no_error : opcode_value frame.opcode ≢ 0xff
  pub opcode : opcode_value frame.opcode ≡ opcode_value expected_opcode
  pub size : length frame.payload ≡ expected_length

-- The result of a success on `frame`.
abbrev pub success : Frame → Frame → ℕ → OperationResult
success request frame attempts = record {
  error = ClientError.none;
  remote_status = frame.status;
  request_id = request.request_id;
  attempts = attempts;
  bytes = frame.payload;
  detail = "ok";
}

module _ {T : Type 0} (c : Client T) (request : Frame) (response : List ℕ)
    (expected_opcode : Opcode) (expected_length attempts : ℕ) where
  abbrev verdict : OperationResult × Client T
  verdict = validate_response c request response expected_opcode expected_length attempts

  pub validate_none :
      accepted (decode response) ≡ Option.none
      → (verdict.0.error ≡ ClientError.malformed_response)
        × (verdict.0.request_id ≡ request.request_id)
        × (verdict.0.bytes ≡ [])
        × (verdict.1 ≡ counted_protocol_error c)
  unfolding validate_response
  validate_none e = rw (e, validate_response) (refl, refl, refl, refl)

  pub validate_some :
      (frame : Frame)
      → accepted (decode response) ≡ Option.some frame
      → verdict ≡ validate_frame c request frame expected_opcode expected_length attempts
  unfolding validate_response
  validate_some frame e = rw (e, validate_response) refl

  validate_frame-success :
      (frame : Frame)
      → (validate_frame c request frame expected_opcode expected_length attempts).0.error
        ≡ ClientError.none
      → Matches request frame expected_opcode expected_length
        × (validate_frame c request frame expected_opcode expected_length attempts
            ≡ (success request frame attempts, c))
  unfolding validate_frame
  validate_frame-success frame h = ground arith

  pub validate_frame-Matches :
      (frame : Frame)
      → Matches request frame expected_opcode expected_length
      → validate_frame c request frame expected_opcode expected_length attempts
        ≡ (success request frame attempts, c)
  unfolding validate_frame
  validate_frame-Matches frame m = ground arith

  -- A success, from its error.
  pub validate_response_iff : (verdict.0.error ≡ ClientError.none) ↔ (
      (frame : Frame) × (accepted (decode response) ≡ Option.some frame)
      × Matches request frame expected_opcode expected_length
      × (verdict ≡ (success request frame attempts, c)))
  validate_response_iff = (forth, λ w. rw w.3 refl)
    where
      forth :
          verdict.0.error ≡ ClientError.none
          → (frame : Frame) × (accepted (decode response) ≡ Option.some frame)
            × Matches request frame expected_opcode expected_length
            × (verdict ≡ (success request frame attempts, c))
      forth h = elim (Option-cases (accepted (decode response))) [
        | inl e ↦ absurd (cc (h, (validate_none e).0))
        | inr (frame, e) ↦
            let same = validate_some frame e in
            let (m, s) = validate_frame-success frame (rw same at h) in (frame, e, m, same ∙ s)
      ]

  validate_frame_kept :
      (frame : Frame)
      → let v = validate_frame c request frame expected_opcode expected_length attempts in
        (v.0.request_id ≡ request.request_id)
        × (v.1.transport ≡ c.transport)
        × (v.1.next_request_id ≡ c.next_request_id)
  unfolding validate_frame
  validate_frame_kept frame = ground arith

  -- Every verdict names the request, and touches neither the transport nor the next identifier.
  pub validate_kept :
      (verdict.0.request_id ≡ request.request_id)
      × (verdict.1.transport ≡ c.transport)
      × (verdict.1.next_request_id ≡ c.next_request_id)
  validate_kept = elim (Option-cases (accepted (decode response))) [
    | inl e ↦ let n = validate_none e in (n.1, rw n.3 refl, rw n.3 refl)
    | inr (frame, e) ↦ rw (validate_some frame e) (validate_frame_kept frame)
  ]
