-- ===== src/Client/Judgement.antt =====
-- `validate_response`, on every branch.
use mathlib.Core.Option.{Option}
use industrial_memory_protoc.Prelude.{
  ℕ, ◌≡◌, ◌≢◌, ◌⊎◌, inl, inr, List, [], length, arith, Option-cases,
}
use industrial_memory_protoc.Types.{Opcode, opcode_value, Frame, accepted}
use industrial_memory_protoc.Codec.Frames.{decode}
use industrial_memory_protoc.Client.Types.{ClientError, OperationResult, Client}
use industrial_memory_protoc.Client.Verdict.{validate_frame, validate_response}
use industrial_memory_protoc.Client.Response.{
  Matches, success, validate_none, validate_some, validate_frame-Matches,
}

-- What a response is worth: whether it decodes, echoes the request, refuses it, and has the expected
-- shape, in this order.
pub data Judgement {T : Type 0} (c : Client T) (request : Frame) (response : List ℕ)
    (expected_opcode : Opcode) (expected_length attempts : ℕ) (o : OperationResult × Client T)
    : Type 0 where
  malformed :
      accepted (decode response) ≡ Option.none
      → o.0.error ≡ ClientError.malformed_response
      → o.0.bytes ≡ []
      → Judgement c request response expected_opcode expected_length attempts o
  unrelated :
      (frame : Frame)
      → accepted (decode response) ≡ Option.some frame
      → ¬ ((frame.request_id ≡ request.request_id) × (frame.address ≡ request.address))
      → o.0.error ≡ ClientError.correlation_mismatch
      → o.0.bytes ≡ []
      → Judgement c request response expected_opcode expected_length attempts o
  turned_down :
      (frame : Frame)
      → accepted (decode response) ≡ Option.some frame
      → frame.request_id ≡ request.request_id
      → frame.address ≡ request.address
      → opcode_value frame.opcode ≡ 0xff
      → o.0.error ≡ ClientError.remote_error
      → o.0.remote_status ≡ frame.status
      → o.0.bytes ≡ frame.payload
      → o.1 ≡ c
      → Judgement c request response expected_opcode expected_length attempts o
  unexpected :
      (frame : Frame)
      → accepted (decode response) ≡ Option.some frame
      → frame.request_id ≡ request.request_id
      → frame.address ≡ request.address
      → opcode_value frame.opcode ≢ 0xff
      → ¬ (
          (opcode_value frame.opcode ≡ opcode_value expected_opcode)
          × (length frame.payload ≡ expected_length))
      → o.0.error ≡ ClientError.unexpected_response
      → o.0.bytes ≡ []
      → Judgement c request response expected_opcode expected_length attempts o
  succeeds :
      (frame : Frame)
      → accepted (decode response) ≡ Option.some frame
      → Matches request frame expected_opcode expected_length
      → o ≡ (success request frame attempts, c)
      → Judgement c request response expected_opcode expected_length attempts o

eq_cases : (a b : ℕ) → (a ≡ b) ⊎ (a ≢ b)
eq_cases a b = ground arith

both_cases : (a b c d : ℕ) → ((a ≡ b) × (c ≡ d)) ⊎ ¬ ((a ≡ b) × (c ≡ d))
both_cases a b c d = ground arith

module _ {T : Type 0} (c : Client T) (request frame : Frame) (expected_opcode : Opcode)
    (expected_length attempts : ℕ) where
  abbrev v : OperationResult × Client T
  v = validate_frame c request frame expected_opcode expected_length attempts

  frame_unrelated :
      ¬ ((frame.request_id ≡ request.request_id) × (frame.address ≡ request.address))
      → (v.0.error ≡ ClientError.correlation_mismatch) × (v.0.bytes ≡ [])
  unfolding validate_frame
  frame_unrelated h = ground arith

  frame_turned_down :
      frame.request_id ≡ request.request_id
      → frame.address ≡ request.address
      → opcode_value frame.opcode ≡ 0xff
      → (v.0.error ≡ ClientError.remote_error)
        × (v.0.remote_status ≡ frame.status)
        × (v.0.bytes ≡ frame.payload)
        × (v.1 ≡ c)
  unfolding validate_frame
  frame_turned_down a b e = ground arith

  frame_unexpected :
      frame.request_id ≡ request.request_id
      → frame.address ≡ request.address
      → opcode_value frame.opcode ≢ 0xff
      → ¬ (
          (opcode_value frame.opcode ≡ opcode_value expected_opcode)
          × (length frame.payload ≡ expected_length))
      → (v.0.error ≡ ClientError.unexpected_response) × (v.0.bytes ≡ [])
  unfolding validate_frame
  frame_unexpected a b e h = ground arith

  pub frame-Judgement :
      (response : List ℕ)
      → accepted (decode response) ≡ Option.some frame
      → Judgement c request response expected_opcode expected_length attempts v
  frame-Judgement response e =
      elim (both_cases frame.request_id request.request_id frame.address request.address) [
        | inr other ↦ let r = frame_unrelated other in unrelated frame e other r.0 r.1
        | inl (named, placed) ↦ elim (eq_cases (opcode_value frame.opcode) 0xff) [
          | inl refusal ↦
              let r = frame_turned_down named placed refusal in
              turned_down frame e named placed refusal r.0 r.1 r.2 r.3
          | inr plain ↦
              elim (both_cases (opcode_value frame.opcode) (opcode_value expected_opcode)
                (length frame.payload) expected_length) [
                  | inr misfit ↦
                      let r = frame_unexpected named placed plain misfit in
                      unexpected frame e named placed plain misfit r.0 r.1
                  | inl (kind, sized) ↦
                      let m : Matches request frame expected_opcode expected_length = record {
                        request_id = named;
                        address = placed;
                        no_error = plain;
                        opcode = kind;
                        size = sized;
                      } in
                      succeeds frame e m (
                        validate_frame-Matches c request response expected_opcode expected_length
                          attempts frame m)
                ]
        ]
      ]

-- `validate_response` judges a response in this order. One that does not decode is malformed; one
-- whose identifier or address is not the request's is a mismatch; an error response is reported as
-- a remote error, with its status and payload; one without the expected opcode and payload
-- length is unexpected; and any other is a success, with its status and payload. Only a remote error
-- and a success have a payload, and they leave the client as it was.
pub validate_response-Judgement :
    {T : Type 0} (c : Client T) (request : Frame) (response : List ℕ) (expected_opcode : Opcode)
    (expected_length attempts : ℕ)
    → Judgement c request response expected_opcode expected_length attempts
        (validate_response c request response expected_opcode expected_length attempts)
validate_response-Judgement c request response expected_opcode expected_length attempts =
    elim (Option-cases (accepted (decode response))) [
      | inl e ↦
          let n = validate_none c request response expected_opcode expected_length attempts e in
          malformed e n.0 n.2
      | inr (frame, e) ↦
          rw (validate_some c request response expected_opcode expected_length attempts frame e)
            (frame-Judgement c request frame expected_opcode expected_length attempts response e)
    ]
