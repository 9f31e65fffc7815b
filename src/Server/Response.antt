-- ===== src/Server/Response.antt =====
-- `make_response` always finds its frame encodable, and what the frame says.
use Prim.Native.String.{String}
use mathlib.Core.Option.{Option}
use industrial_memory_protoc.Prelude.{
  ℕ, ◌≤◌, ◌≡◌, refl, ap, ◌⊎◌, inl, inr, true, List, [], arith, length, All,
}
use industrial_memory_protoc.Prelude.Bits.{IsByte}
use industrial_memory_protoc.Types.{
  Opcode, Status, Frame, accepted, response_flag, protocol_version,
}
use industrial_memory_protoc.Codec.Frames.{
  is_supported_opcode, encode_output, decode, has_valid_semantics,
}
use industrial_memory_protoc.Codec.RoundTrip.{
  IsStatus, IsFrame, Encodable, Encodable-encode, decode-encode_output,
}
use industrial_memory_protoc.Server.{HandleResult, make_response}

-- The statuses that an error response carries.
abbrev pub IsNamedError : Status → Type 0
IsNamedError Status.ok = ⊥
IsNamedError (Status.unassigned n) = ⊥
IsNamedError _ = Unit

-- What the server answers to a frame.
pub record Reply : Type 0 where
  pub opcode : Opcode
  pub status : Status
  pub payload : List ℕ
  pub detail : String

abbrev pub reply_frame : Frame → Reply → Frame
reply_frame request r = record {
  version = protocol_version;
  opcode = r.opcode;
  flags = response_flag;
  request_id = request.request_id;
  address = request.address;
  status = r.status;
  payload = r.payload;
}

abbrev pub respond : Frame → Reply → HandleResult
respond request r = make_response request r.opcode r.status r.payload r.detail

-- Opcode, status and payload fit together, and the payload is bounded.
pub record IsReply (r : Reply) : Type 0 where
  pub kind :
      ((r.opcode ≡ Opcode.data_response) × (r.status ≡ Status.ok))
      ⊎ ((r.opcode ≡ Opcode.write_acknowledgement) × (r.status ≡ Status.ok) × (r.payload ≡ []))
      ⊎ ((r.opcode ≡ Opcode.error_response) × IsNamedError r.status)
  pub ceiling : length r.payload ≤ 256
  pub valid : All IsByte r.payload

error_semantics :
    (request : Frame) (s : Status) (payload : List ℕ) (detail : String)
    → IsNamedError s
    → has_valid_semantics (
        reply_frame request (record {
          opcode = Opcode.error_response;
          status = s;
          payload = payload;
          detail = detail;
        }))
      ≡ true
unfolding has_valid_semantics
error_semantics request Status.ok payload detail h = absurd h
error_semantics request (Status.unassigned n) payload detail h = absurd h
error_semantics request Status.bad_request payload detail h = refl
error_semantics request Status.out_of_range payload detail h = refl
error_semantics request Status.write_disabled payload detail h = refl
error_semantics request Status.access_denied payload detail h = refl
error_semantics request Status.internal_error payload detail h = refl

named_status : (s : Status) → IsNamedError s → IsStatus s
named_status Status.ok h = absurd h
named_status (Status.unassigned n) h = absurd h
named_status _ h = tt

reply_semantics :
    (request : Frame) (r : Reply) → IsReply r → has_valid_semantics (reply_frame request r) ≡ true
reply_semantics request r v = cases v.kind
  where
    cases :
        ((r.opcode ≡ Opcode.data_response) × (r.status ≡ Status.ok))
          ⊎ ((r.opcode ≡ Opcode.write_acknowledgement) × (r.status ≡ Status.ok) × (r.payload ≡ []))
          ⊎ ((r.opcode ≡ Opcode.error_response) × IsNamedError r.status)
        → has_valid_semantics (reply_frame request r) ≡ true
    cases (inl h) = rw (h.0, h.1) (unfold has_valid_semantics in refl)
    cases (inr (inl h)) = rw (h.0, h.1, h.2) (unfold has_valid_semantics in refl)
    cases (inr (inr h)) = rw h.0 (error_semantics request r.status r.payload r.detail h.1)

reply_status : (r : Reply) → IsReply r → IsStatus r.status
reply_status r v = cases v.kind
  where
    cases :
        ((r.opcode ≡ Opcode.data_response) × (r.status ≡ Status.ok))
          ⊎ ((r.opcode ≡ Opcode.write_acknowledgement) × (r.status ≡ Status.ok) × (r.payload ≡ []))
          ⊎ ((r.opcode ≡ Opcode.error_response) × IsNamedError r.status)
        → IsStatus r.status
    cases (inl h) = rw h.1 tt
    cases (inr (inl h)) = rw h.1 tt
    cases (inr (inr h)) = named_status r.status h.1

reply_opcode : (r : Reply) → IsReply r → is_supported_opcode r.opcode ≡ true
reply_opcode r v = cases v.kind
  where
    cases :
        ((r.opcode ≡ Opcode.data_response) × (r.status ≡ Status.ok))
          ⊎ ((r.opcode ≡ Opcode.write_acknowledgement) × (r.status ≡ Status.ok) × (r.payload ≡ []))
          ⊎ ((r.opcode ≡ Opcode.error_response) × IsNamedError r.status)
        → is_supported_opcode r.opcode ≡ true
    cases (inl h) = rw h.0
    cases (inr (inl h)) = rw h.0
    cases (inr (inr h)) = rw h.0

pub reply_frame-Encodable :
    (request : Frame) (r : Reply) → IsReply r → Encodable (reply_frame request r)
reply_frame-Encodable request r v = record {
  version = refl;
  opcode = reply_opcode r v;
  ceiling = v.ceiling;
  semantics = reply_semantics request r v;
}

pub reply_frame-IsFrame :
    (request : Frame) (r : Reply) → IsFrame request → IsReply r → IsFrame (reply_frame request r)
reply_frame-IsFrame request r w v = record {
  flags = omega arith;
  request_id = w.request_id;
  address = w.address;
  status = reply_status r v;
  payload = v.valid;
}

-- The response is the encoded reply, and the event reports the reply's status: encoding never
-- fails.
pub respond_lem :
    (request : Frame) (r : Reply)
    → IsReply r
    → respond request r ≡ record {
      response = encode_output (reply_frame request r);
      event = record {
        request_decoded = true;
        request_id = request.request_id;
        status = r.status;
        detail = r.detail;
      };
    }
unfolding make_response
respond_lem request r v =
    rw (Encodable-encode (reply_frame request r) (reply_frame-Encodable request r v)) refl

-- A client that decodes the response gets the reply's frame.
pub decode-respond :
    (request : Frame) (r : Reply)
    → IsFrame request
    → IsReply r
    → accepted (decode (respond request r).response) ≡ Option.some (reply_frame request r)
decode-respond request r w v = rw (respond_lem request r v) (
    ap accepted (
      decode-encode_output (reply_frame request r) (reply_frame-IsFrame request r w v)
        (reply_frame-Encodable request r v)))
