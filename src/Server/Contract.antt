-- ===== src/Server/Contract.antt =====
-- What `handle` promises for every byte string, in terms of the decoded frame.
use Prim.Native.String.{String}
use mathlib.Core.Option.{Option}
use industrial_memory_protoc.Prelude.{
  ℕ, ◌≤◌, ◌≡◌, ◌↔◌, refl, sym, ap, subst, Option-cases, inl, inr, true, false, List, [], arith,
  length, drop, All, length-take, All-take, All-drop,
}
use industrial_memory_protoc.Prelude.Bits.{IsByte}
use industrial_memory_protoc.Types.{Status, Frame, accepted}
use industrial_memory_protoc.Codec.Frames.{decode}
use industrial_memory_protoc.Codec.Names.{codec_error_name}
use industrial_memory_protoc.Codec.RoundTrip.{IsFrame, Encodable}
use industrial_memory_protoc.Codec.Encoded.{All-encode_output}
use industrial_memory_protoc.Codec.Canonical.{decode-IsFrame}
use industrial_memory_protoc.Memory.Store.{IsMap}
use industrial_memory_protoc.Server.{
  MemoryServer, HandleResult, text_payload, requested_length, handle, handle_frame,
}
use industrial_memory_protoc.Server.Response.{
  Reply, IsReply, IsNamedError, respond, reply_frame, respond_lem, decode-respond,
  reply_frame-IsFrame, reply_frame-Encodable,
}
use industrial_memory_protoc.Server.Handle.{
  Serves, Refuses, loads, stores, rejects, bad_read, disabled, not_allowed, bad_write,
  not_a_request, Handled, handle_frame-Handled, rejection,
}

error-IsReply :
    (status : Status) (text : String)
    → IsNamedError status
    → length (text_payload text) ≤ 256
    → All IsByte (text_payload text)
    → IsReply (rejection status text)
error-IsReply status text named short valid = record {
  kind = inr (inr (refl, named));
  ceiling = short;
  valid = valid;
}

refusal-IsReply :
    (s : MemoryServer) (f : Frame) (status : Status) (text : String)
    → Refuses s f status text
    → IsReply (rejection status text)
unfolding text_payload
refusal-IsReply s f status text (bad_read op (inl r) e) =
    rw (e, r.1) (error-IsReply Status.out_of_range "read_rejected" tt (omega arith) (omega arith))
refusal-IsReply s f status text (bad_read op (inr r) e) =
    rw (e, r.2) (error-IsReply Status.access_denied "read_rejected" tt (omega arith) (omega arith))
refusal-IsReply s f status text (disabled op off es et) =
    rw (es, et)
      (error-IsReply Status.write_disabled "write_disabled" tt (omega arith) (omega arith))
refusal-IsReply s f status text (not_allowed op on beyond es et) =
    rw (es, et)
      (error-IsReply Status.access_denied "outside_write_allowlist" tt (omega arith) (omega arith))
refusal-IsReply s f status text (bad_write op on within (inl r) e) =
    rw (e, r.1)
      (error-IsReply Status.out_of_range "memory_write_rejected" tt (omega arith) (omega arith))
refusal-IsReply s f status text (bad_write op on within (inr r) e) =
    rw (e, r.2)
      (error-IsReply Status.access_denied "memory_write_rejected" tt (omega arith) (omega arith))
refusal-IsReply s f status text (not_a_request p q es et) =
    rw (es, et)
      (error-IsReply Status.bad_request "request_opcode_required" tt (omega arith) (omega arith))

pub Serves-IsReply :
    (s s' : MemoryServer) (f : Frame) (r : Reply) → IsMap s.memory → Serves s f r s' → IsReply r
Serves-IsReply s s' f r m (loads op low high fits e _) = rw e (record {
  kind = inl (refl, refl);
  ceiling = omega (arith, length-take (requested_length f) (drop f.address s.memory.cells));
  valid =
      All-take IsByte (requested_length f) (drop f.address s.memory.cells)
        (All-drop IsByte f.address s.memory.cells m.valid);
})
Serves-IsReply s s' f r m (stores op on within high above below e _) =
    rw e (record { kind = inr (inl (refl, refl, refl)); ceiling = omega arith; valid = tt })
Serves-IsReply s s' f r m (rejects status text why e _) = rw e (refusal-IsReply s f status text why)

-- The result of `handle` on an accepted frame.
pub record Served (s : MemoryServer) (f : Frame) (result : HandleResult × MemoryServer)
    : Type 0 where
  pub reply : Reply
  pub serves : Serves s f reply result.1
  pub decodes : accepted (decode result.0.response) ≡ Option.some (reply_frame f reply)
  pub bytes : All IsByte result.0.response
  pub event : result.0.event ≡ record {
    request_decoded = true;
    request_id = f.request_id;
    status = reply.status;
    detail = reply.detail;
  }

handle-some :
    (s : MemoryServer) (bytes : List ℕ) (f : Frame)
    → accepted (decode bytes) ≡ Option.some f
    → handle s bytes ≡ handle_frame s f
unfolding handle
handle-some s bytes f e = rw (e, handle) refl

pub decoded-Served :
    (s : MemoryServer) (bytes : List ℕ) (f : Frame)
    → IsFrame f × Encodable f
    → IsMap s.memory
    → accepted (decode bytes) ≡ Option.some f
    → Served s f (handle s bytes)
decoded-Served s bytes f frame m e = rw (handle-some s bytes f e) served
  where
    handled : Handled s f (handle_frame s f)
    handled = handle_frame-Handled s f frame.1.opcode

    is_reply : IsReply handled.reply
    is_reply = Serves-IsReply s handled.after f handled.reply m handled.serves

    described : Served s f (respond f handled.reply, handled.after)
    described = record {
      reply = handled.reply;
      serves = handled.serves;
      decodes = decode-respond f handled.reply frame.0 is_reply;
      bytes = rw (ap (λ (h : HandleResult). h.response) (respond_lem f handled.reply is_reply)) (
          All-encode_output (reply_frame f handled.reply)
            (reply_frame-IsFrame f handled.reply frame.0 is_reply)
            (reply_frame-Encodable f handled.reply is_reply));
      event = ap (λ (h : HandleResult). h.event) (respond_lem f handled.reply is_reply);
    }

    served : Served s f (handle_frame s f)
    served = subst (Served s f) (sym handled.result_eq) described

-- A string of bytes that decodes is answered, by a server with a well-formed memory map, by one
-- correlated response, which a peer can always decode: the response carries the request's
-- identifier and address and the reply that the rules for reads, writes and refusals prescribe,
-- and the server's next state is the prescribed one. The event reports the same status and text
-- and the request's identifier.
pub handle-Served :
    (s : MemoryServer) (bytes : List ℕ) (f : Frame)
    → All IsByte bytes
    → IsMap s.memory
    → accepted (decode bytes) ≡ Option.some f
    → Served s f (handle s bytes)
handle-Served s bytes f valid m e = decoded-Served s bytes f (decode-IsFrame bytes f valid e) m e

-- The branch of `handle` for bytes that do not decode.
pub handle_undecoded :
    (s : MemoryServer) (bytes : List ℕ)
    → accepted (decode bytes) ≡ Option.none
    → handle s bytes ≡ (
      record {
        response = [];
        event = record {
          request_decoded = false;
          request_id = 0;
          status = Status.bad_request;
          detail = codec_error_name (decode bytes).error;
        };
      },
      s,
    )
unfolding handle
handle_undecoded s bytes e = rw (e, handle) refl

nothing_rejected : accepted (decode []) ≡ Option.none
unfolding decode
nothing_rejected = refl

-- A server with a well-formed memory map sends no response to a string of bytes exactly when the
-- string does not decode, and then keeps its state.
pub handle_silence :
    (s : MemoryServer) (bytes : List ℕ)
    → All IsByte bytes
    → IsMap s.memory
    → ((handle s bytes).0.response ≡ [])
      ↔ ((accepted (decode bytes) ≡ Option.none) × ((handle s bytes).1 ≡ s))
handle_silence s bytes valid m =
    (silent, λ w. ap (λ h. h.0.response) (handle_undecoded s bytes w.0))
  where
    silent :
        (handle s bytes).0.response ≡ []
        → (accepted (decode bytes) ≡ Option.none) × ((handle s bytes).1 ≡ s)
    silent e = elim (Option-cases (accepted (decode bytes))) [
      | inl n ↦ (n, ap (λ h. h.1) (handle_undecoded s bytes n))
      | inr (f, a) ↦
          let decodes = (handle-Served s bytes f valid m a).decodes in
          absurd (cc (rw e at decodes, nothing_rejected))
    ]
