-- ===== src/Client/Loopback/Damaged.antt =====
-- Operations whose response is damaged on its way back.
use mathlib.Core.Option.{Option}
use industrial_memory_protoc.Prelude.{
  [], ◌∷◌, sym, subst, ◌⊎◌, inl, inr, ◌≢◌, ℕ, ◌≤◌, ◌≡◌, refl, ap, ◌∙◌, false, List, [], arith,
  length, All,
}
use industrial_memory_protoc.Prelude.Bits.{IsByte, IsU32}
use industrial_memory_protoc.Types.{Opcode, Frame, CodecError, DecodeResult, accepted}
use industrial_memory_protoc.Codec.Frames.{encode_output, decode}
use industrial_memory_protoc.Server.{handle}
use industrial_memory_protoc.Server.Response.{reply_frame}
use industrial_memory_protoc.Memory.Store.{IsMap}
use industrial_memory_protoc.Transport.{
  ℤ, not_positive, TransportFault, TransportReply, LoopbackTransport, loopback, damage, pop_back,
  flip_back, shift_request_id,
}
use industrial_memory_protoc.Transport.Exchange.{Passes, truncates, corrupts, misnumbers}
use industrial_memory_protoc.Transport.Damage.{
  decode-pop_back, decode-flip_back, decode-shift_request_id, renumbered,
}
use industrial_memory_protoc.Client.Types.{Client, ClientError, OperationResult}
use industrial_memory_protoc.Client.{allocate_request_id, read, write}
use industrial_memory_protoc.Client.Verdict.{validate_frame, validate_response}
use industrial_memory_protoc.Client.Traffic.{sent, replied}
use industrial_memory_protoc.Client.Response.{validate_some, validate_kept}
use industrial_memory_protoc.Client.Executes.{
  judged_lem, write_request, write_request-Encodable, execute_read_judged, read_request,
  read_request-Encodable,
}
use industrial_memory_protoc.Client.Operations.{ready, write-execute_write, read-execute_read}
use industrial_memory_protoc.Client.Loopback.WriteRequests.{
  IsWritable, acknowledgement, stored, write_answer, write_granted,
}
use industrial_memory_protoc.Client.Loopback.Requests.{read_answer, read_keeps}
use industrial_memory_protoc.Client.Loopback.{linked_lem, passed_lem}

-- What the client makes of a response that a fault damages.
abbrev pub damage_error : TransportFault → ClientError
damage_error TransportFault.wrong_request_id = ClientError.correlation_mismatch
damage_error _ = ClientError.malformed_response

abbrev pub IsDamage : TransportFault → Type 0
IsDamage fault =
    (fault ≡ TransportFault.truncate_response)
    ⊎ (fault ≡ TransportFault.corrupt_response)
    ⊎ (fault ≡ TransportFault.wrong_request_id)

IsDamage-Passes :
    (fault : TransportFault) (rest : List TransportFault)
    → IsDamage fault
    → Passes (fault ∷ rest) (Option.some fault) rest
IsDamage-Passes fault rest (inl e) = rw e (truncates rest)
IsDamage-Passes fault rest (inr (inl e)) = rw e (corrupts rest)
IsDamage-Passes fault rest (inr (inr e)) = rw e (misnumbers rest)

not_accepted : (r : DecodeResult) → (r.error ≡ CodecError.none → ⊥) → accepted r ≡ Option.none
not_accepted r h = ground (arith, h)

module _ {T : Type 0} (c : Client T) (request f : Frame) (response : List ℕ)
    (expected_opcode : Opcode) (expected_length attempts : ℕ) (valid : All IsByte response)
    (decodes : accepted (decode response) ≡ Option.some f)
    (named : f.request_id ≡ request.request_id) where
  abbrev Rejected : ClientError → List ℕ → Type 0
  Rejected error bytes =
      let v = validate_response c request bytes expected_opcode expected_length attempts in
      (v.0.error ≡ error) × (v.0.attempts ≡ attempts) × (v.0.bytes ≡ [])

  unreadable :
      (bytes : List ℕ)
      → accepted (decode bytes) ≡ Option.none
      → Rejected ClientError.malformed_response bytes
  unfolding validate_response
  unreadable bytes e = rw (e, validate_response) (refl, refl, refl)

  truncated : Rejected ClientError.malformed_response (pop_back response)
  truncated =
      let short = decode-pop_back response f decodes in
      unreadable (pop_back response)
        (not_accepted (decode (pop_back response)) (λ e. cc (e, short)))

  corrupted : Rejected ClientError.malformed_response (flip_back response)
  corrupted =
      let other = decode-flip_back response f valid decodes in
      unreadable (flip_back response)
        (not_accepted (decode (flip_back response)) (λ e. cc (e, other)))

  mismatched :
      (g : Frame)
      → (g.request_id ≢ request.request_id)
      → (v : OperationResult)
      → v ≡ (validate_frame c request g expected_opcode expected_length attempts).0
      → (v.error ≡ ClientError.correlation_mismatch) × (v.attempts ≡ attempts) × (v.bytes ≡ [])
  unfolding validate_frame
  mismatched g other v e = ground (arith, e, other)

  misnumbered : Rejected ClientError.correlation_mismatch (shift_request_id response)
  misnumbered =
      let s = decode-shift_request_id response f valid decodes in
      let v =
        validate_some c request (shift_request_id response) expected_opcode expected_length attempts
          (renumbered f) s.0 in
      mismatched (renumbered f) (λ e. s.1 (e ∙ sym named))
        (validate_response c request (shift_request_id response) expected_opcode expected_length
          attempts).0
        (ap (λ o. o.0) v)

  pub damaged :
      (fault : TransportFault)
      → IsDamage fault
      → Rejected (damage_error fault) (damage (Option.some fault) response)
  unfolding damage
  damaged fault (inl e) = rw e truncated
  damaged fault (inr (inl e)) = rw e corrupted
  damaged fault (inr (inr e)) = rw e misnumbered

-- What an operation with a damaged response starts from.
pub record Spoiled (c : Client LoopbackTransport) (fault : TransportFault)
    (rest : List TransportFault) : Type 0 where
  pub is_map : IsMap c.transport.server.memory
  pub request_id : IsU32 c.next_request_id
  pub faults : c.transport.faults ≡ fault ∷ rest
  pub damages : IsDamage fault

module _ (c : Client LoopbackTransport) (fault : TransportFault) (rest : List TransportFault)
    (q : Spoiled c fault rest) (address : ℕ) (deadline : ℤ)
    (positive : not_positive deadline ≡ false) (within : IsU32 address) where
  through : Passes (ready c).transport.faults (Option.some fault) rest
  unfolding allocate_request_id
  through =
      subst (λ fs. Passes fs (Option.some fault) rest) (sym q.faults)
        (IsDamage-Passes fault rest q.damages)

  -- The verdict on the damaged reply to an encoded request.
  verdict_lem :
      (request f : Frame) (expected_opcode : Opcode) (expected_length : ℕ)
      → All IsByte (handle c.transport.server (encode_output request)).0.response
      → accepted (decode (handle c.transport.server (encode_output request)).0.response)
        ≡ Option.some f
      → f.request_id ≡ request.request_id
      → let v =
          validate_response
            (sent loopback (ready c) (encode_output request) deadline)
            request
            (replied loopback (ready c) (encode_output request) deadline).bytes
            expected_opcode
            expected_length
            1 in
        (v.0.error ≡ damage_error fault)
        × (v.0.attempts ≡ 1)
        × (v.0.bytes ≡ [])
        × (v.1.transport.server ≡ (handle c.transport.server (encode_output request)).1)
  unfolding allocate_request_id
  verdict_lem request f expected_opcode expected_length valid decodes named =
      let wire = encode_output request in
      let s = sent loopback (ready c) wire deadline in
      let p = passed_lem (ready c) deadline positive through wire in
      let d =
        damaged s request f (handle c.transport.server wire).0.response expected_opcode
          expected_length 1 valid decodes named fault q.damages in
      let kept =
        validate_kept s request (replied loopback (ready c) wire deadline).bytes expected_opcode
          expected_length 1 in
      let same = ap (λ (v : TransportReply). v.bytes) p.0 in
      (rw same d.0, rw same d.1, rw same d.2, ap (λ t. t.server) kept.1 ∙ p.1)

  module _ (content : List ℕ) (valid : All IsByte content) (low : 1 ≤ length content)
      (high : length content ≤ 256)
      (writable : IsWritable c.transport.server address (length content)) where
    abbrev wanted : Frame
    wanted = write_request c.next_request_id address content

    -- A write whose acknowledgement is damaged is reported as malformed or, if the fault changed its
    -- identifier, as a mismatch, after one attempt and with no bytes, though the server has stored the
    -- content: for a permitted write of 1 to 256 bytes over a loopback transport with a positive
    -- deadline, from a client whose next identifier has 32 bits, to a server with a well-formed map.
    pub write-damaged :
        let (result, after) = write loopback c address content deadline in
        (result.error ≡ damage_error fault)
        × (result.attempts ≡ 1)
        × (result.bytes ≡ [])
        × (after.transport.server ≡ stored c.transport.server address content)
    unfolding allocate_request_id
    write-damaged =
        let wire = encode_output wanted in
        let g =
          write_granted c.transport.server q.is_map c.next_request_id address content q.request_id
            within valid low high writable in
        let a =
          write_answer c.transport.server q.is_map c.next_request_id address content q.request_id
            within valid low high in
        let v =
          verdict_lem wanted (reply_frame wanted acknowledgement) Opcode.write_acknowledgement 0
            a.bytes g.0 refl in
        let run =
          write-execute_write loopback c address deadline content
            (ground (arith, low, high, positive))
          ∙ judged_lem loopback (ready c) wanted deadline
              (write_request-Encodable c.next_request_id address content (ground (arith, low)) high)
              (linked_lem (ready c)).0
              (rw (passed_lem (ready c) deadline positive through wire).0 refl) in
        (
          ap (λ o. o.0.error) run ∙ v.0,
          ap (λ o. o.0.attempts) run ∙ v.1,
          ap (λ o. o.0.bytes) run ∙ v.2,
          ap (λ o. o.1.transport.server) run ∙ v.3 ∙ g.1,
        )

  module _ (len : ℕ) (low : 1 ≤ len) (high : len ≤ 256) (tries : 1 ≤ c.maximum_read_attempts) where
    abbrev asked : Frame
    asked = read_request c.next_request_id address len

    -- A read of 1 to 256 bytes whose response is damaged is reported as malformed or, if the fault
    -- changed its identifier, as a mismatch, after one attempt and with no bytes, whatever its range
    -- and however often the client may try: over a loopback transport with a positive deadline, from a
    -- client that may try at least once and whose next identifier has 32 bits, to a server with a
    -- well-formed map, which stays as it was.
    pub read-damaged :
        let (result, after) = read loopback c address len deadline in
        (result.error ≡ damage_error fault)
        × (result.attempts ≡ 1)
        × (result.bytes ≡ [])
        × (after.transport.server ≡ c.transport.server)
    unfolding allocate_request_id
    read-damaged =
        let wire = encode_output asked in
        let a =
          read_answer c.transport.server q.is_map c.next_request_id address len q.request_id within
            low high in
        let v =
          verdict_lem asked (reply_frame asked a.reply) Opcode.data_response len a.bytes a.decodes
            refl in
        let run =
          read-execute_read loopback c address deadline len (ground (arith, low, high, positive))
          ∙ execute_read_judged loopback (ready c) asked deadline
              (read_request-Encodable c.next_request_id address len) len tries
              (linked_lem (ready c)).0
              (rw (passed_lem (ready c) deadline positive through wire).0 refl) in
        (
          ap (λ o. o.0.error) run ∙ v.0,
          ap (λ o. o.0.attempts) run ∙ v.1,
          ap (λ o. o.0.bytes) run ∙ v.2,
          ap (λ o. o.1.transport.server) run
              ∙ v.3
              ∙ read_keeps c.transport.server q.is_map c.next_request_id address len q.request_id
                  within low high,
        )
