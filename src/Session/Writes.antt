-- ===== src/Session/Writes.antt =====
-- A write, against the device.
use industrial_memory_protoc.Prelude.{
  ℕ, ◌≤◌, ◌≡◌, ◌≢◌, ap, subst, ◌∙◌, ◌⊎◌, inl, inr, List, arith, length, All,
}
use industrial_memory_protoc.Prelude.Bits.{IsByte, IsU32}
use industrial_memory_protoc.Types.{Opcode, opcode_value, Frame}
use industrial_memory_protoc.Codec.Frames.{encode_output}
use industrial_memory_protoc.Memory.Store.{IsMap}
use industrial_memory_protoc.Server.{MemoryServer, handle}
use industrial_memory_protoc.Server.Response.{Reply}
use industrial_memory_protoc.Server.Handle.{Serves, loads, stores, rejects}
use industrial_memory_protoc.Transport.{ℤ, LoopbackTransport, loopback}
use industrial_memory_protoc.Client.Types.{ClientError, OperationResult, Client}
use industrial_memory_protoc.Client.{allocate_request_id, write}
use industrial_memory_protoc.Client.Traffic.{IsLoss-ne-none, Ending, no_link, no_reply, judged}
use industrial_memory_protoc.Client.Executes.{write_request}
use industrial_memory_protoc.Client.Operations.{ready, refused, ran, write-Operation}
use industrial_memory_protoc.Client.Loopback.WriteRequests.{IsWritable, stored, write_answer}
use industrial_memory_protoc.Session.Device.{
  Call, Answers, write_ok, write_dropped, write_unacknowledged,
}
use industrial_memory_protoc.Session.Calls.{IsSession, error_cases}
use industrial_memory_protoc.Session.Effects.{Traffic-silent, Traffic-once, success_lem}

module _ (v : MemoryServer) (m : IsMap v.memory) (request_id address : ℕ) (content : List ℕ)
    (named : IsU32 request_id) (within : IsU32 address) (valid : All IsByte content)
    (low : 1 ≤ length content) (high : length content ≤ 256) where
  -- What a served write leaves, and that only a stored one is acknowledged.
  written :
      (r : Reply) (v' : MemoryServer)
      → Serves v (write_request request_id address content) r v'
      → ((v' ≡ v) × (opcode_value r.opcode ≢ opcode_value Opcode.write_acknowledgement))
        ⊎ (IsWritable v address (length content) × (v' ≡ stored v address content))
  written r v' (loads op _ _ _ er es) = absurd cc
  written r v' (stores op on allowed most above fits er es) = inr (
    record { enabled = on; begins = allowed.1; ends = allowed.2; above = above; below = fits },
    es,
  )
  written r v' (rejects status text why er es) =
      inl (es, λ f. omega (arith, f, ap (λ (x : Reply). opcode_value x.opcode) er))

module _ (c : Client LoopbackTransport) (q : IsSession c) (address : ℕ) (deadline : ℤ)
    (within : IsU32 address) (content : List ℕ) (valid : All IsByte content) where
  abbrev d₀ : MemoryServer
  d₀ = c.transport.server

  abbrev IsWritten : MemoryServer → Type 0
  IsWritten v =
      (v ≡ d₀) ⊎ (IsWritable d₀ address (length content) × (v ≡ stored d₀ address content))

  failed-Answers :
      (r : OperationResult) (v : MemoryServer)
      → r.error ≢ ClientError.none
      → IsWritten v
      → Answers d₀ (Call.write address content deadline) r v
  failed-Answers r v bad (inl same) = write_dropped bad same
  failed-Answers r v bad (inr (writable, now)) = write_unacknowledged bad writable now

  module _ (low : 1 ≤ length content) (high : length content ≤ 256) where
    abbrev wanted : Frame
    wanted = write_request c.next_request_id address content

    effect :
        ((handle d₀ (encode_output wanted)).1 ≡ d₀)
        ⊎ (IsWritable d₀ address (length content)
            × ((handle d₀ (encode_output wanted)).1 ≡ stored d₀ address content))
    effect =
        let named = q.is_client.below in
        let a =
          write_answer d₀ q.is_map c.next_request_id address content named within valid low high in
        elim (written d₀ q.is_map c.next_request_id address content named within valid low high
          a.reply (handle d₀ (encode_output wanted)).1 a.serves) [
            | inl (same, nack) ↦ inl same
            | inr done ↦ inr done
          ]

    once_IsWritten :
        (v : MemoryServer) → (v ≡ d₀) ⊎ (v ≡ (handle d₀ (encode_output wanted)).1) → IsWritten v
    once_IsWritten v (inl same) = inl same
    once_IsWritten v (inr called) = rw called effect

    write-Ending :
        (n : ℕ) (r : OperationResult) (t : LoopbackTransport)
        → n ≤ 1
        → Ending loopback
            (ready c).transport
            wanted
            (encode_output wanted)
            deadline
            Opcode.write_acknowledgement
            0
            n
            r
            t
        → IsWritten t.server
        → Answers d₀ (Call.write address content deadline) r t.server
    unfolding allocate_request_id
    write-Ending n r t single (no_link v before down e b a) left =
        failed-Answers r t.server (λ f. cc (e, f)) left
    write-Ending n r t single (no_reply m v u count before link lost e b a same) left =
        failed-Answers r t.server (IsLoss-ne-none e) left
    write-Ending n r t single (judged d m v u count earlier link before came verdict same) left =
        elim (error_cases r.error) [
          | inr bad ↦ failed-Answers r t.server bad left
          | inl ok ↦
              let named = q.is_client.below in
              let there : u.server ≡ d₀ =
                Traffic-silent (encode_output wanted) deadline before
                  (omega (arith, count, single)) in
              let m' : IsMap u.server.memory = rw there q.is_map in
              let served =
                write_answer u.server m' c.next_request_id address content named within valid low
                  high in
              let fine =
                success_lem wanted deadline d u Opcode.write_acknowledgement 0 n came served r
                  verdict ok in
              elim (written u.server m' c.next_request_id address content named within valid low
                high served.reply (handle u.server (encode_output wanted)).1 served.serves) [
                  | inl (same', nack) ↦ absurd (nack fine.0.opcode)
                  | inr (writable, now) ↦
                      write_ok (subst (λ v. IsWritable v address (length content)) there writable)
                        ok
                        (ap (λ (x : LoopbackTransport). x.server) same
                          ∙ fine.2
                          ∙ now
                          ∙ ap (λ v. stored v address content) there)
                ]
        ]

  pub write-Answers :
      let (r, after) = write loopback c address content deadline in
      Answers d₀ (Call.write address content deadline) r after.transport.server
  unfolding allocate_request_id
  write-Answers = elim (write-Operation loopback c address deadline content) [
    | refused closed e b a i same ↦
        write_dropped (λ f. cc (e, f))
          (ap (λ (d : Client LoopbackTransport). d.transport.server) same)
    | ran (low, high, positive) encodes run ↦
        let (r, after) = write loopback c address content deadline in
        let wire = encode_output (wanted low high) in
        write-Ending low high run.exchanges r after.transport run.within run.ending (
          once_IsWritten low high after.transport.server
            (Traffic-once wire deadline run.traffic run.within))
  ]
