-- ===== src/Session/Reads.antt =====
-- A read, against the device.
use industrial_memory_protoc.Prelude.{ℕ, ◌≤◌, ◌≡◌, refl, ap, ◌∙◌, inl, inr, arith, take, drop}
use industrial_memory_protoc.Prelude.Bits.{IsU32}
use industrial_memory_protoc.Types.{Opcode, opcode_value, Frame}
use industrial_memory_protoc.Codec.Frames.{encode_output}
use industrial_memory_protoc.Memory.Store.{IsMap}
use industrial_memory_protoc.Server.{MemoryServer, handle}
use industrial_memory_protoc.Server.Response.{Reply}
use industrial_memory_protoc.Server.Handle.{Serves, loads, stores, rejects}
use industrial_memory_protoc.Transport.{ℤ, LoopbackTransport, loopback}
use industrial_memory_protoc.Client.Types.{OperationResult, Client}
use industrial_memory_protoc.Client.{allocate_request_id, read}
use industrial_memory_protoc.Client.Traffic.{IsLoss-ne-none, Ending, no_link, no_reply, judged}
use industrial_memory_protoc.Client.Executes.{read_request}
use industrial_memory_protoc.Client.Operations.{ready, refused, ran, read-Operation}
use industrial_memory_protoc.Client.Loopback.Requests.{size, IsReadable, read_answer, read_keeps}
use industrial_memory_protoc.Session.Device.{Call, Answers, read_ok, read_failed}
use industrial_memory_protoc.Session.Calls.{IsSession, error_cases}
use industrial_memory_protoc.Session.Effects.{Traffic-kept, success_lem}

-- A read that the server serves with cells reads the range.
loaded :
    (v : MemoryServer) (m : IsMap v.memory) (request_id address len : ℕ) (named : IsU32 request_id)
    (within : IsU32 address) (low : 1 ≤ len) (high : len ≤ 256) (r : Reply) (v' : MemoryServer)
    → Serves v (read_request request_id address len) r v'
    → opcode_value r.opcode ≡ opcode_value Opcode.data_response
    → IsReadable address len × (r.payload ≡ take len (drop address v.memory.cells))
loaded v m request_id address len named within low high r v' (loads op low' high' fits er es)
      data_op =
    let n = size v m request_id address len named within low high in
    ((low, high, omega (arith, fits, n)), ap (λ (x : Reply). x.payload) er ∙ rw n refl)
loaded v m request_id address len named within low high r v' (stores op _ _ _ _ _ er es) data_op =
    absurd cc
loaded v m request_id address len named within low high r v' (rejects status text why er es)
      data_op =
    absurd (omega (arith, data_op, ap (λ (x : Reply). opcode_value x.opcode) er))

module _ (c : Client LoopbackTransport) (q : IsSession c) (address : ℕ) (deadline : ℤ)
    (within : IsU32 address) where
  abbrev s : MemoryServer
  s = c.transport.server

  ready_server : (ready c).transport.server ≡ s
  unfolding allocate_request_id
  ready_server = refl

  module _ (len : ℕ) (low : 1 ≤ len) (high : len ≤ 256) where
    abbrev asked : Frame
    asked = read_request c.next_request_id address len

    read-Ending :
        (n : ℕ) (r : OperationResult) (t : LoopbackTransport)
        → Ending loopback
            (ready c).transport
            asked
            (encode_output asked)
            deadline
            Opcode.data_response
            len
            n
            r
            t
        → t.server ≡ s
        → Answers s (Call.read address len deadline) r t.server
    read-Ending n r t (no_link v before down e b a) kept = read_failed (λ f. cc (e, f)) kept
    read-Ending n r t (no_reply m v u count before link lost e b a same) kept =
        read_failed (IsLoss-ne-none e) kept
    read-Ending n r t (judged d m v u count earlier link before came verdict same) kept =
        elim (error_cases r.error) [
          | inr bad ↦ read_failed bad kept
          | inl ok ↦
              let named = q.is_client.below in
              let there : u.server ≡ s =
                Traffic-kept (encode_output asked) deadline s
                  (read_keeps s q.is_map c.next_request_id address len named within low high) before
                  (ready_server) in
              let m' : IsMap u.server.memory = rw there q.is_map in
              let served =
                read_answer u.server m' c.next_request_id address len named within low high in
              let fine =
                success_lem asked deadline d u Opcode.data_response len n came served r verdict
                  ok in
              let l =
                loaded u.server m' c.next_request_id address len named within low high served.reply
                  (handle u.server (encode_output asked)).1 served.serves fine.0.opcode in
              read_ok l.0 ok
                (fine.1
                  ∙ l.1
                  ∙ ap (λ (v : MemoryServer). take len (drop address v.memory.cells)) there)
                kept
        ]

  pub read-Answers :
      (len : ℕ)
      → let (r, after) = read loopback c address len deadline in
        Answers s (Call.read address len deadline) r after.transport.server
  unfolding allocate_request_id
  read-Answers len = elim (read-Operation loopback c address deadline len q.is_client.tries) [
    | refused closed e b a i same ↦
        read_failed (λ f. cc (e, f))
          (ap (λ (d : Client LoopbackTransport). d.transport.server) same)
    | ran (low, high, positive) encodes run ↦
        let (r, after) = read loopback c address len deadline in
        let kept =
          Traffic-kept (encode_output (asked len low high)) deadline s
            (read_keeps s q.is_map c.next_request_id address len q.is_client.below within low high)
            run.traffic refl in
        read-Ending len low high run.exchanges r after.transport run.ending kept
  ]
