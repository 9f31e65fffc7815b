-- ===== src/Cli/Writes.antt =====
-- What `run_write` comes to.
use industrial_memory_protoc.Prelude.{
  ℕ, ◌+◌, ◌<◌, ◌≤◌, ◌≡◌, refl, lt-cases, ◌∙◌, ◌⊎◌, inl, inr, some, List, [], length, arith,
  Option-cases, Bool-cases, Bool, true, false, not, ◌||◌, ◌==◌, bytes_eq, bytes_eq_iff,
}
use industrial_memory_protoc.Types.{Status}
use industrial_memory_protoc.Memory.{codes}
use industrial_memory_protoc.Codec.Hex.{bytes_from_hex}
use industrial_memory_protoc.Codec.Hex.Texts.{bytes_from_hex-bytes}
use industrial_memory_protoc.Server.{text_payload}
use industrial_memory_protoc.Server.Handle.{rejection}
use industrial_memory_protoc.Transport.{pos, loopback}
use industrial_memory_protoc.Client.Types.{ClientError}
use industrial_memory_protoc.Client.{write}
use industrial_memory_protoc.Client.Verdict.{failed}
use industrial_memory_protoc.Client.Executes.{write_request}
use industrial_memory_protoc.Client.Loopback.WriteRequests.{acknowledgement}
use industrial_memory_protoc.Cli.Numbers.{parse_u32}
use industrial_memory_protoc.Cli.Commands.{Outcome, bad_write, report, run_write}
use industrial_memory_protoc.Cli.Exchanges.{exchange_trace}
use industrial_memory_protoc.Cli.Reads.{parse_u32_bound}
use industrial_memory_protoc.Cli.Runs.{reported_run}
use industrial_memory_protoc.Cli.Stores.{client, refused_lem, denied_lem, granted_lem}

-- The ranges that are written.
abbrev pub IsStorable : ℕ → ℕ → Type 0
IsStorable address len = (len ≤ 256) × (0x100 ≤ address) × (address + len ≤ 0x800)

-- The arguments stand for a write, and the last of them confirms it.
pub record IsConfirmed (address_text payload_text confirmation : List ℕ) (address : ℕ)
    (payload : List ℕ) : Type 0 where
  pub target : parse_u32 address_text ≡ some address
  pub content : bytes_from_hex payload_text ≡ some payload
  pub filled : 1 ≤ length payload
  pub confirmed : confirmation ≡ codes "--allow-writes"

-- All that a run comes to.
pub data WriteRun (address_text payload_text confirmation : List ℕ) (o : Outcome) : Type 0 where
  unconfirmed :
      ((address : ℕ)
        → (payload : List ℕ) → IsConfirmed address_text payload_text confirmation address payload
        → ⊥)
      → o ≡ bad_write
      → WriteRun address_text payload_text confirmation o
  refused :
      (address : ℕ)
      → (payload : List ℕ) → IsConfirmed address_text payload_text confirmation address payload
      → 256 < length payload
      → o
        ≡ reported_run 4
            (failed ClientError.invalid_argument 1 0
              "write payload and deadline must be positive and bounded")
            []
      → WriteRun address_text payload_text confirmation o
  denied :
      (address : ℕ)
      → (payload : List ℕ) → IsConfirmed address_text payload_text confirmation address payload
      → length payload ≤ 256
      → ¬ ((0x100 ≤ address) × (address + length payload ≤ 0x800))
      → o
        ≡ reported_run 4
            (record {
              error = ClientError.remote_error;
              remote_status = Status.access_denied;
              request_id = 1;
              attempts = 1;
              bytes = text_payload "outside_write_allowlist";
              detail = "remote request rejected";
            })
            (exchange_trace
              (write_request 1 address payload)
              (rejection Status.access_denied "outside_write_allowlist"))
      → WriteRun address_text payload_text confirmation o
  granted :
      (address : ℕ)
      → (payload : List ℕ) → IsConfirmed address_text payload_text confirmation address payload
      → IsStorable address (length payload)
      → o
        ≡ reported_run 0
            (record {
              error = ClientError.none;
              remote_status = Status.ok;
              request_id = 1;
              attempts = 1;
              bytes = [];
              detail = "ok";
            })
            (exchange_trace (write_request 1 address payload) acknowledgement)
      → WriteRun address_text payload_text confirmation o

range_cases :
    (address len : ℕ)
    → ((0x100 ≤ address) × (address + len ≤ 0x800))
      ⊎ ¬ ((0x100 ≤ address) × (address + len ≤ 0x800))
range_cases address len = ground arith

module _ (address_text payload_text confirmation : List ℕ) where
  write_lem :
      (address : ℕ) (payload : List ℕ)
      → IsConfirmed address_text payload_text confirmation address payload
      → (o : Outcome) → o ≡ report (write loopback client address payload (pos 100))
      → WriteRun address_text payload_text confirmation o
  write_lem address payload c o e =
      let within = parse_u32_bound address_text address c.target in
      let valid = bytes_from_hex-bytes payload_text payload c.content in
      elim (lt-cases 256 (length payload)) [
        | inl long ↦
            refused address payload c long
              (e ∙ refused_lem address payload within valid c.filled (ground (arith, long)))
        | inr high ↦ elim (range_cases address (length payload)) [
          | inl (above, below) ↦
              granted address payload c (high, above, below)
                (e ∙ granted_lem address payload within valid c.filled high above below)
          | inr out ↦
              denied address payload c high out
                (e ∙ denied_lem address payload within valid c.filled high out)
        ]
      ]

  -- Whether the payload is empty or the confirmation missing.
  abbrev is_unconfirmed : List ℕ → Bool
  is_unconfirmed payload =
      length payload == 0 || not (bytes_eq confirmation (codes "--allow-writes"))

  is_unconfirmed_iff :
      (payload : List ℕ)
      → ((is_unconfirmed payload ≡ true)
          → (1 ≤ length payload)
          → confirmation ≡ codes "--allow-writes"
          → ⊥)
        × ((is_unconfirmed payload ≡ false)
            → (1 ≤ length payload) × (confirmation ≡ codes "--allow-writes"))
  is_unconfirmed_iff payload = ground (arith, bytes_eq_iff confirmation (codes "--allow-writes"))

  -- `run_write` has four outcomes. Unless its first text is a number of 32 bits, its second spells 1
  -- to 278 bytes, and its third is `--allow-writes`, it prints an error and exits with 2. If these
  -- are more than 256 bytes it exits with 4, having printed the client's refusal and no packet. If
  -- their range leaves 0x100 to 0x7ff it exits with 4, having printed the remote error with the
  -- status and the text of the policy's allowlist. And if not, it exits with 0, having printed the
  -- result of one attempt. In the last two it also prints the trace of two packets: the encoded
  -- request, and the encoded response with its text, which is an acknowledgement in the last.
  pub run_write-WriteRun :
      WriteRun address_text payload_text confirmation
        (run_write address_text payload_text confirmation)
  unfolding run_write
  run_write-WriteRun = elim (Option-cases (parse_u32 address_text)) [
    | inl e ↦ unconfirmed (λ address payload c. absurd (cc (e, c.target))) (rw (e, run_write) refl)
    | inr (address, e) ↦ elim (Option-cases (bytes_from_hex payload_text)) [
      | inl f ↦
          unconfirmed (λ address payload c. absurd (cc (f, c.content))) (rw (e, run_write, f) refl)
      | inr (payload, f) ↦ elim (Bool-cases (is_unconfirmed payload)) [
        | inl g ↦
            unconfirmed
              (λ a p c.
                let same : p ≡ payload = cc (f, c.content) in
                (is_unconfirmed_iff payload).0 g (rw same at c.filled) c.confirmed)
              (rw (e, run_write, f, g) refl)
        | inr g ↦
            let (filled, confirmed) = (is_unconfirmed_iff payload).1 g in
            write_lem address payload
              (record { target = e; content = f; filled = filled; confirmed = confirmed })
              (run_write address_text payload_text confirmation) (rw (e, run_write, f, g) refl)
      ]
    ]
  ]
