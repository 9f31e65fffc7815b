-- ===== src/Cli/Reads.antt =====
-- What `run_read` comes to.
use industrial_memory_protoc.Prelude.{
  ℕ, ◌+◌, ◌^◌, ◌<◌, ◌≤◌, ◌≡◌, refl, ◌∙◌, inl, inr, some, List, take, drop, [], Bool-cases,
  Option-cases, lt-cases,
}
use industrial_memory_protoc.Types.{Opcode, Status}
use industrial_memory_protoc.Memory.{make_memory_map}
use industrial_memory_protoc.Server.{text_payload}
use industrial_memory_protoc.Transport.{pos, loopback}
use industrial_memory_protoc.Client.Types.{ClientError}
use industrial_memory_protoc.Client.{read}
use industrial_memory_protoc.Client.Verdict.{failed}
use industrial_memory_protoc.Client.Executes.{read_request}
use industrial_memory_protoc.Client.Operations.{is_refused, refused_iff}
use industrial_memory_protoc.Client.Loopback.Requests.{IsReadable, read_status}
use industrial_memory_protoc.Cli.Numbers.{parse_u32}
use industrial_memory_protoc.Cli.Numbers.Parse.{parse_u32_iff}
use industrial_memory_protoc.Cli.Commands.{Outcome, bad_range, report, run_read}
use industrial_memory_protoc.Cli.Exchanges.{exchange_trace}
use industrial_memory_protoc.Server.Handle.{rejection}
use industrial_memory_protoc.Cli.Runs.{reported_run}
use industrial_memory_protoc.Cli.Loads.{client, refused_lem, denied_lem, granted_lem}

pub parse_u32_bound : (text : List ℕ) (n : ℕ) → parse_u32 text ≡ some n → n < 2 ^ 32
parse_u32_bound text n e = ((parse_u32_iff text n).0 e).1

-- All that a run comes to.
pub data ReadRun (address_text length_text : List ℕ) (o : Outcome) : Type 0 where
  unparsed :
      ((address len : ℕ)
        → parse_u32 address_text ≡ some address
        → parse_u32 length_text ≡ some len
        → ⊥)
      → o ≡ bad_range
      → ReadRun address_text length_text o
  refused :
      (address len : ℕ)
      → parse_u32 address_text ≡ some address
      → parse_u32 length_text ≡ some len
      → ¬ ((1 ≤ len) × (len ≤ 256))
      → o
        ≡ reported_run 4
            (failed ClientError.invalid_argument 1 0
              "read length and deadline must be positive and bounded")
            []
      → ReadRun address_text length_text o
  denied :
      (address len : ℕ)
      → parse_u32 address_text ≡ some address
      → parse_u32 length_text ≡ some len
      → 1 ≤ len
      → len ≤ 256
      → 0x800 < address + len
      → o
        ≡ reported_run 4
            (record {
              error = ClientError.remote_error;
              remote_status = read_status address len;
              request_id = 1;
              attempts = 1;
              bytes = text_payload "read_rejected";
              detail = "remote request rejected";
            })
            (exchange_trace
              (read_request 1 address len)
              (rejection (read_status address len) "read_rejected"))
      → ReadRun address_text length_text o
  granted :
      (address len : ℕ)
      → parse_u32 address_text ≡ some address
      → parse_u32 length_text ≡ some len
      → IsReadable address len
      → o
        ≡ reported_run 0
            (record {
              error = ClientError.none;
              remote_status = Status.ok;
              request_id = 1;
              attempts = 1;
              bytes = take len (drop address make_memory_map.cells);
              detail = "ok";
            })
            (exchange_trace (read_request 1 address len) (record {
              opcode = Opcode.data_response;
              status = Status.ok;
              payload = take len (drop address make_memory_map.cells);
              detail = "read_ok";
            }))
      → ReadRun address_text length_text o

read_lem :
    (address_text length_text : List ℕ) (address len : ℕ)
    → parse_u32 address_text ≡ some address
    → parse_u32 length_text ≡ some len
    → (o : Outcome) → o ≡ report (read loopback client address len (pos 100))
    → ReadRun address_text length_text o
read_lem address_text length_text address len pa pl o e =
    let within = parse_u32_bound address_text address pa in
    elim (Bool-cases (is_refused len (pos 100))) [
      | inl closed ↦
          refused address len pa pl
            (λ asked. (refused_iff len (pos 100)).0 closed (asked.0, asked.1, refl))
            (e ∙ refused_lem address len within closed)
      | inr taken ↦
          let (low, high, positive) = (refused_iff len (pos 100)).1 taken in
          elim (lt-cases 0x800 (address + len)) [
            | inl above ↦
                denied address len pa pl low high above
                  (e ∙ denied_lem address len within low high above)
            | inr below ↦
                granted address len pa pl (low, high, below)
                  (e ∙ granted_lem address len within low high below)
          ]
    ]

-- `run_read` has four outcomes. If one of its texts is not a number of 32 bits it prints an error and
-- exits with 2. If the length is not of 1 to 256 it exits with 4, having printed the client's
-- refusal and no packet. If the range ends behind 0x7ff it exits with 4, having printed the remote
-- error with the server's status and text. And if not, it exits with 0, having printed the result of
-- one attempt, with the cells of the range in the new server's memory. In the last two it also prints
-- the trace of two packets: the encoded request, and the encoded response with its text.
pub run_read-ReadRun :
    (address_text length_text : List ℕ)
    → ReadRun address_text length_text (run_read address_text length_text)
unfolding run_read
run_read-ReadRun address_text length_text = elim (Option-cases (parse_u32 address_text)) [
  | inl e ↦ unparsed (λ address len pa pl. absurd (cc (e, pa))) (rw (e, run_read) refl)
  | inr (address, e) ↦ elim (Option-cases (parse_u32 length_text)) [
    | inl f ↦ unparsed (λ address len pa pl. absurd (cc (f, pl))) (rw (e, run_read, f) refl)
    | inr (len, f) ↦
        read_lem address_text length_text address len e f (run_read address_text length_text)
          (rw (e, run_read, f) refl)
  ]
]
