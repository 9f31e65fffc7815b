-- ===== src/Benchmark.antt =====
-- apps/benchmark_main.cpp: the measured batches and the loop over the samples. The clock and the
-- durations, which are of type `double`, are the standard library's and stand as parameters.
pub mod Totals
pub mod Report
pub mod Median
use mathlib.Core.Option.{Option}
use industrial_memory_protoc.Prelude.{
  ℕ, zero, suc, ◌+◌, ◌%◌, ◌^◌, Bool, true, false, not, none, some, List, [], ◌∷◌, ◌++◌,
  if◌then◌else◌, length,
}
use industrial_memory_protoc.Types.{Opcode, Status, Frame, protocol_version, accepted, is_encoded}
use industrial_memory_protoc.Codec.Frames.{encode, decode}
use industrial_memory_protoc.Server.{MemoryServer, default_policy, make_memory_server, handle}

abbrev pub samples : ℕ
samples = 5

abbrev pub operations_per_sample : ℕ
operations_per_sample = 50000

-- The request of one round.
abbrev pub benchmark_request : ℕ → Frame
benchmark_request index = record {
  version = protocol_version;
  opcode = Opcode.read_request;
  flags = 0;
  request_id = (index + 1) % 2 ^ 32;
  address = index % 128 % 2 ^ 32;
  status = Status.ok;
  payload = 0 ∷ 16 ∷ [];
}

-- The loop of `run_sample`, with the rounds that its condition leaves: whether it runs to its end, and
-- the server and the checksum after it.
unfoldable pub sample_loop : ℕ → ℕ → MemoryServer → ℕ → Bool × MemoryServer × ℕ
sample_loop zero index server checksum = (true, server, checksum)
sample_loop (suc left) index server checksum =
    let encoded = encode (benchmark_request index) in
    if not (is_encoded encoded)
    then (false, server, checksum)
    else let (handled, served) = handle server encoded.bytes in
      elim (accepted (decode handled.response)) [
        | none ↦ (false, served, checksum)
        | some frame ↦
            sample_loop left (index + 1) served
              (((checksum + frame.request_id) % 2 ^ 64 + length frame.payload) % 2 ^ 64)
      ]

-- `D` are the durations, `failure` is -1.0, `elapsed n` is what the clock measures for sample `n`, and
-- `is_negative` is the comparison with zero.
module _ {D : Type 0} (failure : D) (is_negative : D → Bool) (elapsed : ℕ → D) where
  unfoldable pub run_sample : ℕ → MemoryServer → ℕ → D × MemoryServer × ℕ
  run_sample sample server checksum =
      let (finished, served, total) = sample_loop operations_per_sample 0 server checksum in
      (if finished then elapsed sample else failure, served, total)

  -- The loop of `main` over the samples, with those that are left: the measured durations and the
  -- checksum, or `none` where the program exits with 1.
  unfoldable pub measure_loop : ℕ → ℕ → MemoryServer → ℕ → Option (List D × ℕ)
  measure_loop zero sample server checksum = some ([], checksum)
  measure_loop (suc left) sample server checksum =
      let (duration, served, total) = run_sample sample server checksum in
      if is_negative duration then none else elim (measure_loop left (sample + 1) served total) [
        | none ↦ none
        | some (milliseconds, final) ↦ some (duration ∷ milliseconds, final)
      ]

  unfoldable pub measure : Option (List D × ℕ)
  measure = measure_loop samples 0 (make_memory_server default_policy) 0
