-- ===== src/Benchmark/Report.antt =====
-- apps/benchmark_main.cpp: the median, the rate and what `main` prints. The arithmetic of `double`, how
-- a stream prints one, and `std::sort` are the standard library's and stand as parameters.
use industrial_memory_protoc.Prelude.{
  ℕ, ◌+◌, ◌/◌, Bool, none, some, List, [], ◌∷◌, ◌++◌, ◌==◌, if◌then◌else◌, get_or,
}
use industrial_memory_protoc.Memory.{codes}
use industrial_memory_protoc.Cli.Numbers.{decimal}
use industrial_memory_protoc.Cli.Commands.{Outcome, refused, printed}
use industrial_memory_protoc.Benchmark.{samples, operations_per_sample, measure}

-- What the program does with a `double`.
pub record Double (D : Type 0) : Type 0 where
  pub nought : D
  pub minus_one : D
  pub thousand : D
  pub of_size : ℕ → D
  pub times : D → D → D
  pub over : D → D → D
  pub is_negative : D → Bool
  -- printed with `std::fixed`, and with so many digits behind the point
  pub fixed : ℕ → D → List ℕ

module _ {D : Type 0} (d : Double D) where
  -- The array has `samples` elements; past its end the list has 0.0.
  unfoldable pub median_ms : List D → D
  median_ms sorted = get_or sorted (samples / 2) d.nought

  unfoldable pub operations_per_second : D → D
  operations_per_second median =
      d.over (d.times (d.of_size operations_per_sample) d.thousand) median

  -- The loop over the samples, from `index` on.
  unfoldable pub print_samples : ℕ → List D → List ℕ
  print_samples index [] = []
  print_samples index (sample ∷ milliseconds) =
      (if index == 0 then [] else codes ", ")
      ++ d.fixed 3 sample
      ++ print_samples (index + 1) milliseconds

  unfoldable pub print_report : List D → D → ℕ → List ℕ
  print_report milliseconds median checksum =
      codes "{\n  \"operations_per_sample\": "
      ++ decimal operations_per_sample
      ++ codes ",\n  \"samples_ms\": ["
      ++ print_samples 0 milliseconds
      ++ codes "],\n  \"median_ms\": "
      ++ d.fixed 3 median
      ++ codes ",\n  \"median_operations_per_second\": "
      ++ d.fixed 3 (operations_per_second median)
      ++ codes ",\n  \"checksum\": "
      ++ decimal checksum
      ++ codes "\n}\n"

  unfoldable pub benchmark_main : (List D → List D) → (ℕ → D) → Outcome
  benchmark_main sort elapsed = elim (measure d.minus_one d.is_negative elapsed) [
    | none ↦ refused 1 (codes "benchmark protocol validation failed\n")
    | some (milliseconds, checksum) ↦
        printed (print_report milliseconds (median_ms (sort milliseconds)) checksum)
  ]
