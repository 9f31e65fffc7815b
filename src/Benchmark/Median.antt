-- ===== src/Benchmark/Median.antt =====
-- What the benchmark reports, whatever its clock measures.
use mathlib.Core.Option.{Option}
use mathlib.Core.List.{Perm, Mem, Permᴰ, mem-cons_self, mem-cons_of_mem}
use mathlib.Core.List.Perm
use mathlib.Core.Logic.{∥∥₁_elim}
use industrial_memory_protoc.Prelude.{
  ℕ, ◌+◌, ◌≤◌, ◌≡◌, refl, ap, ◌∙◌, Bool, true, false, none, some, List, [], ◌∷◌, All, length, arith,
  inl, inr, Bool-cases, if◌then◌else◌,
}
use industrial_memory_protoc.Benchmark.{measure}
use industrial_memory_protoc.Benchmark.Report.{Double, median_ms, print_report, benchmark_main}
use industrial_memory_protoc.Benchmark.Totals.{readings, any, measure_loop_cases}
use industrial_memory_protoc.Memory.{codes}
use industrial_memory_protoc.Memory.Store.{IsMap, make_memory_map-IsMap}
use industrial_memory_protoc.Server.{default_policy, make_memory_server}
use industrial_memory_protoc.Cli.Commands.{Outcome, refused, printed}

-- How many elements pass a test.
abbrev pub count : {A : Type 0} → (A → Bool) → List A → ℕ
count test [] = 0
count test (x ∷ xs) = (if test x then 1 else 0) + count test xs

-- No element is less than one in front of it.
abbrev pub IsAscending : {A : Type 0} → (A → A → Bool) → List A → Type 0
IsAscending less [] = Unit
IsAscending less (x ∷ xs) = All (λ y. less y x ≡ false) xs × IsAscending less xs

-- What `std::sort` documents: it permutes its range, which then ascends. The comparison is to be a
-- strict order; of that, no value being less than itself is what matters here.
pub record Sorts {D : Type 0} (less : D → D → Bool) (sort : List D → List D) : Type 0 where
  pub strict : (x : D) → less x x ≡ false
  pub permutes : (xs : List D) → Perm (sort xs) xs
  pub ascends : (xs : List D) → IsAscending less (sort xs)

count-Permᴰ :
    {A : Type 0} (test : A → Bool) {xs ys : List A} → Permᴰ xs ys → count test xs ≡ count test ys
count-Permᴰ test Permᴰ.nil = refl
count-Permᴰ test (Permᴰ.cons e p) = rw (e, count-Permᴰ test p) refl
count-Permᴰ test (Permᴰ.swap e f) = rw (e, f) (omega arith)
count-Permᴰ test (Permᴰ.trans p q) = count-Permᴰ test p ∙ count-Permᴰ test q

count-Perm :
    {A : Type 0} (test : A → Bool) {xs ys : List A} → Perm xs ys → count test xs ≡ count test ys
count-Perm test {xs} {ys} p =
    let set : IsProp (count test xs ≡ count test ys) = hlevel in ∥∥₁_elim p set (count-Permᴰ test)

length-count : {A : Type 0} (xs : List A) → length xs ≡ count (λ x. true) xs
length-count [] = refl
length-count (x ∷ xs) = omega (arith, length-count xs)

-- Of `samples` durations, the median is one, and no more than two are below it, or above it.
pub record IsMedian {D : Type 0} (less : D → D → Bool) (m : D) (xs : List D) : Type 0 where
  pub member : Mem m xs
  pub below : count (λ x. less x m) xs ≤ 2
  pub above : count (λ x. less m x) xs ≤ 2

module _ {D : Type 0} (d : Double D) (less : D → D → Bool) where
  IsMedian-sorted :
      (xs : List D)
      → length xs ≡ 5
      → IsAscending less xs
      → ((x : D) → less x x ≡ false)
      → IsMedian less (median_ms d xs) xs
  unfolding median_ms
  IsMedian-sorted [] five _ strict = absurd (omega (arith, five))
  IsMedian-sorted (a ∷ []) five _ strict = absurd (omega (arith, five))
  IsMedian-sorted (a ∷ b ∷ []) five _ strict = absurd (omega (arith, five))
  IsMedian-sorted (a ∷ b ∷ m ∷ []) five _ strict = absurd (omega (arith, five))
  IsMedian-sorted (a ∷ b ∷ m ∷ x ∷ []) five _ strict = absurd (omega (arith, five))
  IsMedian-sorted (a ∷ b ∷ m ∷ x ∷ y ∷ []) five h strict = record {
    member = mem-cons_of_mem a (mem-cons_of_mem b mem-cons_self);
    below = rw (h.1.1.0.0, h.1.1.0.1.0, strict m) (ground arith);
    above = rw (h.0.1.0, h.1.0.0, strict m) (ground arith);
  }
  IsMedian-sorted (a ∷ b ∷ m ∷ x ∷ y ∷ z ∷ xs) five _ strict = absurd (omega (arith, five))

-- The median of a sorted permutation is one of the list itself.
IsMedian-Perm :
    {D : Type 0} {less : D → D → Bool} {m : D} {xs ys : List D}
    → Perm xs ys
    → IsMedian less m xs
    → IsMedian less m ys
IsMedian-Perm {less} {m} p i = record {
  member = (Perm.mem_iff p).0 i.member;
  below = omega (arith, i.below, count-Perm (λ x. less x m) p);
  above = omega (arith, i.above, count-Perm (λ x. less m x) p);
}

-- What `main` comes to with the durations that the clock measures.
pub data BenchmarkRun {D : Type 0} (d : Double D) (less : D → D → Bool) (elapsed : ℕ → D)
    (o : Outcome) : Type 0 where
  stops :
      any d.is_negative (readings elapsed 5 0) ≡ true
      → o ≡ refused 1 (codes "benchmark protocol validation failed\n")
      → BenchmarkRun d less elapsed o
  reports :
      (m : D)
      → any d.is_negative (readings elapsed 5 0) ≡ false
      → IsMedian less m (readings elapsed 5 0)
      → o ≡ printed (print_report d (readings elapsed 5 0) m 6254125000)
      → BenchmarkRun d less elapsed o

default-IsMap : IsMap (make_memory_server default_policy).memory
unfolding make_memory_server
default-IsMap = make_memory_map-IsMap

module _ {D : Type 0} (d : Double D) (less : D → D → Bool) (sort : List D → List D)
    (sorts : Sorts less sort) (elapsed : ℕ → D) where
  abbrev outcome : Option (List D × ℕ) → Outcome
  outcome none = refused 1 (codes "benchmark protocol validation failed\n")
  outcome (some (milliseconds, checksum)) =
      printed (print_report d milliseconds (median_ms d (sort milliseconds)) checksum)

  five :
      Perm (sort (readings elapsed 5 0)) (readings elapsed 5 0)
      → length (sort (readings elapsed 5 0)) ≡ 5
  five p = omega (
    arith,
    length-count (sort (readings elapsed 5 0)),
    length-count (readings elapsed 5 0),
    count-Perm (λ x. true) p,
  )

  -- `main` of the benchmark has two outcomes, and the clock decides between them. If one of the five
  -- durations it measures is negative, the program prints an error and exits with 1. If none is, it
  -- exits with 0 and prints a report of these durations in order, of the checksum 6254125000, and of a
  -- median: one of them, with at most two of them below it and at most two above. The sort gives an
  -- ascending permutation, and no value is less than itself.
  pub benchmark_main_lem : BenchmarkRun d less elapsed (benchmark_main d sort elapsed)
  unfolding benchmark_main measure
  benchmark_main_lem =
      let run =
        measure_loop_cases d.minus_one d.is_negative elapsed 5 0 (make_memory_server default_policy)
          0 default-IsMap (omega arith) in
      let moved = sorts.permutes (readings elapsed 5 0) in
      let m =
        IsMedian-sorted d less (sort (readings elapsed 5 0)) (five moved)
          (sorts.ascends (readings elapsed 5 0)) sorts.strict in
      elim (Bool-cases (any d.is_negative (readings elapsed 5 0))) [
        | inl negative ↦ stops negative (ap outcome (rw negative at run))
        | inr measured ↦
            reports (median_ms d (sort (readings elapsed 5 0))) measured (IsMedian-Perm moved m)
              (ap outcome (rw measured at run))
      ]
