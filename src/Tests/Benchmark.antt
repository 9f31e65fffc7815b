-- ===== src/Tests/Benchmark.antt =====
-- A run of the benchmark's report, with whole milliseconds for durations, a clock that measures `9 - n`
-- for sample `n`, and an insertion sort.
use mathlib.Core.List.{Perm}
use mathlib.Core.List.Perm
use industrial_memory_protoc.Prelude.{
  ℕ, ◌≡◌, ◌-◌, ◌*◌, ◌/◌, Bool, true, false, List, [], ◌∷◌, ◌++◌, All, ltb, if◌then◌else◌,
  Bool-cases, inl, inr, arith,
}
use industrial_memory_protoc.Memory.{codes}
use industrial_memory_protoc.Transport.{ℤ, pos, negsuc}
use industrial_memory_protoc.Cli.Numbers.{decimal}
use industrial_memory_protoc.Benchmark.Report.{Double, benchmark_main}
use industrial_memory_protoc.Benchmark.Median.{IsAscending, Sorts, BenchmarkRun, benchmark_main_lem}

abbrev is_negative : ℤ → Bool
is_negative (pos n) = false
is_negative (negsuc n) = true

abbrev on_positive : (ℕ → ℕ → ℕ) → ℤ → ℤ → ℤ
on_positive f (pos a) (pos b) = pos (f a b)
on_positive f _ _ = negsuc 0

abbrev fixed : ℕ → ℤ → List ℕ
fixed digits (pos n) = decimal n ++ codes ".000"
fixed digits (negsuc n) = codes "-"

abbrev whole : Double ℤ
whole = record {
  nought = pos 0;
  minus_one = negsuc 0;
  thousand = pos 1000;
  of_size = pos;
  times = on_positive ◌*◌;
  over = on_positive ◌/◌;
  is_negative = is_negative;
  fixed = fixed;
}

abbrev less : ℤ → ℤ → Bool
less (pos a) (pos b) = ltb a b
less (pos a) (negsuc b) = false
less (negsuc a) (pos b) = true
less (negsuc a) (negsuc b) = ltb b a

abbrev insert : ℤ → List ℤ → List ℤ
insert x [] = x ∷ []
insert x (y ∷ ys) = let rest = insert x ys in if less y x then y ∷ rest else x ∷ y ∷ ys

abbrev sort : List ℤ → List ℤ
sort [] = []
sort (x ∷ xs) = insert x (sort xs)

less_irrefl : (x : ℤ) → less x x ≡ false
less_irrefl x = ground arith

less_asym : (x y : ℤ) → less y x ≡ true → less x y ≡ false
less_asym x y h = ground arith

less_trans : (x y z : ℤ) → less y x ≡ false → less z y ≡ false → less z x ≡ false
less_trans x y z h k = ground arith

insert-perm : (x : ℤ) (ys : List ℤ) → Perm (insert x ys) (x ∷ ys)
insert-perm x [] = Perm.refl (x ∷ [])
insert-perm x (y ∷ ys) = elim (Bool-cases (less y x)) [
  | inl e ↦ rw e (Perm.trans (Perm.cons y (insert-perm x ys)) (Perm.swap x y ys))
  | inr e ↦ rw e (Perm.refl (x ∷ y ∷ ys))
]

sort-perm : (xs : List ℤ) → Perm (sort xs) xs
sort-perm [] = Perm.nil
sort-perm (x ∷ xs) = Perm.trans (insert-perm x (sort xs)) (Perm.cons x (sort-perm xs))

All-insert :
    (y x : ℤ) (ys : List ℤ)
    → less x y ≡ false
    → All (λ z. less z y ≡ false) ys
    → All (λ z. less z y ≡ false) (insert x ys)
All-insert y x [] h a = (h, tt)
All-insert y x (z ∷ ys) h a = elim (Bool-cases (less z x)) [
  | inl e ↦ rw e (a.0, All-insert y x ys h a.1)
  | inr e ↦ rw e (h, a)
]

All-less :
    (x y : ℤ) (ys : List ℤ)
    → less y x ≡ false
    → All (λ z. less z y ≡ false) ys
    → All (λ z. less z x ≡ false) ys
All-less x y [] h a = tt
All-less x y (z ∷ ys) h a = (less_trans x y z h a.0, All-less x y ys h a.1)

insert-IsAscending : (x : ℤ) (ys : List ℤ) → IsAscending less ys → IsAscending less (insert x ys)
insert-IsAscending x [] a = (tt, tt)
insert-IsAscending x (y ∷ ys) a = elim (Bool-cases (less y x)) [
  | inl e ↦ rw e (All-insert y x ys (less_asym x y e) a.0, insert-IsAscending x ys a.1)
  | inr e ↦ rw e ((e, All-less x y ys e a.0), a)
]

sort-IsAscending : (xs : List ℤ) → IsAscending less (sort xs)
sort-IsAscending [] = tt
sort-IsAscending (x ∷ xs) = insert-IsAscending x (sort xs) (sort-IsAscending xs)

sorts : Sorts less sort
sorts = record { strict = less_irrefl; permutes = sort-perm; ascends = sort-IsAscending }

abbrev clock : ℕ → ℤ
clock n = pos (9 - n)

benchmark_main_lem_example : BenchmarkRun whole less clock (benchmark_main whole sort clock)
benchmark_main_lem_example = benchmark_main_lem whole less sort sorts clock
