-- ===== src/Prelude/Halves.antt =====
-- The native bit operations, which the checker runs digit by digit, in terms of halves and parities.
use Prim.Native.Nat.{
  ℕ, zero, suc, ◌+◌, ◌-◌, ◌*◌, ◌/◌, ◌%◌, ◌≤◌, ◌<◌, min, max, bit_and, bit_or, bit_xor, digits,
  bitwise, differ, bit_and-bitwise, bit_or-bitwise, bit_xor-bitwise,
}
use mathlib.Core.Path.{◌≡◌, refl, ◌∙◌}
use native.Mathlib.Omega.{arith}

-- Induction from the half of a number.
module _ {ℓ} (P : ℕ → Type ℓ) (base : P 0) (double : (a : ℕ) → P (suc a / 2) → P (suc a)) where
  below : (bound a : ℕ) → a < bound → P a
  below zero a l = absurd (omega (arith, l))
  below (suc bound) zero l = base
  below (suc bound) (suc a) l = double a (below bound (suc a / 2) (omega (arith, l)))

  pub halving : (a : ℕ) → P a
  halving a = below (suc a) a (omega arith)

module _ (rest : ℕ → ℕ) (digit : ℕ → ℕ → ℕ) where
  -- A digit count that suffices may be raised by one,
  one_more :
      (count a b : ℕ) → a ≤ count → digits rest digit (suc count) a b ≡ digits rest digit count a b
  one_more zero zero b l = refl
  one_more (suc count) zero b l = refl
  one_more zero (suc a) b l = absurd (omega (arith, l))
  one_more (suc count) (suc a) b l = rw (one_more count (suc a / 2) (b / 2) (omega (arith, l))) refl

  -- and so by any number.
  many_more :
      (extra total count a b : ℕ)
      → total ≡ extra + count
      → a ≤ count
      → digits rest digit total a b ≡ digits rest digit count a b
  many_more zero total count a b e l = let same : total ≡ count = omega (arith, e) in rw same refl
  many_more (suc extra) zero count a b e l = absurd (omega (arith, e))
  many_more (suc extra) (suc total) count a b e l =
      one_more total a b (omega (arith, e, l))
      ∙ many_more extra total count a b (omega (arith, e)) l

  lowest_digit :
      (a b : ℕ)
      → bitwise rest digit (suc a) b
        ≡ digit (suc a % 2) (b % 2) + 2 * bitwise rest digit (suc a / 2) (b / 2)
  lowest_digit a b =
      let settled =
        many_more (a - suc a / 2) a (suc a / 2) (suc a / 2) (b / 2) (omega arith) (omega arith) in
      omega (arith, settled)

pub bit_and_halves : (a b : ℕ) → bit_and a b ≡ min (a % 2) (b % 2) + 2 * bit_and (a / 2) (b / 2)
bit_and_halves zero b = simp bit_and-bitwise (omega arith)
bit_and_halves (suc a) b = simp bit_and-bitwise (lowest_digit (λ rest. 0) min a b)

pub bit_or_halves : (a b : ℕ) → bit_or a b ≡ max (a % 2) (b % 2) + 2 * bit_or (a / 2) (b / 2)
bit_or_halves zero b = simp bit_or-bitwise (omega arith)
bit_or_halves (suc a) b = simp bit_or-bitwise (lowest_digit (λ rest. rest) max a b)

differ_lem : (p q : ℕ) → differ p q ≡ (p - q) + (q - p)
differ_lem zero q = omega arith
differ_lem (suc p) zero = omega arith
differ_lem (suc p) (suc q) = omega (arith, differ_lem p q)

pub bit_xor_halves : (a b : ℕ) → bit_xor a b ≡ (a + b) % 2 + 2 * bit_xor (a / 2) (b / 2)
bit_xor_halves zero b = simp bit_xor-bitwise (omega arith)
bit_xor_halves (suc a) b =
    let sum = differ_lem (suc a % 2) (b % 2) in
    simp bit_xor-bitwise (omega (arith, sum, lowest_digit (λ rest. rest) differ a b))
