-- ===== src/Prelude/Bits.antt =====
-- Laws of the native bit operations at variables, for masks, disjoint fields and `^`.
use Prim.Native.Nat.{
  ℕ, zero, suc, ◌+◌, ◌*◌, ◌/◌, ◌%◌, ◌^◌, ◌≤◌, ◌<◌, bit_and, bit_or, bit_xor, bit_xor-bitwise,
}
use mathlib.Core.Path.{◌≡◌, refl, ap, sym, ◌∙◌}
use native.Mathlib.Nat.{le_refl, pow-suc}
use native.Mathlib.Omega.{arith}
use industrial_memory_protoc.Prelude.Halves.{halving, bit_and_halves, bit_or_halves, bit_xor_halves}

pub two-pow-suc : (k : ℕ) → 2 ^ suc k ≡ 2 * 2 ^ k
two-pow-suc k = omega (arith, pow-suc 2 k)

-- A word of 32 bits, and a byte.
abbrev pub IsU32 : ℕ → Type 0
IsU32 n = n < 2 ^ 32

abbrev pub IsByte : ℕ → Type 0
IsByte n = n < 256

-- No bits in common with zero.
pub bit_and-zero : (a : ℕ) → bit_and a 0 ≡ 0
bit_and-zero =
    halving (λ a. bit_and a 0 ≡ 0) refl (λ a half. omega (arith, half, bit_and_halves (suc a) 0))

-- Masks of low bits are remainders.
pub bit_and-one : (n : ℕ) → bit_and n 1 ≡ n % 2
bit_and-one n = let top = bit_and-zero (n / 2) in omega (arith, top, bit_and_halves n 1)

pub bit_and_nibble : (a : ℕ) → bit_and a 15 ≡ a % 16
bit_and_nibble a = omega (
  arith,
  bit_and_halves a 15,
  bit_and_halves (a / 2) 7,
  bit_and_halves (a / 2 / 2) 3,
  bit_and-one (a / 2 / 2 / 2),
)

pub bit_and_byte : (a : ℕ) → bit_and a 255 ≡ a % 256
bit_and_byte a = omega (
  arith,
  bit_and_halves a 255,
  bit_and_halves (a / 2) 127,
  bit_and_halves (a / 2 / 2) 63,
  bit_and_halves (a / 2 / 2 / 2) 31,
  bit_and_nibble (a / 2 / 2 / 2 / 2),
)

-- The mask of all bits of a byte but the lowest.
pub bit_and_high_bits : (a : ℕ) → a < 256 → bit_and a 254 ≡ a / 2 * 2
bit_and_high_bits a h = omega (
  arith,
  bit_and_halves a 254,
  bit_and_halves (a / 2) 127,
  bit_and_halves (a / 2 / 2) 63,
  bit_and_halves (a / 2 / 2 / 2) 31,
  bit_and_nibble (a / 2 / 2 / 2 / 2),
)

bit_or-zero : (a : ℕ) → bit_or a 0 ≡ a
bit_or-zero =
    halving (λ a. bit_or a 0 ≡ a) refl (λ a half. omega (arith, half, bit_or_halves (suc a) 0))

-- `x | l` is a sum where `l` fits into the `k` low bits, which are clear in `x`.
bit_or_shifted : (k h l : ℕ) → l < 2 ^ k → bit_or (h * 2 ^ k) l ≡ h * 2 ^ k + l
bit_or_shifted zero h l fits =
    let e : l ≡ 0 = omega arith in rw e (omega (arith, bit_or-zero (h * 2 ^ 0)))
bit_or_shifted (suc k) h l fits =
    let double : h * 2 ^ suc k ≡ 2 * (h * 2 ^ k) =
      omega (arith, ap (λ (t : ℕ). h * t) (pow-suc 2 k)) in
    let halve : h * 2 ^ suc k / 2 ≡ h * 2 ^ k = omega arith in
    let ih = bit_or_shifted k h (l / 2) (omega (arith, pow-suc 2 k)) in
    bit_or_halves (h * 2 ^ suc k) l ∙ rw (halve, ih) (omega arith)

pub bit_or-eq-add : (k h x l : ℕ) → x ≡ h * 2 ^ k → l < 2 ^ k → bit_or x l ≡ x + l
bit_or-eq-add k h x l e fits = rw e (bit_or_shifted k h l fits)

bit_xor_comm_fuel : (n a b : ℕ) → a + b ≤ n → bit_xor a b ≡ bit_xor b a
bit_xor_comm_fuel n zero zero h = refl
bit_xor_comm_fuel zero zero (suc b) h = absurd (omega arith)
bit_xor_comm_fuel zero (suc a) b h = absurd (omega arith)
bit_xor_comm_fuel (suc n) a b h = omega (
  arith,
  bit_xor_halves a b,
  bit_xor_halves b a,
  bit_xor_comm_fuel n (a / 2) (b / 2) (omega arith),
)

pub bit_xor_comm : (a b : ℕ) → bit_xor a b ≡ bit_xor b a
bit_xor_comm a b = bit_xor_comm_fuel (a + b) a b (le_refl _)

bit_xor_cancel_fuel : (n a b : ℕ) → a + b ≤ n → bit_xor (bit_xor a b) b ≡ a
bit_xor_cancel_fuel n zero zero h = refl
bit_xor_cancel_fuel zero zero (suc b) h = absurd (omega arith)
bit_xor_cancel_fuel zero (suc a) b h = absurd (omega arith)
bit_xor_cancel_fuel (suc n) a b h =
    let half : bit_xor a b / 2 ≡ bit_xor (a / 2) (b / 2) = omega (arith, bit_xor_halves a b) in
    let ih = bit_xor_cancel_fuel n (a / 2) (b / 2) (omega arith) in
    bit_xor_halves (bit_xor a b) b ∙ rw (half, ih) (omega (arith, bit_xor_halves a b))

pub bit_xor_cancel : (a b : ℕ) → bit_xor (bit_xor a b) b ≡ a
bit_xor_cancel a b = bit_xor_cancel_fuel (a + b) a b (le_refl _)

-- `^` with a fixed word is injective, on either side.
pub bit_xor_injective : (a b c : ℕ) → bit_xor a c ≡ bit_xor b c → a ≡ b
bit_xor_injective a b c e =
    sym (bit_xor_cancel a c) ∙ ap (λ (t : ℕ). bit_xor t c) e ∙ bit_xor_cancel b c

pub bit_xor_injective_right : (a b c : ℕ) → bit_xor c a ≡ bit_xor c b → a ≡ b
bit_xor_injective_right a b c e = bit_xor_injective a b c (bit_xor_comm a c ∙ e ∙ bit_xor_comm c b)

pub bit_xor-lt : (k a b : ℕ) → a < 2 ^ k → b < 2 ^ k → bit_xor a b < 2 ^ k
bit_xor-lt zero zero zero p q = p
bit_xor-lt zero zero (suc b) p q = absurd (omega arith)
bit_xor-lt zero (suc a) b p q = absurd (omega arith)
bit_xor-lt (suc k) a b p q = omega (
  arith,
  pow-suc 2 k,
  bit_xor_halves a b,
  bit_xor-lt k (a / 2) (b / 2) (omega (arith, pow-suc 2 k)) (omega (arith, pow-suc 2 k)),
)

-- A top bit that only one side has stays set.
pub bit_xor_top : (k a p : ℕ) → a < 2 ^ k → p < 2 ^ k → bit_xor a (2 ^ k + p) ≡ 2 ^ k + bit_xor a p
bit_xor_top zero zero zero h q = refl
bit_xor_top zero zero (suc p) h q = absurd (omega arith)
bit_xor_top zero (suc a) p h q = absurd (omega arith)
bit_xor_top (suc k) a p h q =
    let half : (2 ^ suc k + p) / 2 ≡ 2 ^ k + p / 2 = omega (arith, pow-suc 2 k) in
    let ih =
      bit_xor_top k (a / 2) (p / 2) (omega (arith, pow-suc 2 k)) (omega (arith, pow-suc 2 k)) in
    bit_xor_halves a (2 ^ suc k + p)
    ∙ rw (half, ih) (omega (arith, pow-suc 2 k, bit_xor_halves a p))

pub bit_xor-zero : (a : ℕ) → bit_xor a 0 ≡ a
bit_xor-zero a = bit_xor_comm a 0 ∙ bit_xor-bitwise 0 a

pub eq_of_bit_xor : (a b : ℕ) → bit_xor a b ≡ 0 → a ≡ b
eq_of_bit_xor a b e = sym (bit_xor_cancel a b) ∙ ap (λ (t : ℕ). bit_xor t b) e ∙ bit_xor-bitwise 0 b

pub bit_xor_self : (a : ℕ) → bit_xor a a ≡ 0
bit_xor_self a =
    bit_xor_injective (bit_xor a a) 0 a (bit_xor_cancel a a ∙ sym (bit_xor-bitwise 0 a))

bit_xor_exchange_fuel :
    (n a b c d : ℕ)
    → a + b + c + d ≤ n
    → bit_xor (bit_xor a b) (bit_xor c d) ≡ bit_xor (bit_xor a c) (bit_xor b d)
bit_xor_exchange_fuel zero zero zero zero zero h = refl
bit_xor_exchange_fuel zero zero zero zero (suc d) h = absurd (omega arith)
bit_xor_exchange_fuel zero zero zero (suc c) d h = absurd (omega arith)
bit_xor_exchange_fuel zero zero (suc b) c d h = absurd (omega arith)
bit_xor_exchange_fuel zero (suc a) b c d h = absurd (omega arith)
bit_xor_exchange_fuel (suc n) zero zero zero zero h = refl
bit_xor_exchange_fuel (suc n) a b c d h =
    let ab : bit_xor a b / 2 ≡ bit_xor (a / 2) (b / 2) = omega (arith, bit_xor_halves a b) in
    let cd : bit_xor c d / 2 ≡ bit_xor (c / 2) (d / 2) = omega (arith, bit_xor_halves c d) in
    let ac : bit_xor a c / 2 ≡ bit_xor (a / 2) (c / 2) = omega (arith, bit_xor_halves a c) in
    let bd : bit_xor b d / 2 ≡ bit_xor (b / 2) (d / 2) = omega (arith, bit_xor_halves b d) in
    let ih = bit_xor_exchange_fuel n (a / 2) (b / 2) (c / 2) (d / 2) (omega arith) in
    bit_xor_halves (bit_xor a b) (bit_xor c d)
    ∙ rw (ab, cd, ih)
        (omega (
          arith,
          bit_xor_halves a b,
          bit_xor_halves c d,
          bit_xor_halves a c,
          bit_xor_halves b d,
          bit_xor_halves (bit_xor a c) (bit_xor b d),
          ap (λ (t : ℕ). bit_xor t (bit_xor b d / 2)) ac,
          ap (λ (t : ℕ). bit_xor (bit_xor (a / 2) (c / 2)) t) bd,
        ))

pub bit_xor_exchange :
    (a b c d : ℕ) → bit_xor (bit_xor a b) (bit_xor c d) ≡ bit_xor (bit_xor a c) (bit_xor b d)
bit_xor_exchange a b c d = bit_xor_exchange_fuel (a + b + c + d) a b c d (le_refl _)
