-- ===== src/Cli/Numbers/Print.antt =====
-- What the streams print is what `parse_u32` reads.
use industrial_memory_protoc.Prelude.{
  ℕ, zero, suc, ◌+◌, ◌*◌, ◌/◌, ◌%◌, ◌^◌, ◌<◌, ◌≤◌, ◌≡◌, refl, subst, some, List, [], ◌∷◌, arith,
  inl, inr, lt-cases, lt→ltb, le→ltb, ◌⊎◌, ap, sym, ◌∙◌,
}
use industrial_memory_protoc.Codec.Hex.Digits.{IsHexDigit, lower_digit, lower_digit-IsHexDigit}
use industrial_memory_protoc.Cli.Numbers.{parse_u32, print_digits, decimal, hexadecimal}
use industrial_memory_protoc.Cli.Numbers.Parse.{Numeral, parse_u32_iff}

abbrev IsBase : ℕ → Type 0
IsBase base = (base ≡ 10) ⊎ (base ≡ 16)

division :
    (base n : ℕ)
    → IsBase base
    → (n / base * base + n % base ≡ n)
      × (n % base < base)
      × (base ≤ 16)
      × (base ≤ n → n / base < n)
      × (n < base → n % base ≡ n)
division base n (inl e) =
    rw e (omega arith, omega arith, omega arith, λ h. omega (arith, h), λ h. omega (arith, h))
division base n (inr e) =
    rw e (omega arith, omega arith, omega arith, λ h. omega (arith, h), λ h. omega (arith, h))

-- The two ways of a round.
print_digits_lem :
    (rounds base n : ℕ) (rest : List ℕ)
    → ((n < base) × (print_digits (suc rounds) base n rest ≡ lower_digit (n % base) ∷ rest))
      ⊎ ((base ≤ n)
          × (print_digits (suc rounds) base n rest
              ≡ print_digits rounds base (n / base) (lower_digit (n % base) ∷ rest)))
unfolding print_digits
print_digits_lem rounds base n rest = elim (lt-cases n base) [
  | inl l ↦ inl (l, rw (lt→ltb n base l) refl)
  | inr g ↦ inr (g, rw (le→ltb n base g) refl)
]

-- The digits of `n` continue whatever numeral stands behind them.
digits-Numeral :
    (rounds base n : ℕ) (rest : List ℕ) (m : ℕ)
    → n < rounds
    → IsBase base
    → Numeral base n rest m
    → (character : ℕ) × (text : List ℕ) × (print_digits rounds base n rest ≡ character ∷ text)
      × Numeral base 0 (character ∷ text) m
digits-Numeral zero base n rest m fits b h = absurd (omega (arith, fits))
digits-Numeral (suc rounds) base n rest m fits b h =
    let d = division base n b in
    let digit : IsHexDigit (lower_digit (n % base)) (n % base) =
      lower_digit-IsHexDigit (n % base) (omega (arith, d.1, d.2)) in
    elim (print_digits_lem rounds base n rest) [
      | inl (l, e) ↦
          let one : n ≡ 0 * base + n % base = omega (arith, d.4 l) in
          (
            lower_digit (n % base),
            rest,
            e,
            (n % base, digit, d.1, subst (λ k. Numeral base k rest m) one h),
          )
      | inr (g, e) ↦
          let (character, text, printed, num) =
            digits-Numeral rounds base (n / base) (lower_digit (n % base) ∷ rest) m
              (omega (arith, fits, d.3 g)) b
              (n % base, digit, d.1, subst (λ k. Numeral base k rest m) (sym d.0) h) in
          (character, text, e ∙ printed, num)
    ]

-- A number of 32 bits that is printed, in decimal, or in hexadecimal behind `0x`, is read back.
pub parse_u32-decimal :
    (n : ℕ)
    → n < 2 ^ 32
    → (parse_u32 (decimal n) ≡ some n) × (parse_u32 (b'0' ∷ b'x' ∷ hexadecimal n) ≡ some n)
parse_u32-decimal n fits =
    let (c, text, printed, num) = digits-Numeral (suc n) 10 n [] n (omega arith) (inl refl) refl in
    let (c', text', printed', num') =
      digits-Numeral (suc n) 16 n [] n (omega arith) (inr refl) refl in
    let plain : decimal n ≡ c ∷ text = unfold decimal in printed in
    let prefixed : hexadecimal n ≡ c' ∷ text' = unfold hexadecimal in printed' in
    (
      (parse_u32_iff (decimal n) n).1 (inr (c, text, plain, num), fits),
      (parse_u32_iff (b'0' ∷ b'x' ∷ hexadecimal n) n).1
          (inl (c', text', ap (λ t. b'0' ∷ b'x' ∷ t) prefixed, num'), fits),
    )
