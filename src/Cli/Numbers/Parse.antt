-- ===== src/Cli/Numbers/Parse.antt =====
-- Which texts `parse_u32` accepts, and for which numbers.
use mathlib.Core.Option.{Option}
use industrial_memory_protoc.Prelude.{
  ℕ, ◌+◌, ◌*◌, ◌^◌, ◌<◌, ◌≡◌, refl, sym, ap₂, subst, ◌∙◌, ◌↔◌, ◌⊎◌, inl, inr, Bool, true, false,
  none, some, List, [], ◌∷◌, ◌==◌, if◌then◌else◌, length, bytes_eq, bytes_eq_iff, arith,
  Option-cases, Bool-cases,
}
use industrial_memory_protoc.Memory.{codes}
use industrial_memory_protoc.Codec.Hex.{hex_nibble}
use industrial_memory_protoc.Codec.Hex.Digits.{IsHexDigit, hex_nibble_iff}
use industrial_memory_protoc.Cli.Numbers.{digit_value, scan, from_chars, parse_u32}

-- The text, behind digits that stand for `sum`, is a numeral that stands for `n`.
abbrev pub Numeral : ℕ → ℕ → List ℕ → ℕ → Type 0
Numeral base sum [] n = sum ≡ n
Numeral base sum (character ∷ text) n =
    (digit : ℕ) × IsHexDigit character digit
    × (digit < base)
    × Numeral base (sum * base + digit) text n

digit_value_iff :
    (base character digit : ℕ)
    → (digit_value base character ≡ some digit) ↔ (IsHexDigit character digit × (digit < base))
unfolding digit_value
digit_value_iff base character digit = (forth, back)
  where
    forth : digit_value base character ≡ some digit → IsHexDigit character digit × (digit < base)
    forth h = elim (Option-cases (hex_nibble character)) [
      | inl e ↦ absurd (ground (arith, e, h))
      | inr (d, e) ↦
          let same : (d ≡ digit) × (d < base) = ground (arith, e, h) in
          ((hex_nibble_iff character digit).0 (rw same.0 at e), rw same.0 at same.1)
    ]

    back : IsHexDigit character digit × (digit < base) → digit_value base character ≡ some digit
    back h =
        let e = (hex_nibble_iff character digit).1 h.0 in rw (e, digit_value) (ground (arith, h.1))

scan-Numeral :
    (base : ℕ) (text : List ℕ) (sum n : ℕ)
    → Numeral base sum text n
    → scan base false sum text ≡ (false, n, [])
unfolding scan
scan-Numeral base [] sum n h = rw h refl
scan-Numeral base (character ∷ text) sum n (digit, known, low, h) =
    rw ((digit_value_iff base character digit).1 (known, low), scan)
      (scan-Numeral base text (sum * base + digit) n h)

Numeral-scan :
    (base : ℕ) (text : List ℕ) (empty empty' : Bool) (sum n : ℕ)
    → scan base empty sum text ≡ (empty', n, [])
    → Numeral base sum text n
unfolding scan
Numeral-scan base [] empty empty' sum n h = cc
Numeral-scan base (character ∷ text) empty empty' sum n h =
    elim (Option-cases (digit_value base character)) [
      | inl e ↦
          let stopped : ◌≡◌ {A = Bool × ℕ × List ℕ} (empty, sum, character ∷ text) (empty', n, []) =
            rw (e, scan) at h in
          absurd (cc (stopped))
      | inr (digit, e) ↦
          let (known, low) = (digit_value_iff base character digit).0 e in
          (
            digit,
            known,
            low,
            Numeral-scan base text false empty' (sum * base + digit) n (rw (e, scan) at h),
          )
    ]

-- `from_chars` takes a whole text for a number exactly if it is a numeral of at least one digit for a
-- number of 32 bits.
from_chars_iff :
    (base : ℕ) (character : ℕ) (text : List ℕ) (n : ℕ)
    → (from_chars (character ∷ text) base ≡ (some n, []))
      ↔ (Numeral base 0 (character ∷ text) n × (n < 2 ^ 32))
unfolding from_chars
from_chars_iff base character text n = (forth, back)
  where
    forth :
        from_chars (character ∷ text) base ≡ (some n, [])
        → Numeral base 0 (character ∷ text) n × (n < 2 ^ 32)
    forth h =
        let (empty, value, end) = scan base true 0 (character ∷ text) in
        let facts : (value ≡ n) × (end ≡ []) × (n < 2 ^ 32) = ground (arith, h) in
        (
          Numeral-scan base (character ∷ text) true empty 0 n
              (ap₂ (λ (v : ℕ) (e : List ℕ). (empty, v, e)) facts.0 facts.1),
          facts.2,
        )

    back :
        Numeral base 0 (character ∷ text) n × (n < 2 ^ 32)
        → from_chars (character ∷ text) base ≡ (some n, [])
    back ((digit, known, low, h), fits) =
        let step : scan base true 0 (character ∷ text) ≡ (false, n, []) =
          unfold scan in
          rw ((digit_value_iff base character digit).1 (known, low), scan)
            (scan-Numeral base text (0 * base + digit) n h) in
        rw (step, from_chars) (ground (arith, fits))

-- What `parse_u32` does with the result of `from_chars`.
abbrev finish : Option ℕ × List ℕ → Option ℕ
finish r = if length r.1 == 0 then r.0 else none

finish_iff : (r : Option ℕ × List ℕ) (n : ℕ) → (finish r ≡ some n) ↔ (r ≡ (some n, []))
finish_iff (none, []) n = ground arith
finish_iff (some v, []) n = ground arith
finish_iff (none, c ∷ end) n = ground arith
finish_iff (some v, c ∷ end) n = ground arith

-- A decimal numeral, or `0x` and a hexadecimal one, in full.
abbrev pub Denotes : List ℕ → ℕ → Type 0
Denotes text n =
    ((character : ℕ) × (digits : List ℕ) × (text ≡ b'0' ∷ b'x' ∷ character ∷ digits)
      × Numeral 16 0 (character ∷ digits) n)
    ⊎ ((character : ℕ) × (digits : List ℕ) × (text ≡ character ∷ digits)
        × Numeral 10 0 (character ∷ digits) n)

plain :
    (character : ℕ) (text : List ℕ) (n : ℕ)
    → (parse_u32 (character ∷ text) ≡ finish (from_chars (character ∷ text) 10))
    → ((character ≡ b'0') → (second : ℕ) (digits : List ℕ) → text ≡ b'x' ∷ second ∷ digits → ⊥)
    → (parse_u32 (character ∷ text) ≡ some n) ↔ (Denotes (character ∷ text) n × (n < 2 ^ 32))
plain character text n step other = (forth, back)
  where
    forth : parse_u32 (character ∷ text) ≡ some n → Denotes (character ∷ text) n × (n < 2 ^ 32)
    forth h =
        let read =
          (from_chars_iff 10 character text n).0
            ((finish_iff (from_chars (character ∷ text) 10) n).0 (sym step ∙ h)) in
        (inr (character, text, refl, read.0), read.1)

    back : Denotes (character ∷ text) n × (n < 2 ^ 32) → parse_u32 (character ∷ text) ≡ some n
    back (inl (second, digits, e, num), fits) = absurd (other (cc) second digits (cc))
    back (inr (c, digits, e, num), fits) =
        let known : Numeral 10 0 (character ∷ text) n = subst (λ t. Numeral 10 0 t n) (sym e) num in
        step
        ∙ (finish_iff (from_chars (character ∷ text) 10) n).1
            ((from_chars_iff 10 character text n).1 (known, fits))

prefixed :
    (character : ℕ) (text : List ℕ) (n : ℕ)
    → (parse_u32 (b'0' ∷ b'x' ∷ character ∷ text) ≡ some n)
      ↔ (Denotes (b'0' ∷ b'x' ∷ character ∷ text) n × (n < 2 ^ 32))
prefixed character text n = (forth, back)
  where
    step : parse_u32 (b'0' ∷ b'x' ∷ character ∷ text) ≡ finish (from_chars (character ∷ text) 16)
    step = unfold parse_u32 in ground arith

    forth :
        parse_u32 (b'0' ∷ b'x' ∷ character ∷ text) ≡ some n
        → Denotes (b'0' ∷ b'x' ∷ character ∷ text) n × (n < 2 ^ 32)
    forth h =
        let read =
          (from_chars_iff 16 character text n).0
            ((finish_iff (from_chars (character ∷ text) 16) n).0 (sym step ∙ h)) in
        (inl (character, text, refl, read.0), read.1)

    back :
        Denotes (b'0' ∷ b'x' ∷ character ∷ text) n × (n < 2 ^ 32)
        → parse_u32 (b'0' ∷ b'x' ∷ character ∷ text) ≡ some n
    back (inl (c, digits, e, num), fits) =
        let same : ◌≡◌ {A = List ℕ} (character ∷ text) (c ∷ digits) = cc in
        let known : Numeral 16 0 (character ∷ text) n =
          subst (λ t. Numeral 16 0 t n) (sym same) num in
        step
        ∙ (finish_iff (from_chars (character ∷ text) 16) n).1
            ((from_chars_iff 16 character text n).1 (known, fits))
    back (inr (c, [], e, num), fits) = absurd (cc)
    back (inr (c, x ∷ digits, e, (d, dk, dl, (d', known, low, num))), fits) =
        let letter : x ≡ b'x' = cc in absurd (omega (arith, letter, known, low))

-- `parse_u32` accepts exactly the decimal numerals, and the hexadecimal ones behind `0x`, of numbers
-- of 32 bits, whole and with a digit at least, and yields their number.
pub parse_u32_iff :
    (text : List ℕ) (n : ℕ) → (parse_u32 text ≡ some n) ↔ (Denotes text n × (n < 2 ^ 32))
unfolding parse_u32
parse_u32_iff [] n = (
  λ h. absurd (cc (h)),
  λ (d, fits). elim d [
    | inl (c, digits, e, num) ↦ absurd (cc (e))
    | inr (c, digits, e, num) ↦ absurd (cc (e))
  ],
)
parse_u32_iff (a ∷ []) n = plain a [] n refl (λ e second digits f. cc)
parse_u32_iff (a ∷ b ∷ []) n = plain a (b ∷ []) n refl (λ e second digits f. cc)
parse_u32_iff (a ∷ b ∷ c ∷ text) n = elim (Bool-cases (bytes_eq (a ∷ b ∷ []) (codes "0x"))) [
  | inl e ↦
      let same = (bytes_eq_iff (a ∷ b ∷ []) (codes "0x")).0 e in
      let first : a ≡ b'0' = cc in
      let second : b ≡ b'x' = cc in rw (first, second) (prefixed c text n)
  | inr e ↦
      plain a (b ∷ c ∷ text) n (ground (arith, e))
        (λ first second digits f. let x : b ≡ b'x' = cc in absurd (ground (arith, e, first, x)))
]
