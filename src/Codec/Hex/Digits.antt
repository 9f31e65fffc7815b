-- ===== src/Codec/Hex/Digits.antt =====
-- One hexadecimal digit, and the two of a byte.
use industrial_memory_protoc.Prelude.{
  ℕ, ◌+◌, ◌-◌, ◌*◌, ◌/◌, ◌%◌, ◌^◌, ◌≤◌, ◌<◌, ◌≡◌, refl, ◌↔◌, ◌⊎◌, some, arith, get_or, bit_and,
  bit_or, ltb, ◌==◌, ==_iff, if◌then◌else◌, every, every_lem, true,
}
use industrial_memory_protoc.Prelude.Bits.{bit_and_nibble, bit_or-eq-add}
use industrial_memory_protoc.Codec.Words.{◌<<<◌, ◌>>>◌}
use industrial_memory_protoc.Codec.Hex.{hex_nibble, digits}

-- What stands for `value` in hexadecimal, in either case.
abbrev pub IsHexDigit : ℕ → ℕ → Type 0
IsHexDigit character value =
    ((value < 10) × (character ≡ b'0' + value))
    ⊎ ((10 ≤ value) × (value < 16) × (character + 10 ≡ b'a' + value))
    ⊎ ((10 ≤ value) × (value < 16) × (character + 10 ≡ b'A' + value))

pub hex_nibble_iff :
    (character value : ℕ) → (hex_nibble character ≡ some value) ↔ IsHexDigit character value
unfolding hex_nibble
hex_nibble_iff character value = ground arith

-- The digit that is printed.
abbrev pub lower_digit : ℕ → ℕ
lower_digit value = if ltb value 10 then b'0' + value else b'a' + value - 10

digits_table : every (λ v. get_or digits v 0 == lower_digit v) 16 ≡ true
unfolding every
digits_table = refl

pub digits_lem : (value : ℕ) → value < 16 → get_or digits value 0 ≡ lower_digit value
digits_lem value h =
    (==_iff (get_or digits value 0) (lower_digit value)).0
      (every_lem (λ v. get_or digits v 0 == lower_digit v) 16 value digits_table h)

pub lower_digit-IsHexDigit : (value : ℕ) → value < 16 → IsHexDigit (lower_digit value) value
lower_digit-IsHexDigit value h = ground arith

-- The two halves of a byte, and back.
pub halves_of_byte : (b : ℕ) → (b >>> 4 ≡ b / 16) × (bit_and b 0x0f ≡ b % 16)
halves_of_byte b = (refl, bit_and_nibble b)

pub byte_of_halves :
    (high low : ℕ) → high < 16 → low < 16 → bit_or (high <<< 4) low % 2 ^ 8 ≡ high * 16 + low
byte_of_halves high low h l = rw (bit_or-eq-add 4 high (high * 16) low refl l) (omega (arith, h, l))
