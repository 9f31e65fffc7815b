-- ===== src/Cli/Numbers.antt =====
-- `parse_u32`, and how a stream prints a number.
pub mod Parse
pub mod Print
use mathlib.Core.Option.{Option}
use industrial_memory_protoc.Prelude.{
  ℕ, zero, suc, ◌+◌, ◌-◌, ◌*◌, ◌/◌, ◌%◌, ◌^◌, ◌≡◌, refl, Bool, true, false, not, ◌&&◌, none, some,
  List, [], ◌∷◌, ltb, ◌==◌, if◌then◌else◌, length, take, drop, bytes_eq,
}
use industrial_memory_protoc.Memory.{codes}
use industrial_memory_protoc.Codec.Hex.{hex_nibble}

-- The digits that `std::from_chars` takes in a base of at most 16: letters of either case.
unfoldable pub digit_value : ℕ → ℕ → Option ℕ
digit_value base character = elim (hex_nibble character) [
  | none ↦ none
  | some value ↦ if ltb value base then some value else none
]

-- The longest prefix of digits: whether it is empty, its value behind `value`, and what follows it.
unfoldable pub scan : ℕ → Bool → ℕ → List ℕ → Bool × ℕ × List ℕ
scan base empty value [] = (empty, value, [])
scan base empty value (character ∷ text) = elim (digit_value base character) [
  | none ↦ (empty, value, character ∷ text)
  | some digit ↦ scan base false (value * base + digit) text
]

-- `std::from_chars` for `std::uint32_t`: the value, if there is a digit and no overflow, and the end.
unfoldable pub from_chars : List ℕ → ℕ → Option ℕ × List ℕ
unfolding scan digit_value
from_chars text base =
    let (empty, value, end) = scan base true 0 text in
    if empty then (none, text) else if ltb value (2 ^ 32) then (some value, end) else (none, end)

-- `parse_u32`: the value, where it returns true.
unfoldable pub parse_u32 : List ℕ → Option ℕ
unfolding from_chars
parse_u32 text =
    let prefixed = ltb 2 (length text) && bytes_eq (take 2 text) (codes "0x") in
    let base = if prefixed then 16 else 10 in
    let digits = if prefixed then drop 2 text else text in
    if length digits == 0
    then none
    else let (value, end) = from_chars digits base in if length end == 0 then value else none

-- The digits of `n` in front of `rest`; as many rounds as `n` has digits suffice.
unfoldable pub print_digits : ℕ → ℕ → ℕ → List ℕ → List ℕ
print_digits zero base n rest = rest
print_digits (suc rounds) base n rest =
    let digit = if ltb (n % base) 10 then b'0' + n % base else b'a' + n % base - 10 in
    let more = print_digits rounds base (n / base) (digit ∷ rest) in
    if ltb n base then digit ∷ rest else more

-- `std::dec` and `std::hex`.
unfoldable pub decimal : ℕ → List ℕ
unfolding print_digits
decimal n = print_digits (suc n) 10 n []

unfoldable pub hexadecimal : ℕ → List ℕ
unfolding print_digits
hexadecimal n = print_digits (suc n) 16 n []
