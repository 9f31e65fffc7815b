-- ===== src/Codec/Hex.antt =====
-- `hex_nibble`, `bytes_to_hex` and `bytes_from_hex`. A text is the list of its characters' codes.
pub mod Digits
pub mod Texts
use mathlib.Core.Option.{Option}
use industrial_memory_protoc.Prelude.{
  ℕ, zero, suc, ◌+◌, ◌-◌, ◌/◌, ◌%◌, ◌^◌, ◌++◌, Bool, true, false, not, ◌&&◌, ◌||◌, none, some, List,
  [], ◌∷◌, ltb, leb, ◌==◌, if◌then◌else◌, length, get_or, bit_and, bit_or,
}
use industrial_memory_protoc.Types.{maximum_frame_size}
use industrial_memory_protoc.Codec.Words.{◌<<<◌, ◌>>>◌}

unfoldable pub hex_nibble : ℕ → Option ℕ
hex_nibble value =
    if leb b'0' value && leb value b'9'
    then some (value - b'0')
    else if leb b'a' value && leb value b'f'
    then some (value - b'a' + 10)
    else if leb b'A' value && leb value b'F'
    then some (value - b'A' + 10)
    else none

-- The array `digits`.
abbrev pub digits : List ℕ
digits =
    b'0' ∷ b'1' ∷ b'2' ∷ b'3' ∷ b'4' ∷ b'5' ∷ b'6' ∷ b'7' ∷ b'8' ∷ b'9' ∷ b'a' ∷ b'b' ∷ b'c' ∷ b'd'
    ∷ b'e' ∷ b'f' ∷ []

unfoldable pub bytes_to_hex : List ℕ → List ℕ
bytes_to_hex [] = []
bytes_to_hex (value ∷ bytes) =
    get_or digits (value >>> 4) 0 ∷ get_or digits (bit_and value 0x0f) 0 ∷ bytes_to_hex bytes

-- The loop of `bytes_from_hex`, over the text from `index` on, with the bytes so far.
unfoldable pub from_hex_loop : List ℕ → List ℕ → Option (List ℕ)
from_hex_loop [] result = some result
from_hex_loop (character ∷ []) result = none
from_hex_loop (first ∷ second ∷ text) result = elim (hex_nibble first) [
  | none ↦ none
  | some high ↦ elim (hex_nibble second) [
    | none ↦ none
    | some low ↦ from_hex_loop text (result ++ (bit_or (high <<< 4) low % 2 ^ 8) ∷ [])
  ]
]

unfoldable pub bytes_from_hex : List ℕ → Option (List ℕ)
unfolding from_hex_loop
bytes_from_hex text =
    if not (length text % 2 == 0) || ltb maximum_frame_size (length text / 2)
    then none
    else from_hex_loop text []
