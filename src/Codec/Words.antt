-- ===== src/Codec/Words.antt =====
-- Big-endian fields: `append_u16`, `append_u32`, `read_u16` and `read_u32`.
use industrial_memory_protoc.Prelude.{
  ℕ, ◌+◌, ◌*◌, ◌/◌, ◌%◌, ◌^◌, ◌<◌, ◌≡◌, refl, bit_and, bit_or, List, [], ◌∷◌, ◌++◌, get_or, arith,
  append_assoc,
}
use industrial_memory_protoc.Prelude.Bits.{IsByte, IsU32, bit_and_byte, bit_or-eq-add}

infixl 70 ◌<<<◌ ◌>>>◌
abbrev pub ◌<<<◌ : ℕ → ℕ → ℕ
x <<< k = x * 2 ^ k

abbrev pub ◌>>>◌ : ℕ → ℕ → ℕ
x >>> k = x / 2 ^ k

-- `bytes[offset]`; the model reads 0 out of range.
abbrev pub byte_at : List ℕ → ℕ → ℕ
byte_at bytes offset = get_or bytes offset 0

unfoldable pub append_u16 : List ℕ → ℕ → List ℕ
append_u16 output value = (output ++ bit_and (value >>> 8) 0xff ∷ []) ++ bit_and value 0xff ∷ []

unfoldable pub append_u32 : List ℕ → ℕ → List ℕ
append_u32 output value =
    (((output ++ bit_and (value >>> 24) 0xff ∷ []) ++ bit_and (value >>> 16) 0xff ∷ [])
      ++ bit_and (value >>> 8) 0xff ∷ [])
    ++ bit_and value 0xff ∷ []

unfoldable pub read_u16 : List ℕ → ℕ → ℕ
read_u16 bytes offset =
    let high = byte_at bytes offset in
    let low = byte_at bytes (offset + 1) in bit_or (high <<< 8) low % 2 ^ 16

unfoldable pub read_u32 : List ℕ → ℕ → ℕ
read_u32 bytes offset =
    bit_or
      (bit_or (bit_or (byte_at bytes offset <<< 24) (byte_at bytes (offset + 1) <<< 16))
        (byte_at bytes (offset + 2) <<< 8))
      (byte_at bytes (offset + 3))

-- The bytes that the two writers append.
abbrev pub bytes_of_u16 : ℕ → List ℕ
bytes_of_u16 v = (v / 2 ^ 8 % 256) ∷ (v % 256) ∷ []

abbrev pub bytes_of_u32 : ℕ → List ℕ
bytes_of_u32 v = (v / 2 ^ 24 % 256) ∷ (v / 2 ^ 16 % 256) ∷ (v / 2 ^ 8 % 256) ∷ (v % 256) ∷ []

pub append_u16_lem : (output : List ℕ) (v : ℕ) → append_u16 output v ≡ output ++ bytes_of_u16 v
unfolding append_u16
append_u16_lem output v = simp (bit_and_byte, append_assoc)

pub append_u32_lem : (output : List ℕ) (v : ℕ) → append_u32 output v ≡ output ++ bytes_of_u32 v
unfolding append_u32
append_u32_lem output v = simp (bit_and_byte, append_assoc)

-- Four bytes, most significant first.
abbrev pub u32_of_bytes : ℕ → ℕ → ℕ → ℕ → ℕ
u32_of_bytes a b c d = a * 2 ^ 24 + b * 2 ^ 16 + c * 2 ^ 8 + d

or_u16 : (a b : ℕ) → IsByte b → bit_or (a * 2 ^ 8) b ≡ a * 2 ^ 8 + b
or_u16 a b hb = bit_or-eq-add 8 a (a * 2 ^ 8) b refl hb

or_u32 :
    (a b c d : ℕ)
    → IsByte b
    → IsByte c
    → IsByte d
    → bit_or (bit_or (bit_or (a * 2 ^ 24) (b * 2 ^ 16)) (c * 2 ^ 8)) d ≡ u32_of_bytes a b c d
or_u32 a b c d hb hc hd =
    rw
      (
        bit_or-eq-add 24 a (a * 2 ^ 24) (b * 2 ^ 16) refl (omega arith),
        bit_or-eq-add 16 (a * 256 + b) (a * 2 ^ 24 + b * 2 ^ 16) (c * 2 ^ 8) (omega arith)
            (omega arith),
        bit_or-eq-add 8 (a * 65536 + b * 256 + c) (a * 2 ^ 24 + b * 2 ^ 16 + c * 2 ^ 8) d
            (omega arith) hd,
      )
      refl

-- A field that was written is read back.
pub read_u16-bytes_of_u16 :
    (v : ℕ) (bytes : List ℕ) (i : ℕ)
    → v < 2 ^ 16
    → byte_at bytes i ≡ v / 2 ^ 8 % 256
    → byte_at bytes (i + 1) ≡ v % 256
    → read_u16 bytes i ≡ v
unfolding read_u16
read_u16-bytes_of_u16 v bytes i fits h0 h1 =
    rw (h0, h1, or_u16 (v / 2 ^ 8 % 256) (v % 256) (omega arith)) (omega arith)

pub read_u32-bytes_of_u32 :
    (v : ℕ) (bytes : List ℕ) (i : ℕ)
    → IsU32 v
    → byte_at bytes i ≡ v / 2 ^ 24 % 256
    → byte_at bytes (i + 1) ≡ v / 2 ^ 16 % 256
    → byte_at bytes (i + 2) ≡ v / 2 ^ 8 % 256
    → byte_at bytes (i + 3) ≡ v % 256
    → read_u32 bytes i ≡ v
unfolding read_u32
read_u32-bytes_of_u32 v bytes i fits h0 h1 h2 h3 =
    rw
      (
        h0,
        h1,
        h2,
        h3,
        or_u32 (v / 2 ^ 24 % 256) (v / 2 ^ 16 % 256) (v / 2 ^ 8 % 256) (v % 256) (omega arith)
            (omega arith) (omega arith),
      )
      (omega arith)

-- The two readers on bytes, as sums.
pub read_u16-eq :
    (bytes : List ℕ) (i : ℕ)
    → IsByte (byte_at bytes i)
    → IsByte (byte_at bytes (i + 1))
    → read_u16 bytes i ≡ byte_at bytes i * 2 ^ 8 + byte_at bytes (i + 1)
unfolding read_u16
read_u16-eq bytes i h0 h1 = rw (or_u16 (byte_at bytes i) (byte_at bytes (i + 1)) h1) (omega arith)

pub read_u32-eq :
    (bytes : List ℕ) (i : ℕ)
    → IsByte (byte_at bytes (i + 1))
    → IsByte (byte_at bytes (i + 2))
    → IsByte (byte_at bytes (i + 3))
    → read_u32 bytes i
      ≡ u32_of_bytes
          (byte_at bytes i)
          (byte_at bytes (i + 1))
          (byte_at bytes (i + 2))
          (byte_at bytes (i + 3))
unfolding read_u32
read_u32-eq bytes i h1 h2 h3 =
    or_u32 (byte_at bytes i) (byte_at bytes (i + 1)) (byte_at bytes (i + 2)) (byte_at bytes (i + 3))
      h1 h2 h3

pub read_u16-lt : (bytes : List ℕ) (i : ℕ) → read_u16 bytes i < 2 ^ 16
unfolding read_u16
read_u16-lt bytes i = omega arith
