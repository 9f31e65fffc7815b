-- ===== src/Codec/Crc/Detect.antt =====
-- Why the checksum notices a change: every round of the loop is a bijection of the 32-bit words,
-- and eight rounds shift one byte in.
pub mod Burst
use native.Mathlib.Nat.{le_refl}
use industrial_memory_protoc.Prelude.{
  ℕ, zero, suc, ◌+◌, ◌-◌, ◌*◌, ◌/◌, ◌%◌, ◌^◌, ◌≤◌, ◌<◌, ◌≡◌, refl, sym, ap, ◌∙◌, ◌⊎◌, inl, inr,
  bit_and, bit_xor, List, [], ◌∷◌, ◌++◌, arith, All,
}
use industrial_memory_protoc.Prelude.Bits.{
  IsU32, IsByte, bit_and-one, bit_and-zero, bit_xor-lt, bit_xor_top, bit_xor_injective,
  bit_xor_injective_right, bit_xor-zero,
}
use industrial_memory_protoc.Codec.Crc.{crc_bit, crc_bits, crc_byte, crc_bytes, crc32}

abbrev polynomial : ℕ
polynomial = 0xedb8_8320

crc_bit_even : (c : ℕ) → c % 2 ≡ 0 → crc_bit c ≡ c / 2
unfolding crc_bit
crc_bit_even c e = rw (bit_and-one c, e) (bit_xor-zero (c / 2))

crc_bit_odd : (c : ℕ) → c % 2 ≡ 1 → crc_bit c ≡ bit_xor (c / 2) polynomial
unfolding crc_bit
crc_bit_odd c e = rw (bit_and-one c, e) refl

parity : (c : ℕ) → (c % 2 ≡ 0) ⊎ (c % 2 ≡ 1)
parity c = omega arith

-- The polynomial has bit 31, which the shifted word has not.
crc_bit_odd_top : (c : ℕ) → IsU32 c → c % 2 ≡ 1 → crc_bit c ≡ 2 ^ 31 + bit_xor (c / 2) 0x6db8_8320
crc_bit_odd_top c h e =
    crc_bit_odd c e ∙ bit_xor_top 31 (c / 2) 0x6db8_8320 (omega arith) (omega arith)

crc_bit-IsU32 : (c : ℕ) → IsU32 c → IsU32 (crc_bit c)
crc_bit-IsU32 c h = elim (parity c) [
  | inl e ↦ rw (crc_bit_even c e) (omega arith)
  | inr e ↦ rw (crc_bit_odd c e) (bit_xor-lt 32 (c / 2) polynomial (omega arith) (omega arith))
]

-- The top bit of the result is the low bit of the argument.
crc_bit_low : (c : ℕ) → IsU32 c → crc_bit c / 2 ^ 31 ≡ c % 2
crc_bit_low c h = elim (parity c) [
  | inl e ↦ omega (arith, crc_bit_even c e)
  | inr e ↦
      omega (
        arith,
        crc_bit_odd_top c h e,
        bit_xor-lt 31 (c / 2) 0x6db8_8320 (omega arith) (omega arith),
      )
]

crc_bit_injective : (a b : ℕ) → IsU32 a → IsU32 b → crc_bit a ≡ crc_bit b → a ≡ b
crc_bit_injective a b ha hb e = halves (parity a) (parity b)
  where
    low : a % 2 ≡ b % 2
    low = sym (crc_bit_low a ha) ∙ ap (λ (t : ℕ). t / 2 ^ 31) e ∙ crc_bit_low b hb

    halves : (a % 2 ≡ 0) ⊎ (a % 2 ≡ 1) → (b % 2 ≡ 0) ⊎ (b % 2 ≡ 1) → a ≡ b
    halves (inl p) (inl q) = omega (arith, e, low, crc_bit_even a p, crc_bit_even b q)
    halves (inl p) (inr q) = absurd (omega (arith, low))
    halves (inr p) (inl q) = absurd (omega (arith, low))
    halves (inr p) (inr q) = omega (
      arith,
      low,
      bit_xor_injective (a / 2) (b / 2) polynomial (sym (crc_bit_odd a p) ∙ e ∙ crc_bit_odd b q),
    )

crc_bits-IsU32 : (n c : ℕ) → IsU32 c → IsU32 (crc_bits n c)
unfolding crc_bits
crc_bits-IsU32 zero c h = h
crc_bits-IsU32 (suc n) c h = crc_bits-IsU32 n (crc_bit c) (crc_bit-IsU32 c h)

crc_bits_injective : (n a b : ℕ) → IsU32 a → IsU32 b → crc_bits n a ≡ crc_bits n b → a ≡ b
unfolding crc_bits
crc_bits_injective zero a b ha hb e = e
crc_bits_injective (suc n) a b ha hb e =
    crc_bit_injective a b ha hb
      (crc_bits_injective n (crc_bit a) (crc_bit b) (crc_bit-IsU32 a ha) (crc_bit-IsU32 b hb) e)

mixed-IsU32 : (c x : ℕ) → IsU32 c → IsByte x → IsU32 (bit_xor c x)
mixed-IsU32 c x hc hx = bit_xor-lt 32 c x hc (omega arith)

crc_byte-IsU32 : (c x : ℕ) → IsU32 c → IsByte x → IsU32 (crc_byte c x)
unfolding crc_byte
crc_byte-IsU32 c x hc hx = crc_bits-IsU32 8 (bit_xor c x) (mixed-IsU32 c x hc hx)

crc_bytes-IsU32 : (c : ℕ) (xs : List ℕ) → IsU32 c → All IsByte xs → IsU32 (crc_bytes c xs)
unfolding crc_bytes
crc_bytes-IsU32 c [] hc h = hc
crc_bytes-IsU32 c (x ∷ xs) hc h = crc_bytes-IsU32 (crc_byte c x) xs (crc_byte-IsU32 c x hc h.0) h.1

-- A byte is seen through the same state, and two states through the same byte.
crc_byte_state : (a b x : ℕ) → IsU32 a → IsU32 b → IsByte x → crc_byte a x ≡ crc_byte b x → a ≡ b
unfolding crc_byte
crc_byte_state a b x ha hb hx e =
    bit_xor_injective a b x
      (crc_bits_injective 8 _ _ (mixed-IsU32 a x ha hx) (mixed-IsU32 b x hb hx) e)

crc_byte_byte : (c x y : ℕ) → IsU32 c → IsByte x → IsByte y → crc_byte c x ≡ crc_byte c y → x ≡ y
unfolding crc_byte
crc_byte_byte c x y hc hx hy e =
    bit_xor_injective_right x y c
      (crc_bits_injective 8 _ _ (mixed-IsU32 c x hc hx) (mixed-IsU32 c y hc hy) e)

-- Two states that meet behind the same bytes were equal before them.
crc_bytes_state :
    (a b : ℕ) (xs : List ℕ)
    → IsU32 a
    → IsU32 b
    → All IsByte xs
    → crc_bytes a xs ≡ crc_bytes b xs
    → a ≡ b
unfolding crc_bytes
crc_bytes_state a b [] ha hb h e = e
crc_bytes_state a b (x ∷ xs) ha hb h e = crc_byte_state a b x ha hb h.0 (
    crc_bytes_state (crc_byte a x) (crc_byte b x) xs (crc_byte-IsU32 a x ha h.0)
      (crc_byte-IsU32 b x hb h.0) h.1 e)

crc_bytes-append : (c : ℕ) (xs ys : List ℕ) → crc_bytes c (xs ++ ys) ≡ crc_bytes (crc_bytes c xs) ys
unfolding crc_bytes
crc_bytes-append c [] ys = refl
crc_bytes-append c (x ∷ xs) ys = crc_bytes-append (crc_byte c x) xs ys

-- The final complement loses nothing.
crc32_state :
    (xs ys : List ℕ)
    → All IsByte xs
    → All IsByte ys
    → crc32 xs ≡ crc32 ys
    → crc_bytes 0xffff_ffff xs ≡ crc_bytes 0xffff_ffff ys
unfolding crc32
crc32_state xs ys hx hy e = omega (
  arith,
  crc_bytes-IsU32 0xffff_ffff xs (omega arith) hx,
  crc_bytes-IsU32 0xffff_ffff ys (omega arith) hy,
)
