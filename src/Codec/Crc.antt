-- ===== src/Codec/Crc.antt =====
-- `crc32`.
pub mod Detect
use industrial_memory_protoc.Prelude.{
  ℕ, zero, suc, ◌+◌, ◌-◌, ◌*◌, ◌/◌, ◌%◌, ◌^◌, ◌<◌, ◌≡◌, refl, bit_and, bit_xor, List, [], ◌∷◌,
  arith,
}
use industrial_memory_protoc.Prelude.Bits.{IsU32}

-- One round of the inner loop: `0U - (crc & 1U)` wraps to all ones or to zero.
crc_bit : ℕ → ℕ
crc_bit crc =
    let mask = (2 ^ 32 - bit_and crc 1) % 2 ^ 32 in bit_xor (crc / 2 ^ 1) (bit_and 0xedb8_8320 mask)

crc_bits : ℕ → ℕ → ℕ
unfolding crc_bit
crc_bits zero crc = crc
crc_bits (suc rounds) crc = crc_bits rounds (crc_bit crc)

-- The outer loop's body, and the loop.
crc_byte : ℕ → ℕ → ℕ
unfolding crc_bits
crc_byte crc byte = crc_bits 8 (bit_xor crc byte)

crc_bytes : ℕ → List ℕ → ℕ
unfolding crc_byte
crc_bytes crc [] = crc
crc_bytes crc (byte ∷ bytes) = crc_bytes (crc_byte crc byte) bytes

-- `~crc` on 32 bits is the distance to all ones.
unfoldable pub crc32 : List ℕ → ℕ
unfolding crc_bytes
crc32 bytes = 0xffff_ffff - crc_bytes 0xffff_ffff bytes

pub crc32-lt : (bytes : List ℕ) → IsU32 (crc32 bytes)
unfolding crc32
crc32-lt bytes = omega arith

crc32_check_value :
    crc32 (0x31 ∷ 0x32 ∷ 0x33 ∷ 0x34 ∷ 0x35 ∷ 0x36 ∷ 0x37 ∷ 0x38 ∷ 0x39 ∷ []) ≡ 0xcbf4_3926
unfolding crc32
crc32_check_value = refl
