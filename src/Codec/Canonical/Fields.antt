-- ===== src/Codec/Canonical/Fields.antt =====
-- A string of bytes, field by field, and the way from its bytes to a value and back.
use native.Mathlib.Nat.{zero-add, suc-add}
use industrial_memory_protoc.Prelude.{
  ℕ, zero, suc, ◌+◌, ◌^◌, ◌≤◌, ◌<◌, ◌≡◌, refl, ◌∙◌, true, List, [], ◌∷◌, arith, length, drop,
}
use industrial_memory_protoc.Prelude.Bits.{IsByte}
use industrial_memory_protoc.Types.{
  opcode_value, opcode_of_value, status_value, status_of_value, magic,
}
use industrial_memory_protoc.Codec.Words.{byte_at, bytes_of_u32, u32_of_bytes}
use industrial_memory_protoc.Codec.Frames.{begins_with}
use industrial_memory_protoc.Codec.RoundTrip.{IsStatus}

pub drop_cons : (n : ℕ) (xs : List ℕ) → n < length xs → drop n xs ≡ byte_at xs n ∷ drop (suc n) xs
drop_cons n [] h = absurd (omega arith)
drop_cons zero (x ∷ xs) h = refl
drop_cons (suc n) (x ∷ xs) h = drop_cons n xs (omega arith)

pub drop-drop : (m n : ℕ) (xs : List ℕ) → drop n (drop m xs) ≡ drop (m + n) xs
drop-drop zero n xs = rw zero-add
drop-drop (suc m) zero [] = rw suc-add
drop-drop (suc m) (suc n) [] = rw suc-add
drop-drop (suc m) n (x ∷ xs) = rw suc-add (drop-drop m n xs)

-- The last four bytes of a list, from a position that leaves four.
pub drop_four :
    (n : ℕ) (xs : List ℕ)
    → length xs ≡ n + 4
    → drop n xs ≡ byte_at xs n ∷ byte_at xs (n + 1) ∷ byte_at xs (n + 2) ∷ byte_at xs (n + 3) ∷ []
drop_four zero (a ∷ b ∷ c ∷ d ∷ []) h = refl
drop_four zero [] h = absurd (omega arith)
drop_four zero (a ∷ []) h = absurd (omega arith)
drop_four zero (a ∷ b ∷ []) h = absurd (omega arith)
drop_four zero (a ∷ b ∷ c ∷ []) h = absurd (omega arith)
drop_four zero (a ∷ b ∷ c ∷ d ∷ e ∷ xs) h = absurd (omega arith)
drop_four (suc n) [] h = absurd (omega arith)
drop_four (suc n) (x ∷ xs) h =
    drop_four n xs (omega arith) ∙ ground (arith, suc_add n 1, suc_add n 2, suc_add n 3)
  where
    suc_add : (a b : ℕ) → suc a + b ≡ suc (a + b)
    suc_add a b = omega arith

pub header_bytes :
    (xs : List ℕ)
    → 18 ≤ length xs
    → xs
      ≡ byte_at xs 0
        ∷ byte_at xs 1
        ∷ byte_at xs 2
        ∷ byte_at xs 3
        ∷ byte_at xs 4
        ∷ byte_at xs 5
        ∷ byte_at xs 6
        ∷ byte_at xs 7
        ∷ byte_at xs 8
        ∷ byte_at xs 9
        ∷ byte_at xs 10
        ∷ byte_at xs 11
        ∷ byte_at xs 12
        ∷ byte_at xs 13
        ∷ byte_at xs 14
        ∷ byte_at xs 15
        ∷ byte_at xs 16
        ∷ byte_at xs 17
        ∷ drop 18 xs
header_bytes xs h = cc (
  drop_cons 0 xs (omega arith),
  drop_cons 1 xs (omega arith),
  drop_cons 2 xs (omega arith),
  drop_cons 3 xs (omega arith),
  drop_cons 4 xs (omega arith),
  drop_cons 5 xs (omega arith),
  drop_cons 6 xs (omega arith),
  drop_cons 7 xs (omega arith),
  drop_cons 8 xs (omega arith),
  drop_cons 9 xs (omega arith),
  drop_cons 10 xs (omega arith),
  drop_cons 11 xs (omega arith),
  drop_cons 12 xs (omega arith),
  drop_cons 13 xs (omega arith),
  drop_cons 14 xs (omega arith),
  drop_cons 15 xs (omega arith),
  drop_cons 16 xs (omega arith),
  drop_cons 17 xs (omega arith),
)

pub opcode_value-opcode_of_value : (n : ℕ) → opcode_value (opcode_of_value n) ≡ n
opcode_value-opcode_of_value n = ground arith

pub status_value-status_of_value : (n : ℕ) → status_value (status_of_value n) ≡ n
status_value-status_of_value n = ground arith

pub status_of_value-IsStatus : (n : ℕ) → n < 2 ^ 16 → IsStatus (status_of_value n)
status_of_value-IsStatus n h = ground arith

-- The bytes of a word that was put together from bytes.
pub bytes_of_u32-u32_of_bytes :
    (a b c d : ℕ)
    → IsByte a
    → IsByte b
    → IsByte c
    → IsByte d
    → bytes_of_u32 (u32_of_bytes a b c d) ≡ a ∷ b ∷ c ∷ d ∷ []
bytes_of_u32-u32_of_bytes a b c d ha hb hc hd = ground arith

pub begins_with-magic :
    (xs : List ℕ) → begins_with magic xs ≡ true → (byte_at xs 0 ≡ 0x49) × (byte_at xs 1 ≡ 0x4d)
begins_with-magic [] h = absurd (cc)
begins_with-magic (x ∷ []) h = ground arith
begins_with-magic (x ∷ y ∷ xs) h = ground arith
