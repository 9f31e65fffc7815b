-- ===== src/Codec/Crc/Detect/Burst.antt =====
-- The checksum tells apart byte strings that differ only within four consecutive bytes.
use native.Mathlib.Nat.{pow-suc}
use industrial_memory_protoc.Prelude.{
  ℕ, zero, suc, ◌+◌, ◌-◌, ◌*◌, ◌/◌, ◌%◌, ◌^◌, ◌≤◌, ◌<◌, ◌≡◌, refl, sym, ap, ap₂, ◌∙◌, ◌⊎◌, inl, inr,
  ◌≢◌, bit_xor, List, [], ◌∷◌, ◌++◌, arith, All, length, All-append,
}
use industrial_memory_protoc.Prelude.Halves.{bit_xor_halves}
use industrial_memory_protoc.Prelude.Bits.{
  IsU32, IsByte, bit_xor-lt, bit_xor_top, bit_xor_comm, bit_xor_cancel, bit_xor-zero, bit_xor_self,
  eq_of_bit_xor, bit_xor_exchange,
}
use industrial_memory_protoc.Codec.Crc.{crc_bit, crc_bits, crc_byte, crc_bytes, crc32}
use industrial_memory_protoc.Codec.Crc.Detect.{
  polynomial, parity, crc_bit_even, crc_bit_odd, crc_bit_low, crc_bit-IsU32, mixed-IsU32,
  crc_byte-IsU32, crc_bytes-IsU32, crc_bytes_state, crc_bytes-append, crc32_state,
}

-- Words whose difference lies below bit 31 agree on that bit.
top_agrees : (x y : ℕ) → IsU32 x → IsU32 y → bit_xor x y < 2 ^ 31 → x / 2 ^ 31 ≡ y / 2 ^ 31
top_agrees x y hx hy h = cases (decide x hx) (decide y hy)
  where
    decide : (w : ℕ) → IsU32 w → (w < 2 ^ 31) ⊎ (w ≡ 2 ^ 31 + (w - 2 ^ 31))
    decide w hw = omega arith

    cases :
        (x < 2 ^ 31) ⊎ (x ≡ 2 ^ 31 + (x - 2 ^ 31))
        → (y < 2 ^ 31) ⊎ (y ≡ 2 ^ 31 + (y - 2 ^ 31))
        → x / 2 ^ 31 ≡ y / 2 ^ 31
    cases (inl p) (inl q) = omega arith
    cases (inl p) (inr q) =
        absurd (omega (arith, h, ap (bit_xor x) q, bit_xor_top 31 x (y - 2 ^ 31) p (omega arith)))
    cases (inr p) (inl q) = absurd (
        omega (
          arith,
          h,
          bit_xor_comm x y,
          ap (bit_xor y) p,
          bit_xor_top 31 y (x - 2 ^ 31) q (omega arith),
        ))
    cases (inr p) (inr q) = omega arith

-- A round halves the difference of two words that keep no difference in the top bit.
crc_bit_difference :
    (a b : ℕ)
    → IsU32 a
    → IsU32 b
    → bit_xor (crc_bit a) (crc_bit b) < 2 ^ 31
    → bit_xor a b ≡ 2 * bit_xor (crc_bit a) (crc_bit b)
crc_bit_difference a b ha hb h = halves (parity a) (parity b)
  where
    low : a % 2 ≡ b % 2
    low =
        sym (crc_bit_low a ha)
        ∙ top_agrees (crc_bit a) (crc_bit b) (crc_bit-IsU32 a ha) (crc_bit-IsU32 b hb) h
        ∙ crc_bit_low b hb

    same :
        bit_xor (crc_bit a) (crc_bit b) ≡ bit_xor (a / 2) (b / 2)
        → bit_xor a b ≡ 2 * bit_xor (crc_bit a) (crc_bit b)
    same e = omega (arith, low, bit_xor_halves a b)

    halves :
        (a % 2 ≡ 0) ⊎ (a % 2 ≡ 1)
        → (b % 2 ≡ 0) ⊎ (b % 2 ≡ 1)
        → bit_xor a b ≡ 2 * bit_xor (crc_bit a) (crc_bit b)
    halves (inl p) (inl q) = same (rw (crc_bit_even a p, crc_bit_even b q) refl)
    halves (inl p) (inr q) = absurd (omega (arith, low))
    halves (inr p) (inl q) = absurd (omega (arith, low))
    halves (inr p) (inr q) = same (
        rw
          (crc_bit_odd a p, crc_bit_odd b q, bit_xor_exchange (a / 2) polynomial (b / 2) polynomial)
          (bit_xor-zero (bit_xor (a / 2) (b / 2))))

crc_bits_difference :
    (n a b : ℕ)
    → IsU32 a
    → IsU32 b
    → 2 ^ n * bit_xor (crc_bits n a) (crc_bits n b) < 2 ^ 32
    → bit_xor a b ≡ 2 ^ n * bit_xor (crc_bits n a) (crc_bits n b)
unfolding crc_bits
crc_bits_difference zero a b ha hb h = omega arith
crc_bits_difference (suc n) a b ha hb h =
    let double : 2 ^ suc n * bit_xor (crc_bits n (crc_bit a)) (crc_bits n (crc_bit b))
        ≡ 2 * (2 ^ n * bit_xor (crc_bits n (crc_bit a)) (crc_bits n (crc_bit b))) =
      omega (
        arith,
        ap (λ (t : ℕ). t * bit_xor (crc_bits n (crc_bit a)) (crc_bits n (crc_bit b))) (pow-suc 2 n),
      ) in
    let ih =
      crc_bits_difference n (crc_bit a) (crc_bit b) (crc_bit-IsU32 a ha) (crc_bit-IsU32 b hb)
        (omega arith) in
    omega (arith, crc_bit_difference a b ha hb (omega arith))

-- Undoing one byte of input: if the states behind it differ below bit `n`, those in front of it
-- differ below bit `m`, eight bits further up.
crc_byte_difference :
    (n m s t x y : ℕ)
    → 2 ^ m ≡ 256 * 2 ^ n
    → 2 ^ m ≤ 2 ^ 32
    → 1 ≤ 2 ^ n
    → IsU32 s
    → IsU32 t
    → IsByte x
    → IsByte y
    → bit_xor (crc_byte s x) (crc_byte t y) < 2 ^ n
    → bit_xor s t < 2 ^ m
unfolding crc_byte
crc_byte_difference n m s t x y em top pos hs ht hx hy h =
    rw (← bit_xor_cancel (bit_xor s t) (bit_xor x y))
      (rw exchanged (bit_xor-lt m _ (bit_xor x y) (omega arith) (omega (arith, xy_small))))
  where
    xy_small : bit_xor x y < 256
    xy_small = bit_xor-lt 8 x y hx hy

    exchanged :
        bit_xor (bit_xor s t) (bit_xor x y)
        ≡ 2 ^ 8 * bit_xor (crc_bits 8 (bit_xor s x)) (crc_bits 8 (bit_xor t y))
    exchanged =
        sym (bit_xor_exchange s x t y)
        ∙ crc_bits_difference 8 (bit_xor s x) (bit_xor t y) (mixed-IsU32 s x hs hx)
            (mixed-IsU32 t y ht hy) (omega arith)

-- `2 ^ (8 * n)` for up to three bytes of input.
abbrev reach : List ℕ → ℕ
reach [] = 0
reach (a ∷ []) = 8
reach (a ∷ b ∷ []) = 16
reach (a ∷ b ∷ c ∷ xs) = 24

-- States that meet behind at most three bytes of input each differ in the low bits only.
meeting_difference :
    (s t : ℕ) (xs ys : List ℕ)
    → length xs ≡ length ys
    → length xs ≤ 3
    → IsU32 s
    → IsU32 t
    → All IsByte xs
    → All IsByte ys
    → crc_bytes s xs ≡ crc_bytes t ys
    → bit_xor s t < 2 ^ reach xs
unfolding crc_bytes
meeting_difference s t [] [] e l hs ht hx hy h = rw (h, bit_xor_self t) (omega arith)
meeting_difference s t [] (y ∷ ys) e l hs ht hx hy h = absurd (omega arith)
meeting_difference s t (x ∷ xs) [] e l hs ht hx hy h = absurd (omega arith)
meeting_difference s t (x ∷ []) (y ∷ ys) e l hs ht hx hy h =
    crc_byte_difference 0 8 s t x y refl (omega arith) (omega arith) hs ht hx.0 hy.0 (
      meeting_difference (crc_byte s x) (crc_byte t y) [] ys (omega arith) (omega arith)
        (crc_byte-IsU32 s x hs hx.0) (crc_byte-IsU32 t y ht hy.0) hx.1 hy.1 h)
meeting_difference s t (x ∷ a ∷ []) (y ∷ ys) e l hs ht hx hy h =
    crc_byte_difference 8 16 s t x y refl (omega arith) (omega arith) hs ht hx.0 hy.0 (
      meeting_difference (crc_byte s x) (crc_byte t y) (a ∷ []) ys (omega arith) (omega arith)
        (crc_byte-IsU32 s x hs hx.0) (crc_byte-IsU32 t y ht hy.0) hx.1 hy.1 h)
meeting_difference s t (x ∷ a ∷ b ∷ []) (y ∷ ys) e l hs ht hx hy h =
    crc_byte_difference 16 24 s t x y refl (omega arith) (omega arith) hs ht hx.0 hy.0 (
      meeting_difference (crc_byte s x) (crc_byte t y) (a ∷ b ∷ []) ys (omega arith) (omega arith)
        (crc_byte-IsU32 s x hs hx.0) (crc_byte-IsU32 t y ht hy.0) hx.1 hy.1 h)
meeting_difference s t (x ∷ a ∷ b ∷ c ∷ xs) (y ∷ ys) e l hs ht hx hy h = absurd (omega arith)

reach-le : (xs : List ℕ) → 2 ^ reach xs ≤ 2 ^ 24
reach-le [] = omega arith
reach-le (a ∷ []) = omega arith
reach-le (a ∷ b ∷ []) = omega arith
reach-le (a ∷ b ∷ c ∷ xs) = omega arith

-- From one state, inputs of which at most three bytes follow cannot meet if they differ at once.
first_agrees :
    (c x y : ℕ)
    → IsU32 c
    → IsByte x
    → IsByte y
    → bit_xor (crc_byte c x) (crc_byte c y) < 2 ^ 24
    → (x ≡ y) × (crc_byte c x ≡ crc_byte c y)
unfolding crc_byte
first_agrees c x y hc hx hy h = (
  eq_of_bit_xor x y (omega (arith, shifted, bit_xor-lt 8 x y hx hy)),
  eq_of_bit_xor _ _ (omega (arith, shifted, bit_xor-lt 8 x y hx hy)),
)
  where
    shifted : bit_xor x y ≡ 2 ^ 8 * bit_xor (crc_bits 8 (bit_xor c x)) (crc_bits 8 (bit_xor c y))
    shifted =
        sym (bit_xor_comm 0 (bit_xor x y) ∙ bit_xor-zero (bit_xor x y))
        ∙ ap (λ (z : ℕ). bit_xor z (bit_xor x y)) (sym (bit_xor_self c))
        ∙ sym (bit_xor_exchange c x c y)
        ∙ crc_bits_difference 8 (bit_xor c x) (bit_xor c y) (mixed-IsU32 c x hc hx)
            (mixed-IsU32 c y hc hy) (omega arith)

crc_bytes_window :
    (c : ℕ) (xs ys : List ℕ)
    → length xs ≡ length ys
    → length xs ≤ 4
    → IsU32 c
    → All IsByte xs
    → All IsByte ys
    → crc_bytes c xs ≡ crc_bytes c ys
    → xs ≡ ys
unfolding crc_bytes
crc_bytes_window c [] [] e l hc hx hy h = refl
crc_bytes_window c [] (y ∷ ys) e l hc hx hy h = absurd (omega arith)
crc_bytes_window c (x ∷ xs) [] e l hc hx hy h = absurd (omega arith)
crc_bytes_window c (x ∷ xs) (y ∷ ys) e l hc hx hy h =
    let hs = crc_byte-IsU32 c x hc hx.0 in
    let ht = crc_byte-IsU32 c y hc hy.0 in
    let near =
      meeting_difference (crc_byte c x) (crc_byte c y) xs ys (omega arith) (omega arith) hs ht hx.1
        hy.1 h in
    let (same, state) = first_agrees c x y hc hx.0 hy.0 (omega (arith, reach-le xs)) in
    ap₂ ◌∷◌ same (
      crc_bytes_window (crc_byte c x) xs ys (omega arith) (omega arith) hs hx.1 hy.1
        (h ∙ ap (λ (t : ℕ). crc_bytes t ys) (sym state)))

-- Two byte strings that agree outside a window of at most four bytes, with one checksum, are equal.
pub crc32_window :
    (front xs ys back : List ℕ)
    → All IsByte front
    → All IsByte xs
    → All IsByte ys
    → All IsByte back
    → length xs ≡ length ys
    → length xs ≤ 4
    → crc32 (front ++ (xs ++ back)) ≡ crc32 (front ++ (ys ++ back))
    → xs ≡ ys
crc32_window front xs ys back hf hx hy hb e l h =
    crc_bytes_window start xs ys e l start-IsU32 hx hy (
      crc_bytes_state (crc_bytes start xs) (crc_bytes start ys) back
        (crc_bytes-IsU32 start xs start-IsU32 hx) (crc_bytes-IsU32 start ys start-IsU32 hy) hb
        (sym (split xs) ∙ states ∙ split ys))
  where
    start : ℕ
    start = crc_bytes 0xffff_ffff front

    start-IsU32 : IsU32 start
    start-IsU32 = crc_bytes-IsU32 0xffff_ffff front (omega arith) hf

    split :
        (zs : List ℕ)
        → crc_bytes 0xffff_ffff (front ++ (zs ++ back)) ≡ crc_bytes (crc_bytes start zs) back
    split zs = crc_bytes-append 0xffff_ffff front (zs ++ back) ∙ crc_bytes-append start zs back

    states :
        crc_bytes 0xffff_ffff (front ++ (xs ++ back))
        ≡ crc_bytes 0xffff_ffff (front ++ (ys ++ back))
    states =
        crc32_state (front ++ (xs ++ back)) (front ++ (ys ++ back))
          (All-append IsByte front (xs ++ back) hf (All-append IsByte xs back hx hb))
          (All-append IsByte front (ys ++ back) hf (All-append IsByte ys back hy hb)) h

-- Changing at most four consecutive bytes of a string of bytes, to as many others that are not the
-- same, changes its checksum.
pub crc32_burst :
    (front xs ys back : List ℕ)
    → All IsByte front
    → All IsByte xs
    → All IsByte ys
    → All IsByte back
    → length xs ≡ length ys
    → length xs ≤ 4
    → xs ≢ ys
    → crc32 (front ++ (xs ++ back)) ≢ crc32 (front ++ (ys ++ back))
crc32_burst front xs ys back hf hx hy hb e l other h =
    other (crc32_window front xs ys back hf hx hy hb e l h)
