-- ===== src/Codec/Corruption.antt =====
-- What `decode` makes of damaged frames.
use mathlib.Core.Option.{Option}
use industrial_memory_protoc.Prelude.{
  ℕ, ◌+◌, ◌-◌, ◌≤◌, ◌≡◌, refl, sym, ap, ap₂, ◌∙◌, ◌⊎◌, inl, inr, ◌≢◌, List, ◌++◌, arith, length,
  take, drop, All, All-append, length-append, take-append_le, take-append_ge, drop-append_ge,
  append-cancel_left, append-cancel_right, take-append-drop, All-take, All-left, All-right,
  Option-cases,
}
use industrial_memory_protoc.Prelude.Bits.{IsByte, IsU32}
use industrial_memory_protoc.Types.{Frame, accepted}
use industrial_memory_protoc.Codec.Words.{byte_at, read_u16, bytes_of_u32}
use industrial_memory_protoc.Codec.Crc.{crc32, crc32-lt}
use industrial_memory_protoc.Codec.Crc.Detect.Burst.{crc32_window}
use industrial_memory_protoc.Codec.Frames.{decode}
use industrial_memory_protoc.Codec.Accepts.{decode-Accepts}
use industrial_memory_protoc.Codec.Canonical.{checksum_bytes}

bytes_of_u32_injective : (a b : ℕ) → IsU32 a → IsU32 b → bytes_of_u32 a ≡ bytes_of_u32 b → a ≡ b
bytes_of_u32_injective a b ha hb e = omega (
  arith,
  ap (λ (l : List ℕ). byte_at l 0) e,
  ap (λ (l : List ℕ). byte_at l 1) e,
  ap (λ (l : List ℕ). byte_at l 2) e,
  ap (λ (l : List ℕ). byte_at l 3) e,
)

-- Both parts of an accepted byte string, at a position that is four bytes before its end.
checksum_split :
    (bytes : List ℕ) (f : Frame) (n : ℕ)
    → All IsByte bytes
    → accepted (decode bytes) ≡ Option.some f
    → length bytes ≡ n + 4
    → drop n bytes ≡ bytes_of_u32 (crc32 (take n bytes))
checksum_split bytes f n valid h e =
    let (a, _) = decode-Accepts bytes f h in
    let at_n : 18 + read_u16 bytes 14 ≡ n = omega (arith, a.size) in
    rw at_n at (checksum_bytes bytes valid a)

module _ (front xs ys back : List ℕ) (f g : Frame) (hf : All IsByte front) (hx : All IsByte xs)
    (hy : All IsByte ys) (hb : All IsByte back) (same : length xs ≡ length ys)
    (first : accepted (decode (front ++ (xs ++ back))) ≡ Option.some f)
    (second : accepted (decode (front ++ (ys ++ back))) ≡ Option.some g) where
  abbrev damaged : List ℕ → List ℕ
  damaged zs = front ++ (zs ++ back)

  size : (zs : List ℕ) → length (damaged zs) ≡ length front + (length zs + length back)
  size zs = omega (arith, length-append front (zs ++ back), length-append zs back)

  x_split :
      (n : ℕ)
      → length (damaged xs) ≡ n + 4
      → drop n (damaged xs) ≡ bytes_of_u32 (crc32 (take n (damaged xs)))
  x_split n e =
      checksum_split (damaged xs) f n
        (All-append IsByte front (xs ++ back) hf (All-append IsByte xs back hx hb)) first e

  y_split :
      (n : ℕ)
      → length (damaged ys) ≡ n + 4
      → drop n (damaged ys) ≡ bytes_of_u32 (crc32 (take n (damaged ys)))
  y_split n e =
      checksum_split (damaged ys) g n
        (All-append IsByte front (ys ++ back) hf (All-append IsByte ys back hy hb)) second e

  in_body : length xs ≤ 4 → 4 ≤ length back → xs ≡ ys
  in_body short room =
      crc32_window front xs ys (take k back) hf hx hy (All-take IsByte k back hb) same short (
        bytes_of_u32_injective _ _ (crc32-lt _) (crc32-lt _) (
          rw (body xs refl) at (sym (x_split n size_x))
          ∙ tail xs refl
          ∙ sym (tail ys (sym same))
          ∙ rw (body ys (sym same)) at (y_split n size_y)))
    where
      k : ℕ
      k = length back - 4

      n : ℕ
      n = length front + (length xs + k)

      body :
          (zs : List ℕ) → length zs ≡ length xs → take n (damaged zs) ≡ front ++ (zs ++ take k back)
      body zs e =
          take-append_ge n (length zs + k) front (zs ++ back) (omega arith)
          ∙ ap (◌++◌ front) (take-append_ge (length zs + k) k zs back refl)

      tail : (zs : List ℕ) → length zs ≡ length xs → drop n (damaged zs) ≡ drop k back
      tail zs e =
          drop-append_ge n (length zs + k) front (zs ++ back) (omega arith)
          ∙ drop-append_ge (length zs + k) k zs back refl

      size_x : length (damaged xs) ≡ n + 4
      size_x = omega (arith, size xs)

      size_y : length (damaged ys) ≡ n + 4
      size_y = omega (arith, size ys, same)

  in_checksum : length xs + length back ≤ 4 → 4 ≤ length (damaged xs) → xs ≡ ys
  in_checksum inside room =
      append-cancel_right xs ys back same (append-cancel_left front (xs ++ back) (ys ++ back) whole)
    where
      n : ℕ
      n = length (damaged xs) - 4

      fits : n ≤ length front
      fits = omega (arith, size xs)

      parts : take n (damaged xs) ≡ take n (damaged ys)
      parts =
          take-append_le n front (xs ++ back) fits ∙ sym (take-append_le n front (ys ++ back) fits)

      whole : damaged xs ≡ damaged ys
      whole =
          sym (take-append-drop n (damaged xs))
          ∙ ap₂ ◌++◌ parts (
              x_split n (omega arith)
              ∙ ap (λ (l : List ℕ). bytes_of_u32 (crc32 l)) parts
              ∙ sym (y_split n (omega (arith, size xs, size ys, same))))
          ∙ take-append-drop n (damaged ys)

-- An accepted frame has a header and a checksum.
pub accepted_size :
    (bytes : List ℕ) (f : Frame)
    → accepted (decode bytes) ≡ Option.some f
    → (22 ≤ length bytes) × (length bytes ≤ 278)
accepted_size bytes f h =
    let (a, _) = decode-Accepts bytes f h in
    (omega (arith, a.size), omega (arith, a.size, a.ceiling))

-- Both accepted means no difference.
undamaged :
    (front xs ys back : List ℕ) (f g : Frame)
    → All IsByte (front ++ (xs ++ back))
    → All IsByte (front ++ (ys ++ back))
    → length xs ≡ length ys
    → length xs ≤ 4
    → (4 ≤ length back) ⊎ (length xs + length back ≤ 4)
    → accepted (decode (front ++ (xs ++ back))) ≡ Option.some f
    → accepted (decode (front ++ (ys ++ back))) ≡ Option.some g
    → xs ≡ ys
undamaged front xs ys back f g hx hy same short place first second = cases place
  where
    in_front : All IsByte front
    in_front = All-left IsByte front (xs ++ back) hx

    in_xs : All IsByte (xs ++ back)
    in_xs = All-right IsByte front (xs ++ back) hx

    in_ys : All IsByte (ys ++ back)
    in_ys = All-right IsByte front (ys ++ back) hy

    cases : (4 ≤ length back) ⊎ (length xs + length back ≤ 4) → xs ≡ ys
    cases (inl room) =
        in_body front xs ys back f g in_front (All-left IsByte xs back in_xs)
          (All-left IsByte ys back in_ys) (All-right IsByte xs back in_xs) same first second short
          room
    cases (inr inside) =
        in_checksum front xs ys back f g in_front (All-left IsByte xs back in_xs)
          (All-left IsByte ys back in_ys) (All-right IsByte xs back in_xs) same first second inside
          (omega (arith, accepted_size (front ++ (xs ++ back)) f first))

-- Replacing one to four consecutive bytes of an accepted frame by other bytes, as many and not the
-- same, yields bytes that `decode` rejects, where the replaced bytes lie in front of the checksum
-- field or inside it. A single byte may stand anywhere.
pub decode_burst :
    (front xs ys back : List ℕ) (f : Frame)
    → All IsByte (front ++ (xs ++ back))
    → All IsByte (front ++ (ys ++ back))
    → length xs ≡ length ys
    → length xs ≤ 4
    → (4 ≤ length back) ⊎ (length xs + length back ≤ 4)
    → accepted (decode (front ++ (xs ++ back))) ≡ Option.some f
    → xs ≢ ys
    → accepted (decode (front ++ (ys ++ back))) ≡ Option.none
decode_burst front xs ys back f hx hy same short place first other =
    elim (Option-cases (accepted (decode (front ++ (ys ++ back))))) [
      | inl e ↦ e
      | inr (g, second) ↦
          absurd (other (undamaged front xs ys back f g hx hy same short place first second))
    ]
