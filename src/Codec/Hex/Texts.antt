-- ===== src/Codec/Hex/Texts.antt =====
-- Whole texts: what `bytes_from_hex` accepts, and its round trips with `bytes_to_hex`.
use mathlib.Core.Option.{Option}
use mathlib.Core.List.{map}
use industrial_memory_protoc.Prelude.{
  ℕ, ◌+◌, ◌*◌, ◌/◌, ◌%◌, ◌^◌, ◌≤◌, ◌<◌, ◌≡◌, refl, ap₂, ◌∙◌, ◌↔◌, inl, inr, some, none, List, [],
  ◌∷◌, ◌++◌, append_assoc, append-nil, subst, ◌≢◌, leb, ◌&&◌, if◌then◌else◌, arith, length, All,
  Option-cases, get_or, bit_or,
}
use industrial_memory_protoc.Prelude.Bits.{IsByte}
use industrial_memory_protoc.Codec.Words.{◌<<<◌}
use industrial_memory_protoc.Codec.Hex.{
  hex_nibble, digits, bytes_to_hex, from_hex_loop, bytes_from_hex,
}
use industrial_memory_protoc.Codec.Hex.Digits.{
  IsHexDigit, hex_nibble_iff, digits_lem, lower_digit-IsHexDigit, halves_of_byte, byte_of_halves,
}

-- The text spells the bytes: two digits for each, the high half first.
abbrev pub Spells : List ℕ → List ℕ → Type 0
Spells [] [] = Unit
Spells [] (b ∷ bytes) = ⊥
Spells (first ∷ []) bytes = ⊥
Spells (first ∷ second ∷ text) [] = ⊥
Spells (first ∷ second ∷ text) (b ∷ bytes) =
    IsHexDigit first (b / 16) × IsHexDigit second (b % 16) × Spells text bytes

length-Spells : (text bytes : List ℕ) → Spells text bytes → length text ≡ 2 * length bytes
length-Spells [] [] h = refl
length-Spells [] (b ∷ bytes) h = absurd h
length-Spells (first ∷ []) [] h = absurd h
length-Spells (first ∷ []) (b ∷ bytes) h = absurd h
length-Spells (first ∷ second ∷ text) [] h = absurd h
length-Spells (first ∷ second ∷ text) (b ∷ bytes) h = omega (arith, length-Spells text bytes h.2)

-- Such a text is read, byte by byte, behind what has been read.
loop-Spells :
    (text bytes result : List ℕ)
    → Spells text bytes
    → from_hex_loop text result ≡ some (result ++ bytes)
unfolding from_hex_loop
loop-Spells [] [] result h = rw append-nil
loop-Spells [] (b ∷ bytes) result h = absurd h
loop-Spells (first ∷ []) [] result h = absurd h
loop-Spells (first ∷ []) (b ∷ bytes) result h = absurd h
loop-Spells (first ∷ second ∷ text) [] result h = absurd h
loop-Spells (first ∷ second ∷ text) (b ∷ bytes) result h =
    let one = (hex_nibble_iff first (b / 16)).1 h.0 in
    let two = (hex_nibble_iff second (b % 16)).1 h.1 in
    let value : bit_or ((b / 16) <<< 4) (b % 16) % 2 ^ 8 ≡ b =
      byte_of_halves (b / 16) (b % 16) (omega (arith, h.0)) (omega arith) ∙ omega arith in
    rw (one, from_hex_loop, two, value)
      (loop-Spells text bytes (result ++ b ∷ []) h.2 ∙ rw append_assoc)

none-some : (bytes : List ℕ) → ◌≢◌ {A = Option (List ℕ)} none (some bytes)
none-some bytes e = cc

-- The digits of a byte that two nibbles make.
pair-Spells :
    (first second high low : ℕ) (text more : List ℕ)
    → IsHexDigit first high
    → IsHexDigit second low
    → Spells text more
    → Spells (first ∷ second ∷ text) ((high * 16 + low) ∷ more)
pair-Spells first second high low text more one two h =
    let upper : high ≡ (high * 16 + low) / 16 = omega (arith, one, two) in
    let lower : low ≡ (high * 16 + low) % 16 = omega (arith, one, two) in
    (subst (IsHexDigit first) upper one, subst (IsHexDigit second) lower two, h)

-- Nothing else is read.
Spells-loop :
    (text result bytes : List ℕ)
    → from_hex_loop text result ≡ some bytes
    → (more : List ℕ) × Spells text more × (bytes ≡ result ++ more)
unfolding from_hex_loop
Spells-loop [] result bytes h = ([], tt, rw append-nil (cc))
Spells-loop (first ∷ []) result bytes h = absurd cc
Spells-loop (first ∷ second ∷ text) result bytes h = elim (Option-cases (hex_nibble first)) [
  | inl e ↦ absurd (none-some bytes (rw (e, from_hex_loop) at h))
  | inr (high, e) ↦ elim (Option-cases (hex_nibble second)) [
    | inl e' ↦ absurd (none-some bytes (rw (e, from_hex_loop, e') at h))
    | inr (low, e') ↦
        let one = (hex_nibble_iff first high).0 e in
        let two = (hex_nibble_iff second low).0 e' in
        let value = byte_of_halves high low (omega (arith, one)) (omega (arith, two)) in
        let rest : from_hex_loop text (result ++ (high * 16 + low) ∷ []) ≡ some bytes =
          rw (e, from_hex_loop, e', value) at h in
        let (more, spelt, all) = Spells-loop text (result ++ (high * 16 + low) ∷ []) bytes rest in
        (
          (high * 16 + low) ∷ more,
          pair-Spells first second high low text more one two spelt,
          all ∙ append_assoc result ((high * 16 + low) ∷ []) more,
        )
  ]
]

-- `bytes_from_hex` accepts exactly the texts that spell at most 278 bytes, two hexadecimal digits of
-- either case for each, and returns these bytes.
pub bytes_from_hex_iff :
    (text bytes : List ℕ)
    → (bytes_from_hex text ≡ some bytes) ↔ (Spells text bytes × (length bytes ≤ 278))
unfolding bytes_from_hex
bytes_from_hex_iff text bytes = (forth, back)
  where
    forth : bytes_from_hex text ≡ some bytes → Spells text bytes × (length bytes ≤ 278)
    forth h =
        let fits : (length text / 2 ≤ 278) × (from_hex_loop text [] ≡ some bytes) = ground arith in
        let (more, spelt, all) = Spells-loop text [] bytes fits.1 in
        rw all (spelt, omega (arith, fits.0, length-Spells text more spelt))

    back : Spells text bytes × (length bytes ≤ 278) → bytes_from_hex text ≡ some bytes
    back h = ground (arith, length-Spells text bytes h.0, loop-Spells text bytes [] h.0)

Spells-bytes : (text bytes : List ℕ) → Spells text bytes → All IsByte bytes
Spells-bytes [] [] h = tt
Spells-bytes [] (b ∷ bytes) h = absurd h
Spells-bytes (first ∷ []) [] h = absurd h
Spells-bytes (first ∷ []) (b ∷ bytes) h = absurd h
Spells-bytes (first ∷ second ∷ text) [] h = absurd h
Spells-bytes (first ∷ second ∷ text) (b ∷ bytes) h =
    (omega (arith, h.0), Spells-bytes text bytes h.2)

pub bytes_from_hex-bytes :
    (text bytes : List ℕ) → bytes_from_hex text ≡ some bytes → All IsByte bytes
bytes_from_hex-bytes text bytes h = Spells-bytes text bytes ((bytes_from_hex_iff text bytes).0 h).0

bytes_to_hex-Spells : (bytes : List ℕ) → All IsByte bytes → Spells (bytes_to_hex bytes) bytes
unfolding bytes_to_hex
bytes_to_hex-Spells [] h = tt
bytes_to_hex-Spells (b ∷ bytes) h =
    let halves = halves_of_byte b in
    (
      rw (digits_lem (b / 16) (omega (arith, h.0)))
          (lower_digit-IsHexDigit (b / 16) (omega (arith, h.0))),
      rw (halves.1, digits_lem (b % 16) (omega arith))
          (lower_digit-IsHexDigit (b % 16) (omega arith)),
      bytes_to_hex-Spells bytes h.1,
    )

-- At most 278 bytes are read back from the text that is printed for them.
pub bytes_from_hex-bytes_to_hex :
    (bytes : List ℕ)
    → All IsByte bytes
    → length bytes ≤ 278
    → bytes_from_hex (bytes_to_hex bytes) ≡ some bytes
bytes_from_hex-bytes_to_hex bytes valid fits =
    (bytes_from_hex_iff (bytes_to_hex bytes) bytes).1 (bytes_to_hex-Spells bytes valid, fits)

-- `A` to `F` in lower case.
abbrev pub to_lower : ℕ → ℕ
to_lower c = if leb b'A' c && leb c b'F' then c + 32 else c

to_lower-IsHexDigit :
    (c value : ℕ) → IsHexDigit c value → value < 16 → get_or digits value 0 ≡ to_lower c
to_lower-IsHexDigit c value h l = digits_lem value l ∙ ground (arith, h)

bytes_to_hex_lower :
    (text bytes : List ℕ) → Spells text bytes → bytes_to_hex bytes ≡ map to_lower text
unfolding bytes_to_hex
bytes_to_hex_lower [] [] h = refl
bytes_to_hex_lower [] (b ∷ bytes) h = absurd h
bytes_to_hex_lower (first ∷ []) [] h = absurd h
bytes_to_hex_lower (first ∷ []) (b ∷ bytes) h = absurd h
bytes_to_hex_lower (first ∷ second ∷ text) [] h = absurd h
bytes_to_hex_lower (first ∷ second ∷ text) (b ∷ bytes) h =
    let halves = halves_of_byte b in
    ap₂ (λ c rest. c ∷ rest) (to_lower-IsHexDigit first (b / 16) h.0 (omega (arith, h.0)))
      (ap₂ (λ c rest. c ∷ rest)
        (rw halves.1 (to_lower-IsHexDigit second (b % 16) h.1 (omega arith)))
        (bytes_to_hex_lower text bytes h.2))

-- A text that is read is printed again, in lower case.
pub bytes_to_hex-bytes_from_hex :
    (text bytes : List ℕ)
    → bytes_from_hex text ≡ some bytes
    → bytes_to_hex bytes ≡ map to_lower text
bytes_to_hex-bytes_from_hex text bytes h =
    bytes_to_hex_lower text bytes ((bytes_from_hex_iff text bytes).0 h).0
