-- ===== src/Codec/Checked/Bounds.antt =====
-- The decoder reads within the span.
use mathlib.Core.Option.{Option}
use industrial_memory_protoc.Prelude.{
  ℕ, zero, suc, ◌+◌, ◌-◌, ◌≤◌, ◌<◌, ◌≡◌, refl, Bool, true, false, some, List, [], ◌∷◌, arith,
  length, take, drop, ltb, ◌==◌, not, bit_and, if◌then◌else◌, Bool-cases, inl, inr,
}
use industrial_memory_protoc.Types.{
  Opcode, opcode_of_value, CodecError, DecodeResult, magic, response_flag,
}
use industrial_memory_protoc.Codec.Words.{byte_at, read_u16, read_u32}
use industrial_memory_protoc.Codec.Crc.{crc32}
use industrial_memory_protoc.Codec.Frames.{
  is_supported_opcode, has_valid_semantics, decoding_failed, complement8, begins_with,
  expected_size, decode, decode_frame,
}
use industrial_memory_protoc.Codec.Checked.{
  checked_byte, checked_range, checked_u16, checked_u32, checked_frame, checked_tail, checked_sizes,
  checked_kind, checked_decode,
}

checked_byte_lem :
    (bytes : List ℕ) (i : ℕ) → i < length bytes → checked_byte bytes i ≡ some (byte_at bytes i)
unfolding checked_byte
checked_byte_lem [] i h = absurd (omega (arith, h))
checked_byte_lem (b ∷ bytes) zero h = refl
checked_byte_lem (b ∷ bytes) (suc i) h = checked_byte_lem bytes i (omega (arith, h))

checked_range_lem :
    (bytes : List ℕ) (offset count : ℕ)
    → offset + count ≤ length bytes
    → checked_range bytes offset count ≡ some (take count (drop offset bytes))
unfolding checked_range
checked_range_lem bytes offset count h = ground (arith, h)

checked_u16_lem :
    (bytes : List ℕ) (i : ℕ) → i + 2 ≤ length bytes → checked_u16 bytes i ≡ some (read_u16 bytes i)
unfolding checked_u16 read_u16
checked_u16_lem bytes i h =
    rw
      (
        checked_byte_lem bytes i (omega (arith, h)),
        checked_byte_lem bytes (i + 1) (omega (arith, h)),
      )
      refl

checked_u32_lem :
    (bytes : List ℕ) (i : ℕ) → i + 4 ≤ length bytes → checked_u32 bytes i ≡ some (read_u32 bytes i)
unfolding checked_u32 read_u32
checked_u32_lem bytes i h =
    rw
      (
        checked_byte_lem bytes i (omega (arith, h)),
        checked_byte_lem bytes (i + 1) (omega (arith, h)),
        checked_byte_lem bytes (i + 2) (omega (arith, h)),
        checked_byte_lem bytes (i + 3) (omega (arith, h)),
      )
      refl

-- The two bytes in front suffice for the comparison with `magic`.
begins_with-take : (bytes : List ℕ) → begins_with magic (take 2 bytes) ≡ begins_with magic bytes
begins_with-take [] = refl
begins_with-take (a ∷ []) = refl
begins_with-take (a ∷ b ∷ bytes) = refl

-- A test whose one branch is a value and whose other is computed.
branch :
    {A : Type 0} (b : Bool) (x : A) (o : Option A) (y : A)
    → (b ≡ false → o ≡ some y)
    → (if b then some x else o) ≡ some (if b then x else y)
branch true x o y h = refl
branch false x o y h = h refl

module _ (bytes : List ℕ) (long : 18 ≤ length bytes) where
  abbrev size : ℕ
  size = expected_size bytes

  abbrev code : Opcode
  code = opcode_of_value (byte_at bytes 3)

  -- The parts of `decode` from the same places on.
  abbrev tail : DecodeResult
  tail =
      if not (crc32 (take (size - 4) bytes) == read_u32 bytes (size - 4))
      then decoding_failed CodecError.checksum_mismatch size
      else if not (has_valid_semantics (decode_frame bytes))
      then decoding_failed CodecError.invalid_semantics size
      else record { frame = some (decode_frame bytes); error = CodecError.none; consumed = size }

  abbrev sizes : DecodeResult
  sizes =
      if ltb 256 (read_u16 bytes 14)
      then decoding_failed CodecError.payload_too_large 0
      else if ltb (length bytes) size
      then decoding_failed CodecError.truncated 0
      else if not (length bytes == size)
      then decoding_failed CodecError.length_mismatch size
      else tail

  abbrev kind : DecodeResult
  kind =
      if not (is_supported_opcode code)
      then decoding_failed CodecError.unsupported_opcode 0
      else if not (bit_and (byte_at bytes 4) (complement8 response_flag) == 0)
      then decoding_failed CodecError.unsupported_flags 0
      else if not (byte_at bytes 5 == 0)
      then decoding_failed CodecError.nonzero_reserved 0
      else sizes

  frame_lem :
      18 + read_u16 bytes 14 ≤ length bytes
      → checked_frame bytes code (byte_at bytes 4) (read_u16 bytes 14) ≡ some (decode_frame bytes)
  unfolding checked_frame decode_frame
  frame_lem fits =
      rw
        (
          checked_u32_lem bytes 6 (omega (arith, long)),
          checked_u32_lem bytes 10 (omega (arith, long)),
          checked_u16_lem bytes 16 (omega (arith, long)),
          checked_range_lem bytes 18 (read_u16 bytes 14) fits,
        )
        refl

  tail_lem :
      length bytes ≡ size
      → checked_tail bytes code (byte_at bytes 4) (read_u16 bytes 14) size ≡ some tail
  unfolding checked_tail
  tail_lem exact =
      rw
        (
          checked_u32_lem bytes (size - 4) (omega (arith, exact)),
          checked_range_lem bytes 0 (size - 4) (omega (arith, exact)),
        )
        (elim (Bool-cases (crc32 (take (size - 4) bytes) == read_u32 bytes (size - 4))) [
          | inr e ↦ rw e refl
          | inl e ↦ rw (e, frame_lem (omega (arith, exact))) refl
        ])

  sizes_lem : checked_sizes bytes code (byte_at bytes 4) ≡ some sizes
  unfolding checked_sizes
  sizes_lem =
      rw (checked_u16_lem bytes 14 (omega (arith, long)))
        (elim (Bool-cases (ltb 256 (read_u16 bytes 14))) [
          | inl e ↦ rw e refl
          | inr e ↦ rw e (elim (Bool-cases (ltb (length bytes) size)) [
            | inl e ↦ rw e refl
            | inr e ↦ rw e (elim (Bool-cases (length bytes == size)) [
              | inr e ↦ rw e refl
              | inl e ↦ rw e (tail_lem (ground (arith, e)))
            ])
          ])
        ])

  kind_lem : checked_kind bytes ≡ some kind
  unfolding checked_kind
  kind_lem =
      rw
        (
          checked_byte_lem bytes 3 (omega (arith, long)),
          checked_byte_lem bytes 4 (omega (arith, long)),
          checked_byte_lem bytes 5 (omega (arith, long)),
        )
        (elim (Bool-cases (is_supported_opcode code)) [
          | inr e ↦ rw e refl
          | inl e ↦
              rw e (elim (Bool-cases (bit_and (byte_at bytes 4) (complement8 response_flag) == 0)) [
                | inr e ↦ rw e refl
                | inl e ↦ rw e (elim (Bool-cases (byte_at bytes 5 == 0)) [
                  | inr e ↦ rw e refl
                  | inl e ↦ rw e sizes_lem
                ])
              ])
        ])

  long_lem : checked_decode bytes ≡ some (decode bytes)
  unfolding checked_decode decode
  long_lem =
      rw
        (
          checked_range_lem bytes 0 2 (omega (arith, long)),
          checked_byte_lem bytes 2 (omega (arith, long)),
        )
        (elim (Bool-cases (ltb (length bytes) 18)) [
          | inl e ↦ rw e refl
          | inr e ↦
              rw (e, begins_with-take bytes)
                (elim (Bool-cases (begins_with magic bytes)) [
                  | inr e ↦ rw e refl
                  | inl e ↦ rw e (elim (Bool-cases (byte_at bytes 2 == 1)) [
                    | inr e ↦ rw e refl
                    | inl e ↦ rw e kind_lem
                  ])
                ])
        ])

-- `decode` never reads past the end of the span: on every string of bytes, the decoder with each
-- access to the span checked fails none of them, and it gives what `decode` gives.
pub checked_decode_lem : (bytes : List ℕ) → checked_decode bytes ≡ some (decode bytes)
unfolding checked_decode decode
checked_decode_lem bytes = elim (Bool-cases (ltb (length bytes) 18)) [
  | inl e ↦ rw e refl
  | inr e ↦ long_lem bytes (ground (arith, e))
]
