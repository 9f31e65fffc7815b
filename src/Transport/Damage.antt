-- ===== src/Transport/Damage.antt =====
-- What a decoder makes of a response that the fault script has damaged.
use mathlib.Core.Option.{Option}
use industrial_memory_protoc.Prelude.{
  ℕ, ◌+◌, ◌%◌, ◌^◌, ◌≤◌, ◌<◌, ◌≡◌, refl, sym, ap, ◌∙◌, ◌≢◌, true, ◌&&◌, List, [], ◌∷◌, ◌++◌, arith,
  length, take, All, All-get_or, get_or-take, length-take, length-append, take-take,
  get_or-append_left, get_or-append_at, ◌==◌, bit_xor, take-append_le,
}
use industrial_memory_protoc.Prelude.Halves.{bit_xor_halves}
use industrial_memory_protoc.Prelude.Bits.{IsByte, bit_xor-lt}
use industrial_memory_protoc.Types.{magic, Frame, CodecError, accepted}
use industrial_memory_protoc.Codec.Words.{byte_at, read_u16, read_u32, read_u32-eq}
use industrial_memory_protoc.Codec.Crc.{crc32}
use industrial_memory_protoc.Codec.Frames.{begins_with, decode, encode_output, has_valid_semantics}
use industrial_memory_protoc.Codec.Accepts.{Accepts, decode-Accepts, body_size}
use industrial_memory_protoc.Codec.RoundTrip.{
  IsFrame, Encodable, Encodable-encode, decode-encode_output,
}
use industrial_memory_protoc.Codec.Canonical.{decode-IsFrame}
use industrial_memory_protoc.Transport.{pop_back, flip_back, shift_request_id}

begins_with_two :
    (xs : List ℕ)
    → 2 ≤ length xs
    → begins_with magic xs ≡ ((0x49 == byte_at xs 0) && ((0x4d == byte_at xs 1) && true))
begins_with_two [] h = absurd (omega arith)
begins_with_two (x ∷ []) h = absurd (omega arith)
begins_with_two (x ∷ y ∷ xs) h = refl

-- Bytes that share the header of an accepted frame.
module _ (bytes other : List ℕ) (a : Accepts bytes)
    (same : (i : ℕ) → i < 18 → byte_at other i ≡ byte_at bytes i) (long : 18 ≤ length other) where
  same_magic : begins_with magic other ≡ true
  same_magic =
      begins_with_two other (omega arith)
      ∙ rw (same 0 (omega arith), same 1 (omega arith))
          (sym (begins_with_two bytes (omega (arith, a.size))) ∙ a.starts)

  same_size : read_u16 other 14 ≡ read_u16 bytes 14
  unfolding read_u16
  same_size = rw (same 14 (omega arith), same 15 (omega arith)) refl

  -- With fewer bytes than the header announces they are truncated.
  decode_short : length other < length bytes → (decode other).error ≡ CodecError.truncated
  unfolding decode
  decode_short h = ground (
    arith,
    same_magic,
    same_size,
    same 2 (omega arith),
    same 3 (omega arith),
    same 4 (omega arith),
    same 5 (omega arith),
    a.version,
    a.opcode,
    a.flags,
    a.reserved,
    a.ceiling,
    a.size,
  )

  -- With as many bytes and another checksum they are corrupt.
  decode_mismatch :
      length other ≡ length bytes
      → crc32 (take (18 + read_u16 bytes 14) other) ≢ read_u32 other (18 + read_u16 bytes 14)
      → (decode other).error ≡ CodecError.checksum_mismatch
  unfolding decode
  decode_mismatch e h = ground (
    arith,
    h,
    body_size other,
    same_magic,
    same_size,
    same 2 (omega arith),
    same 3 (omega arith),
    same 4 (omega arith),
    same 5 (omega arith),
    a.version,
    a.opcode,
    a.flags,
    a.reserved,
    a.ceiling,
    a.size,
  )

pop_back_lem : (b : ℕ) (bs : List ℕ) → pop_back (b ∷ bs) ≡ take (length bs) (b ∷ bs)
unfolding pop_back
pop_back_lem b [] = refl
pop_back_lem b (c ∷ bs) = ap (◌∷◌ b) (pop_back_lem c bs)

flip_back_lem :
    (b : ℕ) (bs : List ℕ)
    → flip_back (b ∷ bs)
      ≡ take (length bs) (b ∷ bs) ++ bit_xor (byte_at (b ∷ bs) (length bs)) 1 ∷ []
unfolding flip_back
flip_back_lem b [] = refl
flip_back_lem b (c ∷ bs) = ap (◌∷◌ b) (flip_back_lem c bs)

-- An accepted frame without its last byte is rejected as truncated.
pub decode-pop_back :
    (bytes : List ℕ) (f : Frame)
    → accepted (decode bytes) ≡ Option.some f
    → (decode (pop_back bytes)).error ≡ CodecError.truncated
decode-pop_back [] f h = absurd (omega (arith, (decode-Accepts [] f h).0.size))
decode-pop_back (b ∷ bs) f h =
    let a = (decode-Accepts (b ∷ bs) f h).0 in
    rw (pop_back_lem b bs) (
      decode_short (b ∷ bs) (take (length bs) (b ∷ bs)) a
        (λ i p. get_or-take (length bs) i (b ∷ bs) 0 (omega (arith, a.size)))
        (omega (arith, length-take (length bs) (b ∷ bs), a.size))
        (omega (arith, length-take (length bs) (b ∷ bs))))

-- Flipping the lowest bit changes a byte.
flipped : (b : ℕ) → IsByte b → IsByte (bit_xor b 1) × (bit_xor b 1 ≢ b)
flipped b h = (bit_xor-lt 8 b 1 h (omega arith), λ e. omega (arith, bit_xor_halves b 1))

module _ (b : ℕ) (bs : List ℕ) (f : Frame) (valid : All IsByte (b ∷ bs))
    (h : accepted (decode (b ∷ bs)) ≡ Option.some f) where
  checks : Accepts (b ∷ bs)
  checks = (decode-Accepts (b ∷ bs) f h).0

  abbrev bytes : List ℕ
  bytes = b ∷ bs

  last : ℕ
  last = byte_at (b ∷ bs) (length bs)

  damaged : List ℕ
  damaged = take (length bs) (b ∷ bs) ++ bit_xor last 1 ∷ []

  damaged_byte : (i : ℕ) → i < length bs → byte_at damaged i ≡ byte_at (b ∷ bs) i
  unfolding damaged
  damaged_byte i p =
      get_or-append_left (take (length bs) (b ∷ bs)) (bit_xor last 1 ∷ []) i 0
        (omega (arith, length-take (length bs) (b ∷ bs)))
      ∙ get_or-take (length bs) i (b ∷ bs) 0 p

  damaged-last : byte_at damaged (length bs) ≡ bit_xor last 1
  unfolding damaged
  damaged-last =
      get_or-append_at (take (length bs) (b ∷ bs)) (bit_xor last 1) 0 (length bs)
        (omega (arith, length-take (length bs) (b ∷ bs)))

  length-damaged : length damaged ≡ length (b ∷ bs)
  unfolding damaged
  length-damaged = omega (
    arith,
    length-append (take (length bs) (b ∷ bs)) (bit_xor last 1 ∷ []),
    length-take (length bs) (b ∷ bs),
  )

  at_IsByte : (i : ℕ) → IsByte (byte_at (b ∷ bs) i)
  at_IsByte i = All-get_or IsByte (b ∷ bs) i 0 valid (omega arith)

  -- The checksum field of the damaged bytes is another number.
  damaged_field : (n : ℕ) → n + 3 ≡ length bs → read_u32 damaged n ≢ read_u32 (b ∷ bs) n
  unfolding last
  damaged_field n e same = omega (
    arith,
    same,
    flipped last (at_IsByte (length bs)),
    ap (byte_at damaged) e,
    ap (byte_at (b ∷ bs)) e,
    damaged-last,
    damaged_byte n (omega arith),
    damaged_byte (n + 1) (omega arith),
    damaged_byte (n + 2) (omega arith),
    at_IsByte (n + 1),
    at_IsByte (n + 2),
    at_IsByte (n + 3),
    read_u32-eq (b ∷ bs) n (at_IsByte (n + 1)) (at_IsByte (n + 2)) (at_IsByte (n + 3)),
    read_u32-eq damaged n (rw (damaged_byte (n + 1) (omega arith)) (at_IsByte (n + 1)))
        (rw (damaged_byte (n + 2) (omega arith)) (at_IsByte (n + 2)))
        (rw (e, damaged-last) (flipped last (at_IsByte (length bs))).0),
  )

  damaged_body : (n : ℕ) → n ≤ length bs → take n damaged ≡ take n (b ∷ bs)
  unfolding damaged
  damaged_body n p =
      take-append_le n (take (length bs) (b ∷ bs)) (bit_xor last 1 ∷ [])
        (omega (arith, length-take (length bs) (b ∷ bs)))
      ∙ take-take n (length bs) (b ∷ bs) p

  decode-damaged : (decode damaged).error ≡ CodecError.checksum_mismatch
  decode-damaged =
      let n : ℕ = 18 + read_u16 (b ∷ bs) 14 in
      decode_mismatch (b ∷ bs) damaged checks (λ i p. damaged_byte i (omega (arith, checks.size)))
        (omega (arith, length-damaged, checks.size)) length-damaged
        λ e.
          damaged_field n (omega (arith, checks.size))
            (sym e ∙ ap crc32 (damaged_body n (omega (arith, checks.size))) ∙ checks.checksum)

-- An accepted string of bytes with the lowest bit of its last byte flipped is rejected by its
-- checksum.
pub decode-flip_back :
    (bytes : List ℕ) (f : Frame)
    → All IsByte bytes
    → accepted (decode bytes) ≡ Option.some f
    → (decode (flip_back bytes)).error ≡ CodecError.checksum_mismatch
decode-flip_back [] f valid h = absurd (omega (arith, (decode-Accepts [] f h).0.size))
decode-flip_back (b ∷ bs) f valid h =
    rw (flip_back_lem b bs) (unfold damaged last in decode-damaged b bs f valid h)

-- The identifier is no part of what makes a frame valid.
abbrev pub renumbered : Frame → Frame
renumbered f = record f { request_id = (f.request_id + 1) % 2 ^ 32 }

renumbered-Encodable : (f : Frame) → Encodable f → Encodable (renumbered f)
unfolding has_valid_semantics
renumbered-Encodable f e = record {
  version = e.version;
  opcode = e.opcode;
  ceiling = e.ceiling;
  semantics = e.semantics;
}

renumbered-IsFrame : (f : Frame) → IsFrame f → IsFrame (renumbered f)
renumbered-IsFrame f v = record {
  flags = v.flags;
  request_id = omega arith;
  address = v.address;
  status = v.status;
  payload = v.payload;
}

shifted :
    (bytes : List ℕ) (f : Frame)
    → accepted (decode bytes) ≡ Option.some f
    → Encodable (renumbered f)
    → shift_request_id bytes ≡ encode_output (renumbered f)
unfolding shift_request_id
shifted bytes f h e = rw (h, shift_request_id) (rw (Encodable-encode (renumbered f) e) refl)

-- What the renumbering fault makes of an accepted string of bytes still decodes, to the same frame
-- but for the identifier, which is the next in 32 bits and differs.
pub decode-shift_request_id :
    (bytes : List ℕ) (f : Frame)
    → All IsByte bytes
    → accepted (decode bytes) ≡ Option.some f
    → (accepted (decode (shift_request_id bytes)) ≡ Option.some (renumbered f))
      × ((renumbered f).request_id ≢ f.request_id)
decode-shift_request_id bytes f valid h =
    let v = decode-IsFrame bytes f valid h in
    let e = renumbered-Encodable f v.1 in
    (
      rw (shifted bytes f h e)
          (ap accepted (decode-encode_output (renumbered f) (renumbered-IsFrame f v.0) e)),
      λ p. omega (arith, p, v.0.request_id),
    )
