-- ===== src/Codec/Canonical.antt =====
-- The wire form is unique: a byte string that `decode` accepts is the one that `encode` makes of
-- the decoded frame.
mod Fields
use mathlib.Core.Option.{Option}
use native.Mathlib.Nat.{zero-add, suc-add}
use industrial_memory_protoc.Prelude.{
  ℕ, zero, suc, ◌+◌, ◌%◌, ◌^◌, ◌≤◌, ◌<◌, ◌≡◌, refl, sym, ap, ◌∙◌, true, List, [], ◌∷◌, ◌++◌, arith,
  length, take, drop, All, length-take, length-drop, take-append-drop, take-append_left, All-take,
  All-drop, All-get_or,
}
use industrial_memory_protoc.Prelude.Bits.{IsByte, IsU32}
use industrial_memory_protoc.Types.{
  opcode_value, opcode_of_value, status_value, status_of_value, Frame, CodecError, accepted, magic,
}
use industrial_memory_protoc.Codec.Words.{
  byte_at, read_u16, read_u32, bytes_of_u16, bytes_of_u32, read_u16-eq, read_u32-eq, u32_of_bytes,
  read_u16-lt,
}
use industrial_memory_protoc.Codec.Crc.{crc32}
use industrial_memory_protoc.Codec.Frames.{begins_with, decode, decode_frame, encode, encode_output}
use industrial_memory_protoc.Codec.Accepts.{Accepts, decode-Accepts}
use industrial_memory_protoc.Codec.RoundTrip.{
  IsStatus, IsFrame, Encodable, Encodable-encode, layout, encode_output_lem,
}
use industrial_memory_protoc.Codec.Canonical.Fields.{
  drop_cons, drop-drop, drop_four, header_bytes, opcode_value-opcode_of_value,
  status_value-status_of_value, status_of_value-IsStatus, bytes_of_u32-u32_of_bytes,
  begins_with-magic,
}

module _ (bytes : List ℕ) (valid : All IsByte bytes) (a : Accepts bytes) where
  at_IsByte : (i : ℕ) → IsByte (byte_at bytes i)
  at_IsByte i = All-get_or IsByte bytes i 0 valid (omega arith)

  u32_field :
      (i : ℕ)
      → bytes_of_u32 (read_u32 bytes i)
        ≡ byte_at bytes i
          ∷ byte_at bytes (i + 1)
          ∷ byte_at bytes (i + 2)
          ∷ byte_at bytes (i + 3)
          ∷ []
  u32_field i =
      rw (read_u32-eq bytes i (at_IsByte (i + 1)) (at_IsByte (i + 2)) (at_IsByte (i + 3))) (
        bytes_of_u32-u32_of_bytes (byte_at bytes i) (byte_at bytes (i + 1)) (byte_at bytes (i + 2))
          (byte_at bytes (i + 3)) (at_IsByte i) (at_IsByte (i + 1)) (at_IsByte (i + 2))
          (at_IsByte (i + 3)))

  u16_field :
      (i : ℕ) → bytes_of_u16 (read_u16 bytes i) ≡ byte_at bytes i ∷ byte_at bytes (i + 1) ∷ []
  u16_field i =
      ground (
        arith,
        at_IsByte i,
        at_IsByte (i + 1),
        read_u16-eq bytes i (at_IsByte i) (at_IsByte (i + 1)),
      )

  field-IsU32 : (i : ℕ) → IsU32 (read_u32 bytes i)
  field-IsU32 i = omega (
    arith,
    at_IsByte i,
    at_IsByte (i + 1),
    at_IsByte (i + 2),
    at_IsByte (i + 3),
    read_u32-eq bytes i (at_IsByte (i + 1)) (at_IsByte (i + 2)) (at_IsByte (i + 3)),
  )

  payload_length : length (decode_frame bytes).payload ≡ read_u16 bytes 14
  unfolding decode_frame
  payload_length =
      omega (arith, length-take (read_u16 bytes 14) (drop 18 bytes), length-drop 18 bytes, a.size)

  magic_bytes : (byte_at bytes 0 ≡ 0x49) × (byte_at bytes 1 ≡ 0x4d)
  magic_bytes = begins_with-magic bytes a.starts

  size_bytes :
      bytes_of_u16 (length (decode_frame bytes).payload % 2 ^ 16)
      ≡ byte_at bytes 14 ∷ byte_at bytes 15 ∷ []
  size_bytes =
      let e : length (decode_frame bytes).payload % 2 ^ 16 ≡ read_u16 bytes 14 =
        omega (arith, payload_length, read_u16-lt bytes 14) in
      ap bytes_of_u16 e ∙ u16_field 14

  status_bytes :
      bytes_of_u16 (status_value (status_of_value (read_u16 bytes 16)))
      ≡ byte_at bytes 16 ∷ byte_at bytes 17 ∷ []
  status_bytes = ap bytes_of_u16 (status_value-status_of_value (read_u16 bytes 16)) ∙ u16_field 16

  -- The header that `encode` would write is the one that was read.
  layout-decode_frame : layout (decode_frame bytes) (drop 18 bytes) ≡ bytes
  unfolding decode_frame
  layout-decode_frame = cc (
    header_bytes bytes (omega (arith, a.size)),
    magic_bytes.0,
    magic_bytes.1,
    a.version,
    opcode_value-opcode_of_value (byte_at bytes 3),
    a.reserved,
    u32_field 6,
    u32_field 10,
    size_bytes,
    status_bytes,
  )

  split_tail :
      drop 18 bytes
      ≡ (decode_frame bytes).payload ++ bytes_of_u32 (read_u32 bytes (18 + read_u16 bytes 14))
  unfolding decode_frame
  split_tail =
      sym (take-append-drop (read_u16 bytes 14) (drop 18 bytes))
      ∙ ap (◌++◌ (take (read_u16 bytes 14) (drop 18 bytes))) (
          drop-drop 18 (read_u16 bytes 14) bytes
          ∙ drop_four (18 + read_u16 bytes 14) bytes a.size
          ∙ sym (u32_field (18 + read_u16 bytes 14)))

  bytes_split :
      bytes
      ≡ layout (decode_frame bytes) (decode_frame bytes).payload
        ++ bytes_of_u32 (read_u32 bytes (18 + read_u16 bytes 14))
  bytes_split = sym layout-decode_frame ∙ ap (layout (decode_frame bytes)) split_tail

  body :
      take (18 + read_u16 bytes 14) bytes ≡ layout (decode_frame bytes) (decode_frame bytes).payload
  body =
      ap (take (18 + read_u16 bytes 14)) bytes_split
      ∙ take-append_left (18 + read_u16 bytes 14)
          (layout (decode_frame bytes) (decode_frame bytes).payload)
          (bytes_of_u32 (read_u32 bytes (18 + read_u16 bytes 14))) (omega (arith, payload_length))

  encode_output-decode_frame : encode_output (decode_frame bytes) ≡ bytes
  encode_output-decode_frame =
      encode_output_lem (decode_frame bytes) ∙ rw (← body, a.checksum) (sym bytes_split)

  -- The last four bytes are the checksum of those before them.
  pub checksum_bytes :
      drop (18 + read_u16 bytes 14) bytes
      ≡ bytes_of_u32 (crc32 (take (18 + read_u16 bytes 14) bytes))
  checksum_bytes =
      drop_four (18 + read_u16 bytes 14) bytes a.size
      ∙ sym (u32_field (18 + read_u16 bytes 14))
      ∙ ap bytes_of_u32 (sym a.checksum)

  decode_frame-Encodable : Encodable (decode_frame bytes)
  decode_frame-Encodable = record {
    version = unfold decode_frame in refl;
    opcode = unfold decode_frame in a.opcode;
    ceiling = omega (arith, payload_length, a.ceiling);
    semantics = a.semantics;
  }

  decode_frame-IsFrame : IsFrame (decode_frame bytes)
  unfolding decode_frame
  decode_frame-IsFrame = record {
    flags = at_IsByte 4;
    request_id = field-IsU32 6;
    address = field-IsU32 10;
    status = status_of_value-IsStatus (read_u16 bytes 16) (read_u16-lt bytes 16);
    payload = All-take IsByte (read_u16 bytes 14) (drop 18 bytes) (All-drop IsByte 18 bytes valid);
  }

-- A string of bytes that `decode` accepts is the one that `encode` gives, without error, for the
-- decoded frame: no two strings of bytes decode to one frame.
pub encode-decode :
    (bytes : List ℕ) (f : Frame)
    → All IsByte bytes
    → accepted (decode bytes) ≡ Option.some f
    → encode f ≡ record { bytes = bytes; error = CodecError.none }
encode-decode bytes f valid h =
    let (a, e) = decode-Accepts bytes f h in
    rw e (
      Encodable-encode (decode_frame bytes) (decode_frame-Encodable bytes valid a)
      ∙ ap (λ (b : List ℕ). record { bytes = b; error = CodecError.none })
          (encode_output-decode_frame bytes valid a))

-- Every frame that `decode` accepts from a string of bytes is representable, has version 1, an
-- assigned opcode, at most 256 payload bytes and fields that agree with its opcode.
pub decode-IsFrame :
    (bytes : List ℕ) (f : Frame)
    → All IsByte bytes
    → accepted (decode bytes) ≡ Option.some f
    → IsFrame f × Encodable f
decode-IsFrame bytes f valid h =
    let (a, e) = decode-Accepts bytes f h in
    rw e (decode_frame-IsFrame bytes valid a, decode_frame-Encodable bytes valid a)
