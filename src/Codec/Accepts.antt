-- ===== src/Codec/Accepts.antt =====
-- When `decode` accepts: the checks as a record, and acceptance as their conjunction.
use mathlib.Core.Option.{Option}
use industrial_memory_protoc.Prelude.{
  ℕ, ◌+◌, ◌-◌, ◌≤◌, ◌≡◌, true, List, arith, length, take, bit_and,
}
use industrial_memory_protoc.Types.{
  magic, Frame, DecodeResult, CodecError, opcode_of_value, accepted,
}
use industrial_memory_protoc.Codec.Words.{byte_at, read_u16, read_u32}
use industrial_memory_protoc.Codec.Crc.{crc32}
use industrial_memory_protoc.Codec.Frames.{
  is_supported_opcode, has_valid_semantics, begins_with, expected_size, decode, decode_frame,
}

-- The byte layout, field by field, as the decoder checks it.
pub record Accepts (bytes : List ℕ) : Type 0 where
  pub starts : begins_with magic bytes ≡ true
  pub version : byte_at bytes 2 ≡ 1
  pub opcode : is_supported_opcode (opcode_of_value (byte_at bytes 3)) ≡ true
  pub flags : bit_and (byte_at bytes 4) 0xfe ≡ 0
  pub reserved : byte_at bytes 5 ≡ 0
  pub ceiling : read_u16 bytes 14 ≤ 256
  pub size : length bytes ≡ 18 + read_u16 bytes 14 + 4
  pub checksum :
      crc32 (take (18 + read_u16 bytes 14) bytes) ≡ read_u32 bytes (18 + read_u16 bytes 14)
  pub semantics : has_valid_semantics (decode_frame bytes) ≡ true

abbrev pub decoded : List ℕ → DecodeResult
decoded bytes = record {
  frame = Option.some (decode_frame bytes);
  error = CodecError.none;
  consumed = length bytes;
}

pub body_size : (bytes : List ℕ) → expected_size bytes - 4 ≡ 18 + read_u16 bytes 14
body_size bytes = omega arith

pub Accepts-decode : (bytes : List ℕ) → Accepts bytes → decode bytes ≡ decoded bytes
unfolding decode
Accepts-decode bytes a = ground (arith, body_size bytes)

pub decode-Accepts :
    (bytes : List ℕ) (f : Frame)
    → accepted (decode bytes) ≡ Option.some f
    → Accepts bytes × (f ≡ decode_frame bytes)
unfolding decode
decode-Accepts bytes f h = ground (arith, body_size bytes)
