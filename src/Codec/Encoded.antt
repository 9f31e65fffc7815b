-- ===== src/Codec/Encoded.antt =====
-- What `encode` puts out is a string of bytes.
use industrial_memory_protoc.Prelude.{
  length-append, ap, ◌∙◌, ◌+◌, ℕ, ◌%◌, ◌^◌, ◌<◌, ◌≡◌, true, List, ◌++◌, arith, length, All,
  All-append,
}
use industrial_memory_protoc.Prelude.Bits.{IsByte}
use industrial_memory_protoc.Types.{Opcode, opcode_value, status_value, Frame}
use industrial_memory_protoc.Codec.Words.{bytes_of_u16, bytes_of_u32}
use industrial_memory_protoc.Codec.Crc.{crc32}
use industrial_memory_protoc.Codec.Frames.{is_supported_opcode, encode_output}
use industrial_memory_protoc.Codec.RoundTrip.{IsFrame, Encodable, layout, encode_output_lem}

opcode_value-lt : (o : Opcode) → is_supported_opcode o ≡ true → opcode_value o < 256
opcode_value-lt (Opcode.unassigned n) h = cc
opcode_value-lt _ h = omega arith

u16 : (v : ℕ) → All IsByte (bytes_of_u16 v)
u16 v = omega arith

u32 : (v : ℕ) → All IsByte (bytes_of_u32 v)
u32 v = omega arith

All-layout :
    (f : Frame) (rest : List ℕ)
    → IsFrame f
    → Encodable f
    → All IsByte rest
    → All IsByte (layout f rest)
All-layout f rest v e h =
    let size = length f.payload % 2 ^ 16 in
    let state = status_value f.status in
    let tail =
      All-append IsByte (bytes_of_u32 f.request_id)
        (bytes_of_u32 f.address ++ (bytes_of_u16 size ++ (bytes_of_u16 state ++ rest)))
        (u32 f.request_id)
        (All-append IsByte (bytes_of_u32 f.address)
          (bytes_of_u16 size ++ (bytes_of_u16 state ++ rest)) (u32 f.address)
          (All-append IsByte (bytes_of_u16 size) (bytes_of_u16 state ++ rest) (u16 size)
            (All-append IsByte (bytes_of_u16 state) rest (u16 state) h))) in
    let version : f.version < 256 = omega (arith, e.version) in
    (
      omega arith,
      (omega arith, (version, (opcode_value-lt f.opcode e.opcode, (v.flags, (omega arith, tail))))),
    )

pub All-encode_output : (f : Frame) → IsFrame f → Encodable f → All IsByte (encode_output f)
All-encode_output f v e =
    let sum = crc32 (layout f f.payload) in
    rw (encode_output_lem f) (
      All-layout f (f.payload ++ bytes_of_u32 sum) v e
        (All-append IsByte f.payload (bytes_of_u32 sum) v.payload (u32 sum)))

pub length-encode_output : (f : Frame) → length (encode_output f) ≡ 22 + length f.payload
length-encode_output f =
    ap length (encode_output_lem f)
    ∙ omega (arith, length-append f.payload (bytes_of_u32 (crc32 (layout f f.payload))))
