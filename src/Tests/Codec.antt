-- ===== src/Tests/Codec.antt =====
-- Witnesses and runs of the codec.
use mathlib.Core.Option.{Option}
use industrial_memory_protoc.Prelude.{some, ◌≡◌, refl, [], ◌∷◌, arith, length}
use industrial_memory_protoc.Types.{CodecError, accepted}
use industrial_memory_protoc.Codec.Frames.{encode, decode}
use industrial_memory_protoc.Codec.RoundTrip.{IsFrame, Encodable, decode-encode}
use industrial_memory_protoc.Codec.Canonical.{encode-decode, decode-IsFrame}
use industrial_memory_protoc.Codec.Corruption.{decode_burst}
use industrial_memory_protoc.Codec.Checked.{checked_decode}
use industrial_memory_protoc.Codec.Checked.Bounds.{checked_decode_lem}
use industrial_memory_protoc.Tests.Samples.{
  sample_read, sample_read_bytes, sample_write, sample_read-accepted, sample_write_encodes,
}

decode-encode_example : decode (encode sample_write).bytes ≡ record {
  frame = Option.some sample_write;
  error = CodecError.none;
  consumed = length (encode sample_write).bytes;
}
decode-encode_example = decode-encode sample_write (omega arith) sample_write_encodes

encode-decode_example :
    encode sample_read ≡ record { bytes = sample_read_bytes; error = CodecError.none }
encode-decode_example =
    encode-decode sample_read_bytes sample_read (omega arith) sample_read-accepted

decode-IsFrame_example : IsFrame sample_read × Encodable sample_read
decode-IsFrame_example =
    decode-IsFrame sample_read_bytes sample_read (omega arith) sample_read-accepted

-- The low half of the request identifier is changed from 1 to 2.
decode_burst_example :
    accepted (
      decode (
        0x49 ∷ 0x4d ∷ 0x01 ∷ 0x01 ∷ 0x00 ∷ 0x00 ∷ 0x00 ∷ 0x00 ∷ 0x00 ∷ 0x02 ∷ 0x00 ∷ 0x00 ∷ 0x01
        ∷ 0x00 ∷ 0x00 ∷ 0x02 ∷ 0x00 ∷ 0x00 ∷ 0x00 ∷ 0x04 ∷ 0xa0 ∷ 0xcf ∷ 0x9f ∷ 0xfd ∷ []))
    ≡ Option.none
decode_burst_example =
    decode_burst (0x49 ∷ 0x4d ∷ 0x01 ∷ 0x01 ∷ 0x00 ∷ 0x00 ∷ 0x00 ∷ 0x00 ∷ []) (0x00 ∷ 0x01 ∷ [])
      (0x00 ∷ 0x02 ∷ [])
      (0x00 ∷ 0x00 ∷ 0x01 ∷ 0x00 ∷ 0x00 ∷ 0x02 ∷ 0x00 ∷ 0x00 ∷ 0x00 ∷ 0x04 ∷ 0xa0 ∷ 0xcf ∷ 0x9f
        ∷ 0xfd ∷ [])
      sample_read (omega arith) (omega arith) refl (omega arith) (omega arith) sample_read-accepted
      (grind arith)

checked_decode_lem_example : checked_decode sample_read_bytes ≡ some (decode sample_read_bytes)
checked_decode_lem_example = checked_decode_lem sample_read_bytes
