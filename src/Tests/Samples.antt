-- ===== src/Tests/Samples.antt =====
-- Frames and servers for the tests: the test vector of docs/protocol-spec.md among them.
use mathlib.Core.Option.{Option}
use industrial_memory_protoc.Prelude.{ℕ, ◌≡◌, refl, true, List, [], ◌∷◌}
use industrial_memory_protoc.Types.{
  Opcode, Status, Frame, CodecError, protocol_version, accepted, is_encoded,
}
use industrial_memory_protoc.Codec.Words.{append_u16, append_u32, read_u16, read_u32}
use industrial_memory_protoc.Codec.Crc.{crc32}
use industrial_memory_protoc.Codec.Frames.{
  encode, encode_output, decode, decode_frame, has_valid_semantics,
}
use industrial_memory_protoc.Server.{MemoryServer, default_policy, make_memory_server}

-- Four bytes at 0x100, request 1.
abbrev pub sample_read : Frame
sample_read = record {
  version = protocol_version;
  opcode = Opcode.read_request;
  flags = 0;
  request_id = 1;
  address = 0x100;
  status = Status.ok;
  payload = 0 ∷ 4 ∷ [];
}

abbrev pub sample_read_bytes : List ℕ
sample_read_bytes =
    0x49 ∷ 0x4d ∷ 0x01 ∷ 0x01 ∷ 0x00 ∷ 0x00 ∷ 0x00 ∷ 0x00 ∷ 0x00 ∷ 0x01 ∷ 0x00 ∷ 0x00 ∷ 0x01 ∷ 0x00
    ∷ 0x00 ∷ 0x02 ∷ 0x00 ∷ 0x00 ∷ 0x00 ∷ 0x04 ∷ 0xa0 ∷ 0xcf ∷ 0x9f ∷ 0xfd ∷ []

-- Two bytes to 0x100, request 7.
abbrev pub sample_write : Frame
sample_write = record {
  version = protocol_version;
  opcode = Opcode.write_request;
  flags = 0;
  request_id = 7;
  address = 0x100;
  status = Status.ok;
  payload = 0xaa ∷ 0x55 ∷ [];
}

abbrev pub writable : MemoryServer
writable = make_memory_server (record default_policy { writes_enabled = true })

-- The published vector.
pub sample_read_encodes :
    encode sample_read ≡ record { bytes = sample_read_bytes; error = CodecError.none }
unfolding encode encode_output append_u16 append_u32 crc32 has_valid_semantics
sample_read_encodes = refl

pub sample_read-accepted : accepted (decode sample_read_bytes) ≡ Option.some sample_read
unfolding decode decode_frame read_u16 read_u32 crc32 has_valid_semantics
sample_read-accepted = refl

pub sample_write_encodes : is_encoded (encode sample_write) ≡ true
unfolding encode has_valid_semantics
sample_write_encodes = refl
