-- ===== src/Codec/Names.antt =====
-- `codec_error_name`.
use Prim.Native.String.{String}
use industrial_memory_protoc.Types.{CodecError}

unfoldable pub codec_error_name : CodecError → String
codec_error_name CodecError.none = "none"
codec_error_name CodecError.truncated = "truncated"
codec_error_name CodecError.bad_magic = "bad_magic"
codec_error_name CodecError.unsupported_version = "unsupported_version"
codec_error_name CodecError.unsupported_opcode = "unsupported_opcode"
codec_error_name CodecError.unsupported_flags = "unsupported_flags"
codec_error_name CodecError.nonzero_reserved = "nonzero_reserved"
codec_error_name CodecError.payload_too_large = "payload_too_large"
codec_error_name CodecError.length_mismatch = "length_mismatch"
codec_error_name CodecError.checksum_mismatch = "checksum_mismatch"
codec_error_name CodecError.invalid_semantics = "invalid_semantics"
