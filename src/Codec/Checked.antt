-- ===== src/Codec/Checked.antt =====
-- `decode` with every access to the span checked: `none` where the source would read past its end.
pub mod Bounds
use mathlib.Core.Option.{Option}
use industrial_memory_protoc.Prelude.{
  ℕ, zero, suc, ◌+◌, ◌-◌, ◌%◌, ◌^◌, Bool, true, false, not, none, some, List, [], ◌∷◌, ltb, leb,
  ◌==◌, if◌then◌else◌, length, take, drop, bit_and, bit_or,
}
use industrial_memory_protoc.Types.{
  magic, protocol_version, response_flag, header_size, checksum_size, maximum_payload_size, Opcode,
  opcode_of_value, status_of_value, CodecError, Frame, DecodeResult,
}
use industrial_memory_protoc.Codec.Words.{◌<<<◌}
use industrial_memory_protoc.Codec.Crc.{crc32}
use industrial_memory_protoc.Codec.Frames.{
  is_supported_opcode, has_valid_semantics, decoding_failed, begins_with, complement8,
}

infixl 5 ◌>>=◌
abbrev pub ◌>>=◌ {ℓ κ} : {A : Type ℓ} {B : Type κ} → Option A → (A → Option B) → Option B
none >>= f = none
some a >>= f = f a

-- `bytes[offset]`.
unfoldable pub checked_byte : List ℕ → ℕ → Option ℕ
checked_byte [] offset = none
checked_byte (b ∷ bytes) zero = some b
checked_byte (b ∷ bytes) (suc offset) = checked_byte bytes offset

-- The bytes from `offset` on, as many as `count`.
unfoldable pub checked_range : List ℕ → ℕ → ℕ → Option (List ℕ)
checked_range bytes offset count =
    if leb (offset + count) (length bytes) then some (take count (drop offset bytes)) else none

unfoldable pub checked_u16 : List ℕ → ℕ → Option ℕ
checked_u16 bytes offset = do
  high ← checked_byte bytes offset
  low ← checked_byte bytes (offset + 1)
  some (bit_or (high <<< 8) low % 2 ^ 16)

unfoldable pub checked_u32 : List ℕ → ℕ → Option ℕ
checked_u32 bytes offset = do
  first ← checked_byte bytes offset
  second ← checked_byte bytes (offset + 1)
  third ← checked_byte bytes (offset + 2)
  fourth ← checked_byte bytes (offset + 3)
  some (bit_or (bit_or (bit_or (first <<< 24) (second <<< 16)) (third <<< 8)) fourth)

unfoldable pub checked_frame : List ℕ → Opcode → ℕ → ℕ → Option Frame
checked_frame bytes opcode flags payload_size = do
  request_id ← checked_u32 bytes 6
  address ← checked_u32 bytes 10
  status ← checked_u16 bytes 16
  payload ← checked_range bytes header_size payload_size
  some (record {
    version = protocol_version;
    opcode = opcode;
    flags = flags;
    request_id = request_id;
    address = address;
    status = status_of_value status;
    payload = payload;
  })

-- From the checksum on.
unfoldable pub checked_tail : List ℕ → Opcode → ℕ → ℕ → ℕ → Option DecodeResult
checked_tail bytes opcode flags payload_size size = do
  expected_crc ← checked_u32 bytes (size - checksum_size)
  body ← checked_range bytes 0 (size - checksum_size)
  if not (crc32 body == expected_crc)
      then some (decoding_failed CodecError.checksum_mismatch size)
      else do
        frame ← checked_frame bytes opcode flags payload_size
        some (
            if not (has_valid_semantics frame)
            then decoding_failed CodecError.invalid_semantics size
            else record { frame = some frame; error = CodecError.none; consumed = size })

-- From the length field on.
unfoldable pub checked_sizes : List ℕ → Opcode → ℕ → Option DecodeResult
checked_sizes bytes opcode flags = do
  payload_size ← checked_u16 bytes 14
  let size = header_size + payload_size + checksum_size
  if ltb maximum_payload_size payload_size
      then some (decoding_failed CodecError.payload_too_large 0)
      else if ltb (length bytes) size
      then some (decoding_failed CodecError.truncated 0)
      else if not (length bytes == size)
      then some (decoding_failed CodecError.length_mismatch size)
      else checked_tail bytes opcode flags payload_size size

-- From the opcode on.
unfoldable pub checked_kind : List ℕ → Option DecodeResult
checked_kind bytes = do
  code ← checked_byte bytes 3
  let opcode = opcode_of_value code
  if not (is_supported_opcode opcode)
      then some (decoding_failed CodecError.unsupported_opcode 0)
      else do
        flags ← checked_byte bytes 4
        if not (bit_and flags (complement8 response_flag) == 0)
            then some (decoding_failed CodecError.unsupported_flags 0)
            else do
              reserved ← checked_byte bytes 5
              if not (reserved == 0)
                  then some (decoding_failed CodecError.nonzero_reserved 0)
                  else checked_sizes bytes opcode flags

unfoldable pub checked_decode : List ℕ → Option DecodeResult
checked_decode bytes =
    if ltb (length bytes) header_size then some (decoding_failed CodecError.truncated 0) else do
      start ← checked_range bytes 0 2
      if not (begins_with magic start) then some (decoding_failed CodecError.bad_magic 0) else do
        version ← checked_byte bytes 2
        if not (version == protocol_version)
            then some (decoding_failed CodecError.unsupported_version 0)
            else checked_kind bytes
