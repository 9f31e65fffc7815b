-- ===== src/Codec/RoundTrip.antt =====
-- `decode` reads back what `encode` wrote.
use mathlib.Core.Option.{Option}
use native.Mathlib.Nat.{add-zero}
use industrial_memory_protoc.Prelude.{
  ℕ, ◌+◌, ◌/◌, ◌%◌, ◌^◌, ◌≤◌, ◌<◌, ◌≡◌, refl, sym, ap, ◌∙◌, true, List, ◌∷◌, ◌++◌, arith, length,
  take, drop, All, length-append, take-append_left, drop-append_left, get_or-drop, bit_and,
}
use industrial_memory_protoc.Prelude.Bits.{IsByte, IsU32}
use industrial_memory_protoc.Types.{
  Opcode, opcode_value, opcode_of_value, Status, status_value, status_of_value, Frame, CodecError,
  EncodeResult, is_encoded,
}
use industrial_memory_protoc.Codec.Words.{
  byte_at, read_u16, read_u32, bytes_of_u16, bytes_of_u32, append_u16_lem, append_u32_lem,
  read_u16-bytes_of_u16, read_u32-bytes_of_u32,
}
use industrial_memory_protoc.Codec.Crc.{crc32, crc32-lt}
use industrial_memory_protoc.Codec.Frames.{
  is_supported_opcode, has_valid_semantics, encode_body, encode_output, encode, decode,
  decode_frame,
}
use industrial_memory_protoc.Codec.Accepts.{Accepts, Accepts-decode}

-- The values that a cast to `Status` can give, each in its one form.
abbrev pub IsStatus : Status → Type 0
IsStatus (Status.unassigned n) = (5 < n) × (n < 2 ^ 16)
IsStatus _ = Unit

-- The fields hold values of their C++ types.
pub record IsFrame (f : Frame) : Type 0 where
  pub flags : IsByte f.flags
  pub request_id : IsU32 f.request_id
  pub address : IsU32 f.address
  pub status : IsStatus f.status
  pub payload : All IsByte f.payload

-- What `encode` checks.
pub record Encodable (f : Frame) : Type 0 where
  pub version : f.version ≡ 1
  pub opcode : is_supported_opcode f.opcode ≡ true
  pub ceiling : length f.payload ≤ 256
  pub semantics : has_valid_semantics f ≡ true

abbrev pub encoded : Frame → EncodeResult
encoded f = record { bytes = encode_output f; error = CodecError.none }

pub Encodable-encode : (f : Frame) → Encodable f → encode f ≡ encoded f
unfolding encode
Encodable-encode f e = ground arith

pub encode-Encodable : (f : Frame) → is_encoded (encode f) ≡ true → Encodable f
unfolding encode
encode-Encodable f h = ground arith

-- The eighteen bytes of the header in front of `rest`.
abbrev pub layout : Frame → List ℕ → List ℕ
layout f rest =
    0x49
    ∷ 0x4d
    ∷ f.version
    ∷ opcode_value f.opcode
    ∷ f.flags
    ∷ 0
    ∷ (bytes_of_u32 f.request_id
        ++ (bytes_of_u32 f.address
            ++ (bytes_of_u16 (length f.payload % 2 ^ 16)
                ++ (bytes_of_u16 (status_value f.status) ++ rest))))

pub encode_body_lem : (f : Frame) → encode_body f ≡ layout f f.payload
unfolding encode_body
encode_body_lem f = rw (append_u32_lem, append_u32_lem, append_u16_lem, append_u16_lem) refl

pub encode_output_lem :
    (f : Frame)
    → encode_output f ≡ layout f (f.payload ++ bytes_of_u32 (crc32 (layout f f.payload)))
unfolding encode_output
encode_output_lem f =
    append_u32_lem (encode_body f) (crc32 (encode_body f)) ∙ rw (encode_body_lem f) refl

opcode_of_value-opcode_value :
    (o : Opcode) → is_supported_opcode o ≡ true → opcode_of_value (opcode_value o) ≡ o
opcode_of_value-opcode_value Opcode.read_request h = refl
opcode_of_value-opcode_value (Opcode.unassigned n) h = cc
opcode_of_value-opcode_value _ h = refl

status_of_value-status_value : (s : Status) → IsStatus s → status_of_value (status_value s) ≡ s
status_of_value-status_value (Status.unassigned n) h = ground arith
status_of_value-status_value _ h = refl

status_value-lt : (s : Status) → IsStatus s → status_value s < 2 ^ 16
status_value-lt (Status.unassigned n) h = h.1
status_value-lt _ h = omega arith

valid_flags : (f : Frame) → has_valid_semantics f ≡ true → bit_and f.flags 254 ≡ 0
unfolding has_valid_semantics
valid_flags f h = ground arith

length-layout : (f : Frame) (rest : List ℕ) → length (layout f rest) ≡ 18 + length rest
length-layout f rest = omega arith

byte_at-skip :
    (front back : List ℕ) (n i : ℕ)
    → length front ≡ n
    → byte_at (front ++ back) (n + i) ≡ byte_at back i
byte_at-skip front back n i e =
    sym (get_or-drop n i (front ++ back) 0) ∙ rw (drop-append_left n front back e) refl

module _ (f : Frame) (v : IsFrame f) (e : Encodable f) where
  output : List ℕ
  output = layout f (f.payload ++ bytes_of_u32 (crc32 (layout f f.payload)))

  size_field : read_u16 output 14 ≡ length f.payload
  unfolding output
  size_field =
      read_u16-bytes_of_u16 (length f.payload % 2 ^ 16) output 14 (omega arith) refl refl
      ∙ omega (arith, e.ceiling)

  status_field : read_u16 output 16 ≡ status_value f.status
  unfolding output
  status_field =
      read_u16-bytes_of_u16 (status_value f.status) output 16 (status_value-lt f.status v.status)
        refl refl

  payload_field : take (read_u16 output 14) (drop 18 output) ≡ f.payload
  unfolding output
  payload_field = rw size_field (take-append_left (length f.payload) f.payload _ refl)

  output-frame : decode_frame output ≡ f
  unfolding decode_frame output
  output-frame = ground (
    arith,
    e.version,
    opcode_of_value-opcode_value f.opcode e.opcode,
    read_u32-bytes_of_u32 f.request_id output 6 v.request_id refl refl refl refl,
    read_u32-bytes_of_u32 f.address output 10 v.address refl refl refl refl,
    status_field,
    status_of_value-status_value f.status v.status,
    payload_field,
  )

  body_front : take (18 + length f.payload) output ≡ layout f f.payload
  unfolding output
  body_front =
      take-append_left (18 + length f.payload) (layout f f.payload)
        (bytes_of_u32 (crc32 (layout f f.payload))) (length-layout f f.payload)

  crc_byte_at :
      (i : ℕ)
      → byte_at output (18 + length f.payload + i)
        ≡ byte_at (bytes_of_u32 (crc32 (layout f f.payload))) i
  unfolding output
  crc_byte_at i =
      byte_at-skip (layout f f.payload) (bytes_of_u32 (crc32 (layout f f.payload)))
        (18 + length f.payload) i (length-layout f f.payload)

  crc_first : byte_at output (18 + length f.payload) ≡ crc32 (layout f f.payload) / 2 ^ 24 % 256
  crc_first = ap (byte_at output) (sym (add-zero (18 + length f.payload))) ∙ crc_byte_at 0

  crc_field : read_u32 output (18 + length f.payload) ≡ crc32 (layout f f.payload)
  crc_field =
      read_u32-bytes_of_u32 (crc32 (layout f f.payload)) output (18 + length f.payload)
        (crc32-lt (layout f f.payload)) crc_first (crc_byte_at 1) (crc_byte_at 2) (crc_byte_at 3)

  output-Accepts : Accepts output
  output-Accepts = record {
    starts = unfold output in refl;
    version = unfold output in e.version;
    opcode = unfold output in rw (opcode_of_value-opcode_value f.opcode e.opcode) e.opcode;
    flags = unfold output in valid_flags f e.semantics;
    reserved = unfold output in refl;
    ceiling = rw size_field e.ceiling;
    size = rw size_field (
        unfold output in
        omega (arith, length-append f.payload (bytes_of_u32 (crc32 (layout f f.payload)))));
    checksum = rw (size_field, body_front) (sym crc_field);
    semantics = rw output-frame e.semantics;
  }

  -- On the wire frame that `encode` makes of a representable frame, `decode` answers that frame
  -- and consumes every byte.
  decode-output :
      decode output
      ≡ record { frame = Option.some f; error = CodecError.none; consumed = length output }
  decode-output =
      Accepts-decode output output-Accepts
      ∙ ap
          (λ g. record { frame = Option.some g; error = CodecError.none; consumed = length output })
          output-frame

pub decode-encode_output :
    (f : Frame)
    → IsFrame f
    → Encodable f
    → decode (encode_output f) ≡ record {
      frame = Option.some f;
      error = CodecError.none;
      consumed = length (encode_output f);
    }
decode-encode_output f v e = rw (encode_output_lem f) (unfold output in decode-output f v e)

-- Whatever `encode` accepts among representable frames, `decode` reads back as that very frame,
-- without error, and it consumes all the bytes.
pub decode-encode :
    (f : Frame)
    → IsFrame f
    → is_encoded (encode f) ≡ true
    → decode (encode f).bytes ≡ record {
      frame = Option.some f;
      error = CodecError.none;
      consumed = length (encode f).bytes;
    }
decode-encode f v h =
    rw (Encodable-encode f (encode-Encodable f h)) (decode-encode_output f v (encode-Encodable f h))
