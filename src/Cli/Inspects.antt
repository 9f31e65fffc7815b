-- ===== src/Cli/Inspects.antt =====
-- What `run_inspect` and `run_encode_read` come to.
use mathlib.Core.Option.{Option}
use industrial_memory_protoc.Prelude.{
  ℕ, ◌≤◌, ◌≡◌, refl, sym, ap, subst, ◌∙◌, inl, inr, some, List, ◌++◌, length, arith, All,
  Option-cases, Bool-cases, true, false, ltb, ◌==◌, ◌||◌,
}
use industrial_memory_protoc.Prelude.Bits.{IsByte}
use industrial_memory_protoc.Types.{Frame, EncodeResult, accepted}
use industrial_memory_protoc.Memory.{codes}
use industrial_memory_protoc.Codec.Frames.{encode_output, decode}
use industrial_memory_protoc.Codec.Names.{codec_error_name}
use industrial_memory_protoc.Codec.RoundTrip.{
  IsFrame, Encodable, Encodable-encode, decode-encode_output,
}
use industrial_memory_protoc.Codec.Canonical.{encode-decode, decode-IsFrame}
use industrial_memory_protoc.Codec.Encoded.{All-encode_output, length-encode_output}
use industrial_memory_protoc.Codec.Hex.{bytes_to_hex, bytes_from_hex}
use industrial_memory_protoc.Codec.Hex.Texts.{
  Spells, bytes_from_hex_iff, bytes_from_hex-bytes, bytes_from_hex-bytes_to_hex,
}
use industrial_memory_protoc.Client.Executes.{read_request, read_request-Encodable}
use industrial_memory_protoc.Client.Loopback.Requests.{read_request-IsFrame}
use industrial_memory_protoc.Cli.Numbers.{parse_u32}
use industrial_memory_protoc.Cli.Commands.{
  Outcome, refused, printed, bad_range, print_frame, run_inspect, run_encode_read,
}
use industrial_memory_protoc.Cli.Reads.{parse_u32_bound}

-- All that a run of `run_inspect` comes to.
pub data InspectRun (text : List ℕ) (o : Outcome) : Type 0 where
  not_hex :
      ((bytes : List ℕ) → Spells text bytes → length bytes ≤ 278 → ⊥)
      → o ≡ refused 2 (codes "error=invalid_hex\n")
      → InspectRun text o
  rejected :
      (bytes : List ℕ)
      → Spells text bytes
      → length bytes ≤ 278
      → ((frame : Frame) → IsFrame frame → Encodable frame → encode_output frame ≡ bytes → ⊥)
      → o
        ≡ refused 3 (codes "error=" ++ codes (codec_error_name (decode bytes).error) ++ codes "\n")
      → InspectRun text o
  inspected :
      (frame : Frame)
      → IsFrame frame
      → Encodable frame
      → Spells text (encode_output frame)
      → o ≡ printed (print_frame frame)
      → InspectRun text o

accepted-encode_output :
    (frame : Frame)
    → IsFrame frame
    → Encodable frame
    → accepted (decode (encode_output frame)) ≡ Option.some frame
accepted-encode_output frame valid encodable = rw (decode-encode_output frame valid encodable) refl

encode_output-decode :
    (bytes : List ℕ) (frame : Frame)
    → All IsByte bytes
    → accepted (decode bytes) ≡ Option.some frame
    → encode_output frame ≡ bytes
encode_output-decode bytes frame valid e =
    let good = decode-IsFrame bytes frame valid e in
    ap (λ (r : EncodeResult). r.bytes)
      (sym (Encodable-encode frame good.1) ∙ encode-decode bytes frame valid e)

-- `run_inspect` prints an error and exits with 2 if its text does not spell at most 278 bytes; with 3
-- and the decoder's error if the bytes are not the encoding of a representable frame that `encode`
-- takes; and if they are, it prints that frame and exits with 0.
pub run_inspect-InspectRun : (text : List ℕ) → InspectRun text (run_inspect text)
unfolding run_inspect
run_inspect-InspectRun text = elim (Option-cases (bytes_from_hex text)) [
  | inl e ↦
      not_hex (λ bytes spelt fits. absurd (cc (e, (bytes_from_hex_iff text bytes).1 (spelt, fits))))
        (rw (e, run_inspect) refl)
  | inr (bytes, e) ↦
      let valid = bytes_from_hex-bytes text bytes e in
      let (spelt, fits) = (bytes_from_hex_iff text bytes).0 e in
      elim (Option-cases (accepted (decode bytes))) [
        | inl f ↦
            rejected bytes spelt fits
              (λ frame good encodable same.
                let found = accepted-encode_output frame good encodable in
                absurd (cc (f, rw same at found)))
              (rw (e, run_inspect, f) refl)
        | inr (frame, f) ↦
            let good = decode-IsFrame bytes frame valid f in
            inspected frame good.0 good.1
              (subst (Spells text) (sym (encode_output-decode bytes frame valid f)) spelt)
              (rw (e, run_inspect, f) refl)
      ]
]

-- What `encode` makes of a representable frame, printed in hexadecimal, is inspected as that frame.
pub run_inspect-bytes_to_hex :
    (frame : Frame)
    → IsFrame frame
    → Encodable frame
    → run_inspect (bytes_to_hex (encode_output frame)) ≡ printed (print_frame frame)
unfolding run_inspect
run_inspect-bytes_to_hex frame valid encodable =
    let size : length (encode_output frame) ≤ 278 =
      omega (arith, length-encode_output frame, encodable.ceiling) in
    rw
      (
        bytes_from_hex-bytes_to_hex (encode_output frame) (All-encode_output frame valid encodable)
            size,
        run_inspect,
        accepted-encode_output frame valid encodable,
      )
      refl

-- All that a run of `run_encode_read` comes to.
pub data EncodeRun (address_text length_text : List ℕ) (o : Outcome) : Type 0 where
  bad_arguments :
      ((address len : ℕ)
        → parse_u32 address_text ≡ some address
        → parse_u32 length_text ≡ some len
        → 1 ≤ len
        → len ≤ 256
        → ⊥)
      → o ≡ bad_range
      → EncodeRun address_text length_text o
  vector :
      (address len : ℕ)
      → parse_u32 address_text ≡ some address
      → parse_u32 length_text ≡ some len
      → 1 ≤ len
      → len ≤ 256
      → (text : List ℕ) → o ≡ printed (text ++ codes "\n")
      → run_inspect text ≡ printed (print_frame (read_request 1 address len))
      → EncodeRun address_text length_text o

is_bad_length_iff :
    (len : ℕ)
    → (((len == 0 || ltb 256 len) ≡ true) → 1 ≤ len → len ≤ 256 → ⊥)
      × (((len == 0 || ltb 256 len) ≡ false) → (1 ≤ len) × (len ≤ 256))
is_bad_length_iff len = ground arith

-- `run_encode_read` prints an error and exits with 2 unless its texts are numbers of 32 bits and the
-- second is of 1 to 256; if they are, it exits with 0 and prints one line, which `run_inspect` accepts
-- as the request, with identifier 1, to read so many bytes at that address.
pub run_encode_read-EncodeRun :
    (address_text length_text : List ℕ)
    → EncodeRun address_text length_text (run_encode_read address_text length_text)
unfolding run_encode_read
run_encode_read-EncodeRun address_text length_text = elim (Option-cases (parse_u32 address_text)) [
  | inl e ↦
      bad_arguments (λ address len pa pl low high. absurd (cc (e, pa)))
        (rw (e, run_encode_read) refl)
  | inr (address, e) ↦ elim (Option-cases (parse_u32 length_text)) [
    | inl f ↦
        bad_arguments (λ address len pa pl low high. absurd (cc (f, pl)))
          (rw (e, run_encode_read, f) refl)
    | inr (len, f) ↦ elim (Bool-cases (len == 0 || ltb 256 len)) [
      | inl g ↦
          bad_arguments
            (λ a l pa pl low high.
              let same : l ≡ len = cc (f, pl) in
              (is_bad_length_iff len).0 g (rw same at low) (rw same at high))
            (rw (e, run_encode_read, f, g) refl)
      | inr g ↦
          let (low, high) = (is_bad_length_iff len).1 g in
          let request = read_request 1 address len in
          let encodable = read_request-Encodable 1 address len in
          vector address len e f low high (bytes_to_hex (encode_output request))
            (rw (e, run_encode_read, f, g, Encodable-encode request encodable) refl)
            (run_inspect-bytes_to_hex request
              (read_request-IsFrame 1 address len (omega arith)
                (parse_u32_bound address_text address e))
              encodable)
    ]
  ]
]
