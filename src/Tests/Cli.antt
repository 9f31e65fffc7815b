-- ===== src/Tests/Cli.antt =====
-- Runs of the command line, and the witnesses of its theorems.
use industrial_memory_protoc.Prelude.{refl, ◌≡◌, ◌^◌, ◌<◌, ◌↔◌, some, ℕ, List, [], ◌∷◌, arith}
use industrial_memory_protoc.Memory.{codes}
use industrial_memory_protoc.Codec.Words.{read_u16, read_u32}
use industrial_memory_protoc.Codec.Crc.{crc32}
use industrial_memory_protoc.Codec.Frames.{encode_output, decode, decode_frame, has_valid_semantics}
use industrial_memory_protoc.Codec.Names.{codec_error_name}
use industrial_memory_protoc.Codec.RoundTrip.{IsFrame, Encodable}
use industrial_memory_protoc.Codec.Hex.{hex_nibble, bytes_to_hex, bytes_from_hex}
use industrial_memory_protoc.Cli.Numbers.{parse_u32, decimal, hexadecimal}
use industrial_memory_protoc.Cli.Numbers.Parse.{Denotes, parse_u32_iff}
use industrial_memory_protoc.Cli.Printing.{status_name}
use industrial_memory_protoc.Cli.Commands.{
  Outcome, usage, printed, print_frame, run_inspect, run_encode_read, run_read, run_write, main,
}
use industrial_memory_protoc.Cli.Reads.{ReadRun, run_read-ReadRun}
use industrial_memory_protoc.Cli.Writes.{WriteRun, run_write-WriteRun}
use industrial_memory_protoc.Cli.Inspects.{
  InspectRun, EncodeRun, run_inspect-InspectRun, run_inspect-bytes_to_hex,
  run_encode_read-EncodeRun,
}
use industrial_memory_protoc.Cli.Dispatch.{Command, main_iff}
use industrial_memory_protoc.Tests.Samples.{sample_read}

-- The published vector, as docs/cli.md shows it.
abbrev vector : List ℕ
vector = codes "494d010100000000000100000100000200000004a0cf9ffd"

inspect_vector :
    main (codes "inspect" ∷ vector ∷ [])
    ≡ printed
        (codes "version=1 opcode=0x1 flags=0 request_id=1 address=256 status=ok payload=0004\n")
unfolding main run_inspect bytes_from_hex hex_nibble decode decode_frame read_u16 read_u32 crc32
    has_valid_semantics print_frame status_name bytes_to_hex decimal hexadecimal
inspect_vector = refl

-- The last digit changed.
inspect_damaged :
    (run_inspect (codes "494d010100000000000100000100000200000004a0cf9ffc")).errors
    ≡ codes "error=checksum_mismatch\n"
unfolding run_inspect bytes_from_hex hex_nibble decode decode_frame read_u16 read_u32 crc32
    has_valid_semantics codec_error_name
inspect_damaged = refl

-- docs/cli.md: a write without its third argument.
write_unconfirmed : (main (codes "write" ∷ codes "0x100" ∷ codes "deadbeef" ∷ [])).status ≡ 1
unfolding main
write_unconfirmed = refl

parse_u32_iff_example :
    (parse_u32 (codes "0x7Ff") ≡ some 2047) ↔ (Denotes (codes "0x7Ff") 2047 × (2047 < 2 ^ 32))
parse_u32_iff_example = parse_u32_iff (codes "0x7Ff") 2047

run_read-ReadRun_example : ReadRun (codes "0") (codes "16") (run_read (codes "0") (codes "16"))
run_read-ReadRun_example = run_read-ReadRun (codes "0") (codes "16")

run_write-WriteRun_example :
    WriteRun
      (codes "0x100")
      (codes "deadbeef")
      (codes "--allow-writes")
      (run_write (codes "0x100") (codes "deadbeef") (codes "--allow-writes"))
run_write-WriteRun_example =
    run_write-WriteRun (codes "0x100") (codes "deadbeef") (codes "--allow-writes")

run_inspect-InspectRun_example : InspectRun vector (run_inspect vector)
run_inspect-InspectRun_example = run_inspect-InspectRun vector

run_encode_read-EncodeRun_example :
    EncodeRun (codes "0x100") (codes "4") (run_encode_read (codes "0x100") (codes "4"))
run_encode_read-EncodeRun_example = run_encode_read-EncodeRun (codes "0x100") (codes "4")

sample_read-IsFrame : IsFrame sample_read
sample_read-IsFrame = record {
  flags = omega arith;
  request_id = omega arith;
  address = omega arith;
  status = tt;
  payload = omega arith;
}

sample_read-Encodable : Encodable sample_read
unfolding has_valid_semantics
sample_read-Encodable = record {
  version = refl;
  opcode = refl;
  ceiling = omega arith;
  semantics = refl;
}

run_inspect-bytes_to_hex_example :
    run_inspect (bytes_to_hex (encode_output sample_read)) ≡ printed (print_frame sample_read)
run_inspect-bytes_to_hex_example =
    run_inspect-bytes_to_hex sample_read sample_read-IsFrame sample_read-Encodable

main_iff_example :
    let arguments = codes "write" ∷ codes "0x100" ∷ codes "deadbeef" ∷ [] in
    ((o : Outcome) → Command arguments o → main arguments ≡ o)
    × (((main arguments).status ≡ 1) ↔ ((o : Outcome) → Command arguments o → ⊥))
    × (((o : Outcome) → Command arguments o → ⊥) → main arguments ≡ usage)
main_iff_example = main_iff (codes "write" ∷ codes "0x100" ∷ codes "deadbeef" ∷ [])
