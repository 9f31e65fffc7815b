-- ===== src/Tests/Texts.antt =====
-- Witnesses of the texts and of the fuzz target.
use industrial_memory_protoc.Prelude.{ℕ, ◌≡◌, ◌≤◌, ◌↔◌, [], ◌∷◌, some, arith, length}
use industrial_memory_protoc.Memory.{codes}
use industrial_memory_protoc.Codec.Hex.{bytes_to_hex, bytes_from_hex}
use industrial_memory_protoc.Codec.Hex.Texts.{
  Spells, bytes_from_hex_iff, bytes_from_hex-bytes_to_hex,
}
use industrial_memory_protoc.Fuzz.{fuzz_one_input, fuzz_one_input_total}
use industrial_memory_protoc.Tests.Samples.{sample_read_bytes}

bytes_from_hex_iff_example :
    (bytes_from_hex (codes "aF07") ≡ some (0xaf ∷ 0x07 ∷ []))
    ↔ (Spells (codes "aF07") (0xaf ∷ 0x07 ∷ []) × (length {A = ℕ} (0xaf ∷ 0x07 ∷ []) ≤ 278))
bytes_from_hex_iff_example = bytes_from_hex_iff (codes "aF07") (0xaf ∷ 0x07 ∷ [])

bytes_from_hex-bytes_to_hex_example :
    bytes_from_hex (bytes_to_hex (0xaf ∷ 0x07 ∷ [])) ≡ some (0xaf ∷ 0x07 ∷ [])
bytes_from_hex-bytes_to_hex_example =
    bytes_from_hex-bytes_to_hex (0xaf ∷ 0x07 ∷ []) (omega arith) (omega arith)

fuzz_one_input_total_example : fuzz_one_input sample_read_bytes ≡ some 0
fuzz_one_input_total_example = fuzz_one_input_total sample_read_bytes (omega arith)
