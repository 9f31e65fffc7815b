-- ===== src/Fuzz.antt =====
-- fuzz/codec_fuzzer.cpp: the body of the fuzz target.
use mathlib.Core.Option.{Option}
use industrial_memory_protoc.Prelude.{
  bytes_eq, bytes_eq_refl, ℕ, ◌*◌, ◌≡◌, refl, Bool, true, false, not, ◌&&◌, none, some, List, ltb,
  ◌==◌, if◌then◌else◌, length, All, arith, Option-cases, inl, inr,
}
use industrial_memory_protoc.Prelude.Bits.{IsByte}
use industrial_memory_protoc.Types.{
  maximum_frame_size, opcode_eq, status_eq, Frame, is_encoded, accepted,
}
use industrial_memory_protoc.Codec.Frames.{encode, decode}
use industrial_memory_protoc.Codec.Canonical.{encode-decode}
use industrial_memory_protoc.Server.{make_memory_server, default_policy, handle}

-- `Frame::operator==`, member by member.
unfoldable pub frame_eq : Frame → Frame → Bool
frame_eq f g =
    f.version == g.version
    && opcode_eq f.opcode g.opcode
    && f.flags == g.flags
    && f.request_id == g.request_id
    && f.address == g.address
    && status_eq f.status g.status
    && bytes_eq f.payload g.payload

-- Whether `LLVMFuzzerTestOneInput` gets past its two calls of `abort`.
unfoldable pub is_stable : List ℕ → Bool
is_stable bytes = elim (accepted (decode bytes)) [
  | none ↦ true
  | some frame ↦
      let encoded = encode frame in
      if not (is_encoded encoded) then false else elim (accepted (decode encoded.bytes)) [
        | none ↦ false
        | some again ↦ frame_eq again frame
      ]
]

-- `LLVMFuzzerTestOneInput`: `none` if it aborts.
unfoldable pub fuzz_one_input : List ℕ → Option ℕ
unfolding is_stable
fuzz_one_input bytes =
    if ltb (maximum_frame_size * 2) (length bytes)
    then some 0
    else if not (is_stable bytes)
    then none
    else let (handled, server) = handle (make_memory_server default_policy) bytes in some 0

frame_eq_refl : (f : Frame) → frame_eq f f ≡ true
unfolding frame_eq
frame_eq_refl f = ground (arith, bytes_eq_refl f.payload)

stable : (bytes : List ℕ) → All IsByte bytes → is_stable bytes ≡ true
unfolding is_stable
stable bytes valid = elim (Option-cases (accepted (decode bytes))) [
  | inl e ↦ rw (e, is_stable) refl
  | inr (f, e) ↦
      let canonical = encode-decode bytes f valid e in
      rw (e, is_stable, canonical, e) (frame_eq_refl f)
]

-- The fuzz target aborts on no string of bytes.
pub fuzz_one_input_total : (bytes : List ℕ) → All IsByte bytes → fuzz_one_input bytes ≡ some 0
unfolding fuzz_one_input
fuzz_one_input_total bytes valid = ground (arith, stable bytes valid)
