-- ===== src/Benchmark/Totals.antt =====
-- The benchmark never fails, and its checksum is known in advance.
use mathlib.Core.Option.{Option}
use industrial_memory_protoc.Prelude.{
  ℕ, zero, suc, ◌+◌, ◌*◌, ◌%◌, ◌^◌, ◌<◌, ◌≤◌, ◌≡◌, refl, ap, ◌∙◌, Bool, true, false, some, List, [],
  ◌∷◌, length, none, Bool-cases, inl, inr, if◌then◌else◌, arith,
}
use industrial_memory_protoc.Types.{Frame, accepted}
use industrial_memory_protoc.Codec.Frames.{encode, encode_output, decode}
use industrial_memory_protoc.Codec.RoundTrip.{encoded, Encodable-encode}
use industrial_memory_protoc.Memory.Store.{IsMap}
use industrial_memory_protoc.Server.{MemoryServer, handle}
use industrial_memory_protoc.Server.Response.{reply_frame}
use industrial_memory_protoc.Client.Executes.{read_request, read_request-Encodable}
use industrial_memory_protoc.Client.Loopback.Requests.{data_reply, read_granted}
use industrial_memory_protoc.Benchmark.{benchmark_request, sample_loop, run_sample, measure_loop}

-- What so many rounds from `index` on add to the checksum: an identifier and 16 bytes each.
total : ℕ → ℕ → ℕ
total zero index = 0
total (suc left) index = index + 17 + total left (index + 1)

total_lem : (left index : ℕ) → 2 * total left index ≡ left * (2 * index + left + 33)
unfolding total
total_lem zero index = omega arith
total_lem (suc left) index = omega (arith, total_lem left (index + 1))

request_lem :
    (index : ℕ)
    → index < 50000
    → benchmark_request index ≡ read_request (index + 1) (index % 128) 16
request_lem index low =
    let named : (index + 1) % 2 ^ 32 ≡ index + 1 = omega (arith, low) in
    let placed : index % 128 % 2 ^ 32 ≡ index % 128 = omega arith in rw (named, placed) refl

module _ (s : MemoryServer) (m : IsMap s.memory) where
  abbrev reply : ℕ → Frame
  reply index =
      reply_frame (read_request (index + 1) (index % 128) 16) (data_reply s (index % 128) 16)

  round_lem :
      (index : ℕ)
      → index < 50000
      → (encode (benchmark_request index) ≡ encoded (benchmark_request index))
        × (accepted (decode (handle s (encode_output (benchmark_request index))).0.response)
            ≡ Option.some (reply index))
        × ((handle s (encode_output (benchmark_request index))).1 ≡ s)
        × ((reply index).request_id ≡ index + 1)
        × (length (reply index).payload ≡ 16)
  round_lem index low =
      let g =
        read_granted s m (index + 1) (index % 128) 16 (omega (arith, low)) (omega arith)
          (omega arith) (omega arith) (omega arith) in
      rw (request_lem index low) (
        Encodable-encode (read_request (index + 1) (index % 128) 16)
            (read_request-Encodable (index + 1) (index % 128) 16),
        g.0,
        g.1,
        refl,
        g.2.size,
      )

  sample_loop_lem :
      (left index checksum : ℕ)
      → index + left ≤ 50000
      → checksum < 2 ^ 64
      → sample_loop left index s checksum ≡ (true, s, (checksum + total left index) % 2 ^ 64)
  unfolding sample_loop total
  sample_loop_lem zero index checksum fits small =
      let same : checksum ≡ (checksum + 0) % 2 ^ 64 = omega (arith, small) in
      ap (λ (n : ℕ). (true, s, n)) same
  sample_loop_lem (suc left) index checksum fits small =
      let r = round_lem index (omega (arith, fits)) in
      let more =
        sample_loop_lem left (index + 1) (((checksum + (index + 1)) % 2 ^ 64 + 16) % 2 ^ 64)
          (omega (arith, fits)) (omega arith) in
      let same : ((((checksum + (index + 1)) % 2 ^ 64 + 16) % 2 ^ 64) + total left (index + 1))
            % 2 ^ 64
          ≡ (checksum + (index + 17 + total left (index + 1))) % 2 ^ 64 =
        omega arith in
      rw (r.0, sample_loop, r.1, r.0, r.2, r.4) (more ∙ ap (λ (n : ℕ). (true, s, n)) same)

-- A batch adds this much.
batch : total 50000 0 ≡ 1250825000
batch = omega (arith, total_lem 50000 0)

-- The durations of so many samples from `sample` on.
abbrev pub readings : {D : Type 0} → (ℕ → D) → ℕ → ℕ → List D
readings elapsed zero sample = []
readings elapsed (suc left) sample = elapsed sample ∷ readings elapsed left (sample + 1)

abbrev pub any : {A : Type 0} → (A → Bool) → List A → Bool
any test [] = false
any test (x ∷ xs) = if test x then true else any test xs

module _ {D : Type 0} (failure : D) (is_negative : D → Bool) (elapsed : ℕ → D) where
  -- A batch never fails: it takes the time that the clock measures, keeps the server, and adds
  -- 1250825000 to the checksum, in 64 bits.
  pub run_sample_lem :
      (sample : ℕ) (s : MemoryServer) (checksum : ℕ)
      → IsMap s.memory
      → checksum < 2 ^ 64
      → run_sample failure is_negative elapsed sample s checksum
        ≡ (elapsed sample, s, (checksum + 1250825000) % 2 ^ 64)
  unfolding run_sample
  run_sample_lem sample s checksum m small =
      rw (sample_loop_lem s m 50000 0 checksum (omega arith) small, run_sample, batch) refl

  -- The loop stops exactly where the clock measures a negative duration.
  pub measure_loop_cases :
      (left sample : ℕ) (s : MemoryServer) (checksum : ℕ)
      → IsMap s.memory
      → checksum < 2 ^ 64
      → measure_loop failure is_negative elapsed left sample s checksum ≡ (
          if any is_negative (readings elapsed left sample)
          then none
          else some (readings elapsed left sample, (checksum + left * 1250825000) % 2 ^ 64))
  unfolding measure_loop
  measure_loop_cases zero sample s checksum m small =
      let same : checksum ≡ (checksum + 0 * 1250825000) % 2 ^ 64 = omega (arith, small) in
      ap (λ (n : ℕ). some ([], n)) same
  measure_loop_cases (suc left) sample s checksum m small =
      let one = run_sample_lem sample s checksum m small in
      let more =
        measure_loop_cases left (sample + 1) s ((checksum + 1250825000) % 2 ^ 64) m (omega arith) in
      let same : ((checksum + 1250825000) % 2 ^ 64 + left * 1250825000) % 2 ^ 64
          ≡ (checksum + suc left * 1250825000) % 2 ^ 64 =
        omega arith in
      elim (Bool-cases (is_negative (elapsed sample))) [
        | inl e ↦ rw (one, measure_loop, e) refl
        | inr e ↦
            rw (one, measure_loop, e, more)
              (elim (Bool-cases (any is_negative (readings elapsed left (sample + 1)))) [
                | inl f ↦ rw f refl
                | inr f ↦
                    rw (f, one)
                      (ap (λ (n : ℕ). some (elapsed sample ∷ readings elapsed left (sample + 1), n))
                        same)
              ])
      ]

  steady_lem :
      ((n : ℕ) → is_negative (elapsed n) ≡ false)
      → (left sample : ℕ) → any is_negative (readings elapsed left sample) ≡ false
  steady_lem steady zero sample = refl
  steady_lem steady (suc left) sample = rw (steady sample) (steady_lem steady left (sample + 1))

  -- Unless the clock measures a negative duration, no batch fails, so that the samples run to the
  -- last, and each adds 1250825000 to the checksum, in 64 bits: from any server with a well-formed map
  -- and any checksum of 64 bits, the loop yields the durations in order and that sum.
  pub measure_loop_lem :
      ((n : ℕ) → is_negative (elapsed n) ≡ false)
      → (left sample : ℕ) (s : MemoryServer) (checksum : ℕ) → IsMap s.memory
      → checksum < 2 ^ 64
      → measure_loop failure is_negative elapsed left sample s checksum
        ≡ some (readings elapsed left sample, (checksum + left * 1250825000) % 2 ^ 64)
  measure_loop_lem steady left sample s checksum m small =
      rw (measure_loop_cases left sample s checksum m small, steady_lem steady left sample) refl
