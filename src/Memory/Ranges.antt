-- ===== src/Memory/Ranges.antt =====
-- Which ranges `read` and `write` accept, as bounds on the address and the length.
use industrial_memory_protoc.Prelude.{
  ℕ, zero, suc, ◌+◌, ◌≤◌, ◌<◌, ◌≡◌, refl, ◌↔◌, ◌⊎◌, true, false, not, List, [], ltb, ◌==◌,
  if◌then◌else◌, arith, length, take, drop,
}
use industrial_memory_protoc.Types.{Status}
use industrial_memory_protoc.Memory.{
  is_denied, is_read_write, access_for, range_fits, some_address, MemoryMap, read, write, copy,
}

-- The range check evaluates no sum of address and length, and means the bound on that sum.
pub range_fits_iff :
    (address len : ℕ) → (range_fits address len ≡ true) ↔ ((1 ≤ len) × (address + len ≤ 4096))
unfolding range_fits
range_fits_iff address len = ground arith

-- A range within the address space meets the denied region exactly when it ends behind 0x7ff.
some_denied :
    (left position : ℕ)
    → position + left ≤ 4096
    → some_address is_denied left position
      ≡ (if left == 0 then false else ltb 0x800 (position + left))
unfolding some_address access_for
some_denied zero position h = refl
some_denied (suc left) position h = ground (arith, some_denied left (position + 1))

some_protected :
    (left position : ℕ)
    → position + left ≤ 4096
    → some_address (λ a. not (is_read_write a)) left position ≡ (
        if left == 0
        then false
        else if ltb position 0x100
        then true
        else ltb 0x800 (position + left))
unfolding some_address access_for
some_protected zero position h = refl
some_protected (suc left) position h = ground (arith, some_protected left (position + 1))

-- The result of `read`, by cases on the range alone: a range that is empty, longer than 256 bytes
-- or not within the 4096 bytes is out of range; any other that reaches past 0x7ff is denied; the
-- rest yield the cells of the range.
pub read_cases :
    (m : MemoryMap) (address len : ℕ)
    → let outside = (len ≡ 0) ⊎ (256 < len) ⊎ (4096 < address + len) in
      let fits = (1 ≤ len) × (len ≤ 256) × (address + len ≤ 4096) in
      (outside → read m address len ≡ record { status = Status.out_of_range; bytes = [] })
      × (fits
          → 0x800 < address + len
          → read m address len ≡ record { status = Status.access_denied; bytes = [] })
      × (fits
          → address + len ≤ 0x800
          → read m address len
            ≡ record { status = Status.ok; bytes = take len (drop address m.cells) })
unfolding read range_fits
read_cases m address len = (
  λ h. ground arith,
  λ h p. ground (arith, some_denied len address),
  λ h p. ground (arith, some_denied len address),
)

-- The result of `write` likewise: only ranges within 0x100 to 0x7ff are written, and in every
-- other case the map stays as it was.
pub write_cases :
    (m : MemoryMap) (address : ℕ) (content : List ℕ)
    → let len = length content in
      let outside = (len ≡ 0) ⊎ (256 < len) ⊎ (4096 < address + len) in
      let fits = (1 ≤ len) × (len ≤ 256) × (address + len ≤ 4096) in
      (outside → write m address content ≡ (Status.out_of_range, m))
      × (fits
          → (address < 0x100) ⊎ (0x800 < address + len)
          → write m address content ≡ (Status.access_denied, m))
      × (fits
          → 0x100 ≤ address
          → address + len ≤ 0x800
          → write m address content ≡ (Status.ok, record { cells = copy content address m.cells }))
unfolding write range_fits
write_cases m address content = (
  λ h. ground arith,
  λ h p. ground (arith, some_protected (length content) address),
  λ h p q. ground (arith, some_protected (length content) address),
)
