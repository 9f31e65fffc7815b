-- ===== src/Memory/Store.antt =====
-- The cells: the invariant of the array, what a write changes and what a read sees of it.
mod Copies
use industrial_memory_protoc.Prelude.{
  ℕ, zero, suc, ◌+◌, ◌≤◌, ◌<◌, ◌≡◌, refl, sym, ap, ◌∙◌, ◌⊎◌, inl, inr, ◌≢◌, List, [], ◌∷◌, arith,
  length, take, drop, set, replicate, get_or, All, length-set, length-take, length-drop,
  length-replicate, get_or-drop, get_or-take, get_or-set_self, get_or-set_ne, get_or_ext, All-set,
  All-replicate,
}
use industrial_memory_protoc.Prelude.Bits.{IsByte}
use industrial_memory_protoc.Types.{Status}
use industrial_memory_protoc.Memory.{MemoryMap, codes, identity, copy, make_memory_map, read, write}
use industrial_memory_protoc.Memory.Ranges.{read_cases, write_cases}
pub use industrial_memory_protoc.Memory.Store.Copies.*

-- The array has its 4096 bytes.
pub record IsMap (m : MemoryMap) : Type 0 where
  pub size : length m.cells ≡ 4096
  pub valid : All IsByte m.cells

abbrev zeros : List ℕ
zeros = replicate 4096 0

-- The constructor makes a valid map.
pub make_memory_map-IsMap : IsMap make_memory_map
unfolding make_memory_map
make_memory_map-IsMap = record {
  size =
      length-set (copy (codes identity) 0 zeros) 0x40 1
      ∙ length-copy (codes identity) 0 zeros
      ∙ length-replicate {A = ℕ} 4096 0;
  valid =
      All-set IsByte (copy (codes identity) 0 zeros) 0x40 1
        (All-copy (codes identity) 0 zeros (omega arith)
          (All-replicate IsByte 4096 0 (omega arith)))
        (omega arith);
}

-- Why the map turns a range down, and with which status.
abbrev pub Outside : ℕ → ℕ → Type 0
Outside address len = (len ≡ 0) ⊎ (256 < len) ⊎ (4096 < address + len)

abbrev pub Fits : ℕ → ℕ → Type 0
Fits address len = (1 ≤ len) × (len ≤ 256) × (address + len ≤ 4096)

abbrev pub ReadRefusal : ℕ → ℕ → Status → Type 0
ReadRefusal address len s =
    (Outside address len × (s ≡ Status.out_of_range))
    ⊎ (Fits address len × (0x800 < address + len) × (s ≡ Status.access_denied))

abbrev pub WriteRefusal : ℕ → ℕ → Status → Type 0
WriteRefusal address len s =
    (Outside address len × (s ≡ Status.out_of_range))
    ⊎ (Fits address len
        × ((address < 0x100) ⊎ (0x800 < address + len))
        × (s ≡ Status.access_denied))

-- The two ways a read can go, one of which holds of each call.
pub data ReadOutcome (m : MemoryMap) (address len : ℕ) : Type 0 where
  refused :
      (s : Status)
      → ReadRefusal address len s
      → read m address len ≡ record { status = s; bytes = [] }
      → ReadOutcome m address len
  loaded :
      1 ≤ len
      → len ≤ 256
      → address + len ≤ 0x800
      → read m address len ≡ record { status = Status.ok; bytes = take len (drop address m.cells) }
      → ReadOutcome m address len

sort_read :
    (a n : ℕ) → Outside a n ⊎ (Fits a n × (0x800 < a + n)) ⊎ ((1 ≤ n) × (n ≤ 256) × (a + n ≤ 0x800))
sort_read a n = omega arith

pub read-ReadOutcome : (m : MemoryMap) (address len : ℕ) → ReadOutcome m address len
read-ReadOutcome m address len = outcome (sort_read address len)
  where
    outcome :
        Outside address len
          ⊎ (Fits address len × (0x800 < address + len))
          ⊎ ((1 ≤ len) × (len ≤ 256) × (address + len ≤ 0x800))
        → ReadOutcome m address len
    outcome (inl h) =
        ReadOutcome.refused Status.out_of_range (inl (h, refl)) ((read_cases m address len).0 h)
    outcome (inr (inl h)) =
        ReadOutcome.refused Status.access_denied (inr (h.0, h.1, refl))
          ((read_cases m address len).1 h.0 h.1)
    outcome (inr (inr h)) =
        loaded h.0 h.1 h.2 ((read_cases m address len).2 (h.0, h.1, omega arith) h.2)

-- The two ways a write can go.
pub data WriteOutcome (m : MemoryMap) (address : ℕ) (content : List ℕ) : Type 0 where
  refused :
      (s : Status)
      → WriteRefusal address (length content) s
      → write m address content ≡ (s, m)
      → WriteOutcome m address content
  stored :
      1 ≤ length content
      → length content ≤ 256
      → 0x100 ≤ address
      → address + length content ≤ 0x800
      → write m address content ≡ (Status.ok, record { cells = copy content address m.cells })
      → WriteOutcome m address content

sort_write :
    (a n : ℕ)
    → Outside a n
      ⊎ (Fits a n × ((a < 0x100) ⊎ (0x800 < a + n)))
      ⊎ ((1 ≤ n) × (n ≤ 256) × (0x100 ≤ a) × (a + n ≤ 0x800))
sort_write a n = omega arith

pub write-WriteOutcome :
    (m : MemoryMap) (address : ℕ) (content : List ℕ) → WriteOutcome m address content
write-WriteOutcome m address content = outcome (sort_write address (length content))
  where
    outcome :
        Outside address (length content)
          ⊎ (Fits address (length content)
              × ((address < 0x100) ⊎ (0x800 < address + length content)))
          ⊎ ((1 ≤ length content)
              × (length content ≤ 256)
              × (0x100 ≤ address)
              × (address + length content ≤ 0x800))
        → WriteOutcome m address content
    outcome (inl h) =
        WriteOutcome.refused Status.out_of_range (inl (h, refl))
          ((write_cases m address content).0 h)
    outcome (inr (inl h)) =
        WriteOutcome.refused Status.access_denied (inr (h.0, h.1, refl))
          ((write_cases m address content).1 h.0 h.1)
    outcome (inr (inr h)) =
        stored h.0 h.1 h.2 h.3 ((write_cases m address content).2 (h.0, h.1, omega arith) h.2 h.3)

refusal-ne-ok : (a n : ℕ) (s : Status) → WriteRefusal a n s → s ≢ Status.ok
refusal-ne-ok a n s (inl e) h = cc (e.1)
refusal-ne-ok a n s (inr e) h = cc (e.2)

-- A write keeps the map valid, whatever its outcome.
pub write-IsMap :
    (m : MemoryMap) (address : ℕ) (content : List ℕ)
    → IsMap m
    → All IsByte content
    → IsMap (write m address content).1
write-IsMap m address content v hc = elim (write-WriteOutcome m address content) [
  | WriteOutcome.refused s ne e ↦ rw e v
  | stored p q lo hi e ↦ rw e (record {
    size = length-copy content address m.cells ∙ v.size;
    valid = All-copy content address m.cells hc v.valid;
  })
]

-- On a well-formed map, a write that reports anything but `ok` leaves the map as it was, and one
-- that reports `ok` lies within 0x100 to 0x7ff, is read back in full, and changes no cell outside
-- its range.
pub write_lem :
    (m : MemoryMap) (address : ℕ) (content : List ℕ)
    → IsMap m
    → ((write m address content).0 ≢ Status.ok → (write m address content).1 ≡ m)
      × ((write m address content).0 ≡ Status.ok
          → (0x100 ≤ address)
            × (address + length content ≤ 0x800)
            × (read (write m address content).1 address (length content)
                ≡ record { status = Status.ok; bytes = content })
            × ((i : ℕ)
                → (i < address) ⊎ (address + length content ≤ i)
                → get_or (write m address content).1.cells i 0 ≡ get_or m.cells i 0))
write_lem m address content v = elim (write-WriteOutcome m address content) [
  | WriteOutcome.refused s ne e ↦
      rw e ((λ h. refl), (λ h. absurd (refusal-ne-ok address (length content) s ne h)))
  | stored p q lo hi e ↦ rw e (
    (λ h. absurd (h refl)),
    (λ h. (
      lo,
      hi,
      (read_cases (record { cells = copy content address m.cells }) address (length content)).2
            (p, q, omega arith) hi
          ∙ ap (λ (l : List ℕ). record { status = Status.ok; bytes = l })
              (slice-copy content address m.cells (omega (arith, v.size))),
      get_or-copy_outside content address m.cells,
    )),
  )
]
