-- ===== src/Memory.antt =====
-- src/memory_map.cpp and include/imlp/memory_map.hpp: the 4 KiB address space and its regions.
pub mod Ranges
pub mod Store
use Prim.Native.Char.{code}
use Prim.Native.String.{String}
use industrial_memory_protoc.Prelude.{
  ℕ, zero, suc, ◌+◌, ◌-◌, ◌%◌, ◌^◌, Bool, true, false, not, ◌&&◌, ◌||◌, List, [], ◌∷◌, ltb, leb,
  ◌==◌, if◌then◌else◌, length, take, drop, set, replicate,
}
use industrial_memory_protoc.Types.{Status, status_eq, protocol_version, maximum_payload_size}

abbrev pub memory_capacity : ℕ
memory_capacity = 4096

pub data Access : Type 0 where
  read_only read_write denied : Access

abbrev pub is_denied : Access → Bool
is_denied Access.denied = true
is_denied _ = false

abbrev pub is_read_write : Access → Bool
is_read_write Access.read_write = true
is_read_write _ = false

pub record MemoryResult : Type 0 where
  pub status : Status
  pub bytes : List ℕ

-- `explicit operator bool`.
abbrev pub is_ok : MemoryResult → Bool
is_ok r = status_eq r.status Status.ok

-- The array `bytes_`, 4096 cells of it.
pub record MemoryMap : Type 0 where
  pub cells : List ℕ

-- The characters of an ASCII text as bytes.
abbrev pub codes : String → List ℕ
codes String.[] = []
codes (String.◌∷◌ c s) = code c ∷ codes s

-- `std::copy` of a range into the array from `start` on, cell by cell.
unfoldable pub copy : List ℕ → ℕ → List ℕ → List ℕ
copy [] start cells = cells
copy (b ∷ bs) start cells = copy bs (start + 1) (set cells start b)

abbrev pub identity : String
identity = "IMLP/1 synthetic memory simulator"

-- The constructor: the array is zero-initialised, then the identity text and the version are stored.
unfoldable pub make_memory_map : MemoryMap
unfolding copy
make_memory_map = record {
  cells = set (copy (codes identity) 0 (replicate memory_capacity 0)) 0x40 protocol_version;
}

unfoldable pub access_for : ℕ → Access
access_for address =
    if leb address 0x00ff
    then Access.read_only
    else if leb address 0x07ff
    then Access.read_write
    else Access.denied

unfoldable pub range_fits : ℕ → ℕ → Bool
range_fits address len =
    if len == 0 || ltb memory_capacity len
    then false
    else ltb address memory_capacity && leb len (memory_capacity - address)

-- The access loops: whether some of `left` addresses, from `start + offset` on, meets the test.
unfoldable pub some_address : (Access → Bool) → ℕ → ℕ → Bool
unfolding access_for
some_address test zero position = false
some_address test (suc left) position =
    test (access_for (position % 2 ^ 32)) || some_address test left (position + 1)

-- `MemoryMap::read`.
unfoldable pub read : MemoryMap → ℕ → ℕ → MemoryResult
unfolding range_fits some_address
read m address len =
    if not (range_fits address len) || ltb maximum_payload_size len
    then record { status = Status.out_of_range; bytes = [] }
    else if some_address is_denied len address
    then record { status = Status.access_denied; bytes = [] }
    else record { status = Status.ok; bytes = take len (drop address m.cells) }

-- `MemoryMap::write`: the status and the map after the call.
unfoldable pub write : MemoryMap → ℕ → List ℕ → Status × MemoryMap
unfolding range_fits some_address copy
write m address content =
    if not (range_fits address (length content)) || ltb maximum_payload_size (length content)
    then (Status.out_of_range, m)
    else if some_address (λ a. not (is_read_write a)) (length content) address
    then (Status.access_denied, m)
    else (Status.ok, record { cells = copy content address m.cells })
