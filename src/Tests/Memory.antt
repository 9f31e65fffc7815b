-- ===== src/Tests/Memory.antt =====
-- Witnesses and runs of the memory map.
use industrial_memory_protoc.Prelude.{◌≡◌, refl, [], ◌∷◌}
use industrial_memory_protoc.Types.{Status}
use industrial_memory_protoc.Memory.{make_memory_map, read, write}
use industrial_memory_protoc.Memory.Store.{make_memory_map-IsMap, write_lem}

stored_two : (write make_memory_map 0x100 (1 ∷ 2 ∷ [])).0 ≡ Status.ok
unfolding write
stored_two = refl

write_lem_example :
    read (write make_memory_map 0x100 (1 ∷ 2 ∷ [])).1 0x100 2
    ≡ record { status = Status.ok; bytes = 1 ∷ 2 ∷ [] }
write_lem_example =
    ((write_lem make_memory_map 0x100 (1 ∷ 2 ∷ []) make_memory_map-IsMap).1 stored_two).2

identity_text :
    read make_memory_map 0 4 ≡ record { status = Status.ok; bytes = 0x49 ∷ 0x4d ∷ 0x4c ∷ 0x50 ∷ [] }
unfolding read make_memory_map
identity_text = refl
