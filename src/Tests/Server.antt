-- ===== src/Tests/Server.antt =====
-- Witnesses and runs of the server.
use mathlib.Core.Option.{Option}
use industrial_memory_protoc.Prelude.{◌≡◌, ◌↔◌, [], ◌∷◌, arith}
use industrial_memory_protoc.Types.{accepted}
use industrial_memory_protoc.Codec.Frames.{decode}
use industrial_memory_protoc.Memory.Store.{IsMap, make_memory_map-IsMap}
use industrial_memory_protoc.Server.{make_memory_server, handle}
use industrial_memory_protoc.Server.Contract.{Served, handle-Served, handle_silence}
use industrial_memory_protoc.Server.History.{Keeps, handle_all, handle_all-Keeps}
use industrial_memory_protoc.Tests.Samples.{
  writable, sample_read, sample_read_bytes, sample_read-accepted,
}

writable-IsMap : IsMap writable.memory
unfolding make_memory_server
writable-IsMap = make_memory_map-IsMap

handle-Served_example : Served writable sample_read (handle writable sample_read_bytes)
handle-Served_example =
    handle-Served writable sample_read_bytes sample_read (omega arith) writable-IsMap
      sample_read-accepted

handle_silence_example :
    ((handle writable (0x49 ∷ [])).0.response ≡ [])
    ↔ ((accepted (decode (0x49 ∷ [])) ≡ Option.none) × ((handle writable (0x49 ∷ [])).1 ≡ writable))
handle_silence_example = handle_silence writable (0x49 ∷ []) (omega arith) writable-IsMap

handle_all-Keeps_example :
    Keeps writable (handle_all writable (sample_read_bytes ∷ (0x49 ∷ []) ∷ []))
handle_all-Keeps_example =
    handle_all-Keeps writable (sample_read_bytes ∷ (0x49 ∷ []) ∷ []) (omega arith) writable-IsMap
