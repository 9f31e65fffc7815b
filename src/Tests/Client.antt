-- ===== src/Tests/Client.antt =====
-- Witnesses of the client.
use industrial_memory_protoc.Prelude.{
  refl, take, drop, ℕ, ◌+◌, ◌-◌, ◌%◌, ◌^◌, ◌<◌, ◌≤◌, ◌≡◌, ◌≢◌, [], ◌∷◌, arith,
}
use industrial_memory_protoc.Types.{Opcode, Status}
use industrial_memory_protoc.Transport.{pos, LoopbackTransport, make_loopback, loopback}
use industrial_memory_protoc.Memory.{copy}
use industrial_memory_protoc.Memory.Store.{make_memory_map-IsMap}
use industrial_memory_protoc.Server.{make_memory_server, text_payload}
use industrial_memory_protoc.Client.Loopback.{Quiet}
use industrial_memory_protoc.Client.Loopback.Reads.{read-loopback, read-turned_down}
use industrial_memory_protoc.Client.Loopback.Requests.{read_status}
use industrial_memory_protoc.Client.Loopback.WriteRequests.{IsWritable}
use industrial_memory_protoc.Client.Loopback.Writes.{write-loopback}
use industrial_memory_protoc.Client.Loopback.WriteRead.{write-read}
use industrial_memory_protoc.Client.Types.{ClientError, Client}
use industrial_memory_protoc.Client.{make_client, read, write}
use industrial_memory_protoc.Client.Verdict.{validate_response}
use industrial_memory_protoc.Client.Ids.{nth_id, nth_id_lem}
use industrial_memory_protoc.Client.Judgement.{Judgement, validate_response-Judgement}
use industrial_memory_protoc.Client.Executes.{read_request, write_request}
use industrial_memory_protoc.Client.Operations.{Operation, read-Operation, write-Operation}
use industrial_memory_protoc.Tests.Samples.{writable, sample_read, sample_read_bytes}

-- Three read attempts over a loopback transport.
abbrev patient : Client LoopbackTransport
patient = make_client (make_loopback writable) 3

patient_positive : 1 ≤ patient.maximum_read_attempts
unfolding make_client
patient_positive = omega arith

patient_first : (1 ≤ patient.next_request_id) × (patient.next_request_id < 2 ^ 32)
unfolding make_client
patient_first = (omega arith, omega arith)

nth_id_lem_example :
    ((k : ℕ) → nth_id patient k ≡ (patient.next_request_id - 1 + k) % (2 ^ 32 - 1) + 1)
    × ((k : ℕ) → (1 ≤ nth_id patient k) × (nth_id patient k < 2 ^ 32))
    × ((j k : ℕ) → j < k → k < j + (2 ^ 32 - 1) → nth_id patient j ≢ nth_id patient k)
nth_id_lem_example = nth_id_lem patient patient_first

-- The bytes of a read request, returned in place of a response.
validate_response-Judgement_example :
    Judgement patient sample_read sample_read_bytes Opcode.data_response 4 1
      (validate_response patient sample_read sample_read_bytes Opcode.data_response 4 1)
validate_response-Judgement_example =
    validate_response-Judgement patient sample_read sample_read_bytes Opcode.data_response 4 1

read-Operation_example :
    Operation loopback patient 4
      (read_request patient.next_request_id 0x100 4)
      Opcode.data_response
      4
      patient.maximum_read_attempts
      (pos 50)
      (read loopback patient 0x100 4 (pos 50))
read-Operation_example = read-Operation loopback patient 0x100 (pos 50) 4 patient_positive

write-Operation_example :
    Operation loopback patient 2
      (write_request patient.next_request_id 0x100 (0xaa ∷ 0x55 ∷ []))
      Opcode.write_acknowledgement
      0
      1
      (pos 50)
      (write loopback patient 0x100 (0xaa ∷ 0x55 ∷ []) (pos 50))
write-Operation_example = write-Operation loopback patient 0x100 (pos 50) (0xaa ∷ 0x55 ∷ [])

patient-Quiet : Quiet patient
unfolding make_client make_loopback make_memory_server
patient-Quiet = record {
  is_map = make_memory_map-IsMap;
  request_id = omega arith;
  faults = refl;
  attempts = omega arith;
}

-- The first four bytes of the identity text.
read-loopback_example :
    ((read loopback patient 0 4 (pos 50)).0 ≡ record {
      error = ClientError.none;
      remote_status = Status.ok;
      request_id = patient.next_request_id;
      attempts = 1;
      bytes = take 4 (drop 0 patient.transport.server.memory.cells);
      detail = "ok";
    })
    × ((read loopback patient 0 4 (pos 50)).1.transport.server ≡ patient.transport.server)
read-loopback_example =
    read-loopback patient patient-Quiet 0 (pos 50) refl (omega arith) 4 (omega arith) (omega arith)
      (omega arith)

patient-IsWritable : IsWritable patient.transport.server 0x100 2
unfolding make_client make_loopback make_memory_server
patient-IsWritable = record {
  enabled = refl;
  begins = omega arith;
  ends = omega arith;
  above = omega arith;
  below = omega arith;
}

write-loopback_example :
    ((write loopback patient 0x100 (0xaa ∷ 0x55 ∷ []) (pos 50)).0 ≡ record {
      error = ClientError.none;
      remote_status = Status.ok;
      request_id = patient.next_request_id;
      attempts = 1;
      bytes = [];
      detail = "ok";
    })
    × ((write loopback patient 0x100 (0xaa ∷ 0x55 ∷ []) (pos 50)).1.transport.server
        ≡ record patient.transport.server {
          memory = record {
            cells = copy (0xaa ∷ 0x55 ∷ []) 0x100 patient.transport.server.memory.cells;
          };
        })
write-loopback_example =
    write-loopback patient patient-Quiet 0x100 (pos 50) refl (omega arith) (0xaa ∷ 0x55 ∷ [])
      (omega arith) (omega arith) (omega arith) patient-IsWritable

write-read_example :
    ((read loopback (write loopback patient 0x100 (0xaa ∷ 0x55 ∷ []) (pos 50)).1 0x100 2 (pos 9)).0
      ≡ record {
        error = ClientError.none;
        remote_status = Status.ok;
        request_id = (write loopback patient 0x100 (0xaa ∷ 0x55 ∷ []) (pos 50)).1.next_request_id;
        attempts = 1;
        bytes = 0xaa ∷ 0x55 ∷ [];
        detail = "ok";
      })
    × ((read loopback
          (write loopback patient 0x100 (0xaa ∷ 0x55 ∷ []) (pos 50)).1
          0x100
          2
          (pos 9)).1.transport.server
        ≡ record patient.transport.server {
          memory = record {
            cells = copy (0xaa ∷ 0x55 ∷ []) 0x100 patient.transport.server.memory.cells;
          };
        })
write-read_example =
    write-read patient patient-Quiet 0x100 (pos 50) refl (omega arith) (0xaa ∷ 0x55 ∷ [])
      (omega arith) (omega arith) (omega arith) patient-IsWritable (pos 9) refl

-- The end of the regions.
read-turned_down_example :
    ((read loopback patient 0x7ff 2 (pos 50)).0 ≡ record {
      error = ClientError.remote_error;
      remote_status = read_status 0x7ff 2;
      request_id = patient.next_request_id;
      attempts = 1;
      bytes = text_payload "read_rejected";
      detail = "remote request rejected";
    })
    × ((read loopback patient 0x7ff 2 (pos 50)).1.transport.server ≡ patient.transport.server)
read-turned_down_example =
    read-turned_down patient patient-Quiet 0x7ff (pos 50) refl (omega arith) 2 (omega arith)
      (omega arith) (omega arith)
