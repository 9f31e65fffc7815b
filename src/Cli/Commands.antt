-- ===== src/Cli/Commands.antt =====
-- The commands and `main`. A run is its exit status and what it writes to each stream.
use industrial_memory_protoc.Prelude.{
  ℕ, ◌%◌, ◌^◌, Bool, true, false, not, ◌&&◌, ◌||◌, none, some, List, [], ◌∷◌, ◌++◌, ltb, ◌==◌,
  if◌then◌else◌, length, get_or, bytes_eq, bit_and,
}
use industrial_memory_protoc.Types.{
  Opcode, opcode_value, Status, Frame, protocol_version, maximum_payload_size, accepted, is_encoded,
}
use industrial_memory_protoc.Memory.{codes}
use industrial_memory_protoc.Codec.Words.{◌>>>◌}
use industrial_memory_protoc.Codec.Frames.{encode, decode}
use industrial_memory_protoc.Codec.Names.{codec_error_name}
use industrial_memory_protoc.Codec.Hex.{bytes_to_hex, bytes_from_hex}
use industrial_memory_protoc.Server.{ServerPolicy, default_policy, make_memory_server}
use industrial_memory_protoc.Transport.{
  pos, TransportFault, LoopbackTransport, make_loopback, push_fault, loopback,
}
use industrial_memory_protoc.Client.Types.{
  default_maximum_read_attempts, ClientError, OperationResult, Client,
}
use industrial_memory_protoc.Client.{make_client, read, write}
use industrial_memory_protoc.Cli.Numbers.{parse_u32, decimal, hexadecimal}
use industrial_memory_protoc.Cli.Printing.{status_name, print_usage, print_result, print_trace}

pub record Outcome : Type 0 where
  pub status : ℕ
  pub output : List ℕ
  pub errors : List ℕ

abbrev pub refused : ℕ → List ℕ → Outcome
refused status errors = record { status = status; output = []; errors = errors }

abbrev pub printed : List ℕ → Outcome
printed output = record { status = 0; output = output; errors = [] }

-- What `run_inspect` prints for a frame.
unfoldable pub print_frame : Frame → List ℕ
print_frame frame =
    codes "version="
    ++ decimal frame.version
    ++ codes " opcode=0x"
    ++ hexadecimal (opcode_value frame.opcode)
    ++ codes " flags="
    ++ decimal frame.flags
    ++ codes " request_id="
    ++ decimal frame.request_id
    ++ codes " address="
    ++ decimal frame.address
    ++ codes " status="
    ++ codes (status_name frame.status)
    ++ codes " payload="
    ++ bytes_to_hex frame.payload
    ++ codes "\n"

unfoldable pub run_inspect : List ℕ → Outcome
run_inspect text = elim (bytes_from_hex text) [
  | none ↦ refused 2 (codes "error=invalid_hex\n")
  | some bytes ↦
      let decoded = decode bytes in
      elim (accepted decoded) [
        | none ↦ refused 3 (codes "error=" ++ codes (codec_error_name decoded.error) ++ codes "\n")
        | some frame ↦ printed (print_frame frame)
      ]
]

abbrev pub bad_range : Outcome
bad_range = refused 2 (codes "error=invalid_address_or_length\n")

unfoldable pub run_encode_read : List ℕ → List ℕ → Outcome
run_encode_read address_text length_text = elim (parse_u32 address_text) [
  | none ↦ bad_range
  | some address ↦ elim (parse_u32 length_text) [
    | none ↦ bad_range
    | some len ↦
        if len == 0 || ltb maximum_payload_size len
        then bad_range
        else let wire_length = len % 2 ^ 16 in
          let encoded = encode (record {
            version = protocol_version;
            opcode = Opcode.read_request;
            flags = 0;
            request_id = 1;
            address = address;
            status = Status.ok;
            payload = bit_and (wire_length >>> 8) 0xff ∷ bit_and wire_length 0xff ∷ [];
          }) in
          if not (is_encoded encoded)
          then refused 3 (codes "error=" ++ codes (codec_error_name encoded.error) ++ codes "\n")
          else printed (bytes_to_hex encoded.bytes ++ codes "\n")
  ]
]

-- `OperationResult::operator bool`.
abbrev pub succeeded : OperationResult → Bool
succeeded result = elim result.error [ ClientError.none ↦ true | _ ↦ false ]

-- A client with default options over a loopback transport to a server of its own.
unfoldable pub fresh : ServerPolicy → Client LoopbackTransport
fresh policy = make_client (make_loopback (make_memory_server policy)) default_maximum_read_attempts

-- The result and the trace, and the status that stands for them.
unfoldable pub report : OperationResult × Client LoopbackTransport → Outcome
report (result, client) = record {
  status = if succeeded result then 0 else 4;
  output = print_result result ++ print_trace client.transport.trace;
  errors = [];
}

unfoldable pub run_read : List ℕ → List ℕ → Outcome
run_read address_text length_text = elim (parse_u32 address_text) [
  | none ↦ bad_range
  | some address ↦ elim (parse_u32 length_text) [
    | none ↦ bad_range
    | some len ↦ report (read loopback (fresh default_policy) address len (pos 100))
  ]
]

abbrev pub writes_enabled_policy : ServerPolicy
writes_enabled_policy = record default_policy { writes_enabled = true }

abbrev pub bad_write : Outcome
bad_write = refused 2 (codes "error=invalid_write_or_missing_explicit_opt_in\n")

unfoldable pub run_write : List ℕ → List ℕ → List ℕ → Outcome
run_write address_text payload_text confirmation = elim (parse_u32 address_text) [
  | none ↦ bad_write
  | some address ↦ elim (bytes_from_hex payload_text) [
    | none ↦ bad_write
    | some payload ↦
        if length payload == 0 || not (bytes_eq confirmation (codes "--allow-writes"))
        then bad_write
        else report (write loopback (fresh writes_enabled_policy) address payload (pos 100))
  ]
]

abbrev pub sample : List ℕ
sample = 0x12 ∷ 0x34 ∷ []

abbrev with_fault : Client LoopbackTransport → TransportFault → Client LoopbackTransport
with_fault client fault = record client { transport = push_fault client.transport fault }

unfoldable pub run_demo : Outcome
run_demo =
    let (r1, c1) = read loopback (fresh default_policy) 0x0000 12 (pos 100) in
    let (r2, c2) = write loopback c1 0x0100 sample (pos 100) in
    let (r3, c3) = read loopback (with_fault c2 TransportFault.timeout) 0x0040 1 (pos 100) in
    let (r4, c4) =
      read loopback (with_fault c3 TransportFault.corrupt_response) 0x0000 4 (pos 100) in
    let (r5, c5) = write loopback (fresh writes_enabled_policy) 0x0100 sample (pos 100) in
    let (r6, c6) = read loopback c5 0x0100 (length sample) (pos 100) in
    printed (
      codes "scenario=read_only_default\n"
      ++ print_result r1
      ++ print_result r2
      ++ codes "scenario=transient_read_timeout\n"
      ++ print_result r3
      ++ codes "scenario=corrupted_response\n"
      ++ print_result r4
      ++ print_trace c4.transport.trace
      ++ codes "scenario=explicit_write_opt_in\n"
      ++ print_result r5
      ++ print_result r6)

abbrev pub usage : Outcome
usage = record { status = 1; output = print_usage; errors = [] }

-- `main`, on the arguments behind the program's name.
unfoldable pub main : List (List ℕ) → Outcome
main [] = usage
main (command ∷ arguments) =
    if bytes_eq command (codes "inspect") && length arguments == 1
    then run_inspect (get_or arguments 0 [])
    else if bytes_eq command (codes "encode-read") && length arguments == 2
    then run_encode_read (get_or arguments 0 []) (get_or arguments 1 [])
    else if bytes_eq command (codes "read") && length arguments == 2
    then run_read (get_or arguments 0 []) (get_or arguments 1 [])
    else if bytes_eq command (codes "write") && length arguments == 3
    then run_write (get_or arguments 0 []) (get_or arguments 1 []) (get_or arguments 2 [])
    else if bytes_eq command (codes "demo") && length arguments == 0
    then run_demo
    else usage
