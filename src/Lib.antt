-- ===== src/Lib.antt =====
-- A model of IMLP/1, the industrial memory protocol workbench: a framed request/response protocol
-- with a CRC-32, a simulated memory map behind an access policy, an in-process transport with
-- scripted faults, and a client with bounded retries.
--
-- How the parts interact: `Client` builds a request frame, encodes it and gives the bytes to a
-- transport; the loopback transport records them, plays the faults queued for it and hands the
-- bytes to `MemoryServer::handle`, which decodes them, asks its policy and its `MemoryMap`, and
-- encodes a response; the client decodes that and checks that it answers the request.
--
-- Files:
-- - Types: include/imlp/types.hpp. An `enum class` is a data type with the source's enumerators and
-- `unassigned n` for the other values that a cast can give it; `opcode_of_value` and
-- `status_of_value` are those casts. `std::vector<std::byte>` is a list of numbers below 256.
-- - Codec: src/codec.cpp. Codec/Words has `append_u16`, `append_u32`, `read_u16`, `read_u32`;
-- Codec/Crc has `crc32`, bit by bit as in the source; Codec/Frames has `is_supported_opcode`,
-- `has_valid_semantics`, `encode` and `decode`; Codec/Names has `codec_error_name`; Codec/Hex has
-- `hex_nibble`, `bytes_to_hex` and `bytes_from_hex`, over texts as lists of character codes.
-- Codec/Accepts says what `decode` accepts, Codec/Checked has `decode` once more with every access
-- to its bytes checked, and Codec/Checked/Bounds compares the two; Codec/RoundTrip and
-- Codec/Canonical relate the two directions, Codec/Encoded is about what is put out,
-- Codec/Crc/Detect and Codec/Corruption are about error detection.
-- - Memory: src/memory_map.cpp, include/imlp/memory_map.hpp. `MemoryMap` holds the cells; `read`,
-- `write`, `range_fits` and `access_for` are the functions of these names. Memory/Ranges describes
-- them by the range alone, Memory/Store by what they do to the cells, with `copy` in
-- Memory/Store/Copies.
-- - Server: src/server.cpp, include/imlp/server.hpp. `handle` is `MemoryServer::handle`, with
-- `handle_read` and `handle_write` for its two long branches; it returns the result and the server
-- after the call. Server/Handle has the rules for a decoded frame (Rules) and that `handle` follows
-- them, Server/Response the reply as a peer sees it, Server/Contract puts both together,
-- Server/History is about sequences of requests.
-- - Transport: src/transport.cpp, include/imlp/transport.hpp. `ITransport` is the abstract class,
-- as a record of operations over a state; `LoopbackTransport` is the loopback's state, which holds
-- the server that the source refers to, and `loopback` is its record. Transport/Exchange and
-- Transport/Moves describe one exchange, Transport/Faults the fault at the front of the queue,
-- Transport/Damage what a damaged response decodes to, Transport/Trace the packet trace under any
-- calls of the public methods.
-- - Client: src/client.cpp, include/imlp/client.hpp. The methods are functions from a client to a
-- result and a client, over any `ITransport`. Client/Verdict is `validate_response`; Client/Ids is
-- about identifiers, Client/Response and Client/Judgement about `validate_response`,
-- Client/Traffic, Client/Rounds and Client/Executes about the use of the transport,
-- Client/Operations about `read` and `write`, Client/Metrics, Client/Steps, Client/Effects,
-- Client/Tallies and Client/Accounts about the counters; Client/Loopback puts the client, the
-- loopback transport and the server together, with Requests and WriteRequests for the server's
-- side, Reads, Writes and WriteRead without faults, Retries, GivesUp and Damaged with them.
-- - Session: the callers of include/imlp/client.hpp and include/imlp/transport.hpp, with `run` for
-- any sequence of reads, writes and faults. Session/Device is the abstract memory that a caller
-- sees, Session/Reads and Session/Writes are about one call, Session/Refinement about sequences;
-- Session/Reference has a device that computes, for the sequences without faults, and
-- Session/Faultless is about these.
-- - Fuzz: fuzz/codec_fuzzer.cpp. `fuzz_one_input` is `LLVMFuzzerTestOneInput`; an abort is `none`.
-- - Cli: apps/cli_main.cpp. Cli/Numbers has `parse_u32`, with `std::from_chars` for unsigned
-- numbers, and the digits that a stream prints; Cli/Printing has the printing functions;
-- Cli/Commands has the commands and `main`, as functions from texts to an exit status and the text
-- written to each stream. Cli/Reads, Cli/Writes and Cli/Inspects describe the commands, with the
-- packets they print in Cli/Exchanges and the client's operation in Cli/Runs, Cli/Loads and
-- Cli/Stores, Cli/Dispatch describes `main`.
-- - Benchmark: apps/benchmark_main.cpp. `run_sample` is the batch of that name and `measure` the
-- loop over the samples in its `main`; Benchmark/Report has the rest of `main`. The clock,
-- `std::sort` and what the program does with a `double` are parameters. Benchmark/Totals is about
-- the checksum, Benchmark/Median about the report.
-- - Prelude: lists, Boolean tests and bit operations that the parts share. Tests: concrete runs.
--
-- Numbers: unsigned integers are natural numbers with the wrap-around written out (`% 2 ^ w`); a
-- deadline in milliseconds is an integer `ℤ`. `std::size_t` has 64 bits. A read past the end of a
-- list gives 0, where the behaviour of the source would be undefined; in Codec/Checked it gives
-- `none`.
--
-- Loops: `for` loops are structural recursion. The retry loop of `execute_read` runs on the number
-- of rounds that its condition leaves, which is the maximum of read attempts before the first
-- round, so no round that the source would make is missing.
--
-- Printing: `print_digits` writes one digit per round and runs on `n + 1` rounds, which suffice
-- because each round divides the number by the base.
--
-- Not modelled: the arithmetic of `double` and its printed digits; the tests, which call the
-- library and compare; allocation failure and exceptions of the standard library; the process
-- around `main`, which takes the arguments behind the program's name.
mod Prelude
pub mod Types
pub mod Codec
pub mod Memory
pub mod Server
pub mod Transport
pub mod Client
pub mod Fuzz
pub mod Cli
pub mod Session
pub mod Benchmark
pub mod Tests
