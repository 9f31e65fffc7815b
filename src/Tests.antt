-- ===== src/Tests.antt =====
-- Concrete runs of the components, and samples that they share.
pub mod Samples
mod Codec
mod Memory
mod Server
mod Transport
mod Client
mod Faults
mod Texts
mod Cli
mod Benchmark
mod Session
