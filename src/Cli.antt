-- ===== src/Cli.antt =====
-- apps/cli_main.cpp: the command line.
pub mod Numbers
pub mod Printing
pub mod Commands
pub mod Exchanges
pub mod Runs
pub mod Loads
pub mod Stores
pub mod Reads
pub mod Writes
pub mod Inspects
pub mod Dispatch
