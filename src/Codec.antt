-- ===== src/Codec.antt =====
-- src/codec.cpp and include/imlp/codec.hpp.
pub mod Words
pub mod Crc
pub mod Frames
pub mod Accepts
pub mod RoundTrip
pub mod Encoded
pub mod Checked
pub mod Canonical
pub mod Corruption
pub mod Names
pub mod Hex
