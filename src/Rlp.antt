-- ===== src/Rlp.antt =====
-- chain/rlp/rlp.go: Recursive Length Prefix serialization.
pub mod Codec
pub mod Lengths
pub mod RoundTrip
pub mod Nested
pub mod Overflow
pub mod Contents
pub mod Fuel
pub mod Scalars
mod Tests
