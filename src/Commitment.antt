-- ===== src/Commitment.antt =====
-- commitment/: Merkle commitments over the canonical hashes of trust objects.
pub mod Object
pub mod Order
pub mod Build
pub mod Sorted
pub mod Valid
pub mod Builds
pub mod Search
pub mod Membership
mod Tests
