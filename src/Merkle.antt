-- ===== src/Merkle.antt =====
-- merkle/tree.go: the RFC 6962 Merkle tree, its inclusion proofs and its consistency proofs.
pub mod Hash
pub mod Tree
pub mod Verify
pub mod Climb
pub mod Binding
pub mod Inclusion
pub mod Split
pub mod Consistency
pub mod Reference
pub mod Trace
pub mod Halves
pub mod AppendOnly
pub mod Returns
mod Tests
