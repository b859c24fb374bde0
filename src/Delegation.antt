-- ===== src/Delegation.antt =====
-- delegation/delegation.go: narrower child authorities and the subset check.
pub mod Subset
pub mod Power
pub mod Dimensions
pub mod Permits
pub mod Depth
pub mod Derivation
mod Tests
