-- ===== src/Attestation.antt =====
-- attestation/: attestations, their validation and the authorization check.
pub mod Model
pub mod Authorize
pub mod Scopes
pub mod Granted
pub mod Ordered
mod Tests
