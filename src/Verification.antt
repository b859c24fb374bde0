-- ===== src/Verification.antt =====
-- verification/: the engine that verifies an attestation against a chain of authorities.
pub mod Model
pub mod Hex
pub mod Trace
pub mod Checks
pub mod Hops
pub mod Engine
mod Outcomes
mod Applies
pub mod Hold
mod Ran
mod Sound
mod Consequences
pub mod Base58
pub mod Binder
mod Versions
mod Links
mod Live
mod Total
mod Terminates
mod Recorded
mod Tests
