-- ===== src/Signature.antt =====
-- signature/, and its clients authority/proof.go and attestation/signature.go.
pub mod Algorithm
pub mod Registry
pub mod Signer
pub mod Proof
pub mod Names
pub mod Dispatch
pub mod Signed
pub mod RoundTrip
mod Tests
