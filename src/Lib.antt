-- ===== src/Lib.antt =====
-- A verification library for the trust module: its Merkle tree, the authority and delegation model,
-- attestations with the claims and evidence in them, signatures over them, the engine that verifies an
-- attestation against a chain of authorities, commitments, and the RLP codec of its Ethereum adapters.
--
-- How the parts interact. An authority (authority/authority.go) states capabilities, a scope of nine
-- dimensions and a window of validity. Derive and VerifySubset (delegation/delegation.go) issue and
-- check narrower children. An attestation (attestation/attestation.go) carries a claim (claim/) and
-- references to evidence (evidence/), and VerifyAuthorization (attestation/authorize.go) holds it
-- against an authority. Authorities and attestations are signed over their canonical hashes
-- (authority/proof.go, attestation/signature.go) by the algorithms of signature/. Verify
-- (verification/engine.go) runs all of these checks on an attestation and its chain of authorities.
-- Sets of such objects are committed to by a Merkle root (commitment/, merkle/tree.go).
-- chain/rlp/rlp.go is the byte format of the transactions that publish such roots.
--
-- Which file models which part:
--   Prelude     the names the files share: Boolean tests, lists measured by native numbers, results of
--               Go functions (a value, an error or a panic), byte strings and their order, signed
--               integers and floats.
--   Merkle      merkle/tree.go. Hash: leafHash, nodeHash; Tree: New, Root, Size, Proof; Verify: Verify,
--               VerifyInclusion, decodeProof, proofSideSequence; Consistency: subtree,
--               ConsistencyProof, VerifyConsistency; Split: largestPow2LessThan. Climb, Binding,
--               Inclusion, Reference, Trace, Halves, AppendOnly and Returns hold proofs.
--   Authority   authority/authority.go (Model) and authority/validate.go (Validate); Canonical: proofs.
--   Delegation  delegation/delegation.go (Subset). Power says what an authority permits, without
--               reference to the code; Dimensions, Permits, Depth and Derivation hold proofs.
--   Claim, Evidence  the types and the validation of claim/ and evidence/.
--   Attestation attestation/attestation.go and attestation/validate.go (Model),
--               attestation/authorize.go (Authorize); Scopes, Granted and Ordered hold proofs.
--   Canonical   canonical/canonical.go (CanonicalHash) and the file canonical.go of authority/, claim/,
--               evidence/ and attestation/.
--   Commitment  commitment/object.go, commitment.go and errors.go (Object), order.go (Order), build.go,
--               proof.go and consistency.go (Build); Sorted, Valid, Builds, Search and Membership hold
--               proofs.
--   Signature   signature/algorithm.go (Algorithm), signature/registry.go and the files that register
--               the algorithms (Registry), signature/signer.go (Signer), authority/proof.go and
--               attestation/signature.go (Proof); Names, Dispatch, Signed and RoundTrip hold proofs.
--   Verification verification/input.go, check.go, errors.go and provenance.go (Model),
--               provenance_build.go and provenance_verify.go (Trace), checks_chain.go,
--               checks_single.go and checks_evidence.go (Checks, Hops), engine.go and the checks on a
--               context (Engine), binder.go (Binder, Base58); Hex is the Go library's encoding/hex.
--               Outcomes, Applies, Hold, Ran, Sound, Consequences, Versions, Links, Live, Total,
--               Terminates and Recorded hold proofs.
--   Fixtures    parameters and objects for the tests.
--   Rlp         chain/rlp/rlp.go (Codec); Lengths, RoundTrip, Nested,
--               Overflow, Contents, Fuel and Scalars hold proofs.
-- A Tests module beside each part runs it on small inputs and applies its theorems to them.
--
-- Conventions. A function that returns an error gives an Outcome, in which `panic` stands for a Go
-- panic, for a loop that does not end and for fuel that has run out; in the RLP decoder, which has
-- panics of its own, fuel that has run out is the error `out_of_fuel`. A string is its bytes, a
-- time.Time a number of instants since the zero time, a nil pointer `none`. An int is a natural or a
-- negative number; where a result depends on the width of a machine integer, as in
-- largestPow2LessThan, proofSideSequence and the long forms of RLP, its wrap-around is written out,
-- and where it depends on the range of an int, as for MaxDepth, the range is a hypothesis
-- (HasInt64Depth).
--
-- Fuel. New halves a level in every round, so one round per leaf is enough; the loop of
-- proofSideSequence lowers its count in every round, so treeSize rounds are; the recursions of the
-- consistency functions go to shorter ranges, so the size is enough; largestPow2LessThan has 64
-- rounds, one for each bit; each call of the RLP decoder's two functions passes an item or a prefix
-- byte, so two units a byte and one more are enough; sort.Search halves its range in every round, so
-- one round per leaf and one more are enough.
--
-- Parameters. SHA-256 is a function to 32 bytes, and a statement that needs it to be injective offers
-- a collision instead. The canonical bytes of an object, which the Go JSON encoder makes, are functions
-- that may fail. The signature schemes (crypto/, over the Go library and a secp256k1 library) are
-- functions that may panic, of which is known that a signature that was made verifies; the random
-- bytes that a scheme draws are an argument. A key may be a nil pointer of an ECDSA or RSA type, on
-- which Curve and Hash panic. The system clock is a number, and so is the engine's own clock. The engine
-- takes did.Parse, the resolver, the key binder, the marshalling of keys and the commitment checker
-- as functions, of which all but the first may panic; Answers says that they do not.
--
-- Not modelled: the cryptographic primitives (calls of libraries), the canonical JSON and CBOR
-- encodings, the EAT and COSE encodings, the JSON forms of commitments and provenance, the keys
-- that a DID method declares (verification/binder_algorithm.go), identity, auth, kms, and the other packages of
-- chain.

pub mod Prelude
pub mod Merkle
pub mod Authority
pub mod Delegation
pub mod Claim
pub mod Evidence
pub mod Attestation
pub mod Canonical
pub mod Commitment
pub mod Signature
pub mod Verification
pub mod Fixtures
pub mod Rlp
