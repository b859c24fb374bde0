-- ===== src/Verification/Model.antt =====
-- verification/input.go, check.go, errors.go, commitment.go and the types of provenance.go.
use trust.Prelude.{Outcome, ℕ, List, Bool, Option, Bytes, ℤ, ◌==◌}
use trust.Authority.Model.{Time, Authority}
use trust.Attestation.Model.{Attestation}
use trust.Delegation.Subset
use trust.Signature.Registry.{PublicKey}

-- The sentinels that an error wraps; the last two are errors of other packages that come through.
pub data Error : Type 0 where
  signature_mismatch signature_key_mismatch authority_invalid chain_broken not_root_authority
        delegation_depth capability_not_granted scope_violation not_yet_valid expired revoked
        superseded key_version_superseded identity_unresolved key_binding evidence_integrity
        provenance_mismatch commitment_invalid structural_failed nil_attestation nil_signing_key
        empty_chain nil_provenance hash_failed :
      Error
  delegation_error : Subset.Error → Error

pub data CheckId : Type 0 where
  check_structural check_signature check_authorization check_authority_proof check_chain_link
        check_root_authority check_temporal check_revocation check_identity check_key_binding
        check_evidence check_provenance check_commitment :
      CheckId

-- The wire form.
abbrev check_number : CheckId → ℕ
check_number check_structural = 1
check_number check_signature = 2
check_number check_authorization = 3
check_number check_authority_proof = 4
check_number check_chain_link = 5
check_number check_root_authority = 6
check_number check_temporal = 7
check_number check_revocation = 8
check_number check_identity = 9
check_number check_key_binding = 10
check_number check_evidence = 11
check_number check_provenance = 12
check_number check_commitment = 13

-- `==` on the integers.
abbrev pub check_eq : CheckId → CheckId → Bool
check_eq a b = check_number a == check_number b

pub data CheckStatus : Type 0 where
  check_passed check_failed check_skipped : CheckStatus

pub record CheckResult : Type 0 where
  pub id : CheckId
  pub status : CheckStatus
  pub problem : Option Error

-- Without the text of `Detail`.
pub record Failure : Type 0 where
  pub check : CheckId
  pub problem : Error
  pub hop : ℤ

pub data NodeKind : Type 0 where
  node_attestation node_claim node_signing_key node_authority node_delegation node_root_authority
        node_identity :
      NodeKind

abbrev pub node_number : NodeKind → ℕ
node_number node_attestation = 1
node_number node_claim = 2
node_number node_signing_key = 3
node_number node_authority = 4
node_number node_delegation = 5
node_number node_root_authority = 6
node_number node_identity = 7

pub record Link : Type 0 where
  pub kind : NodeKind
  pub ref : Bytes
  pub subject : Bytes
  pub key_id : Bytes
  pub parent : Bytes

-- `Provenance` is its list of links.
abbrev pub Provenance : Type 0
Provenance = List Link

pub record Result : Type 0 where
  pub valid : Bool
  pub provenance : Provenance
  pub checks : List CheckResult
  pub failures : List Failure

pub record AuthorityHop : Type 0 where
  pub authority : Option Authority
  pub public_key : PublicKey

-- `RevokedAt` is 0 where it is the zero time.
pub record KeyVersion : Type 0 where
  pub version : ℕ
  pub bound_at : Time
  pub revoked_at : Time

pub record CommitmentProof : Type 0 where
  pub id : Bytes
  pub value : Bytes

-- A DID document and the resolver's result are the caller's: `Document` is their type, and a resolver
-- takes the subject of a parsed DID.
pub record Inputs (Document : Type 0) : Type 0 where
  pub attestation : Option Attestation
  pub signing_key : Option PublicKey
  pub chain : List AuthorityHop
  pub identity_resolver : Option (Bytes → Outcome (Unit {0}) Document)
  pub key_versions : List KeyVersion
  pub evidence : List (Bytes × Bytes)
  pub commitments : List CommitmentProof
  pub now : Time
