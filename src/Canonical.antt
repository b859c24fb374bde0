-- ===== src/Canonical.antt =====
-- canonical/canonical.go: CanonicalHash, and its callers authority/canonical.go, claim/canonical.go,
-- evidence/canonical.go and attestation/canonical.go. The canonical bytes of each type, which the Go
-- JSON encoder makes from the struct's fields, are a parameter: `none` where the encoder fails.
use trust.Prelude.{[], Option, none, some, Outcome, ok, err, Bytes}
use trust.Authority.Model.{Authority}
use trust.Claim.{Claim}
use trust.Evidence.{Evidence}
use trust.Attestation.Model.{Attestation}
use trust.Merkle.Hash.{Hasher, Digest}

pub record Encoders : Type 0 where
  pub authority_bytes : Authority → Option Bytes
  pub claim_bytes : Claim → Option Bytes
  pub evidence_bytes : Evidence → Option Bytes
  pub attestation_bytes : Attestation → Option Bytes

pub data Error : Type 0 where
  nil_authority nil_claim nil_evidence nil_attestation not_encodable : Error

-- `wire.Proof.Signature = nil` on a shallow copy.
abbrev pub unsigned : Authority → Authority
unsigned auth = record auth {
  proof = record { algorithm = auth.proof.algorithm; key_id = auth.proof.key_id; signature = [] };
}

-- `wire.Signature = nil` on a shallow copy.
abbrev unsigned_attestation : Attestation → Attestation
unsigned_attestation att = record att { signature = [] }

module _ ⦃hasher : Hasher⦄ where
  -- SHA-256 of the canonical bytes.
  unfoldable pub canonical_hash : Option Bytes → Outcome Error Digest
  canonical_hash none = err not_encodable
  canonical_hash (some canonical_bytes) = ok (hasher.sum canonical_bytes)

  module _ (encoders : Encoders) where
    unfoldable pub authority_hash : Option Authority → Outcome Error Digest
    authority_hash none = err nil_authority
    authority_hash (some auth) = canonical_hash (encoders.authority_bytes (unsigned auth))

    unfoldable pub claim_hash : Option Claim → Outcome Error Digest
    claim_hash none = err nil_claim
    claim_hash (some c) = canonical_hash (encoders.claim_bytes c)

    unfoldable pub evidence_hash : Option Evidence → Outcome Error Digest
    evidence_hash none = err nil_evidence
    evidence_hash (some ev) = canonical_hash (encoders.evidence_bytes ev)

    unfoldable pub attestation_hash : Option Attestation → Outcome Error Digest
    attestation_hash none = err nil_attestation
    attestation_hash (some att) =
        canonical_hash (encoders.attestation_bytes (unsigned_attestation att))
