-- ===== src/Commitment/Object.antt =====
-- commitment/object.go, commitment/errors.go, and the Commitment of commitment/commitment.go.
use trust.Prelude.{List, Option, none, some, Outcome, err, map_err, Bytes, codes, ℤ}
use trust.Authority.Model.{Authority}
use trust.Claim.{Claim}
use trust.Evidence.{Evidence}
use trust.Attestation.Model.{Attestation}
use trust.Merkle.Hash
use trust.Merkle.Hash.{Hasher, Digest}
use trust.Canonical
use trust.Canonical.{Encoders, authority_hash, claim_hash, attestation_hash, evidence_hash}

pub data Error : Type 0 where
  empty_objects nil_object duplicate_object object_not_committed nil_commitment algorithm_mismatch
        empty_commitment size_mismatch unsorted_leaves duplicate_leaf root_mismatch inclusion_failed
        not_prefix invalid_range :
      Error
  hash_error : Canonical.Error → Error
  tree_error : Hash.Error → Error

-- The four adapters; each embeds a pointer.
pub data TrustObject : Type 0 where
  authority_object : Option Authority → TrustObject
  claim_object : Option Claim → TrustObject
  attestation_object : Option Attestation → TrustObject
  evidence_object : Option Evidence → TrustObject

pub record Commitment : Type 0 where
  pub root : Digest
  pub size : ℤ
  pub leaf_hashes : List Digest
  pub algorithm : Bytes

abbrev pub algorithm_rfc6962_sha256 : Bytes
algorithm_rfc6962_sha256 = codes "rfc6962-sha256"

module _ ⦃hasher : Hasher⦄ (encoders : Encoders) where
  -- The method LeafHash of each adapter.
  unfoldable pub object_hash : TrustObject → Outcome Canonical.Error Digest
  object_hash (authority_object a) = authority_hash encoders a
  object_hash (claim_object c) = claim_hash encoders c
  object_hash (attestation_object a) = attestation_hash encoders a
  object_hash (evidence_object e) = evidence_hash encoders e

  -- A nil interface is `none`.
  unfoldable pub leaf_of : Option TrustObject → Outcome Error Digest
  leaf_of none = err nil_object
  leaf_of (some obj) = map_err hash_error (object_hash obj)
