-- ===== src/Attestation/Model.antt =====
-- attestation/attestation.go and attestation/validate.go. The canonical hash of evidence
-- (evidence/canonical.go over canonical/) is a parameter of Validate.
use trust.Prelude.{
  ℕ, List, [], ◌∷◌, not, ◌&&◌, Option, none, some, if◌then◌else◌, length, ◌==◌, Outcome, ok, err,
  ◌>>=◌, map_err, Bytes, bytes_lt, ℤ,
}
use trust.Authority.Model.{Time, Capability, Validity, Status}
use trust.Authority.Validate.{known_status}
use trust.Claim
use trust.Claim.{Claim}
use trust.Evidence
use trust.Evidence.{Evidence, validate_evidence}

pub record Attestation : Type 0 where
  pub issuer : Bytes
  pub signing_key_id : Bytes
  pub signing_key_version : ℕ
  pub authority_ref : Bytes
  pub capability : Capability
  pub claim : Claim
  pub evidence : List Evidence
  pub issued_at : Time
  pub validity : Validity
  pub status : Status
  pub algorithm : ℤ
  pub signature : Bytes

pub data Error : Type 0 where
  nil_attestation empty_issuer empty_signing_key_id empty_authority_ref empty_capability_namespace
        empty_capability_name unknown_status zero_issued_at empty_validity unsorted_evidence :
      Error
  invalid_claim : Claim.Error → Error
  invalid_evidence : Evidence.Error → Error
  unhashable_evidence : Error

-- The loop `for i := 1` that compares neighbours, with the hash before the rest.
unfoldable pub check_order_after : Bytes → List Bytes → Outcome Error (Unit {0})
check_order_after prev [] = ok tt
check_order_after prev (h ∷ hashes) =
    let rest = check_order_after h hashes in
    if not (bytes_lt prev h) then err unsorted_evidence else rest

unfoldable pub check_order : List Bytes → Outcome Error (Unit {0})
unfolding check_order_after
check_order [] = ok tt
check_order (h ∷ hashes) = check_order_after h hashes

-- What follows the evidence in Validate.
unfoldable pub validate_rest : Attestation → List Bytes → Outcome Error (Unit {0})
validate_rest att hashes =
    if not (known_status att.status)
    then err unknown_status
    else if att.issued_at == 0
    then err zero_issued_at
    else if (att.validity.not_before == 0) && (att.validity.not_after == 0)
    then err empty_validity
    else check_order hashes

module _ (evidence_hash : Evidence → Option Bytes) where
  unfoldable pub hash_evidence : List Evidence → Outcome Error (List Bytes)
  hash_evidence [] = ok []
  hash_evidence (ev ∷ evidence) = map_err invalid_evidence (validate_evidence (some ev)) >>= λ _.
      elim (evidence_hash ev) [
        | none ↦ err unhashable_evidence
        | some h ↦ hash_evidence evidence >>= λ hashes. ok (h ∷ hashes)
      ]

  -- Validate from the claim on.
  unfoldable pub validate_contents : Attestation → Outcome Error (Unit {0})
  validate_contents att = map_err invalid_claim (Claim.validate (some att.claim)) >>= λ _.
      hash_evidence att.evidence >>= λ hashes. validate_rest att hashes

  unfoldable pub validate : Option Attestation → Outcome Error (Unit {0})
  validate none = err nil_attestation
  validate (some att) =
      if length att.issuer == 0
      then err empty_issuer
      else if length att.signing_key_id == 0
      then err empty_signing_key_id
      else if length att.authority_ref == 0
      then err empty_authority_ref
      else if length att.capability.namespace == 0
      then err empty_capability_namespace
      else if length att.capability.name == 0
      then err empty_capability_name
      else validate_contents att
