-- ===== src/Claim.antt =====
-- claim/claim.go and claim/validate.go.
use trust.Prelude.{Option, none, some, if◌then◌else◌, length, ◌==◌, Outcome, err, map_err, Bytes}
use trust.Authority.Model.{Time, Scope, Validity}
use trust.Authority.Validate
use trust.Authority.Validate.{validate_scope}

pub record ClaimType : Type 0 where
  pub namespace : Bytes
  pub name : Bytes

pub record Provenance : Type 0 where
  pub source : Bytes
  pub method : Bytes
  pub timestamp : Time

-- `Value any` is nil or some value, here by its JSON text.
pub record Claim : Type 0 where
  pub issuer : Bytes
  pub subject : Bytes
  pub claim_type : ClaimType
  pub value : Option Bytes
  pub scope : Scope
  pub validity : Validity
  pub provenance : Provenance

pub data Error : Type 0 where
  nil_claim empty_issuer empty_subject empty_claim_type_namespace empty_claim_type_name nil_value :
      Error
  invalid_scope : Validate.Error → Error

unfoldable pub validate : Option Claim → Outcome Error (Unit {0})
validate none = err nil_claim
validate (some c) =
    if length c.issuer == 0
    then err empty_issuer
    else if length c.subject == 0
    then err empty_subject
    else if length c.claim_type.namespace == 0
    then err empty_claim_type_namespace
    else if length c.claim_type.name == 0
    then err empty_claim_type_name
    else elim (c.value) [
      | none ↦ err nil_value
      | some v ↦ map_err invalid_scope (validate_scope c.scope)
    ]
