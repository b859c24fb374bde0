-- ===== src/Verification/Checks.antt =====
-- verification/checks_single.go, checks_chain.go and checks_evidence.go: the checks of the pipeline.
use trust.Prelude.{
  map_err, ℕ, suc, List, [], ◌∷◌, not, ◌&&◌, ◌||◌, Option, none, some, if◌then◌else◌, length, ◌==◌,
  ltb, Outcome, ok, err, panic, ◌>>=◌, at, Bytes, bytes_eq, ℤ, pos, negsuc, int_eq,
}
use trust.Authority.Model.{Time, status_active, status_revoked, status_superseded, status_expired}
use trust.Delegation.Subset
use trust.Delegation.Subset.{verify_subset}
use trust.Attestation.Model.{Attestation}
use trust.Attestation.Authorize
use trust.Attestation.Authorize.{verify_authorization}
use trust.Signature.Registry.{PublicKey}
use trust.Signature.Proof
use trust.Signature.Proof.{verify_authority_proof, verify_signature}
use trust.Verification.Model.{
  Error, signature_mismatch, signature_key_mismatch, authority_invalid, delegation_depth,
  capability_not_granted, scope_violation, not_yet_valid, expired, revoked, superseded,
  key_version_superseded, key_binding, commitment_invalid, delegation_error, AuthorityHop,
  KeyVersion, CommitmentProof, Inputs, Provenance,
}

-- What a check returns: errSkipCheck, or an error together with `ctx.hop`.
pub data Trouble : Type 0 where
  skip_check : Trouble
  fail_with : Error → ℤ → Trouble

-- `ctx.hop` where no check sets it.
abbrev pub no_hop : ℤ
no_hop = negsuc 0

-- What the engine is made of, with the functions of other packages that the checks call: did.Parse,
-- the marshalling of public keys to bytes, the configured KeyBinder and CommitmentChecker on the inputs;
-- each may return, fail or panic. `wall_clock` is the system clock.
pub record Engine (Document : Type 0) : Type 0 where
  pub clock : Time
  pub wall_clock : Time
  pub parse_did : Bytes → Option Bytes
  pub marshal_public_key : PublicKey → Outcome (Unit {0}) Bytes
  pub bind : Bytes → Document → Outcome (Unit {0}) PublicKey
  pub commitment_checker : Option (CommitmentProof → Outcome (Unit {0}) (Unit {0}))

-- `attestation` and `signing_key` are those of `inputs`, behind the nil tests of Verify.
pub record Context (Document : Type 0) : Type 0 where
  pub attestation : Attestation
  pub signing_key : PublicKey
  pub inputs : Inputs Document
  pub now : Time
  pub prov : Provenance

abbrev pub to_option {ℓ} : {E : Type 0} {A : Type ℓ} → Outcome E A → Option A
to_option (ok a) = some a
to_option (err e) = none
to_option panic = none

abbrev pub map_signature_error : Proof.Error → Error
map_signature_error e = elim e [ Proof.wrong_key ↦ signature_key_mismatch | _ ↦ signature_mismatch ]

abbrev pub map_authorization_error : Authorize.Error → Error
map_authorization_error e = elim e [
  | Authorize.capability_not_granted ↦ capability_not_granted
  | Authorize.authorization_scope ↦ scope_violation
  | _ ↦ authority_invalid
]

unfoldable pub map_delegation_error : Subset.Error → Error
map_delegation_error e = elim e [
  | Subset.capability_escalation ↦ capability_not_granted
  | Subset.scope_escalation ↦ scope_violation
  | Subset.validity_escalation ↦ scope_violation
  | Subset.depth_escalation ↦ delegation_depth
  | other ↦ delegation_error other
]

-- The loop of checkTemporal over the hops, from the index `i` on.
unfoldable pub check_windows : Time → ℕ → List AuthorityHop → Outcome Trouble (Unit {0})
check_windows now i [] = ok tt
check_windows now i (hop ∷ chain) =
    let rest = check_windows now (suc i) chain in
    at hop.authority >>= λ auth.
    if ltb now auth.validity.not_before
    then err (fail_with not_yet_valid (pos i))
    else if ltb auth.validity.not_after now
    then err (fail_with expired (pos i))
    else rest

-- The switch of checkRevocation.
unfoldable pub check_status : ℤ → ℕ → Outcome Trouble (Unit {0})
check_status status i =
    if int_eq status status_active
    then ok tt
    else if int_eq status status_revoked
    then err (fail_with revoked (pos i))
    else if int_eq status status_superseded
    then err (fail_with superseded (pos i))
    else if int_eq status status_expired
    then err (fail_with expired (pos i))
    else err (fail_with authority_invalid (pos i))

unfoldable pub check_statuses : ℕ → List AuthorityHop → Outcome Trouble (Unit {0})
unfolding check_status
check_statuses i [] = ok tt
check_statuses i (hop ∷ chain) =
    at hop.authority >>= λ auth. check_status auth.status i >>= λ _. check_statuses (suc i) chain

-- One round of keyVersionAt; `none` is `!found`.
unfoldable pub later_version : Time → Option KeyVersion → KeyVersion → Option KeyVersion
later_version now none v = if ltb now v.bound_at then none else some v
later_version now (some bound) v =
    if ltb now v.bound_at
    then some bound
    else if ltb bound.bound_at v.bound_at
        || ((v.bound_at == bound.bound_at) && ltb bound.version v.version)
    then some v
    else some bound

unfoldable pub key_version_from : Time → Option KeyVersion → List KeyVersion → Option KeyVersion
unfolding later_version
key_version_from now bound [] = bound
key_version_from now bound (v ∷ history) = key_version_from now (later_version now bound v) history

unfoldable pub key_version_at : List KeyVersion → Time → Option KeyVersion
unfolding key_version_from
key_version_at history now = key_version_from now none history

-- checkSigningKeyVersion on the version in force.
unfoldable pub check_version : ℕ → Time → Option KeyVersion → Outcome Trouble (Unit {0})
check_version used now none = err (fail_with key_binding no_hop)
check_version used now (some bound) =
    if ltb used bound.version
    then err (fail_with key_version_superseded no_hop)
    else if ltb bound.version used
    then err (fail_with key_binding no_hop)
    else if not (bound.revoked_at == 0) && not (ltb now bound.revoked_at)
    then err (fail_with revoked no_hop)
    else ok tt

unfoldable pub check_signing_key_version : List KeyVersion → ℕ → Time → Outcome Trouble (Unit {0})
unfolding check_version
check_signing_key_version history used now =
    if length history == 0 then ok tt else check_version used now (key_version_at history now)

-- A lookup in the map of evidence.
unfoldable pub content_of : List (Bytes × Bytes) → Bytes → Option Bytes
content_of [] key = none
content_of ((k, content) ∷ evidence) key =
    if bytes_eq k key then some content else content_of evidence key

-- A nil slice is an empty one.
abbrev pub bytes_or_nil : Option Bytes → Bytes
bytes_or_nil none = []
bytes_or_nil (some content) = content

-- The loop of checkCommitment.
unfoldable pub check_proofs :
    (CommitmentProof → Outcome (Unit {0}) (Unit {0}))
    → List CommitmentProof
    → Outcome Trouble (Unit {0})
check_proofs verifies [] = ok tt
check_proofs verifies (proof ∷ proofs) =
    map_err (λ _. fail_with commitment_invalid no_hop) (verifies proof) >>= λ _.
    check_proofs verifies proofs
