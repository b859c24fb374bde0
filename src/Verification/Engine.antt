-- ===== src/Verification/Engine.antt =====
-- verification/engine.go, and the checks of the pipeline on a context.
use trust.Prelude.{
  List, [], ◌∷◌, Bool, false, ◌||◌, Option, none, some, if◌then◌else◌, length, ◌==◌, ltb, Outcome,
  ok, err, panic, ◌>>=◌, at, map_err, ℤ,
}
use trust.Merkle.Hash.{Hasher}
use trust.Canonical.{Encoders, authority_hash, evidence_hash}
use trust.Authority.Model.{Time}
use trust.Attestation.Model.{Attestation, validate}
use trust.Attestation.Authorize.{verify_authorization}
use trust.Signature.Registry.{PublicKey, Schemes}
use trust.Signature.Proof.{verify_signature}
use trust.Verification.Model.{
  Error, not_root_authority, not_yet_valid, expired, identity_unresolved, structural_failed,
  commitment_invalid, nil_attestation, nil_signing_key, empty_chain, CheckId, check_structural,
  check_signature, check_authorization, check_authority_proof, check_chain_link,
  check_root_authority, check_temporal, check_revocation, check_identity, check_key_binding,
  check_evidence, check_provenance, check_commitment, check_eq, CheckResult, check_passed,
  check_failed, check_skipped, Failure, Result, Inputs, Provenance,
}
use trust.Verification.Trace.{first, last, hash_ref, build_provenance, verify_provenance}
use trust.Verification.Checks.{
  Trouble, skip_check, fail_with, no_hop, Engine, Context, to_option, map_signature_error,
  map_authorization_error, check_windows, check_statuses, check_signing_key_version, check_proofs,
}
use trust.Verification.Hops.{
  resolve, bind_key_matches, check_links, check_contents, check_authority_proofs,
}

-- checkPrerequisites.
unfoldable pub prerequisites : CheckId → List CheckId
prerequisites check_structural = []
prerequisites check_signature = check_structural ∷ []
prerequisites check_authorization = check_signature ∷ []
prerequisites check_authority_proof = check_authorization ∷ []
prerequisites check_chain_link = check_authority_proof ∷ []
prerequisites check_root_authority = check_chain_link ∷ []
prerequisites check_temporal = check_structural ∷ []
prerequisites check_revocation = check_structural ∷ []
prerequisites check_identity = check_structural ∷ []
prerequisites check_key_binding = check_signature ∷ []
prerequisites check_evidence = check_structural ∷ []
prerequisites check_provenance = check_structural ∷ []
prerequisites check_commitment = check_structural ∷ []

-- `failed[id]`, of the checks that have failed.
unfoldable pub has_failed : List CheckId → CheckId → Bool
has_failed [] id = false
has_failed (f ∷ failed) id = check_eq f id || has_failed failed id

unfoldable pub any_failed : List CheckId → List CheckId → Bool
unfolding has_failed
any_failed failed [] = false
any_failed failed (p ∷ required) = has_failed failed p || any_failed failed required

unfoldable pub prerequisite_failed : List CheckId → CheckId → Bool
unfolding any_failed prerequisites
prerequisite_failed failed id = any_failed failed (prerequisites id)

-- What the loop of Verify records of a check.
pub data Verdict : Type 0 where
  passed skipped : Verdict
  failed_with : Error → ℤ → Verdict

abbrev pub Verdicts : Type 0
Verdicts = List CheckResult × List Failure

unfoldable pub record_verdict : CheckId → Verdict → Verdicts → Verdicts
record_verdict id passed (checks, failures) =
    (record { id = id; status = check_passed; problem = none } ∷ checks, failures)
record_verdict id skipped (checks, failures) =
    (record { id = id; status = check_skipped; problem = none } ∷ checks, failures)
record_verdict id (failed_with e hop) (checks, failures) = (
  record { id = id; status = check_failed; problem = some e } ∷ checks,
  record { check = id; problem = e; hop = hop } ∷ failures,
)

-- The set of failed checks after a verdict.
unfoldable pub failed_after : CheckId → Verdict → List CheckId → List CheckId
failed_after id passed failed = failed
failed_after id skipped failed = failed
failed_after id (failed_with e hop) failed = id ∷ failed

-- The switch on the error of a check; the outer `panic` is the check's own.
unfoldable pub verdict_of : Outcome Trouble (Unit {0}) → Outcome Error Verdict
verdict_of (ok done) = ok passed
verdict_of (err skip_check) = ok skipped
verdict_of (err (fail_with e hop)) = ok (failed_with e hop)
verdict_of panic = panic

pub record CheckSpec (Document : Type 0) : Type 0 where
  pub id : CheckId
  pub run : Context Document → Outcome Trouble (Unit {0})

module _ {Document : Type 0} where
  -- The loop of Verify, with the checks that have failed so far.
  unfoldable pub run_checks :
      Context Document → List (CheckSpec Document) → List CheckId → Outcome Error Verdicts
  unfolding verdict_of failed_after record_verdict prerequisite_failed
  run_checks ctx [] failed = ok ([], [])
  run_checks ctx (spec ∷ specs) failed =
      (if prerequisite_failed failed spec.id then ok skipped else verdict_of (spec.run ctx))
      >>= λ verdict. run_checks ctx specs (failed_after spec.id verdict failed) >>= λ rest.
          ok (record_verdict spec.id verdict rest)

unfoldable pub assemble : Provenance → Verdicts → Result
assemble prov (checks, failures) = record {
  valid = length failures == 0;
  provenance = prov;
  checks = checks;
  failures = failures;
}

-- The evaluation instant.
abbrev pub now_of : {Document : Type 0} → Engine Document → Inputs Document → Time
now_of engine inputs = if inputs.now == 0 then engine.clock else inputs.now

module _ ⦃hasher : Hasher⦄ (encoders : Encoders) (schemes : Schemes) {Document : Type 0}
    (engine : Engine Document) where
  unfoldable pub run_structural : Context Document → Outcome Trouble (Unit {0})
  run_structural ctx =
      map_err (λ _. fail_with structural_failed no_hop)
        (validate (λ ev. to_option (evidence_hash encoders (some ev))) (some ctx.attestation))

  unfoldable pub run_signature : Context Document → Outcome Trouble (Unit {0})
  run_signature ctx =
      map_err (λ e. fail_with (map_signature_error e) no_hop)
        (verify_signature encoders schemes (some ctx.attestation) ctx.signing_key)

  -- VerifyAuthorization reads the system clock, whatever `ctx.now` is.
  unfoldable pub run_authorization : Context Document → Outcome Trouble (Unit {0})
  run_authorization ctx = at (first ctx.inputs.chain) >>= λ leaf.
      map_err (λ e. fail_with (map_authorization_error e) no_hop)
        (verify_authorization (λ auth. to_option (hash_ref (authority_hash encoders (some auth))))
          engine.wall_clock (some ctx.attestation) leaf.authority)

  unfoldable pub run_authority_proof : Context Document → Outcome Trouble (Unit {0})
  run_authority_proof ctx = check_authority_proofs encoders schemes 0 ctx.inputs.chain

  unfoldable pub run_chain_link : Context Document → Outcome Trouble (Unit {0})
  run_chain_link ctx = check_links encoders 0 ctx.inputs.chain

  unfoldable pub run_root_authority : Context Document → Outcome Trouble (Unit {0})
  run_root_authority ctx = at (last ctx.inputs.chain) >>= λ hop. at hop.authority >>= λ root.
      elim (root.parent) [ none ↦ ok tt | some r ↦ err (fail_with not_root_authority no_hop) ]

  unfoldable pub run_temporal : Context Document → Outcome Trouble (Unit {0})
  run_temporal ctx =
      if ltb ctx.now ctx.attestation.validity.not_before
      then err (fail_with not_yet_valid no_hop)
      else if ltb ctx.attestation.validity.not_after ctx.now
      then err (fail_with expired no_hop)
      else check_windows ctx.now 0 ctx.inputs.chain

  unfoldable pub run_revocation : Context Document → Outcome Trouble (Unit {0})
  run_revocation ctx = check_statuses 0 ctx.inputs.chain

  unfoldable pub run_identity : Context Document → Outcome Trouble (Unit {0})
  run_identity ctx = elim (ctx.inputs.identity_resolver) [
    | none ↦ ok tt
    | some resolver ↦ at (last ctx.inputs.chain) >>= λ hop. at hop.authority >>= λ root.
        resolve engine resolver identity_unresolved root.subject >>= λ _. ok tt
  ]

  unfoldable pub run_key_binding : Context Document → Outcome Trouble (Unit {0})
  run_key_binding ctx =
      check_signing_key_version ctx.inputs.key_versions ctx.attestation.signing_key_version ctx.now
      >>= λ _. elim (ctx.inputs.identity_resolver) [
        | none ↦ ok tt
        | some resolver ↦
            bind_key_matches engine resolver ctx.attestation.issuer ctx.attestation.signing_key_id
              ctx.signing_key
            >>= λ _. at (last ctx.inputs.chain) >>= λ hop. at hop.authority >>= λ root.
                bind_key_matches engine resolver root.subject root.proof.key_id hop.public_key
      ]

  unfoldable pub run_evidence : Context Document → Outcome Trouble (Unit {0})
  run_evidence ctx = check_contents encoders ctx.inputs.evidence ctx.attestation.evidence

  unfoldable pub run_provenance : Context Document → Outcome Trouble (Unit {0})
  run_provenance ctx =
      map_err (λ e. fail_with e no_hop) (verify_provenance encoders (some ctx.prov) ctx.inputs)

  unfoldable pub run_commitment : Context Document → Outcome Trouble (Unit {0})
  run_commitment ctx = elim (engine.commitment_checker) [
    | none ↦ err skip_check
    | some verifies ↦
        if length ctx.inputs.commitments == 0
        then err (fail_with commitment_invalid no_hop)
        else check_proofs verifies ctx.inputs.commitments
  ]

  unfoldable pub default_checks : List (CheckSpec Document)
  default_checks =
      record { id = check_structural; run = run_structural }
      ∷ record { id = check_signature; run = run_signature }
      ∷ record { id = check_authorization; run = run_authorization }
      ∷ record { id = check_authority_proof; run = run_authority_proof }
      ∷ record { id = check_chain_link; run = run_chain_link }
      ∷ record { id = check_root_authority; run = run_root_authority }
      ∷ record { id = check_temporal; run = run_temporal }
      ∷ record { id = check_revocation; run = run_revocation }
      ∷ record { id = check_identity; run = run_identity }
      ∷ record { id = check_key_binding; run = run_key_binding }
      ∷ record { id = check_evidence; run = run_evidence }
      ∷ record { id = check_provenance; run = run_provenance }
      ∷ record { id = check_commitment; run = run_commitment }
      ∷ []

  -- Verify behind its nil tests, on the attestation and the key.
  unfoldable pub verify_present : Inputs Document → Attestation → PublicKey → Outcome Error Result
  unfolding assemble default_checks run_checks
  verify_present inputs att key = build_provenance encoders inputs >>= λ prov.
      run_checks
        (record {
          attestation = att;
          signing_key = key;
          inputs = inputs;
          now = now_of engine inputs;
          prov = prov;
        })
        default_checks []
      >>= λ verdicts. ok (assemble prov verdicts)

  -- The nil tests.
  unfoldable pub verify_with :
      Inputs Document → Option Attestation → Option PublicKey → Outcome Error Result
  unfolding verify_present
  verify_with inputs none key = err nil_attestation
  verify_with inputs (some att) none = err nil_signing_key
  verify_with inputs (some att) (some key) =
      if length inputs.chain == 0 then err empty_chain else verify_present inputs att key

  unfoldable pub verify : Inputs Document → Outcome Error Result
  unfolding verify_with
  verify inputs = verify_with inputs inputs.attestation inputs.signing_key
