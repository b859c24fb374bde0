-- ===== src/Verification/Recorded.antt =====
-- verification/engine.go and check.go: what Verify reports.
use trust.Prelude.{
  ◌≡◌, refl, sym, ap, ◌∙◌, subst, ◌↔◌, List, [], ◌∷◌, map, true, none, some, if◌then◌else◌, length,
  ◌==◌, arith, ok, >>=-eq-ok, ok-injective,
}
use trust.Merkle.Hash.{Hasher}
use trust.Canonical.{Encoders}
use trust.Signature.Registry.{Schemes}
use trust.Verification.Model.{
  Error, CheckId, check_structural, check_signature, check_authorization, check_authority_proof,
  check_chain_link, check_root_authority, check_temporal, check_revocation, check_identity,
  check_key_binding, check_evidence, check_provenance, check_commitment, CheckResult, Failure,
  Inputs, Result,
}
use trust.Verification.Checks.{Engine, Context}
use trust.Verification.Engine.{
  Verdict, passed, skipped, failed_with, Verdicts, record_verdict, failed_after, verdict_of,
  prerequisite_failed, CheckSpec, run_checks, default_checks, assemble, verify,
}
use trust.Verification.Ran.{context_of, verify-Ran}

-- The pipeline, by the numbers of the checks.
abbrev pub pipeline : List CheckId
pipeline =
    check_structural ∷ check_signature ∷ check_authorization ∷ check_authority_proof
    ∷ check_chain_link ∷ check_root_authority ∷ check_temporal ∷ check_revocation ∷ check_identity
    ∷ check_key_binding ∷ check_evidence ∷ check_provenance ∷ check_commitment ∷ []

-- The checks that a list of results marks by an error.
abbrev pub with_error : List CheckResult → List (CheckId × Error)
with_error [] = []
with_error (c ∷ checks) = elim (c.problem) [
  | none ↦ with_error checks
  | some e ↦ (c.id, e) ∷ with_error checks
]

abbrev pub reported : List Failure → List (CheckId × Error)
reported failures = map (λ f. (f.check, f.problem)) failures

abbrev ids_of : List CheckResult → List CheckId
ids_of checks = map (λ c. c.id) checks

record_verdict-ids_of :
    (id : CheckId) (v : Verdict) (rest : Verdicts)
    → ids_of (record_verdict id v rest).0 ≡ id ∷ ids_of rest.0
unfolding record_verdict
record_verdict-ids_of id passed rest = refl
record_verdict-ids_of id skipped rest = refl
record_verdict-ids_of id (failed_with e hop) rest = refl

record_verdict-reported :
    (id : CheckId) (v : Verdict) (rest : Verdicts)
    → with_error rest.0 ≡ reported rest.1
    → with_error (record_verdict id v rest).0 ≡ reported (record_verdict id v rest).1
unfolding record_verdict
record_verdict-reported id passed rest h = h
record_verdict-reported id skipped rest h = h
record_verdict-reported id (failed_with e hop) rest h =
    ap (λ (l : List (CheckId × Error)). (id, e) ∷ l) h

run_checks-recorded :
    {Document : Type 0} (ctx : Context Document) (specs : List (CheckSpec Document))
    (failed : List CheckId) (verdicts : Verdicts)
    → run_checks ctx specs failed ≡ ok verdicts
    → (ids_of verdicts.0 ≡ map (λ spec. spec.id) specs)
      × (with_error verdicts.0 ≡ reported verdicts.1)
unfolding run_checks
run_checks-recorded ctx [] failed verdicts h =
    let whole : ([], []) ≡ verdicts = ok-injective h in
    (
      ap (λ (v : Verdicts). ids_of v.0) (sym whole),
      subst (λ (v : Verdicts). with_error v.0 ≡ reported v.1) whole refl,
    )
run_checks-recorded ctx (spec ∷ specs) failed verdicts h =
    let (v, is, h1) =
      >>=-eq-ok
        (if prerequisite_failed failed spec.id then ok skipped else verdict_of (spec.run ctx)) _
        h in
    let (rest, after, h2) = >>=-eq-ok (run_checks ctx specs (failed_after spec.id v failed)) _ h1 in
    let whole : record_verdict spec.id v rest ≡ verdicts = ok-injective h2 in
    let (ids, same) = run_checks-recorded ctx specs (failed_after spec.id v failed) rest after in
    (
      ap (λ (w : Verdicts). ids_of w.0) (sym whole)
          ∙ record_verdict-ids_of spec.id v rest
          ∙ ap (λ (l : List CheckId). spec.id ∷ l) ids,
      subst (λ (w : Verdicts). with_error w.0 ≡ reported w.1) whole
          (record_verdict-reported spec.id v rest same),
    )

none_counted_iff : {A : Type 0} (xs : List A) → ((length xs == 0) ≡ true) ↔ (xs ≡ [])
none_counted_iff [] = (λ h. refl, λ h. refl)
none_counted_iff (x ∷ xs) = (λ h. absurd (ground arith), λ h. absurd (cc))

module _ ⦃hasher : Hasher⦄ (encoders : Encoders) (schemes : Schemes) {Document : Type 0}
    (engine : Engine Document) where
  -- A result of Verify reports each of the thirteen checks once, in pipeline order; its failures are
  -- exactly the checks that carry an error, in the same order; and it is valid exactly if there are none.
  pub verify-recorded :
      (inputs : Inputs Document) (result : Result)
      → verify encoders schemes engine inputs ≡ ok result
      → (ids_of result.checks ≡ pipeline)
        × (with_error result.checks ≡ reported result.failures)
        × ((result.valid ≡ true) ↔ (result.failures ≡ []))
  unfolding assemble default_checks
  verify-recorded inputs result h =
      let r = verify-Ran encoders schemes engine inputs result h in
      let ctx = context_of encoders schemes engine inputs r.att r.key r.prov in
      let (ids, same) =
        run_checks-recorded ctx (default_checks encoders schemes engine) [] r.verdicts r.ran in
      subst
        (λ (q : Result).
          (ids_of q.checks ≡ pipeline)
          × (with_error q.checks ≡ reported q.failures)
          × ((q.valid ≡ true) ↔ (q.failures ≡ [])))
        r.whole (ids, same, none_counted_iff r.verdicts.1)
