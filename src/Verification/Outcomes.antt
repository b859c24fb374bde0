-- ===== src/Verification/Outcomes.antt =====
-- verification/engine.go: what the loop over the checks records.
use trust.Prelude.{
  ◌≡◌, refl, sym, ap, ◌∙◌, subst, List, [], ◌∷◌, false, All, Outcome, ok, err, panic, >>=-eq-ok,
  ok-injective,
}
use trust.Verification.Model.{CheckId}
use trust.Verification.Checks.{Trouble, skip_check, fail_with, Context}
use trust.Verification.Engine.{
  prerequisites, has_failed, any_failed, prerequisite_failed, Verdict, passed, skipped, failed_with,
  Verdicts, record_verdict, failed_after, verdict_of, CheckSpec, run_checks,
}

-- A check that passed, or did not apply.
pub data Clears (o : Outcome Trouble (Unit {0})) : Type 0 where
  passes : o ≡ ok tt → Clears o
  skips : o ≡ err skip_check → Clears o

none_failed : (required : List CheckId) → any_failed [] required ≡ false
unfolding any_failed has_failed
none_failed [] = refl
none_failed (p ∷ required) = none_failed required

no_prerequisite_failed : (id : CheckId) → prerequisite_failed [] id ≡ false
unfolding prerequisite_failed
no_prerequisite_failed id = none_failed (prerequisites id)

-- A verdict that is no failure.
data IsFine : Verdict → Type 0 where
  fine_passed : IsFine passed
  fine_skipped : IsFine skipped

verdict_of-Clears :
    (o : Outcome Trouble (Unit {0})) (v : Verdict) → verdict_of o ≡ ok v → IsFine v → Clears o
unfolding verdict_of
verdict_of-Clears (ok tt) v h f = passes refl
verdict_of-Clears (err skip_check) v h f = skips refl
verdict_of-Clears (err (fail_with e hop)) v h f =
    let bad : failed_with e hop ≡ v = ok-injective h in elim (subst IsFine (sym bad) f) [ ]
verdict_of-Clears panic v h f = absurd (cc)

Clears-verdict_of :
    (o : Outcome Trouble (Unit {0})) → Clears o → (v : Verdict) × IsFine v × (verdict_of o ≡ ok v)
unfolding verdict_of
Clears-verdict_of o (passes e) = (passed, fine_passed, rw e refl)
Clears-verdict_of o (skips e) = (skipped, fine_skipped, rw e refl)

record_verdict-IsFine :
    (id : CheckId) (v : Verdict) (rest : Verdicts)
    → (record_verdict id v rest).1 ≡ []
    → IsFine v × (rest.1 ≡ [])
unfolding record_verdict
record_verdict-IsFine id passed rest h = (fine_passed, h)
record_verdict-IsFine id skipped rest h = (fine_skipped, h)
record_verdict-IsFine id (failed_with e hop) rest h = absurd (cc)

fine-record_verdict :
    (id : CheckId) (v : Verdict) (rest : Verdicts)
    → IsFine v
    → (record_verdict id v rest).1 ≡ rest.1
unfolding record_verdict
fine-record_verdict id passed rest fine_passed = refl
fine-record_verdict id skipped rest fine_skipped = refl
fine-record_verdict id (failed_with e hop) rest fine = elim fine [ ]

fine-failed_after : (id : CheckId) (v : Verdict) → IsFine v → failed_after id v [] ≡ []
unfolding failed_after
fine-failed_after id passed fine_passed = refl
fine-failed_after id skipped fine_skipped = refl
fine-failed_after id (failed_with e hop) fine = elim fine [ ]

module _ {Document : Type 0} (ctx : Context Document) where
  abbrev pub AllClear : List (CheckSpec Document) → Type 0
  AllClear specs = All (λ spec. Clears (spec.run ctx)) specs

  run_checks-step :
      (spec : CheckSpec Document) (specs : List (CheckSpec Document)) (verdicts : Verdicts)
      → run_checks ctx (spec ∷ specs) [] ≡ ok verdicts
      → (v : Verdict) × (rest : Verdicts) × (verdict_of (spec.run ctx) ≡ ok v)
        × (run_checks ctx specs (failed_after spec.id v []) ≡ ok rest)
        × (record_verdict spec.id v rest ≡ verdicts)
  unfolding run_checks
  run_checks-step spec specs verdicts h =
      let h' = rw (no_prerequisite_failed spec.id) at h in
      let (v, is, h1) = >>=-eq-ok (verdict_of (spec.run ctx)) _ h' in
      let (rest, after, h2) = >>=-eq-ok (run_checks ctx specs (failed_after spec.id v [])) _ h1 in
      (v, rest, is, after, ok-injective h2)

  -- No failure is recorded only if every check clears.
  pub run_checks-AllClear :
      (specs : List (CheckSpec Document)) (verdicts : Verdicts)
      → run_checks ctx specs [] ≡ ok verdicts
      → verdicts.1 ≡ []
      → AllClear specs
  run_checks-AllClear [] verdicts h none_recorded = tt
  run_checks-AllClear (spec ∷ specs) verdicts h none_recorded =
      let (v, rest, is, after, whole) = run_checks-step spec specs verdicts h in
      let (fine, none_after) =
        record_verdict-IsFine spec.id v rest (ap (λ (p : Verdicts). p.1) whole ∙ none_recorded) in
      (
        verdict_of-Clears (spec.run ctx) v is fine,
        run_checks-AllClear specs rest (rw (fine-failed_after spec.id v fine) at after) none_after,
      )

  -- If every check clears then the loop ends and records no failure.
  AllClear-run_checks :
      (specs : List (CheckSpec Document))
      → AllClear specs
      → (verdicts : Verdicts) × (run_checks ctx specs [] ≡ ok verdicts) × (verdicts.1 ≡ [])
  unfolding run_checks
  AllClear-run_checks [] all = (([], []), refl, refl)
  AllClear-run_checks (spec ∷ specs) (clear, all) =
      let (rest, after, none_after) = AllClear-run_checks specs all in
      let (v, fine, is) = Clears-verdict_of (spec.run ctx) clear in
      (
        record_verdict spec.id v rest,
        rw (no_prerequisite_failed spec.id, is, fine-failed_after spec.id v fine, after) refl,
        fine-record_verdict spec.id v rest fine ∙ none_after,
      )
