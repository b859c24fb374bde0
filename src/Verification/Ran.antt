-- ===== src/Verification/Ran.antt =====
-- verification/engine.go: how Verify reaches a result, and that a valid one clears every check.
use trust.Prelude.{
  ◌≡◌, refl, ap, ◌∙◌, List, [], ◌∷◌, Bool, true, false, Option, none, some, if◌then◌else◌, length,
  ◌==◌, arith, Outcome, ok, err, >>=-eq-ok, ok-injective,
}
use trust.Merkle.Hash.{Hasher}
use trust.Canonical.{Encoders}
use trust.Attestation.Model.{Attestation}
use trust.Signature.Registry.{PublicKey, Schemes}
use trust.Verification.Model.{Error, empty_chain, Inputs, Provenance, Result}
use trust.Verification.Trace.{build_provenance}
use trust.Verification.Checks.{Engine, Context}
use trust.Verification.Engine.{
  Verdicts, run_checks, default_checks, assemble, now_of, verify_present, verify_with, verify,
}
use trust.Verification.Outcomes.{AllClear, run_checks-AllClear}

none_counted : {A : Type 0} (xs : List A) → (length xs == 0) ≡ true → xs ≡ []
none_counted [] h = refl
none_counted (x ∷ xs) h = absurd (ground arith)

module _ ⦃hasher : Hasher⦄ (encoders : Encoders) (schemes : Schemes) {Document : Type 0}
    (engine : Engine Document) where
  abbrev pub context_of : Inputs Document → Attestation → PublicKey → Provenance → Context Document
  context_of inputs att key prov = record {
    attestation = att;
    signing_key = key;
    inputs = inputs;
    now = now_of engine inputs;
    prov = prov;
  }

  -- How Verify reached a result.
  pub record Ran (inputs : Inputs Document) (result : Result) : Type 0 where
    pub att : Attestation
    pub key : PublicKey
    pub attestation_is : inputs.attestation ≡ some att
    pub key_is : inputs.signing_key ≡ some key
    pub prov : Provenance
    pub built : build_provenance encoders inputs ≡ ok prov
    pub verdicts : Verdicts
    pub ran :
        run_checks (context_of inputs att key prov) (default_checks encoders schemes engine) []
        ≡ ok verdicts
    pub whole : assemble prov verdicts ≡ result

  nonempty-step :
      (b : Bool) (e : Error) (rest : Outcome Error Result) (result : Result)
      → (if b then err e else rest) ≡ ok result
      → rest ≡ ok result
  nonempty-step true e rest result h = absurd (cc)
  nonempty-step false e rest result h = h

  verify_present-Ran :
      (inputs : Inputs Document) (result : Result) (att : Attestation) (key : PublicKey)
      → inputs.attestation ≡ some att
      → inputs.signing_key ≡ some key
      → verify_present encoders schemes engine inputs att key ≡ ok result
      → Ran inputs result
  unfolding verify_present
  verify_present-Ran inputs result att key a k h =
      let (prov, built, h1) = >>=-eq-ok (build_provenance encoders inputs) _ h in
      let (verdicts, ran, h2) =
        >>=-eq-ok
          (run_checks (context_of inputs att key prov) (default_checks encoders schemes engine) [])
          _ h1 in
      record {
        att = att;
        key = key;
        attestation_is = a;
        key_is = k;
        prov = prov;
        built = built;
        verdicts = verdicts;
        ran = ran;
        whole = ok-injective h2;
      }

  verify_with-Ran :
      (inputs : Inputs Document) (result : Result) (att : Option Attestation)
      (key : Option PublicKey)
      → inputs.attestation ≡ att
      → inputs.signing_key ≡ key
      → verify_with encoders schemes engine inputs att key ≡ ok result
      → Ran inputs result
  unfolding verify_with
  verify_with-Ran inputs result none key a k h = absurd (cc)
  verify_with-Ran inputs result (some att) none a k h = absurd (cc)
  verify_with-Ran inputs result (some att) (some key) a k h =
      verify_present-Ran inputs result att key a k
        (nonempty-step (length inputs.chain == 0) empty_chain _ result h)

  pub verify-Ran :
      (inputs : Inputs Document) (result : Result)
      → verify encoders schemes engine inputs ≡ ok result
      → Ran inputs result
  unfolding verify
  verify-Ran inputs result h =
      verify_with-Ran inputs result inputs.attestation inputs.signing_key refl refl h

  pub valid-AllClear :
      (inputs : Inputs Document) (result : Result) (r : Ran inputs result)
      → result.valid ≡ true
      → AllClear (context_of inputs r.att r.key r.prov) (default_checks encoders schemes engine)
  unfolding assemble
  valid-AllClear inputs result r valid =
      run_checks-AllClear (context_of inputs r.att r.key r.prov)
        (default_checks encoders schemes engine) r.verdicts r.ran
        (none_counted r.verdicts.1 (ap (λ (q : Result). q.valid) r.whole ∙ valid))
