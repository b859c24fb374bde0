-- ===== src/Verification/Terminates.antt =====
-- verification/engine.go: Verify ends with a result, never with a panic.
use trust.Prelude.{
  ◌≡◌, refl, sym, subst, List, [], ◌∷◌, Bool, true, false, Option, none, some, some-injective, All,
  if◌then◌else◌, length, ◌==◌, ltb, arith, Outcome, ok, err, panic, ◌>>=◌, >>=-eq-ok, at, Bytes,
}
use trust.Merkle.Hash.{Hasher}
use trust.Canonical.{Encoders, authority_hash, attestation_hash, claim_hash}
use trust.Authority.Model.{Authority}
use trust.Attestation.Model.{Attestation}
use trust.Signature.Registry.{PublicKey, Schemes}
use trust.Verification.Model.{
  Error, AuthorityHop, CommitmentProof, Inputs, Result, Provenance, CheckId, empty_chain,
  not_root_authority, identity_unresolved, commitment_invalid,
}
use trust.Verification.Trace.{
  last, first, hash_ref, hop_refs, build_links, build_from, build_provenance, verify_provenance,
}
use trust.Verification.Checks.{
  Trouble, skip_check, fail_with, no_hop, Engine, Context, check_proofs,
}
use trust.Verification.Engine.{
  Verdict, passed, skipped, failed_with, Verdicts, record_verdict, failed_after, verdict_of,
  prerequisite_failed, CheckSpec, run_checks, run_structural, run_signature, run_authorization,
  run_authority_proof, run_chain_link, run_root_authority, run_temporal, run_revocation,
  run_identity, run_key_binding, run_evidence, run_provenance, run_commitment, default_checks,
  assemble, verify_present, verify_with, verify,
}
use trust.Verification.Links.{verify_provenance-build}
use trust.Verification.Live.{
  Returns, >>=-Returns, ok-Returns, err-Returns, if-Returns, map_err-Returns, validate-Returns,
  verify_authorization-Returns, verify_signature-Returns, IsUsable,
}
use trust.Verification.Ran.{context_of}
use trust.Verification.Total.{
  IsPresent, Answers, at-Returns, check_windows-Returns, check_statuses-Returns,
  check_signing_key_version-Returns, check_proofs-Returns, resolve-Returns,
  bind_key_matches-Returns, check_links-Returns, check_contents-Returns,
  check_authority_proofs-Returns,
}

verdict_of-ok : (o : Outcome Trouble (Unit {0})) → Returns o → (v : Verdict) × (verdict_of o ≡ ok v)
unfolding verdict_of
verdict_of-ok (ok tt) r = (passed, refl)
verdict_of-ok (err skip_check) r = (skipped, refl)
verdict_of-ok (err (fail_with e hop)) r = (failed_with e hop, refl)
verdict_of-ok panic r = absurd (r refl)

choice-ok :
    (b : Bool) (o : Outcome Trouble (Unit {0}))
    → Returns o
    → (v : Verdict) × ((if b then ok skipped else verdict_of o) ≡ ok v)
choice-ok true o r = (skipped, refl)
choice-ok false o r = verdict_of-ok o r

-- The loop ends if no check panics.
run_checks-ok :
    {Document : Type 0} (ctx : Context Document) (specs : List (CheckSpec Document))
    (failed : List CheckId)
    → All (λ spec. Returns (spec.run ctx)) specs
    → (verdicts : Verdicts) × (run_checks ctx specs failed ≡ ok verdicts)
unfolding run_checks
run_checks-ok ctx [] failed all = (([], []), refl)
run_checks-ok ctx (spec ∷ specs) failed (returns, all) =
    let (v, is) = choice-ok (prerequisite_failed failed spec.id) (spec.run ctx) returns in
    let (rest, after) = run_checks-ok ctx specs (failed_after spec.id v failed) all in
    (record_verdict spec.id v rest, rw (is, after) refl)

last-All :
    (P : AuthorityHop → Type 0) (hop : AuthorityHop) (chain : List AuthorityHop)
    → All P (hop ∷ chain)
    → (end : AuthorityHop) × (last (hop ∷ chain) ≡ some end) × P end
unfolding last
last-All P hop [] (p, tt) = (hop, refl, p)
last-All P hop (next ∷ chain) (p, all) = last-All P next chain all

filled-step :
    (chain : List AuthorityHop) (rest : Outcome Error Provenance) (prov : Provenance)
    → (if length chain == 0 then err empty_chain else rest) ≡ ok prov
    → ((length chain == 0) ≡ false) × (rest ≡ ok prov)
filled-step chain rest prov h = ground arith

ends :
    (P : AuthorityHop → Type 0) (chain : List AuthorityHop)
    → (length chain == 0) ≡ false
    → All P chain
    → ((start : AuthorityHop) × (first chain ≡ some start))
      × ((end : AuthorityHop) × (last chain ≡ some end) × P end)
unfolding first
ends P [] filled all = absurd (ground arith)
ends P (hop ∷ chain) filled all = ((hop, refl), last-All P hop chain all)

All-both :
    (P Q : AuthorityHop → Type 0) (chain : List AuthorityHop)
    → All P chain
    → All Q chain
    → All (λ hop. P hop × Q hop) chain
All-both P Q [] all all' = tt
All-both P Q (hop ∷ chain) (p, all) (q, all') = ((p, q), All-both P Q chain all all')

module _ ⦃hasher : Hasher⦄ (encoders : Encoders) where
  present :
      (hop : AuthorityHop) (o : Option Authority) (ref : Bytes)
      → hop.authority ≡ o
      → hash_ref (authority_hash encoders o) ≡ ok ref
      → IsPresent hop
  unfolding authority_hash hash_ref
  present hop none ref e h = absurd (cc h)
  present hop (some auth) ref e h = (auth, e)

  hop_refs-IsPresent :
      (chain : List AuthorityHop) (refs : List Bytes)
      → hop_refs encoders chain ≡ ok refs
      → All IsPresent chain
  unfolding hop_refs
  hop_refs-IsPresent [] refs h = tt
  hop_refs-IsPresent (hop ∷ chain) refs h =
      let (ref, here, h1) = >>=-eq-ok (hash_ref (authority_hash encoders hop.authority)) _ h in
      let (rest, there, _) = >>=-eq-ok (hop_refs encoders chain) _ h1 in
      (present hop hop.authority ref refl here, hop_refs-IsPresent chain rest there)

  module _ {Document : Type 0} where
    -- A trace is built only over a chain that is not empty and whose authorities are there.
    built-IsPresent :
        (inputs : Inputs Document) (o : Option Attestation) (prov : Provenance)
        → build_from encoders inputs o ≡ ok prov
        → ((length inputs.chain == 0) ≡ false) × All IsPresent inputs.chain
    unfolding build_from build_links
    built-IsPresent inputs none prov h = absurd (cc h)
    built-IsPresent inputs (some att) prov h =
        let (filled, h1) = filled-step inputs.chain (build_links encoders att inputs) prov h in
        let (a, _, h2) = >>=-eq-ok (hash_ref (attestation_hash encoders (some att))) _ h1 in
        let (c, _, h3) = >>=-eq-ok (hash_ref (claim_hash encoders (some att.claim))) _ h2 in
        let (refs, hashed, _) = >>=-eq-ok (hop_refs encoders inputs.chain) _ h3 in
        (filled, hop_refs-IsPresent inputs.chain refs hashed)

at-some-Returns :
    {A B : Type 0} (o : Option A) (a : A) (k : A → Outcome Trouble B)
    → o ≡ some a
    → Returns (k a)
    → Returns (at o >>= k)
at-some-Returns none a k e r = absurd (cc e)
at-some-Returns (some b) a k e r = subst (λ x. Returns (k x)) (sym (some-injective e)) r

parent_check-Returns :
    (o : Option Bytes)
    → Returns {E = Trouble} {A = Unit {0}}
        (elim o [ none ↦ ok tt | some r ↦ err (fail_with not_root_authority no_hop) ])
parent_check-Returns none = ok-Returns tt
parent_check-Returns (some r) = err-Returns _

commitment-Returns :
    (o : Option (CommitmentProof → Outcome (Unit {0}) (Unit {0}))) (proofs : List CommitmentProof)
    → ((checker : CommitmentProof → Outcome (Unit {0}) (Unit {0}))
        → o ≡ some checker
        → (proof : CommitmentProof) → Returns (checker proof))
    → Returns {E = Trouble} {A = Unit {0}} (elim o [
      | none ↦ err skip_check
      | some verifies ↦
          if length proofs == 0
          then err (fail_with commitment_invalid no_hop)
          else check_proofs verifies proofs
    ])
commitment-Returns none proofs f = err-Returns _
commitment-Returns (some verifies) proofs f =
    if-Returns (length proofs == 0) _ _ (err-Returns _)
      (check_proofs-Returns verifies proofs (f verifies refl))

resolver-Returns :
    {R : Type 0} (o : Option R) (next : R → Outcome Trouble (Unit {0}))
    → ((r : R) → o ≡ some r → Returns (next r))
    → Returns {E = Trouble} {A = Unit {0}} (elim o [ none ↦ ok tt | some resolver ↦ next resolver ])
resolver-Returns none next f = ok-Returns tt
resolver-Returns (some r) next f = f r refl

module _ ⦃hasher : Hasher⦄ (encoders : Encoders) (schemes : Schemes) {Document : Type 0}
    (engine : Engine Document) where
  checks-Returns :
      (ctx : Context Document)
      → (length ctx.inputs.chain == 0) ≡ false
      → IsUsable schemes ctx.signing_key
      → All IsPresent ctx.inputs.chain
      → All (λ hop. IsUsable schemes hop.public_key) ctx.inputs.chain
      → Answers schemes engine ctx.inputs
      → verify_provenance encoders (some ctx.prov) ctx.inputs ≡ ok tt
      → All (λ spec. Returns (spec.run ctx)) (default_checks encoders schemes engine)
  unfolding default_checks run_structural run_signature run_authorization run_authority_proof
      run_chain_link run_root_authority run_temporal run_revocation run_identity run_key_binding
      run_evidence run_provenance run_commitment
  checks-Returns ctx filled usable all keys answers traced =
      let chain = ctx.inputs.chain in
      let ((start, at_start), (end, at_end, ((root, is_root), end_key))) =
        ends (λ hop. IsPresent hop × IsUsable schemes hop.public_key) chain filled
          (All-both IsPresent (λ hop. IsUsable schemes hop.public_key) chain all keys) in
      (
        map_err-Returns _ _ (validate-Returns _ ctx.attestation),
        (
          map_err-Returns _ _
              (verify_signature-Returns encoders schemes ctx.attestation ctx.signing_key usable),
          (
            >>=-Returns _ _ (at-Returns (first chain) start at_start) (λ leaf.
                map_err-Returns _ _ (
                  verify_authorization-Returns _ engine.wall_clock ctx.attestation leaf.authority)),
            (
              check_authority_proofs-Returns encoders schemes 0 chain keys,
              (
                check_links-Returns encoders 0 chain all,
                (
                  at-some-Returns (last chain) end _ at_end (
                      at-some-Returns end.authority root _ is_root
                        (parent_check-Returns root.parent)),
                  (
                    if-Returns (ltb ctx.now ctx.attestation.validity.not_before) _ _ (err-Returns _)
                        (if-Returns (ltb ctx.attestation.validity.not_after ctx.now) _ _
                          (err-Returns _) (check_windows-Returns ctx.now 0 chain all)),
                    (
                      check_statuses-Returns 0 chain all,
                      (
                        resolver-Returns ctx.inputs.identity_resolver _ (λ resolver there.
                            at-some-Returns (last chain) end _ at_end (
                              at-some-Returns end.authority root _ is_root (
                                >>=-Returns _ _
                                  (resolve-Returns engine resolver identity_unresolved root.subject
                                    (answers.resolves resolver there))
                                  (λ _. ok-Returns tt)))),
                        (
                          >>=-Returns _ _
                              (check_signing_key_version-Returns ctx.inputs.key_versions
                                ctx.attestation.signing_key_version ctx.now)
                              (λ _.
                                resolver-Returns ctx.inputs.identity_resolver _ (λ resolver there.
                                  >>=-Returns _ _
                                    (bind_key_matches-Returns engine schemes ctx.inputs resolver
                                      ctx.attestation.issuer ctx.attestation.signing_key_id
                                      ctx.signing_key answers there usable)
                                    (λ _. at-some-Returns (last chain) end _ at_end (
                                      at-some-Returns end.authority root _ is_root (
                                        bind_key_matches-Returns engine schemes ctx.inputs resolver
                                          root.subject root.proof.key_id end.public_key answers
                                          there end_key))))),
                          (
                            check_contents-Returns encoders ctx.inputs.evidence
                                ctx.attestation.evidence,
                            (
                              map_err-Returns _ _ (λ q. absurd (cc (traced, q))),
                              (
                                commitment-Returns engine.commitment_checker ctx.inputs.commitments
                                    answers.checks,
                                tt,
                              ),
                            ),
                          ),
                        ),
                      ),
                    ),
                  ),
                ),
              ),
            ),
          ),
        ),
      )

  verify_present-ok :
      (inputs : Inputs Document) (att : Attestation) (key : PublicKey) (prov : Provenance)
      (verdicts : Verdicts)
      → build_provenance encoders inputs ≡ ok prov
      → run_checks
          (context_of encoders schemes engine inputs att key prov)
          (default_checks encoders schemes engine)
          []
        ≡ ok verdicts
      → verify_present encoders schemes engine inputs att key ≡ ok (assemble prov verdicts)
  unfolding verify_present
  verify_present-ok inputs att key prov verdicts built ran = rw (built, ran) refl

  verify_with-ok :
      (inputs : Inputs Document) (att : Attestation) (key : PublicKey) (prov : Provenance)
      → IsUsable schemes key
      → All (λ hop. IsUsable schemes hop.public_key) inputs.chain
      → Answers schemes engine inputs
      → build_provenance encoders inputs ≡ ok prov
      → (result : Result) × (verify_with encoders schemes engine inputs (some att) (some key)
          ≡ ok result)
        × (result.provenance ≡ prov)
  unfolding verify_with build_provenance assemble
  verify_with-ok inputs att key prov usable keys answers built =
      let (filled, all) = built-IsPresent encoders inputs inputs.attestation prov built in
      let ctx = context_of encoders schemes engine inputs att key prov in
      let traced = verify_provenance-build encoders prov inputs built in
      let (verdicts, ran) =
        run_checks-ok ctx (default_checks encoders schemes engine) []
          (checks-Returns ctx filled usable all keys answers traced) in
      (
        assemble prov verdicts,
        rw filled (verify_present-ok inputs att key prov verdicts built ran),
        refl,
      )

  -- Verify ends with a result. For inputs with an attestation and a signing key, of which
  -- BuildProvenance makes a trace, it returns a result that carries the trace, whether the checks
  -- pass, fail or are skipped, where no method of the signing key or of a hop's key panics (no nil
  -- pointer, and Verify returns on it) and the resolver, the binder, the marshalling of keys and the
  -- commitment checker return or fail, the binder with such a key: no check indexes out of the chain
  -- or follows a nil authority.
  pub verify_returns :
      (inputs : Inputs Document) (att : Attestation) (key : PublicKey) (prov : Provenance)
      → inputs.attestation ≡ some att
      → inputs.signing_key ≡ some key
      → IsUsable schemes key
      → All (λ hop. IsUsable schemes hop.public_key) inputs.chain
      → Answers schemes engine inputs
      → build_provenance encoders inputs ≡ ok prov
      → (result : Result) × (verify encoders schemes engine inputs ≡ ok result)
        × (result.provenance ≡ prov)
  unfolding verify
  verify_returns inputs att key prov is is_key usable keys answers built =
      let (result, ran, traced) = verify_with-ok inputs att key prov usable keys answers built in
      (
        result,
        subst (λ k. verify_with encoders schemes engine inputs inputs.attestation k ≡ ok result)
            (sym is_key)
            (subst (λ a. verify_with encoders schemes engine inputs a (some key) ≡ ok result)
              (sym is) ran),
        traced,
      )
