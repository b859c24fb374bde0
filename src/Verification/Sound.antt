-- ===== src/Verification/Sound.antt =====
-- verification/engine.go: what a valid result means.
use trust.Prelude.{
  ◌≤◌, ◌≡◌, refl, true, Option, none, some, All, if◌then◌else◌, ltb, arith, Outcome, ok, err,
  >>=-eq-ok, at, at-eq-ok, map_err-eq-ok, Bytes,
}
use trust.Merkle.Hash.{Hasher}
use trust.Canonical.{Encoders, authority_hash, attestation_hash, evidence_hash}
use trust.Authority.Model.{Time, Authority}
use trust.Attestation.Model.{Attestation, validate}
use trust.Attestation.Authorize.{verify_authorization}
use trust.Attestation.Granted.{IsGranted, verify_authorization-IsGranted}
use trust.Signature.Registry.{PublicKey, Schemes}
use trust.Signature.Proof.{verify_signature}
use trust.Signature.Signed.{IsSigned}
use trust.Signature.RoundTrip.{verify_signature_iff}
use trust.Verification.Model.{
  structural_failed, not_root_authority, not_yet_valid, expired, AuthorityHop, Inputs, Result,
}
use trust.Verification.Trace.{first, last, hash_ref}
use trust.Verification.Checks.{
  Trouble, fail_with, no_hop, Engine, Context, to_option, map_signature_error,
  map_authorization_error, check_windows,
}
use trust.Verification.Engine.{
  run_structural, run_signature, run_authorization, run_authority_proof, run_chain_link,
  run_root_authority, run_temporal, run_revocation, default_checks, now_of, verify,
}
use trust.Verification.Outcomes.{Clears, passes, skips}
use trust.Verification.Applies.{
  Applies, >>=-Applies, at-Applies, if-Applies, fail-Applies, map_err-Applies,
  check_windows-Applies, check_statuses-Applies, check_links-Applies,
  check_authority_proofs-Applies,
}
use trust.Verification.Hold.{
  Holds, IsCurrent, IsActive, IsChain, IsProved, check_windows-IsCurrent, check_statuses-IsActive,
  check_links-IsChain, check_authority_proofs-IsProved,
}
use trust.Verification.Ran.{context_of, verify-Ran, valid-AllClear}

Clears-ok : (o : Outcome Trouble (Unit {0})) → Applies o → Clears o → o ≡ ok tt
Clears-ok o applies (passes e) = e
Clears-ok o applies (skips e) = absurd (applies e)

module _ ⦃hasher : Hasher⦄ (encoders : Encoders) (schemes : Schemes) {Document : Type 0}
    (engine : Engine Document) where
  abbrev pub reference_of : Authority → Option Bytes
  reference_of auth = to_option (hash_ref (authority_hash encoders (some auth)))

  -- What a valid result says of the attestation, of the chain and of the engine's two clocks.
  pub record IsVerified (inputs : Inputs Document) (att : Attestation) (key : PublicKey)
      : Type 0 where
    pub well_formed :
        validate (λ ev. to_option (evidence_hash encoders (some ev))) (some att) ≡ ok tt
    pub signed :
        IsSigned schemes att.algorithm att.signature (attestation_hash encoders (some att)) key
    pub current :
        (att.validity.not_before ≤ now_of engine inputs)
        × (now_of engine inputs ≤ att.validity.not_after)
    pub leaf : AuthorityHop
    pub leaf_is : first inputs.chain ≡ some leaf
    pub granted : Holds (IsGranted reference_of engine.wall_clock att) leaf
    pub proved : All (IsProved encoders schemes) inputs.chain
    pub chained : IsChain encoders inputs.chain
    pub root : AuthorityHop
    pub root_is : last inputs.chain ≡ some root
    pub no_parent : Holds (λ auth. auth.parent ≡ none) root
    pub all_current : All (Holds (IsCurrent (now_of engine inputs))) inputs.chain
    pub all_active : All (Holds IsActive) inputs.chain

  authorization-IsGranted :
      (att : Attestation) (hop : AuthorityHop) (o : Option Authority)
      → hop.authority ≡ o
      → verify_authorization reference_of engine.wall_clock (some att) o ≡ ok tt
      → Holds (IsGranted reference_of engine.wall_clock att) hop
  unfolding verify_authorization
  authorization-IsGranted att hop none e h = absurd (cc)
  authorization-IsGranted att hop (some auth) e h =
      (auth, e, verify_authorization-IsGranted reference_of engine.wall_clock att auth h)

  no_parent-step :
      (o : Option Bytes)
      → ◌≡◌ {A = Outcome Trouble (Unit {0})}
          (elim o [ none ↦ ok tt | some r ↦ err (fail_with not_root_authority no_hop) ])
          (ok tt)
      → o ≡ none
  no_parent-step none h = refl
  no_parent-step (some r) h = absurd (cc)

  temporal-step :
      (now : Time) (att : Attestation) (rest : Outcome Trouble (Unit {0}))
      → (if ltb now att.validity.not_before
          then err (fail_with not_yet_valid no_hop)
          else if ltb att.validity.not_after now
          then err (fail_with expired no_hop)
          else rest)
        ≡ ok tt
      → (att.validity.not_before ≤ now) × (now ≤ att.validity.not_after) × (rest ≡ ok tt)
  temporal-step now att rest h = ground arith

  structural-holds :
      (ctx : Context Document)
      → Clears (run_structural encoders schemes engine ctx)
      → validate (λ ev. to_option (evidence_hash encoders (some ev))) (some ctx.attestation) ≡ ok tt
  unfolding run_structural
  structural-holds ctx c =
      let check =
        validate (λ ev. to_option (evidence_hash encoders (some ev))) (some ctx.attestation) in
      map_err-eq-ok (λ _. fail_with structural_failed no_hop) check
        (Clears-ok _ (map_err-Applies (λ _. structural_failed) no_hop check) c)

  signature-holds :
      (ctx : Context Document)
      → Clears (run_signature encoders schemes engine ctx)
      → IsSigned schemes ctx.attestation.algorithm ctx.attestation.signature
          (attestation_hash encoders (some ctx.attestation))
          ctx.signing_key
  unfolding run_signature
  signature-holds ctx c =
      let check = verify_signature encoders schemes (some ctx.attestation) ctx.signing_key in
      (verify_signature_iff encoders schemes ctx.attestation ctx.signing_key).0 (
        map_err-eq-ok (λ e. fail_with (map_signature_error e) no_hop) check
          (Clears-ok _ (map_err-Applies map_signature_error no_hop check) c))

  authorization-Holds :
      (ctx : Context Document)
      → Clears (run_authorization encoders schemes engine ctx)
      → (leaf : AuthorityHop) × (first ctx.inputs.chain ≡ some leaf)
        × Holds (IsGranted reference_of engine.wall_clock ctx.attestation) leaf
  unfolding run_authorization
  authorization-Holds ctx c =
      let h =
        Clears-ok _
          (>>=-Applies (at (first ctx.inputs.chain)) _ (at-Applies (first ctx.inputs.chain))
            (λ leaf. map_err-Applies map_authorization_error no_hop (
              verify_authorization reference_of engine.wall_clock (some ctx.attestation)
                leaf.authority)))
          c in
      let (leaf, here, h1) = >>=-eq-ok (at (first ctx.inputs.chain)) _ h in
      (
        leaf,
        at-eq-ok (first ctx.inputs.chain) here,
        authorization-IsGranted ctx.attestation leaf leaf.authority refl (
            map_err-eq-ok (λ e. fail_with (map_authorization_error e) no_hop)
              (verify_authorization reference_of engine.wall_clock (some ctx.attestation)
                leaf.authority)
              h1),
      )

  parent_check-Applies :
      (o : Option Bytes)
      → Applies {A = Unit {0}}
          (elim o [ none ↦ ok tt | some r ↦ err (fail_with not_root_authority no_hop) ])
  parent_check-Applies none = λ q. absurd (cc q)
  parent_check-Applies (some r) = λ q. absurd (cc q)

  root-Holds :
      (ctx : Context Document)
      → Clears (run_root_authority encoders schemes engine ctx)
      → (root : AuthorityHop) × (last ctx.inputs.chain ≡ some root)
        × Holds (λ auth. auth.parent ≡ none) root
  unfolding run_root_authority
  root-Holds ctx c =
      let h =
        Clears-ok _
          (>>=-Applies (at (last ctx.inputs.chain)) _ (at-Applies (last ctx.inputs.chain)) (λ hop.
            >>=-Applies (at hop.authority) _ (at-Applies hop.authority)
              (λ auth. parent_check-Applies auth.parent)))
          c in
      let (root, here, h1) = >>=-eq-ok (at (last ctx.inputs.chain)) _ h in
      let (auth, present, h2) = >>=-eq-ok (at root.authority) _ h1 in
      (
        root,
        at-eq-ok (last ctx.inputs.chain) here,
        (auth, at-eq-ok root.authority present, no_parent-step auth.parent h2),
      )

  temporal-Holds :
      (ctx : Context Document)
      → Clears (run_temporal encoders schemes engine ctx)
      → (ctx.attestation.validity.not_before ≤ ctx.now)
        × (ctx.now ≤ ctx.attestation.validity.not_after)
        × All (Holds (IsCurrent ctx.now)) ctx.inputs.chain
  unfolding run_temporal
  temporal-Holds ctx c =
      let h =
        Clears-ok _
          (if-Applies (ltb ctx.now ctx.attestation.validity.not_before) _ _
            (fail-Applies not_yet_valid no_hop)
            (if-Applies (ltb ctx.attestation.validity.not_after ctx.now) _ _
              (fail-Applies expired no_hop) (check_windows-Applies ctx.now 0 ctx.inputs.chain)))
          c in
      let (early, late, after) =
        temporal-step ctx.now ctx.attestation (check_windows ctx.now 0 ctx.inputs.chain) h in
      (early, late, check_windows-IsCurrent ctx.now 0 ctx.inputs.chain after)

  -- If Verify returns a valid result, then the attestation is well-formed and signed by the signing key,
  -- its issuer holds the capability under the leaf of the chain, every authority of the chain is
  -- signed by its hop's key, is active and is current at the evaluation instant, each names the next by
  -- its hash and narrows it, and the last has no parent.
  pub verify-IsVerified :
      (inputs : Inputs Document) (result : Result)
      → verify encoders schemes engine inputs ≡ ok result
      → result.valid ≡ true
      → (att : Attestation) × (key : PublicKey) × (inputs.attestation ≡ some att)
        × (inputs.signing_key ≡ some key)
        × IsVerified inputs att key
  unfolding default_checks run_authority_proof run_chain_link run_revocation
  verify-IsVerified inputs result h valid =
      let r = verify-Ran encoders schemes engine inputs result h in
      let ctx = context_of encoders schemes engine inputs r.att r.key r.prov in
      let chain = inputs.chain in
      let (c1, (c2, (c3, (c4, (c5, (c6, (c7, (c8, _)))))))) =
        valid-AllClear encoders schemes engine inputs result r valid in
      let (leaf, leaf_is, granted) = authorization-Holds ctx c3 in
      let (root, root_is, no_parent) = root-Holds ctx c6 in
      let (early, late, all_current) = temporal-Holds ctx c7 in
      (
        r.att,
        r.key,
        r.attestation_is,
        r.key_is,
        record {
          well_formed = structural-holds ctx c1;
          signed = signature-holds ctx c2;
          current = (early, late);
          leaf = leaf;
          leaf_is = leaf_is;
          granted = granted;
          proved =
              check_authority_proofs-IsProved encoders schemes 0 chain
                (Clears-ok _ (check_authority_proofs-Applies encoders schemes 0 chain) c4);
          chained =
              check_links-IsChain encoders 0 chain
                (Clears-ok _ (check_links-Applies encoders 0 chain) c5);
          root = root;
          root_is = root_is;
          no_parent = no_parent;
          all_current = all_current;
          all_active =
              check_statuses-IsActive 0 chain (Clears-ok _ (check_statuses-Applies 0 chain) c8);
        },
      )
