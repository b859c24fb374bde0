-- ===== src/Verification/Consequences.antt =====
-- verification/engine.go: what follows for the caller of Verify.
use trust.Prelude.{
  ◌<◌, ◌≡◌, sym, ap, ◌∙◌, subst, inl, inr, List, [], ◌∷◌, true, false, some, some-injective,
  Bool-cases, All, arith, ok,
}
use trust.Merkle.Hash.{Hasher}
use trust.Canonical.{Encoders}
use trust.Authority.Model.{Authority}
use trust.Attestation.Model.{Attestation}
use trust.Delegation.Power.{Request, Permits}
use trust.Signature.Registry.{Schemes}
use trust.Verification.Model.{AuthorityHop, Inputs, Result}
use trust.Verification.Trace.{first}
use trust.Verification.Checks.{Engine}
use trust.Verification.Engine.{verify}
use trust.Verification.Hold.{Holds, IsChain, IsChain-Permits}
use trust.Verification.Sound.{verify-IsVerified}

module _ ⦃hasher : Hasher⦄ (encoders : Encoders) (schemes : Schemes) {Document : Type 0}
    (engine : Engine Document) where
  Permits-from :
      (chain : List AuthorityHop) (leaf : AuthorityHop) (r : Request)
      → first chain ≡ some leaf
      → IsChain encoders chain
      → Holds (λ auth. Permits auth r) leaf
      → All (Holds (λ auth. Permits auth r)) chain
  unfolding first
  Permits-from [] leaf r e c p = tt
  Permits-from (hop ∷ chain) leaf r e c p =
      IsChain-Permits encoders hop chain r c
        (subst (Holds (λ auth. Permits auth r)) (sym (some-injective e)) p)

  -- If Verify returns a valid result, then a request that the leaf of the chain permits is permitted by
  -- every authority of the chain, the root included: no intermediate delegation widened it.
  pub verify-Permits :
      (inputs : Inputs Document) (result : Result) (leaf : AuthorityHop) (auth : Authority)
      (r : Request)
      → verify encoders schemes engine inputs ≡ ok result
      → result.valid ≡ true
      → first inputs.chain ≡ some leaf
      → leaf.authority ≡ some auth
      → Permits auth r
      → All (Holds (λ a. Permits a r)) inputs.chain
  verify-Permits inputs result leaf auth r h valid at_leaf is permits =
      let (_, _, _, _, verified) =
        verify-IsVerified encoders schemes engine inputs result h valid in
      Permits-from inputs.chain leaf r at_leaf verified.chained (auth, is, permits)

  -- An attestation whose window has closed on the system clock never verifies, whatever evaluation
  -- instant the caller gives and whatever the engine's own clock says.
  pub verify_past_wall_clock :
      (inputs : Inputs Document) (result : Result) (att : Attestation)
      → inputs.attestation ≡ some att
      → att.validity.not_after < engine.wall_clock
      → verify encoders schemes engine inputs ≡ ok result
      → result.valid ≡ false
  verify_past_wall_clock inputs result att is closed h = elim (Bool-cases result.valid) [
    | inr invalid ↦ invalid
    | inl valid ↦
        let (att', _, is', _, verified) =
          verify-IsVerified encoders schemes engine inputs result h valid in
        let (_, _, granted) = verified.granted in
        let same : att' ≡ att = some-injective (sym is' ∙ is) in
        let late : att.validity.not_after < engine.wall_clock = closed in
        let open_still : att.validity.not_after ≡ att'.validity.not_after =
          ap (λ (a : Attestation). a.validity.not_after) (sym same) in
        absurd (omega (arith, late, open_still, granted.not_over))
  ]
