-- ===== src/Delegation/Derivation.antt =====
-- delegation/delegation.go: Derive issues only what VerifySubset accepts.
use trust.Prelude.{◌≡◌, refl, Option, none, some, ok, Bytes, >>=-eq-ok, ok-injective, subst}
use trust.Authority.Model.{Authority}
use trust.Delegation.Subset.{
  DelegationSpec, child_of, issue_under, derive, verify_subset, verify_authorities,
}

-- The authority that Derive returns under the reference `r`.
abbrev issue : DelegationSpec → Bytes → Authority
issue spec r = record (child_of spec) { parent = some r }

-- The checks of VerifySubset do not read the child's Parent.
verify_subset-issue :
    (parent : Authority) (spec : DelegationSpec) (r : Bytes)
    → verify_subset (some (child_of spec)) (some parent) ≡ ok tt
    → verify_subset (some (issue spec r)) (some parent) ≡ ok tt
unfolding verify_subset verify_authorities
verify_subset-issue parent spec r h = h

issue_under-ok :
    (reference : Option Bytes) (spec : DelegationSpec) (child : Authority)
    → issue_under reference spec ≡ ok child
    → (r : Bytes) × (reference ≡ some r) × (issue spec r ≡ child)
unfolding issue_under
issue_under-ok none spec child h = cc
issue_under-ok (some r) spec child h = (r, refl, ok-injective h)

-- If Derive returns a child of a parent, the child's Parent is the parent's reference, its subject,
-- capabilities, scope and validity are the requested ones, neither widened nor clamped, and
-- VerifySubset accepts it under the parent.
pub derive-attenuates :
    (reference : Authority → Option Bytes) (parent : Authority) (spec : DelegationSpec)
    (child : Authority)
    → derive reference (some parent) spec ≡ ok child
    → (reference parent ≡ child.parent)
      × (child.subject ≡ spec.subject)
      × (child.capabilities ≡ spec.capabilities)
      × (child.scope ≡ spec.scope)
      × (child.validity ≡ spec.validity)
      × (verify_subset (some child) (some parent) ≡ ok tt)
unfolding derive
derive-attenuates reference parent spec child h =
    let (_, accepted, issued) =
      >>=-eq-ok (verify_subset (some (child_of spec)) (some parent))
        (λ _. issue_under (reference parent) spec) h in
    let (r, e, same) = issue_under-ok (reference parent) spec child issued in
    subst
      (λ (c : Authority).
        (reference parent ≡ c.parent)
        × (c.subject ≡ spec.subject)
        × (c.capabilities ≡ spec.capabilities)
        × (c.scope ≡ spec.scope)
        × (c.validity ≡ spec.validity)
        × (verify_subset (some c) (some parent) ≡ ok tt))
      same (e, refl, refl, refl, refl, verify_subset-issue parent spec r accepted)
