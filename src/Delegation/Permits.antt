-- ===== src/Delegation/Permits.antt =====
-- delegation/delegation.go: delegation never widens what is permitted.
use trust.Prelude.{◌≡◌, List, [], ◌∷◌, true, some, All, arith, ok}
use trust.Authority.Model.{Authority}
use trust.Delegation.Subset.{
  capability_subset, scope_subset, validity_subset, verify_authorities, verify_subset,
}
use trust.Delegation.Power.{Request, Permits}
use trust.Delegation.Dimensions.{
  capability_subset-Member, scope_subset-InScope, validity_subset-within,
}

verify_authorities-parts :
    (child parent : Authority)
    → verify_authorities child parent ≡ ok tt
    → (capability_subset parent.capabilities child.capabilities ≡ true)
      × (scope_subset parent.scope child.scope ≡ true)
      × (validity_subset parent.validity child.validity ≡ true)
unfolding verify_authorities
verify_authorities-parts child parent h = ground arith

-- No escalation: if VerifySubset accepts a child under a parent, every request that the child permits
-- the parent permits too, in capability, in all nine dimensions of the scope and in time.
pub verify_subset-Permits :
    (child parent : Authority) (r : Request)
    → verify_subset (some child) (some parent) ≡ ok tt
    → Permits child r
    → Permits parent r
verify_subset-Permits child parent r h p =
    let (caps, scopes, window) =
      verify_authorities-parts child parent (unfold verify_subset in h) in
    let (early, late) = validity_subset-within parent.validity child.validity window in
    record {
      holds =
          capability_subset-Member parent.capabilities child.capabilities r.capability caps p.holds;
      in_scope = scope_subset-InScope parent.scope child.scope r scopes p.in_scope;
      not_early = omega (arith, p.not_early);
      not_late = omega (arith, p.not_late);
    }

-- A chain as the verifier walks it, from the leaf to the root: each authority is a subset of the next.
abbrev pub Linked : List Authority → Type 0
Linked [] = Unit {0}
Linked (child ∷ []) = Unit {0}
Linked (child ∷ parent ∷ chain) =
    (verify_subset (some child) (some parent) ≡ ok tt) × Linked (parent ∷ chain)

-- Along a chain of any length in which VerifySubset accepts every link, what the leaf permits every
-- authority of the chain permits, the root included.
pub Linked-Permits :
    (leaf : Authority) (chain : List Authority) (r : Request)
    → Linked (leaf ∷ chain)
    → Permits leaf r
    → All (λ auth. Permits auth r) (leaf ∷ chain)
Linked-Permits leaf [] r l p = (p, tt)
Linked-Permits leaf (parent ∷ chain) r (link, l) p =
    (p, Linked-Permits parent chain r l (verify_subset-Permits leaf parent r link p))
