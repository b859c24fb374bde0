-- ===== src/Verification/Hold.antt =====
-- verification/checks_chain.go: what each check that passes says of the chain.
use trust.Prelude.{
  ℕ, suc, ◌≤◌, ◌≡◌, refl, sym, ap, ◌∙◌, subst, List, [], ◌∷◌, Bool, true, not, Option, none, some,
  some-injective, All, if◌then◌else◌, ltb, arith, Outcome, ok, err, >>=-eq-ok, at, at-eq-ok,
  map_err, map_err-eq-ok, Bytes, bytes_eq→eq, ℤ, pos, int_eq, int_eq→eq,
}
use trust.Merkle.Hash.{Hasher, Digest}
use trust.Canonical.{Encoders, authority_hash}
use trust.Authority.Model.{Time, Authority, status_active}
use trust.Delegation.Subset.{verify_subset}
use trust.Delegation.Power.{Request, Permits}
use trust.Delegation.Permits.{verify_subset-Permits}
use trust.Signature.Registry.{Schemes}
use trust.Signature.Proof.{verify_authority_proof}
use trust.Signature.Signed.{IsSigned}
use trust.Signature.RoundTrip.{verify_authority_proof_iff}
use trust.Verification.Model.{AuthorityHop, authority_invalid, chain_broken, not_yet_valid, expired}
use trust.Verification.Hex.{hex_encode}
use trust.Verification.Checks.{
  Trouble, fail_with, check_windows, check_status, check_statuses, map_delegation_error,
}
use trust.Verification.Hops.{names_parent, check_link, check_links, check_authority_proofs}

-- A hop with an authority that has a property.
abbrev pub Holds : (Authority → Type 0) → AuthorityHop → Type 0
Holds P hop = (auth : Authority) × (hop.authority ≡ some auth) × P auth

abbrev pub IsCurrent : Time → Authority → Type 0
IsCurrent now auth = (auth.validity.not_before ≤ now) × (now ≤ auth.validity.not_after)

windows-step :
    (now : Time) (i : ℕ) (auth : Authority) (rest : Outcome Trouble (Unit {0}))
    → (if ltb now auth.validity.not_before
        then err (fail_with not_yet_valid (pos i))
        else if ltb auth.validity.not_after now
        then err (fail_with expired (pos i))
        else rest)
      ≡ ok tt
    → IsCurrent now auth × (rest ≡ ok tt)
windows-step now i auth rest h = ground arith

pub check_windows-IsCurrent :
    (now : Time) (i : ℕ) (chain : List AuthorityHop)
    → check_windows now i chain ≡ ok tt
    → All (Holds (IsCurrent now)) chain
unfolding check_windows
check_windows-IsCurrent now i [] h = tt
check_windows-IsCurrent now i (hop ∷ chain) h =
    let (auth, here, h1) = >>=-eq-ok (at hop.authority) _ h in
    let (current, after) = windows-step now i auth (check_windows now (suc i) chain) h1 in
    ((auth, at-eq-ok hop.authority here, current), check_windows-IsCurrent now (suc i) chain after)

abbrev pub IsActive : Authority → Type 0
IsActive auth = auth.status ≡ status_active

check_status-active :
    (status : ℤ) (i : ℕ) → check_status status i ≡ ok tt → int_eq status status_active ≡ true
unfolding check_status
check_status-active status i h = ground arith

pub check_statuses-IsActive :
    (i : ℕ) (chain : List AuthorityHop)
    → check_statuses i chain ≡ ok tt
    → All (Holds IsActive) chain
unfolding check_statuses
check_statuses-IsActive i [] h = tt
check_statuses-IsActive i (hop ∷ chain) h =
    let (auth, here, h1) = >>=-eq-ok (at hop.authority) _ h in
    let (_, active, after) = >>=-eq-ok (check_status auth.status i) _ h1 in
    (
      (
        auth,
        at-eq-ok hop.authority here,
        int_eq→eq auth.status status_active (check_status-active auth.status i active),
      ),
      check_statuses-IsActive (suc i) chain after,
    )

names_parent-eq :
    (r : Option Bytes) (digest : Digest)
    → names_parent r digest ≡ true
    → r ≡ some (hex_encode digest)
unfolding names_parent
names_parent-eq none digest h = absurd (cc)
names_parent-eq (some r) digest h = ap some (bytes_eq→eq r (hex_encode digest) h)

module _ ⦃hasher : Hasher⦄ (encoders : Encoders) where
  -- A child that names its parent by hash and narrows it.
  pub record IsLink (child parent : AuthorityHop) : Type 0 where
    pub auth : Authority
    pub above : Authority
    pub child_is : child.authority ≡ some auth
    pub parent_is : parent.authority ≡ some above
    pub digest : Digest
    pub hashed : authority_hash encoders (some above) ≡ ok digest
    pub named : auth.parent ≡ some (hex_encode digest)
    pub narrows : verify_subset (some auth) (some above) ≡ ok tt

  abbrev pub IsChain : List AuthorityHop → Type 0
  IsChain [] = Unit {0}
  IsChain (child ∷ []) = Unit {0}
  IsChain (child ∷ parent ∷ chain) = IsLink child parent × IsChain (parent ∷ chain)

  present-parent :
      (o : Option Authority) (digest : Digest)
      → authority_hash encoders o ≡ ok digest
      → (a : Authority) × (o ≡ some a)
  unfolding authority_hash
  present-parent none digest h = absurd (cc)
  present-parent (some a) digest h = (a, refl)

  link-step :
      (i : ℕ) (named : Bool) (rest : Outcome Trouble (Unit {0}))
      → (if not named then err (fail_with chain_broken (pos i)) else rest) ≡ ok tt
      → (named ≡ true) × (rest ≡ ok tt)
  link-step i named rest h = ground arith

  check_link-IsLink :
      (i : ℕ) (child parent : AuthorityHop)
      → check_link encoders i child parent ≡ ok tt
      → IsLink child parent
  unfolding check_link
  check_link-IsLink i child parent h =
      let (digest, hashed, h1) =
        >>=-eq-ok
          (map_err (λ _. fail_with authority_invalid (pos i))
            (authority_hash encoders parent.authority))
          _ h in
      let hashed' =
        map_err-eq-ok (λ _. fail_with authority_invalid (pos i))
          (authority_hash encoders parent.authority) hashed in
      let (above, parent_is) = present-parent parent.authority digest hashed' in
      let (auth, here, h2) = >>=-eq-ok (at child.authority) _ h1 in
      let child_is = at-eq-ok child.authority here in
      let (named, h3) = link-step i (names_parent auth.parent digest) _ h2 in
      let narrows =
        map_err-eq-ok (λ e. fail_with (map_delegation_error e) (pos i))
          (verify_subset child.authority parent.authority) h3 in
      record {
        auth = auth;
        above = above;
        child_is = child_is;
        parent_is = parent_is;
        digest = digest;
        hashed = rw parent_is at hashed';
        named = names_parent-eq auth.parent digest named;
        narrows = rw (child_is, parent_is) at narrows;
      }

  pub check_links-IsChain :
      (i : ℕ) (chain : List AuthorityHop) → check_links encoders i chain ≡ ok tt → IsChain chain
  unfolding check_links
  check_links-IsChain i [] h = tt
  check_links-IsChain i (child ∷ []) h = tt
  check_links-IsChain i (child ∷ parent ∷ chain) h =
      let (_, link, after) = >>=-eq-ok (check_link encoders i child parent) _ h in
      (check_link-IsLink i child parent link, check_links-IsChain (suc i) (parent ∷ chain) after)

  module _ (schemes : Schemes) where
    abbrev pub IsProved : AuthorityHop → Type 0
    IsProved hop =
        Holds
          (λ auth.
            IsSigned schemes auth.proof.algorithm auth.proof.signature
              (authority_hash encoders (some auth)) hop.public_key)
          hop

    proof-IsProved :
        (hop : AuthorityHop) (o : Option Authority)
        → hop.authority ≡ o
        → verify_authority_proof encoders schemes o hop.public_key ≡ ok tt
        → IsProved hop
    unfolding verify_authority_proof
    proof-IsProved hop none e h = absurd (cc)
    proof-IsProved hop (some auth) e h =
        (auth, e, (verify_authority_proof_iff encoders schemes auth hop.public_key).0 h)

    pub check_authority_proofs-IsProved :
        (i : ℕ) (chain : List AuthorityHop)
        → check_authority_proofs encoders schemes i chain ≡ ok tt
        → All IsProved chain
    unfolding check_authority_proofs
    check_authority_proofs-IsProved i [] h = tt
    check_authority_proofs-IsProved i (hop ∷ chain) h =
        let proof = verify_authority_proof encoders schemes hop.authority hop.public_key in
        let (_, proved, after) =
          >>=-eq-ok (map_err (λ _. fail_with authority_invalid (pos i)) proof) _ h in
        (
          proof-IsProved hop hop.authority refl
              (map_err-eq-ok (λ _. fail_with authority_invalid (pos i)) proof proved),
          check_authority_proofs-IsProved (suc i) chain after,
        )

  -- What the first hop permits, all permit.
  pub IsChain-Permits :
      (hop : AuthorityHop) (chain : List AuthorityHop) (r : Request)
      → IsChain (hop ∷ chain)
      → Holds (λ auth. Permits auth r) hop
      → All (Holds (λ auth. Permits auth r)) (hop ∷ chain)
  IsChain-Permits hop [] r c p = (p, tt)
  IsChain-Permits hop (parent ∷ chain) r (link, c) p =
      let (auth, is, permits) = p in
      let same : auth ≡ link.auth = some-injective (sym is ∙ link.child_is) in
      let above =
        verify_subset-Permits link.auth link.above r link.narrows
          (subst (λ a. Permits a r) same permits) in
      (p, IsChain-Permits parent chain r c (link.above, link.parent_is, above))
