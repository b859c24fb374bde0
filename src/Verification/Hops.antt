-- ===== src/Verification/Hops.antt =====
-- verification/checks_chain.go, checks_evidence.go and checks_single.go: the checks that hash, verify
-- signatures or bind keys.
use trust.Prelude.{
  ℕ, suc, List, [], ◌∷◌, Bool, false, not, Option, none, some, if◌then◌else◌, Outcome, ok, err,
  panic, ◌>>=◌, at, map_err, Bytes, bytes_eq, pos, int_eq,
}
use trust.Merkle.Hash.{Hasher, Digest}
use trust.Canonical.{Encoders, authority_hash, evidence_hash}
use trust.Delegation.Subset.{verify_subset}
use trust.Evidence.{Evidence}
use trust.Signature.Registry.{PublicKey, Schemes, algorithm_for_public_key}
use trust.Signature.Proof.{verify_authority_proof}
use trust.Verification.Model.{
  Error, authority_invalid, chain_broken, key_binding, evidence_integrity, AuthorityHop,
}
use trust.Verification.Hex.{hex_encode}
use trust.Verification.Checks.{
  Trouble, fail_with, no_hop, Engine, map_delegation_error, content_of, bytes_or_nil,
}

-- Whether a child names the parent by its hash.
unfoldable pub names_parent : Option Bytes → Digest → Bool
names_parent none digest = false
names_parent (some r) digest = bytes_eq r (hex_encode digest)

-- A call whose failure the caller looks at itself.
unfoldable pub attempt {ℓ} : {E F : Type 0} {A : Type ℓ} → Outcome E A → Outcome F (Option A)
attempt (ok a) = ok (some a)
attempt (err e) = ok none
attempt panic = panic

module _ {Document : Type 0} (engine : Engine Document) where
  -- On a resolver that is there. `fails` is the sentinel of the caller.
  unfoldable pub resolve :
      (Bytes → Outcome (Unit {0}) Document) → Error → Bytes → Outcome Trouble Document
  resolve resolver fails subject = elim (engine.parse_did subject) [
    | none ↦ err (fail_with fails no_hop)
    | some did ↦ map_err (λ _. fail_with fails no_hop) (resolver did)
  ]

  unfoldable pub same_bytes : Option Bytes → Option Bytes → Bool
  same_bytes none b = false
  same_bytes (some a) none = false
  same_bytes (some a) (some b) = bytes_eq a b

  -- samePublicKey on two keys that are not nil.
  unfoldable pub same_public_key : PublicKey → PublicKey → Outcome Trouble Bool
  unfolding same_bytes attempt
  same_public_key a b = attempt (engine.marshal_public_key a) >>= λ ab.
      attempt (engine.marshal_public_key b) >>= λ bb. ok (same_bytes ab bb)

  unfoldable pub same_key_algorithm : PublicKey → PublicKey → Outcome Trouble (Unit {0})
  same_key_algorithm bound want =
      map_err (λ _. fail_with key_binding no_hop) (algorithm_for_public_key bound) >>= λ bound_alg.
      map_err (λ _. fail_with key_binding no_hop) (algorithm_for_public_key want) >>= λ want_alg.
      if not (int_eq bound_alg want_alg) then err (fail_with key_binding no_hop) else ok tt

  unfoldable pub bind_key_matches :
      (Bytes → Outcome (Unit {0}) Document) → Bytes → Bytes → PublicKey → Outcome Trouble (Unit {0})
  unfolding resolve same_public_key same_key_algorithm
  bind_key_matches resolver subject key_id want = resolve resolver key_binding subject >>= λ doc.
      map_err (λ _. fail_with key_binding no_hop) (engine.bind key_id doc) >>= λ bound.
      same_public_key bound want >>= λ same.
      if not same then err (fail_with key_binding no_hop) else same_key_algorithm bound want

module _ ⦃hasher : Hasher⦄ (encoders : Encoders) where
  -- One round of checkChainLink.
  unfoldable pub check_link : ℕ → AuthorityHop → AuthorityHop → Outcome Trouble (Unit {0})
  unfolding names_parent
  check_link i child parent =
      map_err (λ _. fail_with authority_invalid (pos i)) (authority_hash encoders parent.authority)
      >>= λ ph. at child.authority >>= λ auth.
          if not (names_parent auth.parent ph)
          then err (fail_with chain_broken (pos i))
          else map_err (λ e. fail_with (map_delegation_error e) (pos i))
              (verify_subset child.authority parent.authority)

  unfoldable pub check_links : ℕ → List AuthorityHop → Outcome Trouble (Unit {0})
  unfolding check_link
  check_links i [] = ok tt
  check_links i (child ∷ []) = ok tt
  check_links i (child ∷ parent ∷ chain) =
      check_link i child parent >>= λ _. check_links (suc i) (parent ∷ chain)

  -- One round of checkEvidence.
  unfoldable pub check_content : List (Bytes × Bytes) → Evidence → Outcome Trouble (Unit {0})
  check_content supplied ev =
      map_err (λ _. fail_with evidence_integrity no_hop) (evidence_hash encoders (some ev))
      >>= λ digest. elim (content_of supplied (hex_encode digest)) [
        | none ↦ err (fail_with evidence_integrity no_hop)
        | some content ↦
            if bytes_eq (hasher.sum content) (bytes_or_nil ev.content_hash)
            then ok tt
            else err (fail_with evidence_integrity no_hop)
      ]

  unfoldable pub check_contents : List (Bytes × Bytes) → List Evidence → Outcome Trouble (Unit {0})
  unfolding check_content
  check_contents supplied [] = ok tt
  check_contents supplied (ev ∷ evidence) =
      check_content supplied ev >>= λ _. check_contents supplied evidence

  module _ (schemes : Schemes) where
    -- The loop of checkAuthorityProof, from the index `i` on.
    unfoldable pub check_authority_proofs : ℕ → List AuthorityHop → Outcome Trouble (Unit {0})
    check_authority_proofs i [] = ok tt
    check_authority_proofs i (hop ∷ chain) =
        map_err (λ _. fail_with authority_invalid (pos i))
          (verify_authority_proof encoders schemes hop.authority hop.public_key)
        >>= λ _. check_authority_proofs (suc i) chain
