-- ===== src/Commitment/Membership.antt =====
-- commitment/proof.go: InclusionProof and VerifyInclusion on what Build commits to.
use trust.Prelude.{
  ℕ, suc, ◌^◌, ◌<◌, ◌≡◌, refl, sym, ap, ◌∙◌, subst, ◌⊎◌, inl, inr, List, [], ◌∷◌, map, Bool, true,
  false, Option, some, All, length, get_elem?, if◌then◌else◌, arith, ◌==◌, ok, >>=-eq-ok,
  map_err-eq-ok, bytes_eq_refl, pos,
}
use trust.Merkle.Hash.{Hasher, Digest, Collision}
use trust.Merkle.Tree
use trust.Merkle.Tree.{Tree, ProofStep}
use trust.Merkle.Verify
use trust.Merkle.Verify.{decode_side, decode_element, decode_proof}
use trust.Merkle.Binding.{HasDigest}
use trust.Merkle.Inclusion.{
  proof-HasDigest, verify-proof, verify_inclusion_complete, verify_inclusion_sound,
}
use trust.Delegation.Power.{Member, first, later}
use trust.Canonical.{Encoders}
use trust.Commitment.Object.{TrustObject, Commitment, leaf_of, inclusion_failed}
use trust.Commitment.Order.{Permutes, nil, keep, swap, both, sort_leaves, sort_leaves-Permutes_self}
use trust.Commitment.Build.{
  to_uint64, element_of, InclusionProof, tree_of, verify_commitment, leaves_of, build, search,
  prove_at, prove_leaf, inclusion_proof, verify_inclusion,
}
use trust.Commitment.Valid.{IsValid, verify_commitment_iff}
use trust.Commitment.Builds.{build-Built, leaves_of-uncons, verify_commitment-build}
use trust.Commitment.Search.{search-finds}

Member-get_elem? :
    {A : Type 0} (a : A) (xs : List A) → Member a xs → (k : ℕ) × (get_elem? xs k ≡ some a)
Member-get_elem? a [] m = elim m [ ]
Member-get_elem? a (x ∷ xs) first = (0, refl)
Member-get_elem? a (x ∷ xs) (later m) = let (k, e) = Member-get_elem? a xs m in (suc k, e)

Permutes-Member : {A : Type 0} {xs ys : List A} (a : A) → Permutes ys xs → Member a xs → Member a ys
Permutes-Member a nil m = m
Permutes-Member a (keep p) first = first
Permutes-Member a (keep p) (later m) = later (Permutes-Member a p m)
Permutes-Member a (swap x y xs) first = later first
Permutes-Member a (swap x y xs) (later first) = first
Permutes-Member a (swap x y xs) (later (later m)) = later (later m)
Permutes-Member a (both p q) m = Permutes-Member a p (Permutes-Member a q m)

abbrev step_of : Digest → Bool → ProofStep
step_of hash is_right = record { hash = hash; is_right = is_right }

-- VerifyInclusion's elements decode to the steps they were made of.
decode_element-side :
    (hash : Digest) (right : Bool)
    → length hash ≡ 32
    → decode_element ((if right then 0x01 else 0x00) ∷ hash) ≡ ok (step_of hash right)
unfolding decode_element decode_side
decode_element-side hash true digest =
    let width : (suc (length hash) == 33) ≡ true = ground arith in rw width refl
decode_element-side hash false digest =
    let width : (suc (length hash) == 33) ≡ true = ground arith in rw width refl

decode_element-element_of :
    (step : ProofStep) → HasDigest step → decode_element (element_of step) ≡ ok step
decode_element-element_of step h = decode_element-side step.hash step.is_right h

decode_proof-element_of :
    (steps : List ProofStep) → All HasDigest steps → decode_proof (map element_of steps) ≡ ok steps
unfolding decode_proof
decode_proof-element_of [] h = refl
decode_proof-element_of (step ∷ steps) (h, hs) =
    rw (decode_element-element_of step h, decode_proof-element_of steps hs) refl

pos-injective : {a b : ℕ} → pos a ≡ pos b → a ≡ b
pos-injective e = cc

module _ ⦃hasher : Hasher⦄ (encoders : Encoders) where
  leaves_of-Member :
      (objects : List (Option TrustObject)) (hashes : List Digest) (obj : Option TrustObject)
      → leaves_of encoders objects ≡ ok hashes
      → Member obj objects
      → (leaf : Digest) × (leaf_of encoders obj ≡ ok leaf) × Member leaf hashes
  leaves_of-Member [] hashes obj h m = elim m [ ]
  leaves_of-Member (o ∷ objects) hashes obj h first =
      let (leaf, rest, e, _, whole) = leaves_of-uncons encoders o objects hashes h in
      (leaf, e, subst (Member leaf) whole first)
  leaves_of-Member (o ∷ objects) hashes obj h (later m) =
      let (x, rest, _, er, whole) = leaves_of-uncons encoders o objects hashes h in
      let (leaf, e, m') = leaves_of-Member objects rest obj er m in
      (leaf, e, subst (Member leaf) whole (later m'))

  prove_at-found :
      (c : Commitment) (leaf : Digest) (k : ℕ) (t : Tree) (path : List ProofStep)
      → Tree.new c.leaf_hashes ≡ ok t
      → Tree.proof t (pos k) ≡ ok path
      → prove_at encoders c leaf k (some leaf)
        ≡ ok (record { index = pos k; tree_size = c.size; steps = path })
  unfolding prove_at tree_of
  prove_at-found c leaf k t path built found = rw (bytes_eq_refl leaf, built, found) refl

  prove_leaf-at :
      (c : Commitment) (leaf : Digest) (k : ℕ)
      → search c.leaf_hashes leaf ≡ ok k
      → get_elem? c.leaf_hashes k ≡ some leaf
      → prove_leaf encoders c leaf ≡ prove_at encoders c leaf k (some leaf)
  unfolding prove_leaf
  prove_leaf-at c leaf k s e = rw (s, e) refl

  -- InclusionProof on a well-formed commitment, for the leaf at an index.
  prove_leaf-accepted :
      (c : Commitment) (v : IsValid c) (leaf : Digest) (k : ℕ)
      → length c.leaf_hashes < 2 ^ 63
      → get_elem? c.leaf_hashes k ≡ some leaf
      → (p : InclusionProof) × (prove_leaf encoders c leaf ≡ ok p)
        × (Verify.verify_inclusion c.root
              (to_uint64 p.index)
              (to_uint64 p.tree_size)
              leaf
              (map element_of p.steps)
            ≡ ok tt)
  prove_leaf-accepted c v leaf k small e =
      let leaves = c.leaf_hashes in
      let (path, top, found, rooted, _, _) = verify-proof leaves v.tree k leaf small v.built e in
      let digests = proof-HasDigest leaves v.tree k path v.built found in
      let accepted =
        verify_inclusion_complete leaves v.tree k leaf c.root path (map element_of path) small
          v.built e v.rooted found (decode_proof-element_of path digests) in
      let width : to_uint64 c.size ≡ length leaves = ap to_uint64 v.counted in
      (
        record { index = pos k; tree_size = c.size; steps = path },
        prove_leaf-at c leaf k (search-finds leaves leaf k v.ascending e) e
            ∙ prove_at-found c leaf k v.tree path v.built found,
        rw width accepted,
      )

  -- Every object that was committed to has a proof: InclusionProof finds its leaf by binary search and
  -- returns a path, and VerifyInclusion accepts that path against the root of the commitment.
  pub inclusion_proof-build :
      (objects : List (Option TrustObject)) (c : Commitment) (obj : TrustObject)
      → length objects < 2 ^ 63
      → build encoders objects ≡ ok c
      → Member (some obj) objects
      → (p : InclusionProof) × (inclusion_proof encoders (some c) (some obj) ≡ ok p)
        × (verify_inclusion encoders c.root p (some obj) ≡ ok tt)
  unfolding inclusion_proof verify_inclusion
  inclusion_proof-build objects c obj small h m =
      let b = build-Built encoders objects c h in
      let v = (verify_commitment_iff c).0 (verify_commitment-build encoders objects c h) in
      let (leaf, hashed, m') = leaves_of-Member objects b.hashes (some obj) b.hashed m in
      let (k, e) =
        Member-get_elem? leaf (sort_leaves b.hashes)
          (Permutes-Member leaf (sort_leaves-Permutes_self b.hashes) m') in
      let whole : sort_leaves b.hashes ≡ c.leaf_hashes =
        ap (λ (d : Commitment). d.leaf_hashes) b.result in
      let count : c.size ≡ pos (length objects) = sym (ap (λ (d : Commitment). d.size) b.result) in
      let few : length c.leaf_hashes < 2 ^ 63 = rw (pos-injective (sym v.counted ∙ count)) small in
      let (p, proved, accepted) = prove_leaf-accepted c v leaf k few (rw whole at e) in
      (p, rw hashed proved, rw (hashed, accepted) refl)

  -- VerifyInclusion accepts no object that was not committed to: if VerifyCommitment accepts a
  -- commitment of fewer than 2^63 leaves, and VerifyInclusion accepts a proof of its size for an
  -- object against its root, then the object's hash is the leaf at the index of the proof; or two
  -- inputs of SHA-256 with one hash are at hand.
  pub verify_inclusion_member :
      (c : Commitment) (p : InclusionProof) (obj : Option TrustObject)
      → verify_commitment (some c) ≡ ok tt
      → length c.leaf_hashes < 2 ^ 63
      → p.tree_size ≡ c.size
      → verify_inclusion encoders c.root p obj ≡ ok tt
      → ((leaf : Digest) × (leaf_of encoders obj ≡ ok leaf)
          × (get_elem? c.leaf_hashes (to_uint64 p.index) ≡ some leaf))
        ⊎ Collision
  unfolding verify_inclusion
  verify_inclusion_member c p obj valid small sized h =
      let v = (verify_commitment_iff c).0 valid in
      let (leaf, hashed, h1) = >>=-eq-ok (leaf_of encoders obj) _ h in
      let width : to_uint64 p.tree_size ≡ length c.leaf_hashes = ap to_uint64 (sized ∙ v.counted) in
      let accepted =
        map_err-eq-ok (λ (_ : _). inclusion_failed)
          (Verify.verify_inclusion c.root (to_uint64 p.index) (to_uint64 p.tree_size) leaf
            (map element_of p.steps))
          h1 in
      elim (verify_inclusion_sound c.leaf_hashes v.tree (to_uint64 p.index) leaf c.root
        (map element_of p.steps) small v.built v.rooted (rw width at accepted)) [
          | inl (found, _) ↦ inl (leaf, hashed, found)
          | inr collision ↦ inr collision
        ]
