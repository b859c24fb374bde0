-- ===== src/Commitment/Valid.antt =====
-- commitment/build.go: VerifyCommitment accepts exactly the well-formed commitments, and Build makes them.
use trust.Prelude.{
  ◌<◌, ◌≡◌, refl, ap, ◌∙◌, ◌↔◌, List, true, false, some, length, ◌==◌, arith, ok, >>=-eq-ok,
  map_err, map_err-eq-ok, bytes_eq, bytes_eq→eq, bytes_eq_refl, bytes_lt, pos, int_eq,
}
use trust.Authority.Canonical.{Ascending}
use trust.Merkle.Hash.{Hasher, Digest}
use trust.Merkle.Tree
use trust.Merkle.Tree.{Tree}
use trust.Commitment.Object.{Commitment, algorithm_rfc6962_sha256, tree_error}
use trust.Commitment.Build.{
  check_sorted, check_distinct, tree_of, root_of, check_root, check_contents, verify_commitment,
}
use trust.Commitment.Sorted.{checks-Ascending, Ascending-checks}

module _ ⦃hasher : Hasher⦄ where
  pub record IsValid (c : Commitment) : Type 0 where
    pub known_algorithm : c.algorithm ≡ algorithm_rfc6962_sha256
    pub filled : 0 < length c.leaf_hashes
    pub counted : c.size ≡ pos (length c.leaf_hashes)
    pub ascending : Ascending bytes_lt c.leaf_hashes
    pub tree : Tree
    pub built : Tree.new c.leaf_hashes ≡ ok tree
    pub rooted : Tree.root tree ≡ ok c.root

  check_root-parts :
      (top : Digest) (leaves : List Digest)
      → check_root top leaves ≡ ok tt
      → (t : Tree) × (Tree.new leaves ≡ ok t) × (Tree.root t ≡ ok top)
  unfolding check_root tree_of root_of
  check_root-parts top leaves h =
      let (t, built, h1) = >>=-eq-ok (map_err tree_error (Tree.new leaves)) _ h in
      let (r, rooted, h2) = >>=-eq-ok (map_err tree_error (Tree.root t)) _ h1 in
      let same : bytes_eq r top ≡ true = ground arith in
      (
        t,
        map_err-eq-ok tree_error (Tree.new leaves) built,
        map_err-eq-ok tree_error (Tree.root t) rooted ∙ ap ok (bytes_eq→eq r top same),
      )

  check_root-accepts :
      (top : Digest) (leaves : List Digest) (t : Tree)
      → Tree.new leaves ≡ ok t
      → Tree.root t ≡ ok top
      → check_root top leaves ≡ ok tt
  unfolding check_root tree_of root_of
  check_root-accepts top leaves t built rooted = rw (built, rooted, bytes_eq_refl top) refl

  -- The checks before the loops.
  verify_commitment-parts :
      (c : Commitment)
      → verify_commitment (some c) ≡ ok tt
      → (bytes_eq c.algorithm algorithm_rfc6962_sha256 ≡ true)
        × (0 < length c.leaf_hashes)
        × (c.size ≡ pos (length c.leaf_hashes))
        × (check_contents c.root c.leaf_hashes ≡ ok tt)
  unfolding verify_commitment
  verify_commitment-parts c h = ground arith

  -- VerifyCommitment accepts exactly the well-formed commitments: the known algorithm, at least one
  -- leaf, a size that counts the leaves, leaves in strictly ascending order, and the root that New and
  -- Root give for them.
  pub verify_commitment_iff : (c : Commitment) → (verify_commitment (some c) ≡ ok tt) ↔ IsValid c
  unfolding verify_commitment check_contents
  verify_commitment_iff c = (
    λ h.
        let (known, filled, counted, contents) = verify_commitment-parts c h in
        let (_, sorted, h1) = >>=-eq-ok (check_sorted c.leaf_hashes) _ contents in
        let (_, distinct, h2) = >>=-eq-ok (check_distinct c.leaf_hashes) _ h1 in
        let (t, built, rooted) = check_root-parts c.root c.leaf_hashes h2 in
        record {
          known_algorithm = bytes_eq→eq c.algorithm algorithm_rfc6962_sha256 known;
          filled = filled;
          counted = counted;
          ascending = checks-Ascending c.leaf_hashes sorted distinct;
          tree = t;
          built = built;
          rooted = rooted;
        },
    λ v.
        let known : bytes_eq c.algorithm algorithm_rfc6962_sha256 ≡ true =
          rw v.known_algorithm (bytes_eq_refl algorithm_rfc6962_sha256) in
        let filled : (length c.leaf_hashes == 0) ≡ false = let h = v.filled in ground arith in
        let (sorted, distinct) = Ascending-checks c.leaf_hashes v.ascending in
        let rooted = check_root-accepts c.root c.leaf_hashes v.tree v.built v.rooted in
        let counted = v.counted in
        let same : int_eq c.size (pos (length c.leaf_hashes)) ≡ true = ground arith in
        let nonzero : int_eq c.size (pos 0) ≡ false = ground arith in
        rw (known, nonzero, filled, same, sorted, distinct, rooted) refl,
  )
