-- ===== src/Commitment/Build.antt =====
-- commitment/build.go, commitment/proof.go and commitment/consistency.go.
use trust.Prelude.{
  ℕ, ◌+◌, ◌-◌, ◌/◌, ◌^◌, List, [], ◌∷◌, map, not, ◌||◌, Option, none, some, length, get_elem?, ltb,
  ◌==◌, if◌then◌else◌, Outcome, ok, err, panic, ◌>>=◌, at, map_err, Bytes, bytes_eq, bytes_lt, ℤ,
  pos, negsuc, int_eq, int_le, zero, suc,
}
use trust.Merkle.Hash.{Hasher, Digest}
use trust.Merkle.Tree
use trust.Merkle.Tree.{Tree, ProofStep}
use trust.Merkle.Verify
use trust.Merkle.Consistency
use trust.Canonical.{Encoders}
use trust.Commitment.Object.{
  Error, TrustObject, Commitment, algorithm_rfc6962_sha256, leaf_of, empty_objects, tree_error,
  nil_commitment, algorithm_mismatch, empty_commitment, size_mismatch, unsorted_leaves,
  duplicate_leaf, root_mismatch, nil_object, object_not_committed, inclusion_failed, not_prefix,
  invalid_range,
}
use trust.Commitment.Order.{sort_leaves, reject_duplicates}

-- The two loops of VerifyCommitment from i = 1, with the leaf before the rest.
unfoldable pub check_sorted_after : Digest → List Digest → Outcome Error (Unit {0})
check_sorted_after prev [] = ok tt
check_sorted_after prev (x ∷ xs) =
    let rest = check_sorted_after x xs in if bytes_lt x prev then err unsorted_leaves else rest

unfoldable pub check_sorted : List Digest → Outcome Error (Unit {0})
unfolding check_sorted_after
check_sorted [] = ok tt
check_sorted (x ∷ xs) = check_sorted_after x xs

unfoldable pub check_distinct_after : Digest → List Digest → Outcome Error (Unit {0})
check_distinct_after prev [] = ok tt
check_distinct_after prev (x ∷ xs) =
    let rest = check_distinct_after x xs in if bytes_eq prev x then err duplicate_leaf else rest

unfoldable pub check_distinct : List Digest → Outcome Error (Unit {0})
unfolding check_distinct_after
check_distinct [] = ok tt
check_distinct (x ∷ xs) = check_distinct_after x xs

-- `merkle.New(leafBytes(leaves))`, and its Root.
module _ ⦃hasher : Hasher⦄ where
  unfoldable pub tree_of : List Digest → Outcome Error Tree
  tree_of leaves = map_err tree_error (Tree.new leaves)

  unfoldable pub root_of : Tree → Outcome Error Digest
  root_of t = map_err tree_error (Tree.root t)

  -- The last check of VerifyCommitment.
  unfoldable pub check_root : Digest → List Digest → Outcome Error (Unit {0})
  check_root top leaves =
      tree_of leaves >>= λ t. root_of t >>= λ r. if bytes_eq r top then ok tt else err root_mismatch

  -- The loops of VerifyCommitment, and the root.
  unfoldable pub check_contents : Digest → List Digest → Outcome Error (Unit {0})
  check_contents top leaves =
      check_sorted leaves >>= λ _. check_distinct leaves >>= λ _. check_root top leaves

  unfoldable pub verify_commitment : Option Commitment → Outcome Error (Unit {0})
  verify_commitment none = err nil_commitment
  verify_commitment (some c) =
      if not (bytes_eq c.algorithm algorithm_rfc6962_sha256)
      then err algorithm_mismatch
      else if int_eq c.size (pos 0) || (length c.leaf_hashes == 0)
      then err empty_commitment
      else if not (int_eq c.size (pos (length c.leaf_hashes)))
      then err size_mismatch
      else check_contents c.root c.leaf_hashes

-- The loop of `sort.Search`: the smallest index that is not below `leaf`, by halving, on fuel.
unfoldable pub search_loop : ℕ → List Digest → Digest → ℕ → ℕ → Outcome Error ℕ
search_loop zero leaves leaf i j = panic
search_loop (suc fuel) leaves leaf i j =
    let h = (i + j) / 2 in
    let again = at (get_elem? leaves h) >>= λ x.
    let right = search_loop fuel leaves leaf (h + 1) j in
    let left = search_loop fuel leaves leaf i h in if bytes_lt x leaf then right else left in
    if ltb i j then again else ok i

unfoldable pub search : List Digest → Digest → Outcome Error ℕ
unfolding search_loop
search leaves leaf = search_loop (suc (length leaves)) leaves leaf 0 (length leaves)

pub record InclusionProof : Type 0 where
  pub index : ℤ
  pub tree_size : ℤ
  pub steps : List ProofStep

-- `uint64(n)` of an `int`.
abbrev pub to_uint64 : ℤ → ℕ
to_uint64 (pos n) = n
to_uint64 (negsuc n) = 2 ^ 64 - 1 - n

-- One side byte and the hash.
abbrev pub element_of : ProofStep → Bytes
element_of step = (if step.is_right then 0x01 else 0x00) ∷ step.hash

pub record ConsistencyProof : Type 0 where
  pub old_size : ℤ
  pub new_size : ℤ
  pub steps : List ProofStep

-- The loop over the first `n` leaves, after the lengths.
unfoldable check_prefix : ℕ → List Digest → List Digest → Outcome Error (Unit {0})
check_prefix zero old next = ok tt
check_prefix (suc n) [] next = panic
check_prefix (suc n) (x ∷ old) [] = panic
check_prefix (suc n) (x ∷ old) (y ∷ next) =
    let rest = check_prefix n old next in if not (bytes_eq x y) then err not_prefix else rest

module _ ⦃hasher : Hasher⦄ where
  -- What ConsistencyProofBetween does once the sizes are known to be `m` and `next.Size`.
  unfoldable proof_between : ℕ → Commitment → Commitment → Outcome Error ConsistencyProof
  proof_between m old next =
      if ltb (length old.leaf_hashes) m || ltb (length next.leaf_hashes) m
      then err not_prefix
      else (check_prefix m old.leaf_hashes next.leaf_hashes >>= λ _.
          tree_of next.leaf_hashes >>= λ t.
          map_err tree_error (Consistency.consistency_proof t old.size next.size) >>= λ path.
          ok (record { old_size = old.size; new_size = next.size; steps = path }))

  unfoldable consistency_proof_between :
      Option Commitment → Option Commitment → Outcome Error ConsistencyProof
  consistency_proof_between none next = err nil_commitment
  consistency_proof_between (some old) none = err nil_commitment
  consistency_proof_between (some old) (some next) = elim (old.size) [
    | negsuc _ ↦ err invalid_range
    | pos m ↦
        if (m == 0) || int_le next.size (pos m) then err invalid_range else proof_between m old next
  ]

  unfoldable pub verify_consistency : Digest → Digest → ConsistencyProof → Outcome Error (Unit {0})
  verify_consistency old_root new_root p =
      map_err tree_error
        (Consistency.verify_consistency old_root new_root p.old_size p.new_size p.steps)
      >>= λ accepted. if accepted then ok tt else err inclusion_failed

  module _ (encoders : Encoders) where
    -- The loop of Build over the objects.
    unfoldable pub leaves_of : List (Option TrustObject) → Outcome Error (List Digest)
    leaves_of [] = ok []
    leaves_of (obj ∷ objects) =
        leaf_of encoders obj >>= λ h. leaves_of objects >>= λ hashes. ok (h ∷ hashes)

    unfoldable pub build : List (Option TrustObject) → Outcome Error Commitment
    build objects =
        if length objects == 0
        then err empty_objects
        else (leaves_of objects >>= λ hashes. reject_duplicates (sort_leaves hashes) >>= λ _.
            tree_of (sort_leaves hashes) >>= λ t. root_of t >>= λ top. ok (record {
              root = top;
              size = pos (length objects);
              leaf_hashes = sort_leaves hashes;
              algorithm = algorithm_rfc6962_sha256;
            }))

    -- InclusionProof from the element at the index on; `none` is an index past the end.
    unfoldable pub prove_at : Commitment → Digest → ℕ → Option Digest → Outcome Error InclusionProof
    prove_at c leaf index none = err object_not_committed
    prove_at c leaf index (some x) =
        if not (bytes_eq x leaf)
        then err object_not_committed
        else (tree_of c.leaf_hashes >>= λ t.
            map_err tree_error (Tree.proof t (pos index)) >>= λ path.
            ok (record { index = pos index; tree_size = c.size; steps = path }))

    -- InclusionProof from the leaf on.
    unfoldable pub prove_leaf : Commitment → Digest → Outcome Error InclusionProof
    unfolding prove_at
    prove_leaf c leaf =
        search c.leaf_hashes leaf >>= λ index. prove_at c leaf index (get_elem? c.leaf_hashes index)

    unfoldable pub inclusion_proof :
        Option Commitment → Option TrustObject → Outcome Error InclusionProof
    inclusion_proof none obj = err nil_commitment
    inclusion_proof (some c) none = err nil_object
    inclusion_proof (some c) (some obj) = leaf_of encoders (some obj) >>= λ leaf. prove_leaf c leaf

    unfoldable pub verify_inclusion :
        Digest → InclusionProof → Option TrustObject → Outcome Error (Unit {0})
    verify_inclusion top p obj = leaf_of encoders obj >>= λ leaf.
        map_err (λ _. inclusion_failed)
          (Verify.verify_inclusion top (to_uint64 p.index) (to_uint64 p.tree_size) leaf
            (map element_of p.steps))
