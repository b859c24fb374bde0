-- ===== src/Merkle/Consistency.antt =====
-- merkle/tree.go: subtree, ConsistencyProof, consistencySubproof, proofCursor, verifySubproof and
-- VerifyConsistency. `panic` also stands for a loop that does not end; `err tt` for `ok == false`.
-- Shifts and sums over a tree in memory do not wrap: it has fewer than 2^62 leaves.
use trust.Prelude.{
  ℤ, pos, negsuc, ℕ, zero, suc, ◌+◌, ◌-◌, ◌*◌, ◌^◌, List, [], ◌∷◌, ◌++◌, Bool, true, false, not,
  ◌&&◌, ◌||◌, Option, none, some, length, get_elem?, ltb, leb, ◌==◌, if◌then◌else◌, Outcome, ok,
  err, panic, ◌>>=◌, at, map_err, Bytes, bytes_eq,
}
use trust.Merkle.Hash.{Hasher, Digest, Error, node_hash, invalid_range, tree_corrupt}
use trust.Merkle.Tree.{Tree, ProofStep}
use trust.Merkle.Split.{largest_pow2_less_than}

abbrev Partial {ℓ} : Type ℓ → Type ℓ
Partial A = Outcome (Unit {0}) A

-- `coverHi`, cut at the size of the tree.
abbrev cover_hi : ℕ → ℕ → ℕ → ℕ
cover_hi size j p = if ltb size (p * 2 ^ j + 2 ^ j) then size else p * 2 ^ j + 2 ^ j

-- The node under (j + 1, p) where the descent to [lo, hi) goes on; `width` is the length of level j.
unfoldable next_child : ℕ → ℕ → ℕ → ℕ → ℕ → Outcome (Unit {0}) ℕ
next_child lo hi width j p =
    if leb width (2 * p + 1)
    then ok (2 * p)
    else let left_hi = p * 2 ^ suc j + 2 ^ j in
      if leb hi left_hi then ok (2 * p) else if ltb lo left_hi then err tt else ok (2 * p + 1)

-- `t.levels[j][p]`.
abbrev node_at : Tree → ℕ → ℕ → Outcome (Unit {0}) Digest
node_at t j p = at (get_elem? t.levels j) >>= λ level. at (get_elem? level p)

unfoldable subtree_loop : Tree → ℕ → ℕ → ℕ → ℕ → Outcome (Unit {0}) Digest
unfolding next_child
subtree_loop t lo hi zero p =
    if (p * 2 ^ 0 == lo) && (cover_hi t.size 0 p == hi) then node_at t 0 p else err tt
subtree_loop t lo hi (suc j) p =
    let deeper = at (get_elem? t.levels j) >>= λ level.
    next_child lo hi (length level) j p >>= λ q. subtree_loop t lo hi j q in
    if (p * 2 ^ suc j == lo) && (cover_hi t.size (suc j) p == hi)
    then node_at t (suc j) p
    else deeper

unfoldable pub subtree : Tree → ℕ → ℕ → Outcome (Unit {0}) Digest
unfolding subtree_loop
subtree t lo hi =
    if ltb t.size hi || leb hi lo then err tt else subtree_loop t lo hi (length t.levels - 1) 0

-- The recursion of consistencySubproof on the range, on fuel; the last argument is `path.Steps`.
unfoldable pub consistency_subproof :
    ℕ → Tree → ℕ → ℕ → ℕ → Bool → List ProofStep → Outcome (Unit {0}) (List ProofStep)
consistency_subproof zero t m lo hi b path = panic
consistency_subproof (suc fuel) t m lo hi b path =
    let halves = at (largest_pow2_less_than (hi - lo)) >>= λ k.
    let in_left = consistency_subproof fuel t m lo (lo + k) b path >>= λ path'.
    subtree t (lo + k) hi >>= λ h. ok (path' ++ (record { hash = h; is_right = true } ∷ [])) in
    let in_right = consistency_subproof fuel t (m - k) (lo + k) hi false path >>= λ path'.
    subtree t lo (lo + k) >>= λ h. ok (path' ++ (record { hash = h; is_right = false } ∷ [])) in
    if leb m k then in_left else in_right in
    let whole =
      subtree t lo hi >>= λ h. ok (path ++ (record { hash = h; is_right = false } ∷ [])) in
    if m == (hi - lo) then (if b then ok path else whole) else halves

-- Every call is on a shorter range, so `n` calls deep are enough.
unfoldable pub consistency_proof : Tree → ℤ → ℤ → Outcome Error (List ProofStep)
consistency_proof t (negsuc m) n = err invalid_range
consistency_proof t (pos m) (negsuc n) = err invalid_range
consistency_proof t (pos m) (pos n) =
    if (m == 0) || leb n m
    then err invalid_range
    else if not (n == t.size)
    then err invalid_range
    else map_err (λ _. tree_corrupt) (consistency_subproof n t m 0 n true [])

-- `cur.take()`; the list is what the cursor has not reached.
unfoldable pub take_node : List ProofStep → Outcome (Unit {0}) (Digest × List ProofStep)
take_node [] = err tt
take_node (step ∷ steps) = ok (step.hash, steps)

module _ ⦃hasher : Hasher⦄ where
  -- The recomputed hashes (newHash, oldHash) and the cursor; on fuel.
  unfoldable pub verify_subproof :
      ℕ
      → ℕ
      → ℕ
      → Bool
      → Option Digest
      → List ProofStep
      → Outcome (Unit {0}) (Digest × Digest × List ProofStep)
  unfolding take_node
  verify_subproof zero m n b old cur = panic
  verify_subproof (suc fuel) m n b old cur =
      let whole =
        if b
        then (at old >>= λ h. ok (h, h, cur))
        else (take_node cur >>= λ (h, cur'). ok (h, h, cur')) in
      let halves = at (largest_pow2_less_than n) >>= λ k.
      let in_left = verify_subproof fuel m k b old cur >>= λ (left_new, left_old, cur').
      take_node cur' >>= λ (right_root, cur'').
      ok (node_hash left_new right_root, left_old, cur'') in
      let in_right =
        verify_subproof fuel (m - k) (n - k) false none cur >>= λ (right_new, right_old, cur').
        take_node cur' >>= λ (left_root, cur'').
        ok (node_hash left_root right_new, node_hash left_root right_old, cur'') in
      if leb m k then in_left else in_right in
      if m == n then whole else halves

  -- The end of VerifyConsistency: every node is used, and both hashes agree.
  unfoldable pub check_roots : Bytes → Bytes → Digest × Digest × List ProofStep → Bool
  check_roots old_root new_root (new_hash, old_hash, cur) =
      if not (length cur == 0)
      then false
      else bytes_eq old_hash old_root && bytes_eq new_hash new_root

  unfoldable pub verify_naturals : Bytes → Bytes → ℕ → ℕ → List ProofStep → Outcome Error Bool
  unfolding check_roots
  verify_naturals old_root new_root m n steps =
      if m == n
      then ok ((length steps == 0) && bytes_eq old_root new_root)
      else if (m == 0) || ltb n m
      then ok false
      else elim (verify_subproof n m n true (some old_root) steps) [
        | ok hashes ↦ ok (check_roots old_root new_root hashes)
        | err _ ↦ ok false
        | panic ↦ panic
      ]

  -- `m == n` comes before the test of the signs.
  unfoldable pub verify_consistency : Bytes → Bytes → ℤ → ℤ → List ProofStep → Outcome Error Bool
  unfolding verify_naturals
  verify_consistency old_root new_root m n steps =
      if not (length old_root == 32) || not (length new_root == 32) then ok false else elim m [
        | pos m' ↦ elim n [
          | pos n' ↦ verify_naturals old_root new_root m' n' steps
          | negsuc n' ↦ ok false
        ]
        | negsuc m' ↦ elim n [
          | pos n' ↦ ok false
          | negsuc n' ↦
              if m' == n' then ok ((length steps == 0) && bytes_eq old_root new_root) else ok false
        ]
      ]
