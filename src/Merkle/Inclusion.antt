-- ===== src/Merkle/Inclusion.antt =====
-- merkle/tree.go: Proof is complete and VerifyInclusion is sound.
use trust.Prelude.{
  pos, negsuc, ℕ, zero, suc, ◌/◌, ◌^◌, ◌≤◌, ◌<◌, ◌≡◌, refl, ap, ◌∙◌, List, [], ◌∷◌, map, true, ◌⊎◌,
  inl, inr, some, arith, length, get_elem?, All, ok, err, at, at-eq-ok, ok-injective, >>=-eq-ok,
  subst, All-get_elem?, Bytes, bytes_eq→eq, bytes_eq_refl, Bool-cases, Nat-cases, sym, length-map,
  get_elem?-map, get_elem?-lt, lt_of_get_elem?, ◌↔◌,
}
use trust.Merkle.Hash.{
  Hasher, Digest, IsDigest, Collision, index_out_of_range, leaf_hash, node_hash-IsDigest,
  leaf_hash-IsDigest,
}
use trust.Merkle.Tree.{
  Tree, ProofStep, flip_low_bit, next_level, build_levels, new, root, proof_loop, proof,
}
use trust.Merkle.Verify.{
  apply_path, verify, decode_side, decode_element, decode_proof, proof_side_sequence, sides_match,
  verify_inclusion,
}
use trust.Merkle.Climb.{Climbs, climb, has_sibling}
use trust.Merkle.Binding.{HasDigest, apply_path-binds, apply_path-IsDigest, leaf_hash-binds}

-- Hashes of 32 bytes in, steps of 32 bytes out.
proof_loop-HasDigest :
    (levels : List (List Digest)) (idx : ℕ) (path : List ProofStep)
    → All (All IsDigest) levels
    → proof_loop levels idx ≡ ok path
    → All HasDigest path
unfolding proof_loop
proof_loop-HasDigest [] idx path h e = subst (All HasDigest) (ok-injective e) tt
proof_loop-HasDigest (level ∷ []) idx path h e = subst (All HasDigest) (ok-injective e) tt
proof_loop-HasDigest (level ∷ above ∷ levels) idx path (h, hs) e =
    elim (Bool-cases (has_sibling idx (length level))) [
      | inl p ↦
          let (s, es, e') = >>=-eq-ok (at (get_elem? level (flip_low_bit idx))) _ (rw p at e) in
          let (steps, er, e'') = >>=-eq-ok (proof_loop (above ∷ levels) (idx / 2)) _ e' in
          subst (All HasDigest) (ok-injective e'') (
            All-get_elem? IsDigest level (flip_low_bit idx) h (at-eq-ok _ es),
            proof_loop-HasDigest (above ∷ levels) (idx / 2) steps hs er,
          )
      | inr p ↦ proof_loop-HasDigest (above ∷ levels) (idx / 2) path hs (rw p at e)
    ]

decode_element-HasDigest :
    (element : Bytes) (step : ProofStep) → decode_element element ≡ ok step → HasDigest step
unfolding decode_element decode_side
decode_element-HasDigest [] step e = absurd (cc)
decode_element-HasDigest (side ∷ hash) step e = ground arith

decode_proof-HasDigest :
    (elements : List Bytes) (path : List ProofStep)
    → decode_proof elements ≡ ok path
    → All HasDigest path
unfolding decode_proof
decode_proof-HasDigest [] path e = subst (All HasDigest) (ok-injective e) tt
decode_proof-HasDigest (element ∷ rest) path e =
    let (step, es, e') = >>=-eq-ok (decode_element element) _ e in
    let (steps, er, e'') = >>=-eq-ok (decode_proof rest) _ e' in
    subst (All HasDigest) (ok-injective e'')
      (decode_element-HasDigest element step es, decode_proof-HasDigest rest steps er)

module _ ⦃hasher : Hasher⦄ where
  next_level-IsDigest : (level : List Digest) → All IsDigest level → All IsDigest (next_level level)
  unfolding next_level
  next_level-IsDigest [] h = tt
  next_level-IsDigest (x ∷ []) h = h
  next_level-IsDigest (x ∷ y ∷ r) (hx, (hy, hs)) =
      (node_hash-IsDigest x y, next_level-IsDigest r hs)

  build_levels-IsDigest :
      (fuel : ℕ) (level : List Digest)
      → All IsDigest level
      → All (All IsDigest) (build_levels fuel level)
  unfolding build_levels
  build_levels-IsDigest zero level h = (h, tt)
  build_levels-IsDigest (suc fuel) [] h = (h, tt)
  build_levels-IsDigest (suc fuel) (x ∷ []) h = (h, tt)
  build_levels-IsDigest (suc fuel) (x ∷ y ∷ r) h =
      (h, build_levels-IsDigest fuel (next_level (x ∷ y ∷ r)) (next_level-IsDigest (x ∷ y ∷ r) h))

  pub leaves-IsDigest : (leaves : List Bytes) → All IsDigest (map leaf_hash leaves)
  leaves-IsDigest [] = tt
  leaves-IsDigest (x ∷ xs) = (leaf_hash-IsDigest x, leaves-IsDigest xs)

  pub new-eq-ok :
      (leaves : List Bytes) (t : Tree)
      → new leaves ≡ ok t
      → t ≡ record {
        levels = build_levels (length leaves) (map leaf_hash leaves);
        size = length leaves;
      }
  unfolding new
  new-eq-ok leaves t e = ground arith

  -- The path of Proof and what it does, from the induction over the levels.
  leaf-Climbs :
      (leaves : List Bytes) (index : ℕ) (leaf : Bytes)
      → length leaves < 2 ^ 63
      → get_elem? leaves index ≡ some leaf
      → Climbs (length leaves) (map leaf_hash leaves) index (leaf_hash leaf)
  leaf-Climbs leaves index leaf small e =
      climb (length leaves) (map leaf_hash leaves) index (leaf_hash leaf)
        (omega (arith, length-map leaf_hash leaves)) (omega (arith, length-map leaf_hash leaves))
        (get_elem?-map leaf_hash leaves index e)

  verify_accepts :
      (top : Digest) (leaf : Bytes) (path : List ProofStep)
      → apply_path (leaf_hash leaf) path ≡ top
      → verify top leaf path ≡ true
  unfolding verify
  verify_accepts top leaf path e =
      let d = apply_path-IsDigest (leaf_hash leaf) path (leaf_hash-IsDigest leaf) in
      ground (arith, bytes_eq_refl top, ap length e)

  verify_accepted :
      (top : Digest) (leaf : Bytes) (path : List ProofStep)
      → verify top leaf path ≡ true
      → apply_path (leaf_hash leaf) path ≡ top
  unfolding verify
  verify_accepted top leaf path e =
      ground (arith, bytes_eq→eq (apply_path (leaf_hash leaf) path) top)

  -- On the tree of `leaves`, Proof returns a path for every leaf, Root returns a hash, Verify
  -- accepts the leaf with that path against that root, and the sides of the path are those that
  -- proofSideSequence computes from the index and the size alone.
  pub verify-proof :
      (leaves : List Bytes) (t : Tree) (index : ℕ) (leaf : Bytes)
      → length leaves < 2 ^ 63
      → new leaves ≡ ok t
      → get_elem? leaves index ≡ some leaf
      → (path : List ProofStep) × (top : Digest) × (proof t (pos index) ≡ ok path)
        × (root t ≡ ok top)
        × (verify top leaf path ≡ true)
        × (sides_match path (proof_side_sequence index (length leaves)) ≡ true)
  verify-proof leaves t index leaf small built e =
      let c = leaf-Climbs leaves index leaf small e in
      (
        c.path,
        c.top,
        rw (new-eq-ok leaves t built)
            (unfold proof in ground (arith, c.found, lt_of_get_elem? leaves index e)),
        rw (new-eq-ok leaves t built) (unfold root in c.reaches),
        verify_accepts c.top leaf c.path c.folds,
        unfold proof_side_sequence in rw (length-map leaf_hash leaves) at (c.sides),
      )

  pub proof-HasDigest :
      (leaves : List Bytes) (t : Tree) (index : ℕ) (path : List ProofStep)
      → new leaves ≡ ok t
      → proof t (pos index) ≡ ok path
      → All HasDigest path
  unfolding proof
  proof-HasDigest leaves t index path built found =
      let whole = new-eq-ok leaves t built in
      proof_loop-HasDigest (build_levels (length leaves) (map leaf_hash leaves)) index path
        (build_levels-IsDigest (length leaves) (map leaf_hash leaves) (leaves-IsDigest leaves))
        (ground arith)

  verify_inclusion_accepts :
      (top : Digest) (index n : ℕ) (leaf : Bytes) (elements : List Bytes) (path : List ProofStep)
      → index < n
      → decode_proof elements ≡ ok path
      → sides_match path (proof_side_sequence index n) ≡ true
      → verify top leaf path ≡ true
      → verify_inclusion top index n leaf elements ≡ ok tt
  unfolding verify_inclusion
  verify_inclusion_accepts top index n leaf elements path below decoded sides verified =
      ground arith

  verify_inclusion_accepted :
      (top : Digest) (index n : ℕ) (leaf : Bytes) (elements : List Bytes)
      → verify_inclusion top index n leaf elements ≡ ok tt
      → (index < n)
        × (path : List ProofStep) × (decode_proof elements ≡ ok path)
        × (sides_match path (proof_side_sequence index n) ≡ true)
        × (verify top leaf path ≡ true)
  unfolding verify_inclusion
  verify_inclusion_accepted top index n leaf elements accepted = ground arith

  -- Proof fails with ErrIndexOutOfRange on every index outside of the leaves, and on no other.
  pub proof_range :
      (leaves : List Bytes) (t : Tree) (index : ℕ)
      → length leaves < 2 ^ 63
      → new leaves ≡ ok t
      → ((proof t (pos index) ≡ err index_out_of_range) ↔ (length leaves ≤ index))
        × (proof t (negsuc index) ≡ err index_out_of_range)
  unfolding proof
  proof_range leaves t index small built =
      let whole = new-eq-ok leaves t built in
      (
        (
          λ e. elim (Nat-cases index (length leaves)) [
            | inl h ↦
                let (leaf, at_leaf) = get_elem?-lt leaves index h in
                let c = leaf-Climbs leaves index leaf small at_leaf in
                absurd (ground (arith, c.found))
            | inr h ↦ h
          ],
          λ h. ground arith,
        ),
        refl,
      )

  -- VerifyInclusion accepts what Proof returns: on the tree of `leaves`, with its root, its size and
  -- any list of elements that decodes to the path.
  pub verify_inclusion_complete :
      (leaves : List Bytes) (t : Tree) (index : ℕ) (leaf : Bytes) (top : Digest)
      (path : List ProofStep) (elements : List Bytes)
      → length leaves < 2 ^ 63
      → new leaves ≡ ok t
      → get_elem? leaves index ≡ some leaf
      → root t ≡ ok top
      → proof t (pos index) ≡ ok path
      → decode_proof elements ≡ ok path
      → verify_inclusion top index (length leaves) leaf elements ≡ ok tt
  verify_inclusion_complete leaves t index leaf top path elements small built e at_root found
        decoded =
      let (p, r, found', at_root', accepts, sides) =
        verify-proof leaves t index leaf small built e in
      let same_path : p ≡ path = ok-injective (sym found' ∙ found) in
      let same_top : r ≡ top = ok-injective (sym at_root' ∙ at_root) in
      verify_inclusion_accepts top index (length leaves) leaf elements path
        (lt_of_get_elem? leaves index e) decoded (rw same_path at sides)
        (rw (same_path, same_top) at accepts)

  -- VerifyInclusion is sound: if it accepts a leaf at an index against the root and the size of the
  -- tree of `leaves`, whatever the elements, then that leaf stands at that index, and the elements
  -- decode to the very path of Proof; or two inputs of SHA-256 with one hash are at hand.
  pub verify_inclusion_sound :
      (leaves : List Bytes) (t : Tree) (index : ℕ) (leaf : Bytes) (top : Digest)
      (elements : List Bytes)
      → length leaves < 2 ^ 63
      → new leaves ≡ ok t
      → root t ≡ ok top
      → verify_inclusion top index (length leaves) leaf elements ≡ ok tt
      → ((get_elem? leaves index ≡ some leaf) × (decode_proof elements ≡ proof t (pos index)))
        ⊎ Collision
  verify_inclusion_sound leaves t index leaf top elements small built at_root accepted =
      let (below, path, decoded, sides, verified) =
        verify_inclusion_accepted top index (length leaves) leaf elements accepted in
      let (leaf', at_leaf) = get_elem?-lt leaves index below in
      let (p, r, found, at_root', accepts, sides') =
        verify-proof leaves t index leaf' small built at_leaf in
      let same_top : r ≡ top = ok-injective (sym at_root' ∙ at_root) in
      let folds = verify_accepted top leaf path verified in
      let folds' = verify_accepted r leaf' p accepts in
      let digests = proof-HasDigest leaves t index p built found in
      elim (apply_path-binds path p (proof_side_sequence index (length leaves)) (leaf_hash leaf)
        (leaf_hash leaf') (leaf_hash-IsDigest leaf) (leaf_hash-IsDigest leaf')
        (decode_proof-HasDigest elements path decoded) digests sides sides'
        (folds ∙ sym same_top ∙ sym folds')) [
          | inl (h, same) ↦ elim (leaf_hash-binds leaf leaf' h) [
            | inl q ↦ inl (rw q at_leaf, decoded ∙ cc same ∙ sym found)
            | inr c ↦ inr c
          ]
          | inr c ↦ inr c
        ]
