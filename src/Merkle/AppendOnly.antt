-- ===== src/Merkle/AppendOnly.antt =====
-- merkle/tree.go: VerifyConsistency accepts only trees that extend one another.
use trust.Prelude.{
  pos, ℕ, zero, suc, ◌^◌, ◌≤◌, ◌<◌, ◌≡◌, refl, sym, ◌∙◌, subst, List, [], ◌∷◌, map, Bool, true,
  false, ◌⊎◌, inl, inr, some, arith, length, length-map, take, All, length-take, All-take, ◌==◌,
  Outcome, ok, err, panic, ok-injective, bytes_eq→eq, ltb, take-map, head-eq, tail-eq, Bytes,
}
use trust.Merkle.Hash.{Hasher, Digest, IsDigest, Collision, Error, leaf_hash}
use trust.Merkle.Tree.{Tree, ProofStep, new, root}
use trust.Merkle.Binding.{HasDigest, leaf_hash-binds}
use trust.Merkle.Inclusion.{leaves-IsDigest}
use trust.Merkle.Consistency.{verify_subproof, verify_naturals, check_roots, verify_consistency}
use trust.Merkle.Reference.{Mth, Mth-binds, root-Mth}
use trust.Merkle.Trace.{Result}
use trust.Merkle.Halves.{verify_subproof_sound}

module _ ⦃hasher : Hasher⦄ where
  check_roots-accepted :
      (old_root new_root : Bytes) (res : Result)
      → check_roots old_root new_root res ≡ true
      → (res.0 ≡ new_root) × (res.1 ≡ old_root)
  unfolding check_roots
  check_roots-accepted old_root new_root (x, y, cur) e =
      ground (arith, bytes_eq→eq y old_root, bytes_eq→eq x new_root)

  ok_true-accepted :
      (r : Outcome (Unit {0}) Result) (check : Result → Bool)
      → ◌≡◌ {A = Outcome Error Bool}
          (elim r [ ok hashes ↦ ok (check hashes) | err _ ↦ ok false | panic ↦ panic ])
          (ok true)
      → (res : Result) × (r ≡ ok res) × (check res ≡ true)
  ok_true-accepted (ok res) check e = (res, refl, ok-injective e)
  ok_true-accepted (err x) check e = absurd (cc)
  ok_true-accepted panic check e = absurd (cc)

  verify_naturals-accepted :
      (old_root new_root : Bytes) (m n : ℕ) (steps : List ProofStep)
      → m < n
      → verify_naturals old_root new_root m n steps ≡ ok true
      → (0 < m)
        × (res : Result) × (verify_subproof n m n true (some old_root) steps ≡ ok res)
        × (res.0 ≡ new_root)
        × (res.1 ≡ old_root)
  unfolding verify_naturals
  verify_naturals-accepted old_root new_root zero n steps lt e = absurd (ground arith)
  verify_naturals-accepted old_root new_root (suc m) n steps lt e =
      let differ : (suc m == n) ≡ false = ground arith in
      let order : ltb n (suc m) ≡ false = ground arith in
      let never : (suc m == 0) ≡ false = ground arith in
      let (res, ran, good) =
        ok_true-accepted _ (check_roots old_root new_root) (rw (differ, order, never) at e) in
      let (p, q) = check_roots-accepted old_root new_root res good in (omega arith, res, ran, p, q)

  verify_consistency-naturals :
      (old_root new_root : Bytes) (m n : ℕ) (steps : List ProofStep)
      → verify_consistency old_root new_root (pos m) (pos n) steps ≡ ok true
      → (verify_naturals old_root new_root m n steps ≡ ok true) × (length old_root ≡ 32)
  unfolding verify_consistency
  verify_consistency-naturals old_root new_root m n steps e = ground arith

  map-leaf_hash-binds :
      (xs ys : List Bytes) → map leaf_hash xs ≡ map leaf_hash ys → (xs ≡ ys) ⊎ Collision
  map-leaf_hash-binds [] [] e = inl refl
  map-leaf_hash-binds [] (y ∷ ys) e = absurd (cc)
  map-leaf_hash-binds (x ∷ xs) [] e = absurd (cc)
  map-leaf_hash-binds (x ∷ xs) (y ∷ ys) e = elim (leaf_hash-binds x y (head-eq e)) [
    | inl p ↦ elim (map-leaf_hash-binds xs ys (tail-eq e)) [
      | inl q ↦ inl (cc (p, q))
      | inr c ↦ inr c
    ]
    | inr c ↦ inr c
  ]

  same_leaves :
      (old_leaves leaves : List Bytes) (d : Digest)
      → Mth (map leaf_hash old_leaves) d
      → Mth (take (length old_leaves) (map leaf_hash leaves)) d
      → length old_leaves ≤ length leaves
      → (old_leaves ≡ take (length old_leaves) leaves) ⊎ Collision
  same_leaves old_leaves leaves d t u le =
      let n = length old_leaves in
      let width : length (map leaf_hash old_leaves) ≡ length (take n (map leaf_hash leaves)) =
        omega (
          arith,
          length-map leaf_hash old_leaves,
          length-map leaf_hash leaves,
          length-take n (map leaf_hash leaves),
        ) in
      elim (Mth-binds t u refl width (leaves-IsDigest old_leaves)
        (All-take IsDigest n (map leaf_hash leaves) (leaves-IsDigest leaves))) [
          | inl e ↦ map-leaf_hash-binds old_leaves (take n leaves) (e ∙ take-map leaf_hash n leaves)
          | inr c ↦ inr c
        ]

  -- VerifyConsistency is sound: let the two roots be those of New on `old_leaves` and on `leaves`, with
  -- fewer old leaves than new ones and at most 2^62 of these. If it accepts them with the two sizes
  -- and any steps of 32-byte hashes, then the old leaves are the first of the new ones: nothing was
  -- changed or reordered. Otherwise two inputs of SHA-256 with one hash are at hand.
  pub verify_consistency_sound :
      (old_leaves leaves : List Bytes) (old_tree tree : Tree) (old_root new_root : Digest)
      (steps : List ProofStep)
      → new old_leaves ≡ ok old_tree
      → new leaves ≡ ok tree
      → root old_tree ≡ ok old_root
      → root tree ≡ ok new_root
      → length old_leaves < length leaves
      → length leaves ≤ 2 ^ 62
      → All HasDigest steps
      → verify_consistency old_root new_root (pos (length old_leaves)) (pos (length leaves)) steps
        ≡ ok true
      → (old_leaves ≡ take (length old_leaves) leaves) ⊎ Collision
  verify_consistency_sound old_leaves leaves old_tree tree old_root new_root steps eo en ro rn lt
        small ds e =
      let (v, d) = verify_consistency-naturals old_root new_root _ _ steps e in
      let (positive, res, ran, p, q) = verify_naturals-accepted old_root new_root _ _ steps lt v in
      let hashes = map leaf_hash leaves in
      let digests = leaves-IsDigest leaves in
      let width : length leaves ≡ length hashes = sym (length-map leaf_hash leaves) in
      let run =
        subst (λ n. verify_subproof n (length old_leaves) n true (some old_root) steps ≡ ok res)
          width ran in
      let sound =
        verify_subproof_sound (length hashes) steps ds (length old_leaves) true (some old_root) res
          hashes run positive (omega arith) (omega arith) d digests
          (subst (Mth hashes) (sym p) (root-Mth leaves tree new_root en rn)) in
      elim sound [
        | inl t ↦
            same_leaves old_leaves leaves old_root (root-Mth old_leaves old_tree old_root eo ro)
              (subst (Mth (take (length old_leaves) hashes)) q t) (omega arith)
        | inr c ↦ inr c
      ]
