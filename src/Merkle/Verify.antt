-- ===== src/Merkle/Verify.antt =====
-- merkle/tree.go: Verify, VerifyInclusion, decodeProof and proofSideSequence.
use trust.Prelude.{
  ℕ, zero, suc, ◌+◌, ◌/◌, ◌%◌, ◌^◌, List, [], ◌∷◌, Bool, true, false, not, ◌&&◌, ◌||◌, length, ltb,
  leb, ◌==◌, if◌then◌else◌, Outcome, ok, err, panic, ◌>>=◌, Bytes, bytes_eq,
}
use trust.Merkle.Hash.{
  Hasher, Digest, Error, leaf_hash, node_hash, index_out_of_range, tampered_leaf, malformed_proof,
}
use trust.Merkle.Tree.{ProofStep}

module _ ⦃hasher : Hasher⦄ where
  -- One round of the loop of Verify.
  unfoldable pub apply_step : Digest → ProofStep → Digest
  apply_step h step = if step.is_right then node_hash h step.hash else node_hash step.hash h

  unfoldable pub apply_path : Digest → List ProofStep → Digest
  unfolding apply_step
  apply_path h [] = h
  apply_path h (step ∷ path) = apply_path (apply_step h step) path

  unfoldable pub verify : Bytes → Bytes → List ProofStep → Bool
  unfolding apply_path
  verify root leaf path =
      if not (length root == 32) then false else bytes_eq (apply_path (leaf_hash leaf) path) root

-- The side byte of an element, as `IsRight`.
unfoldable pub decode_side : ℕ → Outcome Error Bool
decode_side side =
    if side == 0x00 then ok false else if side == 0x01 then ok true else err malformed_proof

-- One round of decodeProof. The length test comes first, so `elem[0]` and `elem[1:]` are there.
unfoldable pub decode_element : Bytes → Outcome Error ProofStep
unfolding decode_side
decode_element [] = err malformed_proof
decode_element (side ∷ hash) =
    if not (length (side ∷ hash) == 33)
    then err malformed_proof
    else decode_side side >>= λ right. ok (record { hash = hash; is_right = right })

unfoldable pub decode_proof : List Bytes → Outcome Error (List ProofStep)
unfolding decode_element
decode_proof [] = ok []
decode_proof (element ∷ rest) =
    decode_element element >>= λ step. decode_proof rest >>= λ steps. ok (step ∷ steps)

-- The sum of two `uint64`.
abbrev add64 : ℕ → ℕ → ℕ
add64 a b = (a + b) % 2 ^ 64

-- The loop of proofSideSequence, `for count > 1`, on fuel.
unfoldable pub side_loop : ℕ → ℕ → ℕ → List Bool
side_loop zero idx count = []
side_loop (suc fuel) idx count =
    let rest = side_loop fuel (idx / 2) (add64 count 1 / 2) in
    if ltb 1 count
    then (if (idx % 2 == 1) || ltb (add64 idx 1) count then (idx % 2 == 0) ∷ rest else rest)
    else []

-- `count` falls in every round, so `treeSize` rounds are enough.
unfoldable pub proof_side_sequence : ℕ → ℕ → List Bool
unfolding side_loop
proof_side_sequence index tree_size = side_loop tree_size index tree_size

-- The loop that compares `step.IsRight != sides[i]`, after the lengths.
unfoldable pub sides_match : List ProofStep → List Bool → Bool
sides_match [] [] = true
sides_match [] (side ∷ sides) = false
sides_match (step ∷ path) [] = false
sides_match (step ∷ path) (side ∷ sides) =
    (if step.is_right then side else not side) && sides_match path sides

module _ ⦃hasher : Hasher⦄ where
  -- `root` is a `[32]byte` and `leaf` the 32 bytes that Verify hashes as a leaf.
  unfoldable pub verify_inclusion : Digest → ℕ → ℕ → Bytes → List Bytes → Outcome Error (Unit {0})
  verify_inclusion root index tree_size leaf elements =
      if leb tree_size index then err index_out_of_range else elim (decode_proof elements) [
        | ok path ↦
            if sides_match path (proof_side_sequence index tree_size)
            then (if verify root leaf path then ok tt else err tampered_leaf)
            else err tampered_leaf
        | err e ↦ err tampered_leaf
        | panic ↦ panic
      ]
