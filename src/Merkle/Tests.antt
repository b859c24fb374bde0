-- ===== src/Merkle/Tests.antt =====
-- merkle/tree.go on concrete trees, over a checksum of 32 bytes in place of SHA-256.
use trust.Prelude.{
  Bool, pos, negsuc, ℕ, zero, suc, ◌+◌, ◌*◌, ◌%◌, ◌^◌, ◌≤◌, ◌≡◌, refl, List, [], ◌∷◌, map, true,
  false, ◌⊎◌, ◌↔◌, none, some, length, take, get_elem?, ok, err, Bytes, codes, arith, bytes_eq,
}
use trust.Merkle.Hash.{
  Hasher, Digest, Collision, leaf_hash, node_hash, empty_tree, index_out_of_range, tampered_leaf,
  invalid_range,
}
use trust.Merkle.Tree.{Tree, ProofStep, build_levels, new, root, proof}
use trust.Merkle.Verify.{verify, decode_proof, proof_side_sequence, sides_match, verify_inclusion}
use trust.Merkle.Inclusion.{
  verify-proof, proof_range, verify_inclusion_complete, verify_inclusion_sound,
}
use trust.Merkle.Split.{
  pow2_loop, largest_pow2_less_than, IsSplit, largest_pow2_less_than-IsSplit,
  largest_pow2_less_than_diverges,
}
use trust.Merkle.Consistency.{
  subtree, consistency_subproof, consistency_proof, verify_subproof, verify_consistency,
}
use trust.Merkle.Reference.{Mth, root-Mth}
use trust.Merkle.Returns.{verify_consistency_returns}
use trust.Merkle.AppendOnly.{verify_consistency_sound}

-- A checksum that depends on the order of the bytes, written in 32 bytes.
checksum : ℕ → Bytes → ℕ
checksum acc [] = acc
checksum acc (b ∷ bs) = checksum ((acc * 31 + b + 7) % 251) bs

abbrev zeros : ℕ → Bytes
zeros zero = []
zeros (suc n) = 0 ∷ zeros n

abbrev checksum_bytes : Bytes → Bytes
checksum_bytes bs = checksum 1 bs ∷ zeros 31

checksum_length : (bs : Bytes) → length (checksum_bytes bs) ≡ 32
checksum_length bs = refl

instance abbrev toy : Hasher
toy = record { sum = checksum_bytes; length-sum = checksum_length }

abbrev leaves_two : List Bytes
leaves_two = codes "a" ∷ codes "b" ∷ []

abbrev leaves_three : List Bytes
leaves_three = codes "a" ∷ codes "b" ∷ codes "c" ∷ []

abbrev tree_of : List Bytes → Tree
tree_of leaves = record {
  levels = build_levels (length leaves) (map leaf_hash leaves);
  size = length leaves;
}

new_two : new leaves_two ≡ ok (tree_of leaves_two)
unfolding new
new_two = refl

new_three : new leaves_three ≡ ok (tree_of leaves_three)
unfolding new
new_three = refl

new_none : new [] ≡ err empty_tree
unfolding new
new_none = refl

abbrev top_two : Digest
top_two = node_hash (leaf_hash (codes "a")) (leaf_hash (codes "b"))

abbrev top_three : Digest
top_three = node_hash top_two (leaf_hash (codes "c"))

root_two : root (tree_of leaves_two) ≡ ok top_two
unfolding root build_levels
root_two = refl

root_three : root (tree_of leaves_three) ≡ ok top_three
unfolding root build_levels
root_three = refl

-- The last of three leaves is promoted once, so its path has one step.
abbrev path_two : List ProofStep
path_two = record { hash = top_two; is_right = false } ∷ []

proof_two : proof (tree_of leaves_three) (pos 2) ≡ ok path_two
unfolding proof build_levels
proof_two = refl

abbrev elements_two : List Bytes
elements_two = (0x00 ∷ top_two) ∷ []

decode_two : decode_proof elements_two ≡ ok path_two
unfolding decode_proof leaf_hash node_hash
decode_two = refl

accepted_two : verify_inclusion top_three 2 3 (codes "c") elements_two ≡ ok tt
unfolding verify_inclusion decode_proof proof_side_sequence sides_match verify leaf_hash node_hash
    checksum bytes_eq
accepted_two = refl

-- The path of another index is refused by its shape.
wrong_index : verify_inclusion top_three 1 3 (codes "c") elements_two ≡ err tampered_leaf
unfolding verify_inclusion decode_proof proof_side_sequence sides_match leaf_hash node_hash
wrong_index = refl

root-Mth_example : Mth (map leaf_hash leaves_three) top_three
root-Mth_example = root-Mth leaves_three (tree_of leaves_three) top_three new_three root_three

verify-proof_example :
    (path : List ProofStep) × (top : Digest) × (proof (tree_of leaves_three) (pos 2) ≡ ok path)
    × (root (tree_of leaves_three) ≡ ok top)
    × (verify top (codes "c") path ≡ true)
    × (sides_match path (proof_side_sequence 2 3) ≡ true)
verify-proof_example =
    verify-proof leaves_three (tree_of leaves_three) 2 (codes "c") (omega arith) new_three refl

proof_range_example :
    ((proof (tree_of leaves_three) (pos 5) ≡ err index_out_of_range) ↔ (3 ≤ 5))
    × (proof (tree_of leaves_three) (negsuc 5) ≡ err index_out_of_range)
proof_range_example = proof_range leaves_three (tree_of leaves_three) 5 (omega arith) new_three

verify_inclusion_complete_example : verify_inclusion top_three 2 3 (codes "c") elements_two ≡ ok tt
verify_inclusion_complete_example =
    verify_inclusion_complete leaves_three (tree_of leaves_three) 2 (codes "c") top_three path_two
      elements_two (omega arith) new_three refl root_three proof_two decode_two

verify_inclusion_sound_example :
    ((get_elem? leaves_three 2 ≡ some (codes "c"))
      × (decode_proof elements_two ≡ proof (tree_of leaves_three) (pos 2)))
    ⊎ Collision
verify_inclusion_sound_example =
    verify_inclusion_sound leaves_three (tree_of leaves_three) 2 (codes "c") top_three elements_two
      (omega arith) new_three root_three accepted_two

largest_pow2_less_than-IsSplit_example : (k : ℕ) × (largest_pow2_less_than 7 ≡ some k) × IsSplit k 7
largest_pow2_less_than-IsSplit_example =
    largest_pow2_less_than-IsSplit 7 (omega arith) (omega arith)

largest_pow2_less_than_diverges_example : pow2_loop 1000 1 (2 ^ 62 + 1) ≡ none
largest_pow2_less_than_diverges_example =
    largest_pow2_less_than_diverges 1000 (2 ^ 62 + 1) (omega arith) (omega arith)

-- From two leaves to three: the proof is the third leaf's hash.
abbrev steps_two_three : List ProofStep
steps_two_three = record { hash = leaf_hash (codes "c"); is_right = true } ∷ []

consistency_two_three :
    consistency_proof (tree_of leaves_three) (pos 2) (pos 3) ≡ ok steps_two_three
unfolding consistency_proof consistency_subproof subtree largest_pow2_less_than build_levels
    leaf_hash node_hash
consistency_two_three = refl

consistency_empty : consistency_proof (tree_of leaves_three) (pos 0) (pos 3) ≡ err invalid_range
unfolding consistency_proof
consistency_empty = refl

accepted_two_three : verify_consistency top_two top_three (pos 2) (pos 3) steps_two_three ≡ ok true
unfolding verify_consistency verify_subproof largest_pow2_less_than leaf_hash node_hash checksum
    bytes_eq
accepted_two_three = refl

verify_consistency_sound_example : (leaves_two ≡ take 2 leaves_three) ⊎ Collision
unfolding leaf_hash
verify_consistency_sound_example =
    verify_consistency_sound leaves_two leaves_three (tree_of leaves_two) (tree_of leaves_three)
      top_two top_three steps_two_three new_two new_three root_two root_three (omega arith)
      (omega arith) (refl, tt) accepted_two_three

verify_consistency_returns_example :
    (accepted : Bool) × (verify_consistency (zeros 32) (zeros 32) (pos 2) (pos 3) [] ≡ ok accepted)
verify_consistency_returns_example =
    verify_consistency_returns (zeros 32) (zeros 32) 2 3 [] (omega arith)
