-- ===== src/Merkle/Tree.antt =====
-- merkle/tree.go: New, Root, Size and Proof.
use trust.Prelude.{
  ℕ, zero, suc, ◌+◌, ◌-◌, ◌/◌, ◌%◌, List, [], ◌∷◌, map, Bool, ◌||◌, length, get_elem?, ltb, leb,
  ◌==◌, if◌then◌else◌, Outcome, ok, err, ◌>>=◌, at, Bytes, ℤ, pos, negsuc,
}
use trust.Merkle.Hash.{Hasher, Digest, Error, leaf_hash, node_hash, empty_tree, index_out_of_range}

-- `levels[0]` are the leaf hashes; each next level pairs the nodes of the one before.
pub record Tree : Type 0 where
  pub levels : List (List Digest)
  pub size : ℕ

-- One sibling hash, and whether it stands on the right.
pub record ProofStep : Type 0 where
  pub hash : Digest
  pub is_right : Bool

-- `index ^ 1`.
abbrev pub flip_low_bit : ℕ → ℕ
flip_low_bit index = if index % 2 == 0 then index + 1 else index - 1

module _ ⦃hasher : Hasher⦄ where
  -- The inner loop of New: pairs are hashed, and a last odd node is promoted unchanged.
  unfoldable pub next_level : List Digest → List Digest
  next_level [] = []
  next_level (x ∷ []) = x ∷ []
  next_level (x ∷ y ∷ rest) = node_hash x y ∷ next_level rest

  -- The outer loop of New, `for len(level) > 1`, on fuel.
  unfoldable pub build_levels : ℕ → List Digest → List (List Digest)
  unfolding next_level
  build_levels zero level = level ∷ []
  build_levels (suc fuel) [] = [] ∷ []
  build_levels (suc fuel) (x ∷ []) = (x ∷ []) ∷ []
  build_levels (suc fuel) (x ∷ y ∷ rest) =
      (x ∷ y ∷ rest) ∷ build_levels fuel (next_level (x ∷ y ∷ rest))

  -- A round at least halves the level, so `len(leaves)` rounds are enough.
  unfoldable pub new : List Bytes → Outcome Error Tree
  unfolding build_levels
  new leaves =
      if length leaves == 0
      then err empty_tree
      else ok (record {
        levels = build_levels (length leaves) (map leaf_hash leaves);
        size = length leaves;
      })

-- `t.levels[len(t.levels)-1][0]`.
unfoldable pub root : Tree → Outcome Error Digest
root t = at (get_elem? t.levels (length t.levels - 1)) >>= λ top. at (get_elem? top 0)

abbrev pub size : Tree → ℕ
size t = t.size

-- The loop of Proof over the levels that have one above them.
unfoldable pub proof_loop : List (List Digest) → ℕ → Outcome Error (List ProofStep)
proof_loop [] idx = ok []
proof_loop (level ∷ []) idx = ok []
proof_loop (level ∷ above ∷ levels) idx =
    let rest = proof_loop (above ∷ levels) (idx / 2) in
    if (idx % 2 == 1) || ltb (idx + 1) (length level)
    then (at (get_elem? level (flip_low_bit idx)) >>= λ sibling.
        rest >>= λ steps. ok (record { hash = sibling; is_right = idx % 2 == 0 } ∷ steps))
    else rest

unfoldable pub proof : Tree → ℤ → Outcome Error (List ProofStep)
unfolding proof_loop
proof t (negsuc n) = err index_out_of_range
proof t (pos index) = if leb t.size index then err index_out_of_range else proof_loop t.levels index
