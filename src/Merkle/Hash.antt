-- ===== src/Merkle/Hash.antt =====
-- merkle/tree.go: leafHash, nodeHash and the errors of the package. SHA-256 itself
-- (crypto/hash/sha256.go calls the Go library) is a parameter of which only the length is known.
use trust.Prelude.{◌≡◌, ◌≢◌, ◌∷◌, ◌++◌, length, Bytes}

-- `hasher.Sum`: 32 bytes for every input.
pub record Hasher : Type 0 where
  pub sum : Bytes → Bytes
  pub length-sum : (data_bytes : Bytes) → length (sum data_bytes) ≡ 32

-- A Go `[32]byte` that holds a hash.
abbrev pub Digest : Type 0
Digest = Bytes

abbrev pub IsDigest : Digest → Type 0
IsDigest d = length d ≡ 32

pub data Error : Type 0 where
  empty_tree index_out_of_range invalid_range tree_corrupt tampered_leaf malformed_proof : Error

module _ ⦃hasher : Hasher⦄ where
  -- SHA-256(0x00 || data).
  unfoldable pub leaf_hash : Bytes → Digest
  leaf_hash content = hasher.sum (0x00 ∷ content)

  -- SHA-256(0x01 || left || right).
  unfoldable pub node_hash : Digest → Digest → Digest
  node_hash left right = hasher.sum (0x01 ∷ (left ++ right))

  pub leaf_hash-IsDigest : (content : Bytes) → IsDigest (leaf_hash content)
  unfolding leaf_hash
  leaf_hash-IsDigest content = hasher.length-sum _

  pub node_hash-IsDigest : (left right : Digest) → IsDigest (node_hash left right)
  unfolding node_hash
  node_hash-IsDigest left right = hasher.length-sum _

  -- Two different inputs with one hash.
  abbrev pub Collision : Type 0
  Collision = (a : Bytes) × (b : Bytes) × (a ≢ b) × (hasher.sum a ≡ hasher.sum b)
