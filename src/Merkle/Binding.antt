-- ===== src/Merkle/Binding.antt =====
-- merkle/tree.go: what a hash and a path commit to, as long as no two inputs of SHA-256 collide.
use trust.Prelude.{
  ◌≡◌, refl, List, [], ◌∷◌, ◌++◌, Bool, true, ◌⊎◌, inl, inr, arith, All, Bytes, Bytes-cases,
  Bool-cases, append-split, tail-eq,
}
use trust.Merkle.Hash.{
  Hasher, Digest, IsDigest, Collision, leaf_hash, node_hash, node_hash-IsDigest,
}
use trust.Merkle.Tree.{ProofStep}
use trust.Merkle.Verify.{apply_step, apply_path, sides_match}

abbrev pub HasDigest : ProofStep → Type 0
HasDigest step = IsDigest step.hash

module _ ⦃hasher : Hasher⦄ where
  sum-binds : (a b : Bytes) → hasher.sum a ≡ hasher.sum b → (a ≡ b) ⊎ Collision
  sum-binds a b e = elim (Bytes-cases a b) [ inl p ↦ inl p | inr n ↦ inr (a, b, n, e) ]

  pub leaf_hash-binds : (a b : Bytes) → leaf_hash a ≡ leaf_hash b → (a ≡ b) ⊎ Collision
  unfolding leaf_hash
  leaf_hash-binds a b e = elim (sum-binds (0x00 ∷ a) (0x00 ∷ b) e) [
    | inl p ↦ inl (tail-eq p)
    | inr c ↦ inr c
  ]

  pub node_hash-binds :
      (a b c d : Digest)
      → IsDigest a
      → IsDigest c
      → node_hash a b ≡ node_hash c d
      → ((a ≡ c) × (b ≡ d)) ⊎ Collision
  unfolding node_hash
  node_hash-binds a b c d ha hc e = elim (sum-binds (0x01 ∷ (a ++ b)) (0x01 ∷ (c ++ d)) e) [
    | inl p ↦ inl (append-split a b c d (omega arith) (tail-eq p))
    | inr x ↦ inr x
  ]

  -- A leaf is never a node: their inputs begin with different bytes.
  leaf_hash-node_hash : (a b c : Bytes) → leaf_hash a ≡ node_hash b c → Collision
  unfolding leaf_hash node_hash
  leaf_hash-node_hash a b c e = (0x00 ∷ a, 0x01 ∷ (b ++ c), λ p. absurd (cc p), e)

  apply_step-IsDigest : (h : Digest) (s : ProofStep) → IsDigest (apply_step h s)
  unfolding apply_step
  apply_step-IsDigest h s = ground (arith, node_hash-IsDigest h s.hash, node_hash-IsDigest s.hash h)

  pub apply_path-IsDigest :
      (h : Digest) (path : List ProofStep) → IsDigest h → IsDigest (apply_path h path)
  unfolding apply_path
  apply_path-IsDigest h [] d = d
  apply_path-IsDigest h (s ∷ path) d =
      apply_path-IsDigest (apply_step h s) path (apply_step-IsDigest h s)

  apply_step-binds :
      (h k : Digest) (s t : ProofStep)
      → IsDigest h
      → IsDigest k
      → HasDigest s
      → HasDigest t
      → s.is_right ≡ t.is_right
      → apply_step h s ≡ apply_step k t
      → ((h ≡ k) × (s ≡ t)) ⊎ Collision
  unfolding apply_step
  apply_step-binds h k s t hh hk hs ht side e = elim (Bool-cases s.is_right) [
    | inl p ↦ elim (node_hash-binds h s.hash k t.hash hh hk (ground arith)) [
      | inl (a, b) ↦ inl (a, ground arith)
      | inr c ↦ inr c
    ]
    | inr p ↦ elim (node_hash-binds s.hash h t.hash k hs ht (ground arith)) [
      | inl (a, b) ↦ inl (b, ground arith)
      | inr c ↦ inr c
    ]
  ]

  sides_match-same :
      (s t : ProofStep) (p q : List ProofStep) (side : Bool) (sides : List Bool)
      → sides_match (s ∷ p) (side ∷ sides) ≡ true
      → sides_match (t ∷ q) (side ∷ sides) ≡ true
      → (s.is_right ≡ t.is_right) × (sides_match p sides ≡ true) × (sides_match q sides ≡ true)
  unfolding sides_match
  sides_match-same s t p q side sides hp hq = ground arith

  -- Two paths of one shape that reach one root start at one hash, and are the same.
  pub apply_path-binds :
      (p q : List ProofStep) (sides : List Bool) (h k : Digest)
      → IsDigest h
      → IsDigest k
      → All HasDigest p
      → All HasDigest q
      → sides_match p sides ≡ true
      → sides_match q sides ≡ true
      → apply_path h p ≡ apply_path k q
      → ((h ≡ k) × (p ≡ q)) ⊎ Collision
  apply_path-binds [] [] sides h k hh hk hp hq mp mq e = unfold apply_path in inl (e, refl)
  apply_path-binds [] (t ∷ q) [] h k hh hk hp hq mp mq e = unfold sides_match in absurd (cc)
  apply_path-binds [] (t ∷ q) (b ∷ bs) h k hh hk hp hq mp mq e = unfold sides_match in absurd (cc)
  apply_path-binds (s ∷ p) [] [] h k hh hk hp hq mp mq e = unfold sides_match in absurd (cc)
  apply_path-binds (s ∷ p) [] (b ∷ bs) h k hh hk hp hq mp mq e = unfold sides_match in absurd (cc)
  apply_path-binds (s ∷ p) (t ∷ q) [] h k hh hk hp hq mp mq e = unfold sides_match in absurd (cc)
  apply_path-binds (s ∷ p) (t ∷ q) (b ∷ bs) h k hh hk (hs, hp) (ht, hq) mp mq e =
      let (side, mp', mq') = sides_match-same s t p q b bs mp mq in
      elim (apply_path-binds p q bs (apply_step h s) (apply_step k t) (apply_step-IsDigest h s)
        (apply_step-IsDigest k t) hp hq mp' mq' (unfold apply_path in e)) [
          | inl (same, rest) ↦ elim (apply_step-binds h k s t hh hk hs ht side same) [
            | inl (a, b) ↦ inl (a, cc (b, rest))
            | inr c ↦ inr c
          ]
          | inr c ↦ inr c
        ]
