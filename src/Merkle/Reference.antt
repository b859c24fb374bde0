-- ===== src/Merkle/Reference.antt =====
-- The Merkle tree hash of RFC 6962 section 2.1, stated without the level layout of merkle/tree.go,
-- and the proof that Root computes it.
use trust.Prelude.{
  ℕ, zero, suc, ◌*◌, ◌≤◌, ◌<◌, ◌≡◌, refl, sym, ap, ◌∙◌, subst, List, [], ◌∷◌, ◌++◌, map, ◌⊎◌, inl,
  inr, length, length-append, take, drop, take-append-drop, length-take, take-append_length,
  drop-append_length, All, All-take, All-drop, arith, ok, Bytes, length-map, ok-injective, head-eq,
}
use trust.Merkle.Hash.{
  Hasher, Digest, IsDigest, Collision, leaf_hash, node_hash, node_hash-IsDigest,
}
use trust.Merkle.Tree.{Tree, next_level, build_levels, new, root}
use trust.Merkle.Split.{IsSplit, two_pow-suc, IsSplit-unique, IsSplit-pos}
use trust.Merkle.Climb.{top_of, top_of_step, length-next_level}
use trust.Merkle.Binding.{node_hash-binds}
use trust.Merkle.Inclusion.{new-eq-ok}

two_more : (k : ℕ) → 2 * suc k ≡ suc (suc (2 * k))
two_more k = omega arith

take-nil {ℓ} : {A : Type ℓ} (k : ℕ) → take {A = A} k [] ≡ []
take-nil zero = refl
take-nil (suc k) = refl

drop-nil {ℓ} : {A : Type ℓ} (k : ℕ) → drop {A = A} k [] ≡ []
drop-nil zero = refl
drop-nil (suc k) = refl

module _ ⦃hasher : Hasher⦄ where
  -- MTH over hashed leaves: one leaf is its own hash; more are split at the largest power of two
  -- below their number.
  pub data Mth : List Digest → Digest → Type 0 where
    leaf : {ls : List Digest} {d : Digest} → ls ≡ d ∷ [] → Mth ls d
    node :
        {ls : List Digest} {d left right : Digest} (a b : List Digest)
        → ls ≡ a ++ b
        → d ≡ node_hash left right
        → IsSplit (length a) (length ls)
        → Mth a left
        → Mth b right
        → Mth ls d

  next_level-take :
      (k : ℕ) (ls : List Digest) → next_level (take (2 * k) ls) ≡ take k (next_level ls)
  unfolding next_level
  next_level-take zero ls = refl
  next_level-take (suc k) [] = rw (two_more k)
  next_level-take (suc k) (x ∷ []) =
      rw (two_more k) (ap (λ (t : List Digest). x ∷ t) (sym (take-nil k)))
  next_level-take (suc k) (x ∷ y ∷ r) =
      rw (two_more k) (ap (λ (t : List Digest). node_hash x y ∷ t) (next_level-take k r))

  next_level-drop :
      (k : ℕ) (ls : List Digest) → next_level (drop (2 * k) ls) ≡ drop k (next_level ls)
  unfolding next_level
  next_level-drop zero ls = refl
  next_level-drop (suc k) [] = rw (two_more k)
  next_level-drop (suc k) (x ∷ []) = rw (two_more k) (sym (drop-nil k))
  next_level-drop (suc k) (x ∷ y ∷ r) = rw (two_more k) (next_level-drop k r)

  -- A hash over a level is one over the level below.
  Mth-expand_leaf : (ls : List Digest) (d : Digest) → next_level ls ≡ d ∷ [] → Mth ls d
  Mth-expand_leaf [] d e = unfold next_level in absurd (cc)
  Mth-expand_leaf (x ∷ []) d e = unfold next_level in leaf e
  Mth-expand_leaf (x ∷ y ∷ []) d e =
      unfold next_level in
      node (x ∷ []) (y ∷ []) refl (sym (head-eq e))
        (record { power = (0, refl); below = omega arith; above = omega arith }) (leaf refl)
        (leaf refl)
  Mth-expand_leaf (x ∷ y ∷ z ∷ r) d e =
      absurd (omega (arith, ap length e, length-next_level (x ∷ y ∷ z ∷ r)))

  IsSplit-expand :
      (ls a b : List Digest)
      → a ++ b ≡ next_level ls
      → IsSplit (length a) (length (a ++ b))
      → IsSplit (length (take (2 * length a) ls)) (length ls)
  IsSplit-expand ls a b e s =
      let len = length-next_level ls in
      let all = ap length e in
      let front : length (take (2 * length a) ls) ≡ 2 * length a =
        omega (arith, length-take (2 * length a) ls, len, all, s.below) in
      record {
        power = (suc s.power.0, omega (arith, front, s.power.1, two_pow-suc s.power.0));
        below = omega (arith, front, len, all, s.below);
        above = omega (arith, front, len, all, s.above);
      }

  Mth-expand :
      {up : List Digest} {d : Digest} (ls : List Digest) → Mth up d → up ≡ next_level ls → Mth ls d
  Mth-expand {up} {d} ls (leaf e) p = Mth-expand_leaf ls d (sym p ∙ e)
  Mth-expand {up} {d} ls (node {left = l} {right = r} a b e h s ma mb) p =
      let q : a ++ b ≡ next_level ls = sym e ∙ p in
      node (take (2 * length a) ls) (drop (2 * length a) ls)
        (sym (take-append-drop (2 * length a) ls)) h
        (IsSplit-expand ls a b q (subst (λ t. IsSplit (length a) (length t)) e s))
        (Mth-expand (take (2 * length a) ls) ma
          (sym (next_level-take (length a) ls ∙ rw (← q) (take-append_length a b))))
        (Mth-expand (drop (2 * length a) ls) mb
          (sym (next_level-drop (length a) ls ∙ rw (← q) (drop-append_length a b))))

  top_of-Mth :
      (fuel : ℕ) (ls : List Digest) (d : Digest)
      → length ls ≤ suc fuel
      → top_of (build_levels fuel ls) ≡ ok d
      → Mth ls d
  top_of-Mth zero [] d h e = unfold build_levels in absurd (cc)
  top_of-Mth zero (x ∷ []) d h e =
      unfold build_levels in leaf (ap (λ (t : Digest). t ∷ []) (ok-injective e))
  top_of-Mth zero (x ∷ y ∷ r) d h e = absurd (omega arith)
  top_of-Mth (suc fuel) [] d h e = unfold build_levels in absurd (cc)
  top_of-Mth (suc fuel) (x ∷ []) d h e =
      unfold build_levels in leaf (ap (λ (t : Digest). t ∷ []) (ok-injective e))
  top_of-Mth (suc fuel) (x ∷ y ∷ r) d h e =
      let ls = x ∷ y ∷ r in
      Mth-expand ls
        (top_of-Mth fuel (next_level ls) d (omega (arith, length-next_level ls))
          (sym (top_of_step fuel x y r 0) ∙ e))
        refl

  -- Root is the RFC 6962 hash of the leaves: what New builds from any leaves has at its top the hash
  -- that the recursive definition gives.
  pub root-Mth :
      (leaves : List Bytes) (t : Tree) (top : Digest)
      → new leaves ≡ ok t
      → root t ≡ ok top
      → Mth (map leaf_hash leaves) top
  unfolding root
  root-Mth leaves t top built e =
      top_of-Mth (length leaves) (map leaf_hash leaves) top
        (omega (arith, length-map leaf_hash leaves))
        (subst (λ u. top_of u.levels ≡ ok top) (new-eq-ok leaves t built) e)

  Mth-pos : {ls : List Digest} {d : Digest} → Mth ls d → 0 < length ls
  Mth-pos (leaf e) = omega (arith, ap length e)
  Mth-pos (node a b e h s ma mb) = omega (arith, s.below)

  pub Mth-IsDigest : {ls : List Digest} {d : Digest} → All IsDigest ls → Mth ls d → IsDigest d
  Mth-IsDigest h (leaf e) = (subst (All IsDigest) e h).0
  Mth-IsDigest h (node {left = l} {right = r} a b e p s ma mb) =
      subst IsDigest (sym p) (node_hash-IsDigest l r)

  All-front :
      {ls : List Digest} (a b : List Digest) → ls ≡ a ++ b → All IsDigest ls → All IsDigest a
  All-front a b e h =
      subst (All IsDigest) (rw e (take-append_length a b)) (All-take IsDigest (length a) _ h)

  All-back : {ls : List Digest} (a b : List Digest) → ls ≡ a ++ b → All IsDigest ls → All IsDigest b
  All-back a b e h =
      subst (All IsDigest) (rw e (drop-append_length a b)) (All-drop IsDigest (length a) _ h)

  -- The hash commits to the leaves: equally many leaves with one hash are the same.
  pub Mth-binds :
      {ls ks : List Digest} {d d' : Digest}
      → Mth ls d
      → Mth ks d'
      → d ≡ d'
      → length ls ≡ length ks
      → All IsDigest ls
      → All IsDigest ks
      → (ls ≡ ks) ⊎ Collision
  Mth-binds (leaf e) (leaf e') p n hl hk = inl (cc)
  Mth-binds (leaf e) (node a b e' q s ma mb) p n hl hk =
      absurd (omega (arith, ap length e, IsSplit-pos s, s.below))
  Mth-binds (node a b e q s ma mb) (leaf e') p n hl hk =
      absurd (omega (arith, ap length e', IsSplit-pos s, s.below))
  Mth-binds {ls} {ks} (node {left = l} {right = r} a b e q s ma mb)
        (node {left = l'} {right = r'} a' b' e' q' s' ma' mb') p n hl hk =
      let same : length a ≡ length a' = IsSplit-unique s (subst (IsSplit (length a')) (sym n) s') in
      let da = All-front a b e hl in
      let da' = All-front a' b' e' hk in
      let rest : length b ≡ length b' =
        omega (arith, ap length e, ap length e', same, n, length-append a b, length-append a' b') in
      elim (node_hash-binds l r l' r' (Mth-IsDigest da ma) (Mth-IsDigest da' ma')
        (sym q ∙ p ∙ q')) [
          | inl (pl, pr) ↦ elim (Mth-binds ma ma' pl same da da') [
            | inl pa ↦ elim (Mth-binds mb mb' pr rest (All-back a b e hl) (All-back a' b' e' hk)) [
              | inl pb ↦ inl (e ∙ cc (pa, pb) ∙ sym e')
              | inr c ↦ inr c
            ]
            | inr c ↦ inr c
          ]
          | inr c ↦ inr c
        ]
