-- ===== src/Merkle/Climb.antt =====
-- merkle/tree.go: the path of Proof leads from a leaf to the root, one level at a time.
use trust.Prelude.{
  ℕ, zero, suc, ◌+◌, ◌-◌, ◌/◌, ◌%◌, ◌^◌, ◌≤◌, ◌<◌, ◌≡◌, refl, ap, ◌∙◌, List, [], ◌∷◌, true, false,
  ◌||◌, ◌⊎◌, inl, inr, some, length, get_elem?, ltb, ◌==◌, if◌then◌else◌, Bool, Outcome, ok, ◌>>=◌,
  at, arith, lt_of_get_elem?,
}
use trust.Merkle.Hash.{Hasher, Digest, Error}
use trust.Merkle.Tree.{ProofStep, flip_low_bit, next_level, build_levels, proof_loop}
use trust.Merkle.Verify.{apply_step, apply_path, side_loop, sides_match}

-- The test by which Proof emits a step.
abbrev pub has_sibling : ℕ → ℕ → Bool
has_sibling idx count = (idx % 2 == 1) || ltb (idx + 1) count

has_sibling_shift : (i n : ℕ) → has_sibling (suc (suc i)) (suc (suc n)) ≡ has_sibling i n
has_sibling_shift i n = ground arith

even_shift : (i : ℕ) → (suc (suc i) % 2 == 0) ≡ (i % 2 == 0)
even_shift i = ground arith

half_shift : (i : ℕ) → suc (suc i) / 2 ≡ suc (i / 2)
half_shift i = omega arith

flip_shift : (i : ℕ) → flip_low_bit (suc (suc i)) ≡ suc (suc (flip_low_bit i))
flip_shift i = ground arith

-- The root, as `t.levels[len-1][0]` reads it.
abbrev pub top_of : List (List Digest) → Outcome Error Digest
top_of levels = at (get_elem? levels (length levels - 1)) >>= λ top. at (get_elem? top 0)

top_of-cons : (l m : List Digest) (ls : List (List Digest)) → top_of (l ∷ m ∷ ls) ≡ top_of (m ∷ ls)
top_of-cons l m ls =
    ap (λ (i : ℕ). at (get_elem? (l ∷ m ∷ ls) i) >>= λ top. at (get_elem? top 0)) shorter
    ∙ ap (λ (i : ℕ). at (get_elem? (m ∷ ls) i) >>= λ top. at (get_elem? top 0)) same
  where
    shorter : length (l ∷ m ∷ ls) - 1 ≡ suc (length ls)
    shorter = omega arith

    same : length ls ≡ length (m ∷ ls) - 1
    same = omega arith

module _ ⦃hasher : Hasher⦄ where
  -- What one level does to the node at `idx`: it is promoted, or hashed with its sibling.
  abbrev Promoted : List Digest → ℕ → Digest → Type 0
  Promoted level idx x =
      (has_sibling idx (length level) ≡ false) × (get_elem? (next_level level) (idx / 2) ≡ some x)

  abbrev Paired : List Digest → ℕ → Digest → Type 0
  Paired level idx x =
      (has_sibling idx (length level) ≡ true)
      × (s : Digest) × (get_elem? level (flip_low_bit idx) ≡ some s)
      × (get_elem? (next_level level) (idx / 2)
          ≡ some (apply_step x (record { hash = s; is_right = idx % 2 == 0 })))

  level_climb :
      (level : List Digest) (idx : ℕ) (x : Digest)
      → get_elem? level idx ≡ some x
      → Promoted level idx x ⊎ Paired level idx x
  unfolding next_level apply_step
  level_climb [] idx x h = absurd (cc)
  level_climb (a ∷ []) zero x h = inl (refl, h)
  level_climb (a ∷ []) (suc i) x h = absurd (cc)
  level_climb (a ∷ b ∷ r) zero x h = inr (ground arith, b, refl, ground arith)
  level_climb (a ∷ b ∷ r) (suc zero) x h = inr (refl, a, refl, ground arith)
  level_climb (a ∷ b ∷ r) (suc (suc i)) x h = elim (level_climb r i x h) [
    | inl (p, q) ↦ inl (rw (has_sibling_shift i (length r)) p, rw (half_shift i) q)
    | inr (p, s, q, e) ↦ inr (
      rw (has_sibling_shift i (length r)) p,
      s,
      rw (flip_shift i) q,
      rw (half_shift i, even_shift i) e,
    )
  ]

  pub length-next_level : (level : List Digest) → length (next_level level) ≡ (length level + 1) / 2
  unfolding next_level
  length-next_level [] = refl
  length-next_level (a ∷ []) = refl
  length-next_level (a ∷ b ∷ r) = omega (arith, length-next_level r)

  build_levels-cons :
      (fuel : ℕ) (level : List Digest)
      → (above : List (List Digest)) × (build_levels fuel level ≡ level ∷ above)
  unfolding build_levels
  build_levels-cons zero level = ([], refl)
  build_levels-cons (suc fuel) [] = ([], refl)
  build_levels-cons (suc fuel) (a ∷ []) = ([], refl)
  build_levels-cons (suc fuel) (a ∷ b ∷ r) = (build_levels fuel (next_level (a ∷ b ∷ r)), refl)

  -- The path from `idx` exists, folds to the root, and has the sides that the verifier computes.
  pub record Climbs (fuel : ℕ) (level : List Digest) (idx : ℕ) (x : Digest) : Type 0 where
    pub path : List ProofStep
    pub top : Digest
    pub found : proof_loop (build_levels fuel level) idx ≡ ok path
    pub reaches : top_of (build_levels fuel level) ≡ ok top
    pub folds : apply_path x path ≡ top
    pub sides : sides_match path (side_loop fuel idx (length level)) ≡ true

  -- The levels above `level` start with `next_level level`.
  module _ (fuel : ℕ) (a b : Digest) (r : List Digest) (idx : ℕ) where
    abbrev pub level : List Digest
    level = a ∷ b ∷ r

    proof_loop_step : proof_loop (build_levels (suc fuel) level) idx ≡ (
        let rest = proof_loop (build_levels fuel (next_level level)) (idx / 2) in
        if has_sibling idx (length level)
        then (at (get_elem? level (flip_low_bit idx)) >>= λ sibling.
            rest >>= λ steps. ok (record { hash = sibling; is_right = idx % 2 == 0 } ∷ steps))
        else rest)
    unfolding proof_loop build_levels
    proof_loop_step = let (above, e) = build_levels-cons fuel (next_level level) in rw e

    pub top_of_step :
        top_of (build_levels (suc fuel) level) ≡ top_of (build_levels fuel (next_level level))
    unfolding build_levels
    top_of_step =
        let (above, e) = build_levels-cons fuel (next_level level) in
        rw e (top_of-cons level (next_level level) above)

    side_loop_step :
        idx < length level
        → length level < 2 ^ 63
        → side_loop (suc fuel) idx (length level) ≡ (
            let rest = side_loop fuel (idx / 2) (length (next_level level)) in
            if has_sibling idx (length level) then (idx % 2 == 0) ∷ rest else rest)
    unfolding side_loop
    side_loop_step below small =
        let no_wrap : (length level + 1) % 2 ^ 64 ≡ length level + 1 = omega arith in
        let no_wrap' : (idx + 1) % 2 ^ 64 ≡ idx + 1 = omega arith in
        rw (length-next_level level, no_wrap, no_wrap') (ground arith)

  climb_promoted :
      (fuel : ℕ) (a b : Digest) (r : List Digest) (idx : ℕ) (x : Digest)
      → idx < length (a ∷ b ∷ r)
      → length (a ∷ b ∷ r) < 2 ^ 63
      → has_sibling idx (length (a ∷ b ∷ r)) ≡ false
      → Climbs fuel (next_level (a ∷ b ∷ r)) (idx / 2) x
      → Climbs (suc fuel) (a ∷ b ∷ r) idx x
  climb_promoted fuel a b r idx x below small alone c = record {
    path = c.path;
    top = c.top;
    found = proof_loop_step fuel a b r idx ∙ rw alone c.found;
    reaches = top_of_step fuel a b r idx ∙ c.reaches;
    folds = c.folds;
    sides = rw (side_loop_step fuel a b r idx below small) (rw alone c.sides);
  }

  climb_paired :
      (fuel : ℕ) (a b : Digest) (r : List Digest) (idx : ℕ) (x s : Digest)
      → idx < length (a ∷ b ∷ r)
      → length (a ∷ b ∷ r) < 2 ^ 63
      → has_sibling idx (length (a ∷ b ∷ r)) ≡ true
      → get_elem? (a ∷ b ∷ r) (flip_low_bit idx) ≡ some s
      → Climbs fuel
          (next_level (a ∷ b ∷ r))
          (idx / 2)
          (apply_step x (record { hash = s; is_right = idx % 2 == 0 }))
      → Climbs (suc fuel) (a ∷ b ∷ r) idx x
  unfolding sides_match apply_path
  climb_paired fuel a b r idx x s below small paired at_s c = record {
    path = record { hash = s; is_right = idx % 2 == 0 } ∷ c.path;
    top = c.top;
    found = proof_loop_step fuel a b r idx ∙ rw paired (rw at_s (rw (c.found)));
    reaches = top_of_step fuel a b r idx ∙ c.reaches;
    folds = c.folds;
    sides = rw (side_loop_step fuel a b r idx below small) (rw paired (ground (arith, c.sides)));
  }

  pub climb :
      (fuel : ℕ) (level : List Digest) (idx : ℕ) (x : Digest)
      → length level ≤ suc fuel
      → length level < 2 ^ 63
      → get_elem? level idx ≡ some x
      → Climbs fuel level idx x
  climb fuel [] idx x h small e = absurd (cc)
  climb zero (a ∷ []) zero x h small e =
      unfold build_levels proof_loop side_loop sides_match apply_path in
      record {
        path = [];
        top = x;
        found = refl;
        reaches = ground arith;
        folds = refl;
        sides = refl;
      }
  climb (suc fuel) (a ∷ []) zero x h small e =
      unfold build_levels proof_loop side_loop sides_match apply_path in
      record {
        path = [];
        top = x;
        found = refl;
        reaches = ground arith;
        folds = refl;
        sides = refl;
      }
  climb fuel (a ∷ []) (suc i) x h small e = absurd (cc)
  climb zero (a ∷ b ∷ r) idx x h small e = absurd (omega arith)
  climb (suc fuel) (a ∷ b ∷ r) idx x h small e = elim (level_climb (a ∷ b ∷ r) idx x e) [
    | inl (alone, up) ↦
        climb_promoted fuel a b r idx x (lt_of_get_elem? (a ∷ b ∷ r) idx e) small alone (
          climb fuel (next_level (a ∷ b ∷ r)) (idx / 2) x
            (omega (arith, length-next_level (a ∷ b ∷ r)))
            (omega (arith, length-next_level (a ∷ b ∷ r))) up)
    | inr (paired, s, at_s, up) ↦
        climb_paired fuel a b r idx x s (lt_of_get_elem? (a ∷ b ∷ r) idx e) small paired at_s (
          climb fuel (next_level (a ∷ b ∷ r)) (idx / 2)
            (apply_step x (record { hash = s; is_right = idx % 2 == 0 }))
            (omega (arith, length-next_level (a ∷ b ∷ r)))
            (omega (arith, length-next_level (a ∷ b ∷ r))) up)
  ]
