-- ===== src/Merkle/Halves.antt =====
-- merkle/tree.go: what verifySubproof recomputes, against the RFC 6962 hash.
use trust.Prelude.{
  ℕ, zero, suc, ◌+◌, ◌-◌, ◌^◌, ◌≤◌, ◌<◌, ◌≡◌, refl, sym, ap, ◌∙◌, subst, List, Bool, false, ◌⊎◌,
  inl, inr, Option, none, arith, length, take, drop, All, take-append_length, drop-append_length,
  length-take, length-drop, take-take, take-split, take-length, All-take, All-drop, ok,
}
use trust.Merkle.Hash.{Hasher, Digest, IsDigest, Collision, node_hash}
use trust.Merkle.Tree.{ProofStep}
use trust.Merkle.Split.{IsSplit, IsSplit-unique, IsSplit-pos, pow2-IsSplit}
use trust.Merkle.Binding.{HasDigest, node_hash-binds}
use trust.Merkle.Consistency.{verify_subproof}
use trust.Merkle.Reference.{Mth, leaf, node, Mth-IsDigest}
use trust.Merkle.Trace.{
  Result, OldIsDigest, Ran, trusted, taken, in_left, in_right, take_node-HasDigest,
  verify_subproof-Ran, verify_subproof-AllDigests,
}

module _ ⦃hasher : Hasher⦄ where
  -- The halves of the tree hash of more than one leaf, at the split that the code computes.
  Mth-halves :
      {ls : List Digest} {d : Digest} (k : ℕ)
      → Mth ls d
      → IsSplit k (length ls)
      → (l r : Digest) × (d ≡ node_hash l r) × Mth (take k ls) l × Mth (drop k ls) r
  Mth-halves {ls} {d} k (leaf e) s = absurd (omega (arith, ap length e, IsSplit-pos s, s.below))
  Mth-halves {ls} {d} k (node {left = l} {right = r} a b e p s' ta tb) s =
      let same : length a ≡ k = IsSplit-unique s' s in
      let front : a ≡ take k ls = rw (← same, e) (sym (take-append_length a b)) in
      let back : b ≡ drop k ls = rw (← same, e) (sym (drop-append_length a b)) in
      (l, r, p, subst (λ u. Mth u l) front ta, subst (λ u. Mth u r) back tb)

  -- What the induction shows of a call over `ls` with the outcome `res`.
  abbrev pub Extends : List Digest → ℕ → Result → Type 0
  Extends ls m res = Mth (take m ls) res.1 ⊎ Collision

  abbrev pub SoundBelow : ℕ → List ProofStep → Type 0
  SoundBelow fuel cur =
      (m : ℕ) (b : Bool) (old : Option Digest) (res : Result) (ls : List Digest)
      → verify_subproof fuel m (length ls) b old cur ≡ ok res
      → 0 < m
      → m ≤ length ls
      → length ls ≤ 2 ^ 62
      → OldIsDigest old
      → All IsDigest ls
      → Mth ls res.0
      → Extends ls m res

  in_left-sound :
      (fuel m k : ℕ) (ls : List Digest) (b : Bool) (old : Option Digest) (cur : List ProofStep)
      (x y right : Digest) (cur' : List ProofStep)
      → SoundBelow fuel cur
      → IsSplit k (length ls)
      → verify_subproof fuel m k b old cur ≡ ok (x, y, cur')
      → 0 < m
      → m ≤ k
      → length ls ≤ 2 ^ 62
      → OldIsDigest old
      → IsDigest x
      → All IsDigest ls
      → Mth ls (node_hash x right)
      → Mth (take m ls) y ⊎ Collision
  in_left-sound fuel m k ls b old cur x y right cur' ih s ran positive le small d dx dl t =
      let (l, r, p, tl, tr) = Mth-halves k t s in
      let width : length (take k ls) ≡ k = omega (arith, length-take k ls, s.below) in
      let dl' = All-take IsDigest k ls dl in
      elim (node_hash-binds x right l r dx (Mth-IsDigest dl' tl) p) [
        | inl (px, pr) ↦
            elim (ih m b old (x, y, cur') (take k ls) (rw width ran) positive (omega arith)
              (omega (arith, s.below)) d dl' (subst (Mth (take k ls)) (sym px) tl)) [
                | inl q ↦ inl (subst (λ u. Mth u y) (take-take m k ls le) q)
                | inr c ↦ inr c
              ]
        | inr c ↦ inr c
      ]

  in_right-sound :
      (fuel m k : ℕ) (ls : List Digest) (cur : List ProofStep) (x y left : Digest)
      (cur' : List ProofStep)
      → SoundBelow fuel cur
      → IsSplit k (length ls)
      → verify_subproof fuel (m - k) (length ls - k) false none cur ≡ ok (x, y, cur')
      → k < m
      → m ≤ length ls
      → length ls ≤ 2 ^ 62
      → IsDigest left
      → All IsDigest ls
      → Mth ls (node_hash left x)
      → Mth (take m ls) (node_hash left y) ⊎ Collision
  in_right-sound fuel m k ls cur x y left cur' ih s ran lt le small dleft dl t =
      let (l, r, p, tl, tr) = Mth-halves k t s in
      let width = length-drop k ls in
      let front : length (take k ls) ≡ k = omega (arith, length-take k ls, s.below) in
      let whole : k + (m - k) ≡ m = omega arith in
      elim (node_hash-binds left x l r dleft (Mth-IsDigest (All-take IsDigest k ls dl) tl) p) [
        | inl (pl, pr) ↦
            elim (ih (m - k) false none (x, y, cur') (drop k ls) (rw width ran) (omega arith)
              (omega arith) (omega arith) tt (All-drop IsDigest k ls dl)
              (subst (Mth (drop k ls)) (sym pr) tr)) [
                | inl q ↦ inl (
                    node (take k ls) (take (m - k) (drop k ls))
                      (rw whole at (take-split k (m - k) ls)) refl
                      (record {
                        power = (s.power.0, front ∙ s.power.1);
                        below = omega (arith, front, length-take m ls);
                        above = omega (arith, front, length-take m ls, s.above);
                      })
                      (subst (Mth (take k ls)) (sym pl) tl) q)
                | inr c ↦ inr c
              ]
        | inr c ↦ inr c
      ]

  -- If the recomputed hash of the larger tree is that of `ls`, then the recomputed hash of the
  -- smaller one is that of its first `m` leaves.
  Ran-sound :
      {fuel m n : ℕ} {b : Bool} {old : Option Digest} {cur : List ProofStep} {res : Result}
      (ls : List Digest)
      → SoundBelow fuel cur
      → All HasDigest cur
      → Ran fuel m n b old cur res
      → n ≡ length ls
      → 0 < m
      → m ≤ n
      → n ≤ 2 ^ 62
      → OldIsDigest old
      → All IsDigest ls
      → Mth ls res.0
      → Extends ls m res
  Ran-sound {m = m} ls ih ds (trusted {h = h} e p) w positive le small d dl t =
      inl (subst (λ u. Mth u h) (rw (e, w) (sym (take-length ls))) t)
  Ran-sound {m = m} ls ih ds (taken {h = h} e p) w positive le small d dl t =
      inl (subst (λ u. Mth u h) (rw (e, w) (sym (take-length ls))) t)
  Ran-sound {fuel} {m} {n} {b} {old} {cur} ls ih ds
        (in_left {x = x} {y = y} {right = r} {cur' = c} k differ split lo ran took) w positive le
        small d dl t =
      let s = pow2-IsSplit n k (omega arith) small split in
      in_left-sound fuel m k ls b old cur x y r c ih (subst (IsSplit k) w s) ran positive lo
        (omega arith) d (verify_subproof-AllDigests fuel m k b old cur (x, y, c) ran d ds).0 dl t
  Ran-sound {fuel} {m} {n} {b} {old} {cur} ls ih ds
        (in_right {x = x} {y = y} {left = l} {cur' = c} {cur'' = c'} k differ split lo ran took) w
        positive le small d dl t =
      let s = pow2-IsSplit n k (omega arith) small split in
      let (dx, dy, dc) =
        verify_subproof-AllDigests fuel (m - k) (n - k) false none cur (x, y, c) ran tt ds in
      in_right-sound fuel m k ls cur x y l c ih (subst (IsSplit k) w s) (rw w at ran) lo
        (omega arith) (omega arith) (take_node-HasDigest c l c' dc took).0 dl t

  pub verify_subproof_sound :
      (fuel : ℕ) (cur : List ProofStep) → All HasDigest cur → SoundBelow fuel cur
  verify_subproof_sound zero cur ds m b old res ls e positive le small d dl t =
      unfold verify_subproof in absurd (cc)
  verify_subproof_sound (suc fuel) cur ds m b old res ls e positive le small d dl t =
      Ran-sound ls (verify_subproof_sound fuel cur ds) ds
        (verify_subproof-Ran fuel m (length ls) b old cur res e) refl positive le small d dl t
