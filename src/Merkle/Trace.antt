-- ===== src/Merkle/Trace.antt =====
-- merkle/tree.go: the calls of verifySubproof that succeed.
use trust.Prelude.{
  ℕ, zero, suc, ◌-◌, ◌≤◌, ◌<◌, ◌≡◌, subst, List, [], ◌∷◌, Bool, false, ◌≢◌, inl, inr, Option, none,
  some, arith, All, leb, leb→le, ◌==◌, ==_iff, ok, at, at-eq-ok, ok-injective, >>=-eq-ok,
  Bool-cases,
}
use trust.Merkle.Hash.{Hasher, Digest, IsDigest, node_hash, node_hash-IsDigest}
use trust.Merkle.Tree.{ProofStep}
use trust.Merkle.Split.{largest_pow2_less_than}
use trust.Merkle.Binding.{HasDigest}
use trust.Merkle.Consistency.{take_node, verify_subproof}

abbrev pub Result : Type 0
Result = Digest × Digest × List ProofStep

abbrev pub AllDigests : Result → Type 0
AllDigests (new_hash, old_hash, cur) = IsDigest new_hash × IsDigest old_hash × All HasDigest cur

abbrev pub OldIsDigest : Option Digest → Type 0
OldIsDigest none = Unit
OldIsDigest (some d) = IsDigest d

pub take_node-HasDigest :
    (cur : List ProofStep) (h : Digest) (cur' : List ProofStep)
    → All HasDigest cur
    → take_node cur ≡ ok (h, cur')
    → IsDigest h × All HasDigest cur'
unfolding take_node
take_node-HasDigest [] h cur' d e = absurd (cc)
take_node-HasDigest (s ∷ cur) h cur' (d, ds) e =
    subst (λ p. IsDigest p.0 × All HasDigest p.1) (ok-injective e) (d, ds)

module _ ⦃hasher : Hasher⦄ where
  -- What a successful call did: it closed a range, or recomputed two halves.
  pub data Ran (fuel m n : ℕ) (b : Bool) (old : Option Digest) (cur : List ProofStep)
      : Result → Type 0 where
    trusted : {h : Digest} → m ≡ n → old ≡ some h → Ran fuel m n b old cur (h, h, cur)
    taken :
        {h : Digest} {cur' : List ProofStep}
        → m ≡ n
        → take_node cur ≡ ok (h, cur')
        → Ran fuel m n b old cur (h, h, cur')
    in_left :
        {x y right : Digest} {cur' cur'' : List ProofStep} (k : ℕ)
        → m ≢ n
        → largest_pow2_less_than n ≡ some k
        → m ≤ k
        → verify_subproof fuel m k b old cur ≡ ok (x, y, cur')
        → take_node cur' ≡ ok (right, cur'')
        → Ran fuel m n b old cur (node_hash x right, y, cur'')
    in_right :
        {x y left : Digest} {cur' cur'' : List ProofStep} (k : ℕ)
        → m ≢ n
        → largest_pow2_less_than n ≡ some k
        → k < m
        → verify_subproof fuel (m - k) (n - k) false none cur ≡ ok (x, y, cur')
        → take_node cur' ≡ ok (left, cur'')
        → Ran fuel m n b old cur (node_hash left x, node_hash left y, cur'')

  pub verify_subproof-Ran :
      (fuel m n : ℕ) (b : Bool) (old : Option Digest) (cur : List ProofStep) (res : Result)
      → verify_subproof (suc fuel) m n b old cur ≡ ok res
      → Ran fuel m n b old cur res
  unfolding verify_subproof
  verify_subproof-Ran fuel m n b old cur res e = elim (Bool-cases (m == n)) [
    | inl same ↦ elim (Bool-cases b) [
      | inl b_true ↦
          let (h, eh, e') = >>=-eq-ok (at old) _ (rw (same, b_true) at e) in
          subst (Ran fuel m n b old cur) (ok-injective e')
            (trusted ((==_iff m n).0 same) (at-eq-ok old eh))
      | inr b_false ↦
          let ((h, cur'), eh, e') = >>=-eq-ok (take_node cur) _ (rw (same, b_false) at e) in
          subst (Ran fuel m n b old cur) (ok-injective e') (taken ((==_iff m n).0 same) eh)
    ]
    | inr differ ↦
        let (k, ek, e') = >>=-eq-ok (at (largest_pow2_less_than n)) _ (rw differ at e) in
        elim (Bool-cases (leb m k)) [
          | inl small ↦
              let ((x, y, cur'), ex, e'') =
                >>=-eq-ok (verify_subproof fuel m k b old cur) _ (rw small at e') in
              let ((r, cur''), er, e''') = >>=-eq-ok (take_node cur') _ e'' in
              subst (Ran fuel m n b old cur) (ok-injective e''')
                (in_left k (ground arith) (at-eq-ok _ ek) (leb→le m k small) ex er)
          | inr large ↦
              let ((x, y, cur'), ex, e'') =
                >>=-eq-ok (verify_subproof fuel (m - k) (n - k) false none cur) _
                  (rw large at e') in
              let ((r, cur''), er, e''') = >>=-eq-ok (take_node cur') _ e'' in
              subst (Ran fuel m n b old cur) (ok-injective e''')
                (in_right k (ground arith) (at-eq-ok _ ek) (ground arith) ex er)
        ]
  ]

  Ran-AllDigests :
      {fuel m n : ℕ} {b : Bool} {old : Option Digest} {cur : List ProofStep} {res : Result}
      → ((m' n' : ℕ) (b' : Bool) (old' : Option Digest) (res' : Result)
          → verify_subproof fuel m' n' b' old' cur ≡ ok res'
          → OldIsDigest old'
          → AllDigests res')
      → Ran fuel m n b old cur res
      → OldIsDigest old
      → All HasDigest cur
      → AllDigests res
  Ran-AllDigests ih (trusted {h = h} e p) d ds =
      let dh : IsDigest h = subst OldIsDigest p d in (dh, dh, ds)
  Ran-AllDigests ih (taken {h = h} {cur' = c} e p) d ds =
      let (dh, dc) = take_node-HasDigest _ h c ds p in (dh, dh, dc)
  Ran-AllDigests ih
        (in_left {x = x} {y = y} {right = r} {cur' = c} {cur'' = c'} k differ split small ran took)
        d ds =
      let (dx, dy, dc) = ih _ k _ _ (x, y, c) ran d in
      let (dr, dc') = take_node-HasDigest c r c' dc took in (node_hash-IsDigest x r, dy, dc')
  Ran-AllDigests ih
        (in_right {x = x} {y = y} {left = l} {cur' = c} {cur'' = c'} k differ split large ran took)
        d ds =
      let (dx, dy, dc) = ih _ _ false none (x, y, c) ran tt in
      let (dl, dc') = take_node-HasDigest c l c' dc took in
      (node_hash-IsDigest l x, node_hash-IsDigest l y, dc')

  pub verify_subproof-AllDigests :
      (fuel m n : ℕ) (b : Bool) (old : Option Digest) (cur : List ProofStep) (res : Result)
      → verify_subproof fuel m n b old cur ≡ ok res
      → OldIsDigest old
      → All HasDigest cur
      → AllDigests res
  verify_subproof-AllDigests zero m n b old cur res e d ds = unfold verify_subproof in absurd (cc)
  verify_subproof-AllDigests (suc fuel) m n b old cur res e d ds =
      Ran-AllDigests
        (λ m' n' b' old' res' e' d'.
          verify_subproof-AllDigests fuel m' n' b' old' cur res' e' d' ds)
        (verify_subproof-Ran fuel m n b old cur res e) d ds
