-- ===== src/Merkle/Returns.antt =====
-- merkle/tree.go: VerifyConsistency ends.
use trust.Prelude.{
  ℕ, zero, suc, ◌-◌, ◌^◌, ◌≤◌, ◌<◌, ◌≡◌, refl, List, [], ◌∷◌, Bool, true, false, not, ◌||◌, inl,
  inr, Option, none, some, arith, length, leb, ltb, ◌==◌, if◌then◌else◌, Outcome, ok, err, panic,
  ◌>>=◌, at, Bool-cases, Bytes, pos,
}
use trust.Merkle.Hash.{Hasher, Digest, Error}
use trust.Merkle.Tree.{ProofStep}
use trust.Merkle.Split.{IsSplit-pos, largest_pow2_less_than-IsSplit}
use trust.Merkle.Consistency.{
  take_node, verify_subproof, verify_naturals, check_roots, verify_consistency,
}

-- A value or an error, and no panic.
abbrev Returns : {E A : Type 0} → Outcome E A → Type 0
Returns (ok a) = Unit {0}
Returns (err e) = Unit {0}
Returns panic = ⊥

>>=-Returns :
    {E A B : Type 0} (m : Outcome E A) (next : A → Outcome E B)
    → Returns m
    → ((a : A) → Returns (next a))
    → Returns (m >>= next)
>>=-Returns (ok a) next h k = k a
>>=-Returns (err e) next h k = tt
>>=-Returns panic next h k = absurd h

take_node-Returns : (cur : List ProofStep) → Returns (take_node cur)
unfolding take_node
take_node-Returns [] = tt
take_node-Returns (step ∷ cur) = tt

-- Where `b` holds, the old root is at hand.
abbrev Guarded : Bool → Option Digest → Type 0
Guarded false old = Unit {0}
Guarded true (some d) = Unit {0}
Guarded true none = ⊥

whole-Returns :
    (b : Bool) (old : Option Digest) (cur : List ProofStep)
    → Guarded b old
    → Returns {E = Unit {0}} {A = Digest × Digest × List ProofStep} (
        if b
        then (at old >>= λ h. ok (h, h, cur))
        else (take_node cur >>= λ (h, cur'). ok (h, h, cur')))
whole-Returns true (some d) cur g = tt
whole-Returns true none cur g = absurd g
whole-Returns false old cur g = >>=-Returns (take_node cur) _ (take_node-Returns cur) (λ _. tt)

module _ ⦃hasher : Hasher⦄ where
  verify_subproof-Returns :
      (fuel m n : ℕ) (b : Bool) (old : Option Digest) (cur : List ProofStep)
      → n ≤ fuel
      → 0 < m
      → m ≤ n
      → n ≤ 2 ^ 62
      → Guarded b old
      → Returns (verify_subproof fuel m n b old cur)
  unfolding verify_subproof
  verify_subproof-Returns zero m n b old cur room above le small g = absurd (omega arith)
  verify_subproof-Returns (suc fuel) m n b old cur room above le small g =
      elim (Bool-cases (m == n)) [
        | inl t ↦ rw t (whole-Returns b old cur g)
        | inr t ↦
            let (k, e, s) = largest_pow2_less_than-IsSplit n (ground arith) small in
            let positive = IsSplit-pos s in
            let below = s.below in
            rw (t, e)
              (elim (Bool-cases (leb m k)) [
                | inl u ↦ rw u (
                    >>=-Returns (verify_subproof fuel m k b old cur) _
                      (verify_subproof-Returns fuel m k b old cur (omega arith) above (ground arith)
                        (omega arith) g)
                      (λ (x, y, cur').
                        >>=-Returns (take_node cur') _ (take_node-Returns cur') (λ _. tt)))
                | inr u ↦ rw u (
                    >>=-Returns (verify_subproof fuel (m - k) (n - k) false none cur) _
                      (verify_subproof-Returns fuel (m - k) (n - k) false none cur (omega arith)
                        (ground arith) (omega arith) (omega arith) tt)
                      (λ (x, y, cur').
                        >>=-Returns (take_node cur') _ (take_node-Returns cur') (λ _. tt)))
              ])
      ]

  -- The results of VerifyConsistency, from those of verifySubproof.
  verify_naturals-total :
      (old_root new_root : Bytes) (m n : ℕ) (steps : List ProofStep)
      → n ≤ 2 ^ 62
      → (accepted : Bool) × (verify_naturals old_root new_root m n steps ≡ ok accepted)
  unfolding verify_naturals
  verify_naturals-total old_root new_root m n steps small = elim (Bool-cases (m == n)) [
    | inl t ↦ rw t (_, refl)
    | inr t ↦ rw t (elim (Bool-cases ((m == 0) || ltb n m)) [
      | inl u ↦ rw u (_, refl)
      | inr u ↦ rw u (
          read_result (verify_subproof n m n true (some old_root) steps) (
            verify_subproof-Returns n m n true (some old_root) steps (omega arith) (ground arith)
              (ground arith) small tt))
    ])
  ]
    where
      read_result :
          (r : Outcome (Unit {0}) (Digest × Digest × List ProofStep))
          → Returns r
          → (accepted : Bool) × (elim r as (λ _. Outcome Error Bool) [
            | ok hashes ↦ ok (check_roots old_root new_root hashes)
            | err _ ↦ ok false
            | panic ↦ panic
          ]
              ≡ ok accepted)
      read_result (ok hashes) h = (_, refl)
      read_result (err e) h = (_, refl)
      read_result panic h = absurd h

  -- VerifyConsistency ends and panics nowhere: for every two roots, every two sizes of which the new
  -- one is at most 2^62, and any steps, it returns true or false.
  pub verify_consistency_returns :
      (old_root new_root : Bytes) (m n : ℕ) (steps : List ProofStep)
      → n ≤ 2 ^ 62
      → (accepted : Bool) × (verify_consistency old_root new_root (pos m) (pos n) steps
          ≡ ok accepted)
  unfolding verify_consistency
  verify_consistency_returns old_root new_root m n steps small =
      elim (Bool-cases (not (length old_root == 32) || not (length new_root == 32))) [
        | inl t ↦ rw t (false, refl)
        | inr t ↦ rw t (verify_naturals-total old_root new_root m n steps small)
      ]
