-- ===== src/Commitment/Search.antt =====
-- commitment/proof.go: the binary search of InclusionProof.
use trust.Prelude.{
  ℕ, zero, suc, ◌+◌, ◌/◌, ◌≤◌, ◌<◌, ◌≡◌, refl, List, [], ◌∷◌, Bool, true, false, some,
  All-get_elem?, length, get_elem?, get_elem?-lt, lt_of_get_elem?, ltb, if◌then◌else◌, arith, ok,
  bytes_lt, bytes_lt-asymm, bytes_lt_irrefl, Bool-cases, Nat-cases, inl, inr, subst, sym, ap, ◌∙◌,
}
use trust.Authority.Canonical.{Ascending}
use trust.Merkle.Hash.{Digest}
use trust.Commitment.Build.{search_loop, search}

Ascending-lt :
    (xs : List Digest) (i j : ℕ) {a b : Digest}
    → Ascending bytes_lt xs
    → i < j
    → get_elem? xs i ≡ some a
    → get_elem? xs j ≡ some b
    → bytes_lt a b ≡ true
Ascending-lt [] i j s lt e f = absurd (cc)
Ascending-lt (x ∷ xs) i zero s lt e f = absurd (omega arith)
Ascending-lt (x ∷ xs) zero (suc j) (below, s) lt e f =
    let h = All-get_elem? (λ y. bytes_lt x y ≡ true) xs j below f in ground arith
Ascending-lt (x ∷ xs) (suc i) (suc j) (below, s) lt e f = Ascending-lt xs i j s (omega arith) e f

false_ne_true : ◌≡◌ {A = Bool} false true → ⊥
false_ne_true e = cc

some-injective {ℓ} : {A : Type ℓ} {a b : A} → some a ≡ some b → a ≡ b
some-injective e = cc

-- Of two places of a strictly ascending list, the one with the lower digest comes first.
place_of_lt :
    (xs : List Digest) (h k : ℕ) {x leaf : Digest}
    → Ascending bytes_lt xs
    → get_elem? xs h ≡ some x
    → get_elem? xs k ≡ some leaf
    → bytes_lt x leaf ≡ true
    → h < k
place_of_lt xs h k {x = x} {leaf = leaf} s e f lt = elim (Nat-cases h k) [
  | inl below ↦ below
  | inr above ↦ elim (Nat-cases k h) [
    | inl later ↦
        let back = Ascending-lt xs k h s later f e in
        let not_back = bytes_lt-asymm x leaf lt in absurd (false_ne_true (sym not_back ∙ back))
    | inr same ↦
        let same' : h ≡ k = omega arith in
        let one : x ≡ leaf = some-injective (sym e ∙ ap (get_elem? xs) same' ∙ f) in
        let not_lt = bytes_lt_irrefl leaf in
        absurd (false_ne_true (sym not_lt ∙ subst (λ y. bytes_lt y leaf ≡ true) one lt))
  ]
]

-- And a digest that is not below another does not come before it.
not_place_of_lt :
    (xs : List Digest) (h k : ℕ) {x leaf : Digest}
    → Ascending bytes_lt xs
    → get_elem? xs h ≡ some x
    → get_elem? xs k ≡ some leaf
    → bytes_lt x leaf ≡ false
    → k ≤ h
not_place_of_lt xs h k s e f not_lt = elim (Nat-cases h k) [
  | inl below ↦ let lt = Ascending-lt xs h k s below e f in absurd (false_ne_true (sym not_lt ∙ lt))
  | inr above ↦ above
]

search_loop-step :
    (fuel : ℕ) (xs : List Digest) (leaf : Digest) (i j : ℕ) (x : Digest)
    → i < j
    → get_elem? xs ((i + j) / 2) ≡ some x
    → search_loop (suc fuel) xs leaf i j ≡ (
        if bytes_lt x leaf
        then search_loop fuel xs leaf ((i + j) / 2 + 1) j
        else search_loop fuel xs leaf i ((i + j) / 2))
unfolding search_loop
search_loop-step fuel xs leaf i j x lt e =
    let more : ltb i j ≡ true = ground arith in rw (more, e) refl

search_loop-done :
    (fuel : ℕ) (xs : List Digest) (leaf : Digest) (i j : ℕ)
    → j ≤ i
    → search_loop (suc fuel) xs leaf i j ≡ ok i
unfolding search_loop
search_loop-done fuel xs leaf i j le = let done : ltb i j ≡ false = ground arith in rw done refl

search_loop-finds :
    (fuel : ℕ) (xs : List Digest) (leaf : Digest) (i j k : ℕ)
    → Ascending bytes_lt xs
    → get_elem? xs k ≡ some leaf
    → j < i + fuel
    → i ≤ k
    → k ≤ j
    → j ≤ length xs
    → search_loop fuel xs leaf i j ≡ ok k
search_loop-finds zero xs leaf i j k s f room lo hi within = absurd (omega arith)
search_loop-finds (suc fuel) xs leaf i j k s f room lo hi within = elim (Nat-cases i j) [
  | inr done ↦ let same : i ≡ k = omega arith in search_loop-done fuel xs leaf i j done ∙ ap ok same
  | inl lt ↦
      halve (get_elem?-lt xs ((i + j) / 2) (omega arith)) lt
        (λ before.
          search_loop-finds fuel xs leaf ((i + j) / 2 + 1) j k s f (omega arith)
            (omega (arith, before)) hi within)
        (λ after.
          search_loop-finds fuel xs leaf i ((i + j) / 2) k s f (omega arith) lo after (omega arith))
]
  where
    halve :
        (x : Digest) × (get_elem? xs ((i + j) / 2) ≡ some x)
        → i < j
        → ((i + j) / 2 < k → search_loop fuel xs leaf ((i + j) / 2 + 1) j ≡ ok k)
        → (k ≤ (i + j) / 2 → search_loop fuel xs leaf i ((i + j) / 2) ≡ ok k)
        → search_loop (suc fuel) xs leaf i j ≡ ok k
    halve (x, e) lt right left =
        search_loop-step fuel xs leaf i j x lt e ∙ elim (Bool-cases (bytes_lt x leaf)) [
          | inl t ↦ rw t (right (place_of_lt xs ((i + j) / 2) k s e f t))
          | inr t ↦ rw t (left (not_place_of_lt xs ((i + j) / 2) k s e f t))
        ]

-- On strictly ascending leaves the search finds each of them, at its index.
pub search-finds :
    (xs : List Digest) (leaf : Digest) (k : ℕ)
    → Ascending bytes_lt xs
    → get_elem? xs k ≡ some leaf
    → search xs leaf ≡ ok k
unfolding search
search-finds xs leaf k s f =
    search_loop-finds (suc (length xs)) xs leaf 0 (length xs) k s f (omega arith) (omega arith)
      (omega (arith, lt_of_get_elem? xs k f)) (omega arith)
