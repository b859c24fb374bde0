-- ===== src/Delegation/Depth.antt =====
-- delegation/delegation.go: what the strictly falling MaxDepth bounds, and what it does not.
use trust.Prelude.{
  ℕ, zero, suc, ◌+◌, ◌-◌, ◌^◌, ◌≤◌, ◌<◌, ◌≡◌, ◌↔◌, refl, sym, ap, ◌∙◌, subst, some-injective, none,
  true, false, List, [], ◌∷◌, Option, some, All, arith, length, ok, err, ℤ, pos, negsuc, IsInt64,
  int_lt,
}
use trust.Authority.Model.{Authority}
use trust.Delegation.Subset.{verify_subset, delegation_depth_ok, depth_escalation}
use trust.Delegation.Permits.{Linked}

abbrev depth_of : Authority → Option ℤ
depth_of auth = auth.delegation_constraints.max_depth

-- The depth of an authority that has one and it is not negative.
abbrev pub HasNaturalDepth : Authority → Type 0
HasNaturalDepth auth = (n : ℕ) × (depth_of auth ≡ some (pos n))

-- The last authority of a chain.
abbrev pub root_of : Authority → List Authority → Authority
root_of auth [] = auth
root_of auth (parent ∷ chain) = root_of parent chain

verify_subset-depth :
    (child parent : Authority) (m n : ℕ)
    → verify_subset (some child) (some parent) ≡ ok tt
    → depth_of child ≡ some (pos m)
    → depth_of parent ≡ some (pos n)
    → m < n
unfolding verify_subset delegation_depth_ok
verify_subset-depth child parent m n h p q = ground arith

Linked-depth :
    (leaf : Authority) (chain : List Authority) (m n : ℕ)
    → Linked (leaf ∷ chain)
    → All HasNaturalDepth (leaf ∷ chain)
    → depth_of leaf ≡ some (pos m)
    → depth_of (root_of leaf chain) ≡ some (pos n)
    → m + length chain ≤ n
Linked-depth leaf [] m n l d p q = ground arith
Linked-depth leaf (parent ∷ chain) m n (link, l) (d, ds) p q =
    let (k, e) = ds.0 in
    omega
      (arith, verify_subset-depth leaf parent m k link p e, Linked-depth parent chain k n l ds e q)

-- Where every MaxDepth of a chain is set and none is negative, the root's MaxDepth bounds the number
-- of delegations below it.
pub Linked-length :
    (leaf : Authority) (chain : List Authority) (n : ℕ)
    → Linked (leaf ∷ chain)
    → All HasNaturalDepth (leaf ∷ chain)
    → depth_of (root_of leaf chain) ≡ some (pos n)
    → length chain ≤ n
Linked-length leaf chain n l d q =
    let (m, e) = d.0 in omega (arith, Linked-depth leaf chain m n l d e q)

-- A MaxDepth is nil or an `int` of 64 bits.
abbrev pub HasInt64Depth : Authority → Type 0
HasInt64Depth auth = (n : ℤ) → depth_of auth ≡ some n → IsInt64 n

-- How many integers of 64 bits are below one.
abbrev room : ℤ → ℕ
room (pos n) = 2 ^ 63 + n
room (negsuc n) = 2 ^ 63 - (n + 1)

int_lt-room : (m n : ℤ) → IsInt64 m → IsInt64 n → int_lt m n ≡ true → room m < room n
int_lt-room (pos a) (pos b) l r h = ground arith
int_lt-room (pos a) (negsuc b) l r h = absurd (cc h)
int_lt-room (negsuc a) (pos b) l r h = omega arith
int_lt-room (negsuc a) (negsuc b) l r h = ground arith

smaller :
    (o : Option ℤ) (n : ℤ)
    → elim o [ none ↦ false | some m ↦ int_lt m n ] ≡ true
    → (m : ℤ) × (o ≡ some m) × (int_lt m n ≡ true)
smaller none n h = absurd (cc h)
smaller (some m) n h = (m, refl, h)

verify_subset-delegation_depth_ok :
    (child parent : Authority)
    → verify_subset (some child) (some parent) ≡ ok tt
    → delegation_depth_ok parent.delegation_constraints child.delegation_constraints ≡ true
unfolding verify_subset
verify_subset-delegation_depth_ok child parent h = ground arith

verify_subset-int_lt :
    (child parent : Authority) (n : ℤ)
    → verify_subset (some child) (some parent) ≡ ok tt
    → depth_of parent ≡ some n
    → (m : ℤ) × (depth_of child ≡ some m) × (int_lt m n ≡ true)
unfolding delegation_depth_ok
verify_subset-int_lt child parent n h e =
    smaller (depth_of child) n (rw e at (verify_subset-delegation_depth_ok child parent h))

Linked-room :
    (leaf : Authority) (chain : List Authority) (n : ℤ)
    → Linked (leaf ∷ chain)
    → All HasInt64Depth (leaf ∷ chain)
    → depth_of (root_of leaf chain) ≡ some n
    → (m : ℤ) × (depth_of leaf ≡ some m) × (room m + length chain ≤ room n)
Linked-room leaf [] n l d e = (n, e, omega arith)
Linked-room leaf (parent ∷ chain) n (link, l) (d, ds) e =
    let (q, at_parent, le) = Linked-room parent chain n l ds e in
    let (m, at_leaf, lt) = verify_subset-int_lt leaf parent q link at_parent in
    let less = int_lt-room m q (d m at_leaf) (ds.0 q at_parent) lt in (m, at_leaf, omega arith)

-- The same authority with the MaxDepth -(k + 1).
abbrev deepen : Authority → ℕ → Authority
deepen auth k = record auth { delegation_constraints = record { max_depth = some (negsuc k) } }

abbrev ancestors : Authority → ℕ → List Authority
ancestors auth zero = []
ancestors auth (suc zero) = auth ∷ []
ancestors auth (suc (suc k)) = deepen auth k ∷ ancestors auth (suc k)

abbrev descendant : Authority → ℕ → Authority
descendant auth zero = auth
descendant auth (suc k) = deepen auth k

deepen-link :
    (auth : Authority) (k : ℕ)
    → verify_subset (some auth) (some auth) ≡ err depth_escalation
    → verify_subset (some (deepen auth (suc k))) (some (deepen auth k)) ≡ ok tt
unfolding verify_subset delegation_depth_ok
deepen-link auth k h = ground arith

deepen_first-link :
    (auth : Authority)
    → verify_subset (some auth) (some auth) ≡ err depth_escalation
    → depth_of auth ≡ some (pos 0)
    → verify_subset (some (deepen auth 0)) (some auth) ≡ ok tt
unfolding verify_subset delegation_depth_ok
deepen_first-link auth h e = ground arith

descendants-Linked :
    (auth : Authority) (k : ℕ)
    → verify_subset (some auth) (some auth) ≡ err depth_escalation
    → depth_of auth ≡ some (pos 0)
    → Linked (descendant auth k ∷ ancestors auth k)
descendants-Linked auth zero h e = tt
descendants-Linked auth (suc zero) h e = (deepen_first-link auth h e, tt)
descendants-Linked auth (suc (suc k)) h e =
    (deepen-link auth k h, descendants-Linked auth (suc k) h e)

ancestors-root : (auth : Authority) (k : ℕ) → root_of (descendant auth k) (ancestors auth k) ≡ auth
ancestors-root auth zero = refl
ancestors-root auth (suc zero) = refl
ancestors-root auth (suc (suc k)) = ancestors-root auth (suc k)

length-ancestors : (auth : Authority) (k : ℕ) → length (ancestors auth k) ≡ k
length-ancestors auth zero = refl
length-ancestors auth (suc zero) = refl
length-ancestors auth (suc (suc k)) = omega (arith, length-ancestors auth (suc k))

pos-IsInt64 : (o : Option ℤ) → o ≡ some (pos 0) → (n : ℤ) → o ≡ some n → IsInt64 n
pos-IsInt64 o e n h = subst IsInt64 (some-injective (sym e ∙ h)) (omega arith)

negsuc-IsInt64 : (k : ℕ) (n : ℤ) → k < 2 ^ 63 → some (negsuc k) ≡ some n → IsInt64 n
negsuc-IsInt64 k n h e = subst IsInt64 (some-injective e) h

ancestors-HasInt64Depth :
    (auth : Authority) (k : ℕ)
    → k ≤ 2 ^ 63
    → depth_of auth ≡ some (pos 0)
    → All HasInt64Depth (ancestors auth k)
ancestors-HasInt64Depth auth zero h e = tt
ancestors-HasInt64Depth auth (suc zero) h e = (pos-IsInt64 (depth_of auth) e, tt)
ancestors-HasInt64Depth auth (suc (suc k)) h e =
    (λ n. negsuc-IsInt64 k n (omega arith), ancestors-HasInt64Depth auth (suc k) (omega arith) e)

descendant-HasInt64Depth :
    (auth : Authority) (k : ℕ)
    → k ≤ 2 ^ 63
    → depth_of auth ≡ some (pos 0)
    → HasInt64Depth (descendant auth k)
descendant-HasInt64Depth auth zero h e = pos-IsInt64 (depth_of auth) e
descendant-HasInt64Depth auth (suc k) h e = λ n. negsuc-IsInt64 k n (omega arith)

-- A MaxDepth of 0 forbids no delegation: below an authority with MaxDepth 0 that passes the other
-- three checks against itself, there are chains of exactly the lengths up to 2^63 in which
-- VerifySubset accepts every link and every MaxDepth is a 64-bit integer, since a child may claim a
-- negative MaxDepth; only the range of the integers ends them.
pub depth_zero-chains :
    (auth : Authority) (k : ℕ)
    → verify_subset (some auth) (some auth) ≡ err depth_escalation
    → depth_of auth ≡ some (pos 0)
    → (k ≤ 2 ^ 63) ↔ (
        (leaf : Authority) × (chain : List Authority) × Linked (leaf ∷ chain)
        × All HasInt64Depth (leaf ∷ chain)
        × (root_of leaf chain ≡ auth)
        × (length chain ≡ k))
depth_zero-chains auth k h e = (
  λ le. (
    descendant auth k,
    ancestors auth k,
    descendants-Linked auth k h e,
    (descendant-HasInt64Depth auth k le e, ancestors-HasInt64Depth auth k le e),
    ancestors-root auth k,
    length-ancestors auth k,
  ),
  λ (leaf, chain, l, d, at_root, long).
      let at_depth : depth_of (root_of leaf chain) ≡ some (pos 0) = ap depth_of at_root ∙ e in
      let (m, _, le) = Linked-room leaf chain (pos 0) l d at_depth in omega arith,
)
