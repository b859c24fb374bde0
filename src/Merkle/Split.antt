-- ===== src/Merkle/Split.antt =====
-- merkle/tree.go: largestPow2LessThan, on Go's 64-bit `int`.
use trust.Prelude.{
  ℕ, zero, suc, ◌+◌, ◌*◌, ◌%◌, ◌^◌, ◌≤◌, ◌<◌, ◌≡◌, refl, ap, Bool, true, inl, inr, Option, none,
  some, subst, arith, ltb, ltb→lt, lt→ltb, if◌then◌else◌, Bool-cases, Nat-cases,
}
use native.Mathlib.Nat.{pow-suc, pow-le-pow_right}

-- `k * 2` and `a < b` on the bit patterns of two's complement.
abbrev double64 : ℕ → ℕ
double64 k = k * 2 % 2 ^ 64

abbrev signed_lt : ℕ → ℕ → Bool
signed_lt a b = ltb ((a + 2 ^ 63) % 2 ^ 64) ((b + 2 ^ 63) % 2 ^ 64)

-- `for k*2 < n { k *= 2 }`, on fuel; `none`: it still runs.
unfoldable pub pow2_loop : ℕ → ℕ → ℕ → Option ℕ
pow2_loop zero k n = none
pow2_loop (suc fuel) k n =
    let more = pow2_loop fuel (double64 k) n in if signed_lt (double64 k) n then more else some k

unfoldable pub largest_pow2_less_than : ℕ → Option ℕ
unfolding pow2_loop
largest_pow2_less_than n = pow2_loop 64 1 n

abbrev pub IsPow2 : ℕ → Type 0
IsPow2 k = (j : ℕ) × (k ≡ 2 ^ j)

pub two_pow-suc : (j : ℕ) → 2 ^ suc j ≡ 2 * 2 ^ j
two_pow-suc j = omega (arith, pow-suc 2 j)

two_pow_pos : (j : ℕ) → 0 < 2 ^ j
two_pow_pos zero = omega arith
two_pow_pos (suc j) = omega (arith, two_pow-suc j, two_pow_pos j)

le-mul_pos : (a b : ℕ) → 0 < b → a ≤ a * b
le-mul_pos a b h = grind arith

-- The split of RFC 6962: the largest power of two below `n`.
pub record IsSplit (k n : ℕ) : Type 0 where
  pub power : IsPow2 k
  pub below : k < n
  pub above : n ≤ 2 * k

two_pow-lt→le : (i j : ℕ) → 2 ^ i < 2 ^ j → 2 * 2 ^ i ≤ 2 ^ j
two_pow-lt→le i j h = elim (Nat-cases i j) [
  | inl lt ↦ omega (arith, pow-le-pow_right {n = 2} (omega arith) lt, two_pow-suc i)
  | inr le ↦ absurd (omega (arith, pow-le-pow_right {n = 2} (omega arith) le))
]

IsSplit-not_lt : {k k' n : ℕ} → IsSplit k n → IsSplit k' n → ¬ (k < k')
IsSplit-not_lt {k} {k'} s s' h =
    let (i, p) = s.power in
    let (j, p') = s'.power in omega (arith, two_pow-lt→le i j (omega arith), s.above, s'.below)

pub IsSplit-unique : {k k' n : ℕ} → IsSplit k n → IsSplit k' n → k ≡ k'
IsSplit-unique s s' = omega (arith, IsSplit-not_lt s s', IsSplit-not_lt s' s)

pub IsSplit-pos : {k n : ℕ} → IsSplit k n → 0 < k
IsSplit-pos s = omega (arith, s.power.1, two_pow_pos s.power.0)

-- Where nothing wraps, the test is that of the numbers.
double64_small : (k : ℕ) → k < 2 ^ 62 → double64 k ≡ 2 * k
double64_small k h = omega arith

signed_lt_small : (k n : ℕ) → k < 2 ^ 62 → n ≤ 2 ^ 62 → signed_lt (2 * k) n ≡ ltb (2 * k) n
signed_lt_small k n h small =
    let e : (2 * k + 2 ^ 63) % 2 ^ 64 ≡ 2 * k + 2 ^ 63 = omega arith in
    let e' : (n + 2 ^ 63) % 2 ^ 64 ≡ n + 2 ^ 63 = omega arith in rw (e, e') (ground arith)

pow2_loop-step :
    (fuel k n : ℕ)
    → k < n
    → n ≤ 2 ^ 62
    → pow2_loop (suc fuel) k n ≡ (if ltb (2 * k) n then pow2_loop fuel (2 * k) n else some k)
unfolding pow2_loop
pow2_loop-step fuel k n lt small =
    rw (double64_small k (omega arith), signed_lt_small k n (omega arith) small)

pow2_loop-IsSplit :
    (fuel k n : ℕ)
    → IsPow2 k
    → k < n
    → n ≤ 2 ^ 62
    → n ≤ k * 2 ^ fuel
    → (r : ℕ) × (pow2_loop fuel k n ≡ some r) × IsSplit r n
pow2_loop-IsSplit zero k n p lt small room = absurd (omega arith)
pow2_loop-IsSplit (suc fuel) k n (j, p) lt small room =
    rw (pow2_loop-step fuel k n lt small) (elim (Bool-cases (ltb (2 * k) n)) [
      | inl more ↦ rw more (
          pow2_loop-IsSplit fuel (2 * k) n (suc j, omega (arith, two_pow-suc j)) (ltb→lt _ _ more)
            small (omega (arith, room, ap (λ (t : ℕ). k * t) (two_pow-suc fuel))))
      | inr done ↦ rw done (k, refl, record { power = (j, p); below = lt; above = ground arith })
    ])

-- For 1 < n ≤ 2^62 the loop ends within 64 rounds, at the split of RFC 6962.
pub largest_pow2_less_than-IsSplit :
    (n : ℕ) → 1 < n → n ≤ 2 ^ 62 → (k : ℕ) × (largest_pow2_less_than n ≡ some k) × IsSplit k n
unfolding largest_pow2_less_than
largest_pow2_less_than-IsSplit n lt small =
    pow2_loop-IsSplit 64 1 n (0, refl) lt small (omega arith)

pub pow2-IsSplit : (n k : ℕ) → 1 < n → n ≤ 2 ^ 62 → largest_pow2_less_than n ≡ some k → IsSplit k n
pow2-IsSplit n k lt small e =
    let (k', e', s) = largest_pow2_less_than-IsSplit n lt small in
    let same : k' ≡ k = cc in subst (λ j. IsSplit j n) same s

-- Past 2^62, `k * 2` wraps to a negative number, then to 0, and the loop goes on for ever.
pow2_loop_at_zero : (fuel n : ℕ) → 0 < n → n < 2 ^ 63 → pow2_loop fuel 0 n ≡ none
unfolding pow2_loop
pow2_loop_at_zero zero n positive lt = refl
pow2_loop_at_zero (suc fuel) n positive lt =
    let e : signed_lt 0 n ≡ true = lt→ltb _ _ (omega arith) in
    rw e (pow2_loop_at_zero fuel n positive lt)

pow2_loop_at_min : (fuel n : ℕ) → 0 < n → n < 2 ^ 63 → pow2_loop fuel (2 ^ 63) n ≡ none
unfolding pow2_loop
pow2_loop_at_min zero n positive lt = refl
pow2_loop_at_min (suc fuel) n positive lt =
    let e : signed_lt 0 n ≡ true = lt→ltb _ _ (omega arith) in
    rw e (pow2_loop_at_zero fuel n positive lt)

pow2_loop_climbs :
    (fuel i k n : ℕ) → k * 2 ^ i ≡ 2 ^ 62 → 2 ^ 62 < n → n < 2 ^ 63 → pow2_loop fuel k n ≡ none
unfolding pow2_loop
pow2_loop_climbs zero i k n p lo hi = refl
pow2_loop_climbs (suc fuel) zero k n p lo hi =
    let at_end : k ≡ 2 ^ 62 = omega arith in
    let e : signed_lt (2 ^ 63) n ≡ true = lt→ltb _ _ (omega arith) in
    rw (at_end, e) (pow2_loop_at_min fuel n (omega arith) hi)
pow2_loop_climbs (suc fuel) (suc i) k n p lo hi =
    let p' : 2 * k * 2 ^ i ≡ 2 ^ 62 = omega (arith, ap (λ (t : ℕ). k * t) (two_pow-suc i)) in
    let le : 2 * k ≤ 2 ^ 62 = omega (arith, le-mul_pos (2 * k) (2 ^ i) (two_pow_pos i)) in
    let e : signed_lt (2 * k) n ≡ true = lt→ltb _ _ (omega arith) in
    rw (double64_small k (omega arith), e) (pow2_loop_climbs fuel i (2 * k) n p' lo hi)

-- For 2^62 < n < 2^63 the loop of largestPow2LessThan never ends: no number of rounds is enough.
pub largest_pow2_less_than_diverges :
    (fuel n : ℕ) → 2 ^ 62 < n → n < 2 ^ 63 → pow2_loop fuel 1 n ≡ none
largest_pow2_less_than_diverges fuel n lo hi = pow2_loop_climbs fuel 62 1 n refl lo hi
