-- ===== src/Prelude/ByteStrings.antt =====
-- Byte strings. Go's `[]byte`, `[32]byte` and `string` are lists of numbers below 256, compared
-- byte by byte: `==` on strings and arrays, `bytes.Equal`, `subtle.ConstantTimeCompare(a, b) == 1`
-- are `bytes_eq`, and the order of `<` on strings and of `bytes.Compare` is `bytes_lt`.
use Prim.Native.Nat.{ℕ}
use Prim.Native.Char.{code}
use Prim.Native.String.{String}
use mathlib.Core.Path.{◌≡◌, refl}
use mathlib.Core.Logic.{◌≢◌, ◌⊎◌, inl, inr}
use mathlib.Core.Bool.{Bool, true, false, ◌&&◌, ◌||◌}
use mathlib.Core.List.{List, [], ◌∷◌, ◌++◌}
use native.Mathlib.Omega.{arith}
use trust.Prelude.Tests.{◌==◌, ltb, Bool-cases}
use trust.Prelude.Lists.{length}

abbrev pub Bytes : Type 0
Bytes = List ℕ

-- The bytes of an ASCII text.
abbrev pub codes : String → Bytes
codes String.[] = []
codes (String.◌∷◌ c s) = code c ∷ codes s

unfoldable pub bytes_eq : Bytes → Bytes → Bool
bytes_eq [] [] = true
bytes_eq [] (y ∷ ys) = false
bytes_eq (x ∷ xs) [] = false
bytes_eq (x ∷ xs) (y ∷ ys) = (x == y) && bytes_eq xs ys

unfoldable pub bytes_lt : Bytes → Bytes → Bool
bytes_lt [] [] = false
bytes_lt [] (y ∷ ys) = true
bytes_lt (x ∷ xs) [] = false
bytes_lt (x ∷ xs) (y ∷ ys) = ltb x y || ((x == y) && bytes_lt xs ys)

pub bytes_eq_refl : (xs : Bytes) → bytes_eq xs xs ≡ true
unfolding bytes_eq
bytes_eq_refl [] = refl
bytes_eq_refl (x ∷ xs) = ground (arith, bytes_eq_refl xs)

pub bytes_eq→eq : (xs ys : Bytes) → bytes_eq xs ys ≡ true → xs ≡ ys
unfolding bytes_eq
bytes_eq→eq [] [] h = refl
bytes_eq→eq [] (y ∷ ys) h = cc
bytes_eq→eq (x ∷ xs) [] h = cc
bytes_eq→eq (x ∷ xs) (y ∷ ys) h = ground (arith, bytes_eq→eq xs ys)

-- Two byte strings are equal or not.
pub Bytes-cases : (xs ys : Bytes) → (xs ≡ ys) ⊎ (xs ≢ ys)
Bytes-cases xs ys = elim (Bool-cases (bytes_eq xs ys)) [
  | inl e ↦ inl (bytes_eq→eq xs ys e)
  | inr n ↦ inr (λ e. ground (arith, bytes_eq_refl xs))
]

-- The order is a strict total one.
pub bytes_lt_irrefl : (xs : Bytes) → bytes_lt xs xs ≡ false
unfolding bytes_lt
bytes_lt_irrefl [] = refl
bytes_lt_irrefl (x ∷ xs) = ground (arith, bytes_lt_irrefl xs)

pub bytes_lt_trans :
    (xs ys zs : Bytes) → bytes_lt xs ys ≡ true → bytes_lt ys zs ≡ true → bytes_lt xs zs ≡ true
unfolding bytes_lt
bytes_lt_trans [] [] zs h k = cc
bytes_lt_trans [] (y ∷ ys) [] h k = cc
bytes_lt_trans [] (y ∷ ys) (z ∷ zs) h k = refl
bytes_lt_trans (x ∷ xs) [] zs h k = cc
bytes_lt_trans (x ∷ xs) (y ∷ ys) [] h k = cc
bytes_lt_trans (x ∷ xs) (y ∷ ys) (z ∷ zs) h k = ground (arith, bytes_lt_trans xs ys zs)

pub bytes_lt-asymm : (xs ys : Bytes) → bytes_lt xs ys ≡ true → bytes_lt ys xs ≡ false
unfolding bytes_lt
bytes_lt-asymm [] [] h = cc
bytes_lt-asymm [] (y ∷ ys) h = refl
bytes_lt-asymm (x ∷ xs) [] h = cc
bytes_lt-asymm (x ∷ xs) (y ∷ ys) h = ground (arith, bytes_lt-asymm xs ys)

pub bytes_lt-total :
    (xs ys : Bytes) → bytes_lt xs ys ≡ false → bytes_eq xs ys ≡ false → bytes_lt ys xs ≡ true
unfolding bytes_lt bytes_eq
bytes_lt-total [] [] h k = cc
bytes_lt-total [] (y ∷ ys) h k = cc
bytes_lt-total (x ∷ xs) [] h k = refl
bytes_lt-total (x ∷ xs) (y ∷ ys) h k = ground (arith, bytes_lt-total xs ys)

pub tail-eq {ℓ} : {A : Type ℓ} {x y : A} {xs ys : List A} → x ∷ xs ≡ y ∷ ys → xs ≡ ys
tail-eq e = cc

pub head-eq {ℓ} : {A : Type ℓ} {x y : A} {xs ys : List A} → x ∷ xs ≡ y ∷ ys → x ≡ y
head-eq e = cc

-- Equal lists with front parts of one length have equal parts.
pub append-split {ℓ} :
    {A : Type ℓ} (a b c d : List A) → length a ≡ length c → a ++ b ≡ c ++ d → (a ≡ c) × (b ≡ d)
append-split [] b [] d h e = (refl, e)
append-split [] b (y ∷ c) d h e = absurd (omega arith)
append-split (x ∷ a) b [] d h e = absurd (omega arith)
append-split (x ∷ a) b (y ∷ c) d h e =
    let (p, q) = append-split a b c d (omega arith) (tail-eq e) in (cc (p, head-eq e), q)
