-- ===== src/Prelude/Integers.antt =====
-- Go's signed integers and floats, where the code compares them.
use Prim.Native.Nat.{ℕ, ◌<◌, ◌^◌}
use mathlib.Core.Path.{◌≡◌, refl, ap}
use mathlib.Core.Bool.{Bool, true, false}
use native.Mathlib.Omega.{arith}
use trust.Prelude.Tests.{ltb, leb, ◌==◌}

-- `pos n` is n, and `negsuc n` is -(n + 1).
pub data ℤ : Type 0 where
  pos negsuc : ℕ → ℤ

-- What an `int` of 64 bits holds.
abbrev pub IsInt64 : ℤ → Type 0
IsInt64 (pos n) = n < 2 ^ 63
IsInt64 (negsuc n) = n < 2 ^ 63

abbrev pub int_eq : ℤ → ℤ → Bool
int_eq (pos a) (pos b) = a == b
int_eq (pos a) (negsuc b) = false
int_eq (negsuc a) (pos b) = false
int_eq (negsuc a) (negsuc b) = a == b

abbrev pub int_lt : ℤ → ℤ → Bool
int_lt (pos a) (pos b) = ltb a b
int_lt (pos a) (negsuc b) = false
int_lt (negsuc a) (pos b) = true
int_lt (negsuc a) (negsuc b) = ltb b a

abbrev pub int_le : ℤ → ℤ → Bool
int_le (pos a) (pos b) = leb a b
int_le (pos a) (negsuc b) = false
int_le (negsuc a) (pos b) = true
int_le (negsuc a) (negsuc b) = leb b a

pub int_le_trans : (a b c : ℤ) → int_le a b ≡ true → int_le b c ≡ true → int_le a c ≡ true
int_le_trans (pos a) (pos b) (pos c) h k = ground arith
int_le_trans (pos a) (pos b) (negsuc c) h k = ground arith
int_le_trans (pos a) (negsuc b) c h k = ground arith
int_le_trans (negsuc a) (pos b) (pos c) h k = refl
int_le_trans (negsuc a) (pos b) (negsuc c) h k = ground arith
int_le_trans (negsuc a) (negsuc b) (pos c) h k = refl
int_le_trans (negsuc a) (negsuc b) (negsuc c) h k = ground arith

pub int_eq→eq : (a b : ℤ) → int_eq a b ≡ true → a ≡ b
int_eq→eq (pos a) (pos b) h = ap pos (ground arith)
int_eq→eq (pos a) (negsuc b) h = absurd (ground arith)
int_eq→eq (negsuc a) (pos b) h = absurd (ground arith)
int_eq→eq (negsuc a) (negsuc b) h = ap negsuc (ground arith)

pub int_eq_refl : (a : ℤ) → int_eq a a ≡ true
int_eq_refl (pos a) = ground arith
int_eq_refl (negsuc a) = ground arith

-- A `float64` that is only compared: NaN, or one of the ordered values by its rank among them.
pub data Float64 : Type 0 where
  nan : Float64
  ranked : ℕ → Float64

-- `a <= b`, which NaN makes false.
abbrev pub float_le : Float64 → Float64 → Bool
float_le nan b = false
float_le (ranked a) nan = false
float_le (ranked a) (ranked b) = leb a b

-- `a > b`, which NaN makes false too.
abbrev pub float_gt : Float64 → Float64 → Bool
float_gt nan b = false
float_gt (ranked a) nan = false
float_gt (ranked a) (ranked b) = ltb b a

pub float_le_trans :
    (a b c : Float64) → float_le a b ≡ true → float_le b c ≡ true → float_le a c ≡ true
float_le_trans nan b c h k = ground arith
float_le_trans (ranked a) nan c h k = ground arith
float_le_trans (ranked a) (ranked b) nan h k = ground arith
float_le_trans (ranked a) (ranked b) (ranked c) h k = ground arith
