-- ===== src/Verification/Versions.antt =====
-- verification/checks_single.go: keyVersionAt.
use trust.Prelude.{
  ◌≤◌, ◌<◌, ◌≡◌, refl, sym, subst, ◌⊎◌, inl, inr, List, [], ◌∷◌, ◌&&◌, ◌||◌, Option, none, some,
  Bool-cases, All, ltb, ◌==◌, arith,
}
use trust.Authority.Model.{Time}
use trust.Delegation.Power.{Member, first, later}
use trust.Verification.Model.{KeyVersion}
use trust.Verification.Checks.{later_version, key_version_from, key_version_at}

-- Bound before `v`, or at the same instant with no higher version.
abbrev pub IsBefore : KeyVersion → KeyVersion → Type 0
IsBefore w v = (w.bound_at < v.bound_at) ⊎ ((w.bound_at ≡ v.bound_at) × (w.version ≤ v.version))

-- Not bound yet, or bound before `v`.
abbrev pub IsOutranked : Time → KeyVersion → KeyVersion → Type 0
IsOutranked now v w = (now < w.bound_at) ⊎ IsBefore w v

-- What `v` in force at `now` means; `none` where no version is in force.
abbrev pub IsInForce : List KeyVersion → Time → Option KeyVersion → Type 0
IsInForce history now none = All (λ w. now < w.bound_at) history
IsInForce history now (some v) =
    Member v history × (v.bound_at ≤ now) × All (IsOutranked now v) history

IsBefore-trans : (a b c : KeyVersion) → IsBefore a b → IsBefore b c → IsBefore a c
IsBefore-trans a b c h k = grind arith

IsBefore-refl : (a : KeyVersion) → IsBefore a a
IsBefore-refl a = inr (refl, omega arith)

-- What the loop leaves, given that it has `b`.
abbrev Reaches : Time → KeyVersion → List KeyVersion → Option KeyVersion → Type 0
Reaches now b history result =
    (v : KeyVersion) × (result ≡ some v)
    × ((v ≡ b) ⊎ Member v history)
    × (v.bound_at ≤ now)
    × IsBefore b v
    × All (IsOutranked now v) history

-- A round that has `b` and sees `w`.
data Round (now : Time) (b w : KeyVersion) : Option KeyVersion → Type 0 where
  keeps : IsOutranked now b w → Round now b w (some b)
  takes : w.bound_at ≤ now → IsBefore b w → Round now b w (some w)

round : (now : Time) (b w : KeyVersion) → Round now b w (later_version now (some b) w)
unfolding later_version
round now b w = elim (Bool-cases (ltb now w.bound_at)) [
  | inl early ↦ rw early (keeps (inl (ground arith)))
  | inr bound ↦
      let at_last : w.bound_at ≤ now = ground arith in
      elim (Bool-cases
        (ltb b.bound_at w.bound_at || ((w.bound_at == b.bound_at) && ltb b.version w.version))) [
          | inl newer ↦ rw (bound, newer) (takes at_last (ground arith))
          | inr older ↦ rw (bound, older) (keeps (inr (ground arith)))
        ]
]

IsOutranked-trans :
    (now : Time) (a b c : KeyVersion) → IsOutranked now b a → IsBefore b c → IsOutranked now c a
IsOutranked-trans now a b c (inl early) k = inl early
IsOutranked-trans now a b c (inr before) k = inr (IsBefore-trans a b c before k)

after-Round :
    (now : Time) (b w : KeyVersion) (rest : List KeyVersion) (o : Option KeyVersion)
    → Round now b w o
    → b.bound_at ≤ now
    → ((c : KeyVersion)
        → c.bound_at ≤ now
        → Reaches now c rest (key_version_from now (some c) rest))
    → Reaches now b (w ∷ rest) (key_version_from now o rest)
after-Round now b w rest o (keeps below) bound goes =
    let (v, is, from, due, before, all) = goes b bound in
    (
      v,
      is,
      elim from [ inl same ↦ inl same | inr m ↦ inr (later m) ],
      due,
      before,
      (IsOutranked-trans now w b v below before, all),
    )
after-Round now b w rest o (takes at_last newer) bound goes =
    let (v, is, from, due, before, all) = goes w at_last in
    (
      v,
      is,
      elim from [
        | inl same ↦ inr (subst (λ x. Member x (w ∷ rest)) (sym same) first)
        | inr m ↦ inr (later m)
      ],
      due,
      IsBefore-trans b w v newer before,
      (inr before, all),
    )

key_version_from-Reaches :
    (now : Time) (history : List KeyVersion) (b : KeyVersion)
    → b.bound_at ≤ now
    → Reaches now b history (key_version_from now (some b) history)
unfolding key_version_from
key_version_from-Reaches now [] b bound = (b, refl, inl refl, bound, IsBefore-refl b, tt)
key_version_from-Reaches now (w ∷ rest) b bound =
    after-Round now b w rest (later_version now (some b) w) (round now b w) bound
      (key_version_from-Reaches now rest)

none-IsInForce :
    (now : Time) (history : List KeyVersion)
    → IsInForce history now (key_version_from now none history)
unfolding key_version_from later_version
none-IsInForce now [] = tt
none-IsInForce now (w ∷ rest) = elim (Bool-cases (ltb now w.bound_at)) [
  | inl early ↦
      rw early
        (skip-IsInForce (key_version_from now none rest) (none-IsInForce now rest) (ground arith))
  | inr bound ↦
      let at_last : w.bound_at ≤ now = ground arith in
      let (v, is, from, due, before, all) = key_version_from-Reaches now rest w at_last in
      rw (bound, is)
        (
          elim from [
            | inl same ↦ subst (λ x. Member x (w ∷ rest)) (sym same) first
            | inr m ↦ later m
          ],
          due,
          (inr before, all),
        )
]
  where
    skip-IsInForce :
        (o : Option KeyVersion)
        → IsInForce rest now o
        → now < w.bound_at
        → IsInForce (w ∷ rest) now o
    skip-IsInForce none all early = (early, all)
    skip-IsInForce (some v) (m, due, all) early = (later m, due, (inl early, all))

-- keyVersionAt finds the version in force: of the versions bound at or before `now` it takes the one
-- bound last, and of those bound at one instant the highest; it finds none exactly where all are bound
-- after `now`.
pub key_version_at-IsInForce :
    (history : List KeyVersion) (now : Time) → IsInForce history now (key_version_at history now)
unfolding key_version_at
key_version_at-IsInForce history now = none-IsInForce now history
