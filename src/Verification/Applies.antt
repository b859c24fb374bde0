-- ===== src/Verification/Applies.antt =====
-- verification/: only checkCommitment ever returns errSkipCheck.
use trust.Prelude.{
  ℕ, suc, ◌≡◌, List, [], ◌∷◌, Bool, true, false, Option, none, some, if◌then◌else◌, ltb, arith,
  Outcome, ok, err, panic, ◌>>=◌, at, map_err, ℤ, pos,
}
use trust.Merkle.Hash.{Hasher}
use trust.Canonical.{Encoders}
use trust.Authority.Model.{Time}
use trust.Signature.Registry.{Schemes}
use trust.Verification.Model.{Error, authority_invalid, not_yet_valid, expired, AuthorityHop}
use trust.Verification.Checks.{
  Trouble, skip_check, fail_with, check_windows, check_status, check_statuses, map_delegation_error,
}
use trust.Verification.Hops.{check_link, check_links, check_authority_proofs}

-- Never errSkipCheck.
abbrev pub Applies {ℓ} : {A : Type ℓ} → Outcome Trouble A → Type ℓ
Applies o = ¬ (o ≡ err skip_check)

module _ {ℓ κ} {A : Type ℓ} {B : Type κ} where
  pub >>=-Applies :
      (m : Outcome Trouble A) (k : A → Outcome Trouble B)
      → Applies m
      → ((a : A) → Applies (k a))
      → Applies (m >>= k)
  >>=-Applies (ok a) k h f = f a
  >>=-Applies (err e) k h f = λ q. h (cc q)
  >>=-Applies panic k h f = λ q. absurd (cc q)

module _ {ℓ} {A : Type ℓ} where
  ok-Applies : (a : A) → Applies (ok a)
  ok-Applies a = λ q. absurd (cc q)

  pub fail-Applies : (e : Error) (hop : ℤ) → Applies {A = A} (err (fail_with e hop))
  fail-Applies e hop = λ q. absurd (cc q)

  pub at-Applies : (o : Option A) → Applies (at o)
  at-Applies none = λ q. absurd (cc q)
  at-Applies (some a) = ok-Applies a

  pub if-Applies :
      (b : Bool) (x y : Outcome Trouble A) → Applies x → Applies y → Applies (if b then x else y)
  if-Applies true x y h k = h
  if-Applies false x y h k = k

  pub map_err-Applies :
      {E : Type 0} (f : E → Error) (hop : ℤ) (m : Outcome E A)
      → Applies (map_err (λ e. fail_with (f e) hop) m)
  map_err-Applies f hop (ok a) = ok-Applies a
  map_err-Applies f hop (err e) = fail-Applies (f e) hop
  map_err-Applies f hop panic = λ q. absurd (cc q)

pub check_windows-Applies :
    (now : Time) (i : ℕ) (chain : List AuthorityHop) → Applies (check_windows now i chain)
unfolding check_windows
check_windows-Applies now i [] = ok-Applies tt
check_windows-Applies now i (hop ∷ chain) =
    >>=-Applies (at hop.authority) _ (at-Applies hop.authority) (λ auth.
      if-Applies (ltb now auth.validity.not_before) _ _ (fail-Applies not_yet_valid (pos i)) (
        if-Applies (ltb auth.validity.not_after now) _ _ (fail-Applies expired (pos i))
          (check_windows-Applies now (suc i) chain)))

check_status-Applies : (status : ℤ) (i : ℕ) → Applies (check_status status i)
unfolding check_status
check_status-Applies status i = λ q. ground arith

pub check_statuses-Applies : (i : ℕ) (chain : List AuthorityHop) → Applies (check_statuses i chain)
unfolding check_statuses
check_statuses-Applies i [] = ok-Applies tt
check_statuses-Applies i (hop ∷ chain) =
    >>=-Applies (at hop.authority) _ (at-Applies hop.authority) (λ auth.
      >>=-Applies (check_status auth.status i) _ (check_status-Applies auth.status i)
        (λ _. check_statuses-Applies (suc i) chain))

module _ ⦃hasher : Hasher⦄ (encoders : Encoders) where
  check_link-Applies :
      (i : ℕ) (child parent : AuthorityHop) → Applies (check_link encoders i child parent)
  unfolding check_link
  check_link-Applies i child parent =
      >>=-Applies _ _ (map_err-Applies (λ _. authority_invalid) (pos i) _) (λ ph.
        >>=-Applies _ _ (at-Applies child.authority) (λ auth.
          if-Applies _ _ _ (fail-Applies _ _) (map_err-Applies map_delegation_error (pos i) _)))

  pub check_links-Applies :
      (i : ℕ) (chain : List AuthorityHop) → Applies (check_links encoders i chain)
  unfolding check_links
  check_links-Applies i [] = ok-Applies tt
  check_links-Applies i (child ∷ []) = ok-Applies tt
  check_links-Applies i (child ∷ parent ∷ chain) =
      >>=-Applies _ _ (check_link-Applies i child parent)
        (λ _. check_links-Applies (suc i) (parent ∷ chain))

  module _ (schemes : Schemes) where
    pub check_authority_proofs-Applies :
        (i : ℕ) (chain : List AuthorityHop)
        → Applies (check_authority_proofs encoders schemes i chain)
    unfolding check_authority_proofs
    check_authority_proofs-Applies i [] = ok-Applies tt
    check_authority_proofs-Applies i (hop ∷ chain) =
        >>=-Applies _ _ (map_err-Applies (λ _. authority_invalid) (pos i) _)
          (λ _. check_authority_proofs-Applies (suc i) chain)
