-- ===== src/Commitment/Sorted.antt =====
-- commitment/: what sortLeaves and rejectDuplicates leave is what VerifyCommitment checks.
use trust.Prelude.{
  ◌≡◌, refl, List, [], ◌∷◌, true, false, arith, bytes_eq, bytes_lt, bytes_lt-total, bytes_lt-asymm,
  bytes_lt_irrefl, bytes_lt_trans, bytes_eq→eq, ok,
}
use trust.Authority.Canonical.{Ascending, Ascending-cons}
use trust.Merkle.Hash.{Digest}
use trust.Commitment.Order.{insert, sort_leaves, reject_duplicates_after, reject_duplicates}
use trust.Commitment.Build.{check_sorted_after, check_sorted, check_distinct_after, check_distinct}

insert-check_sorted_after :
    (p x : Digest) (ys : List Digest)
    → check_sorted_after p ys ≡ ok tt
    → bytes_lt x p ≡ false
    → check_sorted_after p (insert x ys) ≡ ok tt
unfolding insert check_sorted_after
insert-check_sorted_after p x [] h k = ground arith
insert-check_sorted_after p x (y ∷ ys) h k =
    ground (arith, insert-check_sorted_after y x ys, bytes_lt-asymm y x)

insert-check_sorted :
    (x : Digest) (ys : List Digest) → check_sorted ys ≡ ok tt → check_sorted (insert x ys) ≡ ok tt
unfolding insert check_sorted
insert-check_sorted x [] h = refl
insert-check_sorted x (y ∷ ys) h =
    ground (arith, insert-check_sorted_after y x ys, bytes_lt-asymm y x)

pub sort_leaves-check_sorted : (xs : List Digest) → check_sorted (sort_leaves xs) ≡ ok tt
unfolding sort_leaves
sort_leaves-check_sorted [] = unfold check_sorted in refl
sort_leaves-check_sorted (x ∷ xs) =
    insert-check_sorted x (sort_leaves xs) (sort_leaves-check_sorted xs)

distinct_after :
    (p : Digest) (xs : List Digest)
    → reject_duplicates_after p xs ≡ ok tt
    → check_distinct_after p xs ≡ ok tt
unfolding reject_duplicates_after check_distinct_after
distinct_after p [] h = refl
distinct_after p (x ∷ xs) h = ground (arith, distinct_after x xs)

pub reject_duplicates-check_distinct :
    (xs : List Digest) → reject_duplicates xs ≡ ok tt → check_distinct xs ≡ ok tt
unfolding reject_duplicates check_distinct
reject_duplicates-check_distinct [] h = refl
reject_duplicates-check_distinct (x ∷ xs) h = distinct_after x xs h

checks_after-Ascending :
    (p : Digest) (xs : List Digest)
    → check_sorted_after p xs ≡ ok tt
    → check_distinct_after p xs ≡ ok tt
    → Ascending bytes_lt (p ∷ xs)
unfolding check_sorted_after check_distinct_after
checks_after-Ascending p [] h k = (tt, tt)
checks_after-Ascending p (x ∷ xs) h k =
    let lt : bytes_lt p x ≡ true = ground (arith, bytes_lt-total p x) in
    Ascending-cons bytes_lt bytes_lt_trans p x xs lt
      (checks_after-Ascending x xs (ground arith) (ground arith))

-- The two loops of VerifyCommitment accept exactly the strictly ascending lists.
pub checks-Ascending :
    (xs : List Digest) → check_sorted xs ≡ ok tt → check_distinct xs ≡ ok tt → Ascending bytes_lt xs
unfolding check_sorted check_distinct
checks-Ascending [] h k = tt
checks-Ascending (x ∷ xs) h k = checks_after-Ascending x xs h k

lt-ne : (p x : Digest) → bytes_lt p x ≡ true → bytes_eq p x ≡ false
lt-ne p x h = ground (arith, bytes_eq→eq p x, bytes_lt_irrefl x)

Ascending-after :
    (p : Digest) (xs : List Digest)
    → Ascending bytes_lt (p ∷ xs)
    → (check_sorted_after p xs ≡ ok tt) × (check_distinct_after p xs ≡ ok tt)
unfolding check_sorted_after check_distinct_after
Ascending-after p [] a = (refl, refl)
Ascending-after p (x ∷ xs) ((lt, _), a) =
    let (h, k) = Ascending-after x xs a in rw (bytes_lt-asymm p x lt, lt-ne p x lt) (h, k)

pub Ascending-checks :
    (xs : List Digest)
    → Ascending bytes_lt xs
    → (check_sorted xs ≡ ok tt) × (check_distinct xs ≡ ok tt)
unfolding check_sorted check_distinct
Ascending-checks [] a = (refl, refl)
Ascending-checks (x ∷ xs) a = Ascending-after x xs a
