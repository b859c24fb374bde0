-- ===== src/Commitment/Order.antt =====
-- commitment/order.go. `sort.Slice` orders byte arrays totally, so whatever its algorithm, the result
-- is that of insertion.
use trust.Prelude.{
  ◌≡◌, refl, sym, ap, ◌∙◌, List, [], ◌∷◌, true, false, if◌then◌else◌, arith, length, bytes_eq,
  bytes_lt, bytes_lt_trans, bytes_lt-total, bytes_lt-asymm, bytes_eq→eq, Bool-cases, inl, inr,
  Outcome, ok, err,
}
use trust.Merkle.Hash.{Digest}
use trust.Commitment.Object.{Error, duplicate_object}

unfoldable pub insert : Digest → List Digest → List Digest
insert x [] = x ∷ []
insert x (y ∷ ys) = let rest = insert x ys in if bytes_lt y x then y ∷ rest else x ∷ y ∷ ys

unfoldable pub sort_leaves : List Digest → List Digest
sort_leaves [] = []
sort_leaves (x ∷ xs) = insert x (sort_leaves xs)

-- The loop from i = 1, with the leaf before the rest.
unfoldable pub reject_duplicates_after : Digest → List Digest → Outcome Error (Unit {0})
reject_duplicates_after prev [] = ok tt
reject_duplicates_after prev (x ∷ xs) =
    let rest = reject_duplicates_after x xs in
    if bytes_eq prev x then err duplicate_object else rest

unfoldable pub reject_duplicates : List Digest → Outcome Error (Unit {0})
unfolding reject_duplicates_after
reject_duplicates [] = ok tt
reject_duplicates (x ∷ xs) = reject_duplicates_after x xs

-- One list is the other in another order.
pub data Permutes {ℓ} {A : Type ℓ} : List A → List A → Type ℓ where
  nil : Permutes [] []
  keep : {x : A} {xs ys : List A} → Permutes xs ys → Permutes (x ∷ xs) (x ∷ ys)
  swap : (x y : A) (xs : List A) → Permutes (x ∷ y ∷ xs) (y ∷ x ∷ xs)
  both : {xs ys zs : List A} → Permutes xs ys → Permutes ys zs → Permutes xs zs

pub Permutes-refl {ℓ} : {A : Type ℓ} (xs : List A) → Permutes xs xs
Permutes-refl [] = nil
Permutes-refl (x ∷ xs) = keep (Permutes-refl xs)

pub length-Permutes {ℓ} : {A : Type ℓ} {xs ys : List A} → Permutes xs ys → length xs ≡ length ys
length-Permutes nil = refl
length-Permutes (keep p) = omega (arith, length-Permutes p)
length-Permutes (swap x y xs) = refl
length-Permutes (both p q) = omega (arith, length-Permutes p, length-Permutes q)

-- Two digests of which neither is below the other are the same.
not_lt_both : (x y : Digest) → bytes_lt x y ≡ false → bytes_lt y x ≡ false → x ≡ y
not_lt_both x y h k = ground (arith, bytes_lt-total x y, bytes_eq→eq x y)

insert_comm_below :
    (x y : Digest) (zs : List Digest)
    → bytes_lt x y ≡ true
    → insert x (insert y zs) ≡ insert y (insert x zs)
unfolding insert
insert_comm_below x y [] h = ground (arith, bytes_lt-asymm x y)
insert_comm_below x y (z ∷ zs) h = elim (Bool-cases (bytes_lt z x)) [
  | inl zx ↦
      let zy = bytes_lt_trans z x y zx h in
      rw zy (rw zx (rw zy (ap (λ (t : List Digest). z ∷ t) (insert_comm_below x y zs h))))
  | inr zx ↦ let yx = bytes_lt-asymm x y h in ground (arith, bytes_lt-asymm x y)
]

insert_comm : (x y : Digest) (zs : List Digest) → insert x (insert y zs) ≡ insert y (insert x zs)
insert_comm x y zs = elim (Bool-cases (bytes_lt x y)) [
  | inl h ↦ insert_comm_below x y zs h
  | inr h ↦ elim (Bool-cases (bytes_lt y x)) [
    | inl k ↦ sym (insert_comm_below y x zs k)
    | inr k ↦ rw (not_lt_both x y h k) refl
  ]
]

-- Equal sets of objects have one sorted list, whatever their order.
pub sort_leaves-Permutes : {xs ys : List Digest} → Permutes xs ys → sort_leaves xs ≡ sort_leaves ys
unfolding sort_leaves
sort_leaves-Permutes nil = refl
sort_leaves-Permutes (keep {x = x} p) = ap (insert x) (sort_leaves-Permutes p)
sort_leaves-Permutes (swap x y xs) = insert_comm x y (sort_leaves xs)
sort_leaves-Permutes (both p q) = sort_leaves-Permutes p ∙ sort_leaves-Permutes q

insert-Permutes : (x : Digest) (ys : List Digest) → Permutes (insert x ys) (x ∷ ys)
unfolding insert
insert-Permutes x [] = keep nil
insert-Permutes x (y ∷ ys) = elim (Bool-cases (bytes_lt y x)) [
  | inl t ↦ rw t (both (keep (insert-Permutes x ys)) (swap y x ys))
  | inr t ↦ rw t (Permutes-refl (x ∷ y ∷ ys))
]

pub sort_leaves-Permutes_self : (xs : List Digest) → Permutes (sort_leaves xs) xs
unfolding sort_leaves
sort_leaves-Permutes_self [] = nil
sort_leaves-Permutes_self (x ∷ xs) =
    both (insert-Permutes x (sort_leaves xs)) (keep (sort_leaves-Permutes_self xs))
