-- ===== src/Signature/Names.antt =====
-- signature/algorithm.go: the names and the algorithms correspond.
use trust.Prelude.{
  ℕ, zero, suc, ◌+◌, ◌≡◌, refl, sym, ap, ◌∙◌, subst, ◌↔◌, inl, inr, List, [], ◌∷◌, some, Bool-cases,
  get_elem?, arith, Bytes, bytes_eq, bytes_eq→eq, ℤ, pos, int_eq, int_eq→eq,
}
use trust.Signature.Algorithm.{
  AlgorithmInfo, registered_infos, jose, cose, find_jose, algorithm_for_jose, find_cose,
  algorithm_for_cose,
}

find_jose_sound :
    (i : ℕ) (infos : List AlgorithmInfo) (name : Bytes) (n : ℕ)
    → find_jose i infos name ≡ some (pos n)
    → (k : ℕ) × (info : AlgorithmInfo) × (n ≡ i + k)
      × (get_elem? infos k ≡ some info)
      × (info.jose ≡ name)
unfolding find_jose
find_jose_sound i [] name n h = cc
find_jose_sound i (info ∷ infos) name n h = elim (Bool-cases (bytes_eq info.jose name)) [
  | inl e ↦
      let here : some (pos i) ≡ some (pos n) = rw e at h in
      let same : i ≡ n = cc here in
      (0, info, omega (arith, same), refl, bytes_eq→eq info.jose name e)
  | inr e ↦
      let (k, found, whole, at_k, same) = find_jose_sound (suc i) infos name n (rw e at h) in
      (suc k, found, omega (arith, whole), at_k, same)
]

find_cose_sound :
    (i : ℕ) (infos : List AlgorithmInfo) (label : ℤ) (n : ℕ)
    → find_cose i infos label ≡ some (pos n)
    → (k : ℕ) × (info : AlgorithmInfo) × (n ≡ i + k)
      × (get_elem? infos k ≡ some info)
      × (info.cose ≡ label)
unfolding find_cose
find_cose_sound i [] label n h = cc
find_cose_sound i (info ∷ infos) label n h = elim (Bool-cases (int_eq info.cose label)) [
  | inl e ↦
      let here : some (pos i) ≡ some (pos n) = rw e at h in
      let same : i ≡ n = cc here in
      (0, info, omega (arith, same), refl, int_eq→eq info.cose label e)
  | inr e ↦
      let (k, found, whole, at_k, same) = find_cose_sound (suc i) infos label n (rw e at h) in
      (suc k, found, omega (arith, whole), at_k, same)
]

-- Of a list from an index on.
abbrev Each : (ℕ → AlgorithmInfo → Type 0) → ℕ → List AlgorithmInfo → Type 0
Each P i [] = Unit {0}
Each P i (info ∷ infos) = P i info × Each P (suc i) infos

Each-get_elem? :
    (P : ℕ → AlgorithmInfo → Type 0) (i : ℕ) (infos : List AlgorithmInfo) (k : ℕ)
    (info : AlgorithmInfo)
    → Each P i infos
    → get_elem? infos k ≡ some info
    → P (i + k) info
Each-get_elem? P i [] k info each h = absurd (cc)
Each-get_elem? P i (x ∷ infos) zero info (here, each) h =
    let same : x ≡ info = cc in
    let width : i ≡ i + 0 = omega arith in subst (λ m. P m info) width (subst (P i) same here)
Each-get_elem? P i (x ∷ infos) (suc k) info (here, each) h =
    let width : suc i + k ≡ i + suc k = omega arith in
    subst (λ m. P m info) width (Each-get_elem? P (suc i) infos k info each h)

abbrev Resolves : ℕ → AlgorithmInfo → Type 0
Resolves i info =
    (algorithm_for_jose info.jose ≡ some (pos i)) × (algorithm_for_cose info.cose ≡ some (pos i))

all_resolve : Each Resolves 1 registered_infos
unfolding algorithm_for_jose find_jose bytes_eq algorithm_for_cose find_cose
all_resolve = (
  (refl, refl),
  (
    (refl, refl),
    (
      (refl, refl),
      (
        (refl, refl),
        (
          (refl, refl),
          ((refl, refl), ((refl, refl), ((refl, refl), ((refl, refl), ((refl, refl), tt))))),
        ),
      ),
    ),
  ),
)

-- An algorithm with an entry in the table.
pub record IsRegistered (n : ℕ) : Type 0 where
  pub index : ℕ
  pub info : AlgorithmInfo
  pub numbered : n ≡ suc index
  pub entry : get_elem? registered_infos index ≡ some info

jose-entry :
    (k : ℕ) (info : AlgorithmInfo)
    → get_elem? registered_infos k ≡ some info
    → jose (pos (suc k)) ≡ info.jose
unfolding jose
jose-entry k info e = rw e refl

cose-entry :
    (k : ℕ) (info : AlgorithmInfo)
    → get_elem? registered_infos k ≡ some info
    → cose (pos (suc k)) ≡ info.cose
unfolding cose
cose-entry k info e = rw e refl

-- AlgorithmForJOSE resolves a name to an algorithm exactly if the algorithm is registered and JOSE
-- gives it that name.
algorithm_for_jose_iff :
    (name : Bytes) (n : ℕ)
    → (algorithm_for_jose name ≡ some (pos n)) ↔ (IsRegistered n × (jose (pos n) ≡ name))
algorithm_for_jose_iff name n = (
  (λ h.
      let (k, info, whole, e, same) =
        find_jose_sound 1 registered_infos name n (unfold algorithm_for_jose in h) in
      let numbered : n ≡ suc k = omega (arith, whole) in
      (
        record { index = k; info = info; numbered = numbered; entry = e },
        ap (λ m. jose (pos m)) numbered ∙ jose-entry k info e ∙ same,
      )),
  λ r.
      let (reg, named) = r in
      let (there, _) =
        Each-get_elem? Resolves 1 registered_infos reg.index reg.info all_resolve reg.entry in
      let same : reg.info.jose ≡ name =
        sym (jose-entry reg.index reg.info reg.entry)
        ∙ ap (λ m. jose (pos m)) (sym reg.numbered)
        ∙ named in
      let width : 1 + reg.index ≡ n = omega (arith, reg.numbered) in rw (← same, ← width) there,
)

-- AlgorithmForCOSE resolves a label to an algorithm exactly if the algorithm is registered and COSE
-- gives it that label.
algorithm_for_cose_iff :
    (label : ℤ) (n : ℕ)
    → (algorithm_for_cose label ≡ some (pos n)) ↔ (IsRegistered n × (cose (pos n) ≡ label))
algorithm_for_cose_iff label n = (
  (λ h.
      let (k, info, whole, e, same) =
        find_cose_sound 1 registered_infos label n (unfold algorithm_for_cose in h) in
      let numbered : n ≡ suc k = omega (arith, whole) in
      (
        record { index = k; info = info; numbered = numbered; entry = e },
        ap (λ m. cose (pos m)) numbered ∙ cose-entry k info e ∙ same,
      )),
  λ r.
      let (reg, named) = r in
      let (_, there) =
        Each-get_elem? Resolves 1 registered_infos reg.index reg.info all_resolve reg.entry in
      let same : reg.info.cose ≡ label =
        sym (cose-entry reg.index reg.info reg.entry)
        ∙ ap (λ m. cose (pos m)) (sym reg.numbered)
        ∙ named in
      let width : 1 + reg.index ≡ n = omega (arith, reg.numbered) in rw (← same, ← width) there,
)
