-- ===== src/Signature/Algorithm.antt =====
-- signature/algorithm.go: the algorithms and their JOSE and COSE names.
use trust.Prelude.{
  ℕ, suc, List, [], ◌∷◌, Option, none, some, if◌then◌else◌, get_elem?, Bytes, codes, bytes_eq, ℤ,
  pos, negsuc, int_eq,
}

-- `Algorithm` is an `int`; these are its constants.
abbrev pub Algorithm : Type 0
Algorithm = ℤ

abbrev pub algorithm_eddsa : Algorithm
algorithm_eddsa = pos 1

abbrev pub algorithm_es256k : Algorithm
algorithm_es256k = pos 2

abbrev pub algorithm_es256 : Algorithm
algorithm_es256 = pos 3

abbrev pub algorithm_es384 : Algorithm
algorithm_es384 = pos 4

abbrev pub algorithm_ps256 : Algorithm
algorithm_ps256 = pos 5

abbrev pub algorithm_ps384 : Algorithm
algorithm_ps384 = pos 6

abbrev pub algorithm_ps512 : Algorithm
algorithm_ps512 = pos 7

abbrev pub algorithm_rs256 : Algorithm
algorithm_rs256 = pos 8

abbrev pub algorithm_rs384 : Algorithm
algorithm_rs384 = pos 9

abbrev pub algorithm_rs512 : Algorithm
algorithm_rs512 = pos 10

pub record AlgorithmInfo : Type 0 where
  pub jose : Bytes
  pub cose : ℤ

-- The entries from index 1 on.
abbrev pub registered_infos : List AlgorithmInfo
registered_infos =
    record { jose = codes "EdDSA"; cose = negsuc 7 }
    ∷ record { jose = codes "ES256K"; cose = negsuc 46 }
    ∷ record { jose = codes "ES256"; cose = negsuc 6 }
    ∷ record { jose = codes "ES384"; cose = negsuc 34 }
    ∷ record { jose = codes "PS256"; cose = negsuc 36 }
    ∷ record { jose = codes "PS384"; cose = negsuc 37 }
    ∷ record { jose = codes "PS512"; cose = negsuc 38 }
    ∷ record { jose = codes "RS256"; cose = negsuc 256 }
    ∷ record { jose = codes "RS384"; cose = negsuc 257 }
    ∷ record { jose = codes "RS512"; cose = negsuc 258 }
    ∷ []

-- Index 0 is the zero value.
abbrev algorithm_table : List AlgorithmInfo
algorithm_table = record { jose = []; cose = pos 0 } ∷ registered_infos

unfoldable pub jose : Algorithm → Bytes
jose (negsuc n) = []
jose (pos n) = elim (get_elem? algorithm_table n) [ none ↦ [] | some info ↦ info.jose ]

unfoldable pub cose : Algorithm → ℤ
cose (negsuc n) = pos 0
cose (pos n) = elim (get_elem? algorithm_table n) [ none ↦ pos 0 | some info ↦ info.cose ]

-- The loop of AlgorithmForJOSE from the index `i` on.
unfoldable pub find_jose : ℕ → List AlgorithmInfo → Bytes → Option Algorithm
find_jose i [] name = none
find_jose i (info ∷ infos) name =
    let rest = find_jose (suc i) infos name in
    if bytes_eq info.jose name then some (pos i) else rest

unfoldable pub algorithm_for_jose : Bytes → Option Algorithm
unfolding find_jose
algorithm_for_jose name = find_jose 1 registered_infos name

-- The loop of AlgorithmForCOSE from the index `i` on.
unfoldable pub find_cose : ℕ → List AlgorithmInfo → ℤ → Option Algorithm
find_cose i [] label = none
find_cose i (info ∷ infos) label =
    let rest = find_cose (suc i) infos label in
    if int_eq info.cose label then some (pos i) else rest

unfoldable pub algorithm_for_cose : ℤ → Option Algorithm
unfolding find_cose
algorithm_for_cose label = find_cose 1 registered_infos label
