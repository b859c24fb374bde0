-- ===== src/Signature/Registry.antt =====
-- signature/registry.go and the files that register the algorithms. The schemes themselves (the
-- packages under crypto/, which call the Go library and a secp256k1 library) are a parameter.
use trust.Prelude.{
  ◌≡◌, List, [], ◌∷◌, Bool, true, Option, none, some, if◌then◌else◌, Outcome, ok, err, panic, ◌>>=◌,
  Bytes, pos, int_eq,
}
use trust.Merkle.Hash.{Hasher}
use trust.Signature.Algorithm.{
  Algorithm, algorithm_eddsa, algorithm_es256k, algorithm_es256, algorithm_es384, algorithm_ps256,
  algorithm_ps384, algorithm_ps512, algorithm_rs256, algorithm_rs384, algorithm_rs512,
}

-- What the method Curve of a key returns; on a nil pointer, `nil_ecdsa_key`, it panics.
pub data Curve : Type 0 where
  p256 p384 other_curve nil_ecdsa_key : Curve

-- What the method Hash of a key returns; on a nil pointer, `nil_rsa_key`, it panics.
pub data HashName : Type 0 where
  sha256 sha384 sha512 other_hash nil_rsa_key : HashName

-- The dynamic type of a key, with the curve or the hash that the key is bound to.
pub data KeyType : Type 0 where
  ed25519 secp256k1 x25519 unknown_key : KeyType
  ecdsa : Curve → KeyType
  rsa_pss rsa_pkcs1 : HashName → KeyType

pub record PublicKey : Type 0 where
  pub key_type : KeyType
  pub material : Bytes

pub record PrivateKey : Type 0 where
  pub key_type : KeyType
  pub secret : Bytes

pub data Error : Type 0 where
  unsupported_algorithm sign_failed canceled nil_private_key : Error
  not_registered : Algorithm → Error
  mismatch : (expected got : Algorithm) → Error

-- The methods Public, Sign and Verify of the key types; `public` is that of a key that the constructors
-- made. A scheme may draw `coins`. Sign and Verify may panic, as those of Ed25519 do on a key of another
-- length.
pub record Schemes : Type 0 where
  pub public : KeyType → Bytes → Bytes
  pub raw_sign : KeyType → Bytes → Bytes → Bytes → Outcome (Unit {0}) Bytes
  pub raw_verify : KeyType → Bytes → Bytes → Bytes → Option Bool
  pub signed-verifies :
      (t : KeyType) (secret coins message sig : Bytes)
      → raw_sign t secret coins message ≡ ok sig
      → raw_verify t (public t secret) sig message ≡ some true

unfoldable pub ecdsa_alg_for_curve : Curve → Outcome Error Algorithm
ecdsa_alg_for_curve p256 = ok algorithm_es256
ecdsa_alg_for_curve p384 = ok algorithm_es384
ecdsa_alg_for_curve other_curve = err unsupported_algorithm
ecdsa_alg_for_curve nil_ecdsa_key = panic

unfoldable pub rsa_pss_alg_for_hash : HashName → Outcome Error Algorithm
rsa_pss_alg_for_hash sha256 = ok algorithm_ps256
rsa_pss_alg_for_hash sha384 = ok algorithm_ps384
rsa_pss_alg_for_hash sha512 = ok algorithm_ps512
rsa_pss_alg_for_hash other_hash = err unsupported_algorithm
rsa_pss_alg_for_hash nil_rsa_key = panic

unfoldable pub rsa_pkcs1_alg_for_hash : HashName → Outcome Error Algorithm
rsa_pkcs1_alg_for_hash sha256 = ok algorithm_rs256
rsa_pkcs1_alg_for_hash sha384 = ok algorithm_rs384
rsa_pkcs1_alg_for_hash sha512 = ok algorithm_rs512
rsa_pkcs1_alg_for_hash other_hash = err unsupported_algorithm
rsa_pkcs1_alg_for_hash nil_rsa_key = panic

-- The type switch of AlgorithmForPublicKey and of AlgorithmForPrivateKey.
unfoldable pub algorithm_for_type : KeyType → Outcome Error Algorithm
unfolding ecdsa_alg_for_curve rsa_pss_alg_for_hash rsa_pkcs1_alg_for_hash
algorithm_for_type ed25519 = ok algorithm_eddsa
algorithm_for_type secp256k1 = ok algorithm_es256k
algorithm_for_type (ecdsa curve) = ecdsa_alg_for_curve curve
algorithm_for_type (rsa_pss hash) = rsa_pss_alg_for_hash hash
algorithm_for_type (rsa_pkcs1 hash) = rsa_pkcs1_alg_for_hash hash
algorithm_for_type x25519 = err unsupported_algorithm
algorithm_for_type unknown_key = err unsupported_algorithm

unfoldable pub algorithm_for_public_key : PublicKey → Outcome Error Algorithm
unfolding algorithm_for_type
algorithm_for_public_key key = algorithm_for_type key.key_type

unfoldable pub algorithm_for_private_key : PrivateKey → Outcome Error Algorithm
unfolding algorithm_for_type
algorithm_for_private_key key = algorithm_for_type key.key_type

-- algForPublicKey and algForPrivateKey: the zero Algorithm on failure.
unfoldable pub alg_or_zero : Outcome Error Algorithm → Algorithm
alg_or_zero (ok alg) = alg
alg_or_zero (err e) = pos 0
alg_or_zero panic = pos 0

-- `alg, err := ...; if err != nil || alg != expected`.
unfoldable pub check_bound : Algorithm → Outcome Error Algorithm → Outcome Error (Unit {0})
unfolding alg_or_zero
check_bound expected (ok alg) = if int_eq alg expected then ok tt else err (mismatch expected alg)
check_bound expected (err e) = err (mismatch expected (alg_or_zero (err e)))
check_bound expected panic = panic

-- A failed type assertion, where the algorithm of the key is computed for the error.
unfoldable pub mismatched : Algorithm → Outcome Error Algorithm → Outcome Error (Unit {0})
unfolding alg_or_zero
mismatched expected (ok alg) = err (mismatch expected (alg_or_zero (ok alg)))
mismatched expected (err e) = err (mismatch expected (alg_or_zero (err e)))
mismatched expected panic = panic

abbrev wrong_type : Algorithm → KeyType → Outcome Error (Unit {0})
wrong_type expected t = mismatched expected (algorithm_for_type t)

-- What the closures of each file do before they call the key.
unfoldable pub check_ed25519 : Algorithm → KeyType → Outcome Error (Unit {0})
check_ed25519 expected t = elim t [ ed25519 ↦ ok tt | other ↦ wrong_type expected other ]

unfoldable pub check_secp256k1 : Algorithm → KeyType → Outcome Error (Unit {0})
check_secp256k1 expected t = elim t [ secp256k1 ↦ ok tt | other ↦ wrong_type expected other ]

unfoldable pub check_ecdsa : Algorithm → KeyType → Outcome Error (Unit {0})
unfolding check_bound
check_ecdsa expected t = elim t [
  | ecdsa curve ↦ check_bound expected (ecdsa_alg_for_curve curve)
  | other ↦ wrong_type expected other
]

unfoldable pub check_rsa_pss : Algorithm → KeyType → Outcome Error (Unit {0})
unfolding check_bound
check_rsa_pss expected t = elim t [
  | rsa_pss hash ↦ check_bound expected (rsa_pss_alg_for_hash hash)
  | other ↦ wrong_type expected other
]

unfoldable pub check_rsa_pkcs1 : Algorithm → KeyType → Outcome Error (Unit {0})
unfolding check_bound
check_rsa_pkcs1 expected t = elim t [
  | rsa_pkcs1 hash ↦ check_bound expected (rsa_pkcs1_alg_for_hash hash)
  | other ↦ wrong_type expected other
]

-- The file that registered an algorithm.
pub data Family : Type 0 where
  ed25519_keys secp256k1_keys ecdsa_keys pss_keys pkcs1_keys : Family

pub record RegistryEntry : Type 0 where
  pub alg : Algorithm
  pub family : Family

-- What the `init` functions register.
abbrev pub registry : List RegistryEntry
registry =
    record { alg = algorithm_es256; family = ecdsa_keys }
    ∷ record { alg = algorithm_es384; family = ecdsa_keys }
    ∷ record { alg = algorithm_eddsa; family = ed25519_keys }
    ∷ record { alg = algorithm_rs256; family = pkcs1_keys }
    ∷ record { alg = algorithm_rs384; family = pkcs1_keys }
    ∷ record { alg = algorithm_rs512; family = pkcs1_keys }
    ∷ record { alg = algorithm_ps256; family = pss_keys }
    ∷ record { alg = algorithm_ps384; family = pss_keys }
    ∷ record { alg = algorithm_ps512; family = pss_keys }
    ∷ record { alg = algorithm_es256k; family = secp256k1_keys }
    ∷ []

unfoldable pub lookup : List RegistryEntry → Algorithm → Option RegistryEntry
lookup [] alg = none
lookup (entry ∷ entries) alg = if int_eq entry.alg alg then some entry else lookup entries alg

unfoldable pub check_key : RegistryEntry → KeyType → Outcome Error (Unit {0})
unfolding check_ed25519 check_secp256k1 check_ecdsa check_rsa_pss check_rsa_pkcs1
check_key entry t = elim (entry.family) [
  | ed25519_keys ↦ check_ed25519 entry.alg t
  | secp256k1_keys ↦ check_secp256k1 entry.alg t
  | ecdsa_keys ↦ check_ecdsa entry.alg t
  | pss_keys ↦ check_rsa_pss entry.alg t
  | pkcs1_keys ↦ check_rsa_pkcs1 entry.alg t
]

-- `none` is a panic of the key's Verify.
unfoldable pub raw_result : Option Bool → Outcome Error Bool
raw_result none = panic
raw_result (some valid) = ok valid

module _ ⦃hasher : Hasher⦄ where
  -- secp256k1.go hashes the message before it calls the key.
  unfoldable pub message_of : Family → Bytes → Bytes
  message_of family msg = elim family [ secp256k1_keys ↦ hasher.sum msg | _ ↦ msg ]

  module _ (schemes : Schemes) where
    unfoldable pub sign_raw : RegistryEntry → PrivateKey → Bytes → Bytes → Outcome Error Bytes
    sign_raw entry key coins msg =
        elim (schemes.raw_sign key.key_type key.secret coins (message_of entry.family msg)) [
          | ok sig ↦ ok sig
          | err e ↦ err sign_failed
          | panic ↦ panic
        ]

    unfoldable pub sign : Algorithm → PrivateKey → Bytes → Bytes → Outcome Error Bytes
    sign alg key coins msg = elim (lookup registry alg) [
      | none ↦ err (not_registered alg)
      | some entry ↦ check_key entry key.key_type >>= λ _. sign_raw entry key coins msg
    ]

    unfoldable pub verify : Algorithm → PublicKey → Bytes → Bytes → Outcome Error Bool
    unfolding raw_result
    verify alg key sig msg = elim (lookup registry alg) [
      | none ↦ err (not_registered alg)
      | some entry ↦ check_key entry key.key_type >>= λ _.
          raw_result
            (schemes.raw_verify key.key_type key.material sig (message_of entry.family msg))
    ]
