-- ===== src/Signature/Dispatch.antt =====
-- signature/registry.go: Verify accepts nothing under an algorithm that is not the key's own.
use trust.Prelude.{
  ◌≡◌, refl, sym, ap, ◌∙◌, subst, ◌↔◌, inl, inr, List, [], ◌∷◌, Bool, true, Option, none, some, All,
  Bool-cases, Option-cases, arith, Outcome, ok, err, panic, >>=-eq-ok, ok-injective, Bytes, int_eq,
  int_eq→eq,
}
use trust.Merkle.Hash.{Hasher}
use trust.Signature.Algorithm.{Algorithm, algorithm_eddsa, algorithm_es256k}
use trust.Signature.Registry.{
  p256, p384, other_curve, nil_ecdsa_key, sha256, sha384, sha512, other_hash, nil_rsa_key, KeyType,
  ed25519, secp256k1, x25519, unknown_key, ecdsa, rsa_pss, rsa_pkcs1, PublicKey, Error, Schemes,
  ecdsa_alg_for_curve, rsa_pss_alg_for_hash, rsa_pkcs1_alg_for_hash, algorithm_for_type,
  algorithm_for_public_key, check_bound, mismatched, check_ed25519, check_secp256k1, check_ecdsa,
  check_rsa_pss, check_rsa_pkcs1, Family, ed25519_keys, secp256k1_keys, ecdsa_keys, pss_keys,
  pkcs1_keys, RegistryEntry, registry, lookup, check_key, message_of, raw_result, verify,
}

check_bound-eq :
    (expected : Algorithm) (r : Outcome Error Algorithm)
    → check_bound expected r ≡ ok tt
    → r ≡ ok expected
unfolding check_bound
check_bound-eq expected (ok alg) h =
    let same : int_eq alg expected ≡ true = ground arith in ap ok (int_eq→eq alg expected same)
check_bound-eq expected (err e) h = absurd (cc)
check_bound-eq expected panic h = absurd (cc)

mismatched-ok :
    (expected : Algorithm) (r : Outcome Error Algorithm) → ¬ (mismatched expected r ≡ ok tt)
unfolding mismatched
mismatched-ok expected (ok alg) h = absurd (cc h)
mismatched-ok expected (err e) h = absurd (cc h)
mismatched-ok expected panic h = absurd (cc h)

check_ed25519-eq :
    (t : KeyType)
    → check_ed25519 algorithm_eddsa t ≡ ok tt
    → algorithm_for_type t ≡ ok algorithm_eddsa
unfolding check_ed25519 algorithm_for_type
check_ed25519-eq ed25519 h = refl
check_ed25519-eq t h = absurd (mismatched-ok _ (algorithm_for_type t) h)

check_ecdsa-eq :
    (alg : Algorithm) (t : KeyType) → check_ecdsa alg t ≡ ok tt → algorithm_for_type t ≡ ok alg
unfolding check_ecdsa algorithm_for_type
check_ecdsa-eq alg (ecdsa curve) h = check_bound-eq alg (ecdsa_alg_for_curve curve) h
check_ecdsa-eq alg t h = absurd (mismatched-ok alg (algorithm_for_type t) h)

check_rsa_pss-eq :
    (alg : Algorithm) (t : KeyType) → check_rsa_pss alg t ≡ ok tt → algorithm_for_type t ≡ ok alg
unfolding check_rsa_pss algorithm_for_type
check_rsa_pss-eq alg (rsa_pss hash) h = check_bound-eq alg (rsa_pss_alg_for_hash hash) h
check_rsa_pss-eq alg t h = absurd (mismatched-ok alg (algorithm_for_type t) h)

check_rsa_pkcs1-eq :
    (alg : Algorithm) (t : KeyType) → check_rsa_pkcs1 alg t ≡ ok tt → algorithm_for_type t ≡ ok alg
unfolding check_rsa_pkcs1 algorithm_for_type
check_rsa_pkcs1-eq alg (rsa_pkcs1 hash) h = check_bound-eq alg (rsa_pkcs1_alg_for_hash hash) h
check_rsa_pkcs1-eq alg t h = absurd (mismatched-ok alg (algorithm_for_type t) h)

check_secp256k1-eq :
    (t : KeyType)
    → check_secp256k1 algorithm_es256k t ≡ ok tt
    → algorithm_for_type t ≡ ok algorithm_es256k
unfolding check_secp256k1 algorithm_for_type
check_secp256k1-eq secp256k1 h = refl
check_secp256k1-eq t h = absurd (mismatched-ok _ (algorithm_for_type t) h)

-- The families with one algorithm are registered under it.
abbrev IsSound : RegistryEntry → Type 0
IsSound entry = (t : KeyType) → check_key entry t ≡ ok tt → algorithm_for_type t ≡ ok entry.alg

registry-IsSound : All IsSound registry
unfolding check_key
registry-IsSound = (
  check_ecdsa-eq _,
  (
    check_ecdsa-eq _,
    (
      check_ed25519-eq,
      (
        check_rsa_pkcs1-eq _,
        (
          check_rsa_pkcs1-eq _,
          (
            check_rsa_pkcs1-eq _,
            (
              check_rsa_pss-eq _,
              (check_rsa_pss-eq _, (check_rsa_pss-eq _, (check_secp256k1-eq, tt))),
            ),
          ),
        ),
      ),
    ),
  ),
)

lookup-entry :
    (P : RegistryEntry → Type 0) (entries : List RegistryEntry) (alg : Algorithm)
    (entry : RegistryEntry)
    → All P entries
    → lookup entries alg ≡ some entry
    → P entry × (entry.alg ≡ alg)
unfolding lookup
lookup-entry P [] alg entry all h = absurd (cc)
lookup-entry P (e ∷ entries) alg entry (here, all) h = elim (Bool-cases (int_eq e.alg alg)) [
  | inl same ↦
      let found : some e ≡ some entry = rw same at h in
      let is : e ≡ entry = cc found in
      (subst P is here, ap (λ (r : RegistryEntry). r.alg) (sym is) ∙ int_eq→eq e.alg alg same)
  | inr other ↦ lookup-entry P entries alg entry all (rw other at h)
]

abbrev IsTaken : KeyType → Outcome Error Algorithm → Type 0
IsTaken t (ok alg) =
    (entry : RegistryEntry) × (lookup registry alg ≡ some entry) × (check_key entry t ≡ ok tt)
IsTaken t (err e) = Unit {0}
IsTaken t panic = Unit {0}

-- The entry under a key's own algorithm takes the key.
own_entry : (t : KeyType) → IsTaken t (algorithm_for_type t)
unfolding algorithm_for_type lookup check_key check_ed25519 check_secp256k1 check_ecdsa
    check_rsa_pss check_rsa_pkcs1 check_bound
own_entry ed25519 = (_, refl, refl)
own_entry secp256k1 = (_, refl, refl)
own_entry (ecdsa p256) = (_, refl, refl)
own_entry (ecdsa p384) = (_, refl, refl)
own_entry (ecdsa other_curve) = tt
own_entry (ecdsa nil_ecdsa_key) = tt
own_entry (rsa_pss sha256) = (_, refl, refl)
own_entry (rsa_pss sha384) = (_, refl, refl)
own_entry (rsa_pss sha512) = (_, refl, refl)
own_entry (rsa_pss other_hash) = tt
own_entry (rsa_pss nil_rsa_key) = tt
own_entry (rsa_pkcs1 sha256) = (_, refl, refl)
own_entry (rsa_pkcs1 sha384) = (_, refl, refl)
own_entry (rsa_pkcs1 sha512) = (_, refl, refl)
own_entry (rsa_pkcs1 other_hash) = tt
own_entry (rsa_pkcs1 nil_rsa_key) = tt
own_entry x25519 = tt
own_entry unknown_key = tt

raw_result-ok : (o : Option Bool) (b : Bool) → raw_result o ≡ ok b → o ≡ some b
unfolding raw_result
raw_result-ok none b h = absurd (cc)
raw_result-ok (some c) b h = ap some (ok-injective h)

raw_result-some : (o : Option Bool) (b : Bool) → o ≡ some b → raw_result o ≡ ok b
unfolding raw_result
raw_result-some o b h = rw h refl

module _ ⦃hasher : Hasher⦄ where
  -- What the scheme of a key signs: secp256k1 signs the SHA-256 of the message.
  abbrev pub message_for : KeyType → Bytes → Bytes
  message_for t msg = elim t [ secp256k1 ↦ hasher.sum msg | _ ↦ msg ]

  family-message :
      (alg : Algorithm) (family : Family) (t : KeyType) (msg : Bytes)
      → check_key (record { alg = alg; family = family }) t ≡ ok tt
      → message_of family msg ≡ message_for t msg
  unfolding check_key check_ed25519 check_secp256k1 check_ecdsa check_rsa_pss check_rsa_pkcs1
      message_of
  family-message alg ed25519_keys ed25519 msg h = refl
  family-message alg ed25519_keys t msg h = absurd (mismatched-ok alg (algorithm_for_type t) h)
  family-message alg secp256k1_keys secp256k1 msg h = refl
  family-message alg secp256k1_keys t msg h = absurd (mismatched-ok alg (algorithm_for_type t) h)
  family-message alg ecdsa_keys (ecdsa curve) msg h = refl
  family-message alg ecdsa_keys t msg h = absurd (mismatched-ok alg (algorithm_for_type t) h)
  family-message alg pss_keys (rsa_pss hash) msg h = refl
  family-message alg pss_keys t msg h = absurd (mismatched-ok alg (algorithm_for_type t) h)
  family-message alg pkcs1_keys (rsa_pkcs1 hash) msg h = refl
  family-message alg pkcs1_keys t msg h = absurd (mismatched-ok alg (algorithm_for_type t) h)

  entry-message :
      (entry : RegistryEntry) (t : KeyType) (msg : Bytes)
      → check_key entry t ≡ ok tt
      → message_of entry.family msg ≡ message_for t msg
  entry-message entry t msg h = family-message entry.alg entry.family t msg h

  -- The entry that serves a key.
  pub served :
      (t : KeyType) (alg : Algorithm)
      → algorithm_for_type t ≡ ok alg
      → (entry : RegistryEntry) × (lookup registry alg ≡ some entry)
        × (check_key entry t ≡ ok tt)
        × ((msg : Bytes) → message_of entry.family msg ≡ message_for t msg)
  served t alg h =
      let (entry, found, checked) = subst (IsTaken t) h (own_entry t) in
      (entry, found, checked, λ msg. entry-message entry t msg checked)

  module _ (schemes : Schemes) where
    verify-found :
        (alg : Algorithm) (entry : RegistryEntry) (key : PublicKey) (sig msg : Bytes)
        → lookup registry alg ≡ some entry
        → check_key entry key.key_type ≡ ok tt
        → verify schemes alg key sig msg
          ≡ raw_result
              (schemes.raw_verify key.key_type key.material sig (message_of entry.family msg))
    unfolding verify lookup message_of
    verify-found alg entry key sig msg found checked = rw (found, checked) refl

    verify-lookup :
        (alg : Algorithm) (key : PublicKey) (sig msg : Bytes) (b : Bool)
        → verify schemes alg key sig msg ≡ ok b
        → (entry : RegistryEntry) × (lookup registry alg ≡ some entry)
          × (check_key entry key.key_type ≡ ok tt)
    unfolding verify lookup
    verify-lookup alg key sig msg b h = elim (Option-cases (lookup registry alg)) [
      | inl e ↦ absurd (cc (rw e at h))
      | inr found ↦
          let (entry, e) = found in
          let (_, checked, _) = >>=-eq-ok (check_key entry key.key_type) _ (rw e at h) in
          (entry, e, checked)
    ]

    -- Verify says that a signature is valid exactly if the algorithm asked for is the key's own, the one
    -- that AlgorithmForPublicKey gives, and the scheme of the key accepts the signature of the message,
    -- or for secp256k1 of its SHA-256. So no key is ever used under another algorithm.
    pub verify_iff :
        (alg : Algorithm) (key : PublicKey) (sig msg : Bytes)
        → (verify schemes alg key sig msg ≡ ok true) ↔ (
            (algorithm_for_public_key key ≡ ok alg)
            × (schemes.raw_verify key.key_type key.material sig (message_for key.key_type msg)
                ≡ some true))
    unfolding algorithm_for_public_key
    verify_iff alg key sig msg = (
      (λ h.
          let (entry, found, checked) = verify-lookup alg key sig msg true h in
          let (sound, same) = lookup-entry IsSound registry alg entry registry-IsSound found in
          let own : algorithm_for_type key.key_type ≡ ok alg =
            sound key.key_type checked ∙ ap ok same in
          let result =
            raw_result-ok _ true (sym (verify-found alg entry key sig msg found checked) ∙ h) in
          (own, rw (entry-message entry key.key_type msg checked) at result)),
      λ r.
          let (own, accepts) = r in
          let (entry, found, checked, message) = served key.key_type alg own in
          verify-found alg entry key sig msg found checked
          ∙ raw_result-some _ true (rw (message msg) accepts),
    )
