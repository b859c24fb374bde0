-- ===== src/Signature/Signed.antt =====
-- authority/proof.go and attestation/signature.go: what is signed verifies, and what verifies was bound
-- to the key.
use trust.Prelude.{
  ◌≡◌, refl, sym, ◌∙◌, subst, ◌↔◌, Bool, true, false, not, some, if◌then◌else◌, arith, Outcome, ok,
  err, panic, ◌>>=◌, >>=-eq-ok, map_err, map_err-eq-ok, ok-injective, Bytes, int_eq, int_eq_refl,
}
use trust.Merkle.Hash.{Hasher, Digest}
use trust.Canonical
use trust.Canonical.{Encoders, authority_hash, attestation_hash, unsigned}
use trust.Signature.Algorithm.{Algorithm}
use trust.Signature.Registry
use trust.Signature.Registry.{
  KeyType, PublicKey, PrivateKey, Schemes, algorithm_for_type, algorithm_for_public_key,
  algorithm_for_private_key, verify, sign, sign_raw, lookup, check_key, message_of, registry,
  RegistryEntry, ed25519, secp256k1, x25519, unknown_key, ecdsa, rsa_pss, rsa_pkcs1, nil_ecdsa_key,
  nil_rsa_key,
}
use trust.Signature.Signer.{LocalSigner, new_local_signer, public_of, public_key_for_private_key}
use trust.Signature.Proof.{accepted, verify_signed, hash_error, wrong_key}
use trust.Signature.Dispatch.{message_for, verify_iff, served}

accepted-eq : (r : Outcome Registry.Error Bool) → accepted r ≡ ok tt → r ≡ ok true
unfolding accepted
accepted-eq (ok true) h = refl
accepted-eq (ok false) h = absurd (cc)
accepted-eq (err e) h = absurd (cc)
accepted-eq panic h = absurd (cc)

module _ ⦃hasher : Hasher⦄ (schemes : Schemes) where
  -- A signature that the scheme of `key` accepts under the declared algorithm, for the hash.
  pub record IsSigned (declared : Algorithm) (sig : Bytes) (hashed : Outcome Canonical.Error Digest)
      (key : PublicKey) : Type 0 where
    pub own_algorithm : algorithm_for_public_key key ≡ ok declared
    pub digest : Digest
    pub has_digest : hashed ≡ ok digest
    pub scheme_accepts :
        schemes.raw_verify key.key_type key.material sig (message_for key.key_type digest)
        ≡ some true

  verify_signed-rest :
      (declared : Algorithm) (sig : Bytes) (hashed : Outcome Canonical.Error Digest)
      (key : PublicKey) (alg : Algorithm)
      → (if not (int_eq alg declared)
          then err wrong_key
          else (map_err hash_error hashed >>= λ h. accepted (verify schemes declared key sig h)))
        ≡ ok tt
      → (int_eq alg declared ≡ true)
        × ((map_err hash_error hashed >>= λ h. accepted (verify schemes declared key sig h))
            ≡ ok tt)
  verify_signed-rest declared sig hashed key alg h = ground arith

  pub verify_signed_iff :
      (declared : Algorithm) (sig : Bytes) (hashed : Outcome Canonical.Error Digest)
      (key : PublicKey)
      → (verify_signed schemes declared sig hashed key ≡ ok tt) ↔ IsSigned declared sig hashed key
  unfolding verify_signed accepted
  verify_signed_iff declared sig hashed key = (
    (λ h.
        let (alg, own, h1) =
          >>=-eq-ok (map_err (λ _. wrong_key) (algorithm_for_public_key key)) _ h in
        let (same, h2) = verify_signed-rest declared sig hashed key alg h1 in
        let (digest, hash, h3) = >>=-eq-ok (map_err hash_error hashed) _ h2 in
        let (own', accepts) =
          (verify_iff schemes declared key sig digest).0
            (accepted-eq (verify schemes declared key sig digest) h3) in
        record {
          own_algorithm = own';
          digest = digest;
          has_digest = map_err-eq-ok hash_error hashed hash;
          scheme_accepts = accepts;
        }),
    λ s.
        let valid =
          (verify_iff schemes declared key sig s.digest).1 (s.own_algorithm, s.scheme_accepts) in
        rw (s.own_algorithm, int_eq_refl declared, s.has_digest, valid) refl,
  )

  -- The public half and the algorithm of a signer are those of its key.
  pub record IsMatched (s : LocalSigner) : Type 0 where
    pub own_algorithm : algorithm_for_type s.key.key_type ≡ ok s.alg
    pub halves : public_of schemes s.key ≡ s.public

  public_half :
      (t : KeyType) (secret : Bytes) (p : PublicKey)
      → public_key_for_private_key schemes (record { key_type = t; secret = secret }) ≡ ok p
      → public_of schemes (record { key_type = t; secret = secret }) ≡ p
  unfolding public_key_for_private_key
  public_half x25519 secret p h = absurd (cc)
  public_half unknown_key secret p h = absurd (cc)
  public_half (ecdsa nil_ecdsa_key) secret p h = absurd (cc)
  public_half (rsa_pss nil_rsa_key) secret p h = absurd (cc)
  public_half (rsa_pkcs1 nil_rsa_key) secret p h = absurd (cc)
  public_half t secret p h = ok-injective h

  pub new_local_signer-IsMatched :
      (key : PrivateKey) (s : LocalSigner)
      → new_local_signer schemes (some key) ≡ ok s
      → IsMatched s
  unfolding new_local_signer algorithm_for_private_key
  new_local_signer-IsMatched key s h =
      let (alg, own, h1) = >>=-eq-ok (algorithm_for_type key.key_type) _ h in
      let (public, half, h2) = >>=-eq-ok (public_key_for_private_key schemes key) _ h1 in
      subst IsMatched (ok-injective h2)
        (record { own_algorithm = own; halves = public_half key.key_type key.secret public half })

  sign_raw-eq :
      (entry : RegistryEntry) (key : PrivateKey) (coins msg sig : Bytes)
      → sign_raw schemes entry key coins msg ≡ ok sig
      → schemes.raw_sign key.key_type key.secret coins (message_of entry.family msg) ≡ ok sig
  unfolding sign_raw
  sign_raw-eq entry key coins msg sig h = ground arith

  sign-found :
      (alg : Algorithm) (entry : RegistryEntry) (key : PrivateKey) (coins msg : Bytes)
      → lookup registry alg ≡ some entry
      → check_key entry key.key_type ≡ ok tt
      → sign schemes alg key coins msg ≡ sign_raw schemes entry key coins msg
  unfolding sign lookup
  sign-found alg entry key coins msg found checked = rw (found, checked) refl

  -- What a local signer signs, its public key verifies.
  pub local_signature-IsSigned :
      (s : LocalSigner) (coins digest sig : Bytes)
      → IsMatched s
      → sign schemes s.alg s.key coins digest ≡ ok sig
      → IsSigned s.alg sig (ok digest) s.public
  unfolding algorithm_for_public_key
  local_signature-IsSigned s coins digest sig m signed =
      let (entry, found, checked, message) = served s.key.key_type s.alg m.own_algorithm in
      let raw =
        sign_raw-eq entry s.key coins digest sig
          (sym (sign-found s.alg entry s.key coins digest found checked) ∙ signed) in
      let accepts =
        schemes.signed-verifies s.key.key_type s.key.secret coins
          (message_for s.key.key_type digest) sig (rw (message digest) at raw) in
      subst (IsSigned s.alg sig (ok digest)) m.halves (record {
        own_algorithm = m.own_algorithm;
        digest = digest;
        has_digest = refl;
        scheme_accepts = accepts;
      })
