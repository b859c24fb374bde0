-- ===== src/Signature/RoundTrip.antt =====
-- authority/proof.go and attestation/signature.go: signing, then verifying.
use trust.Prelude.{
  ◌≡◌, refl, sym, ap, ◌∙◌, subst, ◌↔◌, ◌⊎◌, inl, inr, [], Bool, true, false, Option, none, some,
  some-injective, Outcome, ok, err, panic, >>=-eq-ok, map_err, map_err-eq-ok, ok-injective, Bytes,
}
use trust.Merkle.Hash.{Hasher, Digest}
use trust.Authority.Model.{Authority}
use trust.Attestation.Model.{Attestation}
use trust.Canonical
use trust.Canonical.{Encoders, authority_hash, attestation_hash}
use trust.Signature.Algorithm.{Algorithm}
use trust.Signature.Registry.{PublicKey, PrivateKey, Schemes, algorithm_for_public_key, sign}
use trust.Signature.Signer.{
  Signer, LocalSigner, new_local_signer, signer_public_key, signer_sign, as_signer,
}
use trust.Signature.Proof.{
  Error, prepared, with_signature, prepared_attestation, signer_algorithm, signature_for,
  store_signature, commit_proof, sign_authority, store_attestation_signature, commit_attestation,
  sign_attestation, verify_authority_proof, verify_signature, key_error, hash_error, sign_error,
}
use trust.Signature.Signed.{
  IsSigned, IsMatched, verify_signed_iff, new_local_signer-IsMatched, local_signature-IsSigned,
}

store_signature-ok :
    (auth : Authority) (r : Outcome Error Bytes)
    → (store_signature auth r).1 ≡ ok tt
    → (sig : Bytes) × (r ≡ ok sig) × ((store_signature auth r).0 ≡ with_signature auth sig)
unfolding store_signature
store_signature-ok auth (ok sig) h = (sig, refl, refl)
store_signature-ok auth (err e) h = absurd (cc)
store_signature-ok auth panic h = absurd (cc)

store_signature-fails :
    (auth : Authority) (r : Outcome Error Bytes) (e : Error)
    → (store_signature auth r).1 ≡ err e
    → (store_signature auth r).0 ≡ auth
unfolding store_signature
store_signature-fails auth (ok sig) e h = absurd (cc)
store_signature-fails auth (err e') e h = refl
store_signature-fails auth panic e h = absurd (cc)

store_attestation_signature-ok :
    (att : Attestation) (r : Outcome Error Bytes)
    → (store_attestation_signature att r).1 ≡ ok tt
    → (sig : Bytes) × (r ≡ ok sig)
      × ((store_attestation_signature att r).0 ≡ record att { signature = sig })
unfolding store_attestation_signature
store_attestation_signature-ok att (ok sig) h = (sig, refl, refl)
store_attestation_signature-ok att (err e) h = absurd (cc)
store_attestation_signature-ok att panic h = absurd (cc)

module _ ⦃hasher : Hasher⦄ (encoders : Encoders) where
  commit_proof-ok :
      (auth : Authority) (signer : Signer) (key_id : Bytes) (r : Outcome Error Algorithm)
      → (commit_proof encoders auth signer key_id r).1 ≡ ok tt
      → (alg : Algorithm) × (sig : Bytes) × (r ≡ ok alg)
        × (signature_for signer (authority_hash encoders (some (prepared auth alg key_id)))
            ≡ ok sig)
        × ((commit_proof encoders auth signer key_id r).0
            ≡ with_signature (prepared auth alg key_id) sig)
  unfolding commit_proof
  commit_proof-ok auth signer key_id (ok alg) h =
      let (sig, made, whole) =
        store_signature-ok (prepared auth alg key_id)
          (signature_for signer (authority_hash encoders (some (prepared auth alg key_id)))) h in
      (alg, sig, refl, made, whole)
  commit_proof-ok auth signer key_id (err e) h = absurd (cc)
  commit_proof-ok auth signer key_id panic h = absurd (cc)

  commit_proof-fails :
      (auth : Authority) (signer : Signer) (key_id : Bytes) (r : Outcome Error Algorithm)
      (e : Error)
      → (commit_proof encoders auth signer key_id r).1 ≡ err e
      → ((commit_proof encoders auth signer key_id r).0 ≡ auth)
        ⊎ ((commit_proof encoders auth signer key_id r).0.proof.signature ≡ [])
  unfolding commit_proof
  commit_proof-fails auth signer key_id (ok alg) e h = inr (
      ap (λ (a : Authority). a.proof.signature)
        (store_signature-fails (prepared auth alg key_id)
          (signature_for signer (authority_hash encoders (some (prepared auth alg key_id)))) e h))
  commit_proof-fails auth signer key_id (err e') e h = inl refl
  commit_proof-fails auth signer key_id panic e h = inl refl

  -- If SignAuthority returns an error, the authority is as it was, or its proof has no signature: a
  -- failed call never leaves a stale signature under a new algorithm or key ID.
  pub sign_authority-fails :
      (auth auth' : Authority) (signer : Option Signer) (key_id : Bytes) (e : Error)
      → sign_authority encoders (some auth) signer key_id ≡ (some auth', err e)
      → (auth' ≡ auth) ⊎ (auth'.proof.signature ≡ [])
  unfolding sign_authority
  sign_authority-fails auth auth' none key_id e h = inl (some-injective (sym (ap (λ p. p.0) h)))
  sign_authority-fails auth auth' (some signer) key_id e h =
      let same = some-injective (ap (λ p. p.0) h) in
      elim (commit_proof-fails auth signer key_id (signer_algorithm signer) e (ap (λ p. p.1) h)) [
        | inl unchanged ↦ inl (sym same ∙ unchanged)
        | inr cleared ↦ inr (sym (ap (λ (a : Authority). a.proof.signature) same) ∙ cleared)
      ]

  module _ (schemes : Schemes) where
    -- VerifyAuthorityProof accepts exactly a key whose own algorithm is the declared one, and whose
    -- scheme accepts the stored signature of the authority's canonical hash.
    pub verify_authority_proof_iff :
        (auth : Authority) (key : PublicKey)
        → (verify_authority_proof encoders schemes (some auth) key ≡ ok tt)
          ↔ IsSigned schemes auth.proof.algorithm auth.proof.signature
              (authority_hash encoders (some auth))
              key
    unfolding verify_authority_proof
    verify_authority_proof_iff auth key =
        verify_signed_iff schemes auth.proof.algorithm auth.proof.signature
          (authority_hash encoders (some auth)) key

    pub verify_signature_iff :
        (att : Attestation) (key : PublicKey)
        → (verify_signature encoders schemes (some att) key ≡ ok tt)
          ↔ IsSigned schemes att.algorithm att.signature (attestation_hash encoders (some att)) key
    unfolding verify_signature
    verify_signature_iff att key =
        verify_signed_iff schemes att.algorithm att.signature (attestation_hash encoders (some att))
          key

    public_key-eq :
        (s : LocalSigner) (done : Bool) (key : PublicKey)
        → signer_public_key schemes s done ≡ ok key
        → s.public ≡ key
    unfolding signer_public_key
    public_key-eq s true key h = absurd (cc)
    public_key-eq s false key h = ok-injective h

    sign-eq :
        (s : LocalSigner) (done : Bool) (coins digest sig : Bytes)
        → signer_sign schemes s done coins digest ≡ ok sig
        → sign schemes s.alg s.key coins digest ≡ ok sig
    unfolding signer_sign
    sign-eq s true coins digest sig h = absurd (cc)
    sign-eq s false coins digest sig h = h

    -- A local signer that gave its algorithm and a signature.
    local-IsSigned :
        (s : LocalSigner) (done done' : Bool) (coins : Bytes) (alg : Algorithm) (sig : Bytes)
        (hashed : Outcome Canonical.Error Digest)
        → IsMatched schemes s
        → signer_algorithm (as_signer schemes s done done' coins) ≡ ok alg
        → signature_for (as_signer schemes s done done' coins) hashed ≡ ok sig
        → IsSigned schemes alg sig hashed s.public
    unfolding signer_algorithm signature_for as_signer
    local-IsSigned s done done' coins alg sig hashed matched own signed =
        let (key, has_key, own1) =
          >>=-eq-ok (map_err key_error (signer_public_key schemes s done)) _ own in
        let is =
          public_key-eq s done key
            (map_err-eq-ok key_error (signer_public_key schemes s done) has_key) in
        let own2 = map_err-eq-ok key_error (algorithm_for_public_key key) own1 in
        let (digest, has_digest, signed1) = >>=-eq-ok (map_err hash_error hashed) _ signed in
        let signed2 =
          sign-eq s done' coins digest sig
            (map_err-eq-ok sign_error (signer_sign schemes s done' coins digest) signed1) in
        let by_key = local_signature-IsSigned schemes s coins digest sig matched signed2 in
        let same : s.alg ≡ alg =
          ok-injective (sym by_key.own_algorithm ∙ ap algorithm_for_public_key is ∙ own2) in
        subst (λ a. IsSigned schemes a sig hashed s.public) same
          (subst (λ h. IsSigned schemes s.alg sig h s.public)
            (sym (map_err-eq-ok hash_error hashed has_digest)) by_key)

    -- If SignAuthority succeeds with the local signer of a key, then VerifyAuthorityProof accepts the
    -- signed authority under the public key of that signer, whatever the authority's proof was before;
    -- the signed authority has the key ID given, and differs from the original in its proof only.
    pub sign_authority-verifies :
        (key : PrivateKey) (s : LocalSigner) (auth signed : Authority) (done done' : Bool)
        (coins key_id : Bytes)
        → new_local_signer schemes (some key) ≡ ok s
        → sign_authority encoders (some auth) (some (as_signer schemes s done done' coins)) key_id
          ≡ (some signed, ok tt)
        → (verify_authority_proof encoders schemes (some signed) s.public ≡ ok tt)
          × (signed.proof.key_id ≡ key_id)
          × (record signed { proof = auth.proof } ≡ auth)
    unfolding sign_authority authority_hash
    sign_authority-verifies key s auth signed done done' coins key_id made h =
        let signer = as_signer schemes s done done' coins in
        let (alg, sig, own, made_sig, whole) =
          commit_proof-ok auth signer key_id (signer_algorithm signer) (ap (λ p. p.1) h) in
        let same : with_signature (prepared auth alg key_id) sig ≡ signed =
          sym whole ∙ some-injective (ap (λ p. p.0) h) in
        let by_key =
          local-IsSigned s done done' coins alg sig
            (authority_hash encoders (some (prepared auth alg key_id)))
            (new_local_signer-IsMatched schemes key s made) own made_sig in
        (
          subst
              (λ (a : Authority). verify_authority_proof encoders schemes (some a) s.public ≡ ok tt)
              same
              ((verify_authority_proof_iff (with_signature (prepared auth alg key_id) sig)
                  s.public).1
                by_key),
          ap (λ (a : Authority). a.proof.key_id) (sym same),
          ap (λ (a : Authority). record a { proof = auth.proof }) (sym same),
        )

    commit_attestation-ok :
        (att : Attestation) (signer : Signer) (key_id : Bytes) (r : Outcome Error Algorithm)
        → (commit_attestation encoders att signer key_id r).1 ≡ ok tt
        → (alg : Algorithm) × (sig : Bytes) × (r ≡ ok alg)
          × (signature_for signer
                (attestation_hash encoders (some (prepared_attestation att alg key_id)))
              ≡ ok sig)
          × ((commit_attestation encoders att signer key_id r).0
              ≡ record (prepared_attestation att alg key_id) { signature = sig })
    unfolding commit_attestation
    commit_attestation-ok att signer key_id (ok alg) h =
        let (sig, made, whole) =
          store_attestation_signature-ok (prepared_attestation att alg key_id)
            (signature_for signer
              (attestation_hash encoders (some (prepared_attestation att alg key_id))))
            h in
        (alg, sig, refl, made, whole)
    commit_attestation-ok att signer key_id (err e) h = absurd (cc)
    commit_attestation-ok att signer key_id panic h = absurd (cc)

    -- The same of SignAttestation and VerifySignature: if SignAttestation succeeds with the local signer
    -- of a key, then VerifySignature accepts the signed attestation under the public key of that signer.
    sign_attestation-verifies :
        (key : PrivateKey) (s : LocalSigner) (att signed : Attestation) (done done' : Bool)
        (coins key_id : Bytes)
        → new_local_signer schemes (some key) ≡ ok s
        → sign_attestation encoders (some att) (some (as_signer schemes s done done' coins)) key_id
          ≡ (some signed, ok tt)
        → verify_signature encoders schemes (some signed) s.public ≡ ok tt
    unfolding sign_attestation attestation_hash
    sign_attestation-verifies key s att signed done done' coins key_id made h =
        let signer = as_signer schemes s done done' coins in
        let (alg, sig, own, made_sig, whole) =
          commit_attestation-ok att signer key_id (signer_algorithm signer) (ap (λ p. p.1) h) in
        let final = record (prepared_attestation att alg key_id) { signature = sig } in
        let same : final ≡ signed = sym whole ∙ some-injective (ap (λ p. p.0) h) in
        let by_key =
          local-IsSigned s done done' coins alg sig
            (attestation_hash encoders (some (prepared_attestation att alg key_id)))
            (new_local_signer-IsMatched schemes key s made) own made_sig in
        subst (λ (a : Attestation). verify_signature encoders schemes (some a) s.public ≡ ok tt)
          same ((verify_signature_iff final s.public).1 by_key)
