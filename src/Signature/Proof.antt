-- ===== src/Signature/Proof.antt =====
-- authority/proof.go and attestation/signature.go. The signing functions change the object that their
-- argument points at, so the object comes back beside the result.
use trust.Prelude.{
  [], Bool, true, false, not, Option, none, some, if◌then◌else◌, Outcome, ok, err, panic, ◌>>=◌,
  map_err, Bytes, int_eq, length, ◌==◌,
}
use trust.Merkle.Hash.{Hasher, Digest}
use trust.Authority.Model.{Authority}
use trust.Attestation.Model.{Attestation}
use trust.Canonical
use trust.Canonical.{Encoders, authority_hash, attestation_hash}
use trust.Signature.Algorithm.{Algorithm}
use trust.Signature.Registry
use trust.Signature.Registry.{PublicKey, Schemes, algorithm_for_public_key, verify}
use trust.Signature.Signer.{Signer}

pub data Error : Type 0 where
  nil_object nil_signer tampered wrong_key : Error
  key_error : Registry.Error → Error
  hash_error : Canonical.Error → Error
  sign_error : Registry.Error → Error

-- `auth.Proof.Algorithm`, `auth.Proof.KeyID` and `auth.Proof.Signature = nil`.
abbrev pub prepared : Authority → Algorithm → Bytes → Authority
prepared auth alg key_id = record auth {
  proof = record { algorithm = alg; key_id = key_id; signature = [] };
}

abbrev pub with_signature : Authority → Bytes → Authority
with_signature auth sig = record auth {
  proof = record { algorithm = auth.proof.algorithm; key_id = auth.proof.key_id; signature = sig };
}

-- The fields of the attestation that are set before hashing.
abbrev pub prepared_attestation : Attestation → Algorithm → Bytes → Attestation
prepared_attestation att alg key_id = record att {
  signing_key_id = if not (length key_id == 0) then key_id else att.signing_key_id;
  algorithm = alg;
  signature = [];
}

-- The key of the signer, and its algorithm.
unfoldable pub signer_algorithm : Signer → Outcome Error Algorithm
signer_algorithm signer =
    map_err key_error signer.public_key >>= λ key. map_err key_error (algorithm_for_public_key key)

-- `ok, err := signature.Verify(...); if err != nil || !ok`.
unfoldable pub accepted : Outcome Registry.Error Bool → Outcome Error (Unit {0})
accepted (ok true) = ok tt
accepted (ok false) = err tampered
accepted (err e) = err tampered
accepted panic = panic

-- The digest that is signed, and its signature.
unfoldable pub signature_for : Signer → Outcome Canonical.Error Digest → Outcome Error Bytes
signature_for signer hashed =
    map_err hash_error hashed >>= λ h. map_err sign_error (signer.sign_digest h)

-- SignAuthority from the metadata on.
unfoldable pub store_signature :
    Authority → Outcome Error Bytes → Authority × Outcome Error (Unit {0})
store_signature auth (ok sig) = (with_signature auth sig, ok tt)
store_signature auth (err e) = (auth, err e)
store_signature auth panic = (auth, panic)

-- SignAttestation from the metadata on.
unfoldable pub store_attestation_signature :
    Attestation → Outcome Error Bytes → Attestation × Outcome Error (Unit {0})
store_attestation_signature att (ok sig) = (record att { signature = sig }, ok tt)
store_attestation_signature att (err e) = (att, err e)
store_attestation_signature att panic = (att, panic)

module _ ⦃hasher : Hasher⦄ (schemes : Schemes) where
  -- What VerifyAuthorityProof and VerifySignature do with the declared algorithm, the signature and
  -- the hash, which they compute only after the comparison of the algorithms.
  unfoldable pub verify_signed :
      Algorithm → Bytes → Outcome Canonical.Error Digest → PublicKey → Outcome Error (Unit {0})
  unfolding accepted
  verify_signed declared sig hashed key =
      map_err (λ _. wrong_key) (algorithm_for_public_key key) >>= λ alg.
      if not (int_eq alg declared)
      then err wrong_key
      else (map_err hash_error hashed >>= λ h. accepted (verify schemes declared key sig h))

module _ ⦃hasher : Hasher⦄ (encoders : Encoders) where
  unfoldable pub commit_proof :
      Authority → Signer → Bytes → Outcome Error Algorithm → Authority × Outcome Error (Unit {0})
  unfolding store_signature
  commit_proof auth signer key_id (err e) = (auth, err e)
  commit_proof auth signer key_id panic = (auth, panic)
  commit_proof auth signer key_id (ok alg) =
      store_signature (prepared auth alg key_id)
        (signature_for signer (authority_hash encoders (some (prepared auth alg key_id))))

  unfoldable pub sign_authority :
      Option Authority → Option Signer → Bytes → Option Authority × Outcome Error (Unit {0})
  unfolding commit_proof
  sign_authority none signer key_id = (none, err nil_object)
  sign_authority (some auth) none key_id = (some auth, err nil_signer)
  sign_authority (some auth) (some signer) key_id =
      let (auth', result) = commit_proof auth signer key_id (signer_algorithm signer) in
      (some auth', result)

  unfoldable pub commit_attestation :
      Attestation
      → Signer
      → Bytes
      → Outcome Error Algorithm
      → Attestation × Outcome Error (Unit {0})
  unfolding store_attestation_signature
  commit_attestation att signer key_id (err e) = (att, err e)
  commit_attestation att signer key_id panic = (att, panic)
  commit_attestation att signer key_id (ok alg) =
      store_attestation_signature (prepared_attestation att alg key_id) (
        signature_for signer
          (attestation_hash encoders (some (prepared_attestation att alg key_id))))

  unfoldable pub sign_attestation :
      Option Attestation → Option Signer → Bytes → Option Attestation × Outcome Error (Unit {0})
  unfolding commit_attestation
  sign_attestation none signer key_id = (none, err nil_object)
  sign_attestation (some att) none key_id = (some att, err nil_signer)
  sign_attestation (some att) (some signer) key_id =
      let (att', result) = commit_attestation att signer key_id (signer_algorithm signer) in
      (some att', result)

  module _ (schemes : Schemes) where
    unfoldable pub verify_authority_proof : Option Authority → PublicKey → Outcome Error (Unit {0})
    unfolding verify_signed
    verify_authority_proof none key = err nil_object
    verify_authority_proof (some auth) key =
        verify_signed schemes auth.proof.algorithm auth.proof.signature
          (authority_hash encoders (some auth)) key

    unfoldable pub verify_signature : Option Attestation → PublicKey → Outcome Error (Unit {0})
    unfolding verify_signed
    verify_signature none key = err nil_object
    verify_signature (some att) key =
        verify_signed schemes att.algorithm att.signature (attestation_hash encoders (some att)) key
