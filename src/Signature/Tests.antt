-- ===== src/Signature/Tests.antt =====
-- signature/, authority/proof.go and attestation/signature.go on small keys.
use trust.Prelude.{
  ◌≡◌, ◌↔◌, ◌⊎◌, refl, [], ◌++◌, true, false, some, codes, ok, err, pos, negsuc, bytes_eq,
}
use trust.Fixtures.{
  toy, encoders, schemes, public_key, private_key, alice, unsigned_statement, digest_of,
}
use trust.Authority.Model.{Authority}
use trust.Attestation.Model.{Attestation}
use trust.Signature.Algorithm.{cose, algorithm_for_jose, algorithm_for_cose}
use trust.Signature.Registry
use trust.Signature.Registry.{
  PublicKey, PrivateKey, Schemes, verify, sign, lookup, check_key, message_of, registry,
  algorithm_for_public_key, algorithm_for_private_key, sign_raw, secp256k1, ed25519, mismatch,
}
use trust.Signature.Signer.{LocalSigner, new_local_signer, as_signer, public_key_for_private_key}
use trust.Signature.Proof
use trust.Signature.Proof.{
  sign_authority, sign_attestation, verify_authority_proof, verify_signature, signer_algorithm,
  signature_for,
}
use trust.Canonical.{authority_hash, attestation_hash, canonical_hash}
use trust.Signature.Dispatch.{verify_iff}
use trust.Signature.RoundTrip.{sign_authority-fails, sign_authority-verifies}

es256_resolves : algorithm_for_jose (codes "ES256") ≡ some (pos 3)
unfolding algorithm_for_jose bytes_eq
es256_resolves = refl

es256_label : (cose (pos 3) ≡ negsuc 6) × (algorithm_for_cose (negsuc 6) ≡ some (pos 3))
unfolding cose algorithm_for_cose
es256_label = (refl, refl)

verify_iff_example :
    (verify schemes (pos 1) (public_key (codes "sa")) (codes "sahi") (codes "hi") ≡ ok true) ↔ (
      (algorithm_for_public_key (public_key (codes "sa")) ≡ ok (pos 1))
      × (schemes.raw_verify ed25519 (codes "sa") (codes "sahi") (codes "hi") ≡ some true))
verify_iff_example =
    verify_iff schemes (pos 1) (public_key (codes "sa")) (codes "sahi") (codes "hi")

-- A key is refused under another algorithm.
ed25519_as_es256k :
    verify schemes (pos 2) (public_key (codes "sa")) (codes "sahi") (codes "hi")
    ≡ err (mismatch (pos 2) (pos 1))
unfolding verify lookup check_key Registry.algorithm_for_type Registry.alg_or_zero
    Registry.mismatched
ed25519_as_es256k = refl

abbrev signer : LocalSigner
signer = record { key = private_key (codes "sa"); public = public_key (codes "sa"); alg = pos 1 }

new_signer : new_local_signer schemes (some (private_key (codes "sa"))) ≡ ok signer
unfolding new_local_signer algorithm_for_private_key public_key_for_private_key
new_signer = refl

abbrev signed : Authority
signed = record alice {
  proof = record {
    algorithm = pos 1;
    key_id = codes "k2";
    signature = codes "sa" ++ digest_of (codes "alicek2");
  };
}

sign_alice :
    sign_authority encoders
      (some alice)
      (some (as_signer schemes signer false false []))
      (codes "k2")
    ≡ (some signed, ok tt)
unfolding sign_authority signer_algorithm signature_for as_signer sign sign_raw lookup check_key
    message_of authority_hash canonical_hash algorithm_for_public_key
sign_alice = refl

sign_authority-verifies_example :
    (verify_authority_proof encoders schemes (some signed) signer.public ≡ ok tt)
    × (signed.proof.key_id ≡ codes "k2")
    × (record signed { proof = alice.proof } ≡ alice)
sign_authority-verifies_example =
    sign_authority-verifies encoders schemes (private_key (codes "sa")) signer alice signed false
      false [] (codes "k2") new_signer sign_alice

-- The context is canceled between the two calls.
abbrev cleared : Authority
cleared = record alice { proof = record { algorithm = pos 1; key_id = codes "k2"; signature = [] } }

sign_alice_canceled :
    sign_authority encoders
      (some alice)
      (some (as_signer schemes signer false true []))
      (codes "k2")
    ≡ (some cleared, err (Proof.sign_error Registry.canceled))
unfolding sign_authority signer_algorithm signature_for as_signer authority_hash canonical_hash
    algorithm_for_public_key
sign_alice_canceled = refl

sign_authority-fails_example : (cleared ≡ alice) ⊎ (cleared.proof.signature ≡ [])
sign_authority-fails_example =
    sign_authority-fails encoders alice cleared (some (as_signer schemes signer false true []))
      (codes "k2") (Proof.sign_error Registry.canceled) sign_alice_canceled

abbrev signed_statement : Attestation
signed_statement = record unsigned_statement {
  signing_key_id = codes "k2";
  signature = codes "sa" ++ digest_of (codes "bobk2");
}

sign_statement :
    sign_attestation encoders
      (some unsigned_statement)
      (some (as_signer schemes signer false false []))
      (codes "k2")
    ≡ (some signed_statement, ok tt)
unfolding sign_attestation signer_algorithm signature_for as_signer sign sign_raw lookup check_key
    message_of attestation_hash canonical_hash algorithm_for_public_key
sign_statement = refl
