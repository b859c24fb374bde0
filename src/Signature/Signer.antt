-- ===== src/Signature/Signer.antt =====
-- signature/signer.go.
use trust.Prelude.{Bool, Option, none, some, if◌then◌else◌, Outcome, ok, err, panic, ◌>>=◌, Bytes}
use trust.Merkle.Hash.{Hasher}
use trust.Signature.Algorithm.{Algorithm}
use trust.Signature.Registry.{
  x25519, unknown_key, ecdsa, rsa_pss, rsa_pkcs1, nil_ecdsa_key, nil_rsa_key, PublicKey, PrivateKey,
  Error, unsupported_algorithm, canceled, nil_private_key, Schemes, algorithm_for_private_key, sign,
}

-- The interface, applied to a context: what each method returns on its call.
pub record Signer : Type 0 where
  pub public_key : Outcome Error PublicKey
  pub sign_digest : Bytes → Outcome Error Bytes

pub record LocalSigner : Type 0 where
  pub key : PrivateKey
  pub public : PublicKey
  pub alg : Algorithm

module _ ⦃hasher : Hasher⦄ (schemes : Schemes) where
  abbrev pub public_of : PrivateKey → PublicKey
  public_of key = record {
    key_type = key.key_type;
    material = schemes.public key.key_type key.secret;
  }

  unfoldable pub public_key_for_private_key : PrivateKey → Outcome Error PublicKey
  public_key_for_private_key key = elim (key.key_type) [
    | x25519 ↦ err unsupported_algorithm
    | unknown_key ↦ err unsupported_algorithm
    | ecdsa nil_ecdsa_key ↦ panic
    | rsa_pss nil_rsa_key ↦ panic
    | rsa_pkcs1 nil_rsa_key ↦ panic
    | _ ↦ ok (public_of key)
  ]

  unfoldable pub new_local_signer : Option PrivateKey → Outcome Error LocalSigner
  new_local_signer none = err nil_private_key
  new_local_signer (some key) = algorithm_for_private_key key >>= λ alg.
      public_key_for_private_key key >>= λ public.
      ok (record { key = key; public = public; alg = alg })

  -- The method PublicKey; `done` is whether `ctx.Err()` is not nil.
  unfoldable pub signer_public_key : LocalSigner → Bool → Outcome Error PublicKey
  signer_public_key s done = if done then err canceled else ok s.public

  -- The method Sign.
  unfoldable pub signer_sign : LocalSigner → Bool → Bytes → Bytes → Outcome Error Bytes
  signer_sign s done coins digest =
      if done then err canceled else sign schemes s.alg s.key coins digest

  -- A LocalSigner as a Signer; the context may be canceled between the two calls.
  unfoldable pub as_signer : LocalSigner → Bool → Bool → Bytes → Signer
  unfolding signer_public_key signer_sign
  as_signer s done done' coins = record {
    public_key = signer_public_key s done;
    sign_digest = signer_sign s done' coins;
  }
