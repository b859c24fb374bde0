-- ===== src/Verification/Live.antt =====
-- verification/: no check panics on a chain whose authorities are there.
use trust.Prelude.{
  ℕ, ◌≡◌, refl, List, [], ◌∷◌, Bool, true, false, not, Option, none, some, if◌then◌else◌, arith,
  Outcome, ok, err, panic, ◌>>=◌, map_err, Bytes, ℤ, int_eq,
}
use trust.Merkle.Hash.{Hasher}
use trust.Canonical
use trust.Canonical.{Encoders, authority_hash, evidence_hash, attestation_hash, canonical_hash}
use trust.Authority.Model.{Authority, Scope}
use trust.Authority.Validate.{
  validate_scope, validate_sorted_strings, validate_sorted_after, validate_dimensions,
}
use trust.Claim
use trust.Claim.{Claim}
use trust.Evidence.{Evidence, validate_evidence}
use trust.Attestation.Model
use trust.Attestation.Model.{
  Attestation, validate, validate_contents, hash_evidence, validate_rest, check_order,
  check_order_after,
}
use trust.Attestation.Authorize.{verify_authorization}
use trust.Delegation.Subset.{verify_subset}
use trust.Signature.Registry
use trust.Signature.Registry.{
  PublicKey, KeyType, Schemes, algorithm_for_type, algorithm_for_public_key, check_key, check_bound,
  check_ed25519, check_secp256k1, check_ecdsa, check_rsa_pss, check_rsa_pkcs1, lookup, registry,
  RegistryEntry, Family, ed25519, secp256k1, ecdsa, rsa_pss, rsa_pkcs1, ed25519_keys,
  secp256k1_keys, ecdsa_keys, pss_keys, pkcs1_keys, mismatched, raw_result,
}
use trust.Signature.Algorithm.{Algorithm}
use trust.Signature.Proof.{verify_signed, accepted, verify_authority_proof, verify_signature}

-- Never a panic.
abbrev pub Returns {ℓ} : {E : Type 0} {A : Type ℓ} → Outcome E A → Type ℓ
Returns o = ¬ (o ≡ panic)

module _ {ℓ κ} {E : Type 0} {A : Type ℓ} {B : Type κ} where
  pub >>=-Returns :
      (m : Outcome E A) (k : A → Outcome E B)
      → Returns m
      → ((a : A) → Returns (k a))
      → Returns (m >>= k)
  >>=-Returns (ok a) k h f = f a
  >>=-Returns (err e) k h f = λ q. absurd (cc q)
  >>=-Returns panic k h f = absurd (h refl)

module _ {ℓ} {E : Type 0} {A : Type ℓ} where
  pub ok-Returns : (a : A) → Returns {E = E} (ok a)
  ok-Returns a = λ q. absurd (cc q)

  pub err-Returns : (e : E) → Returns {A = A} (err e)
  err-Returns e = λ q. absurd (cc q)

  pub if-Returns :
      (b : Bool) (x y : Outcome E A) → Returns x → Returns y → Returns (if b then x else y)
  if-Returns true x y h k = h
  if-Returns false x y h k = k

  pub map_err-Returns :
      {F : Type 0} (f : E → F) (m : Outcome E A) → Returns m → Returns (map_err f m)
  map_err-Returns f (ok a) h = λ q. absurd (cc q)
  map_err-Returns f (err e) h = λ q. absurd (cc q)
  map_err-Returns f panic h = absurd (h refl)

validate_evidence-Returns : (ev : Evidence) → Returns (validate_evidence (some ev))
unfolding validate_evidence
validate_evidence-Returns ev = λ q. ground arith

check_order_after-Returns : (p : Bytes) (hashes : List Bytes) → Returns (check_order_after p hashes)
unfolding check_order_after
check_order_after-Returns p [] = ok-Returns tt
check_order_after-Returns p (h ∷ hashes) = λ q. ground (arith, check_order_after-Returns h hashes)

check_order-Returns : (hashes : List Bytes) → Returns (check_order hashes)
unfolding check_order
check_order-Returns [] = ok-Returns tt
check_order-Returns (h ∷ hashes) = check_order_after-Returns h hashes

validate_rest-Returns :
    (att : Attestation) (hashes : List Bytes) → Returns (validate_rest att hashes)
unfolding validate_rest
validate_rest-Returns att hashes = λ q. ground (arith, check_order-Returns hashes)

validate_sorted_after-Returns :
    (p : Bytes) (vals : List Bytes) → Returns (validate_sorted_after p vals)
unfolding validate_sorted_after
validate_sorted_after-Returns p [] = ok-Returns tt
validate_sorted_after-Returns p (v ∷ vals) =
    λ q. ground (arith, validate_sorted_after-Returns v vals)

validate_dimensions-Returns :
    (dimensions : List (List Bytes)) → Returns (validate_dimensions dimensions)
unfolding validate_dimensions validate_sorted_strings
validate_dimensions-Returns [] = ok-Returns tt
validate_dimensions-Returns ([] ∷ dimensions) = validate_dimensions-Returns dimensions
validate_dimensions-Returns ((v ∷ vals) ∷ dimensions) =
    >>=-Returns (validate_sorted_after v vals) _ (validate_sorted_after-Returns v vals)
      (λ _. validate_dimensions-Returns dimensions)

validate_scope-Returns : (s : Scope) → Returns (validate_scope s)
unfolding validate_scope
validate_scope-Returns s =
    validate_dimensions-Returns
      (s.resources ∷ s.subjects ∷ s.actions ∷ s.organizations ∷ s.geography ∷ s.channels ∷ [])

validate_claim-Returns : (c : Claim) → Returns (Claim.validate (some c))
unfolding Claim.validate
validate_claim-Returns c = λ q. ground (
  arith,
  map_err-Returns Claim.invalid_scope (validate_scope c.scope) (validate_scope-Returns c.scope),
)

module _ (evidence_hash : Evidence → Option Bytes) where
  hashed-Returns :
      (o : Option Bytes) (rest : Outcome Model.Error (List Bytes))
      → Returns rest
      → Returns {E = Model.Error} (elim o [
        | none ↦ err Model.unhashable_evidence
        | some h ↦ rest >>= λ hashes. ok (h ∷ hashes)
      ])
  hashed-Returns none rest r = err-Returns Model.unhashable_evidence
  hashed-Returns (some h) rest r = >>=-Returns rest _ r (λ hashes. ok-Returns (h ∷ hashes))

  hash_evidence-Returns :
      (evidence : List Evidence) → Returns (hash_evidence evidence_hash evidence)
  unfolding hash_evidence
  hash_evidence-Returns [] = ok-Returns []
  hash_evidence-Returns (ev ∷ evidence) =
      >>=-Returns _ _
        (map_err-Returns Model.invalid_evidence (validate_evidence (some ev))
          (validate_evidence-Returns ev))
        (λ _.
          hashed-Returns (evidence_hash ev) (hash_evidence evidence_hash evidence)
            (hash_evidence-Returns evidence))

  validate_contents-Returns : (att : Attestation) → Returns (validate_contents evidence_hash att)
  unfolding validate_contents
  validate_contents-Returns att =
      >>=-Returns _ _
        (map_err-Returns Model.invalid_claim (Claim.validate (some att.claim))
          (validate_claim-Returns att.claim))
        (λ _.
          >>=-Returns (hash_evidence evidence_hash att.evidence) _
            (hash_evidence-Returns att.evidence) (λ hashes. validate_rest-Returns att hashes))

  pub validate-Returns : (att : Attestation) → Returns (validate evidence_hash (some att))
  unfolding validate
  validate-Returns att = λ q. ground (arith, validate_contents-Returns att)

pub verify_authorization-Returns :
    (reference : Authority → Option Bytes) (now : ℕ) (att : Attestation) (o : Option Authority)
    → Returns (verify_authorization reference now (some att) o)
unfolding verify_authorization
verify_authorization-Returns reference now att none = λ q. absurd (cc q)
verify_authorization-Returns reference now att (some auth) = λ q. ground arith

pub verify_subset-Returns : (child parent : Option Authority) → Returns (verify_subset child parent)
unfolding verify_subset
verify_subset-Returns none parent = λ q. absurd (cc q)
verify_subset-Returns (some child) none = λ q. absurd (cc q)
verify_subset-Returns (some child) (some parent) = λ q. ground arith

check_bound-Returns :
    (expected : _) (r : Outcome Registry.Error _) → Returns r → Returns (check_bound expected r)
unfolding check_bound
check_bound-Returns expected (ok alg) h = λ q. ground arith
check_bound-Returns expected (err e) h = λ q. absurd (cc q)
check_bound-Returns expected panic h = absurd (h refl)

mismatched-Returns :
    (expected : _) (r : Outcome Registry.Error _) → Returns r → Returns (mismatched expected r)
unfolding mismatched
mismatched-Returns expected (ok alg) h = λ q. absurd (cc q)
mismatched-Returns expected (err e) h = λ q. absurd (cc q)
mismatched-Returns expected panic h = absurd (h refl)

check_family-Returns :
    (alg : Algorithm) (family : Family) (t : KeyType)
    → Returns (algorithm_for_type t)
    → Returns (check_key (record { alg = alg; family = family }) t)
unfolding check_key check_ed25519 check_secp256k1 check_ecdsa check_rsa_pss check_rsa_pkcs1
    algorithm_for_type
check_family-Returns alg ed25519_keys ed25519 h = ok-Returns tt
check_family-Returns alg ed25519_keys t h = mismatched-Returns alg (algorithm_for_type t) h
check_family-Returns alg secp256k1_keys secp256k1 h = ok-Returns tt
check_family-Returns alg secp256k1_keys t h = mismatched-Returns alg (algorithm_for_type t) h
check_family-Returns alg ecdsa_keys (ecdsa curve) h = check_bound-Returns alg _ h
check_family-Returns alg ecdsa_keys t h = mismatched-Returns alg (algorithm_for_type t) h
check_family-Returns alg pss_keys (rsa_pss hash) h = check_bound-Returns alg _ h
check_family-Returns alg pss_keys t h = mismatched-Returns alg (algorithm_for_type t) h
check_family-Returns alg pkcs1_keys (rsa_pkcs1 hash) h = check_bound-Returns alg _ h
check_family-Returns alg pkcs1_keys t h = mismatched-Returns alg (algorithm_for_type t) h

-- A key of which no method panics: no nil pointer, and its Verify returns.
pub record IsUsable (schemes : Schemes) (key : PublicKey) : Type 0 where
  pub has_algorithm : Returns (algorithm_for_public_key key)
  pub verifies : (sig msg : Bytes) → ¬ (schemes.raw_verify key.key_type key.material sig msg ≡ none)

raw_result-Returns : (o : Option Bool) → ¬ (o ≡ none) → Returns (raw_result o)
unfolding raw_result
raw_result-Returns none h = absurd (h refl)
raw_result-Returns (some b) h = ok-Returns b

canonical_hash-Returns : ⦃hasher : Hasher⦄ → (o : Option Bytes) → Returns (canonical_hash o)
unfolding canonical_hash
canonical_hash-Returns none = λ q. absurd (cc q)
canonical_hash-Returns (some canonical_bytes) = λ q. absurd (cc q)

module _ ⦃hasher : Hasher⦄ (encoders : Encoders) where
  pub authority_hash-Returns : (o : Option Authority) → Returns (authority_hash encoders o)
  unfolding authority_hash
  authority_hash-Returns none = err-Returns Canonical.nil_authority
  authority_hash-Returns (some auth) = canonical_hash-Returns _

  pub evidence_hash-Returns : (o : Option Evidence) → Returns (evidence_hash encoders o)
  unfolding evidence_hash
  evidence_hash-Returns none = err-Returns Canonical.nil_evidence
  evidence_hash-Returns (some ev) = canonical_hash-Returns _

  attestation_hash-Returns : (att : Attestation) → Returns (attestation_hash encoders (some att))
  unfolding attestation_hash
  attestation_hash-Returns att = canonical_hash-Returns _

  module _ (schemes : Schemes) where
    verify-Returns :
        (alg : ℤ) (key : PublicKey) (sig msg : Bytes)
        → IsUsable schemes key
        → Returns (Registry.verify schemes alg key sig msg)
    unfolding Registry.verify algorithm_for_public_key
    verify-Returns alg key sig msg usable = served-Returns (lookup registry alg)
      where
        served-Returns :
            (o : Option RegistryEntry)
            → Returns {E = Registry.Error} (elim o [
              | none ↦ err (Registry.not_registered alg)
              | some entry ↦ check_key entry key.key_type >>= λ _. raw_result (
                  schemes.raw_verify key.key_type key.material sig
                    (Registry.message_of entry.family msg))
            ])
        served-Returns none = err-Returns (Registry.not_registered alg)
        served-Returns (some entry) =
            >>=-Returns (check_key entry key.key_type) _
              (check_family-Returns entry.alg entry.family key.key_type usable.has_algorithm)
              (λ _. raw_result-Returns _ (usable.verifies sig _))

    accepted-Returns : (r : Outcome Registry.Error Bool) → Returns r → Returns (accepted r)
    unfolding accepted
    accepted-Returns (ok true) h = λ q. absurd (cc q)
    accepted-Returns (ok false) h = λ q. absurd (cc q)
    accepted-Returns (err e) h = λ q. absurd (cc q)
    accepted-Returns panic h = absurd (h refl)

    verify_signed-Returns :
        (declared : ℤ) (sig : Bytes) (hashed : Outcome Canonical.Error Bytes) (key : PublicKey)
        → IsUsable schemes key
        → Returns hashed
        → Returns (verify_signed schemes declared sig hashed key)
    unfolding verify_signed algorithm_for_public_key
    verify_signed-Returns declared sig hashed key usable h =
        >>=-Returns _ _ (map_err-Returns _ (algorithm_for_type key.key_type) usable.has_algorithm)
          (λ alg. if-Returns (not (int_eq alg declared)) _ _ (err-Returns _) (
            >>=-Returns _ _ (map_err-Returns _ hashed h)
              (λ digest. accepted-Returns _ (verify-Returns declared key sig digest usable))))

    pub verify_signature-Returns :
        (att : Attestation) (key : PublicKey)
        → IsUsable schemes key
        → Returns (verify_signature encoders schemes (some att) key)
    unfolding verify_signature
    verify_signature-Returns att key usable =
        verify_signed-Returns _ _ _ key usable (attestation_hash-Returns att)

    pub verify_authority_proof-Returns :
        (o : Option Authority) (key : PublicKey)
        → IsUsable schemes key
        → Returns (verify_authority_proof encoders schemes o key)
    unfolding verify_authority_proof
    verify_authority_proof-Returns none key usable = λ q. absurd (cc q)
    verify_authority_proof-Returns (some auth) key usable =
        verify_signed-Returns _ _ _ key usable (authority_hash-Returns (some auth))
