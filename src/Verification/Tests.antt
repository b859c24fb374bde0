-- ===== src/Verification/Tests.antt =====
-- verification/ on a chain of two authorities.
use mathlib.Core.Option.{map as map_option}
use trust.Prelude.{
  subst, ok-injective, map, nan, List, ◌≡◌, ◌↔◌, refl, [], ◌∷◌, true, false, none, some, Bytes,
  codes, Outcome, ok, err, panic, pos, All, arith, bytes_eq, bytes_lt,
}
use trust.Fixtures.{
  toy, encoders, schemes, public_key, signed_alice, signed_bob, statement, digest_of,
}
use trust.Signature.Registry
use trust.Signature.Proof.{verify_signature, verify_signed}
use trust.Signature.Registry.{PublicKey}
use trust.Attestation.Model.{Attestation}
use trust.Verification.Model.{
  Inputs, Result, Error, CheckResult, AuthorityHop, KeyVersion, Provenance,
}
use trust.Verification.Hex.{hex_encode, hex_decode}
use trust.Verification.Base58.{decode_base58_btc, base58_number, number, decode_base58_btc-number}
use trust.Verification.Binder.{bind, decode_multibase}
use trust.Verification.Checks.{Engine, key_version_at}
use trust.Verification.Engine.{verify}
use trust.Verification.Trace
use trust.Verification.Trace.{build_provenance, verify_provenance}
use trust.Verification.Hold.{Holds}
use trust.Verification.Live.{IsUsable}
use trust.Verification.Total.{Answers}
use trust.Verification.Terminates.{verify_returns}
use trust.Verification.Recorded.{pipeline, with_error, reported, verify-recorded}
use trust.Verification.Sound.{IsVerified, verify-IsVerified}
use trust.Verification.Consequences.{verify-Permits, verify_past_wall_clock}
use trust.Verification.Links.{SameLinks, verify_provenance_iff}
use trust.Verification.Versions.{IsInForce, key_version_at-IsInForce}
use trust.Delegation.Power.{Request, Permits, first}
use trust.Fixtures.{read}

abbrev engine : Engine Bytes
engine = record {
  clock = 14;
  wall_clock = 15;
  parse_did = λ s. some s;
  marshal_public_key = λ key. ok key.material;
  bind = λ key_id doc. ok (public_key doc);
  commitment_checker = none;
}

abbrev inputs : Inputs Bytes
inputs = record {
  attestation = some statement;
  signing_key = some (public_key (codes "sb"));
  chain =
      record { authority = some signed_bob; public_key = public_key (codes "sb") }
      ∷ record { authority = some signed_alice; public_key = public_key (codes "sa") }
      ∷ [];
  identity_resolver = none;
  key_versions = [];
  evidence = (hex_encode (digest_of (codes "photo")), codes "pixels") ∷ [];
  commitments = [];
  now = 0;
}

abbrev empty_result : Result
empty_result = record { valid = false; provenance = []; checks = []; failures = [] }

abbrev result_of : Outcome Error Result → Result
result_of (ok result) = result
result_of (err e) = empty_result
result_of panic = empty_result

abbrev result : Result
result = result_of (verify encoders schemes engine inputs)

-- The same engine at a later time of the system clock.
abbrev late_engine : Engine Bytes
late_engine = record engine { wall_clock = 20 }

abbrev late_result : Result
late_result = result_of (verify encoders schemes late_engine inputs)

abbrev leaf : AuthorityHop
leaf = record { authority = some signed_bob; public_key = public_key (codes "sb") }

-- The engine accepts the chain.
verify-inputs :
    (verify encoders schemes engine inputs ≡ ok result)
    × (result.valid ≡ true)
    × (verify encoders schemes late_engine inputs ≡ ok late_result)
    × (build_provenance encoders inputs ≡ ok result.provenance)
unfolding bytes_eq bytes_lt trust.Attestation.Model.check_order_after
    trust.Attestation.Model.check_order trust.Attestation.Model.validate_rest
    trust.Attestation.Model.hash_evidence trust.Attestation.Model.validate_contents
    trust.Attestation.Model.validate trust.Claim.validate trust.Authority.Validate.out_of_order
    trust.Authority.Validate.validate_capability
    trust.Authority.Validate.validate_capabilities_after
    trust.Authority.Validate.validate_capabilities trust.Authority.Validate.validate_sorted_after
    trust.Authority.Validate.validate_sorted_strings trust.Authority.Validate.validate_dimensions
    trust.Authority.Validate.validate_scope trust.Authority.Validate.validate
    trust.Evidence.validate_evidence trust.Signature.Proof.accepted
    trust.Signature.Proof.verify_signed trust.Signature.Proof.verify_authority_proof
    trust.Signature.Proof.verify_signature trust.Signature.Registry.ecdsa_alg_for_curve
    trust.Signature.Registry.rsa_pss_alg_for_hash trust.Signature.Registry.rsa_pkcs1_alg_for_hash
    trust.Signature.Registry.algorithm_for_type trust.Signature.Registry.algorithm_for_public_key
    trust.Signature.Registry.algorithm_for_private_key trust.Signature.Registry.alg_or_zero
    trust.Signature.Registry.check_bound trust.Signature.Registry.check_ed25519
    trust.Signature.Registry.check_secp256k1 trust.Signature.Registry.check_ecdsa
    trust.Signature.Registry.check_rsa_pss trust.Signature.Registry.check_rsa_pkcs1
    trust.Signature.Registry.lookup trust.Signature.Registry.check_key
    trust.Signature.Registry.message_of trust.Signature.Registry.verify
    trust.Attestation.Authorize.capability_granted trust.Attestation.Authorize.found_in
    trust.Attestation.Authorize.all_found trust.Attestation.Authorize.string_slice_subset
    trust.Attestation.Authorize.window_inside trust.Attestation.Authorize.quantity_inside
    trust.Attestation.Authorize.monetary_inside trust.Attestation.Authorize.scope_subset
    trust.Attestation.Authorize.validity_subset trust.Attestation.Authorize.validity_contains
    trust.Attestation.Authorize.authorize trust.Attestation.Authorize.verify_authorization
    trust.Delegation.Subset.has_capability trust.Delegation.Subset.capability_subset
    trust.Delegation.Subset.has_string trust.Delegation.Subset.all_in
    trust.Delegation.Subset.string_slice_subset trust.Delegation.Subset.time_window_subset
    trust.Delegation.Subset.quantity_subset trust.Delegation.Subset.monetary_subset
    trust.Delegation.Subset.scope_subset trust.Delegation.Subset.validity_subset
    trust.Delegation.Subset.delegation_depth_ok trust.Delegation.Subset.verify_authorities
    trust.Delegation.Subset.verify_subset trust.Verification.Engine.prerequisites
    trust.Verification.Engine.has_failed trust.Verification.Engine.any_failed
    trust.Verification.Engine.prerequisite_failed trust.Verification.Engine.record_verdict
    trust.Verification.Engine.failed_after trust.Verification.Engine.verdict_of
    trust.Verification.Engine.run_checks trust.Verification.Engine.assemble
    trust.Verification.Engine.run_structural trust.Verification.Engine.run_signature
    trust.Verification.Engine.run_authorization trust.Verification.Engine.run_authority_proof
    trust.Verification.Engine.run_chain_link trust.Verification.Engine.run_root_authority
    trust.Verification.Engine.run_temporal trust.Verification.Engine.run_revocation
    trust.Verification.Engine.run_identity trust.Verification.Engine.run_key_binding
    trust.Verification.Engine.run_evidence trust.Verification.Engine.run_provenance
    trust.Verification.Engine.run_commitment trust.Verification.Engine.default_checks
    trust.Verification.Engine.verify_present trust.Verification.Engine.verify_with
    trust.Verification.Engine.verify trust.Verification.Trace.first trust.Verification.Trace.last
    trust.Verification.Trace.hash_ref trust.Verification.Trace.authority_links
    trust.Verification.Trace.delegation_links trust.Verification.Trace.identity_links
    trust.Verification.Trace.hop_refs trust.Verification.Trace.build_links
    trust.Verification.Trace.build_from trust.Verification.Trace.build_provenance
    trust.Verification.Trace.ref_compare trust.Verification.Trace.link_equal
    trust.Verification.Trace.compare_links trust.Verification.Trace.verify_links
    trust.Verification.Trace.verify_provenance trust.Verification.Checks.map_delegation_error
    trust.Verification.Checks.check_windows trust.Verification.Checks.check_status
    trust.Verification.Checks.check_statuses trust.Verification.Checks.later_version
    trust.Verification.Checks.key_version_from trust.Verification.Checks.key_version_at
    trust.Verification.Checks.check_version trust.Verification.Checks.check_signing_key_version
    trust.Verification.Checks.content_of trust.Verification.Checks.check_proofs
    trust.Verification.Hops.names_parent trust.Verification.Hops.resolve
    trust.Verification.Hops.same_bytes trust.Verification.Hops.same_public_key
    trust.Verification.Hops.same_key_algorithm trust.Verification.Hops.bind_key_matches
    trust.Verification.Hops.check_link trust.Verification.Hops.check_links
    trust.Verification.Hops.check_content trust.Verification.Hops.check_contents
    trust.Verification.Hops.check_authority_proofs trust.Verification.Hex.hex_digit
    trust.Verification.Hex.hex_encode trust.Verification.Hex.hex_value
    trust.Verification.Hex.hex_decode trust.Canonical.canonical_hash trust.Canonical.authority_hash
    trust.Canonical.claim_hash trust.Canonical.evidence_hash trust.Canonical.attestation_hash
verify-inputs = (refl, refl, refl, refl)

verify-IsVerified_example :
    (att : Attestation) × (key : PublicKey) × (inputs.attestation ≡ some att)
    × (inputs.signing_key ≡ some key)
    × IsVerified encoders schemes engine inputs att key
verify-IsVerified_example =
    verify-IsVerified encoders schemes engine inputs result verify-inputs.0 verify-inputs.1

abbrev request : Request
request = record {
  capability = read;
  resource = codes "doc/2";
  on_behalf_of = codes "dave";
  action = codes "get";
  organization = codes "acme";
  region = codes "nl";
  channel = codes "web";
  time = 15;
  unit = codes "pages";
  count = pos 2;
  currency = codes "eur";
  amount = nan;
}

bob-Permits : Permits signed_bob request
bob-Permits = record {
  holds = first;
  in_scope = record {
    in_resources = first;
    in_subjects = tt;
    in_actions = first;
    in_organizations = tt;
    in_geography = tt;
    in_channels = tt;
    in_window = tt;
    in_quantity = (refl, refl);
    in_monetary = tt;
  };
  not_early = omega arith;
  not_late = omega arith;
}

first_hop : Trace.first inputs.chain ≡ some leaf
unfolding Trace.first
first_hop = refl

verify-Permits_example : All (Holds (λ a. Permits a request)) inputs.chain
verify-Permits_example =
    verify-Permits encoders schemes engine inputs result leaf signed_bob request verify-inputs.0
      verify-inputs.1 first_hop refl bob-Permits

verify_past_wall_clock_example : late_result.valid ≡ false
verify_past_wall_clock_example =
    verify_past_wall_clock encoders schemes late_engine inputs late_result statement refl
      (omega arith) verify-inputs.2

verify_provenance_iff_example :
    (verify_provenance encoders (some result.provenance) inputs ≡ ok tt) ↔ (
      (expected : Provenance) × (build_provenance encoders inputs ≡ ok expected)
      × SameLinks result.provenance expected)
verify_provenance_iff_example = verify_provenance_iff encoders result.provenance inputs

-- Version 2 is bound first, and version 1 after it.
abbrev history : List KeyVersion
history =
    record { version = 2; bound_at = 5; revoked_at = 0 }
    ∷ record { version = 1; bound_at = 8; revoked_at = 0 }
    ∷ record { version = 3; bound_at = 20; revoked_at = 0 }
    ∷ []

lower_version_wins :
    key_version_at history 10 ≡ some (record { version = 1; bound_at = 8; revoked_at = 0 })
unfolding key_version_at
lower_version_wins = refl

key_version_at-IsInForce_example : IsInForce history 10 (key_version_at history 10)
key_version_at-IsInForce_example = key_version_at-IsInForce history 10

public_key-IsUsable : (secret : Bytes) → IsUsable schemes (public_key secret)
unfolding Registry.algorithm_for_public_key
public_key-IsUsable secret = record {
  has_algorithm = λ q. absurd (cc q);
  verifies = λ sig msg q. absurd (cc q);
}

engine-Answers : Answers schemes engine inputs
engine-Answers = record {
  resolves = λ resolver is did. absurd (cc is);
  binds = λ key_id doc q. absurd (cc q);
  bound_key =
      λ key_id doc key is. subst (IsUsable schemes) (ok-injective is) (public_key-IsUsable doc);
  marshals = λ key own q. absurd (cc q);
  checks = λ checker is proof. absurd (cc is);
}

-- Without it: the check of a signature under a nil *ecdsa.PublicKey panics.
nil_key_panics :
    verify_signature encoders schemes
      (some statement)
      (record { key_type = Registry.ecdsa Registry.nil_ecdsa_key; material = [] })
    ≡ panic
unfolding verify_signature verify_signed Registry.algorithm_for_public_key
nil_key_panics = refl

verify_returns_example :
    (r : Result) × (verify encoders schemes engine inputs ≡ ok r)
    × (r.provenance ≡ result.provenance)
verify_returns_example =
    verify_returns encoders schemes engine inputs statement (public_key (codes "sb"))
      result.provenance refl refl (public_key-IsUsable (codes "sb"))
      (public_key-IsUsable (codes "sb"), (public_key-IsUsable (codes "sa"), tt)) engine-Answers
      verify-inputs.3

verify-recorded_example :
    (map (λ (c : CheckResult). c.id) result.checks ≡ pipeline)
    × (with_error result.checks ≡ reported result.failures)
    × ((result.valid ≡ true) ↔ (result.failures ≡ []))
verify-recorded_example = verify-recorded encoders schemes engine inputs result verify-inputs.0

-- "2g" is 1 * 58 + 39, and a leading '1' is a zero byte.
base58_a :
    (decode_base58_btc (codes "2g") ≡ some (codes "a"))
    × (decode_base58_btc (codes "12g") ≡ some (0 ∷ codes "a"))
unfolding decode_base58_btc
base58_a = (refl, refl)

-- There is no '0' in the alphabet.
base58_refused : decode_base58_btc (codes "20") ≡ none
unfolding decode_base58_btc
base58_refused = refl

decode_base58_btc-number_example :
    map_option (number 0) (decode_base58_btc (codes "12g")) ≡ base58_number 0 (codes "12g")
decode_base58_btc-number_example = decode_base58_btc-number (codes "12g")

-- The fragment names the method.
bound_by_fragment :
    bind
      (λ m. some (public_key m.public_key_multibase))
      (codes "k1")
      (some (record {
        id = codes "did:x:y";
        verification_method =
            record {
              id = codes "did:x:y#k0";
              public_key_jwk = [];
              public_key_multibase = codes "z1";
            }
            ∷ record {
              id = codes "did:x:y#k1";
              public_key_jwk = [];
              public_key_multibase = codes "z2";
            }
            ∷ [];
      }))
    ≡ ok (public_key (codes "z2"))
unfolding bind bytes_eq
bound_by_fragment = refl

multibase_hex : decode_multibase (λ s. none) (codes "f61") ≡ some (codes "a")
unfolding decode_multibase hex_decode
multibase_hex = refl
