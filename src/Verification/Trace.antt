-- ===== src/Verification/Trace.antt =====
-- verification/provenance_build.go and verification/provenance_verify.go.
use trust.Prelude.{
  List, [], ◌∷◌, ◌++◌, Bool, not, ◌&&◌, Option, none, some, if◌then◌else◌, length, ◌==◌, Outcome,
  ok, err, panic, ◌>>=◌, at, map_err, Bytes, bytes_eq,
}
use trust.Merkle.Hash.{Hasher, Digest}
use trust.Canonical
use trust.Canonical.{Encoders, authority_hash, attestation_hash, claim_hash}
use trust.Attestation.Model.{Attestation}
use trust.Verification.Model.{
  Error, hash_failed, nil_attestation, empty_chain, nil_provenance, provenance_mismatch, Link,
  Provenance, node_number, node_attestation, node_claim, node_signing_key, node_authority,
  node_delegation, node_root_authority, node_identity, AuthorityHop, Inputs,
}
use trust.Verification.Hex.{hex_encode, hex_decode}

-- `s[0]`, with `none` for a panic.
unfoldable pub first {ℓ} : {A : Type ℓ} → List A → Option A
first [] = none
first (x ∷ xs) = some x

-- `s[len(s)-1]`, with `none` for a panic.
unfoldable pub last {ℓ} : {A : Type ℓ} → List A → Option A
last [] = none
last (x ∷ []) = some x
last (x ∷ y ∷ xs) = last (y ∷ xs)

unfoldable pub hash_ref : Outcome Canonical.Error Digest → Outcome Error Bytes
hash_ref hashed = map_err (λ _. hash_failed) hashed >>= λ h. ok (hex_encode h)

-- A Link literal leaves the fields it does not name empty.
abbrev empty_link : Link
empty_link = record { kind = node_attestation; ref = []; subject = []; key_id = []; parent = [] }

-- The parent of an authority's link: the next hop's reference, if there is a next hop.
abbrev first_ref : List Bytes → Bytes
first_ref [] = []
first_ref (ref ∷ refs) = ref

unfoldable pub authority_links : List AuthorityHop → List Bytes → Outcome Error (List Link)
authority_links [] refs = ok []
authority_links (hop ∷ chain) [] = panic
authority_links (hop ∷ chain) (ref ∷ refs) = at hop.authority >>= λ auth.
    authority_links chain refs >>= λ links. ok (
      record {
        kind = node_authority;
        ref = ref;
        subject = auth.subject;
        key_id = [];
        parent = first_ref refs;
      }
      ∷ links)

unfoldable pub delegation_links : List Bytes → List Link
delegation_links [] = []
delegation_links (a ∷ []) = []
delegation_links (a ∷ b ∷ refs) =
    record empty_link { kind = node_delegation; ref = a; parent = b } ∷ delegation_links (b ∷ refs)

unfoldable pub identity_links {ℓ} :
    {R : Type ℓ} → Option R → List AuthorityHop → Outcome Error (List Link)
identity_links none chain = ok []
identity_links (some resolver) chain = at (last chain) >>= λ hop. at hop.authority >>= λ root.
    ok (record empty_link { kind = node_identity; ref = root.subject; subject = root.subject } ∷ [])

module _ ⦃hasher : Hasher⦄ (encoders : Encoders) where
  unfoldable pub hop_refs : List AuthorityHop → Outcome Error (List Bytes)
  unfolding hash_ref
  hop_refs [] = ok []
  hop_refs (hop ∷ chain) = hash_ref (authority_hash encoders hop.authority) >>= λ ref.
      hop_refs chain >>= λ refs. ok (ref ∷ refs)

  module _ {Document : Type 0} where
    -- On the attestation and the chain that are there.
    unfoldable pub build_links : Attestation → Inputs Document → Outcome Error Provenance
    unfolding hash_ref
    build_links att inputs = hash_ref (attestation_hash encoders (some att)) >>= λ att_ref.
        hash_ref (claim_hash encoders (some att.claim)) >>= λ claim_ref.
        hop_refs inputs.chain >>= λ refs. authority_links inputs.chain refs >>= λ authorities.
        at (last refs) >>= λ root_ref.
        identity_links inputs.identity_resolver inputs.chain >>= λ identities. ok (
          record empty_link { ref = att_ref; subject = att.issuer }
            ∷ record empty_link { kind = node_claim; ref = claim_ref; parent = att_ref }
            ∷ record empty_link {
              kind = node_signing_key;
              key_id = att.signing_key_id;
              parent = att_ref;
            }
            ∷ authorities
          ++ delegation_links refs
          ++ (record empty_link { kind = node_root_authority; ref = root_ref } ∷ identities))

    unfoldable pub build_from : Inputs Document → Option Attestation → Outcome Error Provenance
    build_from inputs none = err nil_attestation
    build_from inputs (some att) =
        if length inputs.chain == 0 then err empty_chain else build_links att inputs

    unfoldable pub build_provenance : Inputs Document → Outcome Error Provenance
    unfolding build_from
    build_provenance inputs = build_from inputs inputs.attestation

-- `ConstantTimeCompare` of the decoded bytes, or of the strings.
unfoldable pub ref_compare : Option Bytes → Option Bytes → Bytes → Bytes → Bool
ref_compare none db a b = bytes_eq a b
ref_compare (some da) none a b = bytes_eq a b
ref_compare (some da) (some db) a b = bytes_eq da db

unfoldable pub ref_equal : Bytes → Bytes → Bool
unfolding ref_compare
ref_equal a b = ref_compare (hex_decode a) (hex_decode b) a b

unfoldable pub link_equal : Link → Link → Bool
unfolding ref_equal
link_equal a b =
    (node_number a.kind == node_number b.kind)
    && (ref_equal a.ref b.ref
        && (ref_equal a.subject b.subject
            && (ref_equal a.key_id b.key_id && ref_equal a.parent b.parent)))

-- The loop over the expected links.
unfoldable pub compare_links : List Link → List Link → Outcome Error (Unit {0})
unfolding link_equal
compare_links links [] = ok tt
compare_links [] (expected ∷ rest) = panic
compare_links (link ∷ links) (expected ∷ rest) =
    let after = compare_links links rest in
    if not (link_equal link expected) then err provenance_mismatch else after

unfoldable pub verify_links : List Link → List Link → Outcome Error (Unit {0})
unfolding compare_links
verify_links links expected =
    if not (length links == length expected)
    then err provenance_mismatch
    else compare_links links expected

module _ ⦃hasher : Hasher⦄ (encoders : Encoders) {Document : Type 0} where
  unfoldable pub verify_provenance : Option Provenance → Inputs Document → Outcome Error (Unit {0})
  unfolding verify_links
  verify_provenance none inputs = err nil_provenance
  verify_provenance (some links) inputs =
      build_provenance encoders inputs >>= λ expected. verify_links links expected
