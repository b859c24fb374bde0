-- ===== src/Attestation/Ordered.antt =====
-- attestation/validate.go: Validate accepts an attestation only with valid parts and its evidence in
-- the canonical order.
use trust.Prelude.{
  map_err-eq-ok, ◌≡◌, sym, ok-injective, List, [], ◌∷◌, true, Option, some, arith, length, Outcome,
  ok, err, >>=-eq-ok, map_err, Bytes, bytes_lt, bytes_lt_trans, Option-cases, inl, inr, ◌<◌,
}
use trust.Authority.Validate.{known_status}
use trust.Authority.Canonical.{Ascending, Ascending-cons}
use trust.Claim
use trust.Claim.{Claim}
use trust.Evidence.{Evidence, validate_evidence}
use trust.Attestation.Model.{
  Attestation, Error, check_order_after, check_order, validate_rest, hash_evidence,
  validate_contents, validate, invalid_evidence, unhashable_evidence, invalid_claim,
}

check_order_after-Ascending :
    (prev : Bytes) (hashes : List Bytes)
    → check_order_after prev hashes ≡ ok tt
    → Ascending bytes_lt (prev ∷ hashes)
unfolding check_order_after
check_order_after-Ascending prev [] e = (tt, tt)
check_order_after-Ascending prev (h ∷ hashes) e =
    let lt : bytes_lt prev h ≡ true = ground arith in
    Ascending-cons bytes_lt bytes_lt_trans prev h hashes lt
      (check_order_after-Ascending h hashes (rw lt at e))

check_order-Ascending :
    (hashes : List Bytes) → check_order hashes ≡ ok tt → Ascending bytes_lt hashes
unfolding check_order
check_order-Ascending [] e = tt
check_order-Ascending (h ∷ hashes) e = check_order_after-Ascending h hashes e

-- The hashes belong to the evidence, one each and in the same order, and each piece is valid.
abbrev pub AreHashes : (Evidence → Option Bytes) → List Evidence → List Bytes → Type 0
AreHashes evidence_hash [] hashes = hashes ≡ []
AreHashes evidence_hash (ev ∷ evidence) hashes =
    (validate_evidence (some ev) ≡ ok tt)
    × (h : Bytes) × (rest : List Bytes) × (evidence_hash ev ≡ some h)
    × (hashes ≡ h ∷ rest)
    × AreHashes evidence_hash evidence rest

hash_evidence-AreHashes :
    (evidence_hash : Evidence → Option Bytes) (evidence : List Evidence) (hashes : List Bytes)
    → hash_evidence evidence_hash evidence ≡ ok hashes
    → AreHashes evidence_hash evidence hashes
unfolding hash_evidence
hash_evidence-AreHashes evidence_hash [] hashes e = cc
hash_evidence-AreHashes evidence_hash (ev ∷ evidence) hashes e =
    let (_, valid, e') = >>=-eq-ok (map_err invalid_evidence (validate_evidence (some ev))) _ e in
    elim (Option-cases (evidence_hash ev)) [
      | inl n ↦
          let impossible : ◌≡◌ {A = Outcome Error (List Bytes)} (err unhashable_evidence)
              (ok hashes) =
            rw n at e' in
          cc
      | inr (h, s) ↦
          let (rest, e'', same) = >>=-eq-ok (hash_evidence evidence_hash evidence) _ (rw s at e') in
          (
            map_err-eq-ok invalid_evidence (validate_evidence (some ev)) valid,
            h,
            rest,
            s,
            sym (ok-injective same),
            hash_evidence-AreHashes evidence_hash evidence rest e'',
          )
    ]

validate_rest-parts :
    (att : Attestation) (hashes : List Bytes)
    → validate_rest att hashes ≡ ok tt
    → (known_status att.status ≡ true) × (check_order hashes ≡ ok tt)
unfolding validate_rest
validate_rest-parts att hashes h = ground arith

validate-parts :
    (evidence_hash : Evidence → Option Bytes) (att : Attestation)
    → validate evidence_hash (some att) ≡ ok tt
    → (0 < length att.issuer)
      × (0 < length att.authority_ref)
      × (validate_contents evidence_hash att ≡ ok tt)
unfolding validate
validate-parts evidence_hash att h = ground arith

-- If Validate accepts an attestation, then its issuer and its authority reference are not empty, its
-- claim is valid, its status is known, and every piece of its evidence is valid, with canonical hashes
-- that strictly ascend along the list: no evidence occurs twice, and no other order is accepted.
pub validate-ordered :
    (evidence_hash : Evidence → Option Bytes) (att : Attestation)
    → validate evidence_hash (some att) ≡ ok tt
    → (0 < length att.issuer)
      × (0 < length att.authority_ref)
      × (Claim.validate (some att.claim) ≡ ok tt)
      × (known_status att.status ≡ true)
      × (hashes : List Bytes) × AreHashes evidence_hash att.evidence hashes
      × Ascending bytes_lt hashes
unfolding validate_contents
validate-ordered evidence_hash att h =
    let (issuer, reference, contents) = validate-parts evidence_hash att h in
    let (_, claim_ok, h1) =
      >>=-eq-ok (map_err invalid_claim (Claim.validate (some att.claim))) _ contents in
    let (hashes, hashed, h2) = >>=-eq-ok (hash_evidence evidence_hash att.evidence) _ h1 in
    let (known, sorted) = validate_rest-parts att hashes h2 in
    (
      issuer,
      reference,
      map_err-eq-ok invalid_claim (Claim.validate (some att.claim)) claim_ok,
      known,
      hashes,
      hash_evidence-AreHashes evidence_hash att.evidence hashes hashed,
      check_order-Ascending hashes sorted,
    )
