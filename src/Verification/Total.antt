-- ===== src/Verification/Total.antt =====
-- verification/engine.go: Verify returns a result.
use trust.Prelude.{
  Outcome, panic, ◌>>=◌, map_err, map_err-eq-ok, refl, ℕ, suc, ◌≡◌, List, [], ◌∷◌, not, Option,
  none, some, All, if◌then◌else◌, length, ◌==◌, arith, ok, err, at, Bytes, bytes_eq, ℤ,
}
use trust.Merkle.Hash.{Hasher}
use trust.Canonical.{Encoders}
use trust.Authority.Model.{Authority, Time}
use trust.Evidence.{Evidence}
use trust.Signature.Registry.{PublicKey, Schemes, algorithm_for_public_key}
use trust.Verification.Model.{
  Error, AuthorityHop, KeyVersion, CommitmentProof, Inputs, evidence_integrity, key_binding,
}
use trust.Verification.Hex.{hex_encode}
use trust.Verification.Checks.{
  Trouble, fail_with, no_hop, Engine, check_windows, check_status, check_statuses, key_version_at,
  check_version, check_signing_key_version, content_of, bytes_or_nil, check_proofs,
}
use trust.Verification.Hops.{
  attempt, names_parent, resolve, same_public_key, same_key_algorithm, bind_key_matches, check_link,
  check_links, check_content, check_contents, check_authority_proofs,
}
use trust.Verification.Live.{
  Returns, >>=-Returns, ok-Returns, err-Returns, if-Returns, map_err-Returns, verify_subset-Returns,
  IsUsable, authority_hash-Returns, evidence_hash-Returns, verify_authority_proof-Returns,
}

-- A hop with an authority.
abbrev pub IsPresent : AuthorityHop → Type 0
IsPresent hop = (auth : Authority) × (hop.authority ≡ some auth)

pub at-Returns {ℓ} : {A : Type ℓ} (o : Option A) (a : A) → o ≡ some a → Returns {E = Trouble} (at o)
at-Returns none a e = absurd (cc e)
at-Returns (some b) a e = ok-Returns b

pub check_windows-Returns :
    (now : Time) (i : ℕ) (chain : List AuthorityHop)
    → All IsPresent chain
    → Returns (check_windows now i chain)
unfolding check_windows
check_windows-Returns now i [] all = ok-Returns tt
check_windows-Returns now i (hop ∷ chain) ((auth, is), all) =
    >>=-Returns _ _ (at-Returns hop.authority auth is)
      (λ a. λ q. ground (arith, check_windows-Returns now (suc i) chain all))

check_status-Returns : (status : ℤ) (i : ℕ) → Returns (check_status status i)
unfolding check_status
check_status-Returns status i = λ q. ground arith

pub check_statuses-Returns :
    (i : ℕ) (chain : List AuthorityHop) → All IsPresent chain → Returns (check_statuses i chain)
unfolding check_statuses
check_statuses-Returns i [] all = ok-Returns tt
check_statuses-Returns i (hop ∷ chain) ((auth, is), all) =
    >>=-Returns _ _ (at-Returns hop.authority auth is) (λ a.
      >>=-Returns _ _ (check_status-Returns a.status i)
        (λ _. check_statuses-Returns (suc i) chain all))

check_version-Returns :
    (used : ℕ) (now : Time) (o : Option KeyVersion) → Returns (check_version used now o)
unfolding check_version
check_version-Returns used now none = err-Returns _
check_version-Returns used now (some bound) = λ q. ground arith

pub check_signing_key_version-Returns :
    (history : List KeyVersion) (used : ℕ) (now : Time)
    → Returns (check_signing_key_version history used now)
unfolding check_signing_key_version
check_signing_key_version-Returns history used now =
    if-Returns (length history == 0) _ _ (ok-Returns tt)
      (check_version-Returns used now (key_version_at history now))

pub check_proofs-Returns :
    (verifies : CommitmentProof → Outcome (Unit {0}) (Unit {0})) (proofs : List CommitmentProof)
    → ((proof : CommitmentProof) → Returns (verifies proof))
    → Returns (check_proofs verifies proofs)
unfolding check_proofs
check_proofs-Returns verifies [] h = ok-Returns tt
check_proofs-Returns verifies (proof ∷ proofs) h =
    >>=-Returns _ _ (map_err-Returns _ (verifies proof) (h proof))
      (λ _. check_proofs-Returns verifies proofs h)

attempt-Returns : {E F A : Type 0} (o : Outcome E A) → Returns o → Returns {E = F} (attempt o)
unfolding attempt
attempt-Returns (ok a) h = ok-Returns (some a)
attempt-Returns (err e) h = ok-Returns none
attempt-Returns panic h = absurd (h refl)

-- The functions that the engine was given return on the inputs, or fail, but do not panic: the
-- resolver, the binder, the commitment checker, and on usable keys, which are also what the binder
-- returns, the marshalling.
pub record Answers {Document : Type 0} (schemes : Schemes) (engine : Engine Document)
    (inputs : Inputs Document) : Type 0 where
  pub resolves :
      (resolver : Bytes → Outcome (Unit {0}) Document)
      → inputs.identity_resolver ≡ some resolver
      → (did : Bytes) → Returns (resolver did)
  pub binds : (key_id : Bytes) (doc : Document) → Returns (engine.bind key_id doc)
  pub bound_key :
      (key_id : Bytes) (doc : Document) (key : PublicKey)
      → engine.bind key_id doc ≡ ok key
      → IsUsable schemes key
  pub marshals : (key : PublicKey) → IsUsable schemes key → Returns (engine.marshal_public_key key)
  pub checks :
      (checker : CommitmentProof → Outcome (Unit {0}) (Unit {0}))
      → engine.commitment_checker ≡ some checker
      → (proof : CommitmentProof) → Returns (checker proof)

-- `>>=-Returns`, where the second part may use what the first returned.
>>=-ok-Returns :
    {E A B : Type 0} (m : Outcome E A) (k : A → Outcome E B)
    → Returns m
    → ((a : A) → m ≡ ok a → Returns (k a))
    → Returns (m >>= k)
>>=-ok-Returns (ok a) k h f = f a refl
>>=-ok-Returns (err e) k h f = λ q. absurd (cc q)
>>=-ok-Returns panic k h f = absurd (h refl)

module _ {Document : Type 0} (engine : Engine Document) where
  pub resolve-Returns :
      (resolver : Bytes → Outcome (Unit {0}) Document) (e : Error) (subject : Bytes)
      → ((did : Bytes) → Returns (resolver did))
      → Returns (resolve engine resolver e subject)
  unfolding resolve
  resolve-Returns resolver e subject h = parsed-Returns (engine.parse_did subject)
    where
      parsed-Returns :
          (o : Option Bytes)
          → Returns {E = Trouble} (elim o [
            | none ↦ err (fail_with e no_hop)
            | some did ↦ map_err (λ _. fail_with e no_hop) (resolver did)
          ])
      parsed-Returns none = err-Returns _
      parsed-Returns (some did) = map_err-Returns _ (resolver did) (h did)

  same_key_algorithm-Returns :
      (a b : PublicKey)
      → Returns (algorithm_for_public_key a)
      → Returns (algorithm_for_public_key b)
      → Returns (same_key_algorithm engine a b)
  unfolding same_key_algorithm
  same_key_algorithm-Returns a b h k =
      >>=-Returns _ _ (map_err-Returns _ (algorithm_for_public_key a) h) (λ x.
        >>=-Returns _ _ (map_err-Returns _ (algorithm_for_public_key b) k) (λ y. λ q. ground arith))

  same_public_key-Returns :
      (a b : PublicKey)
      → Returns (engine.marshal_public_key a)
      → Returns (engine.marshal_public_key b)
      → Returns (same_public_key engine a b)
  unfolding same_public_key
  same_public_key-Returns a b h k =
      >>=-Returns _ _ (attempt-Returns (engine.marshal_public_key a) h)
        (λ x. >>=-Returns _ _ (attempt-Returns (engine.marshal_public_key b) k) (λ y. ok-Returns _))

  pub bind_key_matches-Returns :
      (schemes : Schemes) (inputs : Inputs Document)
      (resolver : Bytes → Outcome (Unit {0}) Document) (subject key_id : Bytes) (want : PublicKey)
      → Answers schemes engine inputs
      → inputs.identity_resolver ≡ some resolver
      → IsUsable schemes want
      → Returns (bind_key_matches engine resolver subject key_id want)
  unfolding bind_key_matches
  bind_key_matches-Returns schemes inputs resolver subject key_id want answers is usable =
      >>=-Returns _ _ (resolve-Returns resolver key_binding subject (answers.resolves resolver is))
        (λ doc. >>=-ok-Returns _ _ (map_err-Returns _ _ (answers.binds key_id doc)) (λ bound e.
          let own =
            answers.bound_key key_id doc bound (map_err-eq-ok _ (engine.bind key_id doc) e) in
          >>=-Returns _ _
            (same_public_key-Returns bound want (answers.marshals bound own)
              (answers.marshals want usable))
            (λ same.
              if-Returns (not same) _ _ (err-Returns _)
                (same_key_algorithm-Returns bound want own.has_algorithm usable.has_algorithm))))

module _ ⦃hasher : Hasher⦄ (encoders : Encoders) where
  check_link-Returns :
      (i : ℕ) (child parent : AuthorityHop)
      → IsPresent child
      → Returns (check_link encoders i child parent)
  unfolding check_link
  check_link-Returns i child parent (auth, is) =
      >>=-Returns _ _ (map_err-Returns _ _ (authority_hash-Returns encoders parent.authority))
        (λ ph. >>=-Returns _ _ (at-Returns child.authority auth is) (λ a.
          if-Returns (not (names_parent a.parent ph)) _ _ (err-Returns _)
            (map_err-Returns _ _ (verify_subset-Returns child.authority parent.authority))))

  pub check_links-Returns :
      (i : ℕ) (chain : List AuthorityHop)
      → All IsPresent chain
      → Returns (check_links encoders i chain)
  unfolding check_links
  check_links-Returns i [] all = ok-Returns tt
  check_links-Returns i (child ∷ []) all = ok-Returns tt
  check_links-Returns i (child ∷ parent ∷ chain) (is, all) =
      >>=-Returns _ _ (check_link-Returns i child parent is)
        (λ _. check_links-Returns (suc i) (parent ∷ chain) all)

  content-Returns :
      (ev : Evidence) (o : Option Bytes)
      → Returns {E = Trouble} {A = Unit {0}} (elim o [
        | none ↦ err (fail_with evidence_integrity no_hop)
        | some content ↦
            if bytes_eq (hasher.sum content) (bytes_or_nil ev.content_hash)
            then ok tt
            else err (fail_with evidence_integrity no_hop)
      ])
  content-Returns ev none = err-Returns _
  content-Returns ev (some content) = if-Returns _ _ _ (ok-Returns tt) (err-Returns _)

  pub check_contents-Returns :
      (supplied : List (Bytes × Bytes)) (evidence : List Evidence)
      → Returns (check_contents encoders supplied evidence)
  unfolding check_contents check_content
  check_contents-Returns supplied [] = ok-Returns tt
  check_contents-Returns supplied (ev ∷ evidence) =
      >>=-Returns (check_content encoders supplied ev) _
        (>>=-Returns _ _ (map_err-Returns _ _ (evidence_hash-Returns encoders (some ev)))
          (λ digest. content-Returns ev (content_of supplied (hex_encode digest))))
        (λ _. check_contents-Returns supplied evidence)

  module _ (schemes : Schemes) where
    pub check_authority_proofs-Returns :
        (i : ℕ) (chain : List AuthorityHop)
        → All (λ hop. IsUsable schemes hop.public_key) chain
        → Returns (check_authority_proofs encoders schemes i chain)
    unfolding check_authority_proofs
    check_authority_proofs-Returns i [] all = ok-Returns tt
    check_authority_proofs-Returns i (hop ∷ chain) (usable, all) =
        >>=-Returns _ _
          (map_err-Returns _ _
            (verify_authority_proof-Returns encoders schemes hop.authority hop.public_key usable))
          (λ _. check_authority_proofs-Returns (suc i) chain all)
