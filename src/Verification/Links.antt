-- ===== src/Verification/Links.antt =====
-- verification/provenance_verify.go: what VerifyProvenance accepts.
use trust.Prelude.{
  suc, ◌≡◌, refl, ap, ◌∙◌, subst, ◌↔◌, ◌⊎◌, inl, inr, List, [], ◌∷◌, Bool, true, not, Option, none,
  some, and-eq_true, if◌then◌else◌, length, ◌==◌, arith, Outcome, ok, err, >>=-eq-ok, Bytes,
  bytes_eq→eq, bytes_eq_refl,
}
use trust.Merkle.Hash.{Hasher}
use trust.Canonical.{Encoders}
use trust.Verification.Model.{
  Error, provenance_mismatch, NodeKind, node_attestation, node_claim, node_signing_key,
  node_authority, node_delegation, node_root_authority, node_identity, node_number, Link,
  Provenance, Inputs,
}
use trust.Verification.Hex.{hex_decode}
use trust.Verification.Trace.{
  ref_compare, ref_equal, link_equal, compare_links, verify_links, build_provenance,
  verify_provenance,
}

-- The same text, or the same bytes in hex of either case.
abbrev pub SameRef : Bytes → Bytes → Type 0
SameRef a b = (a ≡ b) ⊎ ((d : Bytes) × (hex_decode a ≡ some d) × (hex_decode b ≡ some d))

ref_compare-SameRef :
    (da db : Option Bytes) (a b : Bytes)
    → hex_decode a ≡ da
    → hex_decode b ≡ db
    → ref_compare da db a b ≡ true
    → SameRef a b
unfolding ref_compare
ref_compare-SameRef none db a b e f h = inl (bytes_eq→eq a b h)
ref_compare-SameRef (some da) none a b e f h = inl (bytes_eq→eq a b h)
ref_compare-SameRef (some da) (some db) a b e f h =
    let same : da ≡ db = bytes_eq→eq da db h in inr (db, e ∙ ap some same, f)

ref_compare_refl : (d : Option Bytes) (a : Bytes) → ref_compare d d a a ≡ true
unfolding ref_compare
ref_compare_refl none a = bytes_eq_refl a
ref_compare_refl (some d) a = bytes_eq_refl d

ref_equal_iff : (a b : Bytes) → (ref_equal a b ≡ true) ↔ SameRef a b
unfolding ref_equal
ref_equal_iff a b = (
  (λ h. ref_compare-SameRef (hex_decode a) (hex_decode b) a b refl refl h),
  λ s. elim s [
    | inl same ↦
        subst (λ c. ref_compare (hex_decode a) (hex_decode c) a c ≡ true) same
          (ref_compare_refl (hex_decode a) a)
    | inr decoded ↦ let (d, e, f) = decoded in rw (e, f) (bytes_eq_refl d)
  ],
)

node_number-eq : (a b : NodeKind) → (node_number a == node_number b) ≡ true → a ≡ b
node_number-eq node_attestation node_attestation h = refl
node_number-eq node_claim node_claim h = refl
node_number-eq node_signing_key node_signing_key h = refl
node_number-eq node_authority node_authority h = refl
node_number-eq node_delegation node_delegation h = refl
node_number-eq node_root_authority node_root_authority h = refl
node_number-eq node_identity node_identity h = refl
node_number-eq a b h = absurd (cc h)

node_number_refl : (a : NodeKind) → (node_number a == node_number a) ≡ true
node_number_refl a = ground arith

pub record SameLink (a b : Link) : Type 0 where
  pub same_kind : a.kind ≡ b.kind
  pub same_ref : SameRef a.ref b.ref
  pub same_subject : SameRef a.subject b.subject
  pub same_key_id : SameRef a.key_id b.key_id
  pub same_parent : SameRef a.parent b.parent

link_equal_iff : (a b : Link) → (link_equal a b ≡ true) ↔ SameLink a b
unfolding link_equal
link_equal_iff a b = (
  (λ h.
      let (k, h1) = and-eq_true (node_number a.kind == node_number b.kind) _ h in
      let (r, h2) = and-eq_true (ref_equal a.ref b.ref) _ h1 in
      let (s, h3) = and-eq_true (ref_equal a.subject b.subject) _ h2 in
      let (i, p) = and-eq_true (ref_equal a.key_id b.key_id) _ h3 in
      record {
        same_kind = node_number-eq a.kind b.kind k;
        same_ref = (ref_equal_iff a.ref b.ref).0 r;
        same_subject = (ref_equal_iff a.subject b.subject).0 s;
        same_key_id = (ref_equal_iff a.key_id b.key_id).0 i;
        same_parent = (ref_equal_iff a.parent b.parent).0 p;
      }),
  λ s.
      let k : (node_number a.kind == node_number b.kind) ≡ true =
        subst (λ n. (node_number a.kind == node_number n) ≡ true) s.same_kind
          (node_number_refl a.kind) in
      rw
        (
          k,
          (ref_equal_iff a.ref b.ref).1 s.same_ref,
          (ref_equal_iff a.subject b.subject).1 s.same_subject,
          (ref_equal_iff a.key_id b.key_id).1 s.same_key_id,
        )
        ((ref_equal_iff a.parent b.parent).1 s.same_parent),
)

abbrev pub SameLinks : List Link → List Link → Type 0
SameLinks [] [] = Unit {0}
SameLinks [] (b ∷ expected) = ¬ Unit {0}
SameLinks (a ∷ links) [] = ¬ Unit {0}
SameLinks (a ∷ links) (b ∷ expected) = SameLink a b × SameLinks links expected

compare-step :
    (equal : Bool) (after : Outcome Error (Unit {0}))
    → (if not equal then err provenance_mismatch else after) ≡ ok tt
    → (equal ≡ true) × (after ≡ ok tt)
compare-step equal after h = ground arith

compare_links-SameLinks :
    (links expected : List Link)
    → length links ≡ length expected
    → compare_links links expected ≡ ok tt
    → SameLinks links expected
unfolding compare_links
compare_links-SameLinks [] [] e h = tt
compare_links-SameLinks [] (b ∷ expected) e h = absurd (omega arith)
compare_links-SameLinks (a ∷ links) [] e h = absurd (omega arith)
compare_links-SameLinks (a ∷ links) (b ∷ expected) e h =
    let (same, after) = compare-step (link_equal a b) (compare_links links expected) h in
    ((link_equal_iff a b).0 same, compare_links-SameLinks links expected (omega arith) after)

SameLinks-compare_links :
    (links expected : List Link)
    → SameLinks links expected
    → (length links ≡ length expected) × (compare_links links expected ≡ ok tt)
unfolding compare_links
SameLinks-compare_links [] [] s = (refl, refl)
SameLinks-compare_links [] (b ∷ expected) s = absurd (s tt)
SameLinks-compare_links (a ∷ links) [] s = absurd (s tt)
SameLinks-compare_links (a ∷ links) (b ∷ expected) (same, s) =
    let (width, after) = SameLinks-compare_links links expected s in
    (ap suc width, rw ((link_equal_iff a b).1 same) after)

verify_links_iff :
    (links expected : List Link) → (verify_links links expected ≡ ok tt) ↔ SameLinks links expected
unfolding verify_links
verify_links_iff links expected = (
  (λ h.
      let (width, after) =
        compare-step (length links == length expected) (compare_links links expected) h in
      compare_links-SameLinks links expected (ground arith) after),
  λ s.
      let (width, after) = SameLinks-compare_links links expected s in
      let counted : (length links == length expected) ≡ true = ground arith in rw counted after,
)

SameLinks-refl : (links : List Link) → SameLinks links links
SameLinks-refl [] = tt
SameLinks-refl (a ∷ links) = (
  record {
    same_kind = refl;
    same_ref = inl refl;
    same_subject = inl refl;
    same_key_id = inl refl;
    same_parent = inl refl;
  },
  SameLinks-refl links,
)

module _ ⦃hasher : Hasher⦄ (encoders : Encoders) {Document : Type 0} where
  -- VerifyProvenance accepts a trace exactly if BuildProvenance makes one from the inputs with as many
  -- links, and each link has the kind of its counterpart and in each of its four other fields the same
  -- text, or hex text of the same bytes.
  pub verify_provenance_iff :
      (links : Provenance) (inputs : Inputs Document)
      → (verify_provenance encoders (some links) inputs ≡ ok tt) ↔ (
          (expected : Provenance) × (build_provenance encoders inputs ≡ ok expected)
          × SameLinks links expected)
  unfolding verify_provenance
  verify_provenance_iff links inputs = (
    (λ h.
        let (expected, built, h1) = >>=-eq-ok (build_provenance encoders inputs) _ h in
        (expected, built, (verify_links_iff links expected).0 h1)),
    λ s. let (expected, built, same) = s in rw built ((verify_links_iff links expected).1 same),
  )

  -- The trace that BuildProvenance makes from some inputs, VerifyProvenance accepts for them.
  pub verify_provenance-build :
      (links : Provenance) (inputs : Inputs Document)
      → build_provenance encoders inputs ≡ ok links
      → verify_provenance encoders (some links) inputs ≡ ok tt
  verify_provenance-build links inputs built =
      (verify_provenance_iff links inputs).1 (links, built, SameLinks-refl links)
