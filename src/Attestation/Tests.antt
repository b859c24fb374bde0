-- ===== src/Attestation/Tests.antt =====
-- attestation/ on concrete attestations.
use trust.Prelude.{
  [], ◌∷◌, ◌≡◌, ◌<◌, refl, none, some, Option, List, arith, ok, true, false, Bytes, codes, pos,
  ranked, bytes_eq_refl, bytes_lt, bytes_eq, length,
}
use trust.Authority.Model.{Capability, Scope, Authority, status_active}
use trust.Authority.Validate.{validate_scope, known_status}
use trust.Authority.Canonical.{Ascending}
use trust.Claim
use trust.Claim.{Claim}
use trust.Evidence.{Evidence, validate_evidence}
use trust.Delegation.Power.{Request, Member, first, later, Allows, InScope}
use trust.Attestation.Model.{
  Attestation, check_order, hash_evidence, validate, validate_contents, validate_rest,
}
use trust.Attestation.Authorize.{
  capability_granted, scope_subset, validity_contains, validity_subset, found_in,
  verify_authorization,
}
use trust.Attestation.Scopes.{IsFilled, scope_subset-InScope}
use trust.Attestation.Granted.{
  IsGranted, verify_authorization-IsGranted, drop_resources, scope_subset-drop_resources,
  scope_subset-unconstrained,
}
use trust.Attestation.Ordered.{AreHashes, validate-ordered}

abbrev read : Capability
read = record { namespace = codes "doc"; name = codes "read" }

abbrev filled : Scope
filled = record {
  resources = codes "doc/1" ∷ codes "doc/2" ∷ [];
  subjects = codes "dave" ∷ [];
  actions = codes "get" ∷ [];
  organizations = codes "acme" ∷ [];
  geography = codes "nl" ∷ [];
  channels = codes "web" ∷ [];
  time_window = none;
  quantity = none;
  monetary = some (record { currency = codes "eur"; limit = ranked 100 });
}

abbrev narrow : Scope
narrow = record filled {
  resources = codes "doc/2" ∷ [];
  monetary = some (record { currency = codes "eur"; limit = ranked 50 });
}

abbrev request : Request
request = record {
  capability = read;
  resource = codes "doc/2";
  on_behalf_of = codes "dave";
  action = codes "get";
  organization = codes "acme";
  region = codes "nl";
  channel = codes "web";
  time = 15;
  unit = codes "pages";
  count = pos 2;
  currency = codes "eur";
  amount = ranked 7;
}

abbrev auth : Authority
auth = record {
  subject = codes "alice";
  parent = none;
  capabilities = read ∷ [];
  scope = filled;
  validity = record { not_before = 10; not_after = 20 };
  delegation_constraints = record { max_depth = none };
  status = status_active;
  proof = record { algorithm = pos 1; key_id = []; signature = [] };
}

abbrev claim : Claim
claim = record {
  issuer = codes "alice";
  subject = codes "bob";
  claim_type = record { namespace = codes "doc"; name = codes "seen" };
  value = some (codes "true");
  scope = narrow;
  validity = record { not_before = 11; not_after = 19 };
  provenance = record { source = []; method = []; timestamp = 0 };
}

abbrev evidence_named : Bytes → Evidence
evidence_named name = record {
  identifier = name;
  content_hash = some (codes "0123456789abcdef0123456789abcdef");
  media_type = codes "text/plain";
  locator = codes "https://example.org";
  provenance = record { source = []; method = []; timestamp = 0 };
  metadata = [];
}

abbrev att : Attestation
att = record {
  issuer = codes "alice";
  signing_key_id = codes "key";
  signing_key_version = 1;
  authority_ref = codes "ref";
  capability = read;
  claim = claim;
  evidence = evidence_named (codes "a") ∷ evidence_named (codes "b") ∷ [];
  issued_at = 11;
  validity = record { not_before = 11; not_after = 19 };
  status = status_active;
  algorithm = pos 1;
  signature = [];
}

abbrev reference_of : Authority → Option Bytes
reference_of a = some (codes "ref")

-- The identifier in place of the hash.
abbrev hash_of : Evidence → Option Bytes
hash_of ev = some ev.identifier

verify_authorization-att : verify_authorization reference_of 15 (some att) (some auth) ≡ ok tt
unfolding verify_authorization capability_granted scope_subset bytes_eq validity_contains
    validity_subset
verify_authorization-att = refl

verify_authorization-IsGranted_example : IsGranted reference_of 15 att auth
verify_authorization-IsGranted_example =
    verify_authorization-IsGranted reference_of 15 att auth verify_authorization-att

narrow-accepted : scope_subset narrow filled ≡ true
unfolding scope_subset bytes_eq
narrow-accepted = refl

narrow-IsFilled : IsFilled narrow
narrow-IsFilled = record {
  resources_filled = λ e. cc;
  subjects_filled = λ e. cc;
  actions_filled = λ e. cc;
  organizations_filled = λ e. cc;
  geography_filled = λ e. cc;
  channels_filled = λ e. cc;
}

narrow-InScope : InScope narrow request
narrow-InScope = record {
  in_resources = first;
  in_subjects = first;
  in_actions = first;
  in_organizations = first;
  in_geography = first;
  in_channels = first;
  in_window = tt;
  in_quantity = tt;
  in_monetary = (refl, refl);
}

scope_subset-InScope_example : InScope filled request
scope_subset-InScope_example =
    scope_subset-InScope narrow filled request narrow-accepted narrow-IsFilled (λ e. cc)
      narrow-InScope

-- A request on a resource that the authority does not list.
abbrev elsewhere : Request
elsewhere = record request { resource = codes "doc/3" }

elsewhere-InScope : InScope (record filled { resources = codes "doc/3" ∷ [] }) elsewhere
elsewhere-InScope = record {
  in_resources = first;
  in_subjects = first;
  in_actions = first;
  in_organizations = first;
  in_geography = first;
  in_channels = first;
  in_window = tt;
  in_quantity = tt;
  in_monetary = (refl, refl);
}

Member-found_in : (super : List Bytes) (s : Bytes) → Member s super → found_in super s ≡ true
unfolding found_in
Member-found_in [] s m = elim m [ ]
Member-found_in (v ∷ super) s first = rw (bytes_eq_refl v) refl
Member-found_in (v ∷ super) s (later m) = ground (arith, Member-found_in super s m)

elsewhere-not_listed : ¬ Allows filled.resources elsewhere.resource
unfolding found_in bytes_eq
elsewhere-not_listed m =
    let found : false ≡ true =
      Member-found_in (codes "doc/1" ∷ codes "doc/2" ∷ []) (codes "doc/3") m in
    cc

scope_subset-drop_resources_example :
    (scope_subset (drop_resources filled) filled ≡ true)
    × InScope (drop_resources filled) elsewhere
    × (¬ InScope filled elsewhere)
scope_subset-drop_resources_example =
    scope_subset-drop_resources filled elsewhere elsewhere-InScope elsewhere-not_listed

scope_subset-unconstrained_example : scope_subset filled (drop_resources filled) ≡ false
scope_subset-unconstrained_example =
    scope_subset-unconstrained filled (drop_resources filled) (codes "doc/1") (codes "doc/2" ∷ [])
      refl refl

validate-att : validate hash_of (some att) ≡ ok tt
unfolding validate validate_contents hash_evidence validate_rest Claim.validate validate_scope
    validate_evidence check_order bytes_lt
validate-att = refl

validate-ordered_example :
    (0 < length att.issuer)
    × (0 < length att.authority_ref)
    × (Claim.validate (some att.claim) ≡ ok tt)
    × (known_status att.status ≡ true)
    × (hashes : List Bytes) × AreHashes hash_of att.evidence hashes
    × Ascending bytes_lt hashes
validate-ordered_example = validate-ordered hash_of att validate-att
