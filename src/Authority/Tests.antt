-- ===== src/Authority/Tests.antt =====
-- authority/validate.go on concrete authorities.
use trust.Prelude.{[], ◌∷◌, ◌≡◌, ◌↔◌, refl, none, some, ok, err, codes, pos, bytes_lt, bytes_eq}
use trust.Authority.Model.{Scope, Authority, status_active}
use trust.Authority.Validate.{
  validate_capabilities, validate_scope, validate, unsorted_capabilities,
}
use trust.Authority.Canonical.{IsCanonical, validate_iff}

abbrev two_resources : Scope
two_resources = record {
  resources = codes "doc/1" ∷ codes "doc/2" ∷ [];
  subjects = [];
  actions = codes "read" ∷ [];
  organizations = [];
  geography = [];
  channels = [];
  time_window = none;
  quantity = none;
  monetary = none;
}

abbrev issuer : Authority
issuer = record {
  subject = codes "alice";
  parent = none;
  capabilities =
      record { namespace = codes "doc"; name = codes "read" }
      ∷ record { namespace = codes "doc"; name = codes "write" }
      ∷ [];
  scope = two_resources;
  validity = record { not_before = 10; not_after = 20 };
  delegation_constraints = record { max_depth = some (pos 1) };
  status = status_active;
  proof = record { algorithm = pos 1; key_id = []; signature = [] };
}

abbrev unsorted : Authority
unsorted = record issuer {
  capabilities =
      record { namespace = codes "doc"; name = codes "write" }
      ∷ record { namespace = codes "doc"; name = codes "read" }
      ∷ [];
}

validate-issuer : validate (some issuer) ≡ ok tt
unfolding validate validate_capabilities bytes_lt bytes_eq validate_scope
validate-issuer = refl

validate-unsorted : validate (some unsorted) ≡ err unsorted_capabilities
unfolding validate validate_capabilities bytes_lt bytes_eq validate_scope
validate-unsorted = refl

validate_iff_example : (validate (some issuer) ≡ ok tt) ↔ IsCanonical issuer
validate_iff_example = validate_iff issuer
