-- ===== src/Delegation/Tests.antt =====
-- delegation/delegation.go on concrete authorities.
use trust.Prelude.{
  [], ◌∷◌, ◌≡◌, ◌≤◌, ◌^◌, ◌↔◌, refl, none, some, All, length, arith, ok, err, Bytes, codes, Option,
  pos, ranked, bytes_eq,
}
use trust.Authority.Model.{Capability, Scope, Authority, status_active}
use trust.Delegation.Subset.{
  capability_subset, scope_subset, validity_subset, delegation_depth_ok, verify_subset, derive,
  issue_under, depth_escalation, DelegationSpec,
}
use trust.Delegation.Power.{Request, first, Permits}
use trust.Delegation.Permits.{verify_subset-Permits, Linked, Linked-Permits}
use trust.Delegation.Derivation.{derive-attenuates}
use trust.Delegation.Depth.{root_of, Linked-length, HasInt64Depth, depth_zero-chains}

abbrev read : Capability
read = record { namespace = codes "doc"; name = codes "read" }

abbrev write : Capability
write = record { namespace = codes "doc"; name = codes "write" }

abbrev readable : Scope
readable = record {
  resources = codes "doc/1" ∷ codes "doc/2" ∷ [];
  subjects = [];
  actions = codes "get" ∷ [];
  organizations = [];
  geography = [];
  channels = [];
  time_window = some (record { start = 10; end = 20 });
  quantity = some (record { unit = codes "pages"; limit = pos 5 });
  monetary = none;
}

abbrev narrower : Scope
narrower = record readable {
  resources = codes "doc/2" ∷ [];
  quantity = some (record { unit = codes "pages"; limit = pos 3 });
}

abbrev root : Authority
root = record {
  subject = codes "alice";
  parent = none;
  capabilities = read ∷ write ∷ [];
  scope = readable;
  validity = record { not_before = 10; not_after = 20 };
  delegation_constraints = record { max_depth = some (pos 2) };
  status = status_active;
  proof = record { algorithm = pos 1; key_id = []; signature = [] };
}

abbrev middle : Authority
middle = record root {
  subject = codes "bob";
  parent = some (codes "ref");
  capabilities = write ∷ [];
  scope = narrower;
  delegation_constraints = record { max_depth = some (pos 1) };
}

abbrev leaf : Authority
leaf = record middle {
  subject = codes "carol";
  validity = record { not_before = 12; not_after = 18 };
  delegation_constraints = record { max_depth = some (pos 0) };
}

abbrev request : Request
request = record {
  capability = write;
  resource = codes "doc/2";
  on_behalf_of = codes "dave";
  action = codes "get";
  organization = codes "acme";
  region = codes "nl";
  channel = codes "web";
  time = 15;
  unit = codes "pages";
  count = pos 2;
  currency = codes "eur";
  amount = ranked 7;
}

leaf-middle : verify_subset (some leaf) (some middle) ≡ ok tt
unfolding verify_subset capability_subset bytes_eq scope_subset validity_subset delegation_depth_ok
leaf-middle = refl

middle-root : verify_subset (some middle) (some root) ≡ ok tt
unfolding verify_subset capability_subset bytes_eq scope_subset validity_subset delegation_depth_ok
middle-root = refl

leaf-leaf : verify_subset (some leaf) (some leaf) ≡ err depth_escalation
unfolding verify_subset capability_subset bytes_eq scope_subset validity_subset delegation_depth_ok
leaf-leaf = refl

chain-Linked : Linked (leaf ∷ middle ∷ root ∷ [])
chain-Linked = (leaf-middle, (middle-root, tt))

leaf-Permits : Permits leaf request
leaf-Permits = record {
  holds = first;
  in_scope = record {
    in_resources = first;
    in_subjects = tt;
    in_actions = first;
    in_organizations = tt;
    in_geography = tt;
    in_channels = tt;
    in_window = omega arith;
    in_quantity = (refl, refl);
    in_monetary = tt;
  };
  not_early = omega arith;
  not_late = omega arith;
}

verify_subset-Permits_example : Permits middle request
verify_subset-Permits_example = verify_subset-Permits leaf middle request leaf-middle leaf-Permits

Linked-Permits_example : All (λ auth. Permits auth request) (leaf ∷ middle ∷ root ∷ [])
Linked-Permits_example = Linked-Permits leaf (middle ∷ root ∷ []) request chain-Linked leaf-Permits

Linked-length_example : length (middle ∷ root ∷ []) ≤ 2
Linked-length_example =
    Linked-length leaf (middle ∷ root ∷ []) 2 chain-Linked ((0, refl), ((1, refl), ((2, refl), tt)))
      refl

depth_zero-chains_example : (5 ≤ 2 ^ 63) ↔ (
    (last : Authority) × (chain : _) × Linked (last ∷ chain)
    × All HasInt64Depth (last ∷ chain)
    × (root_of last chain ≡ leaf)
    × (length chain ≡ 5))
depth_zero-chains_example = depth_zero-chains leaf 5 leaf-leaf refl

abbrev narrow_spec : DelegationSpec
narrow_spec = record {
  subject = codes "bob";
  capabilities = write ∷ [];
  scope = narrower;
  validity = record { not_before = 10; not_after = 20 };
  delegation_constraints = record { max_depth = some (pos 1) };
}

-- Every authority under the same reference.
abbrev reference_of : Authority → Option Bytes
reference_of auth = some (codes "ref")

abbrev derived : Authority
derived = record middle { proof = record { algorithm = pos 0; key_id = []; signature = [] } }

derive-root : derive reference_of (some root) narrow_spec ≡ ok derived
unfolding derive issue_under verify_subset capability_subset bytes_eq scope_subset validity_subset
    delegation_depth_ok
derive-root = refl

derive-attenuates_example :
    (reference_of root ≡ derived.parent)
    × (derived.subject ≡ narrow_spec.subject)
    × (derived.capabilities ≡ narrow_spec.capabilities)
    × (derived.scope ≡ narrow_spec.scope)
    × (derived.validity ≡ narrow_spec.validity)
    × (verify_subset (some derived) (some root) ≡ ok tt)
derive-attenuates_example = derive-attenuates reference_of root narrow_spec derived derive-root
