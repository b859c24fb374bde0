-- ===== src/Delegation/Subset.antt =====
-- delegation/delegation.go: VerifySubset and its parts, and Derive. The canonical hash of an
-- authority (canonical/, JSON by the Go library) and the hex encoding are parameters of Derive.
use trust.Prelude.{
  List, [], ◌∷◌, Bool, true, false, not, ◌&&◌, ◌||◌, Option, none, some, if◌then◌else◌, length,
  ◌==◌, ltb, Outcome, ok, err, ◌>>=◌, Bytes, bytes_eq, int_le, int_lt, float_le, pos,
}
use trust.Authority.Model.{
  Capability, capability_eq, TimeWindow, Quantity, Monetary, Scope, Validity, DelegationConstraints,
  Authority, status_active, Proof,
}

pub data Error : Type 0 where
  nil_authority capability_escalation scope_escalation validity_escalation depth_escalation
        hash_failed :
      Error

-- `slices.Contains(parent, c)`.
unfoldable pub has_capability : List Capability → Capability → Bool
has_capability [] c = false
has_capability (p ∷ parent) c = capability_eq p c || has_capability parent c

unfoldable pub capability_subset : List Capability → List Capability → Bool
unfolding has_capability
capability_subset parent [] = true
capability_subset parent (c ∷ child) =
    let rest = capability_subset parent child in
    if not (has_capability parent c) then false else rest

-- `_, ok := parentSet[s]`.
unfoldable pub has_string : List Bytes → Bytes → Bool
has_string [] s = false
has_string (p ∷ parent) s = bytes_eq p s || has_string parent s

unfoldable pub all_in : List Bytes → List Bytes → Bool
unfolding has_string
all_in parent [] = true
all_in parent (s ∷ child) =
    let rest = all_in parent child in if not (has_string parent s) then false else rest

unfoldable pub string_slice_subset : List Bytes → List Bytes → Bool
unfolding all_in
string_slice_subset parent child =
    if length parent == 0 then true else if length child == 0 then false else all_in parent child

unfoldable pub time_window_subset : Option TimeWindow → Option TimeWindow → Bool
time_window_subset none none = true
time_window_subset (some p) none = false
time_window_subset none (some c) = true
time_window_subset (some p) (some c) = not (ltb c.start p.start) && not (ltb p.end c.end)

unfoldable pub quantity_subset : Option Quantity → Option Quantity → Bool
quantity_subset none none = true
quantity_subset (some p) none = false
quantity_subset none (some c) = true
quantity_subset (some p) (some c) = bytes_eq c.unit p.unit && int_le c.limit p.limit

unfoldable pub monetary_subset : Option Monetary → Option Monetary → Bool
monetary_subset none none = true
monetary_subset (some p) none = false
monetary_subset none (some c) = true
monetary_subset (some p) (some c) = bytes_eq c.currency p.currency && float_le c.limit p.limit

unfoldable pub scope_subset : Scope → Scope → Bool
unfolding string_slice_subset time_window_subset quantity_subset monetary_subset
scope_subset parent child =
    string_slice_subset parent.resources child.resources
    && (string_slice_subset parent.subjects child.subjects
        && (string_slice_subset parent.actions child.actions
            && (string_slice_subset parent.organizations child.organizations
                && (string_slice_subset parent.geography child.geography
                    && (string_slice_subset parent.channels child.channels
                        && (time_window_subset parent.time_window child.time_window
                            && (quantity_subset parent.quantity child.quantity
                                && monetary_subset parent.monetary child.monetary)))))))

unfoldable pub validity_subset : Validity → Validity → Bool
validity_subset parent child =
    not (ltb child.not_before parent.not_before) && not (ltb parent.not_after child.not_after)

-- The dereference stands behind the nil test.
unfoldable pub delegation_depth_ok : DelegationConstraints → DelegationConstraints → Bool
delegation_depth_ok parent child = elim (parent.max_depth) [
  | none ↦ true
  | some n ↦ elim (child.max_depth) [ none ↦ false | some m ↦ int_lt m n ]
]

-- The checks of VerifySubset on two authorities.
unfoldable pub verify_authorities : Authority → Authority → Outcome Error (Unit {0})
verify_authorities child parent =
    if not (capability_subset parent.capabilities child.capabilities)
    then err capability_escalation
    else if not (scope_subset parent.scope child.scope)
    then err scope_escalation
    else if not (validity_subset parent.validity child.validity)
    then err validity_escalation
    else if not (delegation_depth_ok parent.delegation_constraints child.delegation_constraints)
    then err depth_escalation
    else ok tt

unfoldable pub verify_subset : Option Authority → Option Authority → Outcome Error (Unit {0})
unfolding verify_authorities
verify_subset none parent = err nil_authority
verify_subset (some child) none = err nil_authority
verify_subset (some child) (some parent) = verify_authorities child parent

pub record DelegationSpec : Type 0 where
  pub subject : Bytes
  pub capabilities : List Capability
  pub scope : Scope
  pub validity : Validity
  pub delegation_constraints : DelegationConstraints

abbrev zero_proof : Proof
zero_proof = record { algorithm = pos 0; key_id = []; signature = [] }

-- The child before its Parent is set.
abbrev pub child_of : DelegationSpec → Authority
child_of spec = record {
  subject = spec.subject;
  parent = none;
  capabilities = spec.capabilities;
  scope = spec.scope;
  validity = spec.validity;
  delegation_constraints = spec.delegation_constraints;
  status = status_active;
  proof = zero_proof;
}

-- What follows the check in Derive, on the parent's reference.
unfoldable pub issue_under : Option Bytes → DelegationSpec → Outcome Error Authority
issue_under none spec = err hash_failed
issue_under (some r) spec = ok (record (child_of spec) { parent = some r })

-- `reference` is the hex of authority.CanonicalHash, or `none` where that fails.
module _ (reference : Authority → Option Bytes) where
  unfoldable pub derive : Option Authority → DelegationSpec → Outcome Error Authority
  derive none spec = err nil_authority
  derive (some parent) spec = verify_subset (some (child_of spec)) (some parent) >>= λ _.
      issue_under (reference parent) spec
