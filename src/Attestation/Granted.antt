-- ===== src/Attestation/Granted.antt =====
-- attestation/authorize.go: what an accepted attestation is authorized for, and where the scope check
-- departs from its comment.
use trust.Prelude.{
  ℕ, ◌≤◌, ◌≡◌, refl, List, [], ◌∷◌, true, false, Option, none, some, inl, inr, subst, sym, arith,
  ok, Bytes, bytes_eq, bytes_eq→eq, bytes_eq_refl, ℤ, pos, negsuc, int_lt, int_eq, int_eq→eq,
  Float64, nan, ranked, float_gt, Bool-cases,
}
use trust.Authority.Model.{
  Capability, capability_eq, TimeWindow, Quantity, Monetary, Scope, Validity, Authority,
  status_active,
}
use trust.Attestation.Model.{Attestation}
use trust.Attestation.Authorize.{
  capability_granted, string_slice_subset, found_in, all_found, window_inside, quantity_inside,
  monetary_inside, scope_subset, validity_subset, validity_contains, authorize,
  verify_authorization,
}
use trust.Delegation.Power.{Request, Member, first, later, Allows, InScope}

capability_granted-Member :
    (caps : List Capability) (c : Capability) → capability_granted caps c ≡ true → Member c caps
unfolding capability_granted
capability_granted-Member [] c h = absurd (ground arith)
capability_granted-Member (p ∷ caps) c h = elim (Bool-cases (capability_eq p c)) [
  | inl e ↦
      let same : p ≡ c =
        ground (arith, bytes_eq→eq p.namespace c.namespace, bytes_eq→eq p.name c.name) in
      subst (λ q. Member c (q ∷ caps)) (sym same) first
  | inr n ↦ later (capability_granted-Member caps c (rw n at h))
]

-- What the issuer of an attestation was granted at the time `now`.
pub record IsGranted (reference : Authority → Option Bytes) (now : ℕ) (att : Attestation)
    (auth : Authority) : Type 0 where
  pub refers : reference auth ≡ some att.authority_ref
  pub issued_by_subject : att.issuer ≡ auth.subject
  pub holds : Member att.capability auth.capabilities
  pub authority_active : auth.status ≡ status_active
  pub attestation_active : att.status ≡ status_active
  pub begun : att.validity.not_before ≤ now
  pub not_over : now ≤ att.validity.not_after
  pub inside : auth.validity.not_before ≤ att.validity.not_before
  pub inside_end : att.validity.not_after ≤ auth.validity.not_after
  pub claim_inside : auth.validity.not_before ≤ att.claim.validity.not_before
  pub claim_inside_end : att.claim.validity.not_after ≤ auth.validity.not_after
  pub scope_checked : scope_subset att.claim.scope auth.scope ≡ true

authorize-parts :
    (reference : Authority → Option Bytes) (now : ℕ) (att : Attestation) (auth : Authority)
    → authorize reference now att auth ≡ ok tt
    → (r : Bytes) × (reference auth ≡ some r)
      × (bytes_eq r att.authority_ref ≡ true)
      × (bytes_eq att.issuer auth.subject ≡ true)
      × (capability_granted auth.capabilities att.capability ≡ true)
      × (int_eq auth.status status_active ≡ true)
      × (int_eq att.status status_active ≡ true)
      × (validity_contains att.validity now ≡ true)
      × (scope_subset att.claim.scope auth.scope ≡ true)
      × (validity_subset att.claim.validity auth.validity ≡ true)
      × (validity_subset att.validity auth.validity ≡ true)
unfolding authorize
authorize-parts reference now att auth h = ground arith

validity_contains-within :
    (v : Validity) (now : ℕ)
    → validity_contains v now ≡ true
    → (v.not_before ≤ now) × (now ≤ v.not_after)
unfolding validity_contains
validity_contains-within v now h = ground arith

validity_subset-within :
    (sub super : Validity)
    → validity_subset sub super ≡ true
    → (super.not_before ≤ sub.not_before) × (sub.not_after ≤ super.not_after)
unfolding validity_subset
validity_subset-within sub super h = ground arith

-- If VerifyAuthorization accepts, then the authority is the one referenced, its subject is the
-- issuer, it holds the exercised capability, both are active, the attestation is current at `now`,
-- and the windows of the attestation and of its claim lie inside the authority's.
pub verify_authorization-IsGranted :
    (reference : Authority → Option Bytes) (now : ℕ) (att : Attestation) (auth : Authority)
    → verify_authorization reference now (some att) (some auth) ≡ ok tt
    → IsGranted reference now att auth
unfolding verify_authorization
verify_authorization-IsGranted reference now att auth h =
    let (r, refers, same, issuer, cap, active, active', current, scope, claim_in, att_in) =
      authorize-parts reference now att auth h in
    let (begun, not_over) = validity_contains-within att.validity now current in
    let (a, b) = validity_subset-within att.validity auth.validity att_in in
    let (c, d) = validity_subset-within att.claim.validity auth.validity claim_in in
    record {
      refers = cc (refers, bytes_eq→eq r att.authority_ref same);
      issued_by_subject = bytes_eq→eq att.issuer auth.subject issuer;
      holds = capability_granted-Member auth.capabilities att.capability cap;
      authority_active = int_eq→eq auth.status status_active active;
      attestation_active = int_eq→eq att.status status_active active';
      begun = begun;
      not_over = not_over;
      inside = a;
      inside_end = b;
      claim_inside = c;
      claim_inside_end = d;
      scope_checked = scope;
    }

-- The same scope with no constraint on resources.
abbrev pub drop_resources : Scope → Scope
drop_resources s = record s { resources = [] }

found_in-Member : (super : List Bytes) (s : Bytes) → Member s super → found_in super s ≡ true
unfolding found_in
found_in-Member [] s m = elim m [ ]
found_in-Member (v ∷ super) s first = ground (arith, bytes_eq_refl v)
found_in-Member (v ∷ super) s (later m) = ground (arith, found_in-Member super s m)

all_found-of :
    (xs zs : List Bytes) → ((s : Bytes) → Member s xs → Member s zs) → all_found xs zs ≡ true
unfolding all_found
all_found-of [] zs h = refl
all_found-of (x ∷ xs) zs h =
    rw (found_in-Member zs x (h x first)) (all_found-of xs zs (λ s m. h s (later m)))

string_slice_subset_refl : (xs : List Bytes) → string_slice_subset xs xs ≡ true
unfolding string_slice_subset
string_slice_subset_refl xs = ground (arith, all_found-of xs xs (λ s m. m))

window_inside_refl : (w : Option TimeWindow) → window_inside w w ≡ true
unfolding window_inside
window_inside_refl none = refl
window_inside_refl (some w) = ground arith

int_lt_irrefl : (a : ℤ) → int_lt a a ≡ false
int_lt_irrefl (pos a) = ground arith
int_lt_irrefl (negsuc a) = ground arith

float_gt_irrefl : (a : Float64) → float_gt a a ≡ false
float_gt_irrefl nan = refl
float_gt_irrefl (ranked a) = ground arith

quantity_inside_refl : (q : Option Quantity) → quantity_inside q q ≡ true
unfolding quantity_inside
quantity_inside_refl none = refl
quantity_inside_refl (some q) = rw (bytes_eq_refl q.unit, int_lt_irrefl q.limit)

monetary_inside_refl : (m : Option Monetary) → monetary_inside m m ≡ true
unfolding monetary_inside
monetary_inside_refl none = refl
monetary_inside_refl (some m) = rw (bytes_eq_refl m.currency, float_gt_irrefl m.limit)

drop_accepted : (super : List Bytes) → string_slice_subset [] super ≡ true
unfolding string_slice_subset
drop_accepted super = ground arith

-- The scope check accepts a claim scope that drops the authority's constraint on resources: it is
-- the authority's own scope with an empty list of resources. So a request on a resource outside of the
-- authority's list, and otherwise within its scope, is in the accepted claim scope and not in the
-- authority's.
pub scope_subset-drop_resources :
    (s : Scope) (r : Request)
    → InScope (record s { resources = r.resource ∷ [] }) r
    → ¬ Allows s.resources r.resource
    → (scope_subset (drop_resources s) s ≡ true) × InScope (drop_resources s) r × (¬ InScope s r)
unfolding scope_subset
scope_subset-drop_resources s r within outside = (
  rw (
    drop_accepted s.resources,
    string_slice_subset_refl s.subjects,
    string_slice_subset_refl s.actions,
    string_slice_subset_refl s.organizations,
    string_slice_subset_refl s.geography,
    string_slice_subset_refl s.channels,
    window_inside_refl s.time_window,
    quantity_inside_refl s.quantity,
    monetary_inside_refl s.monetary,
  ),
  record {
    in_resources = tt;
    in_subjects = within.in_subjects;
    in_actions = within.in_actions;
    in_organizations = within.in_organizations;
    in_geography = within.in_geography;
    in_channels = within.in_channels;
    in_window = within.in_window;
    in_quantity = within.in_quantity;
    in_monetary = within.in_monetary;
  },
  λ i. outside i.in_resources,
)

-- The scope check refuses any claim scope that names a resource under an authority scope whose
-- resources are unconstrained, that is an empty list.
pub scope_subset-unconstrained :
    (sub super : Scope) (resource : Bytes) (rest : List Bytes)
    → super.resources ≡ []
    → sub.resources ≡ resource ∷ rest
    → scope_subset sub super ≡ false
unfolding scope_subset string_slice_subset
scope_subset-unconstrained sub super resource rest e f = rw (e, f) (ground arith)
