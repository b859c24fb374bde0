-- ===== src/Delegation/Dimensions.antt =====
-- delegation/delegation.go: each dimension of the subset check allows no more than the parent does.
use trust.Prelude.{
  ℕ, ◌≤◌, ◌≡◌, List, [], ◌∷◌, true, Option, none, some, arith, Bytes, bytes_eq, bytes_eq→eq, ℤ,
  int_le, int_le_trans, Float64, float_le, float_le_trans, and-eq_true, Bool-cases, inl, inr, subst,
  sym,
}
use trust.Authority.Model.{
  Capability, capability_eq, TimeWindow, Quantity, Monetary, Scope, Validity,
}
use trust.Delegation.Subset.{
  has_capability, capability_subset, has_string, all_in, string_slice_subset, time_window_subset,
  quantity_subset, monetary_subset, scope_subset, validity_subset,
}
use trust.Delegation.Power.{
  Request, Member, first, later, Allows, AllowsTime, AllowsCount, AllowsAmount, InScope,
}

capability_eq→eq : (a b : Capability) → capability_eq a b ≡ true → a ≡ b
capability_eq→eq a b h =
    ground (arith, bytes_eq→eq a.namespace b.namespace, bytes_eq→eq a.name b.name)

has_capability-Member :
    (parent : List Capability) (c : Capability) → has_capability parent c ≡ true → Member c parent
unfolding has_capability
has_capability-Member [] c h = absurd (ground arith)
has_capability-Member (p ∷ parent) c h = elim (Bool-cases (capability_eq p c)) [
  | inl e ↦ subst (λ q. Member c (q ∷ parent)) (sym (capability_eq→eq p c e)) first
  | inr n ↦ later (has_capability-Member parent c (rw n at h))
]

pub capability_subset-Member :
    (parent child : List Capability) (c : Capability)
    → capability_subset parent child ≡ true
    → Member c child
    → Member c parent
unfolding capability_subset
capability_subset-Member parent [] d h m = elim m [ ]
capability_subset-Member parent (c ∷ child) d h first =
    has_capability-Member parent _ (ground arith)
capability_subset-Member parent (c ∷ child) d h (later m) =
    capability_subset-Member parent child d (ground arith) m

has_string-Member : (parent : List Bytes) (s : Bytes) → has_string parent s ≡ true → Member s parent
unfolding has_string
has_string-Member [] s h = absurd (ground arith)
has_string-Member (p ∷ parent) s h = elim (Bool-cases (bytes_eq p s)) [
  | inl e ↦ subst (λ q. Member s (q ∷ parent)) (sym (bytes_eq→eq p s e)) first
  | inr n ↦ later (has_string-Member parent s (rw n at h))
]

all_in-Member :
    (parent child : List Bytes) (s : Bytes)
    → all_in parent child ≡ true
    → Member s child
    → Member s parent
unfolding all_in
all_in-Member parent [] s h m = elim m [ ]
all_in-Member parent (c ∷ child) s h first = has_string-Member parent _ (ground arith)
all_in-Member parent (c ∷ child) s h (later m) = all_in-Member parent child s (ground arith) m

string_slice_subset-Allows :
    (parent child : List Bytes) (s : Bytes)
    → string_slice_subset parent child ≡ true
    → Allows child s
    → Allows parent s
unfolding string_slice_subset
string_slice_subset-Allows [] child s h a = tt
string_slice_subset-Allows (p ∷ parent) [] s h a = absurd (ground arith)
string_slice_subset-Allows (p ∷ parent) (c ∷ child) s h a =
    all_in-Member (p ∷ parent) (c ∷ child) s (ground arith) a

time_window_subset-AllowsTime :
    (parent child : Option TimeWindow) (t : ℕ)
    → time_window_subset parent child ≡ true
    → AllowsTime child t
    → AllowsTime parent t
unfolding time_window_subset
time_window_subset-AllowsTime none child t h a = tt
time_window_subset-AllowsTime (some p) none t h a = absurd (ground arith)
time_window_subset-AllowsTime (some p) (some c) t h a = ground arith

quantity_subset-AllowsCount :
    (parent child : Option Quantity) (unit : Bytes) (n : ℤ)
    → quantity_subset parent child ≡ true
    → AllowsCount child unit n
    → AllowsCount parent unit n
unfolding quantity_subset
quantity_subset-AllowsCount none child unit n h a = tt
quantity_subset-AllowsCount (some p) none unit n h a = absurd (ground arith)
quantity_subset-AllowsCount (some p) (some c) unit n h (same, le) =
    let (u, l) = and-eq_true (bytes_eq c.unit p.unit) (int_le c.limit p.limit) h in
    (cc (bytes_eq→eq c.unit p.unit u), int_le_trans n c.limit p.limit le l)

monetary_subset-AllowsAmount :
    (parent child : Option Monetary) (currency : Bytes) (x : Float64)
    → monetary_subset parent child ≡ true
    → AllowsAmount child currency x
    → AllowsAmount parent currency x
unfolding monetary_subset
monetary_subset-AllowsAmount none child currency x h a = tt
monetary_subset-AllowsAmount (some p) none currency x h a = absurd (ground arith)
monetary_subset-AllowsAmount (some p) (some c) currency x h (same, le) =
    let (u, l) = and-eq_true (bytes_eq c.currency p.currency) (float_le c.limit p.limit) h in
    (cc (bytes_eq→eq c.currency p.currency u), float_le_trans x c.limit p.limit le l)

-- The nine tests of scopeSubset, one by one.
pub record DimensionsNarrow (parent child : Scope) : Type 0 where
  pub resources_narrow : string_slice_subset parent.resources child.resources ≡ true
  pub subjects_narrow : string_slice_subset parent.subjects child.subjects ≡ true
  pub actions_narrow : string_slice_subset parent.actions child.actions ≡ true
  pub organizations_narrow : string_slice_subset parent.organizations child.organizations ≡ true
  pub geography_narrow : string_slice_subset parent.geography child.geography ≡ true
  pub channels_narrow : string_slice_subset parent.channels child.channels ≡ true
  pub window_narrow : time_window_subset parent.time_window child.time_window ≡ true
  pub quantity_narrow : quantity_subset parent.quantity child.quantity ≡ true
  pub monetary_narrow : monetary_subset parent.monetary child.monetary ≡ true

scope_subset-DimensionsNarrow :
    (parent child : Scope) → scope_subset parent child ≡ true → DimensionsNarrow parent child
unfolding scope_subset
scope_subset-DimensionsNarrow parent child h =
    let (a, h1) = and-eq_true _ _ h in
    let (b, h2) = and-eq_true _ _ h1 in
    let (c, h3) = and-eq_true _ _ h2 in
    let (d, h4) = and-eq_true _ _ h3 in
    let (e, h5) = and-eq_true _ _ h4 in
    let (f, h6) = and-eq_true _ _ h5 in
    let (g, h7) = and-eq_true _ _ h6 in
    let (i, j) = and-eq_true _ _ h7 in
    record {
      resources_narrow = a;
      subjects_narrow = b;
      actions_narrow = c;
      organizations_narrow = d;
      geography_narrow = e;
      channels_narrow = f;
      window_narrow = g;
      quantity_narrow = i;
      monetary_narrow = j;
    }

pub scope_subset-InScope :
    (parent child : Scope) (r : Request)
    → scope_subset parent child ≡ true
    → InScope child r
    → InScope parent r
scope_subset-InScope parent child r h i =
    let n = scope_subset-DimensionsNarrow parent child h in
    record {
      in_resources = string_slice_subset-Allows _ _ _ n.resources_narrow i.in_resources;
      in_subjects = string_slice_subset-Allows _ _ _ n.subjects_narrow i.in_subjects;
      in_actions = string_slice_subset-Allows _ _ _ n.actions_narrow i.in_actions;
      in_organizations = string_slice_subset-Allows _ _ _ n.organizations_narrow i.in_organizations;
      in_geography = string_slice_subset-Allows _ _ _ n.geography_narrow i.in_geography;
      in_channels = string_slice_subset-Allows _ _ _ n.channels_narrow i.in_channels;
      in_window = time_window_subset-AllowsTime _ _ _ n.window_narrow i.in_window;
      in_quantity = quantity_subset-AllowsCount _ _ _ _ n.quantity_narrow i.in_quantity;
      in_monetary = monetary_subset-AllowsAmount _ _ _ _ n.monetary_narrow i.in_monetary;
    }

pub validity_subset-within :
    (parent child : Validity)
    → validity_subset parent child ≡ true
    → (parent.not_before ≤ child.not_before) × (child.not_after ≤ parent.not_after)
unfolding validity_subset
validity_subset-within parent child h = ground arith
