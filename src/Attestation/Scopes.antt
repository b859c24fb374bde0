-- ===== src/Attestation/Scopes.antt =====
-- attestation/authorize.go: what the scope check of VerifyAuthorization admits, against what scopes
-- allow (Delegation/Power), where an empty dimension is unconstrained.
use trust.Prelude.{
  ℕ, ◌≡◌, ◌≢◌, refl, List, [], ◌∷◌, true, false, Option, none, some, inl, inr, subst, sym, arith,
  Bytes, bytes_eq, bytes_eq→eq, ℤ, pos, negsuc, int_le, int_lt, int_le_trans, Float64, nan, ranked,
  float_le, float_gt, and-eq_true, Bool-cases,
}
use trust.Authority.Model.{TimeWindow, Quantity, Monetary, Scope}
use trust.Attestation.Authorize.{
  found_in, all_found, string_slice_subset, window_inside, quantity_inside, monetary_inside,
  scope_subset,
}
use trust.Delegation.Power.{
  Request, Member, first, later, Allows, AllowsTime, AllowsCount, AllowsAmount, InScope,
}

found_in-Member : (super : List Bytes) (s : Bytes) → found_in super s ≡ true → Member s super
unfolding found_in
found_in-Member [] s h = absurd (ground arith)
found_in-Member (v ∷ super) s h = elim (Bool-cases (bytes_eq v s)) [
  | inl e ↦ subst (λ q. Member s (q ∷ super)) (sym (bytes_eq→eq v s e)) first
  | inr n ↦ later (found_in-Member super s (rw n at h))
]

all_found-Member :
    (sub super : List Bytes) (s : Bytes)
    → all_found sub super ≡ true
    → Member s sub
    → Member s super
unfolding all_found
all_found-Member [] super s h m = elim m [ ]
all_found-Member (c ∷ sub) super s h first = found_in-Member super _ (ground arith)
all_found-Member (c ∷ sub) super s h (later m) = all_found-Member sub super s (ground arith) m

string_slice_subset-Allows :
    (sub super : List Bytes) (s : Bytes)
    → string_slice_subset sub super ≡ true
    → sub ≢ []
    → Allows sub s
    → Allows super s
unfolding string_slice_subset
string_slice_subset-Allows [] super s h n a = absurd (n refl)
string_slice_subset-Allows (c ∷ sub) [] s h n a = tt
string_slice_subset-Allows (c ∷ sub) (v ∷ super) s h n a =
    all_found-Member (c ∷ sub) (v ∷ super) s (ground arith) a

window_inside-AllowsTime :
    (sub super : Option TimeWindow) (t : ℕ)
    → window_inside sub super ≡ true
    → AllowsTime sub t
    → AllowsTime super t
unfolding window_inside
window_inside-AllowsTime sub none t h a = tt
window_inside-AllowsTime none (some w) t h a = absurd (ground arith)
window_inside-AllowsTime (some v) (some w) t h a = ground arith

not_lt→le : (a b : ℤ) → int_lt b a ≡ false → int_le a b ≡ true
not_lt→le (pos a) (pos b) h = ground arith
not_lt→le (pos a) (negsuc b) h = ground arith
not_lt→le (negsuc a) (pos b) h = refl
not_lt→le (negsuc a) (negsuc b) h = ground arith

quantity_inside-AllowsCount :
    (sub super : Option Quantity) (unit : Bytes) (n : ℤ)
    → quantity_inside sub super ≡ true
    → AllowsCount sub unit n
    → AllowsCount super unit n
unfolding quantity_inside
quantity_inside-AllowsCount sub none unit n h a = tt
quantity_inside-AllowsCount none (some q) unit n h a = absurd (ground arith)
quantity_inside-AllowsCount (some p) (some q) unit n h (same, le) =
    let within : int_lt q.limit p.limit ≡ false = ground arith in
    let units : bytes_eq p.unit q.unit ≡ true = ground arith in
    (
      cc (bytes_eq→eq p.unit q.unit units),
      int_le_trans n p.limit q.limit le (not_lt→le p.limit q.limit within),
    )

-- A limit that is a number.
abbrev pub HasNumber : Option Monetary → Type 0
HasNumber none = Unit {0}
HasNumber (some m) = m.limit ≢ nan

float_gt→le :
    (x a b : Float64) → float_le x a ≡ true → float_gt a b ≡ false → b ≢ nan → float_le x b ≡ true
float_gt→le nan a b h k n = absurd (ground arith)
float_gt→le (ranked x) nan b h k n = absurd (ground arith)
float_gt→le (ranked x) (ranked a) nan h k n = absurd (n refl)
float_gt→le (ranked x) (ranked a) (ranked b) h k n = ground arith

monetary_inside-AllowsAmount :
    (sub super : Option Monetary) (currency : Bytes) (x : Float64)
    → monetary_inside sub super ≡ true
    → HasNumber super
    → AllowsAmount sub currency x
    → AllowsAmount super currency x
unfolding monetary_inside
monetary_inside-AllowsAmount sub none currency x h n a = tt
monetary_inside-AllowsAmount none (some m) currency x h n a = absurd (ground arith)
monetary_inside-AllowsAmount (some l) (some m) currency x h n (same, le) =
    let within : float_gt l.limit m.limit ≡ false = ground arith in
    let units : bytes_eq l.currency m.currency ≡ true = ground arith in
    (cc (bytes_eq→eq l.currency m.currency units), float_gt→le x l.limit m.limit le within n)

-- A scope that constrains each of the six string dimensions.
pub record IsFilled (s : Scope) : Type 0 where
  pub resources_filled : s.resources ≢ []
  pub subjects_filled : s.subjects ≢ []
  pub actions_filled : s.actions ≢ []
  pub organizations_filled : s.organizations ≢ []
  pub geography_filled : s.geography ≢ []
  pub channels_filled : s.channels ≢ []

-- If the scope check accepts a claim scope that leaves no string dimension empty, under an authority
-- whose monetary limit is no NaN, then what the claim scope allows the authority scope allows.
pub scope_subset-InScope :
    (sub super : Scope) (r : Request)
    → scope_subset sub super ≡ true
    → IsFilled sub
    → HasNumber super.monetary
    → InScope sub r
    → InScope super r
unfolding scope_subset
scope_subset-InScope sub super r h f n i =
    let (a, h1) = and-eq_true _ _ h in
    let (b, h2) = and-eq_true _ _ h1 in
    let (c, h3) = and-eq_true _ _ h2 in
    let (d, h4) = and-eq_true _ _ h3 in
    let (e, h5) = and-eq_true _ _ h4 in
    let (g, h6) = and-eq_true _ _ h5 in
    let (j, h7) = and-eq_true _ _ h6 in
    let (k, l) = and-eq_true _ _ h7 in
    record {
      in_resources = string_slice_subset-Allows _ _ _ a f.resources_filled i.in_resources;
      in_subjects = string_slice_subset-Allows _ _ _ b f.subjects_filled i.in_subjects;
      in_actions = string_slice_subset-Allows _ _ _ c f.actions_filled i.in_actions;
      in_organizations =
          string_slice_subset-Allows _ _ _ d f.organizations_filled i.in_organizations;
      in_geography = string_slice_subset-Allows _ _ _ e f.geography_filled i.in_geography;
      in_channels = string_slice_subset-Allows _ _ _ g f.channels_filled i.in_channels;
      in_window = window_inside-AllowsTime _ _ _ j i.in_window;
      in_quantity = quantity_inside-AllowsCount _ _ _ _ k i.in_quantity;
      in_monetary = monetary_inside-AllowsAmount _ _ _ _ l n i.in_monetary;
    }
