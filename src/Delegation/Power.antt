-- ===== src/Delegation/Power.antt =====
-- What an authority permits, stated without the subset check of delegation/delegation.go.
use trust.Prelude.{
  ℕ, ◌≤◌, ◌≡◌, List, [], ◌∷◌, true, Option, none, some, Bytes, ℤ, int_le, Float64, float_le,
}
use trust.Authority.Model.{Capability, TimeWindow, Quantity, Monetary, Scope, Authority}

-- One use of power: a capability exercised at a time, on one value in each dimension, for an amount.
pub record Request : Type 0 where
  pub capability : Capability
  pub resource : Bytes
  pub on_behalf_of : Bytes
  pub action : Bytes
  pub organization : Bytes
  pub region : Bytes
  pub channel : Bytes
  pub time : ℕ
  pub unit : Bytes
  pub count : ℤ
  pub currency : Bytes
  pub amount : Float64

pub data Member {ℓ} {A : Type ℓ} (a : A) : List A → Type ℓ where
  first : {xs : List A} → Member a (a ∷ xs)
  later : {x : A} {xs : List A} → Member a xs → Member a (x ∷ xs)

-- An empty dimension is unconstrained.
abbrev pub Allows : List Bytes → Bytes → Type 0
Allows [] s = Unit {0}
Allows (x ∷ xs) s = Member s (x ∷ xs)

abbrev pub AllowsTime : Option TimeWindow → ℕ → Type 0
AllowsTime none t = Unit {0}
AllowsTime (some w) t = (w.start ≤ t) × (t ≤ w.end)

abbrev pub AllowsCount : Option Quantity → Bytes → ℤ → Type 0
AllowsCount none unit n = Unit {0}
AllowsCount (some q) unit n = (unit ≡ q.unit) × (int_le n q.limit ≡ true)

abbrev pub AllowsAmount : Option Monetary → Bytes → Float64 → Type 0
AllowsAmount none currency x = Unit {0}
AllowsAmount (some m) currency x = (currency ≡ m.currency) × (float_le x m.limit ≡ true)

pub record InScope (s : Scope) (r : Request) : Type 0 where
  pub in_resources : Allows s.resources r.resource
  pub in_subjects : Allows s.subjects r.on_behalf_of
  pub in_actions : Allows s.actions r.action
  pub in_organizations : Allows s.organizations r.organization
  pub in_geography : Allows s.geography r.region
  pub in_channels : Allows s.channels r.channel
  pub in_window : AllowsTime s.time_window r.time
  pub in_quantity : AllowsCount s.quantity r.unit r.count
  pub in_monetary : AllowsAmount s.monetary r.currency r.amount

pub record Permits (auth : Authority) (r : Request) : Type 0 where
  pub holds : Member r.capability auth.capabilities
  pub in_scope : InScope auth.scope r
  pub not_early : auth.validity.not_before ≤ r.time
  pub not_late : r.time ≤ auth.validity.not_after
