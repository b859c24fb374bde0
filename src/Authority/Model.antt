-- ===== src/Authority/Model.antt =====
-- authority/authority.go: the types. A nil slice and an empty one are told apart by no comparison of
-- this model, and a `time.Time` is a number of instants since the zero time.
use trust.Prelude.{ℕ, List, Bool, Option, Bytes, ℤ, pos, Float64, bytes_eq, ◌&&◌}

-- `t.Before(u)` is `ltb t u`, and `t.After(u)` is `ltb u t`.
abbrev pub Time : Type 0
Time = ℕ

pub record Capability : Type 0 where
  pub namespace : Bytes
  pub name : Bytes

-- Go's `==` on the struct.
abbrev pub capability_eq : Capability → Capability → Bool
capability_eq a b = bytes_eq a.namespace b.namespace && bytes_eq a.name b.name

pub record TimeWindow : Type 0 where
  pub start : Time
  pub end : Time

pub record Quantity : Type 0 where
  pub unit : Bytes
  pub limit : ℤ

pub record Monetary : Type 0 where
  pub currency : Bytes
  pub limit : Float64

pub record Scope : Type 0 where
  pub resources : List Bytes
  pub subjects : List Bytes
  pub actions : List Bytes
  pub organizations : List Bytes
  pub geography : List Bytes
  pub channels : List Bytes
  pub time_window : Option TimeWindow
  pub quantity : Option Quantity
  pub monetary : Option Monetary

pub record Validity : Type 0 where
  pub not_before : Time
  pub not_after : Time

-- `MaxDepth` is a pointer to an `int`, so of 64 bits: the predicate HasInt64Depth says so.
pub record DelegationConstraints : Type 0 where
  pub max_depth : Option ℤ

-- `Status` is an `int`; these are its constants.
abbrev pub Status : Type 0
Status = ℤ

abbrev pub status_active : Status
status_active = pos 1

abbrev pub status_revoked : Status
status_revoked = pos 2

abbrev pub status_superseded : Status
status_superseded = pos 3

abbrev pub status_expired : Status
status_expired = pos 4

-- `signature.Algorithm` is an `int`.
pub record Proof : Type 0 where
  pub algorithm : ℤ
  pub key_id : Bytes
  pub signature : Bytes

pub record Authority : Type 0 where
  pub subject : Bytes
  pub parent : Option Bytes
  pub capabilities : List Capability
  pub scope : Scope
  pub validity : Validity
  pub delegation_constraints : DelegationConstraints
  pub status : Status
  pub proof : Proof
