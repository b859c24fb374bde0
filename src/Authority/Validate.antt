-- ===== src/Authority/Validate.antt =====
-- authority/validate.go: Validate, ValidateCapabilities, ValidateScope, validateSortedStrings.
use trust.Prelude.{
  List, [], ◌∷◌, Bool, not, ◌&&◌, ◌||◌, Option, none, some, if◌then◌else◌, length, ◌==◌, Outcome,
  ok, err, ◌>>=◌, Bytes, bytes_eq, bytes_lt, int_eq,
}
use trust.Authority.Model.{
  Capability, Scope, Authority, Status, status_active, status_revoked, status_superseded,
  status_expired,
}

pub data Error : Type 0 where
  nil_authority empty_subject empty_capability_namespace empty_capability_name unsorted_capabilities
        unsorted_scope unknown_status :
      Error

-- `prev.Namespace > c.Namespace || (prev.Namespace == c.Namespace && prev.Name >= c.Name)`.
unfoldable pub out_of_order : Capability → Capability → Bool
out_of_order prev c =
    bytes_lt c.namespace prev.namespace
    || (bytes_eq prev.namespace c.namespace && not (bytes_lt prev.name c.name))

-- One round of the loop of ValidateCapabilities; `none` is the round with i = 0.
unfoldable pub validate_capability : Option Capability → Capability → Outcome Error (Unit {0})
unfolding out_of_order
validate_capability prev c =
    if length c.namespace == 0
    then err empty_capability_namespace
    else if length c.name == 0
    then err empty_capability_name
    else elim prev [
      | none ↦ ok tt
      | some p ↦ if out_of_order p c then err unsorted_capabilities else ok tt
    ]

unfoldable pub validate_capabilities_after :
    Option Capability → List Capability → Outcome Error (Unit {0})
unfolding validate_capability
validate_capabilities_after prev [] = ok tt
validate_capabilities_after prev (c ∷ caps) =
    validate_capability prev c >>= λ _. validate_capabilities_after (some c) caps

unfoldable pub validate_capabilities : List Capability → Outcome Error (Unit {0})
unfolding validate_capabilities_after
validate_capabilities caps = validate_capabilities_after none caps

-- The loop from i = 1, with the value before the rest.
unfoldable pub validate_sorted_after : Bytes → List Bytes → Outcome Error (Unit {0})
validate_sorted_after prev [] = ok tt
validate_sorted_after prev (v ∷ vals) =
    let rest = validate_sorted_after v vals in
    if not (bytes_lt prev v) then err unsorted_scope else rest

unfoldable pub validate_sorted_strings : List Bytes → Outcome Error (Unit {0})
unfolding validate_sorted_after
validate_sorted_strings [] = ok tt
validate_sorted_strings (v ∷ vals) = validate_sorted_after v vals

unfoldable pub validate_dimensions : List (List Bytes) → Outcome Error (Unit {0})
unfolding validate_sorted_strings
validate_dimensions [] = ok tt
validate_dimensions (d ∷ dimensions) =
    validate_sorted_strings d >>= λ _. validate_dimensions dimensions

unfoldable pub validate_scope : Scope → Outcome Error (Unit {0})
unfolding validate_dimensions
validate_scope s =
    validate_dimensions
      (s.resources ∷ s.subjects ∷ s.actions ∷ s.organizations ∷ s.geography ∷ s.channels ∷ [])

abbrev pub known_status : Status → Bool
known_status s =
    int_eq s status_active
    || (int_eq s status_revoked || (int_eq s status_superseded || int_eq s status_expired))

-- The pointer is nil where there is `none`.
unfoldable pub validate : Option Authority → Outcome Error (Unit {0})
validate none = err nil_authority
validate (some auth) =
    if length auth.subject == 0
    then err empty_subject
    else (validate_capabilities auth.capabilities >>= λ _. validate_scope auth.scope >>= λ _.
        if known_status auth.status then ok tt else err unknown_status)
