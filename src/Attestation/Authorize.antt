-- ===== src/Attestation/Authorize.antt =====
-- attestation/authorize.go: VerifyAuthorization. The clock and the reference of an authority (hex of
-- its canonical hash, `none` where hashing fails) are parameters.
use trust.Prelude.{
  ℕ, List, [], ◌∷◌, Bool, true, false, not, ◌&&◌, ◌||◌, Option, none, some, if◌then◌else◌, length,
  ◌==◌, ltb, Outcome, ok, err, Bytes, bytes_eq, int_eq, int_lt, float_gt,
}
use trust.Authority.Model.{
  Capability, capability_eq, TimeWindow, Quantity, Monetary, Scope, Validity, Authority,
  status_active,
}
use trust.Attestation.Model.{Attestation}

pub data Error : Type 0 where
  nil_attestation nil_authority missing_authority_ref hash_failed authority_mismatch
        subject_mismatch capability_not_granted authority_not_active attestation_not_active
        attestation_not_current authorization_scope authorization_validity :
      Error

unfoldable pub capability_granted : List Capability → Capability → Bool
capability_granted [] c = false
capability_granted (granted ∷ caps) c = capability_eq granted c || capability_granted caps c

-- The inner loop of stringSliceSubset.
unfoldable pub found_in : List Bytes → Bytes → Bool
found_in [] s = false
found_in (v ∷ super) s = bytes_eq v s || found_in super s

unfoldable pub all_found : List Bytes → List Bytes → Bool
unfolding found_in
all_found [] super = true
all_found (s ∷ sub) super = found_in super s && all_found sub super

unfoldable pub string_slice_subset : List Bytes → List Bytes → Bool
unfolding all_found
string_slice_subset sub super =
    if ltb (length super) (length sub) then false else all_found sub super

unfoldable pub window_inside : Option TimeWindow → Option TimeWindow → Bool
window_inside sub none = true
window_inside none (some w) = false
window_inside (some v) (some w) = not (ltb v.start w.start || ltb w.end v.end)

unfoldable pub quantity_inside : Option Quantity → Option Quantity → Bool
quantity_inside sub none = true
quantity_inside none (some q) = false
quantity_inside (some p) (some q) = not (not (bytes_eq p.unit q.unit) || int_lt q.limit p.limit)

unfoldable pub monetary_inside : Option Monetary → Option Monetary → Bool
monetary_inside sub none = true
monetary_inside none (some m) = false
monetary_inside (some l) (some m) =
    not (not (bytes_eq l.currency m.currency) || float_gt l.limit m.limit)

unfoldable pub scope_subset : Scope → Scope → Bool
unfolding string_slice_subset window_inside quantity_inside monetary_inside
scope_subset sub super =
    string_slice_subset sub.resources super.resources
    && (string_slice_subset sub.subjects super.subjects
        && (string_slice_subset sub.actions super.actions
            && (string_slice_subset sub.organizations super.organizations
                && (string_slice_subset sub.geography super.geography
                    && (string_slice_subset sub.channels super.channels
                        && (window_inside sub.time_window super.time_window
                            && (quantity_inside sub.quantity super.quantity
                                && monetary_inside sub.monetary super.monetary)))))))

unfoldable pub validity_subset : Validity → Validity → Bool
validity_subset sub super =
    not (ltb sub.not_before super.not_before) && not (ltb super.not_after sub.not_after)

unfoldable pub validity_contains : Validity → ℕ → Bool
validity_contains v now = not (ltb now v.not_before) && not (ltb v.not_after now)

module _ (reference : Authority → Option Bytes) (now : ℕ) where
  -- The checks on an attestation and an authority that are there, in the order of the code.
  unfoldable pub authorize : Attestation → Authority → Outcome Error (Unit {0})
  authorize att auth =
      if length att.authority_ref == 0 then err missing_authority_ref else elim (reference auth) [
        | none ↦ err hash_failed
        | some r ↦
            if not (bytes_eq r att.authority_ref)
            then err authority_mismatch
            else if not (bytes_eq att.issuer auth.subject)
            then err subject_mismatch
            else if not (capability_granted auth.capabilities att.capability)
            then err capability_not_granted
            else if not (int_eq auth.status status_active)
            then err authority_not_active
            else if not (int_eq att.status status_active)
            then err attestation_not_active
            else if not (validity_contains att.validity now)
            then err attestation_not_current
            else if not (scope_subset att.claim.scope auth.scope)
            then err authorization_scope
            else if not (validity_subset att.claim.validity auth.validity)
                || not (validity_subset att.validity auth.validity)
            then err authorization_validity
            else ok tt
      ]

  unfoldable pub verify_authorization :
      Option Attestation → Option Authority → Outcome Error (Unit {0})
  unfolding authorize
  verify_authorization none auth = err nil_attestation
  verify_authorization (some att) none = err nil_authority
  verify_authorization (some att) (some auth) = authorize att auth
