-- ===== src/Authority/Canonical.antt =====
-- authority/validate.go: Validate accepts exactly the canonical authorities.
use trust.Prelude.{
  ◌<◌, ◌≡◌, refl, List, [], ◌∷◌, Bool, true, not, ◌&&◌, ◌||◌, ◌↔◌, none, some, All, arith, length,
  ok, >>=-eq-ok, Bytes, bytes_eq, bytes_lt, bytes_lt_trans, bytes_lt-total, bytes_lt-asymm,
  bytes_lt_irrefl, bytes_eq→eq, bytes_eq_refl,
}
use trust.Authority.Model.{Capability, Scope, Authority}
use trust.Authority.Validate.{
  out_of_order, validate_capability, validate_capabilities_after, validate_capabilities,
  validate_sorted_after, validate_sorted_strings, validate_dimensions, validate_scope, known_status,
  validate,
}

-- Every element stands strictly before all that follow, so the list is sorted and has no duplicates.
abbrev pub Ascending {ℓ} : {A : Type ℓ} → (A → A → Bool) → List A → Type 0
Ascending lt [] = Unit {0}
Ascending lt (x ∷ xs) = All (λ y. lt x y ≡ true) xs × Ascending lt xs

module _ {ℓ} {A : Type ℓ} (lt : A → A → Bool)
    (trans : (a b c : A) → lt a b ≡ true → lt b c ≡ true → lt a c ≡ true) where
  All-below :
      (a b : A) (xs : List A)
      → lt a b ≡ true
      → All (λ y. lt b y ≡ true) xs
      → All (λ y. lt a y ≡ true) xs
  All-below a b [] h k = tt
  All-below a b (x ∷ xs) h (p, q) = (trans a b x h p, All-below a b xs h q)

  pub Ascending-cons :
      (a b : A) (xs : List A) → lt a b ≡ true → Ascending lt (b ∷ xs) → Ascending lt (a ∷ b ∷ xs)
  Ascending-cons a b xs h k = ((h, All-below a b xs h k.0), k)

-- Lexicographic, namespace first.
unfoldable pub capability_lt : Capability → Capability → Bool
capability_lt a b =
    bytes_lt a.namespace b.namespace || (bytes_eq a.namespace b.namespace && bytes_lt a.name b.name)

capability_lt_trans :
    (a b c : Capability)
    → capability_lt a b ≡ true
    → capability_lt b c ≡ true
    → capability_lt a c ≡ true
unfolding capability_lt
capability_lt_trans a b c h k = ground (
  arith,
  bytes_lt_trans a.namespace b.namespace c.namespace,
  bytes_lt_trans a.name b.name c.name,
  bytes_eq→eq a.namespace b.namespace,
  bytes_eq→eq b.namespace c.namespace,
  bytes_eq_refl c.namespace,
)

-- The test of the code is the negation of the order.
out_of_order-capability_lt : (p c : Capability) → out_of_order p c ≡ not (capability_lt p c)
unfolding out_of_order capability_lt
out_of_order-capability_lt p c = ground (
  arith,
  bytes_lt-total p.namespace c.namespace,
  bytes_lt-asymm p.namespace c.namespace,
  bytes_eq→eq p.namespace c.namespace,
  bytes_lt_irrefl c.namespace,
)

pub record IsNamed (c : Capability) : Type 0 where
  pub in_namespace : 0 < length c.namespace
  pub has_name : 0 < length c.name

abbrev pub IsCapabilityList : List Capability → Type 0
IsCapabilityList caps = All IsNamed caps × Ascending capability_lt caps

validate_capability_iff :
    (p c : Capability)
    → (validate_capability (some p) c ≡ ok tt) ↔ (IsNamed c × (capability_lt p c ≡ true))
unfolding validate_capability
validate_capability_iff p c = (
  λ e. ground (arith, out_of_order-capability_lt p c),
  λ n. ground (arith, out_of_order-capability_lt p c),
)

validate_first_iff : (c : Capability) → (validate_capability none c ≡ ok tt) ↔ IsNamed c
unfolding validate_capability
validate_first_iff c = (λ e. ground arith, λ n. ground arith)

validate_capabilities_after_iff :
    (p : Capability) (caps : List Capability)
    → (validate_capabilities_after (some p) caps ≡ ok tt)
      ↔ (All IsNamed caps × Ascending capability_lt (p ∷ caps))
unfolding validate_capabilities_after
validate_capabilities_after_iff p [] = (λ e. (tt, (tt, tt)), λ n. refl)
validate_capabilities_after_iff p (c ∷ caps) = (
  λ e.
      let (u, first, rest) = >>=-eq-ok (validate_capability (some p) c) _ e in
      let (named, above) = (validate_capability_iff p c).0 first in
      let (all_named, sorted) = (validate_capabilities_after_iff c caps).0 rest in
      ((named, all_named), Ascending-cons capability_lt capability_lt_trans p c caps above sorted),
  λ (n, a).
      let first = (validate_capability_iff p c).1 (n.0, a.0.0) in
      let rest = (validate_capabilities_after_iff c caps).1 (n.1, a.1) in rw (first, rest),
)

validate_capabilities_iff :
    (caps : List Capability) → (validate_capabilities caps ≡ ok tt) ↔ IsCapabilityList caps
unfolding validate_capabilities validate_capabilities_after
validate_capabilities_iff [] = (λ e. (tt, tt), λ n. refl)
validate_capabilities_iff (c ∷ caps) = (
  λ e.
      let (u, first, rest) = >>=-eq-ok (validate_capability none c) _ e in
      let (all_named, sorted) = (validate_capabilities_after_iff c caps).0 rest in
      (((validate_first_iff c).0 first, all_named), sorted),
  λ (n, a).
      let first = (validate_first_iff c).1 n.0 in
      let rest = (validate_capabilities_after_iff c caps).1 (n.1, a) in rw (first, rest),
)

validate_sorted_after_iff :
    (v : Bytes) (vals : List Bytes)
    → (validate_sorted_after v vals ≡ ok tt) ↔ Ascending bytes_lt (v ∷ vals)
unfolding validate_sorted_after
validate_sorted_after_iff v [] = (λ e. (tt, tt), λ n. refl)
validate_sorted_after_iff v (w ∷ vals) = (
  λ e.
      let lt : bytes_lt v w ≡ true = ground arith in
      Ascending-cons bytes_lt bytes_lt_trans v w vals lt
        ((validate_sorted_after_iff w vals).0 (rw lt at e)),
  λ a. rw (a.0.0) ((validate_sorted_after_iff w vals).1 a.1),
)

validate_sorted_strings_iff :
    (vals : List Bytes) → (validate_sorted_strings vals ≡ ok tt) ↔ Ascending bytes_lt vals
unfolding validate_sorted_strings
validate_sorted_strings_iff [] = (λ e. tt, λ n. refl)
validate_sorted_strings_iff (v ∷ vals) = validate_sorted_after_iff v vals

validate_dimensions_iff :
    (ds : List (List Bytes)) → (validate_dimensions ds ≡ ok tt) ↔ All (Ascending bytes_lt) ds
unfolding validate_dimensions
validate_dimensions_iff [] = (λ e. tt, λ n. refl)
validate_dimensions_iff (d ∷ ds) = (
  λ e.
      let (u, first, rest) = >>=-eq-ok (validate_sorted_strings d) _ e in
      ((validate_sorted_strings_iff d).0 first, (validate_dimensions_iff ds).0 rest),
  λ (a, as_).
      let first = (validate_sorted_strings_iff d).1 a in
      let rest = (validate_dimensions_iff ds).1 as_ in rw (first, rest),
)

pub record IsSortedScope (s : Scope) : Type 0 where
  pub resources_sorted : Ascending bytes_lt s.resources
  pub subjects_sorted : Ascending bytes_lt s.subjects
  pub actions_sorted : Ascending bytes_lt s.actions
  pub organizations_sorted : Ascending bytes_lt s.organizations
  pub geography_sorted : Ascending bytes_lt s.geography
  pub channels_sorted : Ascending bytes_lt s.channels

-- ValidateScope accepts a scope exactly if each of its six string dimensions is strictly ascending.
validate_scope_iff : (s : Scope) → (validate_scope s ≡ ok tt) ↔ IsSortedScope s
unfolding validate_scope
validate_scope_iff s =
    let iff =
      validate_dimensions_iff
        (s.resources ∷ s.subjects ∷ s.actions ∷ s.organizations ∷ s.geography ∷ s.channels ∷ []) in
    (
      λ e.
          let h = iff.0 e in
          record {
            resources_sorted = h.0;
            subjects_sorted = h.1.0;
            actions_sorted = h.1.1.0;
            organizations_sorted = h.1.1.1.0;
            geography_sorted = h.1.1.1.1.0;
            channels_sorted = h.1.1.1.1.1.0;
          },
      λ w. iff.1 (
        w.resources_sorted,
        (
          w.subjects_sorted,
          (
            w.actions_sorted,
            (w.organizations_sorted, (w.geography_sorted, (w.channels_sorted, tt))),
          ),
        ),
      ),
    )

-- The canonical form of an authority, in words of the order alone.
pub record IsCanonical (auth : Authority) : Type 0 where
  pub has_subject : 0 < length auth.subject
  pub capability_list : IsCapabilityList auth.capabilities
  pub sorted_scope : IsSortedScope auth.scope
  pub status_known : known_status auth.status ≡ true

validate_parts :
    (auth : Authority)
    → validate (some auth) ≡ ok tt
    → (0 < length auth.subject)
      × (validate_capabilities auth.capabilities ≡ ok tt)
      × (validate_scope auth.scope ≡ ok tt)
      × (known_status auth.status ≡ true)
unfolding validate
validate_parts auth e = ground arith

-- Validate accepts an authority exactly if it is canonical: a subject, capabilities with both names
-- that strictly ascend by (namespace, name), six strictly ascending scope dimensions, a known status.
pub validate_iff : (auth : Authority) → (validate (some auth) ≡ ok tt) ↔ IsCanonical auth
unfolding validate
validate_iff auth =
    let caps = validate_capabilities_iff auth.capabilities in
    let scopes = validate_scope_iff auth.scope in
    (
      λ e.
          let (named, cs, ss, known) = validate_parts auth e in
          record {
            has_subject = named;
            capability_list = caps.0 cs;
            sorted_scope = scopes.0 ss;
            status_known = known;
          },
      λ c.
          let cs = caps.1 c.capability_list in
          let ss = scopes.1 c.sorted_scope in
          let named = c.has_subject in
          let known = c.status_known in rw (cs, ss, known) (ground arith),
    )
