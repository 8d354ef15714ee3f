-- ===== src/Directory/Reconcile.antt =====
-- lib/directory/reconcile.ts: the role and the sites that the groups of a user give. The lower case
-- of a string is that of the JavaScript library, so `to_lower` is a parameter.
pub mod Plan
pub mod Rank
use captivo_access.Prelude.{
  ℕ, Bool, true, false, not, ◌&&◌, ◌||◌, List, [], ◌∷◌, Option, none, some, map, Text, text_eq,
  is_empty, any, select, contains, trim, split, join, ltb, ◌==◌, if◌then◌else◌,
}
use captivo_access.Auth.Roles.{Role, staff}

pub data ConsoleRole : Type 0 where
  admin operator auditor : ConsoleRole

-- What an enabled mapping gives: a console role, or a site.
pub data Target : Type 0 where
  role_target : ConsoleRole → Target
  site_target : Text → Target

-- `MappingLite`.
pub record Mapping : Type 0 where
  pub target : Target
  pub group_dn : Text
  pub enabled : Bool

pub record ReconcileDecision : Type 0 where
  pub deprovision : Bool
  pub role : Option Role
  pub grant_site_ids : List Text

-- `ROLE_RANK`.
abbrev pub role_rank : ConsoleRole → ℕ
role_rank admin = 3
role_rank operator = 2
role_rank auditor = 1

abbrev pub to_role : ConsoleRole → Role
to_role admin = Role.admin
to_role operator = Role.operator
to_role auditor = Role.auditor

-- The part of a string before a separator; after the first separator, or all of it without one.
abbrev pub before : ℕ → Text → Text
before sep [] = []
before sep (c ∷ s) = let rest = before sep s in if c == sep then [] else c ∷ rest

abbrev pub after_or : Text → ℕ → Text → Text
after_or all sep [] = all
after_or all sep (c ∷ s) = let rest = after_or all sep s in if c == sep then s else rest

abbrev pub has_unit : ℕ → Text → Bool
has_unit c s = any (λ d. d == c) s

-- `[...new Set(xs)]`: the first of each.
abbrev pub distinct : List Text → List Text
distinct [] = []
distinct (x ∷ xs) = x ∷ select (λ y. not (text_eq x y)) (distinct xs)

unfoldable pub is_bare_name : Text → Bool
is_bare_name v = not (is_empty v) && (not (has_unit b'=' v) && not (has_unit b',' v))

abbrev pub role_targets : List Mapping → List ConsoleRole
role_targets [] = []
role_targets (m ∷ ms) =
    let rest = role_targets ms in elim m.target [ role_target r ↦ r ∷ rest | site_target id ↦ rest ]

abbrev pub site_targets : List Mapping → List Text
site_targets [] = []
site_targets (m ∷ ms) =
    let rest = site_targets ms in
    elim m.target [ role_target r ↦ rest | site_target id ↦ id ∷ rest ]

-- The `reduce` that keeps the role of the highest rank.
abbrev pub highest : ConsoleRole → List ConsoleRole → ConsoleRole
highest best [] = best
highest best (r ∷ rs) =
    let higher = highest r rs in
    let same = highest best rs in if ltb (role_rank best) (role_rank r) then higher else same

abbrev pub role_of_targets : List ConsoleRole → List Text → Option Role
role_of_targets (r ∷ rs) sites = some (to_role (highest r (r ∷ rs)))
role_of_targets [] [] = none
role_of_targets [] (x ∷ xs) = some staff

-- The decision on the mappings that match.
abbrev pub decide_matched : Bool → List Mapping → ReconcileDecision
decide_matched managed [] = record { deprovision = managed; role = none; grant_site_ids = [] }
decide_matched managed (m ∷ ms) = record {
  deprovision = false;
  role = role_of_targets (role_targets (m ∷ ms)) (site_targets (m ∷ ms));
  grant_site_ids = distinct (site_targets (m ∷ ms));
}

module _ (to_lower : Text → Text) where
  unfoldable pub normalize_dn : Text → Text
  normalize_dn dn = to_lower (join (b',' ∷ []) (map trim (split b',' dn)))

  unfoldable pub cn_of : Text → Text
  cn_of dn = let head = trim (before b',' dn) in to_lower (trim (after_or head b'=' head))

  abbrev pub matches : List Text → Mapping → Bool
  matches groups m =
      let g = trim m.group_dn in
      m.enabled
      && (if is_bare_name g
          then contains (map cn_of groups) (to_lower g)
          else contains (map normalize_dn groups) (normalize_dn g))

  unfoldable pub compute_reconcile : List Text → List Mapping → Bool → ReconcileDecision
  compute_reconcile resolved_groups mappings directory_managed =
      decide_matched directory_managed (select (matches resolved_groups) mappings)

pub record GrantPlan : Type 0 where
  pub to_create_site_ids : List Text
  pub to_revoke_site_ids : List Text

unfoldable pub plan_grant_changes : List Text → List Text → GrantPlan
plan_grant_changes current desired = record {
  to_create_site_ids = select (λ x. not (contains current x)) (distinct desired);
  to_revoke_site_ids = select (λ x. not (contains desired x)) (distinct current);
}
