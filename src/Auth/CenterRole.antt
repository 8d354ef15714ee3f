-- ===== src/Auth/CenterRole.antt =====
-- lib/auth/center-role.ts: what a sign-in through Captivo ID makes of a console user's role.
pub mod Follows
use captivo_access.Prelude.{
  ◌≡◌, ◌≢◌, ◌⊎◌, inl, inr, refl, Bool, true, false, not, ◌&&◌, ◌||◌, List, [], ◌∷◌, Option, none,
  some, Text, lit, text_eq, arith, any, is_empty, text_eq_refl, Bool-cases, if◌then◌else◌,
}
use captivo_access.Json.{Json, undefined, null, str}
use captivo_access.Access.Evaluate.{UserStatus, is_active_user}
use captivo_access.Auth.Roles.{Role, operator, auditor, staff, platform, same_role, same_role_iff}

pub data CenterRole : Type 0 where
  owner admin member : CenterRole

-- The columns that the rule reads; `center_role` is null where the centre never spoke.
pub record ConsoleUser : Type 0 where
  pub role : Role
  pub center_role : Option Text
  pub status : UserStatus

unfoldable pub center_role_of : Json → CenterRole
center_role_of (str r) =
    if text_eq r (lit "OWNER")
    then owner
    else if text_eq r (lit "ADMIN")
    then CenterRole.admin
    else member
center_role_of _ = member

abbrev pub console_roles_for : CenterRole → List Role
console_roles_for member = operator ∷ auditor ∷ staff ∷ []
console_roles_for _ = Role.admin ∷ operator ∷ auditor ∷ staff ∷ []

unfoldable pub console_role_allowed : CenterRole → Role → Bool
console_role_allowed c role = any (same_role role) (console_roles_for c)

-- `accessRoleForGrant` of lib/auth/oidc.ts.
abbrev pub access_role_for_grant : CenterRole → Role
access_role_for_grant member = staff
access_role_for_grant _ = Role.admin

-- How the column spells a centre role.
abbrev pub center_text : CenterRole → Text
center_text owner = lit "OWNER"
center_text CenterRole.admin = lit "ADMIN"
center_text member = lit "MEMBER"

-- `user.centerRole === centerRole`.
abbrev pub same_center : Option Text → CenterRole → Bool
same_center none c = false
same_center (some t) c = text_eq t (center_text c)

pub data Reconciled : Type 0 where
  unchanged revoked : Reconciled
  update : Role → CenterRole → Reconciled

abbrev pub is_platform : Role → Bool
is_platform platform = true
is_platform _ = false

-- The decision once the grant names a role.
unfoldable pub reconcile_granted : ConsoleUser → CenterRole → Reconciled
reconcile_granted u c =
    let changed = not (same_center u.center_role c) in
    let role =
      if changed || not (console_role_allowed c u.role) then access_role_for_grant c else u.role in
    if same_role role u.role && same_center u.center_role c && is_active_user u.status
    then unchanged
    else update role c

-- The centre grants nothing here: `user.centerRole ? revoked : unchanged`.
abbrev pub reconcile_absent : Option Text → Reconciled
reconcile_absent none = unchanged
reconcile_absent (some t) = if is_empty t then unchanged else revoked

unfoldable pub reconcile_by_grant : ConsoleUser → Json → Reconciled
reconcile_by_grant u undefined = reconcile_absent u.center_role
reconcile_by_grant u null = reconcile_absent u.center_role
reconcile_by_grant u g = reconcile_granted u (center_role_of g)

unfoldable pub reconcile_center_role : ConsoleUser → Json → Reconciled
reconcile_center_role u grant_role =
    if is_platform u.role then unchanged else reconcile_by_grant u grant_role

-- What the callback writes for each outcome.
unfoldable pub apply_reconciled : ConsoleUser → Reconciled → ConsoleUser
apply_reconciled u unchanged = u
apply_reconciled u revoked = record u { status = UserStatus.disabled }
apply_reconciled u (update role c) = record {
  role = role;
  center_role = some (center_text c);
  status = UserStatus.active;
}
