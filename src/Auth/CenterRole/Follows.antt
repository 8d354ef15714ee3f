-- ===== src/Auth/CenterRole/Follows.antt =====
-- About lib/auth/center-role.ts and what the OIDC callback writes.
use captivo_access.Prelude.{
  ◌≡◌, ◌≢◌, ◌⊎◌, inl, inr, refl, true, false, Option, none, some, Text, arith, text_eq_refl,
  text_eq_iff, ap, Bool-cases, [], ◌∷◌,
}
use captivo_access.Json.{Json, undefined, null, is_nullish}
use captivo_access.Auth.Roles.{Role, same_role_iff}
use captivo_access.Access.Evaluate.{UserStatus}
use captivo_access.Auth.CenterRole.{
  CenterRole, owner, member, ConsoleUser, center_role_of, console_role_allowed,
  access_role_for_grant, center_text, same_center, unchanged, revoked, is_platform,
  reconcile_granted, reconcile_absent, reconcile_by_grant, reconcile_center_role, apply_reconciled,
}

mapped_is_allowed : (c : CenterRole) → console_role_allowed c (access_role_for_grant c) ≡ true
unfolding console_role_allowed
mapped_is_allowed owner = refl
mapped_is_allowed CenterRole.admin = refl
mapped_is_allowed member = refl

granted_ceiling :
    (u : ConsoleUser) (c : CenterRole)
    → console_role_allowed c (apply_reconciled u (reconcile_granted u c)).role ≡ true
unfolding reconcile_granted apply_reconciled
granted_ceiling u c =
    ground (arith, mapped_is_allowed c, same_role_iff (access_role_for_grant c) u.role)

granted_center :
    (u : ConsoleUser) (c : CenterRole)
    → same_center (apply_reconciled u (reconcile_granted u c)).center_role c ≡ true
unfolding reconcile_granted apply_reconciled
granted_center u c = ground (arith, text_eq_refl (center_text c))

granted_active :
    (u : ConsoleUser) (c : CenterRole)
    → (apply_reconciled u (reconcile_granted u c)).status ≡ UserStatus.active
unfolding reconcile_granted apply_reconciled
granted_active u c = ground arith

steady :
    (u : ConsoleUser) (c : CenterRole)
    → console_role_allowed c u.role ≡ true
    → same_center u.center_role c ≡ true
    → u.status ≡ UserStatus.active
    → reconcile_granted u c ≡ unchanged
unfolding reconcile_granted
steady u c a b d = ground (arith, same_role_iff u.role u.role)

not_platform : (c : CenterRole) (r : Role) → console_role_allowed c r ≡ true → is_platform r ≡ false
unfolding console_role_allowed
not_platform owner r h = ground arith
not_platform CenterRole.admin r h = ground arith
not_platform member r h = ground arith

by_grant_of :
    (u : ConsoleUser) (g : Json)
    → is_nullish g ≡ false
    → reconcile_by_grant u g ≡ reconcile_granted u (center_role_of g)
unfolding reconcile_by_grant
by_grant_of u undefined h = cc
by_grant_of u null h = cc
by_grant_of u _ h = refl

steady_sign_in :
    (u : ConsoleUser) (g : Json)
    → is_nullish g ≡ false
    → console_role_allowed (center_role_of g) u.role ≡ true
    → same_center u.center_role (center_role_of g) ≡ true
    → u.status ≡ UserStatus.active
    → reconcile_center_role u g ≡ unchanged
unfolding reconcile_center_role
steady_sign_in u g n a b d =
    rw (not_platform (center_role_of g) u.role a, by_grant_of u g n)
      (steady u (center_role_of g) a b d)

absent_grant :
    (u : ConsoleUser) (g : Json)
    → is_nullish g ≡ true
    → reconcile_by_grant u g ≡ reconcile_absent u.center_role
unfolding reconcile_by_grant
absent_grant u undefined h = refl
absent_grant u null h = refl
absent_grant u _ h = cc

-- What is recorded of the centre's role.
recorded : (o : Option Text) (c : CenterRole) → same_center o c ≡ true → o ≡ some (center_text c)
recorded none c h = absurd cc
recorded (some t) c h = ap some ((text_eq_iff t (center_text c)).0 h)

-- A sign-in with a grant leaves a user that is not platform staff ACTIVE, with the centre's role
-- on record and a console role that the centre's role allows; and the same sign-in again changes
-- nothing more. (The role of platform staff is left alone, whatever the grant says.)
pub reconcile_center_role_settles :
    (u : ConsoleUser) (g : Json)
    → is_platform u.role ≡ false
    → is_nullish g ≡ false
    → let u' = apply_reconciled u (reconcile_center_role u g) in
      (console_role_allowed (center_role_of g) u'.role ≡ true)
      × (u'.center_role ≡ some (center_text (center_role_of g)))
      × (u'.status ≡ UserStatus.active)
      × (reconcile_center_role u' g ≡ unchanged)
unfolding reconcile_center_role
reconcile_center_role_settles u g p n =
    let c = center_role_of g in
    rw (p, by_grant_of u g n)
      (
        granted_ceiling u c,
        recorded _ c (granted_center u c),
        granted_active u c,
        steady_sign_in (apply_reconciled u (reconcile_granted u c)) g n (granted_ceiling u c)
            (granted_center u c) (granted_active u c),
      )

abbrev pub IsManaged : Option Text → Type 0
IsManaged none = ⊥
IsManaged (some t) = t ≢ []

absent_cases :
    (o : Option Text)
    → ((reconcile_absent o ≡ revoked) × IsManaged o)
      ⊎ ((reconcile_absent o ≡ unchanged) × (IsManaged o → ⊥))
absent_cases none = inr (refl, λ h. h)
absent_cases (some []) = inr (refl, λ h. h refl)
absent_cases (some (x ∷ t)) = inl (refl, λ e. cc)

-- Without a grant, exactly the users that are not platform staff and that the centre manages are
-- revoked; everybody else is left as they are.
pub reconcile_center_role_absent :
    (u : ConsoleUser) (g : Json)
    → is_nullish g ≡ true
    → ((reconcile_center_role u g ≡ revoked)
        × (is_platform u.role ≡ false)
        × IsManaged u.center_role)
      ⊎ ((reconcile_center_role u g ≡ unchanged)
          × ((is_platform u.role ≡ true) ⊎ (IsManaged u.center_role → ⊥)))
unfolding reconcile_center_role
reconcile_center_role_absent u g n = elim (Bool-cases (is_platform u.role)) [
  | inl staff ↦ inr (rw staff, inl staff)
  | inr other ↦ elim (absent_cases u.center_role) [
    | inl (gone, managed) ↦ inl (rw (other, absent_grant u g n) gone, other, managed)
    | inr (same, unmanaged) ↦ inr (rw (other, absent_grant u g n) same, inr unmanaged)
  ]
]
