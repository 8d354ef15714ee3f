-- ===== src/Users/Lockout.antt =====
-- About the handlers of app/api/admin/users/[id]/route.ts: the administrators that are left.
use captivo_access.Prelude.{
  ◌<◌, ◌≡◌, refl, inl, inr, Bool, true, false, not, ◌&&◌, ◌||◌, Option, none, some, Text, text_eq,
  text_eq_iff, is_some, get_or, arith, Bool-cases, sym, ◌∙◌,
}
use captivo_access.Prelude.Outcomes.{
  Outcome, returns, replies, Yields, Yields-bind, Yields-returns, require-eq-returns,
  present-eq-returns,
}
use captivo_access.Json.{Fields}
use captivo_access.Database.{Table, tally, every, updated}
use captivo_access.Database.Queries.{count_mono}
use captivo_access.Auth.Roles.{Role, can, configure, same_role}
use captivo_access.Access.Evaluate.{UserStatus, is_active_user}
use captivo_access.Access.Routes.Replies.{Caller, Failure, Call}
use captivo_access.Users.{
  Person, PersonEdit, read_status, read_role, check_person_edit, check_person_removal,
  person_edited, People, carry, edit_person, remove_person, patch_user, delete_user, person_of,
}
use captivo_access.Audit.Admin.{AdminWriter}

abbrev pub is_active_admin : Person → Bool
is_active_admin p = same_role p.role Role.admin && is_active_user p.status

abbrev is_own_admin : Text → Person → Bool
is_own_admin id p = text_eq p.id id && is_active_admin p

-- The edit does not take the administrator's own role or account, where `own` holds.
abbrev is_safe : Bool → PersonEdit → Bool
is_safe own e =
    not own || (not (is_some e.role) && is_active_user (get_or e.status UserStatus.active))

read_status-IsSafe :
    (own : Bool) (s : Option Text)
    → Yields
        (λ st. (not own || is_active_user (get_or st UserStatus.active)) ≡ true)
        (read_status own s)
unfolding Yields read_status
read_status-IsSafe own none = ground arith
read_status-IsSafe own (some s) = Yields-bind _ _ _ λ status _.
    Yields-bind _ _ _ λ _ kept. let fine = require-eq-returns _ _ kept in ground (arith, fine)

read_role-IsSafe :
    (own : Bool) (r : Option Text)
    → Yields (λ role. (not own || not (is_some role)) ≡ true) (read_role own r)
unfolding Yields read_role
read_role-IsSafe own none = ground arith
read_role-IsSafe own (some r) = Yields-bind _ _ _ λ role _.
    Yields-bind _ _ _ λ _ kept. let fine = require-eq-returns _ _ kept in ground (arith, fine)

-- The checks of an edit let through safe edits of callers who may configure.
check_person_edit-IsSafe :
    (caller : Option Caller) (id : Text) (body : Fields) (target : Option Person)
    → Yields
        (λ x.
          (caller ≡ some x.0)
          × (can x.0.role configure ≡ true)
          × (is_safe (text_eq id x.0.id) x.1 ≡ true))
        (check_person_edit caller id body target)
unfolding Yields check_person_edit
check_person_edit-IsSafe caller id body target =
    let P = λ (x : Caller × PersonEdit).
      (caller ≡ some x.0)
      × (can x.0.role configure ≡ true)
      × (is_safe (text_eq id x.0.id) x.1 ≡ true) in
    Yields-bind P _ _ λ admin who.
      let own = text_eq id admin.id in
      Yields-bind P _ _ λ _ may. Yields-bind P _ _ λ _ _. Yields-bind P _ _ λ status status_read.
        Yields-bind P _ _ λ role role_read. Yields-bind P _ _ λ person _. Yields-bind P _ _ λ _ _.
          Yields-bind P _ _ λ _ _.
            let s = Yields-returns _ _ (read_status-IsSafe own _) status_read in
            let r = Yields-returns _ _ (read_role-IsSafe own _) role_read in
            (present-eq-returns caller _ who, require-eq-returns _ _ may, ground (arith, s, r))

check_person_removal-IsOther :
    (caller : Option Caller) (id : Text) (target : Option Person)
    → Yields
        (λ x. (caller ≡ some x) × (can x.role configure ≡ true) × (text_eq id x.id ≡ false))
        (check_person_removal caller id target)
unfolding Yields check_person_removal
check_person_removal-IsOther caller id target =
    let P = λ (x : Caller).
      (caller ≡ some x) × (can x.role configure ≡ true) × (text_eq id x.id ≡ false) in
    Yields-bind P _ _ λ admin who. Yields-bind P _ _ λ _ may. Yields-bind P _ _ λ _ other.
      Yields-bind P _ _ λ person _. Yields-bind P _ _ λ _ _. Yields-bind P _ _ λ _ _.
        let differs = require-eq-returns _ _ other in
        (present-eq-returns caller _ who, require-eq-returns _ _ may, ground (arith, differs))

-- Only an administrator may configure.
configures : (r : Role) → can r configure ≡ true → r ≡ Role.admin
unfolding can
configures Role.admin h = refl
configures _ h = absurd cc

-- A safe edit of one's own account leaves it an active administrator.
safe_fields :
    (role : Role) (status : UserStatus) (r : Option Role) (s : Option UserStatus) (mine : Bool)
    → (not (is_some r) && is_active_user (get_or s UserStatus.active)) ≡ true
    → (mine && (same_role role Role.admin && is_active_user status)) ≡ true
    → (mine && (same_role (get_or r role) Role.admin && is_active_user (get_or s status))) ≡ true
safe_fields role status (some r) s mine h k = absurd cc
safe_fields role status none none mine h k = k
safe_fields role status none (some s) mine h k = ground arith

edited_row :
    (id own_id : Text) (e : PersonEdit) (p : Person)
    → is_safe (text_eq id own_id) e ≡ true
    → is_own_admin own_id p ≡ true
    → is_own_admin own_id (updated (λ p. text_eq p.id id) (person_edited e) p) ≡ true
edited_row id own_id e p safe mine = elim (Bool-cases (text_eq p.id id)) [
  | inr other ↦ rw other mine
  | inl hit ↦
      let at_id : p.id ≡ id = (text_eq_iff _ _).0 hit in
      let at_own : p.id ≡ own_id = (text_eq_iff _ _).0 (ground arith) in
      let own : text_eq id own_id ≡ true = (text_eq_iff _ _).1 (sym at_id ∙ at_own) in
      rw hit
        (safe_fields p.role p.status e.role e.status (text_eq p.id own_id) (rw own at safe) mine)
]

module _ (writer : AdminWriter) (t : Table Person) where
  -- The caller is signed in: `getCurrentUser` found an active user with that identifier and role.
  abbrev pub IsSignedIn : Option Caller → t.Store → Type 0
  IsSignedIn none s = Unit
  IsSignedIn (some c) s =
      0 < tally t (λ p. text_eq p.id c.id && (same_role p.role c.role && is_active_user p.status)) s

  abbrev pub SomeAdmin : t.Store → Type 0
  SomeAdmin s = 0 < tally t is_active_admin s

  own_row :
      (c : Caller) (s : t.Store)
      → IsSignedIn (some c) s
      → can c.role configure ≡ true
      → 0 < tally t (is_own_admin c.id) s
  own_row c s signed may = rw (configures c.role may) at signed

  edit_keeps :
      (id : Text) (c : Caller) (e : PersonEdit) (s : t.Store)
      → 0 < tally t (is_own_admin c.id) s
      → is_safe (text_eq id c.id) e ≡ true
      → SomeAdmin (t.update_many (λ p. text_eq p.id id) (person_edited e) s).0
  edit_keeps id c e s mine safe = omega (
    arith,
    mine,
    t.count-update (λ p. text_eq p.id id) (person_edited e) is_active_admin s,
    count_mono (is_own_admin c.id)
        (λ p. is_active_admin (updated (λ p. text_eq p.id id) (person_edited e) p))
        (t.find_many every s)
        (λ p h. let kept = edited_row id c.id e p safe h in ground (arith, kept)),
  )

  other_row :
      (id own_id : Text) (p : Person)
      → text_eq id own_id ≡ false
      → is_own_admin own_id p ≡ true
      → (not (text_eq p.id id) && is_active_admin p) ≡ true
  other_row id own_id p differs mine = elim (Bool-cases (text_eq p.id id)) [
    | inr other ↦ rw other (ground arith)
    | inl hit ↦
        let at_id : p.id ≡ id = (text_eq_iff _ _).0 hit in
        let at_own : p.id ≡ own_id = (text_eq_iff _ _).0 (ground arith) in
        let own : text_eq id own_id ≡ true = (text_eq_iff _ _).1 (sym at_id ∙ at_own) in
        absurd (ground (arith, own))
  ]

  removal_keeps :
      (id : Text) (c : Caller) (s : t.Store)
      → 0 < tally t (is_own_admin c.id) s
      → text_eq id c.id ≡ false
      → SomeAdmin (t.delete_many (λ p. text_eq p.id id) s).0
  removal_keeps id c s mine differs = omega (
    arith,
    mine,
    t.count-delete (λ p. text_eq p.id id) is_active_admin s,
    count_mono (is_own_admin c.id) (λ p. not (text_eq p.id id) && is_active_admin p)
        (t.find_many every s) (λ p h. other_row id c.id p differs h),
  )

  carry-Yields :
      {A : Type 0} (P : A → Type 0) (Q : t.Store → Type 0) (m : Outcome Failure A)
      (act : A → People writer t) (s : People writer t)
      → Yields P m
      → ((a : A) → P a → Q (act a).users)
      → Q s.users
      → Q (carry writer t m act s).0.users
  unfolding Yields
  carry-Yields P Q (returns a) act s y h q = h a y
  carry-Yields P Q (replies f) act s y h q = q

  -- Whatever a signed-in caller, or nobody, asks of the handlers of users, an active administrator is
  -- left where there was one: none can disable, delete or demote their own account.
  pub users_SomeAdmin :
      (caller : Option Caller) (id : Text) (body : Fields) (call : Call) (s : People writer t)
      → SomeAdmin s.users
      → IsSignedIn caller s.users
      → SomeAdmin (patch_user writer t caller id body call s).0.users
        × SomeAdmin (delete_user writer t caller id call s).0.users
  unfolding patch_user delete_user
  users_SomeAdmin caller id body call s some_admin signed = (
    carry-Yields _ SomeAdmin _ (λ x. edit_person writer t call id x s) s
        (check_person_edit-IsSafe caller id body (person_of writer t id s.users))
        (λ (admin, e) (who, may, safe).
          edit_keeps id admin e s.users (own_row admin s.users (rw who at signed) may) safe)
        some_admin,
    carry-Yields _ SomeAdmin _ (λ x. remove_person writer t call id x s) s
        (check_person_removal-IsOther caller id (person_of writer t id s.users))
        (λ admin (who, may, differs).
          removal_keeps id admin s.users (own_row admin s.users (rw who at signed) may) differs)
        some_admin,
  )
