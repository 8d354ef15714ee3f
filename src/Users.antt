-- ===== src/Users.antt =====
-- app/api/admin/users/[id]/route.ts and lib/platform/admins.ts: the administration of users, over
-- the table of users and the log of administrative actions. What the database deletes along with a
-- user (passkeys, sessions, grants) is left out.
pub mod Lockout
pub mod Operators
use captivo_access.Prelude.{
  ℕ, ◌+◌, Bool, true, false, not, ◌&&◌, ◌||◌, List, [], ◌∷◌, ◌++◌, Option, none, some, Text, lit,
  text_eq, leb, is_empty, is_some, get_or, if◌then◌else◌,
}
use captivo_access.Prelude.Outcomes.{Outcome, returns, replies, ◌>>=◌, ◌>>◌, require, present}
use captivo_access.Json.{Json, str, Fields, get, as_string}
use captivo_access.Database.{Table, find_first, tally}
use captivo_access.Auth.Roles.{Role, can, configure, same_role}
use captivo_access.Auth.CenterRole.{center_role_of, console_role_allowed}
use captivo_access.Access.Evaluate.{UserStatus, is_active_user}
use captivo_access.Access.Routes.Replies.{
  Caller, Failure, failure, Reply, failed, done, Call, signed_in, logged,
}
use captivo_access.Access.Routes.Checks.{forbidden}
use captivo_access.Audit.Admin.{AdminWriter, AdminAction, AdminLog}

pub record Person : Type 0 where
  pub id : Text
  pub email : Text
  pub role : Role
  pub status : UserStatus
  pub center_role : Option Text

-- `VALID_STATUSES` and `ASSIGNABLE_ROLES`, by their names.
unfoldable pub status_named : Text → Option UserStatus
status_named s =
    if text_eq s (lit "ACTIVE")
    then some UserStatus.active
    else if text_eq s (lit "DISABLED")
    then some UserStatus.disabled
    else none

unfoldable pub role_named : Text → Option Role
role_named s =
    if text_eq s (lit "ADMIN")
    then some Role.admin
    else if text_eq s (lit "OPERATOR")
    then some Role.operator
    else if text_eq s (lit "AUDITOR")
    then some Role.auditor
    else if text_eq s (lit "STAFF")
    then some Role.staff
    else if text_eq s (lit "VENDOR")
    then some Role.vendor
    else none

-- `!s` for a string that may be absent, and the truth of a column.
abbrev pub is_missing : Option Text → Bool
is_missing none = true
is_missing (some s) = is_empty s

abbrev pub is_disabled : UserStatus → Bool
is_disabled s = not (is_active_user s)

pub record PersonEdit : Type 0 where
  pub status : Option UserStatus
  pub role : Option Role

-- The status that is asked for: valid, and not the end of the caller's own account.
unfoldable pub read_status : Bool → Option Text → Outcome Failure (Option UserStatus)
read_status own none = returns none
read_status own (some s) = do
  status ← present (status_named s) (failure 400 (lit "invalid_status"))
  require (not (own && is_disabled status)) (failure 403 (lit "cannot_disable_self"))
  returns (some status)

-- The role that is asked for: assignable, and not the caller's own.
unfoldable pub read_role : Bool → Option Text → Outcome Failure (Option Role)
read_role own none = returns none
read_role own (some r) = do
  role ← present (role_named r) (failure 400 (lit "invalid_role"))
  require (not own) (failure 403 (lit "cannot_change_own_role"))
  returns (some role)

abbrev pub is_managed : Person → Bool
is_managed p = not (is_missing p.center_role)

abbrev pub center_json : Option Text → Json
center_json none = captivo_access.Json.null
center_json (some s) = str s

-- Under the ceiling of the centre, where a role is given.
abbrev pub within_ceiling : Person → Option Role → Bool
within_ceiling p none = true
within_ceiling p (some role) =
    not (is_managed p) || console_role_allowed (center_role_of (center_json p.center_role)) role

-- The checks of `PATCH /api/admin/users/[id]`; `target` is the user with the identifier.
unfoldable pub check_person_edit :
    Option Caller → Text → Fields → Option Person → Outcome Failure (Caller × PersonEdit)
check_person_edit caller id body target = do
  admin ← signed_in caller
  require (can admin.role configure) forbidden
  let status_text = as_string (get (lit "status") body)
  let role_text = as_string (get (lit "role") body)
  require (not (is_missing status_text && is_missing role_text))
      (failure 400 (lit "nothing_to_update"))
  let own = text_eq id admin.id
  status ← read_status own status_text
  role ← read_role own role_text
  person ← present target (failure 404 (lit "not_found"))
  require (not (is_managed person && is_some status)) (failure 403 (lit "managed_by_center"))
  require (within_ceiling person role) (failure 403 (lit "center_role_ceiling"))
  returns (admin, record { status = status; role = role })

-- The checks of `DELETE /api/admin/users/[id]`.
unfoldable pub check_person_removal : Option Caller → Text → Option Person → Outcome Failure Caller
check_person_removal caller id target = do
  admin ← signed_in caller
  require (can admin.role configure) forbidden
  require (not (text_eq id admin.id)) (failure 403 (lit "cannot_delete_self"))
  person ← present target (failure 404 (lit "not_found"))
  require (not (same_role person.role Role.admin)) (failure 403 (lit "cannot_delete_admin"))
  require (not (is_managed person)) (failure 403 (lit "managed_by_center"))
  returns admin

abbrev pub person_edited : PersonEdit → Person → Person
person_edited e p = record p { status = get_or e.status p.status; role = get_or e.role p.role }

abbrev pub person_action : Text → Text → Caller → Call → Text → AdminAction
person_action name word admin call id = record {
  actor_id = admin.id;
  actor_email = some admin.email;
  action = name;
  target_type = some (lit "user");
  target_id = some id;
  summary = word ++ lit " user " ++ id;
  metadata = none;
  client_ip = call.client_ip;
}

module _ (writer : AdminWriter) (t : Table Person) where
  pub record People : Type 0 where
    pub users : t.Store
    pub log : AdminLog

  abbrev pub person_of : Text → t.Store → Option Person
  person_of id s = find_first t (λ p. text_eq p.id id) s

  abbrev pub carry : {A : Type 0} → Outcome Failure A → (A → People) → People → People × Reply
  carry (returns a) act s = (act a, done)
  carry (replies f) act s = (s, failed f)

  abbrev pub edit_person : Call → Text → Caller × PersonEdit → People → People
  edit_person call id (admin, e) s = record {
    users = (t.update_many (λ p. text_eq p.id id) (person_edited e) s.users).0;
    log =
        logged writer call (person_action (lit "user.update") (lit "Updated") admin call id) s.log;
  }

  abbrev pub remove_person : Call → Text → Caller → People → People
  remove_person call id admin s = record {
    users = (t.delete_many (λ p. text_eq p.id id) s.users).0;
    log =
        logged writer call (person_action (lit "user.delete") (lit "Deleted") admin call id) s.log;
  }

  -- The handlers.
  unfoldable pub patch_user : Option Caller → Text → Fields → Call → People → People × Reply
  patch_user caller id body call s =
      carry (check_person_edit caller id body (person_of id s.users)) (λ x. edit_person call id x s)
        s

  unfoldable pub delete_user : Option Caller → Text → Call → People → People × Reply
  delete_user caller id call s =
      carry (check_person_removal caller id (person_of id s.users))
        (λ admin. remove_person call id admin s) s

pub data OperatorError : Type 0 where
  cannot_remove_self last_admin not_found : OperatorError

abbrev pub is_operator : Person → Bool
is_operator p = same_role p.role Role.platform

abbrev pub is_active_operator : Person → Bool
is_active_operator p = is_operator p && is_active_user p.status

module _ (t : Table Person) where
  -- `removePlatformAdmin`.
  unfoldable pub remove_platform_admin : Text → Text → t.Store → Outcome OperatorError t.Store
  remove_platform_admin id actor_id s = do
    require (not (text_eq id actor_id)) cannot_remove_self
    require (leb 2 (tally t is_active_operator s)) last_admin
    person ← present (find_first t (λ p. text_eq p.id id) s) not_found
    require (is_operator person) not_found
    returns (t.delete_many (λ p. text_eq p.id id) s).0
