-- ===== src/Directory/Sync.antt =====
-- lib/directory/sync.ts and sync-throttle.ts: what a sign-in makes of the directory's answer. The
-- directory is reached through the connector, so its answer is an argument; so are the mappings
-- (`listGroupMappingsLite`), the clock and the identifiers of new grants. A failure to write the
-- audit events is swallowed by the code, and the events handed over are the result here.
pub mod Provision
pub mod Outcome
use captivo_access.Prelude.{
  ℕ, ◌+◌, ◌*◌, Bool, true, false, not, ◌&&◌, ◌||◌, List, [], ◌∷◌, ◌++◌, Option, none, some, map,
  Text, lit, text_eq, is_empty, contains, length, ltb, ◌==◌, if◌then◌else◌, get_or,
}
use captivo_access.Prelude.Decimal.{decimal}
use captivo_access.Json.{nat, null}
use captivo_access.Database.{Table, find_first}
use captivo_access.Access.Evaluate.{GrantStatus, UserStatus, Grant}
use captivo_access.Access.Grants.{is_active}
use captivo_access.Audit.Append.{AuditInput}
use captivo_access.Auth.Roles.{Role, same_role}
use captivo_access.Directory.Reconcile.{
  Mapping, ReconcileDecision, compute_reconcile, GrantPlan, plan_grant_changes,
}

-- The columns of a `User` row that the sync reads and writes.
pub record DirectoryRow : Type 0 where
  pub id : Text
  pub role : Role
  pub status : UserStatus
  pub directory_managed : Bool
  pub directory_last_verified_at : Option ℕ

-- The argument of `syncUserAtLogin`.
pub record DirectoryUser : Type 0 where
  pub id : Text
  pub email : Text
  pub role : Role
  pub directory_managed : Bool

pub record DirectoryConfig : Type 0 where
  pub enabled : Bool
  pub connector_id : Option Text

-- What `resolveDirectoryUser` did: it threw, returned an error, or said whether the user is there.
pub data Answer : Type 0 where
  threw : Answer
  failed : Text → Answer
  absent : Answer
  present : Option (List Text) → Answer

-- `shouldSkipSync`; `now - last < throttle` is written without subtraction.
abbrev pub time_or_zero : Option ℕ → ℕ
time_or_zero none = 0
time_or_zero (some t) = t

unfoldable pub should_skip_sync : Option ℕ → ℕ → ℕ → Bool
should_skip_sync last_verified_at now throttle_ms =
    let last = time_or_zero last_verified_at in
    ltb 0 throttle_ms && (ltb 0 last && ltb now (last + throttle_ms))

abbrev pub is_connected : Option DirectoryConfig → Bool
is_connected none = false
is_connected (some cfg) = elim cfg.connector_id [
  | none ↦ false
  | some id ↦ cfg.enabled && not (is_empty id)
]

-- An answer that says who is in the directory: the groups of the user, none where it is absent.
abbrev pub groups_of : Answer → Option (List Text)
groups_of threw = none
groups_of (failed error) = if is_empty error then some [] else none
groups_of absent = some []
groups_of (present none) = some []
groups_of (present (some groups)) = some groups

abbrev pub role_name : Role → Text
role_name Role.admin = lit "ADMIN"
role_name Role.operator = lit "OPERATOR"
role_name Role.auditor = lit "AUDITOR"
role_name Role.staff = lit "STAFF"
role_name Role.vendor = lit "VENDOR"
role_name Role.platform = lit "PLATFORM"

unfoldable pub directory_event : DirectoryUser → Text → Text → Text → AuditInput
directory_event user decision path reason = record {
  timestamp = none;
  user_id = some user.id;
  site_id = none;
  host = some (lit "manager");
  method = some (lit "SYNC");
  path = some path;
  status = some (nat 200);
  bytes_out = none;
  decision = some decision;
  reason = some reason;
  client_ip = none;
  user_agent = none;
}

abbrev pub role_changed : Option Role → Role → Bool
role_changed none current = false
role_changed (some r) current = not (same_role r current)

unfoldable pub provisioned_grant : Text → Text → Text → Grant
provisioned_grant id user_id site_id = record {
  id = id;
  user_id = user_id;
  site_id = site_id;
  status = GrantStatus.active;
  starts_at = none;
  ends_at = none;
  requires_approval = false;
  approved_at = none;
  approved_by_id = none;
  deny_reason = none;
  schedule = null;
  note = some (lit "Provisioned from AD group");
  created_by_id = none;
  directory_managed = true;
}

-- The grants that the directory gave a user and that are in force.
abbrev pub is_directory_grant : Text → Grant → Bool
is_directory_grant user_id g =
    text_eq g.user_id user_id && (is_active g.status && g.directory_managed)

abbrev pub mark_revoked : Grant → Grant
mark_revoked g = record g { status = GrantStatus.revoked }

-- The grants part of `provisionUser`; `new_id` names the rows that are created.
module _ (tg : Table Grant) where
  unfoldable pub create_all : (Text → Text) → Text → List Text → tg.Store → tg.Store
  create_all new_id user_id [] s = s
  create_all new_id user_id (site_id ∷ rest) s =
      create_all new_id user_id rest
        (tg.create (provisioned_grant (new_id site_id) user_id site_id) s)

  unfoldable pub plan_of : Text → List Text → tg.Store → GrantPlan
  plan_of user_id desired s =
      plan_grant_changes (map (λ g. g.site_id) (tg.find_many (is_directory_grant user_id) s))
        desired

  unfoldable pub revoke_sites : Text → List Text → tg.Store → tg.Store
  revoke_sites user_id [] s = s
  revoke_sites user_id (x ∷ xs) s =
      (tg.update_many (λ g. is_directory_grant user_id g && contains (x ∷ xs) g.site_id)
        mark_revoked s).0

  unfoldable pub provision_grants : (Text → Text) → Text → List Text → tg.Store → tg.Store
  provision_grants new_id user_id desired s =
      let plan = plan_of user_id desired s in
      revoke_sites user_id plan.to_revoke_site_ids
        (create_all new_id user_id plan.to_create_site_ids s)

  unfoldable pub deprovision_grants : Text → tg.Store → tg.Store
  deprovision_grants user_id s =
      (tg.update_many (λ g. text_eq g.user_id user_id && is_active g.status) mark_revoked s).0

module _ (tu : Table DirectoryRow) (tg : Table Grant) where
  pub record State : Type 0 where
    pub users : tu.Store
    pub grants : tg.Store
    pub events : List AuditInput

  abbrev pub update_user : Text → (DirectoryRow → DirectoryRow) → tu.Store → tu.Store
  update_user id f s = (tu.update_many (λ u. text_eq u.id id) f s).0

  unfoldable pub provision_user :
      (Text → Text) → DirectoryUser → ReconcileDecision → ℕ → State → State
  provision_user new_id user decision now s =
      let plan = plan_of tg user.id decision.grant_site_ids s.grants in
      let changed = role_changed decision.role user.role in
      let new_role = get_or decision.role user.role in
      let set_user = λ (u : DirectoryRow). record u {
        directory_managed = true;
        directory_last_verified_at = some now;
        role = if changed then new_role else u.role;
      } in
      let reason =
        lit "role="
        ++ role_name new_role
        ++ lit "; +"
        ++ decimal (length plan.to_create_site_ids)
        ++ lit " grants, -"
        ++ decimal (length plan.to_revoke_site_ids)
        ++ lit " grants" in
      let audited =
        changed
        || (ltb 0 (length plan.to_create_site_ids) || ltb 0 (length plan.to_revoke_site_ids)) in
      record {
        users = update_user user.id set_user s.users;
        grants = provision_grants tg new_id user.id decision.grant_site_ids s.grants;
        events =
            if audited
            then s.events
              ++ directory_event user (lit "ALLOW") (lit "directory.provision") reason ∷ []
            else s.events;
      }

  unfoldable pub deprovision_user : DirectoryUser → ℕ → State → State
  deprovision_user user now s = record {
    users =
        update_user user.id
          (λ u. record u { status = UserStatus.disabled; directory_last_verified_at = some now })
          s.users;
    grants = deprovision_grants tg user.id s.grants;
    events =
        s.events
        ++ directory_event user (lit "DENY") (lit "directory.deprovision")
            (lit "removed from all mapped AD groups")
          ∷ [];
  }

  unfoldable pub stamp_user : DirectoryUser → ℕ → State → State
  stamp_user user now s = record s {
    users = update_user user.id (λ u. record u { directory_last_verified_at = some now }) s.users;
  }

  abbrev pub gives_nothing : ReconcileDecision → Bool
  gives_nothing d = elim d.role [ none ↦ length d.grant_site_ids == 0 | some r ↦ false ]

  -- The state after the decision, and whether the sign-in is refused.
  unfoldable pub apply_decision :
      (Text → Text) → DirectoryUser → ReconcileDecision → ℕ → State → State × Bool
  apply_decision new_id user decision now s =
      if decision.deprovision
      then (deprovision_user user now s, true)
      else if gives_nothing decision
      then (stamp_user user now s, false)
      else (provision_user new_id user decision now s, false)

  abbrev pub last_verified : Option DirectoryRow → Option ℕ
  last_verified none = none
  last_verified (some u) = u.directory_last_verified_at

  abbrev pub is_throttled : ℕ → Text → ℕ → State → Bool
  is_throttled throttle_ms id now s =
      ltb 0 throttle_ms
      && should_skip_sync (last_verified (find_first tu (λ u. text_eq u.id id) s.users)) now
          throttle_ms

  unfoldable pub sync_user_at_login :
      (Text → Text)
      → (Text → Text)
      → Option DirectoryConfig
      → ℕ
      → Answer
      → List Mapping
      → DirectoryUser
      → ℕ
      → State
      → State × Bool
  sync_user_at_login to_lower new_id cfg throttle_ms answer mappings user now s =
      if not (is_connected cfg)
      then (s, false)
      else if is_throttled throttle_ms user.id now s
      then (s, false)
      else elim (groups_of answer) [
        | none ↦ (s, false)
        | some groups ↦
            apply_decision new_id user
              (compute_reconcile to_lower groups mappings user.directory_managed) now s
      ]
