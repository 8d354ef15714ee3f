-- ===== src/Access/Grants.antt =====
-- lib/access/grants.ts, grant-edit.ts and deny-reason.ts: grants as rows of a table. The identifier
-- of a new row and the instant are arguments, since the database and the clock supply them.
pub mod Pending
pub mod Effects
pub mod Bounds
use captivo_access.Prelude.{
  ℕ, ◌+◌, ◌*◌, Bool, true, false, not, ◌&&◌, ◌||◌, List, [], ◌∷◌, Option, none, some, Text, text_eq,
  ltb, leb, ◌==◌, is_some, is_empty, trim, take, select, any, if◌then◌else◌,
}
use captivo_access.Json.{Json, null, str, as_string, non_empty}
use captivo_access.Database.{Table, find_first, tally}
use captivo_access.Access.Schedule.{Intl, Schedule, to_json}
use captivo_access.Access.Evaluate.{
  GrantStatus, active, revoked, denied, Grant, DecisionReason, expired, classify_grant,
}

abbrev pub is_active : GrantStatus → Bool
is_active active = true
is_active _ = false

-- The `schedule` column: absent without a schedule.
abbrev pub schedule_column : Option Schedule → Json
schedule_column none = null
schedule_column (some s) = to_json s

pub record GrantInput : Type 0 where
  pub user_id : Text
  pub site_id : Text
  pub starts_at : Option ℕ
  pub ends_at : Option ℕ
  pub note : Option Text
  pub created_by_id : Text
  pub schedule : Option Schedule

unfoldable pub granted : Text → GrantInput → Grant
granted id input = record {
  id = id;
  user_id = input.user_id;
  site_id = input.site_id;
  status = active;
  starts_at = input.starts_at;
  ends_at = input.ends_at;
  requires_approval = false;
  approved_at = none;
  approved_by_id = none;
  deny_reason = none;
  schedule = schedule_column input.schedule;
  note = input.note;
  created_by_id = some input.created_by_id;
  directory_managed = false;
}

pub record RequestInput : Type 0 where
  pub user_id : Text
  pub site_id : Text
  pub starts_at : Option ℕ
  pub ends_at : Option ℕ
  pub note : Text
  pub schedule : Option Schedule

unfoldable pub requested : Text → RequestInput → Grant
requested id input = record {
  id = id;
  user_id = input.user_id;
  site_id = input.site_id;
  status = active;
  starts_at = input.starts_at;
  ends_at = input.ends_at;
  requires_approval = true;
  approved_at = none;
  approved_by_id = none;
  deny_reason = none;
  schedule = schedule_column input.schedule;
  note = some input.note;
  created_by_id = some input.user_id;
  directory_managed = false;
}

-- `PENDING_WHERE`.
abbrev pub is_pending : Grant → Bool
is_pending g = is_active g.status && (g.requires_approval && not (is_some g.approved_at))

abbrev pub is_pending_of : Text → Text → Grant → Bool
is_pending_of user_id site_id g =
    is_pending g && (text_eq g.user_id user_id && text_eq g.site_id site_id)

pub data RequestResult : Type 0 where
  created : Text → RequestResult
  request_pending : RequestResult

pub data Verdict : Type 0 where
  approve deny : Verdict

-- The `data` of `decideGrant`.
abbrev pub decided : Verdict → Text → Option Text → ℕ → Grant → Grant
decided approve admin_id reason now g = record g {
  approved_at = some now;
  approved_by_id = some admin_id;
}
decided deny admin_id reason now g = record g {
  status = denied;
  approved_at = some now;
  approved_by_id = some admin_id;
  deny_reason = reason;
}

module _ (t : Table Grant) where
  unfoldable pub create_grant : Text → GrantInput → t.Store → t.Store
  create_grant id input s = t.create (granted id input) s

  unfoldable pub create_access_request : Text → RequestInput → t.Store → t.Store × RequestResult
  create_access_request id input s =
      elim (find_first t (is_pending_of input.user_id input.site_id) s) [
        | some g ↦ (s, request_pending)
        | none ↦ (t.create (requested id input) s, created id)
      ]

  unfoldable pub revoke_grant : Text → t.Store → t.Store
  revoke_grant id s =
      (t.update_many (λ g. text_eq g.id id) (λ g. record g { status = revoked }) s).0

  unfoldable pub decide_grant : Text → Verdict → Text → Option Text → ℕ → t.Store → t.Store × ℕ
  decide_grant id verdict admin_id reason now s =
      t.update_many (λ g. text_eq g.id id && is_pending g) (decided verdict admin_id reason now) s

  -- The lists, in the order in which the database returns the rows.
  unfoldable pub list_grants : t.Store → List Grant
  list_grants s = t.find_many (λ g. true) s

  unfoldable pub list_user_grants : Text → t.Store → List Grant
  list_user_grants user_id s = t.find_many (λ g. text_eq g.user_id user_id) s

  unfoldable pub list_user_requests : Text → t.Store → List Grant
  list_user_requests user_id s =
      t.find_many (λ g. text_eq g.user_id user_id && g.requires_approval) s

  unfoldable pub list_pending_grants : t.Store → List Grant
  list_pending_grants s = t.find_many is_pending s

  unfoldable pub count_pending_grants : t.Store → ℕ
  count_pending_grants s = tally t is_pending s

-- Whether a grant of this class frees its site for another request.
abbrev pub is_done : DecisionReason → Bool
is_done DecisionReason.revoked = true
is_done DecisionReason.denied = true
is_done expired = true
is_done _ = false

module _ (intl : Intl) (t : Table Grant) where
  -- Does the user hold (or await) this site?
  unfoldable pub holds_site : Text → Text → ℕ → t.Store → Bool
  unfolding list_user_grants
  holds_site user_id site_id now s =
      any (λ g. text_eq g.site_id site_id && not (is_done (classify_grant intl g now)))
        (list_user_grants t user_id s)

  -- `listSitesForRequest`, over the identifiers of the sites.
  unfoldable pub list_sites_for_request : Text → ℕ → List Text → t.Store → List Text
  list_sites_for_request user_id now sites s =
      select (λ site_id. not (holds_site user_id site_id now s)) sites

-- `normalizeDenyReason`.
unfoldable pub normalize_deny_reason : Json → Option Text
normalize_deny_reason (str raw) = if is_empty (trim raw) then none else some (take 500 (trim raw))
normalize_deny_reason _ = none

pub data GrantError : Type 0 where
  invalid_ends_at ends_at_in_past ends_at_before_start grant_requires_end grant_exceeds_max :
      GrantError

abbrev pub not_after_start : Option ℕ → ℕ → Bool
not_after_start none ends_at = false
not_after_start (some s) ends_at = leb ends_at s

-- An invalid date is `none`.
unfoldable pub grant_ends_at_error : Option ℕ → Option ℕ → ℕ → Option GrantError
grant_ends_at_error none starts_at now = some invalid_ends_at
grant_ends_at_error (some ends_at) starts_at now =
    if leb ends_at now
    then some ends_at_in_past
    else if not_after_start starts_at ends_at
    then some ends_at_before_start
    else none

abbrev pub or_now : Option ℕ → ℕ → ℕ
or_now none now = now
or_now (some s) now = s

-- The cap is a number of days, 0 for none. `ends - start > max` is written without subtraction.
unfoldable pub grant_cap_error : Option ℕ → Option ℕ → ℕ → ℕ → Option GrantError
grant_cap_error starts_at none now max_days =
    if max_days == 0 then none else some grant_requires_end
grant_cap_error starts_at (some ends_at) now max_days =
    if max_days == 0
    then none
    else if ltb (or_now starts_at now + max_days * 86400000) ends_at
    then some grant_exceeds_max
    else none
