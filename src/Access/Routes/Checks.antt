-- ===== src/Access/Routes/Checks.antt =====
-- The checks of app/api/admin/grants/route.ts, app/api/admin/grants/[id]/route.ts and
-- app/api/admin/grants/[id]/decision/route.ts, before anything is written.
use captivo_access.Prelude.{
  ℕ, Bool, true, false, not, ◌||◌, Option, none, some, Text, lit, text_eq, ltb, length, trim,
  contains, is_empty, if◌then◌else◌,
}
use captivo_access.Prelude.Outcomes.{Outcome, returns, replies, ◌>>=◌, ◌>>◌, require, present}
use captivo_access.Json.{Json, str, Fields, get, has, non_empty, trimmed_string}
use captivo_access.Auth.Roles.{can, approve_grants, configure}
use captivo_access.Access.Schedule.{Intl}
use captivo_access.Access.Evaluate.{Grant}
use captivo_access.Access.Grants.{
  is_active, GrantInput, Verdict, approve, deny, grant_ends_at_error, grant_cap_error,
}
use captivo_access.Access.Routes.Replies.{
  Caller, Failure, failure, Call, signed_in, parse_date, check_window, read_schedule,
}

abbrev pub forbidden : Failure
forbidden = failure 403 (lit "forbidden")

-- What an edit of a grant writes: an end, where one is given, and a note, where one is given.
pub record GrantEdit : Type 0 where
  pub ends_at : Option ℕ
  pub note : Option (Option Text)

-- `typeof v === "string" && v.trim() !== ""`.
unfoldable pub is_filled : Json → Bool
is_filled v = not (is_empty (trimmed_string v))

-- `if (has) ...`, with nothing to write otherwise.
abbrev pub optionally :
    {A : Type 0} → Bool → Outcome Failure (Option A) → Outcome Failure (Option A)
optionally true m = m
optionally false m = returns none

module _ (date : Text → Option ℕ) where
  -- The checks of `POST /api/admin/grants`.
  unfoldable pub check_new_grant :
      Intl → Option Caller → Fields → Call → Outcome Failure (Caller × GrantInput)
  check_new_grant intl caller body call = do
    admin ← signed_in caller
    require (can admin.role approve_grants) forbidden
    let user_id = trimmed_string (get (lit "userId") body)
    let site_id = trimmed_string (get (lit "siteId") body)
    require (not (is_empty user_id || is_empty site_id)) (failure 400 (lit "user_site_required"))
    starts_at ← parse_date date (get (lit "startsAt") body)
    ends_at ← parse_date date (get (lit "endsAt") body)
    check_window (grant_cap_error starts_at ends_at call.now call.max_grant_days)
    schedule ← read_schedule intl (get (lit "schedule") body)
    require (contains call.users user_id) (failure 400 (lit "invalid_user"))
    require (contains call.sites site_id) (failure 400 (lit "invalid_site"))
    returns (
      admin,
      record {
        user_id = user_id;
        site_id = site_id;
        starts_at = starts_at;
        ends_at = ends_at;
        note = non_empty (trimmed_string (get (lit "note") body));
        created_by_id = admin.id;
        schedule = schedule;
      },
    )

  unfoldable pub read_end : Text → Grant → Call → Outcome Failure (Option ℕ)
  read_end text g call = do
    let ends_at = date text
    check_window (grant_ends_at_error ends_at g.starts_at call.now)
    check_window (grant_cap_error g.starts_at ends_at call.now call.max_grant_days)
    returns ends_at

  unfoldable pub read_note : Json → Outcome Failure (Option (Option Text))
  read_note (str raw) = do
    let note = trim raw
    require (not (ltb 500 (length note))) (failure 400 (lit "note_too_long"))
    returns (some (non_empty note))
  read_note _ = replies (failure 400 (lit "invalid_note"))

  -- The checks of `PATCH /api/admin/grants/[id]` up to the update; `row` is the grant, where one has
  -- the identifier.
  unfoldable pub check_edit :
      Option Caller → Fields → Option Grant → Call → Outcome Failure (Caller × GrantEdit)
  check_edit caller body row call = do
    admin ← signed_in caller
    require (can admin.role configure) forbidden
    let has_end = is_filled (get (lit "endsAt") body)
    let has_note = has (lit "note") body
    require (has_end || has_note) (failure 400 (lit "nothing_to_update"))
    g ← present row (failure 404 (lit "not_found"))
    require (is_active g.status) (failure 409 (lit "not_active"))
    ends_at ← optionally has_end (read_end (trimmed_string (get (lit "endsAt") body)) g call)
    note ← optionally has_note (read_note (get (lit "note") body))
    returns (admin, record { ends_at = ends_at; note = note })

-- The checks of `DELETE /api/admin/grants`.
unfoldable pub check_removal : Option Caller → Option Text → Outcome Failure (Caller × Text)
check_removal caller id = do
  admin ← signed_in caller
  require (can admin.role approve_grants) forbidden
  id ← present id (failure 400 (lit "id_required"))
  require (not (is_empty id)) (failure 400 (lit "id_required"))
  returns (admin, id)

-- `body.decision`.
unfoldable pub verdict_of : Json → Option Verdict
verdict_of (str s) =
    if text_eq s (lit "approve")
    then some approve
    else if text_eq s (lit "deny")
    then some deny
    else none
verdict_of _ = none

-- The checks of `POST /api/admin/grants/[id]/decision`.
unfoldable pub check_decision : Option Caller → Fields → Outcome Failure (Caller × Verdict)
check_decision caller body = do
  admin ← signed_in caller
  require (can admin.role approve_grants) forbidden
  verdict ← present (verdict_of (get (lit "decision") body)) (failure 400 (lit "invalid_decision"))
  returns (admin, verdict)
