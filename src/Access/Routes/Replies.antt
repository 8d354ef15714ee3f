-- ===== src/Access/Routes/Replies.antt =====
-- What the handlers under app/api/admin/grants and app/api/access/requests share: the caller, the
-- reply, the state they work on, and the reading of dates. The body of a request is the object that
-- `req.json()` yields (`{}` where it throws); `new Date(text)` is the parameter `date`, and
-- `none` is an invalid date. Instants are milliseconds from 1970 on.
use captivo_access.Prelude.{ℕ, Bool, List, [], ◌∷◌, Option, none, some, Text, lit, if◌then◌else◌}
use captivo_access.Prelude.Outcomes.{Outcome, returns, replies, present, report_error, ◌>>=◌}
use captivo_access.Json.{Json, undefined, null, str}
use captivo_access.Database.{Table}
use captivo_access.Auth.Roles.{Role}
use captivo_access.Access.Schedule.{Intl, Schedule, Validated, validate_schedule}
use captivo_access.Access.Evaluate.{Grant}
use captivo_access.Access.Grants.{
  GrantError, invalid_ends_at, ends_at_in_past, ends_at_before_start, grant_requires_end,
  grant_exceeds_max,
}
use captivo_access.Audit.Admin.{AdminWriter, AdminAction, AdminLog, record_admin_action}

-- What `getCurrentUser` returns of the user.
pub record Caller : Type 0 where
  pub id : Text
  pub email : Text
  pub role : Role

-- `NextResponse.json({ error: code }, { status })`.
pub record Failure : Type 0 where
  pub status : ℕ
  pub code : Text

abbrev pub failure : ℕ → Text → Failure
failure status code = record { status = status; code = code }

-- A reply: an error, `{ ok: true }`, or `{ id }` with status 201.
pub data Reply : Type 0 where
  failed : Failure → Reply
  done : Reply
  made : Text → Reply

-- One call: the instant, the identifier of a new row, whether the audit transaction commits, what
-- the settings say, and the address of the caller.
pub record Call : Type 0 where
  pub now : ℕ
  pub new_id : Text
  pub recorded : Bool
  pub max_grant_days : ℕ
  pub require_justification : Bool
  pub client_ip : Option Text
  pub users : List Text
  pub sites : List Text

-- `if (!admin) return 401`.
abbrev pub signed_in : Option Caller → Outcome Failure Caller
signed_in caller = present caller (failure 401 (lit "unauthorized"))

-- `parseDate`.
unfoldable pub parse_date : (Text → Option ℕ) → Json → Outcome Failure (Option ℕ)
parse_date date undefined = returns none
parse_date date null = returns none
parse_date date (str []) = returns none
parse_date date (str (c ∷ s)) =
    present (date (c ∷ s)) (failure 400 (lit "invalid_date")) >>= λ d. returns (some d)
parse_date date _ = replies (failure 400 (lit "invalid_date"))

abbrev pub error_code : GrantError → Text
error_code invalid_ends_at = lit "invalid_ends_at"
error_code ends_at_in_past = lit "ends_at_in_past"
error_code ends_at_before_start = lit "ends_at_before_start"
error_code grant_requires_end = lit "grant_requires_end"
error_code grant_exceeds_max = lit "grant_exceeds_max"

-- `if (err) return 400` for a window.
abbrev pub check_window : Option GrantError → Outcome Failure (Unit {0})
check_window e = report_error e (λ x. failure 400 (error_code x))

abbrev pub schedule_of : Validated → Outcome Failure (Option Schedule)
schedule_of (Validated.ok s) = returns (some s)
schedule_of (Validated.err e) = replies (failure 400 (lit "invalid_schedule"))

-- `body.schedule`, absent or validated.
unfoldable pub read_schedule : Intl → Json → Outcome Failure (Option Schedule)
read_schedule intl undefined = returns none
read_schedule intl null = returns none
read_schedule intl v = schedule_of (validate_schedule intl v)

-- `recordAdminAction`, whose failure is swallowed.
unfoldable pub logged : AdminWriter → Call → AdminAction → AdminLog → AdminLog
logged writer call action log =
    if call.recorded then record_admin_action writer call.now action log else log

module _ (t : Table Grant) where
  -- The grants and the log of administrative actions.
  pub record Console : Type 0 where
    pub grants : t.Store
    pub log : AdminLog

  -- What the checks let through is done; an early reply leaves the state as it was.
  abbrev pub carry_out :
      {A : Type 0} → Outcome Failure A → (A → Console × Reply) → Console → Console × Reply
  carry_out (returns a) act s = act a
  carry_out (replies r) act s = (s, failed r)
