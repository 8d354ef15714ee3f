-- ===== src/Access/Routes/Requests.antt =====
-- The handler of app/api/access/requests/route.ts. What it sends to the administrators is left
-- out: sending is best-effort and its result is not used.
use captivo_access.Prelude.{
  ℕ, Bool, false, not, ◌&&◌, Option, some, Text, lit, ltb, contains, is_empty,
}
use captivo_access.Prelude.Outcomes.{Outcome, returns, ◌>>=◌, ◌>>◌, require}
use captivo_access.Json.{Fields, get, trimmed_string}
use captivo_access.Database.{Table}
use captivo_access.Access.Schedule.{Intl}
use captivo_access.Access.Evaluate.{Grant}
use captivo_access.Access.Grants.{
  RequestInput, RequestResult, created, request_pending, create_access_request, holds_site,
  grant_cap_error,
}
use captivo_access.Access.Routes.Replies.{
  Caller, Failure, failure, Reply, failed, made, Call, signed_in, parse_date, check_window,
  read_schedule, Console, carry_out,
}

-- `startsAt.value && endsAt.value && startsAt.value > endsAt.value`.
abbrev pub reversed_window : Option ℕ → Option ℕ → Bool
reversed_window (some s) (some e) = ltb e s
reversed_window _ _ = false

module _ (date : Text → Option ℕ) (intl : Intl) (t : Table Grant) where
  -- The checks of `POST /api/access/requests`.
  unfoldable pub check_request :
      Option Caller → Fields → Call → t.Store → Outcome Failure RequestInput
  check_request caller body call s = do
    user ← signed_in caller
    let site_id = trimmed_string (get (lit "siteId") body)
    require (not (is_empty site_id)) (failure 400 (lit "site_required"))
    let note = trimmed_string (get (lit "note") body)
    require (not (is_empty note && call.require_justification)) (failure 400 (lit "note_required"))
    starts_at ← parse_date date (get (lit "startsAt") body)
    ends_at ← parse_date date (get (lit "endsAt") body)
    require (not (reversed_window starts_at ends_at)) (failure 400 (lit "invalid_date"))
    check_window (grant_cap_error starts_at ends_at call.now call.max_grant_days)
    schedule ← read_schedule intl (get (lit "schedule") body)
    require (contains call.sites site_id) (failure 400 (lit "invalid_site"))
    require (not (holds_site intl t user.id site_id call.now s))
        (failure 409 (lit "already_have_access"))
    returns (record {
      user_id = user.id;
      site_id = site_id;
      starts_at = starts_at;
      ends_at = ends_at;
      note = note;
      schedule = schedule;
    })

  abbrev pub request_reply : RequestResult → Reply
  request_reply (created id) = made id
  request_reply request_pending = failed (failure 409 (lit "request_pending"))

  abbrev pub ask : Call → RequestInput → Console t → Console t × Reply
  ask call input s =
      let (grants, result) = create_access_request t call.new_id input s.grants in
      (record { grants = grants; log = s.log }, request_reply result)

  unfoldable pub post_request : Option Caller → Fields → Call → Console t → Console t × Reply
  post_request caller body call s =
      carry_out t (check_request caller body call s.grants) (λ x. ask call x s) s
