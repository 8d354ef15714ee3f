-- ===== src/Tests/Access.antt =====
-- Grants, schedules and decisions at concrete inputs: a clock in UTC, one user, one site.
use captivo_access.Prelude.{
  ◌*◌, ◌≤◌, ◌<◌, ◌≡◌, ◌↔◌, refl, ◌+◌, true, ◌&&◌, List, [], ◌∷◌, none, some, lit, text_eq, arith,
  All, Any, inl,
}
use captivo_access.Json.{Json, str, num, nat, obj, arr, cons, nil, field, end, get}
use captivo_access.Database.{Table, tally, find_first}
use captivo_access.Database.ListTable.{list_table}
use captivo_access.Access.Schedule.{
  Intl, Schedule, Part, weekday, hour, minute, literal, ok, validate_schedule, parse_schedule,
  to_json, is_within_schedule, day_abbr, time_to_minutes, validate_fields, collect_days, read_days,
  includes, finish_schedule,
}
use captivo_access.Access.Schedule.Validation.{
  IsWellFormed, validate_schedule-IsWellFormed, parse_schedule-stored,
}
use captivo_access.Access.Schedule.Window.{
  ClockReading, two_digits, part, OneOf, is_within_schedule_iff,
}
use captivo_access.Access.Evaluate.{
  GrantStatus, Grant, DecisionReason, allow, pending_approval, expired, User, UserStatus,
  classify_grant, decide_grants, evaluate_access, deny_priority,
}
use captivo_access.Access.Evaluate.Classify.{Allows, classify_grant_iff}
use captivo_access.Access.Evaluate.Verdict.{
  is_of, allows_now, evaluate_access_iff, decide_grants_reason,
}
use captivo_access.Access.Grants.{
  GrantInput, RequestInput, approve, deny, granted, requested, create_access_request, revoke_grant,
  decide_grant, is_pending, grant_cap_error,
}
use captivo_access.Access.Grants.Pending.{
  AtMostOnePending, create_access_request-AtMostOnePending, decide_grant_once,
}
use captivo_access.Access.Grants.Effects.{
  has_access, create_access_request_gives_no_access, deny_changes_no_access, approve_keeps_access,
  revoke_grant_gives_no_access, revoke_grant_ends,
}
use captivo_access.Access.Grants.Bounds.{WithinCap, grant_cap_error_iff}
use captivo_access.Access.RequestStatus.{request_status, request_status_iff, pending}

-- A clock that always shows Monday, 09:30.
abbrev pub monday : Intl
monday = record {
  accepts = text_eq (lit "UTC");
  format_to_parts = λ tz now.
      part weekday (lit "Mon")
      ∷ part literal (lit ", ")
      ∷ part hour (two_digits 9)
      ∷ part literal (lit ":")
      ∷ part minute (two_digits 30)
      ∷ [];
}

abbrev pub grants : Table Grant
grants = list_table Grant

abbrev pub users : Table User
users = list_table User

abbrev alice : User
alice = record { id = lit "alice"; status = UserStatus.active }

abbrev pub staffed : List User
staffed = alice ∷ []

abbrev open_input : GrantInput
open_input = record {
  user_id = lit "alice";
  site_id = lit "wiki";
  starts_at = none;
  ends_at = some 2000;
  note = none;
  created_by_id = lit "root";
  schedule = none;
}

abbrev open_grant : Grant
open_grant = granted (lit "g1") open_input

abbrev request : RequestInput
request = record {
  user_id = lit "alice";
  site_id = lit "wiki";
  starts_at = none;
  ends_at = none;
  note = lit "please";
  schedule = none;
}

abbrev asked_grant : Grant
asked_grant = requested (lit "g2") request

abbrev pub held : List Grant
held = asked_grant ∷ open_grant ∷ []

evaluate_access_example :
    ((evaluate_access monday users grants (lit "alice") (lit "wiki") 1000 staffed held).allow
      ≡ true)
    ↔ ((u : User) × (find_first users (λ u. text_eq u.id (lit "alice")) staffed ≡ some u)
        × (u.status ≡ UserStatus.active)
        × (0
            < tally grants
                (λ g. is_of (lit "alice") (lit "wiki") g && allows_now monday 1000 g)
                held))
evaluate_access_example =
    evaluate_access_iff monday 1000 users grants (lit "alice") (lit "wiki") staffed held

classify_grant_example :
    (classify_grant monday open_grant 1000 ≡ allow) ↔ Allows monday open_grant 1000
classify_grant_example = classify_grant_iff monday open_grant 1000

decide_grants_reason_example :
    Any (λ g. classify_grant monday g 3000 ≡ pending_approval) held
    × All (λ g. deny_priority (classify_grant monday g 3000) ≤ deny_priority pending_approval) held
unfolding decide_grants classify_grant granted requested captivo_access.Access.Evaluate.decide_loop
    captivo_access.Access.Evaluate.classify_by_status captivo_access.Access.Evaluate.classify_active
decide_grants_reason_example =
    decide_grants_reason monday 3000 asked_grant (open_grant ∷ []) pending_approval refl

one_pending : AtMostOnePending grants (open_grant ∷ [])
unfolding granted
one_pending u v = omega arith

create_access_request-AtMostOnePending_example :
    AtMostOnePending grants (create_access_request grants (lit "g2") request (open_grant ∷ [])).0
create_access_request-AtMostOnePending_example =
    create_access_request-AtMostOnePending grants (lit "g2") request (open_grant ∷ []) one_pending

decide_grant_once_example :
    let s = (decide_grant grants (lit "g2") approve (lit "root") none 1000 held).0 in
    ((decide_grant grants (lit "g2") deny (lit "eve") none 1001 s).1 ≡ 0)
    × (tally grants is_pending (decide_grant grants (lit "g2") deny (lit "eve") none 1001 s).0
        ≡ tally grants is_pending s)
decide_grant_once_example =
    decide_grant_once grants (lit "g2") approve deny (lit "root") (lit "eve") none none 1000 1001
      held is_pending

create_access_request_gives_no_access_example :
    has_access monday 1000 users grants staffed
      (lit "alice")
      (lit "wiki")
      (create_access_request grants (lit "g2") request []).0
    ≡ has_access monday 1000 users grants staffed (lit "alice") (lit "wiki") []
create_access_request_gives_no_access_example =
    create_access_request_gives_no_access monday 1000 users grants staffed (lit "alice")
      (lit "wiki") (lit "g2") request []

deny_changes_no_access_example :
    has_access monday 1000 users grants staffed
      (lit "alice")
      (lit "wiki")
      (decide_grant grants (lit "g2") deny (lit "root") none 1000 held).0
    ≡ has_access monday 1000 users grants staffed (lit "alice") (lit "wiki") held
deny_changes_no_access_example =
    deny_changes_no_access monday 1000 users grants staffed (lit "alice") (lit "wiki") (lit "g2")
      (lit "root") none 1000 held

held_access : has_access monday 1000 users grants staffed (lit "alice") (lit "wiki") held ≡ true
unfolding evaluate_access decide_grants classify_grant granted requested text_eq
    captivo_access.Access.Evaluate.decide_loop captivo_access.Access.Evaluate.classify_by_status
    captivo_access.Access.Evaluate.classify_active
held_access = refl

approve_keeps_access_example :
    has_access monday 1000 users grants staffed
      (lit "alice")
      (lit "wiki")
      (decide_grant grants (lit "g2") approve (lit "root") none 1000 held).0
    ≡ true
approve_keeps_access_example =
    approve_keeps_access monday 1000 users grants staffed (lit "alice") (lit "wiki") (lit "g2")
      (lit "root") none 1000 held held_access

still_access :
    has_access monday 1000 users grants staffed
      (lit "alice")
      (lit "wiki")
      (revoke_grant grants (lit "g2") held)
    ≡ true
unfolding evaluate_access decide_grants classify_grant granted requested revoke_grant text_eq
    captivo_access.Access.Evaluate.decide_loop captivo_access.Access.Evaluate.classify_by_status
    captivo_access.Access.Evaluate.classify_active
still_access = refl

revoke_grant_gives_no_access_example :
    has_access monday 1000 users grants staffed (lit "alice") (lit "wiki") held ≡ true
revoke_grant_gives_no_access_example =
    revoke_grant_gives_no_access monday 1000 users grants staffed (lit "alice") (lit "wiki")
      (lit "g2") held still_access

revoke_grant_ends_example :
    tally grants
      (λ g. text_eq g.id (lit "g1") && allows_now monday 1000 g)
      (revoke_grant grants (lit "g1") held)
    ≡ 0
revoke_grant_ends_example = revoke_grant_ends monday 1000 users grants staffed (lit "g1") held

grant_cap_error_example :
    (grant_cap_error none (some 86400001) 1 1 ≡ none) ↔ WithinCap none (some 86400001) 1 1
grant_cap_error_example = grant_cap_error_iff none (some 86400001) 1 1

needs_approval : asked_grant.requires_approval ≡ true
unfolding requested
needs_approval = refl

request_status_example :
    (request_status asked_grant.status asked_grant.approved_at asked_grant.ends_at 1000 ≡ pending)
    ↔ (is_pending asked_grant ≡ true)
request_status_example = request_status_iff asked_grant 1000 needs_approval

-- Mondays and Wednesdays, 09:00 to 17:30, as a request may spell it.
abbrev body : Json
body = obj (
    field (lit "timezone") (str (lit "UTC")) (
      field (lit "days") (arr (cons (num (nat 3)) (cons (num (nat 1)) (cons (num (nat 3)) nil))))
        (field (lit "start") (str (lit "09:00")) (field (lit "end") (str (lit "17:30")) end))))

abbrev hours : Schedule
hours = record { timezone = lit "UTC"; days = 1 ∷ 3 ∷ []; start = lit "09:00"; end = lit "17:30" }

body_accepted : validate_schedule monday body ≡ ok hours
unfolding validate_schedule time_to_minutes get text_eq validate_fields read_days collect_days
    finish_schedule captivo_access.Access.Schedule.sort_days
    captivo_access.Access.Schedule.insert_day
body_accepted = refl

validate_schedule_example : IsWellFormed monday hours
validate_schedule_example = validate_schedule-IsWellFormed monday body hours body_accepted

hours-IsWellFormed : IsWellFormed monday hours
hours-IsWellFormed = validate_schedule-IsWellFormed monday body hours body_accepted

parse_schedule_example : parse_schedule monday (to_json hours) ≡ some hours
parse_schedule_example = parse_schedule-stored monday body hours body_accepted

monday_shown :
    monday.format_to_parts (lit "UTC") 1000
    ≡ part weekday (day_abbr 1)
      ∷ part literal (lit ", ")
      ∷ part hour (two_digits 9)
      ∷ part literal (lit ":")
      ∷ part minute (two_digits 30)
      ∷ []
unfolding day_abbr
monday_shown = refl

abbrev half_past_nine : ClockReading monday (lit "UTC") 1000
half_past_nine = record {
  day = 1;
  hours = 9;
  minutes = 30;
  hour_text = two_digits 9;
  day_in_week = omega arith;
  hours_in_day = omega arith;
  minutes_in_hour = omega arith;
  hour_shown = inl refl;
  shown = monday_shown;
}

is_within_schedule_example : (is_within_schedule monday hours 1000 ≡ true) ↔ (
    OneOf 1 (1 ∷ 3 ∷ [])
    × (hours-IsWellFormed.opens ≤ 9 * 60 + 30)
    × (9 * 60 + 30 ≤ hours-IsWellFormed.closes))
is_within_schedule_example =
    is_within_schedule_iff monday hours 1000 half_past_nine hours-IsWellFormed
