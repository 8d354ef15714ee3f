-- ===== src/Access/Schedule/Validation.antt =====
-- About validateSchedule and parseSchedule of lib/access/schedule.ts.
use captivo_access.Prelude.{
  ℕ, ◌≤◌, ◌<◌, ◌≡◌, ◌≢◌, refl, ap, true, List, [], ◌∷◌, some, Text, lit, arith, leb, subst, All,
  Bool-cases, Option-cases, inl, inr, text_eq,
}
use captivo_access.Json.{Json, undefined, nat, num, str, arr, obj, nil, cons, items, get}
use captivo_access.Access.Schedule.{
  Schedule, Intl, ok, err, bad_days, bad_time, bad_timezone, start_after_end, time_to_minutes,
  collect_days, sort_days, finish_schedule, read_days, day_items, to_json, validate_fields,
  validate_schedule, parse_schedule,
}
use captivo_access.Access.Schedule.Days.{
  Ascending, collect_days-Collected, collect_days_first, sort_days_ne, sort_days-Ascending,
  All-sort_days, sort_days-Ascending_self, collect_days_self, day_values,
}

pub record IsWellFormed (intl : Intl) (s : Schedule) : Type 0 where
  pub accepted : intl.accepts s.timezone ≡ true
  pub some_day : s.days ≢ []
  pub in_week : All (λ d. d ≤ 6) s.days
  pub ascending : Ascending s.days
  pub opens : ℕ
  pub closes : ℕ
  pub start_read : time_to_minutes s.start ≡ some opens
  pub end_read : time_to_minutes s.end ≡ some closes
  pub ordered : opens < closes

record IsFinished (tz : Text) (days : List ℕ) (s : Schedule) : Type 0 where
  zone : s.timezone ≡ tz
  same_days : s.days ≡ days
  opens : ℕ
  closes : ℕ
  start_read : time_to_minutes s.start ≡ some opens
  end_read : time_to_minutes s.end ≡ some closes
  ordered : opens < closes

finish_schedule-IsFinished :
    (tz : Text) (days : List ℕ) (start end : Json) (s : Schedule)
    → finish_schedule tz days start end ≡ ok s
    → IsFinished tz days s
unfolding finish_schedule
finish_schedule-IsFinished tz days (str a) (str b) s h = elim (Option-cases (time_to_minutes a)) [
  | inl unread ↦ let h' : err bad_time ≡ ok s = rw (unread, finish_schedule) at h in cc
  | inr (o, opened) ↦ elim (Option-cases (time_to_minutes b)) [
    | inl unread ↦ let h' : err bad_time ≡ ok s = rw (opened, unread, finish_schedule) at h in cc
    | inr (c, closed) ↦ elim (Bool-cases (leb c o)) [
      | inl late ↦
          let h' : err start_after_end ≡ ok s = rw (opened, closed, late, finish_schedule) at h in
          cc
      | inr early ↦
          let h' : ok (record { timezone = tz; days = days; start = a; end = b }) ≡ ok s =
            rw (opened, closed, early, finish_schedule) at h in
          record {
            zone = ground arith;
            same_days = ground arith;
            opens = o;
            closes = c;
            start_read = ground arith;
            end_read = ground arith;
            ordered = ground arith;
          }
    ]
  ]
]
finish_schedule-IsFinished tz days _ _ s h = cc

-- The record that a successful run of the remaining tests gives.
read_days-IsWellFormed :
    (intl : Intl) (tz : Text) (v start end : Json) (s : Schedule)
    → intl.accepts tz ≡ true
    → read_days tz v start end ≡ ok s
    → IsWellFormed intl s
unfolding read_days
read_days-IsWellFormed intl tz (arr nil) start end s a h = cc
read_days-IsWellFormed intl tz (arr (cons v vs)) start end s a h =
    elim (Option-cases (collect_days [] (v ∷ items vs))) [
      | inl bad ↦ let h' : err bad_days ≡ ok s = rw (bad, read_days) at h in cc
      | inr (days, read) ↦
          let done : finish_schedule tz (sort_days days) start end ≡ ok s =
            rw (read, read_days) at h in
          let f = finish_schedule-IsFinished tz (sort_days days) start end s done in
          let good = collect_days-Collected [] (v ∷ items vs) days (tt, tt) read in
          record {
            accepted = rw f.zone a;
            some_day =
                rw f.same_days (sort_days_ne days (collect_days_first v (items vs) days read));
            in_week = rw f.same_days (All-sort_days (λ d. d ≤ 6) days good.1);
            ascending = rw f.same_days (sort_days-Ascending days good.0);
            opens = f.opens;
            closes = f.closes;
            start_read = f.start_read;
            end_read = f.end_read;
            ordered = f.ordered;
          }
    ]
read_days-IsWellFormed intl tz _ start end s a h = cc

validate_fields-IsWellFormed :
    (intl : Intl) (tz days start end : Json) (s : Schedule)
    → validate_fields intl tz days start end ≡ ok s
    → IsWellFormed intl s
unfolding validate_fields
validate_fields-IsWellFormed intl (str tz) days start end s h =
    elim (Bool-cases (intl.accepts tz)) [
      | inl yes_zone ↦ read_days-IsWellFormed intl tz days start end s yes_zone (rw yes_zone at h)
      | inr no_zone ↦ let h' : err bad_timezone ≡ ok s = rw no_zone at h in cc
    ]
validate_fields-IsWellFormed intl _ days start end s h = cc

-- A schedule that `validateSchedule` accepts names a time zone that `Intl` accepts, at least one
-- day, days from 0 to 6 in strictly ascending order, and two times that `TIME_RE` reads, the
-- first strictly before the second.
pub validate_schedule-IsWellFormed :
    (intl : Intl) (v : Json) (s : Schedule) → validate_schedule intl v ≡ ok s → IsWellFormed intl s
unfolding validate_schedule
validate_schedule-IsWellFormed intl (obj v) s h =
    validate_fields-IsWellFormed intl (get (lit "timezone") v) (get (lit "days") v)
      (get (lit "start") v) (get (lit "end") v) s h
validate_schedule-IsWellFormed intl (arr v) s h =
    validate_fields-IsWellFormed intl undefined undefined undefined undefined s h
validate_schedule-IsWellFormed intl _ s h = cc

items-day_items : (ds : List ℕ) → items (day_items ds) ≡ day_values ds
items-day_items [] = refl
items-day_items (d ∷ ds) = ap (λ l. num (nat d) ∷ l) (items-day_items ds)

finish_schedule_self :
    (intl : Intl) (s : Schedule)
    → IsWellFormed intl s
    → finish_schedule s.timezone s.days (str s.start) (str s.end) ≡ ok s
unfolding finish_schedule
finish_schedule_self intl s w = ground arith

read_days_self :
    (intl : Intl) (s : Schedule) (ds : List ℕ)
    → IsWellFormed intl s
    → s.days ≡ ds
    → read_days s.timezone (arr (day_items ds)) (str s.start) (str s.end) ≡ ok s
unfolding read_days
read_days_self intl s [] w e = absurd (w.some_day e)
read_days_self intl s (d ∷ ds) w e =
    let asc : Ascending (d ∷ ds) = subst Ascending e w.ascending in
    let week : All (λ x. x ≤ 6) (d ∷ ds) = subst (All (λ x. x ≤ 6)) e w.in_week in
    let read : collect_days [] (num (nat d) ∷ items (day_items ds)) ≡ some (d ∷ ds) =
      rw items-day_items (collect_days_self (d ∷ ds) asc week) in
    rw (read, sort_days-Ascending_self (d ∷ ds) asc, ← e, read_days) (finish_schedule_self intl s w)

-- A schedule that meets the conditions is accepted as it is from its stored form.
pub validate_schedule-to_json :
    (intl : Intl) (s : Schedule) → IsWellFormed intl s → validate_schedule intl (to_json s) ≡ ok s
unfolding validate_schedule to_json validate_fields get text_eq
validate_schedule-to_json intl s w = rw w.accepted (read_days_self intl s s.days w refl)

-- What a route stores after validation is read back unchanged when a grant is evaluated.
pub parse_schedule-stored :
    (intl : Intl) (v : Json) (s : Schedule)
    → validate_schedule intl v ≡ ok s
    → parse_schedule intl (to_json s) ≡ some s
unfolding parse_schedule
parse_schedule-stored intl v s h =
    rw
      (validate_schedule-to_json intl s (validate_schedule-IsWellFormed intl v s h), parse_schedule)
