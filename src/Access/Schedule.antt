-- ===== src/Access/Schedule.antt =====
-- lib/access/schedule.ts: recurring weekly access windows.
-- `Intl` is a parameter: whether a time zone is accepted, and the parts that `formatToParts` gives.
mod Days
pub mod Validation
pub mod Window
use captivo_access.Prelude.{
  ℕ, ◌+◌, ◌-◌, ◌*◌, Bool, false, ◌&&◌, ◌||◌, List, [], ◌∷◌, ◌++◌, Option, none, some, map, Text,
  lit, text_eq, is_digit, join, leb, ◌==◌, if◌then◌else◌, any,
}
use captivo_access.Prelude.Decimal.{digits_value}
use captivo_access.Json.{
  nat, Json, Items, Fields, field, undefined, num, str, arr, obj, nil, cons, items, get,
}

pub record Schedule : Type 0 where
  pub timezone : Text
  pub days : List ℕ
  pub start : Text
  pub end : Text

-- The parts of a formatted date, by their `type`.
pub data PartType : Type 0 where
  weekday hour minute literal : PartType

pub record Part : Type 0 where
  pub type : PartType
  pub value : Text

-- What the program takes from ECMAScript's `Intl.DateTimeFormat` with its time zone database.
pub record Intl : Type 0 where
  pub accepts : Text → Bool
  pub format_to_parts : Text → ℕ → List Part

-- `TIME_RE`, at the five units of a text of that length.
abbrev pub time_re : ℕ → ℕ → ℕ → ℕ → ℕ → Bool
time_re a b c d e =
    ((((a == b'0') || (a == b'1')) && is_digit b) || ((a == b'2') && leb b'0' b && leb b b'3'))
    && (c == b':')
    && leb b'0' d
    && leb d b'5'
    && is_digit e

unfoldable pub time_to_minutes : Text → Option ℕ
time_to_minutes (a ∷ (b ∷ (c ∷ (d ∷ (e ∷ []))))) =
    if time_re a b c d e
    then some (((a - 48) * 10 + (b - 48)) * 60 + ((d - 48) * 10 + (e - 48)))
    else none
time_to_minutes _ = none

pub data ScheduleError : Type 0 where
  not_object bad_timezone bad_days bad_time start_after_end : ScheduleError

pub data Validated : Type 0 where
  ok : Schedule → Validated
  err : ScheduleError → Validated

-- `days.includes(d)` on numbers.
abbrev pub includes : ℕ → List ℕ → Bool
includes d days = any (λ x. x == d) days

-- The loop over `v.days`: `days` is what it has pushed so far.
unfoldable pub collect_days : List ℕ → List Json → Option (List ℕ)
collect_days days [] = some days
collect_days days (num (nat d) ∷ vs) =
    let rest = collect_days (if includes d days then days else days ++ d ∷ []) vs in
    if leb d 6 then rest else none
collect_days days (_ ∷ vs) = none

-- `days.sort((a, b) => a - b)`.
unfoldable pub insert_day : ℕ → List ℕ → List ℕ
insert_day d [] = d ∷ []
insert_day d (x ∷ xs) = if leb d x then d ∷ (x ∷ xs) else x ∷ insert_day d xs

unfoldable pub sort_days : List ℕ → List ℕ
sort_days [] = []
sort_days (x ∷ xs) = insert_day x (sort_days xs)

-- The tests on `v.start` and `v.end`, and the result, once the days are read.
unfoldable pub finish_schedule : Text → List ℕ → Json → Json → Validated
finish_schedule tz days (str start) (str end) = elim (time_to_minutes start) [
  | none ↦ err bad_time
  | some s ↦ elim (time_to_minutes end) [
    | none ↦ err bad_time
    | some e ↦
        if leb e s
        then err start_after_end
        else ok (record { timezone = tz; days = days; start = start; end = end })
  ]
]
finish_schedule tz days _ _ = err bad_time

-- The tests on `v.days`.
unfoldable pub read_days : Text → Json → Json → Json → Validated
read_days tz (arr nil) start end = err bad_days
read_days tz (arr (cons v vs)) start end = elim (collect_days [] (v ∷ items vs)) [
  | none ↦ err bad_days
  | some days ↦ finish_schedule tz (sort_days days) start end
]
read_days tz _ start end = err bad_days

-- `WEEKDAY_INDEX[s] ?? -1`, with `none` for -1.
unfoldable pub weekday_index : Text → Option ℕ
weekday_index s =
    if text_eq s (lit "Sun")
    then some 0
    else if text_eq s (lit "Mon")
    then some 1
    else if text_eq s (lit "Tue")
    then some 2
    else if text_eq s (lit "Wed")
    then some 3
    else if text_eq s (lit "Thu")
    then some 4
    else if text_eq s (lit "Fri")
    then some 5
    else if text_eq s (lit "Sat")
    then some 6
    else none

-- The variables of the loop over the parts.
pub record Reading : Type 0 where
  pub weekday : Option ℕ
  pub hour : Option ℕ
  pub minute : Option ℕ

unfoldable pub read_part : Reading → PartType → Text → Reading
read_part r weekday v = record r { weekday = weekday_index v }
read_part r hour v = record r {
  hour = digits_value 0 (if text_eq v (lit "24") then lit "0" else v);
}
read_part r minute v = record r { minute = digits_value 0 v }
read_part r literal v = r

unfoldable pub read_parts : Reading → List Part → Reading
read_parts r [] = r
read_parts r (p ∷ ps) = read_parts (read_part r p.type p.value) ps

-- The last tests, on NaN-able numbers.
unfoldable pub within_window : Option ℕ → Option ℕ → Option ℕ → Option ℕ → Bool
within_window (some h) (some m) (some s) (some e) = leb s (h * 60 + m) && leb (h * 60 + m) e
within_window _ _ _ _ = false

unfoldable pub weekday_listed : Option ℕ → List ℕ → Bool
weekday_listed none days = false
weekday_listed (some d) days = includes d days

module _ (intl : Intl) where
  unfoldable pub validate_fields : Json → Json → Json → Json → Validated
  validate_fields (str tz) days start end =
      if intl.accepts tz then read_days tz days start end else err bad_timezone
  validate_fields _ days start end = err bad_timezone

  unfoldable pub validate_schedule : Json → Validated
  validate_schedule (obj v) =
      validate_fields (get (lit "timezone") v) (get (lit "days") v) (get (lit "start") v)
        (get (lit "end") v)
  validate_schedule (arr v) = validate_fields undefined undefined undefined undefined
  validate_schedule _ = err not_object

  unfoldable pub parse_schedule : Json → Option Schedule
  parse_schedule v = elim (validate_schedule v) [ ok s ↦ some s | err e ↦ none ]

  unfoldable pub is_within_schedule : Schedule → ℕ → Bool
  is_within_schedule s now =
      let r : Reading =
        read_parts (record { weekday = none; hour = some 0; minute = some 0 })
          (intl.format_to_parts s.timezone now) in
      weekday_listed r.weekday s.days
      && within_window r.hour r.minute (time_to_minutes s.start) (time_to_minutes s.end)

-- The JSON object that the `schedule` column holds.
abbrev pub day_items : List ℕ → Items
day_items [] = nil
day_items (d ∷ ds) = cons (num (nat d)) (day_items ds)

unfoldable pub to_json : Schedule → Json
to_json s = obj (
    field (lit "timezone") (str s.timezone) (
      field (lit "days") (arr (day_items s.days))
        (field (lit "start") (str s.start) (field (lit "end") (str s.end) Fields.end))))

-- `DAY_ABBR[d]`, whose text out of range is "undefined" and joins as the empty text.
unfoldable pub day_abbr : ℕ → Text
day_abbr d =
    if d == 0
    then lit "Sun"
    else if d == 1
    then lit "Mon"
    else if d == 2
    then lit "Tue"
    else if d == 3
    then lit "Wed"
    else if d == 4
    then lit "Thu"
    else if d == 5
    then lit "Fri"
    else if d == 6
    then lit "Sat"
    else []

unfoldable pub format_schedule : Schedule → Text
format_schedule s =
    join (lit ", ") (map day_abbr (sort_days s.days))
    ++ lit " "
    ++ s.start
    ++ lit "–"
    ++ s.end
    ++ lit " ("
    ++ s.timezone
    ++ lit ")"
