-- ===== src/Access/Schedule/Window.antt =====
-- About isWithinSchedule of lib/access/schedule.ts, on what `Intl` documents of its parts.
use captivo_access.Prelude.{
  ℕ, zero, suc, ◌+◌, ◌*◌, ◌/◌, ◌%◌, ◌≤◌, ◌<◌, ◌≡◌, ◌↔◌, ◌⊎◌, inl, inr, refl, true, false, List, [],
  ◌∷◌, Option, none, some, Text, lit, arith, if◌then◌else◌, text_eq,
}
use captivo_access.Prelude.Decimal.{digits_value}
use captivo_access.Access.Schedule.{
  Schedule, Intl, PartType, Part, weekday, hour, minute, literal, includes, weekday_index,
  read_part, read_parts, within_window, weekday_listed, is_within_schedule, day_abbr,
}
use captivo_access.Access.Schedule.Validation.{IsWellFormed}

-- "00" to "99".
abbrev pub two_digits : ℕ → Text
two_digits n = (48 + n / 10) ∷ (48 + n % 10) ∷ []

abbrev pub part : PartType → Text → Part
part t v = record { type = t; value = v }

-- The local time that `formatToParts` shows, in the format that the program asks for: a short
-- weekday, two digits for the hour ("24" is another spelling of midnight) and for the minute.
pub record ClockReading (intl : Intl) (tz : Text) (now : ℕ) : Type 0 where
  pub day : ℕ
  pub hours : ℕ
  pub minutes : ℕ
  pub hour_text : Text
  pub day_in_week : day < 7
  pub hours_in_day : hours < 24
  pub minutes_in_hour : minutes < 60
  pub hour_shown : (hour_text ≡ two_digits hours) ⊎ ((hours ≡ 0) × (hour_text ≡ lit "24"))
  pub shown :
      intl.format_to_parts tz now
      ≡ part weekday (day_abbr day)
        ∷ part literal (lit ", ")
        ∷ part hour hour_text
        ∷ part literal (lit ":")
        ∷ part minute (two_digits minutes)
        ∷ []

digits_value-two_digits : (n : ℕ) → n < 100 → digits_value 0 (two_digits n) ≡ some n
unfolding digits_value
digits_value-two_digits n h = ground arith

weekday_index-day_abbr : (d : ℕ) → d < 7 → weekday_index (day_abbr d) ≡ some d
unfolding weekday_index day_abbr text_eq
weekday_index-day_abbr zero h = refl
weekday_index-day_abbr (suc zero) h = refl
weekday_index-day_abbr (suc (suc zero)) h = refl
weekday_index-day_abbr (suc (suc (suc zero))) h = refl
weekday_index-day_abbr (suc (suc (suc (suc zero)))) h = refl
weekday_index-day_abbr (suc (suc (suc (suc (suc zero))))) h = refl
weekday_index-day_abbr (suc (suc (suc (suc (suc (suc zero)))))) h = refl
weekday_index-day_abbr (suc (suc (suc (suc (suc (suc (suc d))))))) h = absurd (omega arith)

abbrev hour_value : Text → Option ℕ
hour_value v = digits_value 0 (if text_eq v (lit "24") then lit "0" else v)

two_digits_ne_24 : (n : ℕ) → n < 24 → text_eq (two_digits n) (lit "24") ≡ false
unfolding text_eq
two_digits_ne_24 n h = ground arith

hour_value_shown :
    (h : ℕ) (v : Text)
    → h < 24
    → (v ≡ two_digits h) ⊎ ((h ≡ 0) × (v ≡ lit "24"))
    → hour_value v ≡ some h
hour_value_shown h v lt (inl e) =
    rw (e, two_digits_ne_24 h lt) (digits_value-two_digits h (omega arith))
hour_value_shown h v lt (inr (z, e)) = rw (e, z) (unfold digits_value text_eq in refl)

abbrev pub OneOf : ℕ → List ℕ → Type 0
OneOf d [] = ⊥
OneOf d (x ∷ xs) = (x ≡ d) ⊎ OneOf d xs

includes_iff : (d : ℕ) (xs : List ℕ) → (includes d xs ≡ true) ↔ OneOf d xs
includes_iff d [] = (λ h. cc, λ h. absurd h)
includes_iff d (x ∷ xs) =
    (λ h. ground (arith, includes_iff d xs), λ h. ground (arith, includes_iff d xs))

module _ (intl : Intl) (s : Schedule) (now : ℕ) (c : ClockReading intl s.timezone now) where
  reading :
      read_parts
        (record { weekday = none; hour = some 0; minute = some 0 })
        (intl.format_to_parts s.timezone now)
      ≡ record { weekday = some c.day; hour = some c.hours; minute = some c.minutes }
  unfolding read_parts read_part
  reading = rw (
    c.shown,
    weekday_index-day_abbr c.day c.day_in_week,
    hour_value_shown c.hours c.hour_text c.hours_in_day c.hour_shown,
    digits_value-two_digits c.minutes (omega (arith, c.minutes_in_hour)),
  )

  -- A well-formed schedule admits an instant exactly when its local weekday is one of the
  -- schedule's days and its local time of day lies between the two times, both included.
  pub is_within_schedule_iff :
      (w : IsWellFormed intl s)
      → (is_within_schedule intl s now ≡ true) ↔ (
          OneOf c.day s.days
          × (w.opens ≤ c.hours * 60 + c.minutes)
          × (c.hours * 60 + c.minutes ≤ w.closes))
  unfolding is_within_schedule weekday_listed within_window
  is_within_schedule_iff w =
      rw (reading, w.start_read, w.end_read)
        (
          (λ h. ground (arith, includes_iff c.day s.days)),
          (λ h. ground (arith, includes_iff c.day s.days)),
        )
