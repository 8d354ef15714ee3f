-- ===== src/Prelude/Decimal.antt =====
-- Numbers as text: `n.toString()`, padding, and `date.toISOString()`.
use Prim.Native.Nat.{ℕ, zero, suc, ◌+◌, ◌-◌, ◌*◌, ◌/◌, ◌%◌}
use mathlib.Core.Option.{Option, none, some}
use mathlib.Core.List.{[], ◌∷◌, ◌++◌}
use captivo_access.Prelude.Tests.{ltb, leb, if◌then◌else◌}
use captivo_access.Prelude.Strings.{Text, lit, is_digit}

-- The digits of `n`, in front of `acc`; the fuel is at least the number of digits.
unfoldable pub decimal_from : ℕ → ℕ → Text → Text
decimal_from zero n acc = acc
decimal_from (suc f) n acc =
    let more = decimal_from f (n / 10) ((48 + n % 10) ∷ acc) in
    if ltb n 10 then (48 + n) ∷ acc else more

unfoldable pub decimal : ℕ → Text
unfolding decimal_from
decimal n = decimal_from (suc n) n []

-- An integer, and `String(n)` of it.
pub data Integer : Type 0 where
  pos : ℕ → Integer
  negsuc : ℕ → Integer

unfoldable pub integer_text : Integer → Text
unfolding decimal
integer_text (pos n) = decimal n
integer_text (negsuc n) = b'-' ∷ decimal (suc n)

-- `Number(s)` on digits, after `n` was read; anything else is NaN, `none`.
unfoldable pub digits_value : ℕ → Text → Option ℕ
digits_value n [] = some n
digits_value n (c ∷ s) =
    let rest = digits_value (n * 10 + (c - 48)) s in if is_digit c then rest else none

-- `n` in two, three and four digits.
abbrev pub pad2 : ℕ → Text
pad2 n = (48 + n / 10 % 10) ∷ (48 + n % 10) ∷ []

abbrev pub pad3 : ℕ → Text
pad3 n = (48 + n / 100 % 10) ∷ pad2 n

abbrev pub pad4 : ℕ → Text
pad4 n = (48 + n / 1000 % 10) ∷ pad3 n

-- The civil date of a day, counted from 1970-01-01, in the proleptic Gregorian calendar.
unfoldable pub iso_date : ℕ → Text
iso_date days =
    let z = days + 719468 in
    let era = z / 146097 in
    let doe = z % 146097 in
    let yoe = (doe + doe / 36524 - doe / 1460 - doe / 146096) / 365 in
    let doy = doe + yoe / 100 - (365 * yoe + yoe / 4) in
    let mp = (5 * doy + 2) / 153 in
    let day = doy + 1 - (153 * mp + 2) / 5 in
    let month = if ltb mp 10 then mp + 3 else mp - 9 in
    let year = yoe + era * 400 + (if leb month 2 then 1 else 0) in
    pad4 year ++ lit "-" ++ pad2 month ++ lit "-" ++ pad2 day

-- `toISOString` of an instant from 1970 to 9999, in milliseconds.
unfoldable pub iso_string : ℕ → Text
unfolding iso_date
iso_string ms =
    let secs = ms / 1000 in
    iso_date (secs / 86400)
    ++ lit "T"
    ++ pad2 (secs / 3600 % 24)
    ++ lit ":"
    ++ pad2 (secs / 60 % 60)
    ++ lit ":"
    ++ pad2 (secs % 60)
    ++ lit "."
    ++ pad3 (ms % 1000)
    ++ lit "Z"
