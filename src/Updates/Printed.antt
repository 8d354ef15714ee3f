-- ===== src/Updates/Printed.antt =====
-- About `parse` of lib/updates/semver.ts: a printed version is read back.
use captivo_access.Prelude.{
  ℕ, zero, suc, ◌+◌, ◌-◌, ◌*◌, ◌/◌, ◌%◌, ◌<◌, ◌≡◌, refl, inl, inr, Bool, true, false, ◌||◌, [], ◌∷◌,
  ◌++◌, some, Text, All, is_digit, is_space, is_empty, trim, trim_start, ltb, arith, Bool-cases, ap,
  sym, ◌==◌, ◌∙◌,
}
use mathlib.Core.List.{reverse, reverse-cons, reverse-reverse, append-nil}
use captivo_access.Prelude.Decimal.{decimal, decimal_from}
use captivo_access.Updates.{Version, digits, without_v, number_part, dotted, parse}

-- `major.minor.patch`.
abbrev pub printed : Version → Text
printed v = decimal v.major ++ (b'.' ∷ (decimal v.minor ++ (b'.' ∷ decimal v.patch)))

digits-decimal_from :
    (seen : Bool) (fuel n : ℕ) (acc : Text)
    → n < fuel
    → digits seen 0 (decimal_from fuel n acc) ≡ digits true n acc
unfolding digits decimal_from
digits-decimal_from seen zero n acc h = absurd (omega arith)
digits-decimal_from seen (suc fuel) n acc h = elim (Bool-cases (ltb n 10)) [
  | inl e ↦
      let digit : is_digit (48 + n) ≡ true = ground arith in
      let read : 0 * 10 + (48 + n - 48) ≡ n = omega arith in rw (e, digit, read) refl
  | inr e ↦
      let digit : is_digit (48 + n % 10) ≡ true = ground arith in
      let read : n / 10 * 10 + (48 + n % 10 - 48) ≡ n = omega arith in
      rw e (
        digits-decimal_from seen fuel (n / 10) ((48 + n % 10) ∷ acc) (ground arith)
        ∙ rw (digit, read) refl)
]

decimal_from-append :
    (fuel n : ℕ) (acc rest : Text)
    → decimal_from fuel n acc ++ rest ≡ decimal_from fuel n (acc ++ rest)
unfolding decimal_from
decimal_from-append zero n acc rest = refl
decimal_from-append (suc fuel) n acc rest = elim (Bool-cases (ltb n 10)) [
  | inl e ↦ rw e refl
  | inr e ↦ rw e (decimal_from-append fuel (n / 10) ((48 + n % 10) ∷ acc) rest)
]

-- A printed number, with what stands behind it, is read up to there.
digits-decimal : (n : ℕ) (rest : Text) → digits false 0 (decimal n ++ rest) ≡ digits true n rest
unfolding decimal
digits-decimal n rest =
    ap (digits false 0) (decimal_from-append (suc n) n [] rest)
    ∙ digits-decimal_from false (suc n) n rest (omega arith)

dotted-decimal : (n : ℕ) (s : Text) → dotted (decimal n ++ (b'.' ∷ s)) ≡ some (n, s)
unfolding digits
dotted-decimal n s = rw (dotted, digits-decimal n (b'.' ∷ s)) refl

number_part-decimal : (n : ℕ) → number_part (decimal n) ≡ some (n, [])
unfolding digits
number_part-decimal n =
    let read : digits false 0 (decimal n) ≡ digits true n [] =
      ap (digits false 0) (sym (append-nil (decimal n))) ∙ digits-decimal n [] in
    rw (number_part, read) refl

-- No white space and no `v`.
abbrev IsSolid : Text → Type 0
IsSolid = All (λ c. (is_space c || c == b'v' || c == b'V') ≡ false)

decimal_from-IsSolid : (fuel n : ℕ) (acc : Text) → IsSolid acc → IsSolid (decimal_from fuel n acc)
unfolding decimal_from
decimal_from-IsSolid zero n acc h = h
decimal_from-IsSolid (suc fuel) n acc h = elim (Bool-cases (ltb n 10)) [
  | inl e ↦ rw e (ground arith, h)
  | inr e ↦ rw e (decimal_from-IsSolid fuel (n / 10) ((48 + n % 10) ∷ acc) (ground arith, h))
]

append-IsSolid : (s t : Text) → IsSolid s → IsSolid t → IsSolid (s ++ t)
append-IsSolid [] t hs ht = ht
append-IsSolid (c ∷ s) t (h, hs) ht = (h, append-IsSolid s t hs ht)

reverse-IsSolid : (s : Text) → IsSolid s → IsSolid (reverse s)
reverse-IsSolid [] h = tt
reverse-IsSolid (c ∷ s) (h, hs) =
    rw reverse-cons (append-IsSolid (reverse s) (c ∷ []) (reverse-IsSolid s hs) (h, tt))

trim_start-solid : (s : Text) → IsSolid s → trim_start s ≡ s
unfolding trim_start
trim_start-solid [] h = refl
trim_start-solid (c ∷ s) (h, hs) =
    let solid : is_space c ≡ false = ground (arith, h) in rw solid refl

trim-solid : (s : Text) → IsSolid s → trim s ≡ s
unfolding trim
trim-solid s h =
    ap (λ x. reverse (trim_start (reverse x))) (trim_start-solid s h)
    ∙ ap reverse (trim_start-solid (reverse s) (reverse-IsSolid s h))
    ∙ reverse-reverse s

without_v-solid : (s : Text) → IsSolid s → without_v s ≡ s
without_v-solid [] h = refl
without_v-solid (c ∷ s) (h, hs) =
    let other : (c == b'v' || c == b'V') ≡ false = ground (arith, h) in rw (without_v, other) refl

is_empty-append : (s t : Text) (c : ℕ) → is_empty (s ++ (c ∷ t)) ≡ false
is_empty-append [] t c = refl
is_empty-append (x ∷ s) t c = refl

decimal-IsSolid : (n : ℕ) → IsSolid (decimal n)
unfolding decimal
decimal-IsSolid n = decimal_from-IsSolid (suc n) n [] tt

printed-IsSolid : (v : Version) → IsSolid (printed v)
printed-IsSolid v = append-IsSolid (decimal v.major) _ (decimal-IsSolid v.major) (
  refl,
  append-IsSolid (decimal v.minor) _ (decimal-IsSolid v.minor) (refl, decimal-IsSolid v.patch),
)

-- A printed version is read back.
pub parse-printed : (v : Version) → parse (some (printed v)) ≡ some v
unfolding parse
parse-printed v =
    let solid = printed-IsSolid v in
    let text : without_v (trim (printed v)) ≡ printed v =
      ap without_v (trim-solid (printed v) solid) ∙ without_v-solid (printed v) solid in
    rw
      (
        is_empty-append (decimal v.major) (decimal v.minor ++ (b'.' ∷ decimal v.patch)) b'.',
        text,
        dotted-decimal v.major (decimal v.minor ++ (b'.' ∷ decimal v.patch)),
        dotted-decimal v.minor (decimal v.patch),
        number_part-decimal v.patch,
      )
      refl
