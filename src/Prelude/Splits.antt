-- ===== src/Prelude/Splits.antt =====
-- Texts put together with a separator and split again, and numbers printed and read again.
use captivo_access.Prelude.{
  ℕ, zero, suc, ◌+◌, ◌-◌, ◌*◌, ◌/◌, ◌%◌, ◌<◌, ◌≡◌, ◌≢◌, refl, inl, inr, true, false, [], ◌∷◌, ◌++◌,
  some, Text, arith, ltb, ◌==◌, is_digit, split, split_from, All, Bool-cases, ◌∙◌,
}
use mathlib.Core.List.{reverse, reverse-cons, append_assoc, append-nil}
use captivo_access.Prelude.Decimal.{decimal, decimal_from, digits_value}

-- No unit of the text is `c`.
abbrev pub Without : ℕ → Text → Type 0
Without c = All (λ x. x ≢ c)

pub split_from-last :
    (sep : ℕ) (cur a : Text) → Without sep a → split_from sep cur a ≡ (reverse cur ++ a) ∷ []
unfolding split_from
split_from-last sep cur [] h = rw append-nil refl
split_from-last sep cur (c ∷ a) (differs, h) =
    let test : (c == sep) ≡ false = ground arith in
    rw (test, split_from-last sep (c ∷ cur) a h, reverse-cons, append_assoc) refl

pub split_from-part :
    (sep : ℕ) (cur a s : Text)
    → Without sep a
    → split_from sep cur (a ++ sep ∷ s) ≡ (reverse cur ++ a) ∷ split_from sep [] s
unfolding split_from
split_from-part sep cur [] s h =
    let test : (sep == sep) ≡ true = ground arith in rw (test, append-nil) refl
split_from-part sep cur (c ∷ a) s (differs, h) =
    let test : (c == sep) ≡ false = ground arith in
    rw (test, split_from-part sep (c ∷ cur) a s h, reverse-cons, append_assoc) refl

-- Three parts without the separator are found again.
pub split-three :
    (sep : ℕ) (a b c : Text)
    → Without sep a
    → Without sep b
    → Without sep c
    → split sep (a ++ sep ∷ (b ++ sep ∷ c)) ≡ a ∷ b ∷ c ∷ []
unfolding split
split-three sep a b c ha hb hc =
    rw
      (
        split_from-part sep [] a (b ++ sep ∷ c) ha,
        split_from-part sep [] b c hb,
        split_from-last sep [] c hc,
      )
      refl

digits_value-decimal_from :
    (fuel n : ℕ) (acc : Text)
    → n < fuel
    → digits_value 0 (decimal_from fuel n acc) ≡ digits_value n acc
unfolding digits_value decimal_from
digits_value-decimal_from zero n acc h = absurd (omega arith)
digits_value-decimal_from (suc fuel) n acc h = elim (Bool-cases (ltb n 10)) [
  | inl e ↦
      let digit : is_digit (48 + n) ≡ true = ground arith in
      let read : 0 * 10 + (48 + n - 48) ≡ n = omega arith in rw (e, digit, read) refl
  | inr e ↦
      let digit : is_digit (48 + n % 10) ≡ true = ground arith in
      let read : n / 10 * 10 + (48 + n % 10 - 48) ≡ n = omega arith in
      rw e (
        digits_value-decimal_from fuel (n / 10) ((48 + n % 10) ∷ acc) (ground arith)
        ∙ rw (digit, read) refl)
]

-- A printed number is read back.
pub digits_value-decimal : (n : ℕ) → digits_value 0 (decimal n) ≡ some n
unfolding decimal digits_value
digits_value-decimal n = digits_value-decimal_from (suc n) n [] (omega arith)

decimal_from-Without :
    (sep fuel n : ℕ) (acc : Text)
    → sep < 48
    → Without sep acc
    → Without sep (decimal_from fuel n acc)
unfolding decimal_from
decimal_from-Without sep zero n acc low h = h
decimal_from-Without sep (suc fuel) n acc low h = elim (Bool-cases (ltb n 10)) [
  | inl e ↦ rw e ((λ q. absurd (omega (arith, q))), h)
  | inr e ↦ rw e (
      decimal_from-Without sep fuel (n / 10) ((48 + n % 10) ∷ acc) low
        ((λ q. absurd (omega (arith, q))), h))
]

-- A printed number has no unit below the digits.
pub decimal-Without : (sep n : ℕ) → sep < 48 → Without sep (decimal n)
unfolding decimal
decimal-Without sep n low = decimal_from-Without sep (suc n) n [] low tt

decimal_from_ne : (fuel n : ℕ) (acc : Text) → n < fuel → decimal_from fuel n acc ≢ []
unfolding decimal_from
decimal_from_ne zero n acc h = absurd (omega arith)
decimal_from_ne (suc fuel) n acc h = elim (Bool-cases (ltb n 10)) [
  | inl e ↦ rw e (λ q. cc)
  | inr e ↦ rw e (decimal_from_ne fuel (n / 10) ((48 + n % 10) ∷ acc) (ground arith))
]

pub decimal_ne : (n : ℕ) → decimal n ≢ []
unfolding decimal
decimal_ne n = decimal_from_ne (suc n) n [] (omega arith)

pub append-cons-ne : (s t : Text) (c : ℕ) → s ++ c ∷ t ≢ []
append-cons-ne [] t c h = cc
append-cons-ne (x ∷ s) t c h = cc
