-- ===== src/Access/Grants/Bounds.antt =====
-- About lib/access/grant-edit.ts and deny-reason.ts: dates and deny reasons.
use captivo_access.Prelude.{
  ℕ, zero, suc, ◌+◌, ◌*◌, ◌≤◌, ◌<◌, ◌≡◌, ◌↔◌, ◌⊎◌, refl, List, [], ◌∷◌, Option, none, some, Text,
  arith, length, take, trim, is_empty, subst, if◌then◌else◌, ◌≢◌,
}
use captivo_access.Json.{Json, str}
use captivo_access.Access.Grants.{
  normalize_deny_reason, grant_ends_at_error, grant_cap_error, or_now,
}

-- The window of a grant respects a cap of some days: it has an end, at most that many days after
-- its start (or after now, where it starts at once).
abbrev pub WithinCap : Option ℕ → Option ℕ → ℕ → ℕ → Type 0
WithinCap starts_at none now max_days = max_days ≡ 0
WithinCap starts_at (some e) now max_days =
    (max_days ≡ 0) ⊎ (e ≤ or_now starts_at now + max_days * 86400000)

-- `grantCapError` reports nothing exactly for the windows within the cap (0 means no cap).
pub grant_cap_error_iff :
    (starts_at ends_at : Option ℕ) (now max_days : ℕ)
    → (grant_cap_error starts_at ends_at now max_days ≡ none)
      ↔ WithinCap starts_at ends_at now max_days
unfolding grant_cap_error
grant_cap_error_iff starts_at none now max_days = (λ h. ground arith, λ h. ground arith)
grant_cap_error_iff starts_at (some e) now max_days = (λ h. ground arith, λ h. ground arith)

abbrev pub AfterStart : Option ℕ → ℕ → Type 0
AfterStart none e = Unit
AfterStart (some s) e = s < e

abbrev pub AcceptableEnd : Option ℕ → Option ℕ → ℕ → Type 0
AcceptableEnd none starts_at now = ⊥
AcceptableEnd (some e) starts_at now = (now < e) × AfterStart starts_at e

-- An edit of the end is accepted exactly for a valid date that lies after now and after the start.
pub grant_ends_at_error_iff :
    (ends_at starts_at : Option ℕ) (now : ℕ)
    → (grant_ends_at_error ends_at starts_at now ≡ none) ↔ AcceptableEnd ends_at starts_at now
unfolding grant_ends_at_error
grant_ends_at_error_iff none starts_at now = (λ h. cc, λ h. absurd h)
grant_ends_at_error_iff (some e) none now = (λ h. ground arith, λ h. ground arith)
grant_ends_at_error_iff (some e) (some s) now = (λ h. ground arith, λ h. ground arith)

length-take-le : (n : ℕ) (xs : List ℕ) → length (take n xs) ≤ n
length-take-le zero xs = omega arith
length-take-le (suc n) [] = omega arith
length-take-le (suc n) (x ∷ xs) = omega (arith, length-take-le n xs)

take_ne : (n : ℕ) (xs : List ℕ) → 0 < n → xs ≢ [] → take n xs ≢ []
take_ne zero xs p h = absurd (omega arith)
take_ne (suc n) [] p h = absurd (h refl)
take_ne (suc n) (x ∷ xs) p h = λ e. cc

reason_bounds :
    (raw r : Text) (n : ℕ)
    → 0 < n
    → (if is_empty raw then none else some (take n raw)) ≡ some r
    → (r ≢ []) × (length r ≤ n)
reason_bounds [] r n p h = cc
reason_bounds (c ∷ raw) r n p h =
    let same : take n (c ∷ raw) ≡ r = ground arith in
    (
      subst (λ x. x ≢ []) same (take_ne n (c ∷ raw) p (λ e. cc)),
      subst (λ x. length x ≤ n) same (length-take-le n (c ∷ raw)),
    )

-- A deny reason that is stored is not empty and has at most 500 units.
pub normalize_deny_reason_bounds :
    (raw : Json) (r : Text) → normalize_deny_reason raw ≡ some r → (r ≢ []) × (length r ≤ 500)
unfolding normalize_deny_reason
normalize_deny_reason_bounds (str raw) r h = reason_bounds (trim raw) r 500 (omega arith) h
normalize_deny_reason_bounds _ r h = cc
