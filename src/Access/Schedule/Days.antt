-- ===== src/Access/Schedule/Days.antt =====
-- The days of a schedule: what `collect_days` gathers and `sort_days` orders.
use captivo_access.Prelude.{
  ℕ, ◌≤◌, ◌<◌, ◌≡◌, ◌≢◌, refl, ap, true, false, List, [], ◌∷◌, ◌++◌, none, some, arith, leb, leb→le,
  le→leb, ◌∙◌, subst, ◌⊎◌, if◌then◌else◌, All, Bool-cases, inl, inr,
}
use mathlib.Core.List.{append-nil, append_assoc}
use captivo_access.Json.{Json, nat, num}
use captivo_access.Access.Schedule.{includes, collect_days, insert_day, sort_days}

abbrev pub Ascending : List ℕ → Type 0
Ascending [] = Unit
Ascending (x ∷ xs) = All (λ y. x < y) xs × Ascending xs

abbrev pub Distinct : List ℕ → Type 0
Distinct [] = Unit
Distinct (x ∷ xs) = All (λ y. x ≢ y) xs × Distinct xs

module _ (P : ℕ → Type 0) where
  All-append_one : (xs : List ℕ) (d : ℕ) → All P xs → P d → All P (xs ++ d ∷ [])
  All-append_one [] d h p = (p, tt)
  All-append_one (x ∷ xs) d (q, h) p = (q, All-append_one xs d h p)

  All-insert_day : (d : ℕ) (xs : List ℕ) → P d → All P xs → All P (insert_day d xs)
  unfolding insert_day
  All-insert_day d [] p h = (p, tt)
  All-insert_day d (x ∷ xs) p (q, h) = elim (Bool-cases (leb d x)) [
    | inl before ↦ rw before (p, (q, h))
    | inr after ↦ rw after (q, All-insert_day d xs p h)
  ]

  pub All-sort_days : (xs : List ℕ) → All P xs → All P (sort_days xs)
  unfolding sort_days
  All-sort_days [] h = tt
  All-sort_days (x ∷ xs) (p, h) = All-insert_day x (sort_days xs) p (All-sort_days xs h)

All-weaken : {P Q : ℕ → Type 0} (xs : List ℕ) → ((x : ℕ) → P x → Q x) → All P xs → All Q xs
All-weaken [] f h = tt
All-weaken (x ∷ xs) f (p, h) = (f x p, All-weaken xs f h)

not_included : (d : ℕ) (xs : List ℕ) → includes d xs ≡ false → All (λ x. x ≢ d) xs
not_included d [] h = tt
not_included d (x ∷ xs) h = (ground arith, not_included d xs (ground arith))

insert_day-Ascending :
    (d : ℕ) (xs : List ℕ) → All (λ x. d ≢ x) xs → Ascending xs → Ascending (insert_day d xs)
unfolding insert_day
insert_day-Ascending d [] n h = (tt, tt)
insert_day-Ascending d (x ∷ xs) (n, ns) (a, h) = elim (Bool-cases (leb d x)) [
  | inl before ↦
      let lt : d < x = ground arith in
      rw before ((lt, All-weaken xs (λ y (p : x < y). omega arith) a), (a, h))
  | inr after ↦
      rw after (All-insert_day (λ y. x < y) d xs (ground arith) a, insert_day-Ascending d xs ns h)
]

pub sort_days-Ascending : (xs : List ℕ) → Distinct xs → Ascending (sort_days xs)
unfolding sort_days
sort_days-Ascending [] h = tt
sort_days-Ascending (x ∷ xs) (n, h) =
    insert_day-Ascending x (sort_days xs) (All-sort_days (λ y. x ≢ y) xs n)
      (sort_days-Ascending xs h)

Distinct-append_one :
    (xs : List ℕ) (d : ℕ) → Distinct xs → All (λ x. x ≢ d) xs → Distinct (xs ++ d ∷ [])
Distinct-append_one [] d h n = (tt, tt)
Distinct-append_one (x ∷ xs) d (m, h) (n, ns) =
    (All-append_one (λ y. x ≢ y) xs d m n, Distinct-append_one xs d h ns)

abbrev pub Collected : List ℕ → Type 0
Collected days = Distinct days × All (λ d. d ≤ 6) days

push_day :
    (days : List ℕ) (d : ℕ)
    → d ≤ 6
    → Collected days
    → Collected (if includes d days then days else days ++ d ∷ [])
push_day days d le (h, k) = elim (Bool-cases (includes d days)) [
  | inl old ↦ rw old (h, k)
  | inr new ↦ rw new (
    Distinct-append_one days d h (not_included d days new),
    All-append_one (λ x. x ≤ 6) days d k le,
  )
]

pub collect_days-Collected :
    (days : List ℕ) (vs : List Json) (r : List ℕ)
    → Collected days
    → collect_days days vs ≡ some r
    → Collected r
unfolding collect_days
collect_days-Collected days [] r h e = let same : days ≡ r = cc in subst Collected same h
collect_days-Collected days (num (nat d) ∷ vs) r h e = elim (Bool-cases (leb d 6)) [
  | inl fits ↦
      collect_days-Collected (if includes d days then days else days ++ d ∷ []) vs r
        (push_day days d (leb→le d 6 fits) h) (rw fits at e)
  | inr over ↦ let e' : none ≡ some r = rw over at e in cc
]
collect_days-Collected days (_ ∷ vs) r h e = cc

append_one_ne : (xs : List ℕ) (d : ℕ) → xs ++ d ∷ [] ≢ []
append_one_ne [] d e = cc
append_one_ne (x ∷ xs) d e = cc

collect_days_ne :
    (days : List ℕ) (vs : List Json) (r : List ℕ)
    → days ≢ []
    → collect_days days vs ≡ some r
    → r ≢ []
unfolding collect_days
collect_days_ne days [] r h e = let same : days ≡ r = cc in subst (λ l. l ≢ []) same h
collect_days_ne days (num (nat d) ∷ vs) r h e = elim (Bool-cases (leb d 6)) [
  | inl fits ↦
      collect_days_ne (if includes d days then days else days ++ d ∷ []) vs r
        (push_ne (Bool-cases (includes d days))) (rw fits at e)
  | inr over ↦ let e' : none ≡ some r = rw over at e in cc
]
  where
    push_ne :
        (includes d days ≡ true) ⊎ (includes d days ≡ false)
        → (if includes d days then days else days ++ d ∷ []) ≢ []
    push_ne (inl old) = rw old h
    push_ne (inr new) = rw new (append_one_ne days d)
collect_days_ne days (_ ∷ vs) r h e = cc

-- The first entry of a non-empty array is pushed or refused.
pub collect_days_first :
    (v : Json) (vs : List Json) (r : List ℕ) → collect_days [] (v ∷ vs) ≡ some r → r ≢ []
unfolding collect_days
collect_days_first (num (nat d)) vs r e = elim (Bool-cases (leb d 6)) [
  | inl fits ↦ collect_days_ne (d ∷ []) vs r (λ p. cc) (rw fits at e)
  | inr over ↦ let e' : none ≡ some r = rw over at e in cc
]
collect_days_first _ vs r e = cc

insert_day_ne : (d : ℕ) (xs : List ℕ) → insert_day d xs ≢ []
unfolding insert_day
insert_day_ne d [] e = cc
insert_day_ne d (x ∷ xs) e = elim (Bool-cases (leb d x)) [
  | inl before ↦ let e' : d ∷ (x ∷ xs) ≡ [] = rw before at e in cc
  | inr after ↦ let e' : x ∷ insert_day d xs ≡ [] = rw after at e in cc
]

pub sort_days_ne : (xs : List ℕ) → xs ≢ [] → sort_days xs ≢ []
unfolding sort_days
sort_days_ne [] h e = h refl
sort_days_ne (x ∷ xs) h e = insert_day_ne x (sort_days xs) e

-- Days that are already in order stay as they are.
insert_day-below : (d : ℕ) (xs : List ℕ) → All (λ y. d < y) xs → insert_day d xs ≡ d ∷ xs
unfolding insert_day
insert_day-below d [] h = refl
insert_day-below d (x ∷ xs) (p, h) = ground arith

pub sort_days-Ascending_self : (xs : List ℕ) → Ascending xs → sort_days xs ≡ xs
unfolding sort_days
sort_days-Ascending_self [] h = refl
sort_days-Ascending_self (x ∷ xs) (b, h) =
    rw (sort_days-Ascending_self xs h) (insert_day-below x xs b)

abbrev pub day_values : List ℕ → List Json
day_values [] = []
day_values (d ∷ ds) = num (nat d) ∷ day_values ds

not_included_of_All : (d : ℕ) (xs : List ℕ) → All (λ x. x < d) xs → includes d xs ≡ false
not_included_of_All d [] h = refl
not_included_of_All d (x ∷ xs) (p, h) = ground (arith, not_included_of_All d xs h)

abbrev Precede : List ℕ → List ℕ → Type 0
Precede xs [] = Unit
Precede xs (d ∷ ds) = All (λ x. x < d) xs × Precede xs ds

Precede-append_one :
    (xs : List ℕ) (d : ℕ) (ds : List ℕ)
    → Precede xs ds
    → All (λ y. d < y) ds
    → Precede (xs ++ d ∷ []) ds
Precede-append_one xs d [] h k = tt
Precede-append_one xs d (e ∷ ds) (p, h) (q, k) =
    (All-append_one (λ x. x < e) xs d p q, Precede-append_one xs d ds h k)

collect_days-All :
    (xs ds : List ℕ)
    → Precede xs ds
    → Ascending ds
    → All (λ d. d ≤ 6) ds
    → collect_days xs (day_values ds) ≡ some (xs ++ ds)
unfolding collect_days
collect_days-All xs [] p a w = rw append-nil
collect_days-All xs (d ∷ ds) (q, p) (b, a) (le, w) =
    rw (le→leb d 6 le, not_included_of_All d xs q)
      (collect_days-All (xs ++ d ∷ []) ds (Precede-append_one xs d ds p b) a w
        ∙ ap some (append_assoc xs (d ∷ []) ds))

Precede-nil : (ds : List ℕ) → Precede [] ds
Precede-nil [] = tt
Precede-nil (d ∷ ds) = (tt, Precede-nil ds)

-- Days in order and within the week are collected as they are.
pub collect_days_self :
    (ds : List ℕ) → Ascending ds → All (λ d. d ≤ 6) ds → collect_days [] (day_values ds) ≡ some ds
collect_days_self ds a w = collect_days-All [] ds (Precede-nil ds) a w
