-- ===== src/Database/Queries.antt =====
-- Facts about counts and about the first row that a query finds.
use captivo_access.Prelude.{
  ◌≤◌, ◌<◌, ◌≡◌, refl, Bool, true, false, ◌&&◌, List, [], ◌∷◌, none, some, arith, any, count, subst,
  ◌∙◌, sym,
}
use captivo_access.Database.{Table, every, updated, first, tally, find_first}

module _ {A : Type 0} where
  -- `xs.some(q)` holds when a row is counted.
  pub any_of_count : (q : A → Bool) (xs : List A) → 0 < count q xs → any q xs ≡ true
  any_of_count q [] h = absurd (omega arith)
  any_of_count q (x ∷ xs) h = ground (arith, any_of_count q xs)

  pub count_of_any : (q : A → Bool) (xs : List A) → any q xs ≡ true → 0 < count q xs
  count_of_any q [] h = cc
  count_of_any q (x ∷ xs) h = ground (arith, count_of_any q xs)

  pub count_zero_of_any : (q : A → Bool) (xs : List A) → any q xs ≡ false → count q xs ≡ 0
  count_zero_of_any q [] h = refl
  count_zero_of_any q (x ∷ xs) h = ground (arith, count_zero_of_any q xs)

  pub count-congr : (p q : A → Bool) (xs : List A) → ((r : A) → p r ≡ q r) → count p xs ≡ count q xs
  count-congr p q [] h = refl
  count-congr p q (x ∷ xs) h = rw (h x, count-congr p q xs h)

  pub count_mono :
      (p q : A → Bool) (xs : List A) → ((r : A) → p r ≡ true → q r ≡ true) → count p xs ≤ count q xs
  count_mono p q [] h = omega arith
  count_mono p q (x ∷ xs) h = ground (arith, h x, count_mono p q xs h)

  -- An update whose condition no row meets changes no count.
  pub count_untouched :
      (p : A → Bool) (f : A → A) (q : A → Bool) (xs : List A)
      → count p xs ≡ 0
      → count (λ r. q (updated p f r)) xs ≡ count q xs
  count_untouched p f q [] h = refl
  count_untouched p f q (x ∷ xs) h = ground (arith, count_untouched p f q xs)

  pub count_none : (p : A → Bool) (xs : List A) → ((r : A) → p r ≡ false) → count p xs ≡ 0
  count_none p [] h = refl
  count_none p (x ∷ xs) h = ground (arith, h x, count_none p xs h)

  -- No counted row has a property that each row refutes.
  pub first-eq-some :
      (xs : List A) (r : A) (q : A → Bool) → first xs ≡ some r → q r ≡ true → 0 < count q xs
  first-eq-some [] r q e h = cc
  first-eq-some (x ∷ xs) r q e h = ground arith

  pub first-eq-none : (xs : List A) (q : A → Bool) → first xs ≡ none → count q xs ≡ 0
  first-eq-none [] q e = refl
  first-eq-none (x ∷ xs) q e = cc

module _ {Row : Type 0} (t : Table Row) where
  -- The rows of a query meet its condition, and the table holds them.
  pub found_row :
      (p q : Row → Bool) (s : t.Store) (r : Row)
      → find_first t p s ≡ some r
      → q r ≡ true
      → 0 < tally t (λ r'. p r' && q r') s
  found_row p q s r e h =
      subst (λ n. 0 < n) (t.count-find_many p q s) (first-eq-some (t.find_many p s) r q e h)

  pub no_row :
      (p q : Row → Bool) (s : t.Store) → find_first t p s ≡ none → tally t (λ r. p r && q r) s ≡ 0
  no_row p q s e = sym (t.count-find_many p q s) ∙ first-eq-none (t.find_many p s) q e

  -- Where a query finds nothing, no row meets its condition.
  pub no_row_tally : (p : Row → Bool) (s : t.Store) → find_first t p s ≡ none → tally t p s ≡ 0
  no_row_tally p s e = omega (
    arith,
    no_row p every s e,
    count_mono p (λ r. p r && true) (t.find_many every s) (λ r h. ground arith),
  )
