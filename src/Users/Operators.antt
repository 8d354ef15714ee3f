-- ===== src/Users/Operators.antt =====
-- About removePlatformAdmin of lib/platform/admins.ts.
use captivo_access.Prelude.{
  ◌+◌, ◌≤◌, ◌<◌, ◌≡◌, ◌≢◌, Bool, not, ◌&&◌, List, [], ◌∷◌, some, Text, text_eq, text_eq_iff, leb→le,
  arith, count, ◌∙◌,
}
use captivo_access.Prelude.Outcomes.{
  returns, Yields, Yields-bind, Yields-returns, require-eq-returns, present-eq-returns,
}
use captivo_access.Database.{Table, tally, every, find_first}
use captivo_access.Auth.Roles.{platform, same_role_iff}
use captivo_access.Database.Queries.{count_none}
use captivo_access.Users.{Person, is_active_operator, remove_platform_admin}

-- Of the rows that meet `q`, at most as many are lost as meet `p`.
count_lost :
    {A : Type 0} (p q : A → Bool) (xs : List A)
    → count q xs ≤ count (λ r. not (p r) && q r) xs + count p xs
count_lost p q [] = omega arith
count_lost p q (x ∷ xs) = ground (arith, count_lost p q xs)

module _ (t : Table Person) where
  -- What is left after a removal.
  abbrev Left : Text → Text → t.Store → Type 0
  Left id actor_id s' =
      (id ≢ actor_id)
      × (0 < tally t is_active_operator s')
      × (tally t (λ p. text_eq p.id id) s' ≡ 0)

  -- The user that is removed.
  abbrev WasOperator : Text → t.Store → Type 0
  WasOperator id s =
      (p : Person) × (find_first t (λ p. text_eq p.id id) s ≡ some p) × (p.role ≡ platform)

  delete_leaves :
      (id : Text) (s : t.Store)
      → tally t (λ p. text_eq p.id id) s ≤ 1
      → 2 ≤ tally t is_active_operator s
      → (0 < tally t is_active_operator (t.delete_many (λ p. text_eq p.id id) s).0)
        × (tally t (λ p. text_eq p.id id) (t.delete_many (λ p. text_eq p.id id) s).0 ≡ 0)
  delete_leaves id s unique enough =
      let hits = λ (p : Person). text_eq p.id id in
      (
        omega (
          arith,
          unique,
          enough,
          t.count-delete hits is_active_operator s,
          count_lost hits is_active_operator (t.find_many every s),
        ),
        t.count-delete hits hits s
            ∙ count_none (λ p. not (hits p) && hits p) (t.find_many every s) (λ p. ground arith),
      )

  removal-Left :
      (id actor_id : Text) (s : t.Store)
      → tally t (λ p. text_eq p.id id) s ≤ 1
      → Yields
          (λ s'. WasOperator id s × Left id actor_id s')
          (remove_platform_admin t id actor_id s)
  unfolding Yields remove_platform_admin
  removal-Left id actor_id s unique =
      let P = λ (s' : t.Store). WasOperator id s × Left id actor_id s' in
      Yields-bind P _ _ λ _ other. Yields-bind P _ _ λ _ enough. Yields-bind P _ _ λ person found.
        Yields-bind P _ _ λ _ operator.
          let differs = require-eq-returns _ _ other in
          let two = leb→le _ _ (require-eq-returns _ _ enough) in
          let (some_left, gone) = delete_leaves id s unique two in
          (
            (
              person,
              present-eq-returns _ _ found,
              (same_role_iff person.role platform).0 (require-eq-returns _ _ operator),
            ),
            (
              (λ e. let same = (text_eq_iff id actor_id).1 e in absurd (ground (arith, same))),
              some_left,
              gone,
            ),
          )

  -- Where removing a platform operator succeeds, and no two users share the identifier, it was not
  -- the caller, the user was an operator and is gone, and an active operator is left.
  pub remove_platform_admin_leaves :
      (id actor_id : Text) (s s' : t.Store)
      → tally t (λ p. text_eq p.id id) s ≤ 1
      → remove_platform_admin t id actor_id s ≡ returns s'
      → ((p : Person) × (find_first t (λ p. text_eq p.id id) s ≡ some p) × (p.role ≡ platform))
        × (id ≢ actor_id)
        × (0 < tally t is_active_operator s')
        × (tally t (λ p. text_eq p.id id) s' ≡ 0)
  remove_platform_admin_leaves id actor_id s s' unique e =
      let (was, left) =
        Yields-returns (λ s'. WasOperator id s × Left id actor_id s') _
          (removal-Left id actor_id s unique) e in
      (was, left.0, left.1, left.2)
