-- ===== src/Access/Evaluate/Verdict.antt =====
-- About evaluateAccess of lib/access/evaluate.ts: all grants of a user for a site.
use captivo_access.Prelude.{
  ℕ, ◌≤◌, ◌<◌, ◌≡◌, ◌↔◌, ◌⊎◌, inl, inr, refl, Bool, true, false, ◌&&◌, ◌||◌, List, [], ◌∷◌, Option,
  none, some, Text, arith, text_eq, any, All, Any, Bool-cases, Option-cases, ltb, ltb→lt, ◌∙◌, sym,
  ap, subst,
}
use captivo_access.Database.{Table, tally, find_first}
use captivo_access.Database.Queries.{any_of_count, count_of_any}
use captivo_access.Access.Schedule.{Intl}
use captivo_access.Access.Evaluate.{
  Grant, DecisionReason, allow, Decision, active, User, deny_priority, is_active_user,
  classify_grant, better, conclude, weigh, decide_loop, decide_grants, evaluate_access,
}

abbrev pub is_allow : DecisionReason → Bool
is_allow allow = true
is_allow _ = false

-- The grants that `evaluateAccess` reads.
abbrev pub is_of : Text → Text → Grant → Bool
is_of user_id site_id g = text_eq g.user_id user_id && text_eq g.site_id site_id

weigh_allow :
    (d : DecisionReason) (best : Option DecisionReason) (rest : Option DecisionReason → Decision)
    (b : Bool)
    → ((best' : Option DecisionReason) → (rest best').allow ≡ b)
    → (weigh d best rest).allow ≡ (is_allow d || b)
weigh_allow allow best rest b h = refl
weigh_allow d best rest b h = h (better best d)

conclude_allow : (best : Option DecisionReason) → (conclude best).allow ≡ false
conclude_allow none = refl
conclude_allow (some d) = refl

module _ (intl : Intl) (now : ℕ) where
  abbrev pub allows_now : Grant → Bool
  allows_now g = is_allow (classify_grant intl g now)

  decide_loop_allow :
      (gs : List Grant) (best : Option DecisionReason)
      → (decide_loop intl gs now best).allow ≡ any allows_now gs
  unfolding decide_loop
  decide_loop_allow [] best = conclude_allow best
  decide_loop_allow (g ∷ gs) best =
      weigh_allow (classify_grant intl g now) best (decide_loop intl gs now) (any allows_now gs)
        (decide_loop_allow gs)

  decide_grants_allow : (gs : List Grant) → (decide_grants intl gs now).allow ≡ any allows_now gs
  unfolding decide_grants
  decide_grants_allow [] = refl
  decide_grants_allow (g ∷ gs) = decide_loop_allow (g ∷ gs) none

  -- The reason of a denial: the best of the grants, or of what was best before them.
  record Explains (gs : List Grant) (best : Option DecisionReason) (r : DecisionReason)
      : Type 0 where
    given : (best ≡ some r) ⊎ Any (λ g. classify_grant intl g now ≡ r) gs
    top : All (λ g. deny_priority (classify_grant intl g now) ≤ deny_priority r) gs
    kept : (b : DecisionReason) → best ≡ some b → deny_priority b ≤ deny_priority r

  better_cases :
      (best : Option DecisionReason) (d : DecisionReason)
      → (b : DecisionReason) × (better best d ≡ some b)
        × ((best ≡ some b) ⊎ (d ≡ b))
        × (deny_priority d ≤ deny_priority b)
        × ((c : DecisionReason) → best ≡ some c → deny_priority c ≤ deny_priority b)
  better_cases none d = (d, refl, inr refl, omega arith, λ c e. cc)
  better_cases (some b) d = elim (Bool-cases (ltb (deny_priority b) (deny_priority d))) [
    | inl up ↦ rw up (d, refl, inr refl, omega arith, λ c e. over b d c (ltb→lt _ _ up) e)
    | inr down ↦ rw down (b, refl, inl refl, ground arith, λ c e. same b c e)
  ]
    where
      over :
          (b d c : DecisionReason)
          → deny_priority b < deny_priority d
          → some b ≡ some c
          → deny_priority c ≤ deny_priority d
      over b d c lt e =
          let q : b ≡ c = cc in subst (λ x. deny_priority x ≤ deny_priority d) q (omega arith)

      same : (b c : DecisionReason) → some b ≡ some c → deny_priority c ≤ deny_priority b
      same b c e =
          let q : b ≡ c = cc in subst (λ x. deny_priority x ≤ deny_priority b) q (omega arith)

  explain_step :
      (g : Grant) (gs : List Grant) (best : Option DecisionReason) (d r : DecisionReason)
      → classify_grant intl g now ≡ d
      → Explains gs (better best d) r
      → Explains (g ∷ gs) best r
  explain_step g gs best d r e x =
      let (b, is_b, from, above, old) = better_cases best d in
      let le : deny_priority b ≤ deny_priority r = x.kept b is_b in
      record {
        given = origin from is_b x.given;
        top = (rw e (omega arith), x.top);
        kept = λ c q. omega (arith, old c q);
      }
    where
      origin :
          {b : DecisionReason}
          → (best ≡ some b) ⊎ (d ≡ b)
          → better best d ≡ some b
          → (better best d ≡ some r) ⊎ Any (λ g. classify_grant intl g now ≡ r) gs
          → (best ≡ some r) ⊎ Any (λ g. classify_grant intl g now ≡ r) (g ∷ gs)
      origin src is_b (inr later) = inr (inr later)
      origin (inl q) is_b (inl p) = inl (cc)
      origin (inr q) is_b (inl p) = inr (inl (cc))

  abbrev denial : DecisionReason → Decision
  denial r = record { allow = false; reason = r }

  explain_weigh :
      (g : Grant) (gs : List Grant) (best : Option DecisionReason) (d r : DecisionReason)
      → classify_grant intl g now ≡ d
      → ((b : DecisionReason)
          → decide_loop intl gs now (some b) ≡ denial r
          → Explains gs (some b) r)
      → weigh d best (decide_loop intl gs now) ≡ denial r
      → Explains (g ∷ gs) best r
  explain_weigh g gs best allow r e ih h = absurd (ground arith)
  explain_weigh g gs best d r e ih h =
      let (b, is_b, from, above, old) = better_cases best d in
      explain_step g gs best d r e (subst (λ o. Explains gs o r) (sym is_b) (ih b (rw is_b at h)))

  explain_loop :
      (gs : List Grant) (b r : DecisionReason)
      → decide_loop intl gs now (some b) ≡ denial r
      → Explains gs (some b) r
  unfolding decide_loop
  explain_loop [] b r h =
      let q : b ≡ r = ground arith in
      record {
        given = inl (ap some q);
        top = tt;
        kept = λ c e.
            let p : c ≡ r = cc in subst (λ x. deny_priority c ≤ deny_priority x) p (omega arith);
      }
  explain_loop (g ∷ gs) b r h =
      explain_weigh g gs (some b) (classify_grant intl g now) r refl (λ b'. explain_loop gs b' r) h

  explain_grants :
      (g : Grant) (gs : List Grant) (r : DecisionReason)
      → decide_grants intl (g ∷ gs) now ≡ denial r
      → Explains (g ∷ gs) none r
  unfolding decide_grants decide_loop
  explain_grants g gs r h =
      explain_weigh g gs none (classify_grant intl g now) r refl (λ b. explain_loop gs b r) h

  given_none :
      (gs : List Grant) (r : DecisionReason)
      → (none ≡ some r) ⊎ Any (λ g. classify_grant intl g now ≡ r) gs
      → Any (λ g. classify_grant intl g now ≡ r) gs
  given_none gs r (inl e) = cc
  given_none gs r (inr a) = a

  -- When some grants exist and access is denied, the reason is that of one of the grants, and no
  -- grant has a reason of higher priority.
  pub decide_grants_reason :
      (g : Grant) (gs : List Grant) (r : DecisionReason)
      → decide_grants intl (g ∷ gs) now ≡ record { allow = false; reason = r }
      → Any (λ g'. classify_grant intl g' now ≡ r) (g ∷ gs)
        × All (λ g'. deny_priority (classify_grant intl g' now) ≤ deny_priority r) (g ∷ gs)
  decide_grants_reason g gs r h =
      let x = explain_grants g gs r h in (given_none (g ∷ gs) r x.given, x.top)

  module _ (users : Table User) (grants : Table Grant) (user_id site_id : Text) where
    some_allows :
        (gs : grants.Store)
        → ((decide_grants intl (grants.find_many (is_of user_id site_id) gs) now).allow ≡ true)
          ↔ (0 < tally grants (λ g. is_of user_id site_id g && allows_now g) gs)
    some_allows gs =
        let found = grants.find_many (is_of user_id site_id) gs in
        let same = grants.count-find_many (is_of user_id site_id) allows_now gs in
        (
          (λ h.
              let p = count_of_any allows_now found (sym (decide_grants_allow found) ∙ h) in
              omega (arith, same, p)),
          (λ h. decide_grants_allow found ∙ any_of_count allows_now found (omega (arith, same, h))),
        )

    -- Access is allowed exactly when the user is found and ACTIVE, and at least one grant of that
    -- user for that site classifies as "allow".
    pub evaluate_access_iff :
        (us : users.Store) (gs : grants.Store)
        → ((evaluate_access intl users grants user_id site_id now us gs).allow ≡ true) ↔ (
            (u : User) × (find_first users (λ u. text_eq u.id user_id) us ≡ some u)
            × (u.status ≡ active)
            × (0 < tally grants (λ g. is_of user_id site_id g && allows_now g) gs))
    unfolding evaluate_access
    evaluate_access_iff us gs = (
      (λ h. elim (Option-cases (find_first users (λ u. text_eq u.id user_id) us)) [
        | inl missing ↦ absurd (ground (arith, missing))
        | inr (u, found) ↦ by_user u found (Bool-cases (is_active_user u.status)) h
      ]),
      (λ (u, found, is_active, n). rw (found, is_active, evaluate_access) ((some_allows gs).1 n)),
    )
      where
        by_user :
            (u : User)
            → find_first users (λ u. text_eq u.id user_id) us ≡ some u
            → (is_active_user u.status ≡ true) ⊎ (is_active_user u.status ≡ false)
            → (evaluate_access intl users grants user_id site_id now us gs).allow ≡ true
            → (u : User) × (find_first users (λ u. text_eq u.id user_id) us ≡ some u)
              × (u.status ≡ active)
              × (0 < tally grants (λ g. is_of user_id site_id g && allows_now g) gs)
        by_user u found (inl yes_active) h = (
          u,
          found,
          ground arith,
          (some_allows gs).0 (rw (found, yes_active, evaluate_access) at h),
        )
        by_user u found (inr not_active) h = absurd (ground (arith, found))
