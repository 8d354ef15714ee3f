-- ===== src/Directory/Sync/Provision.antt =====
-- About provisionUser and deprovisionUser of lib/directory/sync.ts: the grants.
use captivo_access.Prelude.{
  ◌+◌, ◌<◌, ◌≡◌, ◌↔◌, inl, inr, refl, Bool, true, false, not, ◌&&◌, List, [], ◌∷◌, map, Text,
  text_eq, text_eq_iff, text_eq_refl, contains, any, count, arith, Bool-cases, sym, ◌∙◌, subst,
}
use captivo_access.Database.{Table, every, updated, tally}
use captivo_access.Database.Queries.{any_of_count, count_of_any, count-congr, count_none}
use captivo_access.Access.Evaluate.{Grant}
use captivo_access.Access.Grants.{is_active}
use captivo_access.Directory.Reconcile.{plan_grant_changes}
use captivo_access.Directory.Reconcile.Plan.{plan_grant_changes_lem}
use captivo_access.Directory.Sync.{
  is_directory_grant, mark_revoked, provisioned_grant, create_all, plan_of, revoke_sites,
  provision_grants, deprovision_grants,
}

contains-any :
    (rows : List Grant) (x : Text)
    → contains (map (λ g. g.site_id) rows) x ≡ any (λ g. text_eq x g.site_id) rows
contains-any [] x = refl
contains-any (g ∷ rows) x = rw (contains-any rows x) refl

module _ (t : Table Grant) (user_id x : Text) where
  -- The user's grants of one site that the directory gave and that are in force.
  abbrev pub holds : Grant → Bool
  holds g = is_directory_grant user_id g && text_eq x g.site_id

  held_now :
      (s : t.Store)
      → contains (map (λ g. g.site_id) (t.find_many (is_directory_grant user_id) s)) x ≡ true
        ↔ 0 < tally t holds s
  held_now s =
      let rows = t.find_many (is_directory_grant user_id) s in
      let same = t.count-find_many (is_directory_grant user_id) (λ g. text_eq x g.site_id) s in
      rw (contains-any rows x) (
        λ h. subst (λ n. 0 < n) same (count_of_any (λ g. text_eq x g.site_id) rows h),
        λ h. any_of_count (λ g. text_eq x g.site_id) rows (subst (λ n. 0 < n) (sym same) h),
      )

  own_site : (id y : Text) → holds (provisioned_grant id user_id y) ≡ text_eq x y
  unfolding provisioned_grant
  own_site id y = rw (text_eq_refl user_id) refl

  created_counts :
      (new_id : Text → Text) (sites : List Text) (s : t.Store)
      → tally t holds (create_all t new_id user_id sites s)
        ≡ count (text_eq x) sites + tally t holds s
  unfolding create_all
  created_counts new_id [] s = omega arith
  created_counts new_id (y ∷ ys) s =
      let row = provisioned_grant (new_id y) user_id y in
      let grew = rw (own_site (new_id y) y) at (t.count-create row holds s) in
      omega (arith, created_counts new_id ys (t.create row s), grew)

  none_held :
      (sites : List Text) (g : Grant)
      → contains sites x ≡ true
      → holds (
          updated (λ g'. is_directory_grant user_id g' && contains sites g'.site_id) mark_revoked g)
        ≡ false
  none_held sites g h = elim (Bool-cases (text_eq x g.site_id)) [
    | inr e ↦ ground arith
    | inl e ↦
        let there = subst (λ y. contains sites y ≡ true) ((text_eq_iff x g.site_id).0 e) h in
        ground (arith, there)
  ]

  still_held :
      (sites : List Text) (g : Grant)
      → contains sites x ≡ false
      → holds (
          updated (λ g'. is_directory_grant user_id g' && contains sites g'.site_id) mark_revoked g)
        ≡ holds g
  still_held sites g h = elim (Bool-cases (text_eq x g.site_id)) [
    | inr e ↦ ground arith
    | inl e ↦
        let there = subst (λ y. contains sites y ≡ false) ((text_eq_iff x g.site_id).0 e) h in
        ground (arith, there)
  ]

  revoked_counts :
      (sites : List Text) (s : t.Store)
      → contains sites x ≡ true
      → tally t holds (revoke_sites t user_id sites s) ≡ 0
  unfolding revoke_sites
  revoked_counts [] s h = absurd cc
  revoked_counts (y ∷ ys) s h =
      t.count-update (λ g. is_directory_grant user_id g && contains (y ∷ ys) g.site_id) mark_revoked
        holds s
      ∙ count_none _ (t.find_many every s) (λ g. none_held (y ∷ ys) g h)

  unrevoked_counts :
      (sites : List Text) (s : t.Store)
      → contains sites x ≡ false
      → tally t holds (revoke_sites t user_id sites s) ≡ tally t holds s
  unfolding revoke_sites
  unrevoked_counts [] s h = refl
  unrevoked_counts (y ∷ ys) s h =
      t.count-update (λ g. is_directory_grant user_id g && contains (y ∷ ys) g.site_id) mark_revoked
        holds s
      ∙ count-congr _ holds (t.find_many every s) (λ g. still_held (y ∷ ys) g h)

-- After provisioning, a user holds a directory grant in force for exactly the desired sites, whatever
-- grants the tables held before and however the new rows are named.
pub provision_grants_iff :
    (t : Table Grant) (new_id : Text → Text) (user_id : Text) (desired : List Text) (s : t.Store)
    (x : Text)
    → 0 < tally t (holds t user_id x) (provision_grants t new_id user_id desired s)
      ↔ contains desired x ≡ true
unfolding provision_grants plan_of
provision_grants_iff t new_id user_id desired s x =
    let current = map (λ g. g.site_id) (t.find_many (is_directory_grant user_id) s) in
    let plan = plan_grant_changes current desired in
    let grown = create_all t new_id user_id plan.to_create_site_ids s in
    let (creates, revokes) = plan_grant_changes_lem current desired x in
    let held = held_now t user_id x s in
    let sum = created_counts t user_id x new_id plan.to_create_site_ids s in
    let some_created = any_of_count (text_eq x) plan.to_create_site_ids in
    let created_some = count_of_any (text_eq x) plan.to_create_site_ids in
    elim (Bool-cases (contains plan.to_revoke_site_ids x)) [
      | inl e ↦
          let gone = revoked_counts t user_id x plan.to_revoke_site_ids grown e in
          (λ h. absurd (omega (arith, gone, h)), λ h. absurd (ground (arith, revokes, e, h)))
      | inr e ↦
          let same = unrevoked_counts t user_id x plan.to_revoke_site_ids grown e in
          (
            λ h. ground (arith, same, sum, creates, revokes, held.1, some_created),
            λ h. ground (arith, same, sum, creates, revokes, held.0, created_some),
          )
    ]

created_keeps :
    (t : Table Grant) (new_id : Text → Text) (user_id : Text) (sites : List Text) (s : t.Store)
    (q : Grant → Bool)
    → tally t (λ g. not g.directory_managed && q g) (create_all t new_id user_id sites s)
      ≡ tally t (λ g. not g.directory_managed && q g) s
unfolding create_all provisioned_grant
created_keeps t new_id user_id [] s q = refl
created_keeps t new_id user_id (y ∷ ys) s q =
    let row = provisioned_grant (new_id y) user_id y in
    let grew = t.count-create row (λ g. not g.directory_managed && q g) s in
    omega (arith, created_keeps t new_id user_id ys (t.create row s) q, grew)

revoked_keeps :
    (t : Table Grant) (user_id : Text) (sites : List Text) (s : t.Store) (q : Grant → Bool)
    → tally t (λ g. not g.directory_managed && q g) (revoke_sites t user_id sites s)
      ≡ tally t (λ g. not g.directory_managed && q g) s
unfolding revoke_sites
revoked_keeps t user_id [] s q = refl
revoked_keeps t user_id (y ∷ ys) s q =
    t.count-update (λ g. is_directory_grant user_id g && contains (y ∷ ys) g.site_id) mark_revoked
      (λ g. not g.directory_managed && q g) s
    ∙ count-congr _ (λ g. not g.directory_managed && q g) (t.find_many every s) (λ g. ground arith)

-- Provisioning leaves the grants that people gave as they were: the rows that are not managed by
-- the directory are as many as before under every further condition.
pub provision_grants_keeps :
    (t : Table Grant) (new_id : Text → Text) (user_id : Text) (desired : List Text) (s : t.Store)
    (q : Grant → Bool)
    → tally t (λ g. not g.directory_managed && q g) (provision_grants t new_id user_id desired s)
      ≡ tally t (λ g. not g.directory_managed && q g) s
unfolding provision_grants plan_of
provision_grants_keeps t new_id user_id desired s q =
    let current = map (λ g. g.site_id) (t.find_many (is_directory_grant user_id) s) in
    let plan = plan_grant_changes current desired in
    revoked_keeps t user_id plan.to_revoke_site_ids
      (create_all t new_id user_id plan.to_create_site_ids s) q
    ∙ created_keeps t new_id user_id plan.to_create_site_ids s q

-- Deprovisioning leaves no grant of the user in force, and the grants of others as they were.
pub deprovision_grants_lem :
    (t : Table Grant) (user_id : Text) (s : t.Store) (q : Grant → Bool)
    → (tally t
          (λ g. text_eq g.user_id user_id && is_active g.status)
          (deprovision_grants t user_id s)
        ≡ 0)
      × (tally t (λ g. not (text_eq g.user_id user_id) && q g) (deprovision_grants t user_id s)
          ≡ tally t (λ g. not (text_eq g.user_id user_id) && q g) s)
unfolding deprovision_grants
deprovision_grants_lem t user_id s q =
    let p = λ (g : Grant). text_eq g.user_id user_id && is_active g.status in
    let others = λ (g : Grant). not (text_eq g.user_id user_id) && q g in
    (
      t.count-update p mark_revoked p s ∙ count_none _ (t.find_many every s) (λ g. ground arith),
      t.count-update p mark_revoked others s
          ∙ count-congr _ others (t.find_many every s) (λ g. ground arith),
    )
