-- ===== src/Access/Grants/Pending.antt =====
-- About lib/access/grants.ts: pending requests, over sequences of operations.
use captivo_access.Prelude.{
  ℕ, ◌≤◌, ◌≡◌, inl, inr, refl, Bool, true, false, not, ◌&&◌, Option, none, Text, arith, text_eq,
  text_eq_iff, Bool-cases, Option-cases, ◌∙◌,
}
use captivo_access.Database.{Table, every, updated, tally, find_first}
use captivo_access.Database.Queries.{count_mono, count_untouched, count_none, no_row_tally}
use captivo_access.Access.Evaluate.{revoked, Grant}
use captivo_access.Access.Grants.{
  GrantInput, RequestInput, Verdict, approve, deny, granted, requested, is_pending, is_pending_of,
  decided, create_grant, create_access_request, revoke_grant, decide_grant,
}

-- An update that makes no row pending.
abbrev KeepsPending : (Grant → Grant) → Type 0
KeepsPending f =
    (u v : Text) (g : Grant) → is_pending_of u v (f g) ≡ true → is_pending_of u v g ≡ true

decided-KeepsPending :
    (id admin : Text) (verdict : Verdict) (reason : Option Text) (now : ℕ)
    → KeepsPending
        (updated (λ g. text_eq g.id id && is_pending g) (decided verdict admin reason now))
decided-KeepsPending id admin approve reason now u v g h = ground arith
decided-KeepsPending id admin deny reason now u v g h = ground arith

revoked-KeepsPending :
    (id : Text) → KeepsPending (updated (λ g. text_eq g.id id) (λ g. record g { status = revoked }))
revoked-KeepsPending id u v g h = ground arith

granted-IsNotPending :
    (id u v : Text) (input : GrantInput) → is_pending_of u v (granted id input) ≡ false
unfolding granted
granted-IsNotPending id u v input = refl

module _ (t : Table Grant) where
  -- No user has two pending requests for one site.
  abbrev pub AtMostOnePending : t.Store → Type 0
  AtMostOnePending s = (user_id site_id : Text) → tally t (is_pending_of user_id site_id) s ≤ 1

  pub update-AtMostOnePending :
      (p : Grant → Bool) (f : Grant → Grant) (s : t.Store)
      → ((u v : Text) (g : Grant)
          → is_pending_of u v (updated p f g) ≡ true
          → is_pending_of u v g ≡ true)
      → AtMostOnePending s
      → AtMostOnePending (t.update_many p f s).0
  update-AtMostOnePending p f s keep h u v = omega (
    arith,
    t.count-update p f (is_pending_of u v) s,
    count_mono (λ g. is_pending_of u v (updated p f g)) (is_pending_of u v) (t.find_many every s)
        (keep u v),
    h u v,
  )

  pub delete-AtMostOnePending :
      (p : Grant → Bool) (s : t.Store) → AtMostOnePending s → AtMostOnePending (t.delete_many p s).0
  delete-AtMostOnePending p s h u v = omega (
    arith,
    t.count-delete p (is_pending_of u v) s,
    count_mono (λ g. not (p g) && is_pending_of u v g) (is_pending_of u v) (t.find_many every s)
        (λ g e. ground arith),
    h u v,
  )

  -- A decision makes no second request pending.
  pub decide_grant-AtMostOnePending :
      (id : Text) (verdict : Verdict) (admin : Text) (reason : Option Text) (now : ℕ) (s : t.Store)
      → AtMostOnePending s
      → AtMostOnePending (decide_grant t id verdict admin reason now s).0
  unfolding decide_grant
  decide_grant-AtMostOnePending id verdict admin reason now s h =
      update-AtMostOnePending (λ g. text_eq g.id id && is_pending g)
        (decided verdict admin reason now) s (decided-KeepsPending id admin verdict reason now) h

  pub revoke_grant-AtMostOnePending :
      (id : Text) (s : t.Store) → AtMostOnePending s → AtMostOnePending (revoke_grant t id s)
  unfolding revoke_grant
  revoke_grant-AtMostOnePending id s h =
      update-AtMostOnePending (λ g. text_eq g.id id) (λ g. record g { status = revoked }) s
        (revoked-KeepsPending id) h

  pub create_grant-AtMostOnePending :
      (id : Text) (input : GrantInput) (s : t.Store)
      → AtMostOnePending s
      → AtMostOnePending (create_grant t id input s)
  unfolding create_grant
  create_grant-AtMostOnePending id input s h u v =
      let grew = t.count-create (granted id input) (is_pending_of u v) s in
      let same = rw (granted-IsNotPending id u v input) at grew in omega (arith, same, h u v)

  -- Creating a request: where none is pending for its user and site, the new row is the only one;
  -- for any other user or site the number of pending requests is unchanged.
  request_pending_counts :
      (id u v : Text) (input : RequestInput) (s : t.Store)
      → find_first t (is_pending_of input.user_id input.site_id) s ≡ none
      → AtMostOnePending s
      → tally t (is_pending_of u v) (t.create (requested id input) s) ≤ 1
  unfolding requested
  request_pending_counts id u v input s none_yet h =
      let grew = t.count-create (requested id input) (is_pending_of u v) s in
      elim (Bool-cases (text_eq input.user_id u && text_eq input.site_id v)) [
        | inr other ↦ let same = rw other at grew in omega (arith, same, h u v)
        | inl mine ↦
            let same_user : input.user_id ≡ u = (text_eq_iff _ _).0 (ground arith) in
            let same_site : input.site_id ≡ v = (text_eq_iff _ _).0 (ground arith) in
            let fresh = no_row_tally t (is_pending_of input.user_id input.site_id) s none_yet in
            let one = rw mine at grew in omega (arith, one, rw (same_user, same_site) at fresh)
      ]

  -- Whoever asks, however often, at most one request of a user for a site is pending.
  pub create_access_request-AtMostOnePending :
      (id : Text) (input : RequestInput) (s : t.Store)
      → AtMostOnePending s
      → AtMostOnePending (create_access_request t id input s).0
  unfolding create_access_request
  create_access_request-AtMostOnePending id input s h u v =
      elim (Option-cases (find_first t (is_pending_of input.user_id input.site_id) s)) [
        | inl none_yet ↦
            rw (none_yet, create_access_request) (request_pending_counts id u v input s none_yet h)
        | inr (g, found) ↦ rw (found, create_access_request) (h u v)
      ]

  decided_is_settled :
      (id admin : Text) (verdict : Verdict) (reason : Option Text) (now : ℕ) (g : Grant)
      → (text_eq
            (updated (λ g. text_eq g.id id && is_pending g) (decided verdict admin reason now) g).id
            id
          && is_pending
              (updated (λ g. text_eq g.id id && is_pending g) (decided verdict admin reason now) g))
        ≡ false
  decided_is_settled id admin approve reason now g = ground arith
  decided_is_settled id admin deny reason now g = ground arith

  -- A decision settles its request: whatever it was, a second decision on the same grant, by
  -- anybody and of either kind, matches no row (the caller reads this as "not pending") and
  -- leaves the number of rows of every description as it was.
  pub decide_grant_once :
      (id : Text) (v v' : Verdict) (admin admin' : Text) (reason reason' : Option Text)
      (now now' : ℕ) (s : t.Store) (q : Grant → Bool)
      → let s' = (decide_grant t id v admin reason now s).0 in
        ((decide_grant t id v' admin' reason' now' s').1 ≡ 0)
        × (tally t q (decide_grant t id v' admin' reason' now' s').0 ≡ tally t q s')
  unfolding decide_grant
  decide_grant_once id v v' admin admin' reason reason' now now' s q =
      let p = λ (g : Grant). text_eq g.id id && is_pending g in
      let f = decided v admin reason now in
      let s' = (t.update_many p f s).0 in
      let settled : tally t p s' ≡ 0 =
        t.count-update p f p s
        ∙ count_none (λ g. p (updated p f g)) (t.find_many every s)
            (decided_is_settled id admin v reason now) in
      (
        t.number_updated p (decided v' admin' reason' now') s' ∙ settled,
        t.count-update p (decided v' admin' reason' now') q s'
            ∙ count_untouched p (decided v' admin' reason' now') q (t.find_many every s') settled,
      )
