-- ===== src/Access/Grants/Effects.antt =====
-- About lib/access/grants.ts with evaluate.ts: operations on grants and the access they give.
use captivo_access.Prelude.{
  ℕ, ◌≤◌, ◌≡◌, inl, inr, refl, Bool, true, false, ◌&&◌, Option, Text, arith, text_eq, count,
  Bool-cases, Option-cases, if◌then◌else◌, ◌∙◌, ap,
}
use mathlib.Core.Bool.{and-eq-true_iff}
use captivo_access.Database.{Table, every, updated, tally, find_first}
use captivo_access.Database.Queries.{count_mono, count-congr, count_none}
use captivo_access.Access.Schedule.{Intl}
use captivo_access.Access.Evaluate.{revoked, Grant, DecisionReason, allow, User, evaluate_access}
use captivo_access.Access.Evaluate.Classify.{Allows, classify_grant_iff}
use captivo_access.Access.Evaluate.Verdict.{is_allow, allows_now, is_of, evaluate_access_iff}
use captivo_access.Access.Grants.{
  RequestInput, approve, deny, requested, is_active, is_pending, is_pending_of, is_pending_of,
  decided, create_access_request, revoke_grant, decide_grant,
}

is_allow_sound : (d : DecisionReason) → is_allow d ≡ true → d ≡ allow
is_allow_sound allow h = refl
is_allow_sound _ h = cc

module _ (intl : Intl) (now : ℕ) where
  allowed : (g : Grant) → allows_now intl now g ≡ true → Allows intl g now
  allowed g h = (classify_grant_iff intl g now).0 (is_allow_sound _ h)

  allowed_of : (g : Grant) → Allows intl g now → allows_now intl now g ≡ true
  allowed_of g a = ap is_allow ((classify_grant_iff intl g now).1 a)

  not_allowed : (g : Grant) → (Allows intl g now → ⊥) → allows_now intl now g ≡ false
  not_allowed g n = elim (Bool-cases (allows_now intl now g)) [
    | inl a ↦ absurd (n (allowed g a))
    | inr d ↦ d
  ]

  pending_gives_no_access : (g : Grant) → is_pending g ≡ true → allows_now intl now g ≡ false
  pending_gives_no_access g p = not_allowed g (λ a. ground (arith, a.approved))

  denied_gives_no_access : (g : Grant) → is_active g.status ≡ false → allows_now intl now g ≡ false
  denied_gives_no_access g p = not_allowed g (λ a. ground (arith, a.is_active))

  -- Approving keeps every other condition of the grant.
  approved_keeps :
      (g : Grant) (admin : Text) (reason : Option Text) (at : ℕ)
      → Allows intl g now
      → Allows intl (decided approve admin reason at g) now
  approved_keeps g admin reason at a = record {
    is_active = a.is_active;
    started = a.started;
    not_ended = a.not_ended;
    approved = inr refl;
    on_time = a.on_time;
  }

  abbrev counts : Text → Text → Grant → Bool
  counts u v g = is_of u v g && allows_now intl now g

  deny_row :
      (u v admin : Text) (reason : Option Text) (at : ℕ) (b : Bool) (g : Grant)
      → (b ≡ true → is_pending g ≡ true)
      → counts u v (if b then decided deny admin reason at g else g) ≡ counts u v g
  deny_row u v admin reason at false g h = refl
  deny_row u v admin reason at true g h = rw (
    denied_gives_no_access (decided deny admin reason at g) refl,
    pending_gives_no_access g (h refl),
  )

  approve_row :
      (u v admin : Text) (reason : Option Text) (at : ℕ) (b : Bool) (g : Grant)
      → counts u v g ≡ true
      → counts u v (if b then decided approve admin reason at g else g) ≡ true
  approve_row u v admin reason at false g h = h
  approve_row u v admin reason at true g h =
      let (mine, lets_in) = (and-eq-true_iff (is_of u v g) (allows_now intl now g)).0 h in
      let after = allowed_of _ (approved_keeps g admin reason at (allowed g lets_in)) in
      (and-eq-true_iff (is_of u v g) _).1 (mine, after)

  revoke_row :
      (u v : Text) (b : Bool) (g : Grant)
      → counts u v (if b then record g { status = revoked } else g) ≡ true
      → counts u v g ≡ true
  revoke_row u v false g h = h
  revoke_row u v true g h =
      ground (arith, denied_gives_no_access (record g { status = revoked }) refl)

  revoked_row :
      (id : Text) (b : Bool) (g : Grant)
      → text_eq g.id id ≡ b
      → (text_eq (if b then record g { status = revoked } else g).id id
          && allows_now intl now (if b then record g { status = revoked } else g))
        ≡ false
  revoked_row id true g e = rw (e, denied_gives_no_access (record g { status = revoked }) refl)
  revoked_row id false g e = rw e

  module _ (users : Table User) (t : Table Grant) (us : users.Store) where
    -- May `user_id` reach `site_id`, on these grants?
    abbrev pub has_access : Text → Text → t.Store → Bool
    has_access u v s = (evaluate_access intl users t u v now us s).allow

    access_mono :
        (u v : Text) (s s' : t.Store)
        → tally t (λ g. is_of u v g && allows_now intl now g) s
          ≤ tally t (λ g. is_of u v g && allows_now intl now g) s'
        → has_access u v s ≡ true
        → has_access u v s' ≡ true
    access_mono u v s s' le h =
        let (user, found, on, some_grant) = (evaluate_access_iff intl now users t u v us s).0 h in
        (evaluate_access_iff intl now users t u v us s').1
          (user, found, on, omega (arith, some_grant, le))

    -- Equal numbers of grants that let in, equal access.
    access_congr :
        (u v : Text) (s s' : t.Store)
        → tally t (λ g. is_of u v g && allows_now intl now g) s
          ≡ tally t (λ g. is_of u v g && allows_now intl now g) s'
        → has_access u v s ≡ has_access u v s'
    access_congr u v s s' e =
        let up = access_mono u v s s' (omega (arith, e)) in
        let down = access_mono u v s' s (omega (arith, e)) in ground (arith, up, down)

    create_same_access :
        (u v : Text) (g : Grant) (s : t.Store)
        → allows_now intl now g ≡ false
        → has_access u v (t.create g s) ≡ has_access u v s
    create_same_access u v g s no_access =
        access_congr u v (t.create g s) s
          (ground (arith, t.count-create g (λ g'. is_of u v g' && allows_now intl now g') s))

    -- A request by itself changes nobody's access, whether it is created or refused.
    pub create_access_request_gives_no_access :
        (u v id : Text) (input : RequestInput) (s : t.Store)
        → has_access u v (create_access_request t id input s).0 ≡ has_access u v s
    unfolding create_access_request requested
    create_access_request_gives_no_access u v id input s =
        elim (Option-cases (find_first t (is_pending_of input.user_id input.site_id) s)) [
          | inl none_yet ↦
              rw (none_yet, create_access_request)
                (create_same_access u v (requested id input) s
                  (pending_gives_no_access (requested id input) refl))
          | inr (g, found) ↦ rw (found, create_access_request)
        ]

    update_tally :
        (u v : Text) (p : Grant → Bool) (f : Grant → Grant) (s : t.Store)
        → tally t (λ g. is_of u v g && allows_now intl now g) (t.update_many p f s).0
          ≡ count
              (λ g. is_of u v (updated p f g) && allows_now intl now (updated p f g))
              (t.find_many every s)
    update_tally u v p f s = t.count-update p f (λ g. is_of u v g && allows_now intl now g) s

    -- Denying a request changes nobody's access: what was pending let nobody in.
    pub deny_changes_no_access :
        (u v id admin : Text) (reason : Option Text) (at : ℕ) (s : t.Store)
        → has_access u v (decide_grant t id deny admin reason at s).0 ≡ has_access u v s
    unfolding decide_grant
    deny_changes_no_access u v id admin reason at s =
        let p = λ (g : Grant). text_eq g.id id && is_pending g in
        let f = decided deny admin reason at in
        access_congr u v (t.update_many p f s).0 s (
          update_tally u v p f s
          ∙ count-congr (λ g. is_of u v (updated p f g) && allows_now intl now (updated p f g))
              (λ g. is_of u v g && allows_now intl now g) (t.find_many every s)
              (λ g. deny_row u v admin reason at (p g) g (λ e. ground arith)))

    -- Approving a request takes access from nobody.
    pub approve_keeps_access :
        (u v id admin : Text) (reason : Option Text) (at : ℕ) (s : t.Store)
        → has_access u v s ≡ true
        → has_access u v (decide_grant t id approve admin reason at s).0 ≡ true
    unfolding decide_grant
    approve_keeps_access u v id admin reason at s h =
        let p = λ (g : Grant). text_eq g.id id && is_pending g in
        let f = decided approve admin reason at in
        access_mono u v s (t.update_many p f s).0
          (let same = update_tally u v p f s in
            let more =
              count_mono (λ g. is_of u v g && allows_now intl now g)
                (λ g. is_of u v (updated p f g) && allows_now intl now (updated p f g))
                (t.find_many every s) (λ g e. approve_row u v admin reason at (p g) g e) in
            omega (arith, same, more))
          h

    -- Revoking a grant gives access to nobody: who has it afterwards had it before.
    pub revoke_grant_gives_no_access :
        (u v id : Text) (s : t.Store)
        → has_access u v (revoke_grant t id s) ≡ true
        → has_access u v s ≡ true
    unfolding revoke_grant
    revoke_grant_gives_no_access u v id s =
        let p = λ (g : Grant). text_eq g.id id in
        let f = λ (g : Grant). record g { status = revoked } in
        let same = update_tally u v p f s in
        let fewer =
          count_mono (λ g. counts u v (updated p f g)) (counts u v) (t.find_many every s)
            (λ g e. revoke_row u v (p g) g e) in
        access_mono u v (t.update_many p f s).0 s (omega (arith, same, fewer))

    -- Once a grant is revoked, no grant with its identifier lets anybody in.
    pub revoke_grant_ends :
        (id : Text) (s : t.Store)
        → tally t (λ g. text_eq g.id id && allows_now intl now g) (revoke_grant t id s) ≡ 0
    unfolding revoke_grant
    revoke_grant_ends id s =
        let p = λ (g : Grant). text_eq g.id id in
        let f = λ (g : Grant). record g { status = revoked } in
        t.count-update p f (λ g. text_eq g.id id && allows_now intl now g) s
        ∙ count_none (λ g. text_eq (updated p f g).id id && allows_now intl now (updated p f g))
            (t.find_many every s) (λ g. revoked_row id (text_eq g.id id) g refl)
