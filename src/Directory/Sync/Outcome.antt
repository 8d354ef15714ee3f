-- ===== src/Directory/Sync/Outcome.antt =====
-- About syncUserAtLogin of lib/directory/sync.ts, by the answer of the directory.
use captivo_access.Prelude.{
  ℕ, ◌≡◌, inl, inr, refl, Bool, true, false, not, ◌&&◌, List, [], ◌∷◌, Option, none, some, Text,
  text_eq, any, arith, Bool-cases, Option-cases, ◌∙◌, sym, select,
}
use captivo_access.Database.{Table, tally}
use captivo_access.Access.Evaluate.{Grant}
use captivo_access.Access.Grants.{is_active}
use captivo_access.Directory.Reconcile.{
  Mapping, ReconcileDecision, decide_matched, matches, compute_reconcile,
}
use captivo_access.Directory.Sync.{
  DirectoryRow, DirectoryUser, DirectoryConfig, Answer, is_connected, groups_of, State,
  is_throttled, apply_decision, gives_nothing, deprovision_user, sync_user_at_login,
}
use captivo_access.Directory.Sync.Provision.{deprovision_grants_lem}

-- A user is deprovisioned exactly where the directory manages it and no enabled mapping matches.
deprovision-select :
    (p : Mapping → Bool) (ms : List Mapping) (managed : Bool)
    → (decide_matched managed (select p ms)).deprovision ≡ (managed && not (any p ms))
deprovision-select p [] managed = ground arith
deprovision-select p (m ∷ ms) managed = elim (Bool-cases (p m)) [
  | inl e ↦ rw e (ground arith)
  | inr e ↦ rw e (deprovision-select p ms managed)
]

pub compute_reconcile-deprovision :
    (to_lower : Text → Text) (groups : List Text) (ms : List Mapping) (managed : Bool)
    → (compute_reconcile to_lower groups ms managed).deprovision
      ≡ (managed && not (any (matches to_lower groups) ms))
unfolding compute_reconcile
compute_reconcile-deprovision to_lower groups ms managed =
    deprovision-select (matches to_lower groups) ms managed

module _ (tu : Table DirectoryRow) (tg : Table Grant) (to_lower new_id : Text → Text)
    (cfg : Option DirectoryConfig) (throttle_ms : ℕ) (answer : Answer) (ms : List Mapping)
    (user : DirectoryUser) (now : ℕ) (s : State tu tg) where
  abbrev pub outcome : State tu tg × Bool
  outcome = sync_user_at_login tu tg to_lower new_id cfg throttle_ms answer ms user now s

  -- Where the directory gives no definite answer, the sign-in goes on and nothing changes: no
  -- user, no grant and no audit event.
  pub sync_fails_open : groups_of answer ≡ none → outcome ≡ (s, false)
  unfolding sync_user_at_login
  sync_fails_open h = elim (Bool-cases (not (is_connected cfg))) [
    | inl e ↦ rw (e, sync_user_at_login) refl
    | inr e ↦ elim (Bool-cases (is_throttled tu tg throttle_ms user.id now s)) [
      | inl e' ↦ rw (e, e', sync_user_at_login) refl
      | inr e' ↦ rw (e, e', h, sync_user_at_login) refl
    ]
  ]

  -- With a directory that is configured and enabled, no throttling and a definite answer, the
  -- sign-in is refused exactly where the directory manages the user and no enabled mapping matches
  -- a group of the user.
  pub sync_refuses_iff :
      (groups : List Text)
      → is_connected cfg ≡ true
      → is_throttled tu tg throttle_ms user.id now s ≡ false
      → groups_of answer ≡ some groups
      → outcome.1 ≡ (user.directory_managed && not (any (matches to_lower groups) ms))
  unfolding sync_user_at_login apply_decision
  sync_refuses_iff groups c n a =
      let d = compute_reconcile to_lower groups ms user.directory_managed in
      let why = compute_reconcile-deprovision to_lower groups ms user.directory_managed in
      rw (c, n, a, sync_user_at_login)
        (elim (Bool-cases d.deprovision) [
          | inl e ↦ rw (e, apply_decision) (sym e ∙ why)
          | inr e ↦ elim (Bool-cases (gives_nothing tu tg d)) [
            | inl e' ↦ rw (e, e', apply_decision) (sym e ∙ why)
            | inr e' ↦ rw (e, e', apply_decision) (sym e ∙ why)
          ]
        ])

  apply-refused :
      (d : ReconcileDecision)
      → (apply_decision tu tg new_id user d now s).1 ≡ true
      → tally tg
          (λ g. text_eq g.user_id user.id && is_active g.status)
          (apply_decision tu tg new_id user d now s).0.grants
        ≡ 0
  unfolding apply_decision deprovision_user
  apply-refused d h = elim (Bool-cases d.deprovision) [
    | inl e ↦ rw (e, apply_decision) (deprovision_grants_lem tg user.id s.grants (λ g. true)).0
    | inr e ↦ elim (Bool-cases (gives_nothing tu tg d)) [
      | inl e' ↦ let no = rw (e, e', apply_decision) at h in absurd cc
      | inr e' ↦ let no = rw (e, e', apply_decision) at h in absurd cc
    ]
  ]

  -- A refused sign-in leaves no grant of the user in force.
  pub sync_refused-NoGrant :
      outcome.1 ≡ true
      → tally tg (λ g. text_eq g.user_id user.id && is_active g.status) outcome.0.grants ≡ 0
  unfolding sync_user_at_login
  sync_refused-NoGrant h = elim (Bool-cases (not (is_connected cfg))) [
    | inl e ↦ let no = rw (e, sync_user_at_login) at h in absurd cc
    | inr e ↦ elim (Bool-cases (is_throttled tu tg throttle_ms user.id now s)) [
      | inl e' ↦ let no = rw (e, e', sync_user_at_login) at h in absurd cc
      | inr e' ↦ elim (Option-cases (groups_of answer)) [
        | inl f ↦ let no = rw (e, e', f, sync_user_at_login) at h in absurd cc
        | inr (groups, f) ↦
            rw (e, e', f, sync_user_at_login)
              (apply-refused (compute_reconcile to_lower groups ms user.directory_managed)
                (rw (e, e', f, sync_user_at_login) at h))
      ]
    ]
  ]
