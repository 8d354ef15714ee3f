-- ===== src/Auth/Session/Validity.antt =====
-- About lib/auth/session.ts: which tokens are accepted, and what ends a session.
use captivo_access.Prelude.{
  ℕ, zero, suc, ◌+◌, ◌*◌, ◌≤◌, ◌≡◌, ◌↔◌, refl, Bool, true, false, not, ◌&&◌, List, [], ◌∷◌, Option,
  none, some, Text, arith, text_eq, text_eq_iff, ltb, subst, is_empty, Bool-cases, Option-cases,
  inl, inr, sym, ◌∙◌, length,
}
use captivo_access.Database.{Table, every, tally, find_first}
use captivo_access.Database.Queries.{count-congr, count_none, found_row}
use captivo_access.Auth.SessionPolicy.{SessionPolicy, idle_expired}
use captivo_access.Access.Evaluate.{is_active_user}
use captivo_access.Auth.Session.{
  Session, Account, one_of, get_session_user, destroy_session, session_ids_to_revoke,
  revoke_sessions,
}

-- The session was used within the idle limit, where a limit applies.
abbrev pub WithinIdle : Option ℕ → ℕ → ℕ → Type 0
WithinIdle none last_seen now = Unit
WithinIdle (some zero) last_seen now = Unit
WithinIdle (some (suc minutes)) last_seen now = now ≤ suc minutes * 60000 + last_seen

idle_expired-WithinIdle :
    (limit : Option ℕ) (last_seen now : ℕ)
    → idle_expired last_seen now limit ≡ false ↔ WithinIdle limit last_seen now
unfolding idle_expired
idle_expired-WithinIdle none last_seen now = (λ h. tt, λ h. refl)
idle_expired-WithinIdle (some zero) last_seen now = (λ h. tt, λ h. refl)
idle_expired-WithinIdle (some (suc m)) last_seen now = (λ h. ground arith, λ h. ground arith)

module _ (sha : Text → Text) (t : Table Session) (users : Text → Account) (policy : SessionPolicy)
    (token : Text) (now : ℕ) (s : t.Store) where
  -- What a session must meet for its token to be accepted.
  abbrev pub InForce : Session → Type 0
  InForce r =
      (now ≤ r.expires_at)
      × (r.mobile ≡ false)
      × (is_active_user (users r.user_id).status ≡ true)
      × WithinIdle policy.idle_timeout_minutes r.last_seen_at now

  -- A token that is not empty, with the session that the database finds for its digest: the call
  -- returns the user of the session exactly where the session has not expired, is not an app
  -- sign-in, belongs to an active user and was used within the idle limit.
  pub get_session_user_iff :
      (r : Session)
      → is_empty token ≡ false
      → find_first t (λ x. text_eq x.token_hash (sha token)) s ≡ some r
      → (get_session_user sha t users policy token now s).1 ≡ some (users r.user_id) ↔ InForce r
  unfolding get_session_user
  get_session_user_iff r e found =
      let idle = idle_expired-WithinIdle policy.idle_timeout_minutes r.last_seen_at now in
      rw (e, found, get_session_user) (λ h. ground (arith, idle.0), λ h. ground (arith, idle.1))

-- Once a session is destroyed its token is refused, at any later time, under any policy and
-- whatever the users are.
pub destroy_session_ends :
    (sha : Text → Text) (t : Table Session) (users : Text → Account) (policy : SessionPolicy)
    (token : Text) (now : ℕ) (s : t.Store)
    → (get_session_user sha t users policy token now (destroy_session sha t token s)).1 ≡ none
unfolding get_session_user destroy_session
destroy_session_ends sha t users policy token now s =
    let p = λ (r : Session). text_eq r.token_hash (sha token) in
    let s' = (t.delete_many p s).0 in
    let gone : tally t (λ r. p r && every r) s' ≡ 0 =
      t.count-delete p (λ r. p r && every r) s
      ∙ count_none (λ r. not (p r) && (p r && every r)) (t.find_many every s) (λ r. ground arith) in
    elim (Bool-cases (is_empty token)) [
      | inl e ↦ rw (e, get_session_user) refl
      | inr e ↦ elim (Option-cases (find_first t p s')) [
        | inl none_left ↦ rw (e, none_left, get_session_user) refl
        | inr (r, found) ↦ absurd (omega (arith, gone, found_row t p every s' r found refl))
      ]
    ]

-- Destroying the session of one token leaves every session of another digest.
pub destroy_session_keeps :
    (sha : Text → Text) (t : Table Session) (token : Text) (s : t.Store) (q : Session → Bool)
    → tally t (λ r. not (text_eq r.token_hash (sha token)) && q r) (destroy_session sha t token s)
      ≡ tally t (λ r. not (text_eq r.token_hash (sha token)) && q r) s
unfolding destroy_session
destroy_session_keeps sha t token s q =
    let p = λ (r : Session). text_eq r.token_hash (sha token) in
    t.count-delete p (λ r. not (p r) && q r) s
    ∙ count-congr (λ r. not (p r) && (not (p r) && q r)) (λ r. not (p r) && q r)
        (t.find_many every s) (λ r. ground arith)

not_selected :
    (ids : List Text) (current : Text)
    → one_of (session_ids_to_revoke ids (some current)) current ≡ false
unfolding session_ids_to_revoke
not_selected [] current = refl
not_selected (x ∷ ids) current = elim (Bool-cases (not (is_empty x) && not (text_eq x current))) [
  | inl e ↦ rw e (ground (arith, not_selected ids current))
  | inr e ↦ rw e (not_selected ids current)
]

own_row_kept :
    (del : List Text) (current id : Text)
    → one_of del current ≡ false
    → (not (one_of del id) && text_eq id current) ≡ text_eq id current
own_row_kept del current id h = elim (Bool-cases (text_eq id current)) [
  | inl e ↦
      let same = (text_eq_iff id current).0 e in
      rw e (rw (subst (λ x. one_of del x ≡ false) (sym same) h) refl)
  | inr e ↦ rw e (ground arith)
]

-- A bulk revocation never ends the caller's own session: the rows with its identifier are as many
-- as before, whatever identifiers the request lists.
pub revoke_sessions_keeps_own :
    (t : Table Session) (ids : List Text) (current : Text) (s : t.Store)
    → tally t (λ r. text_eq r.id current) (revoke_sessions t ids (some current) s).0
      ≡ tally t (λ r. text_eq r.id current) s
unfolding revoke_sessions
revoke_sessions_keeps_own t ids current s =
    let del = session_ids_to_revoke ids (some current) in
    let own = λ (r : Session). text_eq r.id current in
    elim (Bool-cases (ltb 0 (length del))) [
      | inl e ↦
          rw (e, revoke_sessions)
            (t.count-delete (λ r. one_of del r.id) own s
              ∙ count-congr (λ r. not (one_of del r.id) && own r) own (t.find_many every s)
                  (λ r. own_row_kept del current r.id (not_selected ids current)))
      | inr e ↦ rw (e, revoke_sessions) refl
    ]
