-- ===== src/Auth/Session.antt =====
-- lib/auth/session.ts and session-select.ts: console sessions as rows of a table. The tokens, the
-- identifiers of new rows, the digest and the clock are arguments; `users` is the relation that
-- `include: { user: true }` follows, and `policy` what `getSessionPolicy` returned.
pub mod Cap
pub mod Validity
use captivo_access.Prelude.{
  ℕ, zero, suc, ◌+◌, ◌≤◌, Bool, true, false, not, ◌&&◌, List, [], ◌∷◌, Option, none, some, map,
  Text, text_eq, ltb, leb, any, is_empty, length, select, if◌then◌else◌, is_some,
}
use captivo_access.Database.{Table, find_first}
use captivo_access.Access.Evaluate.{UserStatus, is_active_user}
use captivo_access.Auth.SessionPolicy.{
  SessionPolicy, positive, session_ttl_ms, idle_expired, eviction_ids,
}

pub record Session : Type 0 where
  pub id : Text
  pub user_id : Text
  pub token_hash : Text
  pub expires_at : ℕ
  pub created_at : ℕ
  pub last_seen_at : ℕ
  pub user_agent : Option Text
  pub ip : Option Text
  pub amr : List Text
  pub mobile : Bool
  pub mobile_challenge : Option Text

pub record Account : Type 0 where
  pub id : Text
  pub status : UserStatus

pub record Meta : Type 0 where
  pub user_agent : Option Text
  pub ip : Option Text
  pub amr : List Text

-- `orderBy: { createdAt: "asc" }`.
abbrev pub insert_oldest : Session → List Session → List Session
insert_oldest r [] = r ∷ []
insert_oldest r (x ∷ xs) =
    let rest = insert_oldest r xs in if leb r.created_at x.created_at then r ∷ x ∷ xs else x ∷ rest

abbrev pub oldest_first : List Session → List Session
oldest_first [] = []
oldest_first (x ∷ xs) = insert_oldest x (oldest_first xs)

abbrev pub ids_of : List Session → List Text
ids_of rows = map (λ r. r.id) rows

abbrev pub one_of : List Text → Text → Bool
one_of ids id = any (λ i. text_eq i id) ids

-- A live browser session of the user: the ones that count against the cap.
abbrev pub is_counted : Text → ℕ → Session → Bool
is_counted user_id now r = text_eq r.user_id user_id && (ltb now r.expires_at && not r.mobile)

unfoldable pub opened : Text → Text → Text → Meta → ℕ → ℕ → Session
opened id token_hash user_id info ttl now = record {
  id = id;
  user_id = user_id;
  token_hash = token_hash;
  expires_at = now + ttl;
  created_at = now;
  last_seen_at = now;
  user_agent = info.user_agent;
  ip = info.ip;
  amr = info.amr;
  mobile = false;
  mobile_challenge = none;
}

module _ (t : Table Session) where
  -- The step of `createSession` that makes room, under a positive cap and under a policy.
  unfoldable pub make_room : ℕ → Text → ℕ → t.Store → t.Store
  make_room limit user_id now s =
      let active = oldest_first (t.find_many (is_counted user_id now) s) in
      let evict = eviction_ids (ids_of active) (some limit) in
      if ltb 0 (length evict) then (t.delete_many (λ r. one_of evict r.id) s).0 else s

  unfoldable pub evict_for : SessionPolicy → Text → ℕ → t.Store → t.Store
  evict_for policy user_id now s = elim (positive policy.max_concurrent_per_user) [
    | none ↦ s
    | some limit ↦ make_room limit user_id now s
  ]

module _ (sha : Text → Text) (t : Table Session) where
  unfoldable pub create_session :
      SessionPolicy → ℕ → Text → Text → Text → Meta → ℕ → t.Store → t.Store
  create_session policy env_hours id token user_id info now s =
      t.create
        (opened id (sha token) user_id info (session_ttl_ms policy.max_session_hours env_hours) now)
        (evict_for t policy user_id now s)

  -- The user, if the token is one of a session in force, and the table after the call.
  unfoldable pub get_session_user :
      (Text → Account) → SessionPolicy → Text → ℕ → t.Store → t.Store × Option Account
  get_session_user users policy token now s =
      if is_empty token
      then (s, none)
      else elim (find_first t (λ r. text_eq r.token_hash (sha token)) s) [
        | none ↦ (s, none)
        | some r ↦
            if ltb r.expires_at now
            then (s, none)
            else if r.mobile
            then (s, none)
            else if not (is_active_user (users r.user_id).status)
            then (s, none)
            else if idle_expired r.last_seen_at now policy.idle_timeout_minutes
            then ((t.delete_many (λ x. text_eq x.id r.id) s).0, none)
            else (
              (t.update_many (λ x. text_eq x.id r.id) (λ x. record x { last_seen_at = now }) s).0,
              some (users r.user_id),
            )
      ]

  unfoldable pub destroy_session : Text → t.Store → t.Store
  destroy_session token s = (t.delete_many (λ r. text_eq r.token_hash (sha token)) s).0

  unfoldable pub revoke_session : Text → t.Store → t.Store
  revoke_session id s = (t.delete_many (λ r. text_eq r.id id) s).0

  unfoldable pub current_session_id : Option Text → t.Store → Option Text
  current_session_id none s = none
  current_session_id (some token) s =
      if is_empty token
      then none
      else elim (find_first t (λ r. text_eq r.token_hash (sha token)) s) [
        | none ↦ none
        | some r ↦ some r.id
      ]

-- `sessionIdsToRevoke`, and the bulk revocation of app/api/admin/sessions/revoke/route.ts.
abbrev pub is_current : Option Text → Text → Bool
is_current none id = false
is_current (some current) id = text_eq id current

unfoldable pub session_ids_to_revoke : List Text → Option Text → List Text
session_ids_to_revoke requested current_id =
    select (λ id. not (is_empty id) && not (is_current current_id id)) requested

unfoldable pub revoke_sessions :
    (t : Table Session) → List Text → Option Text → t.Store → t.Store × ℕ
revoke_sessions t ids current_id s =
    let to_revoke = session_ids_to_revoke ids current_id in
    if ltb 0 (length to_revoke) then t.delete_many (λ r. one_of to_revoke r.id) s else (s, 0)
