-- ===== src/Auth/Mobile.antt =====
-- lib/mobile/session.ts with pkceMatches of lib/mobile/handoff.ts: app sign-ins, which are session
-- rows with `mobile` set. `sha` is the digest of tokens and `sha_url` the base64url digest of
-- PKCE; tokens, identifiers and the clock are arguments, and the bearer token of a request is given.
pub mod Once
use captivo_access.Prelude.{
  ℕ, ◌+◌, ◌*◌, Bool, true, false, not, ◌&&◌, ◌||◌, List, [], ◌∷◌, Option, none, some, Text, text_eq,
  ltb, leb, length, is_empty, all, take, is_digit, is_some, ◌==◌, if◌then◌else◌,
}
use captivo_access.Json.{Json, str}
use captivo_access.Database.{Table, find_first}
use captivo_access.Access.Evaluate.{is_active_user}
use captivo_access.Auth.Session.{Session, Account, Meta}

-- `/^[A-Za-z0-9._~-]{43,128}$/`.
abbrev pub is_verifier_unit : ℕ → Bool
is_verifier_unit c =
    (leb b'A' c && leb c b'Z')
    || (leb b'a' c && leb c b'z')
    || is_digit c
    || c == b'.'
    || c == b'_'
    || c == b'~'
    || c == b'-'

abbrev pub is_verifier : Text → Bool
is_verifier v = leb 43 (length v) && (leb (length v) 128 && all is_verifier_unit v)

unfoldable pub pkce_matches : (Text → Text) → Json → Text → Bool
pkce_matches sha_url (str v) challenge = is_verifier v && text_eq (sha_url v) challenge
pkce_matches sha_url _ challenge = false

-- A code row: an app row whose challenge is set.
abbrev pub is_code : Text → Session → Bool
is_code hash r = text_eq r.token_hash hash && (r.mobile && is_some r.mobile_challenge)

abbrev pub is_bearer : Text → Session → Bool
is_bearer hash r = text_eq r.token_hash hash && (r.mobile && not (is_some r.mobile_challenge))

unfoldable pub code_row : Text → Text → Text → Text → Meta → ℕ → Session
code_row id hash user_id challenge info now = record {
  id = id;
  user_id = user_id;
  token_hash = hash;
  expires_at = now + 120000;
  created_at = now;
  last_seen_at = now;
  user_agent = info.user_agent;
  ip = info.ip;
  amr = info.amr;
  mobile = true;
  mobile_challenge = some challenge;
}

-- `...(device ? { userAgent: device.slice(0, 200) } : {})`.
abbrev pub named_device : Option Text → Option Text → Option Text
named_device none old = old
named_device (some device) old = if is_empty device then old else some (take 200 device)

abbrev pub redeemed : Text → Option Text → ℕ → Session → Session
redeemed token_hash device now r = record r {
  token_hash = token_hash;
  mobile_challenge = none;
  expires_at = now + 2592000000;
  last_seen_at = now;
  user_agent = named_device device r.user_agent;
}

module _ (sha sha_url : Text → Text) (t : Table Session) where
  unfoldable pub issue_mobile_code : Text → Text → Text → Text → Meta → ℕ → t.Store → t.Store
  issue_mobile_code id code user_id challenge info now s =
      t.create (code_row id (sha code) user_id challenge info now) s

  -- The swap of the hash, once the row is found in time and the verifier matches.
  unfoldable pub swap_code :
      Text → Text → Option Text → ℕ → Session → t.Store → t.Store × Option (Text × Text)
  swap_code code token device now r s =
      let (s', n) =
        t.update_many (λ x. text_eq x.id r.id && text_eq x.token_hash (sha code))
          (redeemed (sha token) device now) s in
      (s', (if n == 1 then some (token, r.user_id) else none))

  abbrev pub redeem_row :
      Text
      → Json
      → Text
      → Option Text
      → ℕ
      → Session
      → Option Text
      → t.Store
      → t.Store × Option (Text × Text)
  redeem_row code verifier token device now r none s = (s, none)
  redeem_row code verifier token device now r (some challenge) s =
      if is_empty challenge
      then (s, none)
      else if ltb r.expires_at now || not (pkce_matches sha_url verifier challenge)
      then ((t.delete_many (λ x. text_eq x.id r.id) s).0, none)
      else swap_code code token device now r s

  -- The token and the user of a redeemed code; `token` is the one to hand out.
  unfoldable pub redeem_mobile_code :
      Json → Json → Text → Option Text → ℕ → t.Store → t.Store × Option (Text × Text)
  redeem_mobile_code (str code) verifier token device now s =
      if is_empty code then (s, none) else elim (find_first t (is_code (sha code)) s) [
        | none ↦ (s, none)
        | some r ↦ redeem_row code verifier token device now r r.mobile_challenge s
      ]
  redeem_mobile_code _ verifier token device now s = (s, none)

  unfoldable pub mobile_session :
      (Text → Account) → Option Text → ℕ → t.Store → t.Store × Option (Text × Account)
  mobile_session users none now s = (s, none)
  mobile_session users (some token) now s = elim (find_first t (is_bearer (sha token)) s) [
    | none ↦ (s, none)
    | some r ↦
        if ltb r.expires_at now || not (is_active_user (users r.user_id).status)
        then (s, none)
        else (
          (t.update_many (λ x. text_eq x.id r.id) (λ x. record x { last_seen_at = now }) s).0,
          some (r.id, users r.user_id),
        )
  ]

  unfoldable pub end_mobile_session : Text → t.Store → t.Store
  end_mobile_session id s = (t.delete_many (λ r. text_eq r.id id && r.mobile) s).0
