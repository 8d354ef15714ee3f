-- ===== src/Tests/Auth.antt =====
-- Sign-ins, sessions and roles at concrete inputs.
use captivo_access.Prelude.{
  Any, ◌≤◌, ◌≡◌, ◌↔◌, ◌⊎◌, refl, true, false, [], ◌∷◌, none, some, Text, lit, text_eq, arith,
  length, All,
}
use captivo_access.Json.{null, str, arr, cons, nil, is_nullish}
use captivo_access.Database.{Table, tally, find_first}
use captivo_access.Database.ListTable.{list_table}
use captivo_access.Access.Evaluate.{UserStatus}
use captivo_access.Auth.Handoff.{sign_handoff, read_handoff}
use captivo_access.Auth.Handoff.RoundTrip.{read_handoff-sign_handoff}
use captivo_access.Auth.SessionPolicy.{
  SessionPolicy, empty_policy, failed, found, save_session_policy, get_session_policy,
  saved_policy_in_force,
}
use captivo_access.Auth.Session.{
  Session, Account, Meta, is_counted, create_session, get_session_user, destroy_session,
  revoke_sessions,
}
use captivo_access.Auth.Session.Cap.{create_session_bounds}
use captivo_access.Auth.Session.Validity.{
  InForce, get_session_user_iff, destroy_session_ends, revoke_sessions_keeps_own,
}
use captivo_access.Auth.Mobile.{code_row, is_code, redeem_mobile_code}
use captivo_access.Auth.Mobile.Once.{redeem_mobile_code_once}
use captivo_access.Auth.Roles.{Role}
use captivo_access.Auth.CenterRole.{
  ConsoleUser, unchanged, revoked, reconcile_center_role, apply_reconciled, center_role_of,
  console_role_allowed, center_text, is_platform,
}
use captivo_access.Auth.CenterRole.Follows.{
  IsManaged, reconcile_center_role_settles, reconcile_center_role_absent,
}
use captivo_access.Auth.Amr.{
  second_factor_gate, allow, step_up, refuse, second_factor_gate_iff, read_amr, IsFactor, IsClean,
  read_amr_bounds,
}

abbrev sessions : Table Session
sessions = list_table Session

abbrev digest : Text → Text
digest token = token

abbrev one_session : SessionPolicy
one_session = record {
  idle_timeout_minutes = some 15;
  max_session_hours = some 8;
  max_concurrent_per_user = some 1;
  require_second_factor = true;
}

abbrev no_meta : Meta
no_meta = record { user_agent = none; ip = none; amr = [] }

abbrev old_session : Session
old_session = record {
  id = lit "s1";
  user_id = lit "alice";
  token_hash = lit "token1";
  expires_at = 100000;
  created_at = 1000;
  last_seen_at = 1000;
  user_agent = none;
  ip = none;
  amr = [];
  mobile = false;
  mobile_challenge = none;
}

abbrev accounts : Text → Account
accounts id = record { id = id; status = UserStatus.active }

one_allowed : one_session.max_concurrent_per_user ≡ some 1
one_allowed = refl

create_session_example :
    tally sessions (is_counted (lit "alice") 2000) (
      create_session digest sessions one_session 12
        (lit "s2")
        (lit "token2")
        (lit "alice")
        no_meta
        2000
        (old_session ∷ []))
    ≤ 1
create_session_example =
    create_session_bounds digest sessions one_session 12 (lit "s2") (lit "token2") (lit "alice")
      no_meta 2000 (old_session ∷ []) 1 one_allowed (omega arith)

old_found :
    find_first sessions (λ x. text_eq x.token_hash (digest (lit "token1"))) (old_session ∷ [])
    ≡ some old_session
unfolding text_eq
old_found = refl

get_session_user_example :
    ((get_session_user digest sessions accounts one_session
        (lit "token1")
        2000
        (old_session ∷ [])).1
      ≡ some (accounts (lit "alice")))
    ↔ InForce digest sessions accounts one_session
        (lit "token1")
        2000
        (old_session ∷ [])
        old_session
get_session_user_example =
    get_session_user_iff digest sessions accounts one_session (lit "token1") 2000 (old_session ∷ [])
      old_session refl old_found

destroy_session_example :
    (get_session_user digest sessions accounts one_session
      (lit "token1")
      2000
      (destroy_session digest sessions (lit "token1") (old_session ∷ []))).1
    ≡ none
destroy_session_example =
    destroy_session_ends digest sessions accounts one_session (lit "token1") 2000 (old_session ∷ [])

revoke_sessions_example :
    tally sessions
      (λ r. text_eq r.id (lit "s1"))
      (revoke_sessions sessions (lit "s1" ∷ lit "s2" ∷ []) (some (lit "s1")) (old_session ∷ [])).0
    ≡ tally sessions (λ r. text_eq r.id (lit "s1")) (old_session ∷ [])
revoke_sessions_example =
    revoke_sessions_keeps_own sessions (lit "s1" ∷ lit "s2" ∷ []) (lit "s1") (old_session ∷ [])

saved_policy_example :
    let saved = save_session_policy one_session (none, some (empty_policy, 900)) in
    let after = get_session_policy (found saved.0) 1000 saved.1 in
    (after.0 ≡ one_session) × ((get_session_policy failed 2000 after.1).0 ≡ one_session)
saved_policy_example =
    saved_policy_in_force one_session none (some (empty_policy, 900)) 1000 2000 failed (omega arith)

abbrev bob : ConsoleUser
bob = record { role = Role.admin; center_role = some (lit "OWNER"); status = UserStatus.active }

member_grant : is_nullish (str (lit "MEMBER")) ≡ false
member_grant = refl

reconcile_settles_example :
    let u = apply_reconciled bob (reconcile_center_role bob (str (lit "MEMBER"))) in
    (console_role_allowed (center_role_of (str (lit "MEMBER"))) u.role ≡ true)
    × (u.center_role ≡ some (center_text (center_role_of (str (lit "MEMBER")))))
    × (u.status ≡ UserStatus.active)
    × (reconcile_center_role u (str (lit "MEMBER")) ≡ unchanged)
reconcile_settles_example = reconcile_center_role_settles bob (str (lit "MEMBER")) refl member_grant

reconcile_absent_example :
    ((reconcile_center_role bob null ≡ revoked)
      × (is_platform bob.role ≡ false)
      × IsManaged bob.center_role)
    ⊎ ((reconcile_center_role bob null ≡ unchanged)
        × ((is_platform bob.role ≡ true) ⊎ (IsManaged bob.center_role → ⊥)))
reconcile_absent_example = reconcile_center_role_absent bob null refl

second_factor_gate_example :
    let amr = lit "pwd" ∷ lit "otp" ∷ [] in
    ((second_factor_gate true amr false ≡ allow) ↔ ((true ≡ false) ⊎ Any IsFactor amr))
    × ((second_factor_gate true amr false ≡ step_up)
        ↔ ((true ≡ true) × (¬ Any IsFactor amr) × (false ≡ false)))
    × ((second_factor_gate true amr false ≡ refuse)
        ↔ ((true ≡ true) × (¬ Any IsFactor amr) × (false ≡ true)))
second_factor_gate_example = second_factor_gate_iff true (lit "pwd" ∷ lit "otp" ∷ []) false

read_amr_example :
    let claim = arr (cons (str (lit " PWD ")) (cons (str (lit "mfa")) nil)) in
    All IsClean (read_amr digest claim) × (length (read_amr digest claim) ≤ 16)
read_amr_example =
    read_amr_bounds digest (arr (cons (str (lit " PWD ")) (cons (str (lit "mfa")) nil)))

abbrev verifier : Text
verifier = lit "0123456789012345678901234567890123456789abc"

abbrev code_session : Session
code_session = code_row (lit "s9") (lit "code") (lit "alice") verifier no_meta 1000

one_code : tally sessions (is_code (digest (lit "code"))) (code_session ∷ []) ≤ 1
unfolding code_row text_eq
one_code = omega arith

code_redeemed :
    (redeem_mobile_code digest digest sessions
      (str (lit "code"))
      (str verifier)
      (lit "token9")
      none
      2000
      (code_session ∷ [])).1
    ≡ some (lit "token9", lit "alice")
unfolding redeem_mobile_code code_row text_eq captivo_access.Auth.Mobile.pkce_matches
    captivo_access.Auth.Mobile.swap_code
code_redeemed = refl

redeem_mobile_code_example :
    let s =
      (redeem_mobile_code digest digest sessions
        (str (lit "code"))
        (str verifier)
        (lit "token9")
        none
        2000
        (code_session ∷ [])).0 in
    (redeem_mobile_code digest digest sessions
      (str (lit "code"))
      (str verifier)
      (lit "token8")
      none
      2001
      s).1
    ≡ none
redeem_mobile_code_example =
    redeem_mobile_code_once digest digest sessions (lit "code") (code_session ∷ []) (str verifier)
      (str verifier) (lit "token9") (lit "token8") none none 2000 2001 (lit "token9", lit "alice")
      one_code code_redeemed

abbrev challenge : Text
challenge = lit "E9Melhoa2OwvFrEMTJguCHaoeK1t8URWbuGJSstw-cM"

-- A digest that has no full stop.
abbrev no_digest : Text → Text
no_digest s = []

read_handoff-sign_handoff_example :
    read_handoff no_digest (some (sign_handoff no_digest challenge 1785153600123)) 1785153700000
    ≡ some challenge
unfolding captivo_access.Auth.Handoff.is_challenge
read_handoff-sign_handoff_example =
    read_handoff-sign_handoff no_digest challenge 1785153600123 1785153700000 refl tt

read_handoff_expires :
    read_handoff no_digest (some (sign_handoff no_digest challenge 1785153600123)) 1785154300000
    ≡ none
unfolding captivo_access.Auth.Handoff.is_challenge
read_handoff_expires =
    read_handoff-sign_handoff no_digest challenge 1785153600123 1785154300000 refl tt
