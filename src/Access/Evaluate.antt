-- ===== src/Access/Evaluate.antt =====
-- lib/access/evaluate.ts: may this user reach this site now?
pub mod Classify
pub mod Verdict
use captivo_access.Prelude.{
  ℕ, Bool, true, false, not, ◌&&◌, ◌||◌, List, [], ◌∷◌, Option, none, some, Text, text_eq, ltb,
  is_some, if◌then◌else◌,
}
use captivo_access.Json.{Json, is_nullish}
use captivo_access.Database.{Table, find_first}
use captivo_access.Access.Schedule.{Intl, parse_schedule, is_within_schedule}

pub data GrantStatus : Type 0 where
  active revoked denied : GrantStatus

-- An `AccessGrant` row; dates are milliseconds of the epoch.
pub record Grant : Type 0 where
  pub id : Text
  pub user_id : Text
  pub site_id : Text
  pub status : GrantStatus
  pub starts_at : Option ℕ
  pub ends_at : Option ℕ
  pub requires_approval : Bool
  pub approved_at : Option ℕ
  pub approved_by_id : Option Text
  pub deny_reason : Option Text
  pub schedule : Json
  pub note : Option Text
  pub created_by_id : Option Text
  pub directory_managed : Bool

pub data DecisionReason : Type 0 where
  allow user_disabled no_grant revoked denied not_yet off_schedule expired pending_approval :
      DecisionReason

pub record Decision : Type 0 where
  pub allow : Bool
  pub reason : DecisionReason

pub data UserStatus : Type 0 where
  active disabled : UserStatus

pub record User : Type 0 where
  pub id : Text
  pub status : UserStatus

-- `DENY_PRIORITY`; the reasons that are never looked up have 0.
abbrev pub deny_priority : DecisionReason → ℕ
deny_priority pending_approval = 5
deny_priority not_yet = 4
deny_priority off_schedule = 3
deny_priority expired = 2
deny_priority DecisionReason.revoked = 1
deny_priority DecisionReason.denied = 1
deny_priority _ = 0

-- `d && now < d`, `d && now > d`.
abbrev pub before_start : Option ℕ → ℕ → Bool
before_start none now = false
before_start (some d) now = ltb now d

abbrev pub after_end : Option ℕ → ℕ → Bool
after_end none now = false
after_end (some d) now = ltb d now

abbrev pub is_active_user : UserStatus → Bool
is_active_user active = true
is_active_user disabled = false

-- `best === null || DENY_PRIORITY[d] > DENY_PRIORITY[best]`.
abbrev pub better : Option DecisionReason → DecisionReason → Option DecisionReason
better none d = some d
better (some b) d = if ltb (deny_priority b) (deny_priority d) then some d else some b

-- `return { allow: false, reason: best! }` after the loop.
abbrev pub conclude : Option DecisionReason → Decision
conclude none = record { allow = false; reason = no_grant }
conclude (some d) = record { allow = false; reason = d }

-- One round of the loop, given the rest of it as a function of `best`.
abbrev pub weigh :
    DecisionReason → Option DecisionReason → (Option DecisionReason → Decision) → Decision
weigh allow best rest = record { allow = true; reason = allow }
weigh d best rest = rest (better best d)

module _ (intl : Intl) where
  -- The test on a schedule that is present; one that does not parse denies.
  unfoldable pub on_schedule : Json → ℕ → Bool
  on_schedule v now = elim (parse_schedule intl v) [
    | none ↦ false
    | some s ↦ is_within_schedule intl s now
  ]

  unfoldable pub classify_active : Grant → ℕ → DecisionReason
  classify_active g now =
      if before_start g.starts_at now
      then not_yet
      else if after_end g.ends_at now
      then expired
      else if g.requires_approval && not (is_some g.approved_at)
      then pending_approval
      else if not (is_nullish g.schedule) && not (on_schedule g.schedule now)
      then off_schedule
      else allow

  unfoldable pub classify_by_status : GrantStatus → Grant → ℕ → DecisionReason
  classify_by_status revoked g now = revoked
  classify_by_status denied g now = denied
  classify_by_status active g now = classify_active g now

  unfoldable pub classify_grant : Grant → ℕ → DecisionReason
  classify_grant g now = classify_by_status g.status g now

  -- The loop over the grants.
  unfoldable pub decide_loop : List Grant → ℕ → Option DecisionReason → Decision
  decide_loop [] now best = conclude best
  decide_loop (g ∷ gs) now best = weigh (classify_grant g now) best (decide_loop gs now)

  unfoldable pub decide_grants : List Grant → ℕ → Decision
  decide_grants [] now = record { allow = false; reason = no_grant }
  decide_grants (g ∷ gs) now = decide_loop (g ∷ gs) now none

  module _ (users : Table User) (grants : Table Grant) where
    unfoldable pub evaluate_access : Text → Text → ℕ → users.Store → grants.Store → Decision
    evaluate_access user_id site_id now us gs =
        elim (find_first users (λ u. text_eq u.id user_id) us) [
          | none ↦ record { allow = false; reason = user_disabled }
          | some u ↦
              if is_active_user u.status
              then decide_grants
                  (grants.find_many (λ g. text_eq g.user_id user_id && text_eq g.site_id site_id)
                    gs)
                  now
              else record { allow = false; reason = user_disabled }
        ]
