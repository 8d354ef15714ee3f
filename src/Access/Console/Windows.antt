-- ===== src/Access/Console/Windows.antt =====
-- About the handlers of app/api/admin/grants and app/api/access/requests: the windows of the
-- grants that they write.
use captivo_access.Prelude.{
  ℕ, ◌+◌, ◌*◌, ◌≡◌, refl, inl, inr, Bool, false, ◌&&◌, none, some, Option, Text, arith, ltb, get_or,
  Option-cases,
}
use captivo_access.Prelude.Outcomes.{
  Outcome, returns, replies, Yields, Yields-bind, report_error-eq-returns,
}
use captivo_access.Json.{Fields}
use captivo_access.Database.{Table, tally, find_first}
use captivo_access.Access.Schedule.{Intl}
use captivo_access.Access.Evaluate.{Grant}
use captivo_access.Access.Grants.{
  GrantInput, RequestInput, granted, requested, create_grant, create_access_request, is_pending_of,
  grant_cap_error,
}
use captivo_access.Access.Grants.Bounds.{WithinCap, grant_cap_error_iff}
use captivo_access.Access.Routes.Replies.{Caller, Failure, Reply, Call, Console, carry_out}
use captivo_access.Access.Routes.Checks.{check_new_grant}
use captivo_access.Access.Routes.Grants.{create_and_log, post_grant}
use captivo_access.Access.Routes.Requests.{check_request, ask, post_request}
use captivo_access.Audit.Admin.{AdminWriter}

-- Under a cap (0 is none), the window of a grant has no end, or an end that lies more than the days
-- of the cap after its start (after now, where it starts at once).
abbrev pub exceeds : Option ℕ → Option ℕ → ℕ → ℕ → Bool
exceeds starts_at none now max_days = ltb 0 max_days
exceeds starts_at (some e) now max_days =
    ltb 0 max_days && ltb (get_or starts_at now + max_days * 86400000) e

abbrev pub is_beyond : Call → Grant → Bool
is_beyond call g = exceeds g.starts_at g.ends_at call.now call.max_grant_days

within_cap :
    (starts_at ends_at : Option ℕ) (now max_days : ℕ)
    → WithinCap starts_at ends_at now max_days
    → exceeds starts_at ends_at now max_days ≡ false
within_cap starts_at none now max_days h = ground (arith, h)
within_cap none (some e) now max_days h = ground (arith, h)
within_cap (some a) (some e) now max_days h = ground (arith, h)

-- What `grantCapError` reports nothing of.
unreported :
    (starts_at ends_at : Option ℕ) (now max_days : ℕ)
    → grant_cap_error starts_at ends_at now max_days ≡ none
    → exceeds starts_at ends_at now max_days ≡ false
unreported starts_at ends_at now max_days e =
    within_cap starts_at ends_at now max_days
      ((grant_cap_error_iff starts_at ends_at now max_days).0 e)

-- The window that the checks let through.
abbrev IsWithin : Call → Option ℕ → Option ℕ → Type 0
IsWithin call starts_at ends_at = exceeds starts_at ends_at call.now call.max_grant_days ≡ false

module _ (date : Text → Option ℕ) (intl : Intl) where
  check_new_grant-IsWithin :
      (caller : Option Caller) (body : Fields) (call : Call)
      → Yields
          (λ x. IsWithin call x.1.starts_at x.1.ends_at)
          (check_new_grant date intl caller body call)
  unfolding Yields check_new_grant
  check_new_grant-IsWithin caller body call =
      let P = λ (x : Caller × GrantInput). IsWithin call x.1.starts_at x.1.ends_at in
      Yields-bind P _ _ λ user _. Yields-bind P _ _ λ _ _. Yields-bind P _ _ λ _ _.
        Yields-bind P _ _ λ starts_at _. Yields-bind P _ _ λ ends_at _.
          Yields-bind P _ _ λ _ within. Yields-bind P _ _ λ schedule _.
            Yields-bind P _ _ λ _ _.
              Yields-bind P _ _ λ _ _. unreported _ _ _ _ (report_error-eq-returns _ _ within)

  module _ (t : Table Grant) where
    check_request-IsWithin :
        (caller : Option Caller) (body : Fields) (call : Call) (s : t.Store)
        → Yields
            (λ x. IsWithin call x.starts_at x.ends_at)
            (check_request date intl t caller body call s)
    unfolding Yields check_request
    check_request-IsWithin caller body call s =
        let P = λ (x : RequestInput). IsWithin call x.starts_at x.ends_at in
        Yields-bind P _ _ λ user _. Yields-bind P _ _ λ _ _. Yields-bind P _ _ λ _ _.
          Yields-bind P _ _ λ starts_at _. Yields-bind P _ _ λ ends_at _. Yields-bind P _ _ λ _ _.
            Yields-bind P _ _ λ _ within. Yields-bind P _ _ λ schedule _. Yields-bind P _ _ λ _ _.
              Yields-bind P _ _ λ _ _. unreported _ _ _ _ (report_error-eq-returns _ _ within)

    carry_out-Yields :
        {A : Type 0} (P : A → Type 0) (Q : Console t → Type 0) (m : Outcome Failure A)
        (act : A → Console t × Reply) (s : Console t)
        → Yields P m
        → ((a : A) → P a → Q (act a).0)
        → Q s
        → Q (carry_out t m act s).0
    unfolding Yields
    carry_out-Yields P Q (returns a) act s y h q = h a y
    carry_out-Yields P Q (replies f) act s y h q = q

    -- As many grants beyond the cap as before.
    abbrev Same : Call → Console t → Console t → Type 0
    Same call s s' = tally t (is_beyond call) s'.grants ≡ tally t (is_beyond call) s.grants

    create_grant-Same :
        (call : Call) (id : Text) (input : GrantInput) (s : t.Store)
        → IsWithin call input.starts_at input.ends_at
        → tally t (is_beyond call) (create_grant t id input s) ≡ tally t (is_beyond call) s
    unfolding create_grant granted
    create_grant-Same call id input s within =
        let grew = t.count-create (granted id input) (is_beyond call) s in
        let same = rw within at grew in omega (arith, same)

    create_access_request-Same :
        (call : Call) (id : Text) (input : RequestInput) (s : t.Store)
        → IsWithin call input.starts_at input.ends_at
        → tally t (is_beyond call) (create_access_request t id input s).0
          ≡ tally t (is_beyond call) s
    unfolding create_access_request requested
    create_access_request-Same call id input s within =
        elim (Option-cases (find_first t (is_pending_of input.user_id input.site_id) s)) [
          | inl none_yet ↦
              let grew = t.count-create (requested id input) (is_beyond call) s in
              let same = rw within at grew in
              rw (none_yet, create_access_request) (omega (arith, same))
          | inr (g, found) ↦ rw (found, create_access_request)
        ]

-- Whatever a caller sends, neither a grant that an administrator creates nor a request has a window
-- beyond the cap on the length of grants: as many grants as before exceed it, or lack the end that
-- it asks for.
pub windows_within_cap :
    (writer : AdminWriter) (t : Table Grant) (date : Text → Option ℕ) (intl : Intl)
    (caller : Option Caller) (body : Fields) (call : Call) (s : Console t)
    → (tally t (is_beyond call) (post_grant writer t date intl caller body call s).0.grants
        ≡ tally t (is_beyond call) s.grants)
      × (tally t (is_beyond call) (post_request date intl t caller body call s).0.grants
          ≡ tally t (is_beyond call) s.grants)
unfolding post_grant post_request
windows_within_cap writer t date intl caller body call s = (
  carry_out-Yields date intl t (λ x. IsWithin call x.1.starts_at x.1.ends_at)
      (Same date intl t call s) _ (λ x. create_and_log writer t call x s) s
      (check_new_grant-IsWithin date intl caller body call)
      (λ (admin, input) w. create_grant-Same date intl t call call.new_id input s.grants w) refl,
  carry_out-Yields date intl t (λ x. IsWithin call x.starts_at x.ends_at) (Same date intl t call s)
      _ (λ x. ask date intl t call x s) s
      (check_request-IsWithin date intl t caller body call s.grants)
      (λ input w. create_access_request-Same date intl t call call.new_id input s.grants w) refl,
)
