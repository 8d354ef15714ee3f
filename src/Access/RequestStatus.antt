-- ===== src/Access/RequestStatus.antt =====
-- lib/portal/request-status.ts: the state of an access request as the portal shows it.
use captivo_access.Prelude.{ℕ, ◌≡◌, ◌↔◌, true, arith, Option, none, some, ltb, if◌then◌else◌}
use captivo_access.Access.Evaluate.{GrantStatus, Grant}
use captivo_access.Access.Grants.{is_pending}

pub data RequestState : Type 0 where
  pending approved denied withdrawn expired : RequestState

-- `requestStatus` of lib/portal/request-status.ts.
unfoldable pub request_status : GrantStatus → Option ℕ → Option ℕ → ℕ → RequestState
request_status GrantStatus.denied approved_at ends_at now = denied
request_status GrantStatus.revoked approved_at ends_at now = withdrawn
request_status GrantStatus.active none ends_at now = pending
request_status GrantStatus.active (some a) none now = approved
request_status GrantStatus.active (some a) (some e) now = if ltb e now then expired else approved

-- For a grant that needs approval, the portal shows "pending" exactly while the console lists the
-- grant as one to decide.
pub request_status_iff :
    (g : Grant) (now : ℕ)
    → g.requires_approval ≡ true
    → (request_status g.status g.approved_at g.ends_at now ≡ pending) ↔ (is_pending g ≡ true)
unfolding request_status
request_status_iff g now h = ground arith
