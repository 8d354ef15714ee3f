-- ===== src/Audit/Service.antt =====
-- app/api/admin/audit/verify/route.ts, app/api/admin/audit/admin-verify/route.ts and
-- app/api/cron/audit-retention/route.ts: the routes that verify the chains and shorten one. A table
-- is the list of its rows in the order of `seq`; the tenant is fixed.
pub mod Answers
pub mod Pages
pub mod Purge
use captivo_access.Prelude.{
  ℕ, zero, suc, ◌+◌, ◌-◌, ◌*◌, Bool, true, false, not, ◌&&◌, List, [], ◌∷◌, ◌++◌, Option, none,
  some, map, Text, ltb, leb, length, take, select, count, if◌then◌else◌,
}
use captivo_access.Prelude.Outcomes.{Outcome, returns, ◌>>=◌, ◌>>◌, require}
use captivo_access.Json.{Num}
use captivo_access.Auth.Roles.{can, read_console}
use captivo_access.Access.Routes.Replies.{Caller, Failure, signed_in}
use captivo_access.Access.Routes.Checks.{forbidden}
use captivo_access.Audit.Chain.{ChainableEvent, compute_hash}
use captivo_access.Audit.Verify.{Stored, ChainHead, ChainVerifyResult, last_of, verify_chain}
use captivo_access.Audit.Admin.{AdminChainable, AdminLog, or_null, admin_seq, verify_admin_chain}
use captivo_access.Audit.Verify.Reread.{on_event}

-- `seq: { lte: head.lastSeq }`, where there is a head.
abbrev pub up_to : Option ChainHead → ℕ → Bool
up_to none seq = true
up_to (some head) seq = leb seq head.last_seq

-- `seq: { gt: cursorSeq }`, where there is a cursor.
abbrev pub after : Option ℕ → ℕ → Bool
after none seq = true
after (some cursor) seq = ltb cursor seq

module _ {E : Type 0} (seq : E → ℕ) where
  abbrev pub page_where : Option ChainHead → Option ℕ → Stored E → Bool
  page_where head cursor r = up_to head (seq r.event) && after cursor (seq r.event)

  -- The loop over pages of `size` rows. Other requests write in between: the query number `i` sees
  -- `table i`. `none` means that the fuel ran out.
  unfoldable pub fetch_pages :
      ℕ
      → (ℕ → List (Stored E))
      → Option ChainHead
      → ℕ
      → ℕ
      → Option ℕ
      → List (Stored E)
      → Option (List (Stored E))
  fetch_pages size table head zero i cursor events = none
  fetch_pages size table head (suc fuel) i cursor events =
      elim (take size (select (page_where head cursor) (table i))) [
        | [] ↦ some events
        | b ∷ batch ↦
            let more =
              fetch_pages size table head fuel (i + 1) (some (seq (last_of b batch).event))
                (events ++ b ∷ batch) in
            if ltb (length (b ∷ batch)) size then some (events ++ b ∷ batch) else more
      ]

-- The guard of both routes.
unfoldable pub check_reader : Option Caller → Outcome Failure Caller
check_reader caller = do
  admin ← signed_in caller
  require (can admin.role read_console) forbidden
  returns admin

abbrev pub verified :
    (ChainableEvent → ℕ)
    → (Text → ChainableEvent → Text)
    → Option ChainHead
    → Option (List (Stored ChainableEvent))
    → Option ChainVerifyResult
verified seq compute head none = none
verified seq compute head (some events) = some (verify_chain seq compute events head)

-- `GET /api/admin/audit/verify`, with pages of 1000 rows.
unfoldable pub get_verify :
    (Text → Text)
    → Option Caller
    → Option ChainHead
    → (ℕ → List (Stored ChainableEvent))
    → ℕ
    → Outcome Failure (Option ChainVerifyResult)
get_verify sha caller head table fuel = do
  admin ← check_reader caller
  returns (
      verified (λ e. e.seq) (compute_hash sha) head
        (fetch_pages (λ e. e.seq) 1000 table head fuel 0 none []))

-- `metadata: r.metadata ?? null`.
abbrev pub with_null : AdminChainable → AdminChainable
with_null e = record e { metadata = or_null e.metadata }

-- `GET /api/admin/audit/admin-verify`; the rows are those that have a `seq`.
unfoldable pub get_admin_verify :
    (Text → Text)
    → (Num → Text)
    → (Text → Text)
    → Option Caller
    → AdminLog
    → Outcome Failure ChainVerifyResult
get_admin_verify quote number_text sha caller log = do
  admin ← check_reader caller
  let rows = select (λ r. up_to log.head (admin_seq r.event)) log.rows
  returns (verify_admin_chain quote number_text sha (map (on_event with_null) rows) log.head)

abbrev pub larger : ℕ → Option ℕ → ℕ
larger a none = a
larger a (some b) = if ltb a b then b else a

module _ {E : Type 0} (seq timestamp : E → ℕ) where
  -- `_max: { seq }` over some rows.
  abbrev pub max_seq : List (Stored E) → Option ℕ
  max_seq [] = none
  max_seq (r ∷ rows) = some (larger (seq r.event) (max_seq rows))

  -- `deleteMany({ where: { seq: { lte } } })`, unless there is no boundary.
  abbrev pub delete_up_to : Option ℕ → List (Stored E) → List (Stored E) × ℕ
  delete_up_to none rows = (rows, 0)
  delete_up_to (some boundary) rows = (
    select (λ r. not (leb (seq r.event) boundary)) rows,
    count (λ r. leb (seq r.event) boundary) rows,
  )

  -- One tenant's round of `POST /api/cron/audit-retention`: what is left of the rows, and how many
  -- were deleted.
  unfoldable pub purge : ℕ → ℕ → List (Stored E) → List (Stored E) × ℕ
  purge retention_days now rows =
      let cutoff = now - retention_days * 86400000 in
      delete_up_to (max_seq (select (λ r. ltb (timestamp r.event) cutoff) rows)) rows
