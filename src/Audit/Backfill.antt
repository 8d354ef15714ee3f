-- ===== src/Audit/Backfill.antt =====
-- lib/audit/admin-backfill.ts and app/api/admin/audit/admin-backfill/route.ts: administrative actions
-- that were recorded before the chain existed are chained. They come in the order of insertion.
pub mod Chained
use captivo_access.Prelude.{ℕ, ◌+◌, List, [], ◌∷◌, ◌++◌, Option, some, Text, length}
use captivo_access.Prelude.Outcomes.{Outcome, returns, ◌>>=◌, ◌>>◌, require}
use captivo_access.Json.{Json}
use captivo_access.Auth.Roles.{can, configure}
use captivo_access.Access.Routes.Replies.{Caller, Failure, signed_in}
use captivo_access.Access.Routes.Checks.{forbidden}
use captivo_access.Audit.Verify.{Stored, ChainHead}
use captivo_access.Audit.Admin.{AdminChainable, AdminLog, admin_head, or_null}

-- A row without `seq`.
pub record Unchained : Type 0 where
  pub timestamp : ℕ
  pub actor_id : Option Text
  pub actor_email : Option Text
  pub action : Text
  pub target_type : Option Text
  pub target_id : Option Text
  pub summary : Text
  pub metadata : Json
  pub client_ip : Option Text

unfoldable pub numbered : ℕ → Unchained → AdminChainable
numbered seq r = record {
  seq = seq;
  timestamp = r.timestamp;
  actor_id = r.actor_id;
  actor_email = r.actor_email;
  action = r.action;
  target_type = r.target_type;
  target_id = r.target_id;
  summary = r.summary;
  metadata = or_null r.metadata;
  client_ip = r.client_ip;
}

-- The table: the rows in the chain with its head, and those outside.
pub record AdminTable : Type 0 where
  pub log : AdminLog
  pub unchained : List Unchained

module _ (compute : Text → AdminChainable → Text) where
  -- The loop, with its variables `lastSeq` and `lastHash`.
  unfoldable pub chain_pending :
      ChainHead → List Unchained → List (Stored AdminChainable) × ChainHead
  chain_pending head [] = ([], head)
  chain_pending head (r ∷ rest) =
      let seq = head.last_seq + 1 in
      let event = numbered seq r in
      let hash = compute head.last_hash event in
      let (rows, last) = chain_pending (record { last_seq = seq; last_hash = hash }) rest in
      (record { event = event; prev_hash = head.last_hash; hash = hash } ∷ rows, last)

  -- Without rows to chain, nothing is written. (The column keeps a missing value of the metadata; it
  -- is read as `null` here and by the verifier.)
  abbrev pub backfill_pending : AdminTable → List Unchained → AdminTable × ℕ
  backfill_pending s [] = (s, 0)
  backfill_pending s (r ∷ rest) =
      let (rows, last) = chain_pending (admin_head s.log.head) (r ∷ rest) in
      (
        record { log = record { rows = s.log.rows ++ rows; head = some last }; unchained = [] },
        length (r ∷ rest),
      )

  unfoldable pub backfill_admin_chain : AdminTable → AdminTable × ℕ
  backfill_admin_chain s = backfill_pending s s.unchained

  -- `POST /api/admin/audit/admin-backfill`.
  unfoldable pub post_backfill : Option Caller → AdminTable → Outcome Failure (AdminTable × ℕ)
  post_backfill caller s = do
    admin ← signed_in caller
    require (can admin.role configure) forbidden
    returns (backfill_admin_chain s)
