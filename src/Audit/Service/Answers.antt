-- ===== src/Audit/Service/Answers.antt =====
-- About GET of app/api/admin/audit/verify/route.ts while other requests append events.
use captivo_access.Prelude.{
  ℕ, ◌-◌, none, ◌<◌, ◌≡◌, refl, true, List, [], some, Text, arith, length, drop, ◌∙◌,
}
use captivo_access.Prelude.Outcomes.{returns, ◌>>=◌}
use native.Mathlib.Nat.{sub_self}
use captivo_access.Auth.Roles.{can, read_console}
use captivo_access.Access.Routes.Replies.{Caller}
use captivo_access.Audit.Chain.{ChainableEvent, compute_hash}
use captivo_access.Audit.Verify.{Stored, ChainHead, ChainVerifyResult, verify_chain}
use captivo_access.Audit.Verify.Retention.{IsChainFrom, retention_verifies}
use captivo_access.Audit.Append.Keeps.{event_seq}
use captivo_access.Audit.Service.{fetch_pages, check_reader, get_verify}
use captivo_access.Audit.Service.Pages.{Grows, fetch_rest}

module _ {E : Type 0} (seq : E → ℕ) where
  -- With fuel for one more round than there are rows up to the head, the loop ends with exactly
  -- these rows.
  pub fetch_pages_complete :
      (size : ℕ) (head : ChainHead) (n : ℕ) (rows : List (Stored E)) (table : ℕ → List (Stored E))
      (compute : Text → E → Text) (p : Text) (fuel : ℕ)
      → 0 < size
      → IsChainFrom seq compute n p rows head
      → Grows seq size head n rows table
      → length rows < fuel
      → fetch_pages seq size table (some head) fuel 0 none [] ≡ some rows
  fetch_pages_complete size head n rows table compute p fuel pos c grows enough =
      let all : drop (n - n) rows ≡ rows = rw sub_self refl in
      fetch_rest seq size head n rows table fuel 0 n none [] pos grows c.numbered c.ends_seq refl
        (omega (arith, c.ends_seq)) (rw all enough)
      ∙ rw all refl

-- For a caller who may read the console, a log that is a chain up to its head, and a table that
-- only gains newer events between the queries, the loop over pages ends (with fuel for one more
-- round than there are rows) and the route answers that the log verifies.
pub get_verify-answers :
    (sha : Text → Text) (caller : Caller) (head : ChainHead) (n : ℕ) (p : Text)
    (rows : List (Stored ChainableEvent)) (table : ℕ → List (Stored ChainableEvent)) (fuel : ℕ)
    → can caller.role read_console ≡ true
    → IsChainFrom event_seq (compute_hash sha) n p rows head
    → Grows event_seq 1000 head n rows table
    → length rows < fuel
    → (r : ChainVerifyResult) × (get_verify sha (some caller) (some head) table fuel
        ≡ returns (some r))
      × (r.ok ≡ true)
unfolding ◌>>=◌ get_verify check_reader
get_verify-answers sha caller head n p rows table fuel may c grows enough = (
  verify_chain event_seq (compute_hash sha) rows (some head),
  rw
      (
        may,
        fetch_pages_complete event_seq 1000 head n rows table (compute_hash sha) p fuel
            (omega arith) c grows enough,
      )
      refl,
  retention_verifies event_seq (compute_hash sha) n p [] rows head c,
)
