-- ===== src/Audit/Verify.antt =====
-- lib/audit/verify.ts and the verifier of lib/audit/admin-chain.ts, which repeats it for the other
-- chain. Both walk stored events in the order of `seq`; they differ in the event, whose
-- sequence number and hash are arguments here: `seq e` and `compute prev e`.
pub mod Links
pub mod Reread
pub mod Retention
use captivo_access.Prelude.{
  ℕ, Bool, true, false, not, ◌&&◌, ◌||◌, List, [], ◌∷◌, Option, none, some, Text, text_eq, ◌==◌,
  length, if◌then◌else◌, is_empty,
}
use captivo_access.Prelude.Decimal.{decimal}

-- `StoredEvent`: an attested event and the two columns of the chain.
pub record Stored (E : Type 0) : Type 0 where
  pub event : E
  pub prev_hash : Text
  pub hash : Text

pub record ChainHead : Type 0 where
  pub last_seq : ℕ
  pub last_hash : Text

pub data BreakReason : Type 0 where
  hash_mismatch prev_hash_mismatch head_mismatch : BreakReason

pub record ChainVerifyResult : Type 0 where
  pub ok : Bool
  pub count : ℕ
  pub first_seq : Option Text
  pub last_seq : Option Text
  pub retention_boundary : Bool
  pub broken_at_seq : Option Text
  pub reason : Option BreakReason

abbrev pub nothing_to_verify : ChainVerifyResult
nothing_to_verify = record {
  ok = true;
  count = 0;
  first_seq = none;
  last_seq = none;
  retention_boundary = false;
  broken_at_seq = none;
  reason = none;
}

-- `prevHash !== null && e.prevHash !== prevHash`.
abbrev pub differs_from : Option Text → Text → Bool
differs_from none h = false
differs_from (some p) h = not (text_eq h p)

module _ {E : Type 0} where
  -- The last of a list that starts with `x`.
  abbrev pub last_of : Stored E → List (Stored E) → Stored E
  last_of x [] = x
  last_of x (y ∷ ys) = last_of y ys

module _ {E : Type 0} (seq : E → ℕ) (compute : Text → E → Text) where
  -- The loop: the sequence number and the reason of the first break.
  unfoldable pub first_break : Option Text → List (Stored E) → Option (ℕ × BreakReason)
  first_break prev [] = none
  first_break prev (e ∷ es) =
      let rest = first_break (some e.hash) es in
      if not (text_eq (compute e.prev_hash e.event) e.hash)
      then some (seq e.event, hash_mismatch)
      else if differs_from prev e.prev_hash
      then some (seq e.event, prev_hash_mismatch)
      else rest

  -- `last.seq !== expectedHead.lastSeq || last.hash !== expectedHead.lastHash`.
  abbrev pub misses_head : Option ChainHead → Stored E → Bool
  misses_head none last = false
  misses_head (some head) last =
      not (seq last.event == head.last_seq) || not (text_eq last.hash head.last_hash)

  -- The result, once the loop is done.
  abbrev pub report :
      Stored E → List (Stored E) → Option ChainHead → Option (ℕ × BreakReason) → ChainVerifyResult
  report first es expected_head (some (at, reason)) = record {
    ok = false;
    count = length (first ∷ es);
    first_seq = some (decimal (seq first.event));
    last_seq = some (decimal (seq (last_of first es).event));
    retention_boundary = not (is_empty first.prev_hash);
    broken_at_seq = some (decimal at);
    reason = some reason;
  }
  report first es expected_head none =
      let last = last_of first es in
      let off = misses_head expected_head last in
      record {
        ok = not off;
        count = length (first ∷ es);
        first_seq = some (decimal (seq first.event));
        last_seq = some (decimal (seq last.event));
        retention_boundary = not (is_empty first.prev_hash);
        broken_at_seq = if off then some (decimal (seq last.event)) else none;
        reason = if off then some head_mismatch else none;
      }

  unfoldable pub verify_chain : List (Stored E) → Option ChainHead → ChainVerifyResult
  verify_chain [] expected_head = nothing_to_verify
  verify_chain (first ∷ es) expected_head =
      report first es expected_head (first_break none (first ∷ es))
