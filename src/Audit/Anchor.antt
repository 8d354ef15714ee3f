-- ===== src/Audit/Anchor.antt =====
-- lib/audit/anchor.ts, lib/audit/anchor-verify.ts, and app/api/admin/audit/anchors/verify/route.ts:
-- the head of a chain attested by an external time stamping authority. The authority, reached over
-- HTTP with a request built from a digest, and the check of its tokens are parameters; so is the
-- digest `sha`. Both chains are anchored in the same way.
pub mod Holds
pub mod Settles
use captivo_access.Prelude.{
  ℕ, ◌+◌, Bool, true, false, not, ◌||◌, ◌++◌, List, [], ◌∷◌, Option, none, some, map, Text, lit,
  text_eq, ◌==◌, ltb, is_empty, find?, get_or, if◌then◌else◌, length, count,
}
use captivo_access.Prelude.Decimal.{decimal, iso_string}
use captivo_access.Prelude.Outcomes.{Outcome, returns, ◌>>=◌}
use captivo_access.Access.Routes.Replies.{Caller, Failure}
use captivo_access.Audit.Verify.{Stored, ChainHead}
use captivo_access.Audit.Service.{check_reader}

unfoldable pub anchor_preimage : ℕ → Text → Text
anchor_preimage anchored_seq anchored_hash = decimal anchored_seq ++ lit ":" ++ anchored_hash

unfoldable pub anchor_digest : (Text → Text) → ℕ → Text → Text
anchor_digest sha anchored_seq anchored_hash = sha (anchor_preimage anchored_seq anchored_hash)

pub record Anchor : Type 0 where
  pub id : Text
  pub anchored_seq : ℕ
  pub anchored_hash : Text
  pub tsa_url : Text
  pub token : Text
  pub gen_time : ℕ

abbrev pub differs : Anchor → ChainHead → Bool
differs a head =
    not (a.anchored_seq == head.last_seq) || not (text_eq a.anchored_hash head.last_hash)

unfoldable pub should_anchor : ChainHead → Option Anchor → Bool
should_anchor head none = not (head.last_seq == 0)
should_anchor head (some a) = if head.last_seq == 0 then false else differs a head

-- What the authority does with a request: an HTTP status that is no success, a time stamp (its
-- token and time), or anything that throws, with its message.
pub data TsaAnswer : Type 0 where
  http_error : ℕ → TsaAnswer
  stamped : Text → ℕ → TsaAnswer
  throws : Text → TsaAnswer

pub data AnchorRunResult : Type 0 where
  disabled skipped : AnchorRunResult
  anchored : Text → Text → AnchorRunResult
  failed : Text → AnchorRunResult

abbrev pub later_anchor : Anchor → Option Anchor → Option Anchor
later_anchor a none = some a
later_anchor a (some b) = if ltb a.anchored_seq b.anchored_seq then some b else some a

-- `orderBy: { anchoredSeq: "desc" }`, the first row.
unfoldable pub find_last_anchor : List Anchor → Option Anchor
find_last_anchor [] = none
find_last_anchor (a ∷ rest) = later_anchor a (find_last_anchor rest)

module _ (sha : Text → Text) (tsa : Text → Text → TsaAnswer) where
  -- The stamp is stored; `id` is that of the new row.
  abbrev pub store_stamp :
      Text → Text → ChainHead → List Anchor → TsaAnswer → List Anchor × AnchorRunResult
  store_stamp id url head anchors (http_error status) =
      (anchors, failed (lit "TSA HTTP " ++ decimal status))
  store_stamp id url head anchors (throws message) = (anchors, failed message)
  store_stamp id url head anchors (stamped token gen_time) = (
    anchors
        ++ record {
          id = id;
          anchored_seq = head.last_seq;
          anchored_hash = head.last_hash;
          tsa_url = url;
          token = token;
          gen_time = gen_time;
        }
          ∷ [],
    anchored (decimal head.last_seq) (iso_string gen_time),
  )

  abbrev pub anchor_head :
      Text → Text → Option ChainHead → List Anchor → List Anchor × AnchorRunResult
  anchor_head id url none anchors = (anchors, skipped)
  anchor_head id url (some head) anchors =
      if should_anchor head (find_last_anchor anchors)
      then store_stamp id url head anchors
          (tsa url (anchor_digest sha head.last_seq head.last_hash))
      else (anchors, skipped)

  -- `runAnchorFor`, with whether anchoring is enabled and the address of the authority.
  unfoldable pub run_anchor_for :
      Text → Bool → Text → Option ChainHead → List Anchor → List Anchor × AnchorRunResult
  run_anchor_for id enabled url head anchors =
      if not enabled
      then (anchors, disabled)
      else if is_empty url
      then (anchors, disabled)
      else anchor_head id url head anchors

-- What the check of a token answers: whether it attests the text, its time, and why not.
pub record TokenCheck : Type 0 where
  pub ok : Bool
  pub gen_time : Option ℕ
  pub reason : Option Text

pub record AnchorVerdict : Type 0 where
  pub id : Text
  pub anchored_seq : Text
  pub gen_time : Text
  pub ok : Bool
  pub beyond_retention : Bool
  pub reason : Option Text

abbrev pub verdict : Anchor → TokenCheck → Bool → Bool → Option Text → AnchorVerdict
verdict a check ok beyond_retention reason = record {
  id = a.id;
  anchored_seq = decimal a.anchored_seq;
  gen_time = iso_string (get_or check.gen_time a.gen_time);
  ok = ok;
  beyond_retention = beyond_retention;
  reason = reason;
}

-- The comparison with the chain, once the token is good.
abbrev pub compare_hash : Anchor → TokenCheck → Option Text → AnchorVerdict
compare_hash a check none = verdict a check true true none
compare_hash a check (some hash) =
    if text_eq hash a.anchored_hash
    then verdict a check true false none
    else verdict a check false false (some (lit "chain_mismatch"))

abbrev pub hash_of : {E : Type 0} → Option (Stored E) → Option Text
hash_of none = none
hash_of (some r) = some r.hash

module _ {E : Type 0} (seq : E → ℕ) where
  -- The hash that the chain holds at a number.
  unfoldable pub chain_hash_at : ℕ → List (Stored E) → Option Text
  chain_hash_at n rows = hash_of (find? (λ r. seq r.event == n) rows)

module _ (token_check : Text → Text → TokenCheck) where
  unfoldable pub verify_one_anchor : Anchor → Option Text → AnchorVerdict
  verify_one_anchor a chain_hash_at_seq =
      let check = token_check a.token (anchor_preimage a.anchored_seq a.anchored_hash) in
      if check.ok
      then compare_hash a check chain_hash_at_seq
      else verdict a check false false (some (lit "token_" ++ get_or check.reason (lit "invalid")))

  pub record AnchorReport : Type 0 where
    pub total : ℕ
    pub good : ℕ
    pub bad : ℕ
    pub verdicts : List AnchorVerdict

  module _ {E : Type 0} (seq : E → ℕ) where
    -- `POST /api/admin/audit/anchors/verify`.
    unfoldable pub verify_anchors :
        Option Caller → List Anchor → List (Stored E) → Outcome Failure AnchorReport
    verify_anchors caller anchors rows = do
      admin ← check_reader caller
      let verdicts =
          map (λ (a : Anchor). verify_one_anchor a (chain_hash_at seq a.anchored_seq rows)) anchors
      returns (record {
        total = length verdicts;
        good = count (λ v. v.ok) verdicts;
        bad = count (λ v. not v.ok) verdicts;
        verdicts = verdicts;
      })
