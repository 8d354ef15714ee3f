-- ===== src/Tests/Service.antt =====
-- The chains under maintenance at a concrete log: verified by pages, shortened, anchored, chained
-- afterwards, and read back from the database. The digest here is injective; it is no hash.
use captivo_access.Prelude.{
  ℕ, zero, suc, ◌≢◌, text_eq, text_eq_iff, ◌+◌, ◌-◌, ◌*◌, ◌≤◌, ◌≡◌, ◌⊎◌, refl, true, false, List,
  [], ◌∷◌, ◌++◌, none, some, map, Text, lit, arith, length, All,
}
use captivo_access.Prelude.Outcomes.{returns}
use captivo_access.Prelude.Decimal.{pos}
use captivo_access.Json.{Num, Json, undefined, bool, obj, Fields, field, end}
use captivo_access.Auth.Roles.{Role}
use captivo_access.Access.Routes.Replies.{Caller}
use captivo_access.Audit.Chain.{ChainableEvent, compute_hash}
use captivo_access.Audit.Verify.{Stored, ChainHead, ChainVerifyResult, verify_chain}
use captivo_access.Audit.Verify.Reread.{on_event}
use captivo_access.Audit.Verify.Retention.{IsChainFrom}
use captivo_access.Audit.Append.Keeps.{event_seq}
use captivo_access.Audit.Admin.{
  AdminChainable, AdminAction, AdminLog, reread, admin_head, compute_admin_hash,
  record_admin_action, verify_admin_chain,
}
use captivo_access.Audit.Admin.Canonical.{in_obj, swap, verify_admin_chain-reread}
use captivo_access.Audit.Admin.Records.{IsAdminChained, writer}
use captivo_access.Audit.Admin.Undefined.{verify_admin_chain-undefined}
use captivo_access.Audit.Service.{get_verify, purge}
use captivo_access.Audit.Service.Answers.{get_verify-answers}
use captivo_access.Audit.Service.Pages.{Grows}
use captivo_access.Audit.Service.Purge.{purge_verifies}
use captivo_access.Audit.Anchor.{
  Anchor, TsaAnswer, stamped, skipped, failed, TokenCheck, run_anchor_for, verify_one_anchor,
  chain_hash_at,
}
use captivo_access.Audit.Anchor.Holds.{anchor_holds}
use captivo_access.Audit.Anchor.Settles.{anchor_of, run_anchor_for_settles}
use captivo_access.Audit.Backfill.{Unchained, AdminTable, backfill_admin_chain}
use captivo_access.Audit.Backfill.Chained.{backfill_admin_chain-IsAdminChained}

abbrev plain : Text → Text
plain s = s

abbrev blank : Num → Text
blank n = []

apart : (a b : Text) → text_eq a b ≡ false → a ≢ b
apart a b h e = let same = (text_eq_iff a b).1 e in cc

abbrev visit : ℕ → ℕ → ChainableEvent
visit seq timestamp = record {
  seq = seq;
  timestamp = timestamp;
  user_id = some (lit "alice");
  site_id = none;
  host = lit "wiki.example.com";
  method = lit "GET";
  path = lit "/";
  status = pos 200;
  bytes_out = 512;
  decision = lit "ALLOW";
  reason = none;
  client_ip = none;
  user_agent = none;
}

abbrev row : Text → ChainableEvent → Stored ChainableEvent
row prev e = record { event = e; prev_hash = prev; hash = compute_hash plain prev e }

abbrev row1 : Stored ChainableEvent
row1 = row [] (visit 1 1000)

abbrev row2 : Stored ChainableEvent
row2 = row row1.hash (visit 2 200000000)

abbrev row3 : Stored ChainableEvent
row3 = row row2.hash (visit 3 200000001)

abbrev two : List (Stored ChainableEvent)
two = row1 ∷ row2 ∷ []

abbrev head2 : ChainHead
head2 = record { last_seq = 2; last_hash = row2.hash }

two_chained : IsChainFrom event_seq (compute_hash plain) 0 [] two head2
two_chained = record {
  linked = (refl, refl, (refl, refl, tt));
  numbered = (refl, (refl, tt));
  ends_hash = refl;
  ends_seq = refl;
}

abbrev auditor : Caller
auditor = record { id = lit "ada"; email = lit "ada@example.com"; role = Role.auditor }

-- From the second query on there is a third event.
abbrev growing : ℕ → List (Stored ChainableEvent)
growing zero = two
growing (suc i) = two ++ row3 ∷ []

growing_grows : Grows event_seq 1000 head2 0 two growing
growing_grows zero = ([], refl, tt)
growing_grows (suc i) = (row3 ∷ [], refl, (omega arith, tt))

get_verify-answers_example :
    (r : ChainVerifyResult) × (get_verify plain (some auditor) (some head2) growing 3
      ≡ returns (some r))
    × (r.ok ≡ true)
unfolding captivo_access.Auth.Roles.can
get_verify-answers_example =
    get_verify-answers plain auditor head2 0 [] two growing 3 refl two_chained growing_grows
      (omega arith)

purge_verifies_example :
    let (left, deleted) = purge event_seq (λ e. e.timestamp) 1 100000000 two in
    ((verify_chain event_seq (compute_hash plain) left (some head2)).ok ≡ true)
    × All (λ r. 100000000 - 1 * 86400000 ≤ r.event.timestamp) left
    × (length left + deleted ≡ 2)
purge_verifies_example =
    purge_verifies event_seq (λ e. e.timestamp) (compute_hash plain) 1 100000000 0 [] two head2
      two_chained

purge_runs : purge event_seq (λ e. e.timestamp) 1 100000000 two ≡ (row2 ∷ [], 1)
unfolding purge
purge_runs = refl

abbrev url : Text
url = lit "https://tsa.example.com"

abbrev authority : Text → Text → TsaAnswer
authority address digest = stamped digest 300000000

run_anchor_for_settles_example :
    let (anchors, r) = run_anchor_for plain authority (lit "a1") true url (some head2) [] in
    ((token : Text) × (gen_time : ℕ) × (anchors
        ≡ anchor_of (lit "a1") url head2 token gen_time ∷ [])
      × (run_anchor_for plain authority (lit "a2") true url (some head2) anchors
          ≡ (anchors, skipped)))
    ⊎ ((message : Text) × (r ≡ failed message) × (anchors ≡ []))
run_anchor_for_settles_example =
    run_anchor_for_settles plain authority authority (lit "a1") (lit "a2") url head2 []
      (omega arith) (λ e. cc) tt

abbrev anchor : Anchor
anchor = anchor_of (lit "a1") url head2 (lit "token") 300000000

abbrev trusting : Text → Text → TokenCheck
trusting token preimage = record { ok = true; gen_time = none; reason = none }

nil_apart : [] ≢ row2.hash
unfolding text_eq compute_hash captivo_access.Audit.Chain.chain_hash
nil_apart = apart [] row2.hash refl

anchor_holds_example :
    let v = verify_one_anchor trusting anchor (chain_hash_at event_seq 2 (two ++ row3 ∷ [])) in
    (v.ok ≡ true)
    × (v.beyond_retention ≡ false)
    × ((verify_one_anchor trusting anchor (some [])).ok ≡ false)
anchor_holds_example =
    anchor_holds trusting event_seq (compute_hash plain) 0 [] two (row3 ∷ []) head2 anchor []
      two_chained (omega arith, tt) refl refl refl nil_apart

abbrev told : Fields → AdminAction
told metadata = record {
  actor_id = lit "root";
  actor_email = none;
  action = lit "grant.update";
  target_type = some (lit "grant");
  target_id = some (lit "g1");
  summary = lit "Updated access grant g1";
  metadata = some metadata;
  client_ip = none;
}

abbrev no_actions : AdminLog
no_actions = record { rows = []; head = none }

abbrev kept_order : Fields
kept_order = field (lit "b") (bool true) (field (lit "a") (bool false) end)

abbrev column_order : Fields
column_order = field (lit "a") (bool false) (field (lit "b") (bool true) end)

-- A column that returns every value as that object.
abbrev sorting_column : Json → Json
sorting_column v = obj column_order

abbrev one_action : AdminLog
one_action =
    record_admin_action (writer plain blank plain (λ v. v)) 1000 (told kept_order) no_actions

keys_apart : lit "b" ≢ lit "a"
unfolding text_eq
keys_apart = apart (lit "b") (lit "a") refl

verify_admin_chain-reread_example :
    verify_admin_chain plain blank plain
      (map (on_event (reread sorting_column)) one_action.rows)
      one_action.head
    ≡ verify_admin_chain plain blank plain one_action.rows one_action.head
unfolding record_admin_action captivo_access.Audit.Admin.admin_event
verify_admin_chain-reread_example =
    verify_admin_chain-reread plain blank plain sorting_column one_action.rows one_action.head
      (in_obj (swap (lit "b") (lit "a") (bool true) (bool false) end keys_apart), tt)

-- A column that drops what is undefined: here, the only property.
abbrev dropping_column : Json → Json
dropping_column v = obj end

verify_admin_chain-undefined_example :
    let metadata = field (lit "endsAt") undefined end in
    let s' =
      record_admin_action
        (writer plain blank plain dropping_column)
        1000
        (told metadata)
        no_actions in
    (verify_admin_chain plain blank plain s'.rows s'.head).ok ≡ false
verify_admin_chain-undefined_example =
    let metadata = field (lit "endsAt") undefined end in
    verify_admin_chain-undefined plain blank plain dropping_column 1000 (told metadata)
      (lit "endsAt") end no_actions
      (record_admin_action (writer plain blank plain dropping_column) 1000 (told metadata)
        no_actions).head
      (λ a b e. e) refl refl

abbrev early : Unchained
early = record {
  timestamp = 500;
  actor_id = some (lit "root");
  actor_email = none;
  action = lit "site.create";
  target_type = none;
  target_id = none;
  summary = lit "Created site wiki";
  metadata = undefined;
  client_ip = none;
}

abbrev before_backfill : AdminTable
before_backfill = record { log = no_actions; unchained = early ∷ [] }

no_actions-IsAdminChained : IsAdminChained plain blank plain no_actions
no_actions-IsAdminChained = record {
  purged = 0;
  before = [];
  chain = record { linked = tt; numbered = tt; ends_hash = refl; ends_seq = refl };
}

backfill_example :
    let compute = compute_admin_hash plain blank plain in
    let (s', n) = backfill_admin_chain compute before_backfill in
    IsAdminChained plain blank plain s'.log
    × ((verify_admin_chain plain blank plain s'.log.rows (some (admin_head s'.log.head))).ok ≡ true)
    × (s'.unchained ≡ [])
    × (n ≡ 1)
    × (backfill_admin_chain compute s' ≡ (s', 0))
backfill_example =
    backfill_admin_chain-IsAdminChained plain blank plain before_backfill no_actions-IsAdminChained
