-- ===== src/Tests/Audit.antt =====
-- The audit chain at concrete logs. The digest here is injective and has no line feed, as the
-- theorems ask; it is no hash.
use captivo_access.Prelude.{
  All, ◌⊎◌, ℕ, ◌+◌, ◌≡◌, ◌≢◌, ◌↔◌, refl, true, false, not, [], ◌∷◌, Option, none, some, map, get_or,
  Text, lit, arith, length, all, ◌==◌,
}
use captivo_access.Audit.Chain.{ChainableEvent, compute_hash}
use captivo_access.Audit.Verify.{Stored, ChainHead, verify_chain}
use captivo_access.Audit.Verify.Links.{Linked, verify_chain_iff}
use captivo_access.Audit.Verify.Retention.{IsChainFrom, retention_verifies, truncation_detected}
use captivo_access.Audit.Append.{AuditInput, AuditStore, append_audit_events}
use captivo_access.Audit.Append.Storable.{IsStorable}
use captivo_access.Audit.Append.Keeps.{
  IsAppended, event_seq, IsChained, append_audit_events-IsChained,
}
use captivo_access.Prelude.Decimal.{pos, iso_string}
use captivo_access.Json.{Num, nat, obj, bool, field, end}
use captivo_access.Audit.Admin.Canonical.{same}
use captivo_access.Audit.Admin.{
  AdminAction, AdminLog, admin_head, verify_admin_chain, record_admin_action,
}
use captivo_access.Audit.Admin.Records.{IsAdminChained, writer, record_admin_action-IsAdminChained}
use captivo_access.Audit.Tamper.{Lacks, texts, verified_logs_agree}
use captivo_access.Audit.Tamper.Fields.{IsClean, canonicalize_fields}

abbrev digest : Text → Text
digest s = map (λ c. c + 11) s

digest_injective : (a b : Text) → digest a ≡ digest b → a ≡ b
digest_injective [] [] h = refl
digest_injective [] (y ∷ b) h = absurd cc
digest_injective (x ∷ a) [] h = absurd cc
digest_injective (x ∷ a) (y ∷ b) h =
    let heads : x + 11 ≡ y + 11 = ground arith in
    let tails : digest a ≡ digest b = ground arith in
    let same : x ≡ y = omega (arith, heads) in cc (same, digest_injective a b tails)

digest-Lacks : (a : Text) → Lacks 10 (digest a)
digest-Lacks [] = tt
digest-Lacks (x ∷ a) = (λ e. absurd (omega (arith, e)), digest-Lacks a)

abbrev visit : ℕ → Text → ChainableEvent
visit seq path = record {
  seq = seq;
  timestamp = 1785153600123;
  user_id = some (lit "alice");
  site_id = none;
  host = lit "wiki.example.com";
  method = lit "GET";
  path = path;
  status = pos 200;
  bytes_out = 512;
  decision = lit "ALLOW";
  reason = none;
  client_ip = none;
  user_agent = none;
}

abbrev row : Text → ChainableEvent → Stored ChainableEvent
row prev e = record { event = e; prev_hash = prev; hash = compute_hash digest prev e }

abbrev row1 : Stored ChainableEvent
row1 = row [] (visit 1 (lit "/a"))

abbrev row2 : Stored ChainableEvent
row2 = row row1.hash (visit 2 (lit "/b"))

abbrev head2 : ChainHead
head2 = record { last_seq = 2; last_hash = row2.hash }

both-Linked : Linked (compute_hash digest) [] (row1 ∷ row2 ∷ [])
both-Linked = (refl, refl, (refl, refl, tt))

two_rows : IsChainFrom event_seq (compute_hash digest) 0 [] (row1 ∷ row2 ∷ []) head2
two_rows = record {
  linked = both-Linked;
  numbered = (refl, (refl, tt));
  ends_hash = refl;
  ends_seq = refl;
}

both_verify :
    (verify_chain event_seq (compute_hash digest) (row1 ∷ row2 ∷ []) (some head2)).ok ≡ true
both_verify =
    retention_verifies event_seq (compute_hash digest) 0 [] [] (row1 ∷ row2 ∷ []) head2 two_rows

verify_chain_example :
    ((verify_chain event_seq (compute_hash digest) (row1 ∷ row2 ∷ []) (some head2)).ok ≡ true) ↔ (
      Linked (compute_hash digest) [] (row1 ∷ row2 ∷ [])
      × (event_seq row2.event ≡ head2.last_seq)
      × (row2.hash ≡ row2.hash))
verify_chain_example = verify_chain_iff event_seq (compute_hash digest) row1 (row2 ∷ []) head2

retention_verifies_example :
    (verify_chain event_seq (compute_hash digest) (row2 ∷ []) (some head2)).ok ≡ true
retention_verifies_example =
    retention_verifies event_seq (compute_hash digest) 0 [] (row1 ∷ []) (row2 ∷ []) head2 two_rows

some_left : row1 ∷ [] ≢ []
some_left e = absurd cc

some_lost : row2 ∷ [] ≢ []
some_lost e = absurd cc

truncation_detected_example :
    (verify_chain event_seq (compute_hash digest) (row1 ∷ []) (some head2)).ok ≡ false
truncation_detected_example =
    truncation_detected event_seq (compute_hash digest) 0 [] (row1 ∷ []) (row2 ∷ []) head2 two_rows
      some_left some_lost

verified_logs_agree_example :
    (row1.prev_hash ≡ row1.prev_hash) × (texts (row1 ∷ row2 ∷ []) ≡ texts (row1 ∷ row2 ∷ []))
verified_logs_agree_example =
    verified_logs_agree digest digest_injective digest-Lacks row1 row1 (row2 ∷ []) (row2 ∷ []) head2
      tt tt refl both_verify both_verify

Lacks-test : (c : ℕ) (s : Text) → all (λ x. not (x == c)) s ≡ true → Lacks c s
Lacks-test c [] h = tt
Lacks-test c (x ∷ s) h = (λ e. absurd (ground arith), Lacks-test c s (ground arith))

visit-IsClean : (n : ℕ) → IsClean (visit n (lit "/a"))
visit-IsClean n = record {
  user_id = Lacks-test 0x1f (get_or (visit n (lit "/a")).user_id []) refl;
  site_id = Lacks-test 0x1f (get_or (visit n (lit "/a")).site_id []) refl;
  host = Lacks-test 0x1f (visit n (lit "/a")).host refl;
  method = Lacks-test 0x1f (visit n (lit "/a")).method refl;
  path = Lacks-test 0x1f (visit n (lit "/a")).path refl;
  decision = Lacks-test 0x1f (visit n (lit "/a")).decision refl;
  reason = Lacks-test 0x1f (get_or (visit n (lit "/a")).reason []) refl;
  client_ip = Lacks-test 0x1f (get_or (visit n (lit "/a")).client_ip []) refl;
  user_agent = Lacks-test 0x1f (get_or (visit n (lit "/a")).user_agent []) refl;
}

canonicalize_fields_example :
    let x = visit 1 (lit "/a") in
    (x.seq ≡ x.seq)
    × (iso_string x.timestamp ≡ iso_string x.timestamp)
    × (get_or x.user_id [] ≡ get_or x.user_id [])
    × (get_or x.site_id [] ≡ get_or x.site_id [])
    × (x.host ≡ x.host)
    × (x.method ≡ x.method)
    × (x.path ≡ x.path)
    × (x.status ≡ x.status)
    × (x.bytes_out ≡ x.bytes_out)
    × (x.decision ≡ x.decision)
    × (get_or x.reason [] ≡ get_or x.reason [])
    × (get_or x.client_ip [] ≡ get_or x.client_ip [])
    × (get_or x.user_agent [] ≡ get_or x.user_agent [])
canonicalize_fields_example =
    canonicalize_fields (visit 1 (lit "/a")) (visit 1 (lit "/a")) (visit-IsClean 1)
      (visit-IsClean 1) refl

abbrev denied_visit : AuditInput
denied_visit = record {
  timestamp = none;
  user_id = none;
  site_id = none;
  host = some (lit "wiki.example.com");
  method = some (lit "GET");
  path = some (lit "/");
  status = some (nat 403);
  bytes_out = none;
  decision = some (lit "DENY");
  reason = none;
  client_ip = none;
  user_agent = none;
}

abbrev no_date : Text → Option ℕ
no_date t = none

abbrev empty_log : AuditStore
empty_log = record { rows = []; head = none }

empty_log-IsChained : IsChained digest empty_log
empty_log-IsChained = record {
  purged = 0;
  before = [];
  chain = record { linked = tt; numbered = tt; ends_hash = refl; ends_seq = refl };
}

append_audit_events_example :
    (All (IsStorable no_date) (denied_visit ∷ [])
      × IsAppended digest no_date 1785153600123 [] [] (denied_visit ∷ []) empty_log)
    ⊎ ((¬ All (IsStorable no_date) (denied_visit ∷ []))
        × (append_audit_events digest no_date 1785153600123 [] [] (denied_visit ∷ []) empty_log
            ≡ none))
append_audit_events_example =
    append_audit_events-IsChained digest no_date 1785153600123 [] [] (denied_visit ∷ []) empty_log
      empty_log-IsChained (omega arith)

-- That call stores its event.
denied_visit_stored : All (IsStorable no_date) (denied_visit ∷ [])
denied_visit_stored = ((tt, omega arith, tt), tt)

abbrev sign_out : AdminAction
sign_out = record {
  actor_id = lit "root";
  actor_email = none;
  action = lit "authsession.revoke";
  target_type = some (lit "session");
  target_id = none;
  summary = lit "Revoked 1 auth session";
  metadata = some (field (lit "own") (bool false) end);
  client_ip = none;
}

abbrev no_actions : AdminLog
no_actions = record { rows = []; head = none }

abbrev plain : Text → Text
plain s = s

abbrev blank : Num → Text
blank n = []

no_actions-IsAdminChained : IsAdminChained plain blank digest no_actions
no_actions-IsAdminChained = record {
  purged = 0;
  before = [];
  chain = record { linked = tt; numbered = tt; ends_hash = refl; ends_seq = refl };
}

record_admin_action_example :
    let s = record_admin_action (writer plain blank digest (λ v. v)) 1000 sign_out no_actions in
    IsAdminChained plain blank digest s
    × (length s.rows ≡ 0 + 1)
    × ((verify_admin_chain plain blank digest s.rows (some (admin_head s.head))).ok ≡ true)
record_admin_action_example =
    record_admin_action-IsAdminChained plain blank digest (λ v. v) 1000 sign_out no_actions
      no_actions-IsAdminChained (same (obj (field (lit "own") (bool false) end)))
