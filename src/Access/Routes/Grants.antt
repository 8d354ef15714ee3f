-- ===== src/Access/Routes/Grants.antt =====
-- The handlers of app/api/admin/grants/route.ts, app/api/admin/grants/[id]/route.ts and
-- app/api/admin/grants/[id]/decision/route.ts with lib/access/decision.ts. The e-mail about a
-- decision is left out: its sending is best-effort and its result is not used.
use captivo_access.Prelude.{
  ℕ, ◌&&◌, List, [], ◌++◌, Option, none, some, Text, lit, text_eq, ◌==◌, get_or, if◌then◌else◌,
}
use captivo_access.Prelude.Decimal.{iso_string}
use captivo_access.Prelude.Outcomes.{Outcome, returns, ◌>>=◌, ◌>>◌, require}
use captivo_access.Json.{Json, undefined, str, Fields, field, end, get}
use captivo_access.Database.{Table, find_first}
use captivo_access.Auth.Roles.{can, read_console}
use captivo_access.Access.Schedule.{Intl}
use captivo_access.Access.Evaluate.{Grant}
use captivo_access.Access.Grants.{
  is_active, GrantInput, Verdict, approve, deny, create_grant, revoke_grant, decide_grant,
  list_grants, normalize_deny_reason,
}
use captivo_access.Access.Routes.Replies.{
  Caller, Failure, failure, Reply, failed, done, made, Call, signed_in, Console, carry_out, logged,
}
use captivo_access.Audit.Admin.{AdminWriter, AdminAction, AdminLog}
use captivo_access.Access.Routes.Checks.{
  forbidden, GrantEdit, check_new_grant, check_edit, check_removal, check_decision,
}

-- The entry of a handler in the log of administrative actions.
abbrev pub grant_action : Text → Caller → Call → Text → Text → Option Fields → AdminAction
grant_action name admin call id summary metadata = record {
  actor_id = admin.id;
  actor_email = some admin.email;
  action = name;
  target_type = some (lit "grant");
  target_id = some id;
  summary = summary;
  metadata = metadata;
  client_ip = call.client_ip;
}

abbrev pub or_else : {A : Type 0} → Option A → Option A → Option A
or_else none old = old
or_else (some a) old = some a

abbrev pub iso_or_undefined : Option ℕ → Json
iso_or_undefined none = undefined
iso_or_undefined (some d) = str (iso_string d)

abbrev pub edited : GrantEdit → Grant → Grant
edited e g = record g { ends_at = or_else e.ends_at g.ends_at; note = get_or e.note g.note }

-- `{ endsAt: data.endsAt ? data.endsAt.toISOString() : undefined }`.
abbrev pub edit_metadata : GrantEdit → Fields
edit_metadata e = field (lit "endsAt") (iso_or_undefined e.ends_at) end

abbrev pub verdict_name : Verdict → Text
verdict_name approve = lit "grant.approve"
verdict_name deny = lit "grant.deny"

abbrev pub verdict_word : Verdict → Text
verdict_word approve = lit "Approved"
verdict_word deny = lit "Denied"

module _ (writer : AdminWriter) (t : Table Grant) where
  abbrev pub create_and_log : Call → Caller × GrantInput → Console t → Console t × Reply
  create_and_log call (admin, input) s = (
    record {
      grants = create_grant t call.new_id input s.grants;
      log =
          logged writer call
            (grant_action (lit "grant.create") admin call call.new_id
              (lit "Created access grant " ++ call.new_id)
              (some (
                field (lit "userId") (str input.user_id)
                  (field (lit "siteId") (str input.site_id) end))))
            s.log;
    },
    made call.new_id,
  )

  abbrev pub revoke_and_log : Call → Caller × Text → Console t → Console t × Reply
  revoke_and_log call (admin, id) s = (
    record {
      grants = revoke_grant t id s.grants;
      log =
          logged writer call
            (grant_action (lit "grant.revoke") admin call id (lit "Revoked access grant " ++ id)
              none)
            s.log;
    },
    done,
  )

  -- The conditional update, after which `matched` rows were still active.
  abbrev pub finish_edit :
      Call → Text → Caller × GrantEdit → t.Store × ℕ → AdminLog → Console t × Reply
  finish_edit call id (admin, e) (grants, matched) log =
      if matched == 0
      then (record { grants = grants; log = log }, failed (failure 409 (lit "not_active")))
      else (
        record {
          grants = grants;
          log =
              logged writer call
                (grant_action (lit "grant.update") admin call id (lit "Updated access grant " ++ id)
                  (some (edit_metadata e)))
                log;
        },
        done,
      )

  abbrev pub edit_and_log : Call → Text → Caller × GrantEdit → Console t → Console t × Reply
  edit_and_log call id (admin, e) s =
      finish_edit call id (admin, e)
        (t.update_many (λ g. text_eq g.id id && is_active g.status) (edited e) s.grants) s.log

  -- `applyGrantDecision`; `via` is the note that the app adds to the summary.
  abbrev pub finish_decision :
      Call → Text → Caller × Verdict → Text → t.Store × ℕ → AdminLog → Console t × Reply
  finish_decision call id (admin, verdict) via (grants, matched) log =
      if matched == 0
      then (record { grants = grants; log = log }, failed (failure 409 (lit "not_pending")))
      else (
        record {
          grants = grants;
          log =
              logged writer call
                (grant_action (verdict_name verdict) admin call id
                  (verdict_word verdict ++ lit " access request " ++ id ++ via) none)
                log;
        },
        done,
      )

  unfoldable pub apply_grant_decision :
      Call → Text → Json → Text → Caller × Verdict → Console t → Console t × Reply
  apply_grant_decision call id reason via (admin, verdict) s =
      finish_decision call id (admin, verdict) via
        (decide_grant t id verdict admin.id (normalize_deny_reason reason) call.now s.grants) s.log

  -- The handlers.
  unfoldable pub post_grant :
      (Text → Option ℕ) → Intl → Option Caller → Fields → Call → Console t → Console t × Reply
  post_grant date intl caller body call s =
      carry_out t (check_new_grant date intl caller body call) (λ x. create_and_log call x s) s

  unfoldable pub delete_grant : Option Caller → Option Text → Call → Console t → Console t × Reply
  delete_grant caller id call s =
      carry_out t (check_removal caller id) (λ x. revoke_and_log call x s) s

  unfoldable pub patch_grant :
      (Text → Option ℕ) → Option Caller → Text → Fields → Call → Console t → Console t × Reply
  patch_grant date caller id body call s =
      let row = find_first t (λ g. text_eq g.id id) s.grants in
      carry_out t (check_edit date caller body row call) (λ x. edit_and_log call id x s) s

  unfoldable pub post_decision :
      Option Caller → Text → Fields → Call → Console t → Console t × Reply
  post_decision caller id body call s =
      carry_out t (check_decision caller body)
        (λ x. apply_grant_decision call id (get (lit "reason") body) [] x s) s

  -- `GET /api/admin/grants`.
  unfoldable pub get_grants : Option Caller → Console t → Outcome Failure (List Grant)
  get_grants caller s = do
    admin ← signed_in caller
    require (can admin.role read_console) forbidden
    returns (list_grants t s.grants)
