-- ===== src/Access/Console/Reachable.antt =====
-- About sequences of requests to the handlers of app/api/admin/grants and app/api/access/requests.
use captivo_access.Prelude.{
  ℕ, inl, inr, ◌&&◌, [], Option, Text, lit, arith, text_eq, ◌==◌, Bool-cases,
}
use captivo_access.Prelude.Outcomes.{Outcome, returns, replies}
use captivo_access.Json.{Json, Num, get}
use captivo_access.Database.{Table}
use captivo_access.Access.Schedule.{Intl}
use captivo_access.Access.Evaluate.{Grant}
use captivo_access.Access.Grants.{is_active, Verdict, normalize_deny_reason}
use captivo_access.Access.Grants.Pending.{
  AtMostOnePending, update-AtMostOnePending, decide_grant-AtMostOnePending,
  revoke_grant-AtMostOnePending, create_grant-AtMostOnePending,
  create_access_request-AtMostOnePending,
}
use captivo_access.Access.Routes.Replies.{Caller, Failure, Reply, Call, Console, carry_out, logged}
use captivo_access.Access.Routes.Checks.{GrantEdit}
use captivo_access.Access.Routes.Grants.{
  edited, edit_and_log, finish_edit, finish_decision, apply_grant_decision, post_grant,
  delete_grant, patch_grant, post_decision,
}
use captivo_access.Access.Routes.Requests.{post_request}
use captivo_access.Access.Console.{Step, posts, deletes, patches, decides, asks, Reach, here, later}
use captivo_access.Audit.Admin.{AdminAction, AdminLog, AdminWriter}
use captivo_access.Audit.Admin.Records.{IsAdminWritten, writer, record_admin_action-IsAdminWritten}

module _ (quote : Text → Text) (number_text : Num → Text) (sha : Text → Text) (column : Json → Json)
    (t : Table Grant) where
  abbrev recorder : AdminWriter
  recorder = writer quote number_text sha column

  -- At most one pending request per user and site, and a log whose rows are what the JSON column gives
  -- back of a chain up to its head.
  pub record IsConsistent (s : Console t) : Type 0 where
    pub one_pending : AtMostOnePending t s.grants
    pub recorded : IsAdminWritten quote number_text sha column s.log

  logged-IsAdminWritten :
      (call : Call) (action : AdminAction) (log : AdminLog)
      → IsAdminWritten quote number_text sha column log
      → IsAdminWritten quote number_text sha column (logged recorder call action log)
  unfolding logged
  logged-IsAdminWritten call action log h = elim (Bool-cases call.recorded) [
    | inl e ↦
        rw (e, logged)
          (record_admin_action-IsAdminWritten quote number_text sha column call.now action log h)
    | inr e ↦ rw (e, logged) h
  ]

  carry_out-IsConsistent :
      {A : Type 0} (m : Outcome Failure A) (act : A → Console t × Reply) (s : Console t)
      → ((a : A) → IsConsistent (act a).0)
      → IsConsistent s
      → IsConsistent (carry_out t m act s).0
  carry_out-IsConsistent (returns a) act s keep h = keep a
  carry_out-IsConsistent (replies r) act s keep h = h

  edited-AtMostOnePending :
      (id : Text) (e : GrantEdit) (s : t.Store)
      → AtMostOnePending t s
      → AtMostOnePending t
          (t.update_many (λ g. text_eq g.id id && is_active g.status) (edited e) s).0
  edited-AtMostOnePending id e s h =
      update-AtMostOnePending t (λ g. text_eq g.id id && is_active g.status) (edited e) s
        (λ u v g p. ground arith) h

  edit-IsConsistent :
      (call : Call) (id : Text) (x : Caller × GrantEdit) (grants : t.Store) (matched : ℕ)
      (log : AdminLog)
      → AtMostOnePending t grants
      → IsAdminWritten quote number_text sha column log
      → IsConsistent (finish_edit recorder t call id x (grants, matched) log).0
  edit-IsConsistent call id (admin, e) grants matched log h k = elim (Bool-cases (matched == 0)) [
    | inl none_left ↦ rw none_left (record { one_pending = h; recorded = k })
    | inr some_left ↦
        rw some_left (record { one_pending = h; recorded = logged-IsAdminWritten call _ log k })
  ]

  decision-IsConsistent :
      (call : Call) (id : Text) (x : Caller × Verdict) (via : Text) (grants : t.Store) (matched : ℕ)
      (log : AdminLog)
      → AtMostOnePending t grants
      → IsAdminWritten quote number_text sha column log
      → IsConsistent (finish_decision recorder t call id x via (grants, matched) log).0
  decision-IsConsistent call id (admin, v) via grants matched log h k =
      elim (Bool-cases (matched == 0)) [
        | inl none_left ↦ rw none_left (record { one_pending = h; recorded = k })
        | inr some_left ↦
            rw some_left (record { one_pending = h; recorded = logged-IsAdminWritten call _ log k })
      ]

  edit_and_log-IsConsistent :
      (call : Call) (id : Text) (x : Caller × GrantEdit) (s : Console t)
      → IsConsistent s
      → IsConsistent (edit_and_log recorder t call id x s).0
  edit_and_log-IsConsistent call id (admin, e) s h =
      edit-IsConsistent call id (admin, e) _ _ s.log
        (edited-AtMostOnePending id e s.grants h.one_pending) h.recorded

  apply_grant_decision-IsConsistent :
      (call : Call) (id : Text) (reason : Json) (via : Text) (x : Caller × Verdict) (s : Console t)
      → IsConsistent s
      → IsConsistent (apply_grant_decision recorder t call id reason via x s).0
  unfolding apply_grant_decision
  apply_grant_decision-IsConsistent call id reason via (admin, v) s h =
      decision-IsConsistent call id (admin, v) via _ _ s.log
        (decide_grant-AtMostOnePending t id v admin.id (normalize_deny_reason reason) call.now
          s.grants h.one_pending)
        h.recorded

  module _ (date : Text → Option ℕ) (intl : Intl) where
    Step-IsConsistent :
        {s s' : Console t} → Step date intl recorder t s s' → IsConsistent s → IsConsistent s'
    unfolding post_grant delete_grant patch_grant post_decision post_request
    Step-IsConsistent (posts caller body call s) h =
        carry_out-IsConsistent _ _ s
          (λ (admin, input). record {
            one_pending = create_grant-AtMostOnePending t call.new_id input s.grants h.one_pending;
            recorded = logged-IsAdminWritten call _ s.log h.recorded;
          })
          h
    Step-IsConsistent (deletes caller id call s) h =
        carry_out-IsConsistent _ _ s
          (λ (admin, i). record {
            one_pending = revoke_grant-AtMostOnePending t i s.grants h.one_pending;
            recorded = logged-IsAdminWritten call _ s.log h.recorded;
          })
          h
    Step-IsConsistent (patches caller id body call s) h =
        carry_out-IsConsistent _ (λ x. edit_and_log recorder t call id x s) s
          (λ x. edit_and_log-IsConsistent call id x s h) h
    Step-IsConsistent (decides caller id body call s) h =
        let reason = get (lit "reason") body in
        carry_out-IsConsistent _ (λ x. apply_grant_decision recorder t call id reason [] x s) s
          (λ x. apply_grant_decision-IsConsistent call id reason [] x s h) h
    Step-IsConsistent (asks caller body call s) h =
        carry_out-IsConsistent _ _ s
          (λ input. record {
            one_pending =
                create_access_request-AtMostOnePending t call.new_id input s.grants h.one_pending;
            recorded = h.recorded;
          })
          h

-- Whatever callers send to the handlers, in any order: from a state in which no user has two
-- pending requests for one site and the log of administrative actions is what the JSON column gives
-- back of a chain up to its head, every state that is reached is one again. (The column drops an
-- `undefined` property, so the rows themselves need not be a chain.)
pub Reach-IsConsistent :
    (quote : Text → Text) (number_text : Num → Text) (sha : Text → Text) (column : Json → Json)
    (t : Table Grant) (date : Text → Option ℕ) (intl : Intl) {s s' : Console t}
    → IsConsistent quote number_text sha column t s
    → Reach date intl (writer quote number_text sha column) t s s'
    → IsConsistent quote number_text sha column t s'
Reach-IsConsistent quote number_text sha column t date intl h here = h
Reach-IsConsistent quote number_text sha column t date intl h (later r st) =
    Step-IsConsistent quote number_text sha column t date intl st
      (Reach-IsConsistent quote number_text sha column t date intl h r)
