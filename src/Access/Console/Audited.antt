-- ===== src/Access/Console/Audited.antt =====
-- About the handlers of app/api/admin/grants: replies, changes of grants, and entries in the log.
use captivo_access.Prelude.{
  ℕ, ◌+◌, ◌≡◌, refl, inl, inr, Bool, true, ◌&&◌, [], Option, Text, lit, arith, text_eq, ◌==◌,
  Bool-cases, if◌then◌else◌, length, length-append, ◌∙◌,
}
use captivo_access.Prelude.Outcomes.{Outcome, returns, replies}
use captivo_access.Json.{Json, Fields, get}
use captivo_access.Database.{Table, tally, every}
use captivo_access.Database.Queries.{count_untouched}
use captivo_access.Access.Schedule.{Intl}
use captivo_access.Access.Evaluate.{Grant}
use captivo_access.Access.Grants.{
  is_active, is_pending, Verdict, decided, decide_grant, normalize_deny_reason,
}
use captivo_access.Access.Routes.Replies.{
  Caller, Failure, Reply, failed, done, made, Call, Console, carry_out, logged,
}
use captivo_access.Access.Routes.Checks.{GrantEdit, check_new_grant, check_removal, check_decision}
use captivo_access.Access.Routes.Grants.{
  edited, create_and_log, revoke_and_log, edit_and_log, apply_grant_decision, post_grant,
  delete_grant, patch_grant, post_decision,
}
use captivo_access.Audit.Admin.{AdminWriter, AdminAction, AdminLog, record_admin_action}

module _ (writer : AdminWriter) (t : Table Grant) where
  -- An error changes no grant and writes no entry; a success writes one entry, where the
  -- transaction of the log commits.
  abbrev pub IsAudited : Call → Console t → Console t × Reply → Type 0
  IsAudited call s (s', failed f) =
      (s'.log ≡ s.log) × ((q : Grant → Bool) → tally t q s'.grants ≡ tally t q s.grants)
  IsAudited call s (s', done) =
      length s'.log.rows ≡ length s.log.rows + (if call.recorded then 1 else 0)
  IsAudited call s (s', made id) =
      length s'.log.rows ≡ length s.log.rows + (if call.recorded then 1 else 0)

  length-logged :
      (call : Call) (action : AdminAction) (log : AdminLog)
      → length (logged writer call action log).rows
        ≡ length log.rows + (if call.recorded then 1 else 0)
  unfolding logged record_admin_action
  length-logged call action log = elim (Bool-cases call.recorded) [
    | inl e ↦ rw (e, logged) (length-append log.rows _)
    | inr e ↦ rw (e, logged) (omega arith)
  ]

  carry_out-IsAudited :
      {A : Type 0} (call : Call) (m : Outcome Failure A) (act : A → Console t × Reply)
      (s : Console t)
      → ((a : A) → IsAudited call s (act a))
      → IsAudited call s (carry_out t m act s)
  carry_out-IsAudited call (returns a) act s h = h a
  carry_out-IsAudited call (replies f) act s h = (refl, λ q. refl)

  -- An update that matched no row changes nothing.
  unmatched :
      (p : Grant → Bool) (f : Grant → Grant) (s : t.Store)
      → ((t.update_many p f s).1 == 0) ≡ true
      → (q : Grant → Bool) → tally t q (t.update_many p f s).0 ≡ tally t q s
  unmatched p f s e q =
      let none_matched : (t.update_many p f s).1 ≡ 0 = ground arith in
      t.count-update p f q s
      ∙ count_untouched p f q (t.find_many every s)
          (omega (arith, t.number_updated p f s, none_matched))

  edit_and_log-IsAudited :
      (call : Call) (id : Text) (x : Caller × GrantEdit) (s : Console t)
      → IsAudited call s (edit_and_log writer t call id x s)
  edit_and_log-IsAudited call id (admin, e) s =
      let p = λ (g : Grant). text_eq g.id id && is_active g.status in
      elim (Bool-cases ((t.update_many p (edited e) s.grants).1 == 0)) [
        | inl none_left ↦ rw none_left (refl, unmatched p (edited e) s.grants none_left)
        | inr some_left ↦ rw some_left (length-logged call _ s.log)
      ]

  apply_grant_decision-IsAudited :
      (call : Call) (id : Text) (reason : Json) (via : Text) (x : Caller × Verdict) (s : Console t)
      → IsAudited call s (apply_grant_decision writer t call id reason via x s)
  unfolding apply_grant_decision decide_grant
  apply_grant_decision-IsAudited call id reason via (admin, v) s =
      let p = λ (g : Grant). text_eq g.id id && is_pending g in
      let f = decided v admin.id (normalize_deny_reason reason) call.now in
      elim (Bool-cases ((t.update_many p f s.grants).1 == 0)) [
        | inl none_left ↦ rw none_left (refl, unmatched p f s.grants none_left)
        | inr some_left ↦ rw some_left (length-logged call _ s.log)
      ]

  -- Each of the handlers that administer grants either replies with an error, and then changes no
  -- grant (counted by any condition) and writes no entry, or it succeeds, and then writes exactly one
  -- entry where the transaction of the log commits and none where it does not.
  pub handlers-IsAudited :
      (date : Text → Option ℕ) (intl : Intl) (caller : Option Caller) (body : Fields) (id : Text)
      (removed : Option Text) (call : Call) (s : Console t)
      → IsAudited call s (post_grant writer t date intl caller body call s)
        × IsAudited call s (delete_grant writer t caller removed call s)
        × IsAudited call s (patch_grant writer t date caller id body call s)
        × IsAudited call s (post_decision writer t caller id body call s)
  unfolding post_grant delete_grant patch_grant post_decision
  handlers-IsAudited date intl caller body id removed call s = (
    carry_out-IsAudited call (check_new_grant date intl caller body call)
        (λ x. create_and_log writer t call x s) s (λ x. length-logged call _ s.log),
    carry_out-IsAudited call (check_removal caller removed) (λ x. revoke_and_log writer t call x s)
        s (λ x. length-logged call _ s.log),
    carry_out-IsAudited call _ (λ x. edit_and_log writer t call id x s) s
        (λ x. edit_and_log-IsAudited call id x s),
    carry_out-IsAudited call (check_decision caller body)
        (λ x. apply_grant_decision writer t call id (get (lit "reason") body) [] x s) s
        (λ x. apply_grant_decision-IsAudited call id _ [] x s),
  )
