-- ===== src/Access/Console/Guarded.antt =====
-- About the handlers of app/api/admin/grants and app/api/access/requests: who may call them.
use captivo_access.Prelude.{ℕ, ◌≡◌, ◌≢◌, refl, false, [], Option, none, some, Text, lit, ◌∙◌}
use captivo_access.Prelude.Outcomes.{Outcome, returns, replies, ◌>>=◌}
use captivo_access.Json.{Fields, end}
use captivo_access.Database.{Table}
use captivo_access.Auth.Roles.{Role, Capability, approve_grants, configure, can}
use captivo_access.Access.Schedule.{Intl}
use captivo_access.Access.Evaluate.{Grant, User}
use captivo_access.Access.Grants.Effects.{has_access, create_access_request_gives_no_access}
use captivo_access.Access.Console.{Step, posts, deletes, patches, decides, asks, Reach, here, later}
use captivo_access.Access.Routes.Replies.{
  Caller, Failure, failure, Reply, failed, Call, Console, carry_out,
}
use captivo_access.Access.Routes.Checks.{
  forbidden, check_new_grant, check_edit, check_removal, check_decision,
}
use captivo_access.Access.Routes.Grants.{post_grant, delete_grant, patch_grant, post_decision}
use captivo_access.Access.Routes.Requests.{check_request, ask, post_request}
use captivo_access.Audit.Admin.{AdminWriter}

-- The caller is absent or lacks a capability.
abbrev pub Lacks : Capability → Option Caller → Type 0
Lacks cap none = Unit
Lacks cap (some c) = can c.role cap ≡ false

-- What such a caller is told.
abbrev pub refusal : Option Caller → Reply
refusal none = failed (failure 401 (lit "unauthorized"))
refusal (some c) = failed forbidden

module _ (writer : AdminWriter) (t : Table Grant) (date : Text → Option ℕ) (intl : Intl) where
  -- Without the capability to approve grants the handlers that create, revoke and decide them answer
  -- 401 or 403, and without the capability to configure the one that edits them does.
  refused :
      (caller : Option Caller) (body : Fields) (id : Text) (removed : Option Text) (call : Call)
      (s : Console t)
      → Lacks approve_grants caller
      → Lacks configure caller
      → (post_grant writer t date intl caller body call s ≡ (s, refusal caller))
        × (delete_grant writer t caller removed call s ≡ (s, refusal caller))
        × (post_decision writer t caller id body call s ≡ (s, refusal caller))
        × (patch_grant writer t date caller id body call s ≡ (s, refusal caller))
  unfolding ◌>>=◌ post_grant delete_grant post_decision check_new_grant check_removal check_decision
      patch_grant check_edit
  refused none body id removed call s h k = (refl, refl, refl, refl)
  refused (some c) body id removed call s h k = (rw h refl, rw h refl, rw h refl, rw k refl)

-- The caller is not signed in, or neither an administrator nor an operator.
abbrev pub IsLay : Option Caller → Type 0
IsLay none = Unit
IsLay (some c) = (c.role ≢ Role.admin) × (c.role ≢ Role.operator)

lay_role :
    (r : Role)
    → r ≢ Role.admin
    → r ≢ Role.operator
    → (can r approve_grants ≡ false) × (can r configure ≡ false)
unfolding can
lay_role Role.admin a o = absurd (a refl)
lay_role Role.operator a o = absurd (o refl)
lay_role _ a o = (refl, refl)

lay-Lacks :
    (caller : Option Caller) → IsLay caller → Lacks approve_grants caller × Lacks configure caller
lay-Lacks none h = (tt, tt)
lay-Lacks (some c) (a, o) = lay_role c.role a o

module _ {date : Text → Option ℕ} {intl : Intl} {writer : AdminWriter} {t : Table Grant} where
  -- Every request of the sequence comes from such a caller.
  abbrev pub ByLay : {s s' : Console t} → Step date intl writer t s s' → Type 0
  ByLay (posts caller body call s) = IsLay caller
  ByLay (deletes caller id call s) = IsLay caller
  ByLay (patches caller id body call s) = IsLay caller
  ByLay (decides caller id body call s) = IsLay caller
  ByLay (asks caller body call s) = IsLay caller

  abbrev pub AllLay : {s s' : Console t} → Reach date intl writer t s s' → Type 0
  AllLay here = Unit
  AllLay (later r st) = AllLay r × ByLay st

module _ (intl : Intl) (t : Table Grant) (now : ℕ) (users : Table User) (us : users.Store)
    (u v : Text) where
  abbrev Same : Console t → Console t → Type 0
  Same s s' =
      (has_access intl now users t us u v s'.grants ≡ has_access intl now users t us u v s.grants)
      × (s'.log ≡ s.log)

  unmoved : (s : Console t) (r : Reply) (x : Console t × Reply) → x ≡ (s, r) → Same s x.0
  unmoved s r x e = rw e (refl, refl)

  carry_out-Same :
      {A : Type 0} (m : Outcome Failure A) (act : A → Console t × Reply) (s : Console t)
      → ((a : A) → Same s (act a).0)
      → Same s (carry_out t m act s).0
  carry_out-Same (returns a) act s h = h a
  carry_out-Same (replies f) act s h = (refl, refl)

module _ (date : Text → Option ℕ) (intl : Intl) (writer : AdminWriter) (t : Table Grant) (now : ℕ)
    (users : Table User) (us : users.Store) (u v : Text) where
  Step-Same :
      {s s' : Console t} (st : Step date intl writer t s s')
      → ByLay st
      → Same intl t now users us u v s s'
  unfolding post_request
  Step-Same (posts caller body call s) lay =
      let (a, c) = lay-Lacks caller lay in
      unmoved intl t now users us u v s _ _
        (refused writer t date intl caller body [] none call s a c).0
  Step-Same (deletes caller id call s) lay =
      let (a, c) = lay-Lacks caller lay in
      unmoved intl t now users us u v s _ _
        (refused writer t date intl caller end [] id call s a c).1
  Step-Same (decides caller id body call s) lay =
      let (a, c) = lay-Lacks caller lay in
      unmoved intl t now users us u v s _ _
        (refused writer t date intl caller body id none call s a c).2
  Step-Same (patches caller id body call s) lay =
      let (a, c) = lay-Lacks caller lay in
      unmoved intl t now users us u v s _ _
        (refused writer t date intl caller body id none call s a c).3
  Step-Same (asks caller body call s) lay =
      carry_out-Same intl t now users us u v (check_request date intl t caller body call s.grants)
        (λ input. ask date intl t call input s) s
        (λ input. (
          create_access_request_gives_no_access intl now users t us u v call.new_id input s.grants,
          refl,
        ))

-- Whatever is sent to the handlers, in any order, by callers who are neither administrators nor
-- operators or not signed in: the access of no user to no site changes, at no instant, and nothing is
-- written to the log of administrative actions.
pub approvers_only :
    (date : Text → Option ℕ) (intl : Intl) (writer : AdminWriter) (t : Table Grant)
    {s s' : Console t} (r : Reach date intl writer t s s') (now : ℕ) (users : Table User)
    (us : users.Store) (u v : Text)
    → AllLay r
    → (has_access intl now users t us u v s'.grants ≡ has_access intl now users t us u v s.grants)
      × (s'.log ≡ s.log)
approvers_only date intl writer t here now users us u v lay = (refl, refl)
approvers_only date intl writer t (later r st) now users us u v (lays, lay) =
    let (access, log) = approvers_only date intl writer t r now users us u v lays in
    let (access', log') = Step-Same date intl writer t now users us u v st lay in
    (access' ∙ access, log' ∙ log)
