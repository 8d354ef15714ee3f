-- ===== src/Access/Console.antt =====
-- The grants and the log of administrative actions under the handlers of app/api/admin/grants and
-- app/api/access/requests: any caller sends any request at any time, one after the other.
pub mod Audited
pub mod Guarded
pub mod Reachable
pub mod Windows
use captivo_access.Prelude.{ℕ, Option, Text}
use captivo_access.Json.{Fields}
use captivo_access.Database.{Table}
use captivo_access.Access.Schedule.{Intl}
use captivo_access.Access.Evaluate.{Grant}
use captivo_access.Access.Routes.Replies.{Caller, Call, Console}
use captivo_access.Access.Routes.Grants.{post_grant, delete_grant, patch_grant, post_decision}
use captivo_access.Access.Routes.Requests.{post_request}
use captivo_access.Audit.Admin.{AdminWriter}

module _ (date : Text → Option ℕ) (intl : Intl) (writer : AdminWriter) (t : Table Grant) where
  pub data Step : Console t → Console t → Type 0 where
    posts :
        (caller : Option Caller) (body : Fields) (call : Call) (s : Console t)
        → Step s (post_grant writer t date intl caller body call s).0
    deletes :
        (caller : Option Caller) (id : Option Text) (call : Call) (s : Console t)
        → Step s (delete_grant writer t caller id call s).0
    patches :
        (caller : Option Caller) (id : Text) (body : Fields) (call : Call) (s : Console t)
        → Step s (patch_grant writer t date caller id body call s).0
    decides :
        (caller : Option Caller) (id : Text) (body : Fields) (call : Call) (s : Console t)
        → Step s (post_decision writer t caller id body call s).0
    asks :
        (caller : Option Caller) (body : Fields) (call : Call) (s : Console t)
        → Step s (post_request date intl t caller body call s).0

  pub data Reach (s : Console t) : Console t → Type 0 where
    here : Reach s s
    later : {u v : Console t} → Reach s u → Step u v → Reach s v
