-- ===== src/Tests/Console.antt =====
-- The handlers of grants and requests at concrete calls: an administrator, a vendor and one site.
use captivo_access.Prelude.{
  ℕ, ◌+◌, ◌≡◌, refl, Bool, true, false, List, [], ◌∷◌, Option, none, some, Text, lit, arith, length,
  if◌then◌else◌,
}
use captivo_access.Json.{Num, Fields, field, end, str}
use captivo_access.Database.{Table, tally}
use captivo_access.Database.ListTable.{list_table}
use captivo_access.Auth.Roles.{Role, approve_grants, configure}
use captivo_access.Access.Schedule.{Intl}
use captivo_access.Access.Evaluate.{Grant, User, UserStatus}
use captivo_access.Access.Grants.Effects.{has_access}
use captivo_access.Access.Routes.Replies.{Caller, Call, Console}
use captivo_access.Access.Routes.Grants.{post_grant, delete_grant, patch_grant, post_decision}
use captivo_access.Access.Routes.Requests.{post_request}
use captivo_access.Access.Console.{Reach, here, later, posts, decides, asks}
use captivo_access.Access.Console.Guarded.{IsLay, approvers_only}
use captivo_access.Access.Console.Audited.{IsAudited, handlers-IsAudited}
use captivo_access.Access.Console.Windows.{is_beyond, windows_within_cap}
use captivo_access.Access.Console.Reachable.{IsConsistent, Reach-IsConsistent}
use captivo_access.Audit.Admin.{AdminWriter}
use captivo_access.Audit.Admin.Records.{writer}

abbrev grants : Table Grant
grants = list_table Grant

abbrev users : Table User
users = list_table User

abbrev undated : Text → Option ℕ
undated s = none

-- No time zone is known.
abbrev zoneless : Intl
zoneless = record { accepts = λ s. false; format_to_parts = λ tz now. [] }

abbrev root : Caller
root = record { id = lit "root"; email = lit "root@example.com"; role = Role.admin }

abbrev vera : Caller
vera = record { id = lit "vera"; email = lit "vera@example.com"; role = Role.vendor }

abbrev call : Call
call = record {
  now = 1785153600123;
  new_id = lit "g1";
  recorded = true;
  max_grant_days = 0;
  require_justification = false;
  client_ip = none;
  users = lit "vera" ∷ [];
  sites = lit "wiki" ∷ [];
}

abbrev new_grant : Fields
new_grant = field (lit "userId") (str (lit "vera")) (field (lit "siteId") (str (lit "wiki")) end)

abbrev wish : Fields
wish = field (lit "siteId") (str (lit "wiki")) end

abbrev empty : Console grants
empty = record { grants = []; log = record { rows = []; head = none } }

abbrev plain : Text → Text
plain s = s

abbrev blank : Num → Text
blank n = []

-- A column that gives back every value as it was.
abbrev recorder : AdminWriter
recorder = writer plain blank plain (λ v. v)

handlers-IsAudited_example :
    IsAudited recorder grants call empty
      (post_grant recorder grants undated zoneless (some root) new_grant call empty)
    × IsAudited recorder grants call empty
        (delete_grant recorder grants (some root) (some (lit "g1")) call empty)
    × IsAudited recorder grants call empty
        (patch_grant recorder grants undated (some root) (lit "g1") new_grant call empty)
    × IsAudited recorder grants call empty
        (post_decision recorder grants (some root) (lit "g1") new_grant call empty)
handlers-IsAudited_example =
    handlers-IsAudited recorder grants undated zoneless (some root) new_grant (lit "g1")
      (some (lit "g1")) call empty

windows_within_cap_example :
    (tally grants
        (is_beyond call)
        (post_grant recorder grants undated zoneless (some root) new_grant call empty).0.grants
      ≡ 0)
    × (tally grants
          (is_beyond call)
          (post_request undated zoneless grants (some root) new_grant call empty).0.grants
        ≡ 0)
windows_within_cap_example =
    windows_within_cap recorder grants undated zoneless (some root) new_grant call empty

empty-IsConsistent : IsConsistent plain blank plain (λ v. v) grants empty
empty-IsConsistent = record {
  one_pending = λ u v. omega arith;
  recorded = record {
    purged = 0;
    before = [];
    written = [];
    given_back = refl;
    chain = record { linked = tt; numbered = tt; ends_hash = refl; ends_seq = refl };
  };
}

abbrev asked : Console grants
asked = (post_request undated zoneless grants (some vera) wish call empty).0

Reach-IsConsistent_example :
    IsConsistent plain blank plain
      (λ v. v)
      grants
      (post_grant recorder grants undated zoneless (some root) new_grant call asked).0
Reach-IsConsistent_example =
    Reach-IsConsistent plain blank plain (λ v. v) grants undated zoneless empty-IsConsistent
      (later (later here (asks (some vera) wish call empty))
        (posts (some root) new_grant call asked))

abbrev vera_row : User
vera_row = record { id = lit "vera"; status = UserStatus.active }

abbrev after_decision : Console grants
after_decision = (post_decision recorder grants (some vera) (lit "g1") new_grant call asked).0

-- The vendor asks for a grant and tries to decide and to create one.
abbrev by_vera :
    Reach undated zoneless recorder grants empty
      (post_grant recorder grants undated zoneless (some vera) new_grant call after_decision).0
by_vera =
    later
      (later (later here (asks (some vera) wish call empty))
        (decides (some vera) (lit "g1") new_grant call asked))
      (posts (some vera) new_grant call after_decision)

vendor-IsLay : IsLay (some vera)
vendor-IsLay = ((λ e. absurd cc), (λ e. absurd cc))

approvers_only_example :
    let s =
      (post_grant recorder grants undated zoneless (some vera) new_grant call after_decision).0 in
    (has_access zoneless 2000 users grants (vera_row ∷ []) (lit "vera") (lit "wiki") s.grants
      ≡ has_access zoneless 2000 users grants (vera_row ∷ []) (lit "vera") (lit "wiki") [])
    × (s.log ≡ record { rows = []; head = none })
approvers_only_example =
    approvers_only undated zoneless recorder grants by_vera 2000 users (vera_row ∷ []) (lit "vera")
      (lit "wiki") (((tt, vendor-IsLay), vendor-IsLay), vendor-IsLay)

-- The calls do what they are meant to.
new_grant_runs :
    (post_grant recorder grants undated zoneless (some root) new_grant call empty).1
    ≡ captivo_access.Access.Routes.Replies.made (lit "g1")
unfolding post_grant captivo_access.Access.Routes.Checks.check_new_grant
    captivo_access.Prelude.Outcomes.◌>>=◌ captivo_access.Auth.Roles.can
    captivo_access.Json.trimmed_string captivo_access.Json.get captivo_access.Prelude.text_eq
    captivo_access.Prelude.trim captivo_access.Access.Routes.Replies.parse_date
    captivo_access.Access.Grants.grant_cap_error captivo_access.Access.Routes.Replies.read_schedule
new_grant_runs = refl

asked_runs : length asked.grants ≡ 1
unfolding post_request captivo_access.Access.Routes.Requests.check_request
    captivo_access.Prelude.Outcomes.◌>>=◌ captivo_access.Json.trimmed_string captivo_access.Json.get
    captivo_access.Prelude.text_eq captivo_access.Prelude.trim
    captivo_access.Access.Routes.Replies.parse_date captivo_access.Access.Grants.grant_cap_error
    captivo_access.Access.Routes.Replies.read_schedule captivo_access.Access.Grants.holds_site
    captivo_access.Access.Grants.create_access_request
asked_runs = refl
