-- ===== src/Tests/Users.antt =====
-- The administration of users at a concrete table: two administrators and two platform operators.
use captivo_access.Prelude.{
  ℕ, ◌≤◌, ◌<◌, ◌≡◌, ◌≢◌, refl, true, false, List, [], ◌∷◌, Option, none, some, Text, lit, text_eq,
  arith,
}
use captivo_access.Prelude.Outcomes.{returns}
use captivo_access.Json.{Num, Fields, field, end, str}
use captivo_access.Database.{Table, tally, find_first}
use captivo_access.Database.ListTable.{list_table}
use captivo_access.Auth.Roles.{Role}
use captivo_access.Access.Evaluate.{UserStatus}
use captivo_access.Access.Routes.Replies.{Caller, Call, failed, failure}
use captivo_access.Users.{
  Person, People, patch_user, delete_user, remove_platform_admin, is_active_operator,
}
use captivo_access.Users.Lockout.{SomeAdmin, users_SomeAdmin}
use captivo_access.Users.Operators.{remove_platform_admin_leaves}
use captivo_access.Audit.Admin.{AdminWriter, compute_admin_hash}

abbrev people : Table Person
people = list_table Person

abbrev person : Text → Role → Person
person id role = record {
  id = id;
  email = id;
  role = role;
  status = UserStatus.active;
  center_role = none;
}

abbrev recorder : AdminWriter
recorder = record { hash = compute_admin_hash (λ s. s) (λ n. []) (λ s. s); column = λ v. v }

abbrev two_admins : People recorder people
two_admins = record {
  users = person (lit "ada") Role.admin ∷ person (lit "bob") Role.admin ∷ [];
  log = record { rows = []; head = none };
}

abbrev ada : Caller
ada = record { id = lit "ada"; email = lit "ada"; role = Role.admin }

abbrev call : Call
call = record {
  now = 1785153600123;
  new_id = [];
  recorded = true;
  max_grant_days = 0;
  require_justification = false;
  client_ip = none;
  users = [];
  sites = [];
}

abbrev disabling : Fields
disabling = field (lit "status") (str (lit "DISABLED")) end

users_SomeAdmin_example :
    SomeAdmin recorder people
      (patch_user recorder people (some ada) (lit "bob") disabling call two_admins).0.users
    × SomeAdmin recorder people
        (delete_user recorder people (some ada) (lit "bob") call two_admins).0.users
unfolding text_eq
users_SomeAdmin_example =
    users_SomeAdmin recorder people (some ada) (lit "bob") disabling call two_admins (omega arith)
      (omega arith)

bob_is_disabled :
    tally people
      (λ p. captivo_access.Access.Evaluate.is_active_user p.status)
      (patch_user recorder people (some ada) (lit "bob") disabling call two_admins).0.users
    ≡ 1
unfolding patch_user captivo_access.Users.check_person_edit captivo_access.Prelude.Outcomes.◌>>=◌
    captivo_access.Auth.Roles.can captivo_access.Json.get text_eq captivo_access.Users.read_status
    captivo_access.Users.status_named captivo_access.Users.read_role
bob_is_disabled = refl

not_herself :
    (patch_user recorder people (some ada) (lit "ada") disabling call two_admins).1
    ≡ failed (failure 403 (lit "cannot_disable_self"))
unfolding patch_user captivo_access.Users.check_person_edit captivo_access.Prelude.Outcomes.◌>>=◌
    captivo_access.Auth.Roles.can captivo_access.Json.get text_eq captivo_access.Users.read_status
    captivo_access.Users.status_named
not_herself = refl

abbrev operators : List Person
operators = person (lit "olga") Role.platform ∷ person (lit "otto") Role.platform ∷ []

abbrev olga : List Person
olga = person (lit "olga") Role.platform ∷ []

remove_platform_admin_leaves_example :
    ((p : Person) × (find_first people (λ p. text_eq p.id (lit "otto")) operators ≡ some p)
      × (p.role ≡ Role.platform))
    × (lit "otto" ≢ lit "olga")
    × (0 < tally people is_active_operator olga)
    × (tally people (λ p. text_eq p.id (lit "otto")) olga ≡ 0)
unfolding text_eq remove_platform_admin captivo_access.Prelude.Outcomes.◌>>=◌
remove_platform_admin_leaves_example =
    remove_platform_admin_leaves people (lit "otto") (lit "olga") operators olga (omega arith) refl
