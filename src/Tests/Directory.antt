-- ===== src/Tests/Directory.antt =====
-- Directory sign-ins at concrete inputs: one user with one grant of the directory and one mapping.
use captivo_access.Prelude.{
  ℕ, ◌+◌, ◌≤◌, ◌<◌, ◌≡◌, ◌↔◌, inl, inr, refl, Bool, true, false, not, ◌&&◌, List, [], ◌∷◌, Option,
  none, some, Text, lit, text_eq, contains, any, arith, Any,
}
use captivo_access.Database.{Table, tally}
use captivo_access.Database.ListTable.{list_table}
use captivo_access.Access.Evaluate.{Grant}
use captivo_access.Access.Grants.{is_active}
use captivo_access.Auth.Roles.{Role}
use captivo_access.Directory.Reconcile.{
  ConsoleRole, Target, role_target, site_target, Mapping, role_rank, to_role, matches,
  compute_reconcile,
}
use captivo_access.Directory.Reconcile.Rank.{
  gives_site, compute_reconcile-highest, compute_reconcile-sites,
}
use captivo_access.Directory.Sync.{
  DirectoryRow, DirectoryUser, DirectoryConfig, Answer, threw, absent, present, State,
  provisioned_grant, provision_grants, is_connected, is_throttled, should_skip_sync,
  sync_user_at_login,
}
use captivo_access.Directory.Sync.Provision.{holds, provision_grants_iff, provision_grants_keeps}
use captivo_access.Directory.Sync.Outcome.{sync_fails_open, sync_refuses_iff, sync_refused-NoGrant}

abbrev users : Table DirectoryRow
users = list_table DirectoryRow

abbrev grants : Table Grant
grants = list_table Grant

abbrev same : Text → Text
same s = s

abbrev admins : Mapping
admins = record { target = role_target ConsoleRole.admin; group_dn = lit "admins"; enabled = true }

abbrev wiki_users : Mapping
wiki_users = record {
  target = site_target (lit "wiki");
  group_dn = lit "cn=wiki,dc=corp";
  enabled = true;
}

abbrev mappings : List Mapping
mappings = admins ∷ wiki_users ∷ []

abbrev groups : List Text
groups = lit "cn=admins,dc=corp" ∷ []

abbrev held : List Grant
held = provisioned_grant (lit "g1") (lit "alice") (lit "shop") ∷ []

abbrev alice : DirectoryUser
alice = record {
  id = lit "alice";
  email = lit "alice@example.com";
  role = Role.staff;
  directory_managed = true;
}

abbrev connected : Option DirectoryConfig
connected = some (record { enabled = true; connector_id = some (lit "c1") })

abbrev before : State users grants
before = record { users = []; grants = held; events = [] }

admins_match : matches same groups admins ≡ true
unfolding captivo_access.Directory.Reconcile.is_bare_name captivo_access.Prelude.trim text_eq
    captivo_access.Directory.Reconcile.cn_of
admins_match = refl

compute_reconcile-highest_example :
    let decision = compute_reconcile same groups mappings true in
    (decision.deprovision ≡ false)
    × ((top : ConsoleRole) × (decision.role ≡ some (to_role top))
        × (role_rank ConsoleRole.admin ≤ role_rank top)
        × Any (λ x. (matches same groups x ≡ true) × (x.target ≡ role_target top)) mappings)
compute_reconcile-highest_example =
    compute_reconcile-highest same groups mappings true admins ConsoleRole.admin (inl refl)
      admins_match refl

compute_reconcile-sites_example :
    contains (compute_reconcile same groups mappings true).grant_site_ids (lit "wiki")
    ≡ any (λ m. matches same groups m && gives_site (lit "wiki") m.target) mappings
compute_reconcile-sites_example = compute_reconcile-sites same groups mappings true (lit "wiki")

provision_grants_example :
    0
      < tally grants
          (holds grants (lit "alice") (lit "wiki"))
          (provision_grants grants same (lit "alice") (lit "wiki" ∷ []) held)
    ↔ contains (lit "wiki" ∷ []) (lit "wiki") ≡ true
provision_grants_example =
    provision_grants_iff grants same (lit "alice") (lit "wiki" ∷ []) held (lit "wiki")

provision_grants_keeps_example :
    tally grants
      (λ g. not g.directory_managed && is_active g.status)
      (provision_grants grants same (lit "alice") (lit "wiki" ∷ []) held)
    ≡ tally grants (λ g. not g.directory_managed && is_active g.status) held
provision_grants_keeps_example =
    provision_grants_keeps grants same (lit "alice") (lit "wiki" ∷ []) held
      (λ g. is_active g.status)

sync_fails_open_example :
    sync_user_at_login users grants same same connected 300000 threw mappings alice 1000 before
    ≡ (before, false)
sync_fails_open_example =
    sync_fails_open users grants same same connected 300000 threw mappings alice 1000 before refl

not_throttled : is_throttled users grants 300000 (lit "alice") 1000 before ≡ false
unfolding should_skip_sync
not_throttled = refl

sync_refuses_example :
    (sync_user_at_login users grants same same connected 300000 absent mappings alice 1000 before).1
    ≡ (true && not (any (matches same []) mappings))
sync_refuses_example =
    sync_refuses_iff users grants same same connected 300000 absent mappings alice 1000 before []
      refl not_throttled refl

alice_refused :
    (sync_user_at_login users grants same same connected 300000 absent mappings alice 1000 before).1
    ≡ true
unfolding sync_user_at_login should_skip_sync captivo_access.Directory.Sync.apply_decision
    compute_reconcile captivo_access.Directory.Reconcile.is_bare_name captivo_access.Prelude.trim
alice_refused = refl

sync_refused_example :
    tally grants
      (λ g. text_eq g.user_id (lit "alice") && is_active g.status)
      (sync_user_at_login users grants same same connected 300000 absent mappings alice 1000
        before).0.grants
    ≡ 0
sync_refused_example =
    sync_refused-NoGrant users grants same same connected 300000 absent mappings alice 1000 before
      alice_refused
