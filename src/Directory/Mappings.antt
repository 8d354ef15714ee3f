-- ===== src/Directory/Mappings.antt =====
-- lib/directory/mappings.ts: the table of group mappings. A failure of the database in the lists is
-- an empty list in the code; here the table answers.
use captivo_access.Prelude.{
  Bool, true, false, List, [], ◌∷◌, Option, none, some, Text, text_eq, is_empty, any, trim, get_or,
  if◌then◌else◌, is_some,
}
use captivo_access.Database.{Table, every}
use captivo_access.Auth.Roles.{Role, same_role}
use captivo_access.Directory.Reconcile.{
  ConsoleRole, Target, role_target, site_target, Mapping, to_role,
}

pub data Kind : Type 0 where
  role_kind site_kind : Kind

pub record MappingRow : Type 0 where
  pub id : Text
  pub group_dn : Text
  pub kind : Kind
  pub role : Option Role
  pub site_id : Option Text
  pub enabled : Bool

-- `CONSOLE_ROLES.includes(role)`, with the role it is.
abbrev pub console_role : Role → Option ConsoleRole
console_role Role.admin = some ConsoleRole.admin
console_role Role.operator = some ConsoleRole.operator
console_role Role.auditor = some ConsoleRole.auditor
console_role _ = none

abbrev pub row_target : Kind → Option Role → Option Text → Option Target
row_target role_kind none site = none
row_target role_kind (some r) site = elim (console_role r) [
  | none ↦ none
  | some c ↦ some (role_target c)
]
row_target site_kind role none = none
row_target site_kind role (some id) = if is_empty id then none else some (site_target id)

-- The loop of `listGroupMappingsLite`.
abbrev pub lite_rows : List MappingRow → List Mapping
lite_rows [] = []
lite_rows (r ∷ rs) =
    let rest = lite_rows rs in
    elim (row_target r.kind r.role r.site_id) [
      | none ↦ rest
      | some target ↦ record { target = target; group_dn = r.group_dn; enabled = r.enabled } ∷ rest
    ]

pub record MappingInput : Type 0 where
  pub group_dn : Text
  pub kind : Kind
  pub role : Option ConsoleRole
  pub site_id : Option Text
  pub enabled : Bool

pub data MappingError : Type 0 where
  dn_required role_required site_required already_mapped : MappingError

abbrev pub target_missing : MappingInput → Option MappingError
target_missing input = elim input.kind [
  | role_kind ↦ if is_some input.role then none else some role_required
  | site_kind ↦ if is_empty (get_or input.site_id []) then some site_required else none
]

abbrev pub same_opt_role : Option Role → Option ConsoleRole → Bool
same_opt_role (some r) (some c) = same_role r (to_role c)
same_opt_role none none = true
same_opt_role _ _ = false

abbrev pub same_opt_site : Option Text → Option Text → Bool
same_opt_site (some a) (some b) = text_eq a b
same_opt_site none none = true
same_opt_site _ _ = false

abbrev pub same_target : MappingInput → MappingRow → Bool
same_target input e = elim input.kind [
  | role_kind ↦ elim e.kind [ role_kind ↦ same_opt_role e.role input.role | site_kind ↦ false ]
  | site_kind ↦ elim e.kind [
    | role_kind ↦ false
    | site_kind ↦ same_opt_site e.site_id input.site_id
  ]
]

abbrev pub opt_to_role : Option ConsoleRole → Option Role
opt_to_role none = none
opt_to_role (some c) = some (to_role c)

unfoldable pub new_mapping : Text → Text → MappingInput → MappingRow
new_mapping id dn input = record {
  id = id;
  group_dn = dn;
  kind = input.kind;
  role = elim input.kind [ role_kind ↦ opt_to_role input.role | site_kind ↦ none ];
  site_id = elim input.kind [ role_kind ↦ none | site_kind ↦ input.site_id ];
  enabled = input.enabled;
}

-- The fields of an update; an absent one is `none`, a null one `some none`.
pub record MappingPatch : Type 0 where
  pub group_dn : Option Text
  pub role : Option (Option ConsoleRole)
  pub site_id : Option (Option Text)
  pub enabled : Option Bool

abbrev pub patched_role : Option (Option ConsoleRole) → Option Role → Option Role
patched_role none old = old
patched_role (some r) old = opt_to_role r

abbrev pub patched_dn : Option Text → Text → Text
patched_dn none old = old
patched_dn (some dn) old = trim dn

unfoldable pub patched : MappingPatch → MappingRow → MappingRow
patched p r = record r {
  group_dn = patched_dn p.group_dn r.group_dn;
  role = patched_role p.role r.role;
  site_id = get_or p.site_id r.site_id;
  enabled = get_or p.enabled r.enabled;
}

module _ (t : Table MappingRow) where
  unfoldable pub list_group_mappings : t.Store → List MappingRow
  list_group_mappings s = t.find_many every s

  unfoldable pub list_group_mappings_lite : t.Store → List Mapping
  list_group_mappings_lite s = lite_rows (t.find_many every s)

  unfoldable pub create_group_mapping :
      Text → MappingInput → t.Store → t.Store × Option MappingError
  create_group_mapping id input s =
      let dn = trim input.group_dn in
      if is_empty dn then (s, some dn_required) else elim (target_missing input) [
        | some error ↦ (s, some error)
        | none ↦
            if any (same_target input) (t.find_many (λ e. text_eq e.group_dn dn) s)
            then (s, some already_mapped)
            else (t.create (new_mapping id dn input) s, none)
      ]

  unfoldable pub update_group_mapping : Text → MappingPatch → t.Store → t.Store
  update_group_mapping id p s = (t.update_many (λ r. text_eq r.id id) (patched p) s).0

  unfoldable pub delete_group_mapping : Text → t.Store → t.Store
  delete_group_mapping id s = (t.delete_many (λ r. text_eq r.id id) s).0
