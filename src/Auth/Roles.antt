-- ===== src/Auth/Roles.antt =====
-- lib/auth/roles.ts: the capabilities of each role.
use captivo_access.Prelude.{◌≡◌, ◌↔◌, Bool, true, false, not, ◌&&◌, List, [], ◌∷◌, arith, any}

pub data Role : Type 0 where
  admin operator auditor staff vendor platform : Role

pub data Capability : Type 0 where
  configure approve_grants read_console manage_tenants : Capability

-- `ROLE_CAPS`.
abbrev pub role_caps : Role → List Capability
role_caps admin = configure ∷ approve_grants ∷ read_console ∷ []
role_caps operator = approve_grants ∷ read_console ∷ []
role_caps auditor = read_console ∷ []
role_caps staff = []
role_caps vendor = []
role_caps platform = manage_tenants ∷ []

abbrev pub same_cap : Capability → Capability → Bool
same_cap configure configure = true
same_cap approve_grants approve_grants = true
same_cap read_console read_console = true
same_cap manage_tenants manage_tenants = true
same_cap _ _ = false

unfoldable pub can : Role → Capability → Bool
can role cap = any (same_cap cap) (role_caps role)

unfoldable pub is_console_user : Role → Bool
is_console_user role = any (same_cap read_console) (role_caps role)

abbrev pub assignable_roles : List Role
assignable_roles = admin ∷ operator ∷ auditor ∷ staff ∷ vendor ∷ []

abbrev pub same_role : Role → Role → Bool
same_role admin admin = true
same_role operator operator = true
same_role auditor auditor = true
same_role staff staff = true
same_role vendor vendor = true
same_role platform platform = true
same_role _ _ = false

pub same_role_iff : (a b : Role) → (same_role a b ≡ true) ↔ (a ≡ b)
same_role_iff admin b = (λ h. ground arith, λ h. ground arith)
same_role_iff _ b = (λ h. ground arith, λ h. ground arith)

-- No role may configure without approving, approve without reading the console, or both manage
-- tenants and read a tenant's console; and the console users are those who may read it.
pub capabilities_nest :
    (r : Role)
    → ((can r configure && not (can r approve_grants)) ≡ false)
      × ((can r approve_grants && not (can r read_console)) ≡ false)
      × (is_console_user r ≡ can r read_console)
      × ((can r manage_tenants && is_console_user r) ≡ false)
unfolding can is_console_user
capabilities_nest admin = ground arith
capabilities_nest _ = ground arith
