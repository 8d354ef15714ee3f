-- ===== src/Erasure.antt =====
-- lib/recording/erasure.ts: recordings whose content lies on the connectors. The rows are those of
-- the tenant; the sites and the clock are arguments.
pub mod Pending
use captivo_access.Prelude.{
  ℕ, ◌+◌, ◌*◌, Bool, true, false, not, ◌&&◌, List, [], ◌∷◌, ◌++◌, Option, none, some, Text, text_eq,
  contains, is_some, is_empty, ltb, ◌==◌, length, find?, if◌then◌else◌,
}
use captivo_access.Database.{Table, find_first}

pub record Recording : Type 0 where
  pub id : Text
  pub recording_key : Text
  pub site_id : Text
  pub last_event_at : ℕ
  pub purge_pending_at : Option ℕ

pub record SiteConnector : Type 0 where
  pub id : Text
  pub connector_id : Option Text

abbrev pub is_pending : Recording → Bool
is_pending r = is_some r.purge_pending_at

-- `connectorBySite.get(siteId)`, where it is truthy.
abbrev pub truthy : Option Text → Option Text
truthy none = none
truthy (some c) = if is_empty c then none else some c

abbrev pub connector_of : List SiteConnector → Text → Option Text
connector_of sites site_id = elim (find? (λ s. text_eq s.id site_id) sites) [
  | none ↦ none
  | some s ↦ truthy s.connector_id
]

-- The map from connectors to their keys, as the list of its entries.
abbrev pub Owed : Type 0
Owed = List (Text × List Text)

abbrev pub push : Text → Text → Owed → Owed
push connector key [] = (connector, key ∷ []) ∷ []
push connector key ((c, keys) ∷ rest) =
    let later = push connector key rest in
    if text_eq c connector then (c, keys ++ key ∷ []) ∷ rest else (c, keys) ∷ later

abbrev pub push_for : Option Text → Text → Owed → Owed
push_for none key out = out
push_for (some connector) key out = push connector key out

abbrev pub group_rows : List SiteConnector → Owed → List Recording → Owed
group_rows sites out [] = out
group_rows sites out (r ∷ rs) =
    group_rows sites (push_for (connector_of sites r.site_id) r.recording_key out) rs

module _ (t : Table Recording) where
  unfoldable pub request_erasure : Text → ℕ → t.Store → t.Store × Bool
  request_erasure id now s = elim (find_first t (λ r. text_eq r.id id) s) [
    | none ↦ (s, false)
    | some r ↦ (
      (t.update_many (λ x. text_eq x.id id) (λ x. record x { purge_pending_at = some now }) s).0,
      true,
    )
  ]

  unfoldable pub pending_erasures_by_connector : List SiteConnector → t.Store → Owed
  pending_erasures_by_connector sites s = group_rows sites [] (t.find_many is_pending s)

  unfoldable pub confirm_erasures : List Text → t.Store → t.Store × ℕ
  confirm_erasures keys s =
      if length keys == 0
      then (s, 0)
      else t.delete_many (λ r. contains keys r.recording_key && is_pending r) s

  -- `now - days > last` is written without subtraction.
  unfoldable pub trim_index_after_retention : ℕ → ℕ → t.Store → t.Store × ℕ
  trim_index_after_retention retention_days now s =
      if retention_days == 0
      then (s, 0)
      else t.delete_many (λ r. ltb (r.last_event_at + retention_days * 86400000) now) s
