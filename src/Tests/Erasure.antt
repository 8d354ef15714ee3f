-- ===== src/Tests/Erasure.antt =====
-- A confirmed erasure at a concrete index of one recording that nobody asked to erase.
use captivo_access.Prelude.{◌≡◌, [], ◌∷◌, none, lit, not, ◌&&◌, contains, true}
use captivo_access.Database.{Table, tally}
use captivo_access.Database.ListTable.{list_table}
use captivo_access.Erasure.{Recording, is_pending, confirm_erasures}
use captivo_access.Erasure.Pending.{confirm_erasures_keeps}

abbrev recordings : Table Recording
recordings = list_table Recording

abbrev kept : Recording
kept = record {
  id = lit "r1";
  recording_key = lit "k1";
  site_id = lit "wiki";
  last_event_at = 1000;
  purge_pending_at = none;
}

confirm_erasures_example :
    tally recordings
      (λ r. not (contains (lit "k1" ∷ []) r.recording_key && is_pending r) && true)
      (confirm_erasures recordings (lit "k1" ∷ []) (kept ∷ [])).0
    ≡ tally recordings
        (λ r. not (contains (lit "k1" ∷ []) r.recording_key && is_pending r) && true)
        (kept ∷ [])
confirm_erasures_example = confirm_erasures_keeps recordings (lit "k1" ∷ []) (kept ∷ []) (λ r. true)
