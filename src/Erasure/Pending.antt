-- ===== src/Erasure/Pending.antt =====
-- About confirmErasures of lib/recording/erasure.ts: the rows that a confirmation removes.
use captivo_access.Prelude.{
  ◌≡◌, refl, Bool, not, ◌&&◌, List, Text, contains, arith, Bool-cases, inl, inr, length, ◌==◌, ◌∙◌,
}
use captivo_access.Database.{Table, every, tally}
use captivo_access.Database.Queries.{count-congr}
use captivo_access.Erasure.{Recording, is_pending, confirm_erasures}

-- A confirmation removes no recording whose erasure nobody asked for, and no recording of another
-- key: the others are as many as before under every further condition.
pub confirm_erasures_keeps :
    (t : Table Recording) (keys : List Text) (s : t.Store) (q : Recording → Bool)
    → tally t
        (λ r. not (contains keys r.recording_key && is_pending r) && q r)
        (confirm_erasures t keys s).0
      ≡ tally t (λ r. not (contains keys r.recording_key && is_pending r) && q r) s
unfolding confirm_erasures
confirm_erasures_keeps t keys s q =
    let p = λ (r : Recording). contains keys r.recording_key && is_pending r in
    elim (Bool-cases (length keys == 0)) [
      | inl e ↦ rw (e, confirm_erasures) refl
      | inr e ↦
          rw (e, confirm_erasures)
            (t.count-delete p (λ r. not (p r) && q r) s
              ∙ count-congr (λ r. not (p r) && (not (p r) && q r)) (λ r. not (p r) && q r)
                  (t.find_many every s) (λ r. ground arith))
    ]
