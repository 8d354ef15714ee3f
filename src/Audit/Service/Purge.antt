-- ===== src/Audit/Service/Purge.antt =====
-- About POST of app/api/cron/audit-retention/route.ts, one tenant's round.
use captivo_access.Prelude.{
  ℕ, ◌+◌, ◌-◌, ◌*◌, ◌≤◌, ◌≡◌, refl, inl, inr, Bool, true, not, List, [], ◌∷◌, Option, none, some,
  Text, arith, ltb, leb, length, take, drop, select, All, le→leb, Bool-cases,
}
use captivo_access.Prelude.Slices.{take-drop}
use captivo_access.Audit.Verify.{Stored, ChainHead, verify_chain}
use captivo_access.Audit.Verify.Retention.{IsChainFrom, retention_verifies}
use captivo_access.Audit.Service.{larger, max_seq, delete_up_to, purge}
use captivo_access.Audit.Service.Pages.{select_beyond}

module _ {E : Type 0} (seq timestamp : E → ℕ) where
  abbrev AtMost : Option ℕ → ℕ → Type 0
  AtMost none b = Unit
  AtMost (some m) b = m ≤ b

  larger-le : (a b : ℕ) (o : Option ℕ) → larger a o ≤ b → (a ≤ b) × AtMost o b
  larger-le a b none h = (h, tt)
  larger-le a b (some m) h = ground arith

  max_seq-le :
      (rows : List (Stored E)) (b : ℕ)
      → AtMost (max_seq seq timestamp rows) b
      → All (λ r. seq r.event ≤ b) rows
  max_seq-le [] b h = tt
  max_seq-le (r ∷ rows) b h =
      let (first, rest) = larger-le (seq r.event) b (max_seq seq timestamp rows) h in
      (first, max_seq-le rows b rest)

  module _ (cutoff : ℕ) where
    abbrev is_old : Stored E → Bool
    is_old r = ltb (timestamp r.event) cutoff

    abbrev IsYoung : Stored E → Type 0
    IsYoung r = cutoff ≤ timestamp r.event

    none_old :
        (rows : List (Stored E))
        → max_seq seq timestamp (select is_old rows) ≡ none
        → All IsYoung rows
    none_old [] h = tt
    none_old (r ∷ rows) h = elim (Bool-cases (is_old r)) [
      | inl e ↦ let h' = rw e at h in absurd cc
      | inr e ↦ (ground arith, none_old rows (rw e at h))
    ]

    IsYoung-beyond :
        (b : ℕ) (rows : List (Stored E))
        → All (λ r. seq r.event ≤ b) (select is_old rows)
        → All IsYoung (select (λ r. not (leb (seq r.event) b)) rows)
    IsYoung-beyond b [] h = tt
    IsYoung-beyond b (r ∷ rows) h = elim (Bool-cases (is_old r)) [
      | inl e ↦
          let (le, rest) = rw e at h in rw (le→leb (seq r.event) b le) (IsYoung-beyond b rows rest)
      | inr e ↦
          let rest = IsYoung-beyond b rows (rw e at h) in
          elim (Bool-cases (leb (seq r.event) b)) [
            | inl gone ↦ rw gone rest
            | inr kept ↦ rw kept (ground arith, rest)
          ]
    ]

    -- The rows that the round keeps are young enough.
    kept-IsYoung :
        (b : Option ℕ) (rows : List (Stored E))
        → max_seq seq timestamp (select is_old rows) ≡ b
        → All IsYoung (delete_up_to seq timestamp b rows).0
    kept-IsYoung none rows h = none_old rows h
    kept-IsYoung (some b) rows h =
        IsYoung-beyond b rows (max_seq-le (select is_old rows) b (rw h (omega arith)))

  delete_counts :
      (b : Option ℕ) (rows : List (Stored E))
      → length (delete_up_to seq timestamp b rows).0 + (delete_up_to seq timestamp b rows).1
        ≡ length rows
  delete_counts none rows = omega arith
  delete_counts (some b) [] = omega arith
  delete_counts (some b) (r ∷ rows) = ground (arith, delete_counts (some b) rows)

  module _ (compute : Text → E → Text) where
    delete_verifies :
        (b : Option ℕ) (n : ℕ) (p : Text) (rows : List (Stored E)) (head : ChainHead)
        → IsChainFrom seq compute n p rows head
        → (verify_chain seq compute (delete_up_to seq timestamp b rows).0 (some head)).ok ≡ true
    delete_verifies none n p rows head c = retention_verifies seq compute n p [] rows head c
    delete_verifies (some b) n p rows head c =
        let left =
          select_beyond seq (λ k. not (leb k b)) b n (n + length rows) rows (λ k q t. ground arith)
            (λ k q t. ground arith) (omega arith) c.numbered in
        rw left (
          retention_verifies seq compute n p (take (b - n) rows) (drop (b - n) rows) head
            (rw (take-drop (b - n) rows) c))

-- Over a log that is a chain up to its head, a round of retention leaves a log that verifies against
-- the same head, keeps no event that is older than the retention period, and reports how many
-- events it deleted.
pub purge_verifies :
    {E : Type 0} (seq timestamp : E → ℕ) (compute : Text → E → Text) (retention_days now n : ℕ)
    (p : Text) (rows : List (Stored E)) (head : ChainHead)
    → IsChainFrom seq compute n p rows head
    → let (left, deleted) = purge seq timestamp retention_days now rows in
      ((verify_chain seq compute left (some head)).ok ≡ true)
      × All (λ r. now - retention_days * 86400000 ≤ timestamp r.event) left
      × (length left + deleted ≡ length rows)
unfolding purge
purge_verifies seq timestamp compute retention_days now n p rows head c =
    let cutoff = now - retention_days * 86400000 in
    let boundary = max_seq seq timestamp (select (λ r. ltb (timestamp r.event) cutoff) rows) in
    (
      delete_verifies seq timestamp compute boundary n p rows head c,
      kept-IsYoung seq timestamp cutoff boundary rows refl,
      delete_counts seq timestamp boundary rows,
    )
