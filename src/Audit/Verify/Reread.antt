-- ===== src/Audit/Verify/Reread.antt =====
-- About verifyChain of lib/audit/verify.ts on rows whose events were read back in another form.
use captivo_access.Prelude.{
  ℕ, ◌≡◌, ◌≢◌, refl, inl, inr, false, not, ◌++◌, text_eq_iff, Bool-cases, List, [], ◌∷◌, Option,
  none, some, Text, text_eq, map, All, length,
}
use captivo_access.Audit.Verify.{
  Stored, ChainHead, differs_from, first_break, last_of, BreakReason, hash_mismatch,
  prev_hash_mismatch, report, verify_chain,
}

module _ {E : Type 0} where
  abbrev pub on_event : (E → E) → Stored E → Stored E
  on_event f r = record { event = f r.event; prev_hash = r.prev_hash; hash = r.hash }

module _ {E : Type 0} (seq : E → ℕ) (compute : Text → E → Text) (f : E → E) where
  -- The sequence number and the hash do not see the change.
  abbrev pub Unseen : Stored E → Type 0
  Unseen r =
      (seq (f r.event) ≡ seq r.event)
      × (compute r.prev_hash (f r.event) ≡ compute r.prev_hash r.event)

  first_break-on_event :
      (prev : Option Text) (rows : List (Stored E))
      → All Unseen rows
      → first_break seq compute prev (map (on_event f) rows) ≡ first_break seq compute prev rows
  unfolding first_break
  first_break-on_event prev [] h = refl
  first_break-on_event prev (r ∷ rows) h =
      rw (h.0.0, h.0.1, first_break-on_event (some r.hash) rows h.1) refl

  last_of-on_event :
      (r : Stored E) (rows : List (Stored E))
      → last_of (on_event f r) (map (on_event f) rows) ≡ on_event f (last_of r rows)
  last_of-on_event r [] = refl
  last_of-on_event r (s ∷ rows) = last_of-on_event s rows

  last_of-Unseen :
      (r : Stored E) (rows : List (Stored E))
      → All Unseen (r ∷ rows)
      → seq (f (last_of r rows).event) ≡ seq (last_of r rows).event
  last_of-Unseen r [] h = h.0.0
  last_of-Unseen r (s ∷ rows) h = last_of-Unseen s rows h.1

  length-map-on_event : (rows : List (Stored E)) → length (map (on_event f) rows) ≡ length rows
  length-map-on_event [] = refl
  length-map-on_event (r ∷ rows) = rw (length-map-on_event rows) refl

  report-on_event :
      (r : Stored E) (rows : List (Stored E)) (head : Option ChainHead)
      (at : Option (ℕ × BreakReason))
      → All Unseen (r ∷ rows)
      → report seq compute (on_event f r) (map (on_event f) rows) head at
        ≡ report seq compute r rows head at
  report-on_event r rows head (some (at, reason)) h =
      rw (length-map-on_event rows, last_of-on_event r rows, last_of-Unseen r rows h, h.0.0) refl
  report-on_event r rows none none h =
      rw (length-map-on_event rows, last_of-on_event r rows, last_of-Unseen r rows h, h.0.0) refl
  report-on_event r rows (some head) none h =
      rw (length-map-on_event rows, last_of-on_event r rows, last_of-Unseen r rows h, h.0.0) refl

  -- Under a change that neither the numbers nor the hashes see, the verifier answers the same.
  pub verify_chain-on_event :
      (rows : List (Stored E)) (head : Option ChainHead)
      → All Unseen rows
      → verify_chain seq compute (map (on_event f) rows) head ≡ verify_chain seq compute rows head
  unfolding verify_chain
  verify_chain-on_event [] head h = refl
  verify_chain-on_event (r ∷ rows) head h =
      rw (first_break-on_event none (r ∷ rows) h) (report-on_event r rows head _ h)

module _ {E : Type 0} (seq : E → ℕ) (compute : Text → E → Text) where
  first_break-broken :
      (prev : Option Text) (rows : List (Stored E)) (r : Stored E)
      → compute r.prev_hash r.event ≢ r.hash
      → (at : ℕ × BreakReason) × (first_break seq compute prev (rows ++ r ∷ []) ≡ some at)
  unfolding first_break
  first_break-broken prev [] r broken =
      elim (Bool-cases (text_eq (compute r.prev_hash r.event) r.hash)) [
        | inl e ↦ absurd (broken ((text_eq_iff _ _).0 e))
        | inr e ↦ ((seq r.event, hash_mismatch), rw e refl)
      ]
  first_break-broken prev (x ∷ rows) r broken =
      let (at, found) = first_break-broken (some x.hash) rows r broken in
      elim (Bool-cases (not (text_eq (compute x.prev_hash x.event) x.hash))) [
        | inl e ↦ ((seq x.event, hash_mismatch), rw e refl)
        | inr e ↦ elim (Bool-cases (differs_from prev x.prev_hash)) [
          | inl d ↦ ((seq x.event, prev_hash_mismatch), rw (e, d) refl)
          | inr d ↦ (at, rw (e, d, found) refl)
        ]
      ]

  -- A log whose last row does not carry the hash of its event is refused.
  pub verify_chain-broken :
      (rows : List (Stored E)) (r : Stored E) (head : Option ChainHead)
      → compute r.prev_hash r.event ≢ r.hash
      → (verify_chain seq compute (rows ++ r ∷ []) head).ok ≡ false
  unfolding verify_chain
  verify_chain-broken [] r head broken =
      let (at, found) = first_break-broken none [] r broken in rw found refl
  verify_chain-broken (x ∷ rows) r head broken =
      let (at, found) = first_break-broken none (x ∷ rows) r broken in rw found refl
