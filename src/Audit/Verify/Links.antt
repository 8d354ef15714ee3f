-- ===== src/Audit/Verify/Links.antt =====
-- About verifyChain of lib/audit/verify.ts: an inductive description of an unbroken chain.
use captivo_access.Prelude.{
  ℕ, ◌≡◌, ◌↔◌, inl, inr, refl, true, List, [], ◌∷◌, none, some, Text, text_eq_iff, text_eq_refl,
  arith, Option-cases, sym, ◌∙◌,
}
use captivo_access.Audit.Verify.{Stored, ChainHead, last_of, first_break, verify_chain}

module _ {E : Type 0} (compute : Text → E → Text) where
  -- Each event carries the hash of its predecessor and hashes to its own stored hash.
  abbrev pub Linked : Text → List (Stored E) → Type 0
  Linked prev [] = Unit
  Linked prev (e ∷ es) =
      (e.prev_hash ≡ prev) × (compute e.prev_hash e.event ≡ e.hash) × Linked e.hash es

  abbrev pub end_hash : Text → List (Stored E) → Text
  end_hash prev [] = prev
  end_hash prev (e ∷ es) = end_hash e.hash es

module _ {E : Type 0} (seq : E → ℕ) (compute : Text → E → Text) where
  pub first_break_sound :
      (prev : Text) (es : List (Stored E))
      → first_break seq compute (some prev) es ≡ none
      → Linked compute prev es
  unfolding first_break
  first_break_sound prev [] h = tt
  first_break_sound prev (e ∷ es) h = (
    ground (arith, text_eq_iff e.prev_hash prev),
    ground (arith, text_eq_iff (compute e.prev_hash e.event) e.hash),
    first_break_sound e.hash es (ground arith),
  )

  pub first_break_complete :
      (prev : Text) (es : List (Stored E))
      → Linked compute prev es
      → first_break seq compute (some prev) es ≡ none
  unfolding first_break
  first_break_complete prev [] h = refl
  first_break_complete prev (e ∷ es) (p, q, h) = ground (
    arith,
    text_eq_iff e.prev_hash prev,
    text_eq_iff (compute e.prev_hash e.event) e.hash,
    first_break_complete e.hash es h,
  )

  start_break :
      (e : Stored E) (es : List (Stored E))
      → first_break seq compute none (e ∷ es) ≡ first_break seq compute (some e.prev_hash) (e ∷ es)
  unfolding first_break
  start_break e es = ground (arith, text_eq_refl e.prev_hash)

  -- The verifier accepts a non-empty log against a head exactly when the log is an unbroken chain
  -- from the predecessor that its first event names, and ends at the head: the last event has the
  -- head's sequence number and hash.
  pub verify_chain_iff :
      (e : Stored E) (es : List (Stored E)) (head : ChainHead)
      → ((verify_chain seq compute (e ∷ es) (some head)).ok ≡ true) ↔ (
          Linked compute e.prev_hash (e ∷ es)
          × (seq (last_of e es).event ≡ head.last_seq)
          × ((last_of e es).hash ≡ head.last_hash))
  unfolding verify_chain
  verify_chain_iff e es head =
      let b = first_break seq compute none (e ∷ es) in
      let last = last_of e es in
      let at_end = text_eq_iff last.hash head.last_hash in
      (
        (λ h. elim (Option-cases b) [
          | inr (broken, found) ↦ absurd (ground (arith, found))
          | inl unbroken ↦ (
            first_break_sound e.prev_hash (e ∷ es) (sym (start_break e es) ∙ unbroken),
            ground (arith, unbroken, at_end),
            ground (arith, unbroken, at_end),
          )
        ]),
        (λ (linked, same_seq, same_hash).
            let unbroken : b ≡ none =
              start_break e es ∙ first_break_complete e.prev_hash (e ∷ es) linked in
            ground (arith, unbroken, at_end)),
      )
