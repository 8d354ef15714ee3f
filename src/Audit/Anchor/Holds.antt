-- ===== src/Audit/Anchor/Holds.antt =====
-- About verifyOneAnchor of lib/audit/anchor-verify.ts on the log that follows an anchor.
use captivo_access.Prelude.{
  ℕ, ◌+◌, ◌≡◌, ◌≢◌, refl, inl, inr, Bool, true, false, List, [], ◌∷◌, ◌++◌, Option, none, some,
  Text, arith, length, text_eq, text_eq_iff, text_eq_refl, ◌==◌, find?, Bool-cases, ap, sym, ◌∙◌,
}
use captivo_access.Audit.Verify.{Stored, ChainHead}
use captivo_access.Audit.Verify.Links.{end_hash}
use captivo_access.Audit.Verify.Retention.{IsChainFrom, Consecutive}
use captivo_access.Audit.Service.Pages.{Newer}
use captivo_access.Audit.Anchor.{
  Anchor, anchor_preimage, TokenCheck, chain_hash_at, verify_one_anchor, compare_hash, hash_of,
}

abbrev pub is_nil : {A : Type 0} → List A → Bool
is_nil [] = true
is_nil (x ∷ xs) = false

module _ {E : Type 0} (seq : E → ℕ) (compute : Text → E → Text) where
  Newer-not_found :
      (head : ChainHead) (newer : List (Stored E))
      → Newer seq head newer
      → find? (λ r. seq r.event == head.last_seq) newer ≡ none
  Newer-not_found head [] h = refl
  Newer-not_found head (r ∷ newer) (lt, h) =
      let other : (seq r.event == head.last_seq) ≡ false = ground arith in
      rw other (Newer-not_found head newer h)

  -- The last event of a chain is the one that its head names.
  head_found :
      (n m : ℕ) (p : Text) (x : Stored E) (xs newer : List (Stored E))
      → Consecutive seq n (x ∷ xs)
      → n + length (x ∷ xs) ≡ m
      → hash_of (find? (λ r. seq r.event == m) (x ∷ xs ++ newer))
        ≡ some (end_hash compute p (x ∷ xs))
  head_found n m p x [] newer (e, h) at =
      let found : (seq x.event == m) ≡ true = ground arith in rw found refl
  head_found n m p x (y ∷ ys) newer (e, h) at =
      let other : (seq x.event == m) ≡ false = ground arith in
      rw other (head_found (n + 1) m x.hash y ys newer h (omega arith))

module _ (token_check : Text → Text → TokenCheck) where
  good_token :
      (a : Anchor) (hash : Option Text)
      → (token_check a.token (anchor_preimage a.anchored_seq a.anchored_hash)).ok ≡ true
      → verify_one_anchor token_check a hash
        ≡ compare_hash a (token_check a.token (anchor_preimage a.anchored_seq a.anchored_hash)) hash
  unfolding verify_one_anchor
  good_token a hash ok = rw ok refl

  rewritten :
      (a : Anchor) (other : Text)
      → (token_check a.token (anchor_preimage a.anchored_seq a.anchored_hash)).ok ≡ true
      → other ≢ a.anchored_hash
      → (verify_one_anchor token_check a (some other)).ok ≡ false
  rewritten a other ok differ = elim (Bool-cases (text_eq other a.anchored_hash)) [
    | inl e ↦ absurd (differ ((text_eq_iff _ _).0 e))
    | inr e ↦ rw (good_token a (some other) ok, e) refl
  ]

-- An anchor of a head, whose token is good, stays good while events are appended to the log, also
-- when retention has deleted a prefix: it is reported as beyond retention exactly when all the events
-- up to the head are gone. Where the chain holds another hash at its number, it is bad.
pub anchor_holds :
    {E : Type 0} (token_check : Text → Text → TokenCheck) (seq : E → ℕ) (compute : Text → E → Text)
    (n : ℕ) (p : Text) (rows newer : List (Stored E)) (head : ChainHead) (a : Anchor) (other : Text)
    → IsChainFrom seq compute n p rows head
    → Newer seq head newer
    → a.anchored_seq ≡ head.last_seq
    → a.anchored_hash ≡ head.last_hash
    → (token_check a.token (anchor_preimage a.anchored_seq a.anchored_hash)).ok ≡ true
    → other ≢ a.anchored_hash
    → let v = verify_one_anchor token_check a (chain_hash_at seq a.anchored_seq (rows ++ newer)) in
      (v.ok ≡ true)
      × (v.beyond_retention ≡ is_nil rows)
      × ((verify_one_anchor token_check a (some other)).ok ≡ false)
unfolding chain_hash_at
anchor_holds token_check seq compute n p [] newer head a other c later same_seq same_hash ok
      differ =
    let gone : chain_hash_at seq a.anchored_seq newer ≡ none =
      rw same_seq (ap hash_of (Newer-not_found seq compute head newer later)) in
    rw (gone, good_token token_check a none ok)
      (refl, refl, rewritten token_check a other ok differ)
anchor_holds token_check seq compute n p (x ∷ xs) newer head a other c later same_seq same_hash ok
      differ =
    let held : chain_hash_at seq a.anchored_seq (x ∷ xs ++ newer) ≡ some a.anchored_hash =
      ap (λ k. chain_hash_at seq k (x ∷ xs ++ newer)) same_seq
      ∙ head_found seq compute n head.last_seq p x xs newer c.numbered c.ends_seq
      ∙ ap some c.ends_hash
      ∙ ap some (sym same_hash) in
    rw (held, good_token token_check a (some a.anchored_hash) ok, text_eq_refl a.anchored_hash)
      (refl, refl, rewritten token_check a other ok differ)
