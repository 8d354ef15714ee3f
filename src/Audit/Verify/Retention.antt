-- ===== src/Audit/Verify/Retention.antt =====
-- About verifyChain of lib/audit/verify.ts: chains that lost a prefix or a tail.
use captivo_access.Prelude.{
  ℕ, suc, ◌+◌, ◌≡◌, ◌≢◌, inl, inr, refl, true, false, List, [], ◌∷◌, ◌++◌, some, Text, arith,
  Bool-cases, sym, subst, ◌∙◌, length, length-append,
}
use native.Mathlib.Nat.{add-zero}
use captivo_access.Audit.Verify.{Stored, ChainHead, last_of, verify_chain}
use captivo_access.Audit.Verify.Links.{Linked, end_hash, verify_chain_iff}

module _ {E : Type 0} (seq : E → ℕ) where
  -- Sequence numbers follow one another, from the successor of `n`.
  abbrev pub Consecutive : ℕ → List (Stored E) → Type 0
  Consecutive n [] = Unit
  Consecutive n (e ∷ es) = (seq e.event ≡ n + 1) × Consecutive (n + 1) es

module _ {E : Type 0} (seq : E → ℕ) (compute : Text → E → Text) where
  -- A log that starts after the event number `n` with the hash `p`, and ends at `head`.
  pub record IsChainFrom (n : ℕ) (p : Text) (rows : List (Stored E)) (head : ChainHead)
      : Type 0 where
    pub linked : Linked compute p rows
    pub numbered : Consecutive seq n rows
    pub ends_hash : end_hash compute p rows ≡ head.last_hash
    pub ends_seq : n + length rows ≡ head.last_seq

  pub Linked-append :
      (p : Text) (xs ys : List (Stored E))
      → Linked compute p xs
      → Linked compute (end_hash compute p xs) ys
      → Linked compute p (xs ++ ys)
  Linked-append p [] ys h k = k
  Linked-append p (x ∷ xs) ys (a, b, h) k = (a, b, Linked-append x.hash xs ys h k)

  Linked-drop :
      (p : Text) (xs ys : List (Stored E))
      → Linked compute p (xs ++ ys)
      → Linked compute (end_hash compute p xs) ys
  Linked-drop p [] ys h = h
  Linked-drop p (x ∷ xs) ys (a, b, h) = Linked-drop x.hash xs ys h

  Linked-take :
      (p : Text) (xs ys : List (Stored E)) → Linked compute p (xs ++ ys) → Linked compute p xs
  Linked-take p [] ys h = tt
  Linked-take p (x ∷ xs) ys (a, b, h) = (a, b, Linked-take x.hash xs ys h)

  pub end_hash-append :
      (p : Text) (xs ys : List (Stored E))
      → end_hash compute p (xs ++ ys) ≡ end_hash compute (end_hash compute p xs) ys
  end_hash-append p [] ys = refl
  end_hash-append p (x ∷ xs) ys = end_hash-append x.hash xs ys

  pub Consecutive-append :
      (n : ℕ) (xs ys : List (Stored E))
      → Consecutive seq n xs
      → Consecutive seq (n + length xs) ys
      → Consecutive seq n (xs ++ ys)
  Consecutive-append n [] ys h k = rw add-zero at k
  Consecutive-append n (x ∷ xs) ys (a, h) k =
      (a, Consecutive-append (n + 1) xs ys h (rw (shift n xs) at k))
    where
      shift : (n : ℕ) (xs : List (Stored E)) → n + suc (length xs) ≡ n + 1 + length xs
      shift n xs = omega arith

  pub Consecutive-drop :
      (n : ℕ) (xs ys : List (Stored E))
      → Consecutive seq n (xs ++ ys)
      → Consecutive seq (n + length xs) ys
  Consecutive-drop n [] ys h = rw add-zero h
  Consecutive-drop n (x ∷ xs) ys (a, h) = rw (shift n xs) (Consecutive-drop (n + 1) xs ys h)
    where
      shift : (n : ℕ) (xs : List (Stored E)) → n + suc (length xs) ≡ n + 1 + length xs
      shift n xs = omega arith

  pub Consecutive-take :
      (n : ℕ) (xs ys : List (Stored E)) → Consecutive seq n (xs ++ ys) → Consecutive seq n xs
  Consecutive-take n [] ys h = tt
  Consecutive-take n (x ∷ xs) ys (a, h) = (a, Consecutive-take (n + 1) xs ys h)

  pub last_seq :
      (n : ℕ) (x : Stored E) (xs : List (Stored E))
      → Consecutive seq n (x ∷ xs)
      → seq (last_of x xs).event ≡ n + suc (length xs)
  last_seq n x [] (a, h) = omega arith
  last_seq n x (y ∷ xs) (a, h) = omega (arith, last_seq (n + 1) y xs h)

  pub last_hash :
      (p : Text) (x : Stored E) (xs : List (Stored E))
      → (last_of x xs).hash ≡ end_hash compute p (x ∷ xs)
  last_hash p x [] = refl
  last_hash p x (y ∷ xs) = last_hash x.hash y xs

  -- A whole chain, or what retention left of it by deleting a prefix, verifies against its head.
  pub retention_verifies :
      (n : ℕ) (p : Text) (purged rows : List (Stored E)) (head : ChainHead)
      → IsChainFrom n p (purged ++ rows) head
      → (verify_chain seq compute rows (some head)).ok ≡ true
  retention_verifies n p purged [] head c = unfold verify_chain in refl
  retention_verifies n p purged (x ∷ xs) head c =
      let linked = Linked-drop p purged (x ∷ xs) c.linked in
      let numbered = Consecutive-drop n purged (x ∷ xs) c.numbered in
      (verify_chain_iff seq compute x xs head).1 (
        (refl, linked.1, linked.2),
        omega (
          arith,
          last_seq (n + length purged) x xs numbered,
          length-append purged (x ∷ xs),
          c.ends_seq,
        ),
        last_hash p x xs ∙ sym (end_hash-append p purged (x ∷ xs)) ∙ c.ends_hash,
      )

  -- Where trailing events of a chain are missing and some event is left, the verifier rejects it.
  pub truncation_detected :
      (n : ℕ) (p : Text) (rows lost : List (Stored E)) (head : ChainHead)
      → IsChainFrom n p (rows ++ lost) head
      → rows ≢ []
      → lost ≢ []
      → (verify_chain seq compute rows (some head)).ok ≡ false
  truncation_detected n p [] lost head c r l = absurd (r refl)
  truncation_detected n p (x ∷ xs) [] head c r l = absurd (l refl)
  truncation_detected n p (x ∷ xs) (y ∷ ys) head c r l =
      let numbered = Consecutive-take n (x ∷ xs) (y ∷ ys) c.numbered in
      elim (Bool-cases (verify_chain seq compute (x ∷ xs) (some head)).ok) [
        | inr rejected ↦ rejected
        | inl accepted ↦
            let (linked, at_head, same_hash) =
              (verify_chain_iff seq compute x xs head).0 accepted in
            absurd (
              omega
                (arith, at_head, last_seq n x xs numbered, length-append xs (y ∷ ys), c.ends_seq))
      ]

  -- A chain from a head goes on after a chain up to that head.
  pub IsChainFrom-append :
      (n : ℕ) (p : Text) (xs ys : List (Stored E)) (head head' : ChainHead)
      → IsChainFrom n p xs head
      → IsChainFrom head.last_seq head.last_hash ys head'
      → IsChainFrom n p (xs ++ ys) head'
  IsChainFrom-append n p xs ys head head' c d = record {
    linked =
        Linked-append p xs ys c.linked
          (subst (λ h. Linked compute h ys) (sym c.ends_hash) d.linked);
    numbered =
        Consecutive-append n xs ys c.numbered
          (subst (λ k. Consecutive seq k ys) (sym c.ends_seq) d.numbered);
    ends_hash =
        end_hash-append p xs ys
        ∙ (subst (λ h. end_hash compute h ys ≡ head'.last_hash) (sym c.ends_hash) d.ends_hash);
    ends_seq = omega (arith, length-append xs ys, c.ends_seq, d.ends_seq);
  }
