-- ===== src/Audit/Tamper.antt =====
-- About lib/audit/chain.ts and verify.ts: events that were rewritten in place. Digests are
-- hexadecimal, so they hold no line feed, which the hashed text puts between digest and event.
pub mod Fields
use mathlib.Core.Option.{some-injective}
use captivo_access.Prelude.Splits.{decimal-Without, digits_value-decimal}
use captivo_access.Prelude.Decimal.{
  Integer, pos, decimal, integer_text, digits_value, iso_date, iso_string,
}
use captivo_access.Prelude.{
  ℕ, zero, suc, ◌+◌, get_or, ◌≡◌, ◌≢◌, refl, true, List, [], ◌∷◌, ◌++◌, some, map, Text, arith,
  length, sym, ap, subst, ◌∙◌, All, join,
}
use captivo_access.Audit.Chain.{
  ChainableEvent, canonicalize, canonical_fields, unit_separator, chain_hash, compute_hash,
}
use captivo_access.Audit.Verify.{Stored, ChainHead, verify_chain}
use captivo_access.Audit.Verify.Links.{Linked, end_hash, verify_chain_iff}
use captivo_access.Audit.Verify.Retention.{last_hash}
use captivo_access.Audit.Append.Keeps.{event_seq}

-- No unit of the text is `c`.
abbrev pub Lacks : ℕ → Text → Type 0
Lacks c = All (λ x. x ≢ c)

-- A text is read back up to the first separator.
split_unique :
    (c : ℕ) (a b s t : Text)
    → Lacks c a
    → Lacks c b
    → a ++ (c ∷ s) ≡ b ++ (c ∷ t)
    → (a ≡ b) × (s ≡ t)
split_unique c [] [] s t h k e = (refl, ground arith)
split_unique c [] (y ∷ b) s t h (n, k) e = absurd (n (ground arith))
split_unique c (x ∷ a) [] s t (n, h) k e = absurd (n (ground arith))
split_unique c (x ∷ a) (y ∷ b) s t (_, h) (_, k) e =
    let heads : x ≡ y = ground arith in
    let tails : a ++ (c ∷ s) ≡ b ++ (c ∷ t) = ground arith in
    let (p, q) = split_unique c a b s t h k tails in (cc (heads, p), q)

-- The attested texts of a log.
abbrev pub texts : List (Stored ChainableEvent) → List Text
texts rows = map (λ (r : Stored ChainableEvent). canonicalize r.event) rows

module _ (sha : Text → Text) (collision_free : (a b : Text) → sha a ≡ sha b → a ≡ b)
    (digest_lacks_newline : (a : Text) → Lacks 10 (sha a)) where
  link_unique :
      (p q : Text) (x y : ChainableEvent)
      → Lacks 10 p
      → Lacks 10 q
      → compute_hash sha p x ≡ compute_hash sha q y
      → (p ≡ q) × (canonicalize x ≡ canonicalize y)
  unfolding compute_hash chain_hash
  link_unique p q x y h k e =
      split_unique 10 p q (canonicalize x) (canonicalize y) h k (collision_free _ _ e)

  hash-Lacks_newline :
      (p : Text) (r : Stored ChainableEvent) → compute_hash sha p r.event ≡ r.hash → Lacks 10 r.hash
  unfolding compute_hash chain_hash
  hash-Lacks_newline p r e = subst (Lacks 10) e (digest_lacks_newline _)

  chains_agree :
      (p q : Text) (xs ys : List (Stored ChainableEvent))
      → Lacks 10 p
      → Lacks 10 q
      → Linked (compute_hash sha) p xs
      → Linked (compute_hash sha) q ys
      → length xs ≡ length ys
      → end_hash (compute_hash sha) p xs ≡ end_hash (compute_hash sha) q ys
      → (p ≡ q) × (texts xs ≡ texts ys)
  chains_agree p q [] [] hp hq h k n e = (e, refl)
  chains_agree p q [] (y ∷ ys) hp hq h k n e = absurd (omega arith)
  chains_agree p q (x ∷ xs) [] hp hq h k n e = absurd (omega arith)
  chains_agree p q (x ∷ xs) (y ∷ ys) hp hq (a, b, h) (c, d, k) n e =
      let (same_hash, same_rest) =
        chains_agree x.hash y.hash xs ys (hash-Lacks_newline x.prev_hash x b)
          (hash-Lacks_newline y.prev_hash y d) h k (omega arith) e in
      let (same_prev, same_text) =
        link_unique x.prev_hash y.prev_hash x.event y.event (rw a hp) (rw c hq)
          (b ∙ same_hash ∙ sym d) in
      (sym a ∙ same_prev ∙ c, cc (same_text, same_rest))

  -- Two non-empty logs of the same length that both verify against one head attest, event by
  -- event, the same canonical texts, and name the same predecessor: changing an attested text in
  -- place makes the verification fail. (The predecessor that the first row names is a digest or
  -- the genesis text, so it holds no line feed.)
  pub verified_logs_agree :
      (x y : Stored ChainableEvent) (xs ys : List (Stored ChainableEvent)) (head : ChainHead)
      → Lacks 10 x.prev_hash
      → Lacks 10 y.prev_hash
      → length xs ≡ length ys
      → (verify_chain event_seq (compute_hash sha) (x ∷ xs) (some head)).ok ≡ true
      → (verify_chain event_seq (compute_hash sha) (y ∷ ys) (some head)).ok ≡ true
      → (x.prev_hash ≡ y.prev_hash) × (texts (x ∷ xs) ≡ texts (y ∷ ys))
  verified_logs_agree x y xs ys head hx hy n ok_x ok_y =
      let (linked_x, seq_x, at_x) =
        (verify_chain_iff event_seq (compute_hash sha) x xs head).0 ok_x in
      let (linked_y, seq_y, at_y) =
        (verify_chain_iff event_seq (compute_hash sha) y ys head).0 ok_y in
      chains_agree x.prev_hash y.prev_hash (x ∷ xs) (y ∷ ys) hx hy linked_x linked_y (ap suc n) (
        sym (last_hash event_seq (compute_hash sha) x.prev_hash x xs)
        ∙ at_x
        ∙ sym at_y
        ∙ last_hash event_seq (compute_hash sha) y.prev_hash y ys)

pub join_unique :
    (xs ys : List Text)
    → length xs ≡ length ys
    → All (Lacks 0x1f) xs
    → All (Lacks 0x1f) ys
    → join unit_separator xs ≡ join unit_separator ys
    → xs ≡ ys
unfolding join
join_unique [] [] n h k e = refl
join_unique [] (y ∷ ys) n h k e = absurd (omega arith)
join_unique (x ∷ xs) [] n h k e = absurd (omega arith)
join_unique (x ∷ []) (y ∷ []) n h k e = ap (λ t. t ∷ []) e
join_unique (x ∷ []) (y ∷ (z ∷ ys)) n h k e = absurd (omega arith)
join_unique (x ∷ (w ∷ xs)) (y ∷ []) n h k e = absurd (omega arith)
join_unique (x ∷ (w ∷ xs)) (y ∷ (z ∷ ys)) n (hx, h) (hy, k) e =
    let (same, rest) =
      split_unique 0x1f x y (join unit_separator (w ∷ xs)) (join unit_separator (z ∷ ys)) hx hy e in
    cc (same, join_unique (w ∷ xs) (z ∷ ys) (omega arith) h k rest)
