-- ===== src/Audit/Service/Pages.antt =====
-- About the loop of app/api/admin/audit/verify/route.ts.
use captivo_access.Prelude.{
  ℕ, zero, suc, ◌+◌, ◌-◌, ◌≤◌, ◌<◌, ◌≡◌, refl, inl, inr, ltb→lt, Bool, true, false, ◌&&◌, List, [],
  ◌∷◌, ◌++◌, Option, none, some, arith, ltb, length, take, drop, select, All, Bool-cases, ◌∙◌, ap,
  sym,
}
use mathlib.Core.List.{append_assoc, append-nil}
use native.Mathlib.Decide.{dec_lt}
use captivo_access.Prelude.Slices.{
  List-cases, take-drop, drop-drop, length-drop, length-take, length-take-le, take_short, drop-nil,
  select-append, select_none,
}
use captivo_access.Audit.Verify.{Stored, ChainHead, last_of}
use captivo_access.Audit.Verify.Retention.{
  Consecutive, Consecutive-take, Consecutive-drop, last_seq,
}
use captivo_access.Audit.Service.{up_to, after, page_where, fetch_pages}

module _ {E : Type 0} (seq : E → ℕ) where
  -- In a log without gaps, from `n` up to `top`, the rows beyond a number are what follows the
  -- first rows.
  pub select_beyond :
      (keep : ℕ → Bool) (b n top : ℕ) (rows : List (Stored E))
      → ((k : ℕ) → b < k → k ≤ top → keep k ≡ true)
      → ((k : ℕ) → n < k → k ≤ b → keep k ≡ false)
      → n + length rows ≤ top
      → Consecutive seq n rows
      → select (λ r. keep (seq r.event)) rows ≡ drop (b - n) rows
  select_beyond keep b n top [] above below le h = sym (drop-nil (b - n))
  select_beyond keep b n top (r ∷ rows) above below le (e, h) =
      let rest =
        select_beyond keep b (n + 1) top rows above (λ k p q. below k (omega arith) q) (omega arith)
          h in
      elim (dec_lt n b) [
        | yes later ↦
            let shift : b - n ≡ suc (b - (n + 1)) = omega arith in
            rw (below (seq r.event) (omega arith) (omega arith), shift) rest
        | no early ↦
            let none_left : b - n ≡ 0 = omega arith in
            let none_after : b - (n + 1) ≡ 0 = omega arith in
            rw (above (seq r.event) (omega arith) (omega arith), none_left)
              (ap (◌∷◌ r) (rw none_after at rest))
      ]

  -- Rows that came after the head.
  abbrev pub Newer : ChainHead → List (Stored E) → Type 0
  Newer head = All (λ r. head.last_seq < seq r.event)

  -- The cursor stands after the event number `m` of a log that starts after `n`.
  abbrev pub IsCursor : ℕ → Option ℕ → ℕ → Type 0
  IsCursor n none m = m ≡ n
  IsCursor n (some c) m = (m ≡ c) × (n ≤ c)

  Newer-unseen :
      (head : ChainHead) (c : Option ℕ) (newer : List (Stored E))
      → Newer head newer
      → All (λ r. page_where seq (some head) c r ≡ false) newer
  Newer-unseen head c [] h = tt
  Newer-unseen head c (r ∷ newer) (e, h) = (ground (arith, e), Newer-unseen head c newer h)

  -- A query of the loop sees what is left of the log up to the head.
  pub query_rest :
      (n m : ℕ) (head : ChainHead) (c : Option ℕ) (rows newer : List (Stored E))
      → Consecutive seq n rows
      → n + length rows ≡ head.last_seq
      → Newer head newer
      → IsCursor n c m
      → select (page_where seq (some head) c) (rows ++ newer) ≡ drop (m - n) rows
  query_rest n m head none rows newer h top later at =
      rw
        (
          select-append (page_where seq (some head) none) rows newer,
          select_none (page_where seq (some head) none) newer (Newer-unseen head none newer later),
          append-nil,
        )
        (select_beyond (λ k. up_to (some head) k && after none k) m n head.last_seq rows
          (λ k p q. ground arith) (λ k p q. absurd (omega arith)) (omega arith) h)
  query_rest n m head (some c) rows newer h top later (at, le) =
      rw
        (
          select-append (page_where seq (some head) (some c)) rows newer,
          select_none (page_where seq (some head) (some c)) newer
              (Newer-unseen head (some c) newer later),
          append-nil,
        )
        (select_beyond (λ k. up_to (some head) k && after (some c) k) m n head.last_seq rows
          (λ k p q. ground arith) (λ k p q. ground arith) (omega arith) h)

  Consecutive-rest :
      (n m : ℕ) (rows : List (Stored E))
      → Consecutive seq n rows
      → n ≤ m
      → m ≤ n + length rows
      → Consecutive seq m (drop (m - n) rows)
  Consecutive-rest n m rows h low high =
      let parts : Consecutive seq n (take (m - n) rows ++ drop (m - n) rows) =
        rw (take-drop (m - n) rows) h in
      let at : n + length (take (m - n) rows) ≡ m =
        omega (arith, length-take (m - n) rows, length-drop (m - n) rows) in
      rw at at (Consecutive-drop seq (λ p e. p) n (take (m - n) rows) (drop (m - n) rows) parts)

  -- The number of the last row of a page.
  page_end :
      (size m : ℕ) (rest : List (Stored E)) (b : Stored E) (batch : List (Stored E))
      → Consecutive seq m rest
      → take size rest ≡ b ∷ batch
      → seq (last_of b batch).event ≡ m + length (b ∷ batch)
  page_end size m rest b batch h e =
      let parts : Consecutive seq m (take size rest ++ drop size rest) =
        rw (take-drop size rest) h in
      last_seq seq (λ p e. p) m b batch
        (rw e at (Consecutive-take seq (λ p e. p) m (take size rest) (drop size rest) parts))

  start : {n m : ℕ} (c : Option ℕ) → IsCursor n c m → n ≤ m
  start none at = omega arith
  start (some k) (e, le) = omega arith

  -- What a full page and the rows after it make up.
  full_page :
      (size m n : ℕ) (events rows : List (Stored E)) (b : Stored E) (batch : List (Stored E))
      → n ≤ m
      → size ≤ length (b ∷ batch)
      → take size (drop (m - n) rows) ≡ b ∷ batch
      → (events ++ b ∷ batch) ++ drop (m + length (b ∷ batch) - n) rows
        ≡ events ++ drop (m - n) rows
  full_page size m n events rows b batch low full e =
      let rest = drop (m - n) rows in
      let exact : length (b ∷ batch) ≡ size =
        omega (arith, full, length-take-le size rest, ap length e) in
      let jump : m + length (b ∷ batch) - n ≡ (m - n) + size = omega arith in
      let parts : b ∷ batch ++ drop size rest ≡ rest = rw e at (take-drop size rest) in
      rw (jump, drop-drop (m - n) size rows, append_assoc, parts) refl

  module _ (size : ℕ) (head : ChainHead) (n : ℕ) (rows : List (Stored E))
      (table : ℕ → List (Stored E)) where
    -- Every query finds the rows of the log, and newer ones.
    abbrev pub Grows : Type 0
    Grows = (i : ℕ) → (newer : List (Stored E)) × (table i ≡ rows ++ newer) × Newer head newer

    pub fetch_rest :
        (fuel i m : ℕ) (c : Option ℕ) (events : List (Stored E))
        → 0 < size
        → Grows
        → Consecutive seq n rows
        → n + length rows ≡ head.last_seq
        → IsCursor n c m
        → m ≤ head.last_seq
        → length (drop (m - n) rows) < fuel
        → fetch_pages seq size table (some head) fuel i c events
          ≡ some (events ++ drop (m - n) rows)
    unfolding fetch_pages
    fetch_rest zero i m c events pos grows h top at reach enough = absurd (omega arith)
    fetch_rest (suc fuel) i m c events pos grows h top at reach enough =
        let (newer, seen, later) = grows i in
        let rest = drop (m - n) rows in
        let query : select (page_where seq (some head) c) (table i) ≡ rest =
          rw seen (query_rest n m head c rows newer h top later at) in
        let page : take size (select (page_where seq (some head) c) (table i)) ≡ take size rest =
          ap (take size) query in
        let low = start c at in
        elim (List-cases (take size rest)) [
          | inl e ↦
              let over : rest ≡ [] = sym (take_short size rest (rw e pos)) ∙ e in
              rw (page ∙ e, fetch_pages, over, append-nil) refl
          | inr (b, batch, e) ↦
              let at_end =
                page_end size m rest b batch (Consecutive-rest n m rows h low (omega arith)) e in
              let wide = ap length e in
              let room = length-take size rest in
              let before = length-drop (m - n) rows in
              let left = length-drop (m + length (b ∷ batch) - n) rows in
              elim (Bool-cases (ltb (length (b ∷ batch)) size)) [
                | inl short ↦
                    let whole : rest ≡ b ∷ batch =
                      sym (take_short size rest (rw e (ltb→lt _ _ short))) ∙ e in
                    rw (page ∙ e, fetch_pages, short, whole) refl
                | inr full ↦
                    rw (page ∙ e, fetch_pages, full)
                      (fetch_rest fuel (i + 1) (m + length (b ∷ batch)) _ (events ++ b ∷ batch) pos
                          grows h top (sym at_end, omega (arith, at_end)) (omega arith)
                          (omega arith)
                        ∙ ap some (full_page size m n events rows b batch low (ground arith) e))
              ]
        ]
