-- ===== src/Audit/Append/Keeps.antt =====
-- About appendAuditEvents of lib/audit/append.ts and the chain that it extends.
use captivo_access.Prelude.{
  ◌⊎◌, none, ℕ, suc, ◌+◌, ◌≡◌, refl, true, List, [], ◌∷◌, ◌++◌, Option, some, map, Text, arith,
  length, sym, ap, ◌∙◌, Option-cases, inl, inr, ◌≤◌, All, leb, le→leb,
}
use mathlib.Core.List.{map-append, append-nil}
use captivo_access.Audit.Chain.{ChainableEvent, compute_hash}
use captivo_access.Audit.Verify.{Stored, ChainHead, verify_chain}
use captivo_access.Audit.Verify.Retention.{IsChainFrom, IsChainFrom-append, retention_verifies}
use captivo_access.Audit.Append.Storable.{IsStorable, normalize_all-some, normalize_all-IsStorable}
use captivo_access.Audit.Append.{
  AuditInput, UserInfo, SiteInfo, NormalizedRow, AuditRow, AuditStore, upserted, chain_rows,
  normalize_audit_input, normalize_all, append_audit_events, int8_max,
}

abbrev pub stored_rows : List AuditRow → List (Stored ChainableEvent)
stored_rows rows = map (λ (r : AuditRow). r.stored) rows

abbrev pub event_seq : ChainableEvent → ℕ
event_seq e = e.seq

module _ (sha : Text → Text) where
  -- The rows that retention has left of the log are a chain up to its head.
  pub record IsChained (s : AuditStore) : Type 0 where
    pub purged : ℕ
    pub before : Text
    pub chain :
        IsChainFrom event_seq
          (compute_hash sha)
          purged
          before
          (stored_rows s.rows)
          (upserted s.head)

  chain_rows-IsChainFrom :
      (head : ChainHead) (ns : List NormalizedRow)
      → IsChainFrom event_seq
          (compute_hash sha)
          head.last_seq
          head.last_hash
          (stored_rows (chain_rows sha head ns).0)
          (chain_rows sha head ns).1
  unfolding chain_rows
  chain_rows-IsChainFrom head [] = record {
    linked = tt;
    numbered = tt;
    ends_hash = refl;
    ends_seq = omega arith;
  }
  chain_rows-IsChainFrom head (n ∷ ns) =
      let seq = head.last_seq + 1 in
      let hash = compute_hash sha head.last_hash (record n.fields { seq = seq }) in
      let rest = chain_rows-IsChainFrom (record { last_seq = seq; last_hash = hash }) ns in
      record {
        linked = (refl, refl, rest.linked);
        numbered = (refl, rest.numbered);
        ends_hash = rest.ends_hash;
        ends_seq = omega (arith, rest.ends_seq);
      }

  length-chain_rows :
      (head : ChainHead) (ns : List NormalizedRow) → length (chain_rows sha head ns).0 ≡ length ns
  unfolding chain_rows
  length-chain_rows head [] = refl
  length-chain_rows head (n ∷ ns) = ap suc (
      length-chain_rows
        (record {
          last_seq = head.last_seq + 1;
          last_hash = compute_hash sha head.last_hash (record n.fields { seq = head.last_seq + 1 });
        })
        ns)

length-normalize_all :
    (parse_date : Text → Option ℕ) (now : ℕ) (users : List UserInfo) (sites : List SiteInfo)
    (es : List AuditInput) (ns : List NormalizedRow)
    → normalize_all parse_date now users sites es ≡ some ns
    → length ns ≡ length es
unfolding normalize_all
length-normalize_all parse_date now users sites [] ns h = ground arith
length-normalize_all parse_date now users sites (e ∷ es) ns h =
    elim (Option-cases (normalize_audit_input parse_date now users sites e)) [
      | inl bad ↦ absurd (ground (arith, bad))
      | inr (n, good) ↦ elim (Option-cases (normalize_all parse_date now users sites es)) [
        | inl bad ↦ absurd (ground (arith, good, bad))
        | inr (rest, more) ↦
            let ih = length-normalize_all parse_date now users sites es rest more in
            ground (arith, good, more, ih)
      ]
    ]

length-stored_rows : (rows : List AuditRow) → length (stored_rows rows) ≡ length rows
length-stored_rows [] = refl
length-stored_rows (r ∷ rows) = ap suc (length-stored_rows rows)

module _ (sha : Text → Text) where
  whole_verifies :
      (s : AuditStore)
      → IsChained sha s
      → (verify_chain event_seq (compute_hash sha) (stored_rows s.rows) (some (upserted s.head))).ok
        ≡ true
  whole_verifies s c =
      retention_verifies event_seq (compute_hash sha) c.purged c.before [] (stored_rows s.rows)
        (upserted s.head) c.chain

  appended :
      (s : AuditStore) (ns : List NormalizedRow)
      → IsChained sha s
      → IsChained sha (record {
        rows = s.rows ++ (chain_rows sha (upserted s.head) ns).0;
        head = some (chain_rows sha (upserted s.head) ns).1;
      })
  appended s ns c = record {
    purged = c.purged;
    before = c.before;
    chain = rw map-append (
        IsChainFrom-append event_seq (compute_hash sha) c.purged c.before (stored_rows s.rows) _
          (upserted s.head) _ c.chain (chain_rows-IsChainFrom sha (upserted s.head) ns));
  }

  last_seq_fits :
      (head : ChainHead) (ns : List NormalizedRow) (n : ℕ)
      → length (chain_rows sha head ns).0 ≡ n
      → head.last_seq + n ≤ int8_max
      → leb (chain_rows sha head ns).1.last_seq int8_max ≡ true
  last_seq_fits head ns n as_many room =
      let ends = (chain_rows-IsChainFrom sha head ns).ends_seq in
      let same = length-stored_rows (chain_rows sha head ns).0 in
      le→leb _ _ (omega (arith, ends, same, as_many, room))

  -- What a call that stores its events returns and leaves.
  abbrev pub IsAppended :
      (Text → Option ℕ) → ℕ → List UserInfo → List SiteInfo → List AuditInput → AuditStore → Type 0
  IsAppended parse_date now users sites es s =
      (s' : AuditStore) × (append_audit_events sha parse_date now users sites es s
        ≡ some (length es, s'))
      × IsChained sha s'
      × ((verify_chain event_seq (compute_hash sha) (stored_rows s'.rows)
            (some (upserted s'.head))).ok
          ≡ true)
      × (new : List AuditRow) × (s'.rows ≡ s.rows ++ new)
      × (length new ≡ length es)

  IsAppended-All :
      (parse_date : Text → Option ℕ) (now : ℕ) (users : List UserInfo) (sites : List SiteInfo)
      (es : List AuditInput) (s : AuditStore)
      → IsChained sha s
      → All (IsStorable parse_date) es
      → (upserted s.head).last_seq + length es ≤ int8_max
      → IsAppended parse_date now users sites es s
  unfolding append_audit_events
  IsAppended-All parse_date now users sites [] s c h room =
      (s, refl, c, whole_verifies s c, [], sym (append-nil _), refl)
  IsAppended-All parse_date now users sites (e ∷ es) s c h room =
      let (ns, read) = normalize_all-some parse_date now users sites (e ∷ es) h in
      let new = (chain_rows sha (upserted s.head) ns).0 in
      let head' = (chain_rows sha (upserted s.head) ns).1 in
      let s' : AuditStore = record { rows = s.rows ++ new; head = some head' } in
      let as_many : length new ≡ length (e ∷ es) =
        length-chain_rows sha (upserted s.head) ns
        ∙ length-normalize_all parse_date now users sites (e ∷ es) ns read in
      let fits : leb head'.last_seq int8_max ≡ true =
        last_seq_fits (upserted s.head) ns (length (e ∷ es)) as_many room in
      let c' = appended s ns c in
      (
        s',
        rw (read, fits, as_many, append_audit_events),
        c',
        whole_verifies s' c',
        new,
        refl,
        as_many,
      )

  -- On a log that is a chain and whose numbers do not run out, a call whose events can all be stored
  -- returns their number and leaves a log that is a chain again, that verifies against its head, and
  -- that has the old rows followed by one row for each event; a call with an event that cannot be
  -- stored throws.
  pub append_audit_events-IsChained :
      (parse_date : Text → Option ℕ) (now : ℕ) (users : List UserInfo) (sites : List SiteInfo)
      (es : List AuditInput) (s : AuditStore)
      → IsChained sha s
      → (upserted s.head).last_seq + length es ≤ int8_max
      → (All (IsStorable parse_date) es × IsAppended parse_date now users sites es s)
        ⊎ ((¬ All (IsStorable parse_date) es)
            × (append_audit_events sha parse_date now users sites es s ≡ none))
  unfolding append_audit_events
  append_audit_events-IsChained parse_date now users sites [] s c room =
      inl (tt, IsAppended-All parse_date now users sites [] s c tt room)
  append_audit_events-IsChained parse_date now users sites (e ∷ es) s c room =
      elim (Option-cases (normalize_all parse_date now users sites (e ∷ es))) [
        | inl bad ↦ inr (
          (λ h.
              let (ns, good) = normalize_all-some parse_date now users sites (e ∷ es) h in
              absurd (ground (arith, bad, good))),
          rw (bad, append_audit_events),
        )
        | inr (ns, good) ↦
            let h = normalize_all-IsStorable parse_date now users sites (e ∷ es) ns good in
            inl (h, IsAppended-All parse_date now users sites (e ∷ es) s c h room)
      ]
