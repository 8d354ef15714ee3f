-- ===== src/Audit/Backfill/Chained.antt =====
-- About backfillAdminChain of lib/audit/admin-backfill.ts and the chain that it extends.
use captivo_access.Prelude.{
  ◌+◌, ◌≡◌, refl, true, List, [], ◌∷◌, ◌++◌, inl, inr, some, Text, arith, length, ap, sym,
}
use captivo_access.Prelude.Slices.{List-cases}
use captivo_access.Json.{Num}
use captivo_access.Audit.Verify.{ChainHead}
use captivo_access.Audit.Verify.Retention.{IsChainFrom, IsChainFrom-append, retention_verifies}
use captivo_access.Audit.Admin.{
  AdminChainable, admin_seq, admin_head, compute_admin_hash, verify_admin_chain,
}
use captivo_access.Audit.Admin.Records.{IsAdminChained}
use captivo_access.Audit.Backfill.{
  Unchained, numbered, AdminTable, chain_pending, backfill_pending, backfill_admin_chain,
}

module _ (quote : Text → Text) (number_text : Num → Text) (sha : Text → Text) where
  abbrev hash : Text → AdminChainable → Text
  hash = compute_admin_hash quote number_text sha

  chain_pending-IsChainFrom :
      (head : ChainHead) (rows : List Unchained)
      → IsChainFrom admin_seq hash head.last_seq head.last_hash
          (chain_pending hash head rows).0
          (chain_pending hash head rows).1
  unfolding chain_pending numbered
  chain_pending-IsChainFrom head [] = record {
    linked = tt;
    numbered = tt;
    ends_hash = refl;
    ends_seq = omega arith;
  }
  chain_pending-IsChainFrom head (r ∷ rest) =
      let seq = head.last_seq + 1 in
      let digest = hash head.last_hash (numbered seq r) in
      let more = chain_pending-IsChainFrom (record { last_seq = seq; last_hash = digest }) rest in
      record {
        linked = (refl, refl, more.linked);
        numbered = (refl, more.numbered);
        ends_hash = more.ends_hash;
        ends_seq = omega (arith, more.ends_seq);
      }

  backfill-IsAdminChained :
      (s : AdminTable)
      → IsAdminChained quote number_text sha s.log
      → IsAdminChained quote number_text sha (backfill_admin_chain hash s).0.log
  unfolding backfill_admin_chain
  backfill-IsAdminChained s c = elim (List-cases s.unchained) [
    | inl e ↦ rw (ap (backfill_pending hash s) e) c
    | inr (r, rest, e) ↦ rw (ap (backfill_pending hash s) e) (chained r rest)
  ]
    where
      chained :
          (r : Unchained) (rest : List Unchained)
          → IsAdminChained quote number_text sha (record {
            rows = s.log.rows ++ (chain_pending hash (admin_head s.log.head) (r ∷ rest)).0;
            head = some (chain_pending hash (admin_head s.log.head) (r ∷ rest)).1;
          })
      chained r rest = record {
        purged = c.purged;
        before = c.before;
        chain =
            IsChainFrom-append admin_seq hash c.purged c.before s.log.rows
              (chain_pending hash (admin_head s.log.head) (r ∷ rest)).0 (admin_head s.log.head)
              (chain_pending hash (admin_head s.log.head) (r ∷ rest)).1 c.chain
              (chain_pending-IsChainFrom (admin_head s.log.head) (r ∷ rest));
      }

  -- A second run finds nothing to do.
  backfill_settles :
      (s : AdminTable)
      → let (s', n) = backfill_admin_chain hash s in
        (s'.unchained ≡ []) × (n ≡ length s.unchained) × (backfill_admin_chain hash s' ≡ (s', 0))
  unfolding backfill_admin_chain
  backfill_settles s = elim (List-cases s.unchained) [
    | inl e ↦
        let idle : backfill_admin_chain hash s ≡ (s, 0) = ap (backfill_pending hash s) e in
        rw idle (e, sym (ap length e), idle)
    | inr (r, rest, e) ↦
        rw (ap (backfill_pending hash s) e, backfill_admin_chain) (refl, sym (ap length e), refl)
  ]

-- Where the log of administrative actions is a chain up to its head, the backfill leaves one that
-- verifies, leaves no row outside of it, reports how many it chained, and does nothing when it runs
-- again.
pub backfill_admin_chain-IsAdminChained :
    (quote : Text → Text) (number_text : Num → Text) (sha : Text → Text) (s : AdminTable)
    → IsAdminChained quote number_text sha s.log
    → let compute = compute_admin_hash quote number_text sha in
      let (s', n) = backfill_admin_chain compute s in
      IsAdminChained quote number_text sha s'.log
      × ((verify_admin_chain quote number_text sha s'.log.rows (some (admin_head s'.log.head))).ok
          ≡ true)
      × (s'.unchained ≡ [])
      × (n ≡ length s.unchained)
      × (backfill_admin_chain compute s' ≡ (s', 0))
unfolding verify_admin_chain
backfill_admin_chain-IsAdminChained quote number_text sha s c =
    let c' = backfill-IsAdminChained quote number_text sha s c in
    let (none_left, counted, again) = backfill_settles quote number_text sha s in
    (
      c',
      retention_verifies admin_seq (compute_admin_hash quote number_text sha) c'.purged c'.before []
          _ _ c'.chain,
      none_left,
      counted,
      again,
    )
