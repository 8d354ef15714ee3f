-- ===== src/Audit/Admin/Records.antt =====
-- About recordAdminAction of lib/audit/admin.ts and the chain that it extends.
use mathlib.Core.List.{map-append}
use captivo_access.Prelude.{
  ℕ, ◌+◌, ◌≡◌, refl, ap, true, List, [], ◌∷◌, ◌++◌, map, some, Text, length, length-append,
}
use captivo_access.Json.{Num, Json}
use captivo_access.Audit.Chain.{chain_hash}
use captivo_access.Audit.Verify.{Stored, ChainHead}
use captivo_access.Audit.Verify.Reread.{on_event}
use captivo_access.Audit.Admin.Canonical.{Reordered, canonicalize_admin-reread}
use captivo_access.Audit.Verify.Retention.{IsChainFrom, IsChainFrom-append, retention_verifies}
use captivo_access.Audit.Admin.{
  AdminChainable, admin_seq, compute_admin_hash, verify_admin_chain, AdminAction, AdminLog,
  admin_head, admin_event, record_admin_action, AdminWriter, kept, reread, metadata_json,
}

module _ (quote : Text → Text) (number_text : Num → Text) (sha : Text → Text) where
  abbrev pub admin_hash : Text → AdminChainable → Text
  admin_hash = compute_admin_hash quote number_text sha

  -- The rows that are left of the log are a chain up to its head.
  pub record IsAdminChained (s : AdminLog) : Type 0 where
    pub purged : ℕ
    pub before : Text
    pub chain : IsChainFrom admin_seq admin_hash purged before s.rows (admin_head s.head)

  -- The rows are what the column gives back of a chain up to the head.
  pub record IsAdminWritten (column : Json → Json) (s : AdminLog) : Type 0 where
    pub purged : ℕ
    pub before : Text
    pub written : List (Stored AdminChainable)
    pub given_back : s.rows ≡ map (on_event (reread (kept column))) written
    pub chain : IsChainFrom admin_seq admin_hash purged before written (admin_head s.head)

  -- A row whose hash is that of its event, or is not seen to differ.
  new_row-IsChainFrom :
      (e : AdminChainable) (head : ChainHead) (hash : Text)
      → e.seq ≡ head.last_seq + 1
      → admin_hash head.last_hash e ≡ hash
      → IsChainFrom admin_seq admin_hash head.last_seq head.last_hash
          (record { event = e; prev_hash = head.last_hash; hash = hash } ∷ [])
          (record { last_seq = head.last_seq + 1; last_hash = hash })
  new_row-IsChainFrom e head hash numbered same = record {
    linked = (refl, same, tt);
    numbered = (numbered, tt);
    ends_hash = refl;
    ends_seq = refl;
  }

  -- What the writer is that hashes with `computeAdminHash`.
  abbrev pub writer : (Json → Json) → AdminWriter
  writer column = record { hash = admin_hash; column = column }

  pub record_admin_action-IsAdminWritten :
      (column : Json → Json) (now : ℕ) (input : AdminAction) (s : AdminLog)
      → IsAdminWritten column s
      → IsAdminWritten column (record_admin_action (writer column) now input s)
  unfolding record_admin_action admin_event
  record_admin_action-IsAdminWritten column now input s c =
      let head = admin_head s.head in
      let event = admin_event (head.last_seq + 1) now input in
      let hash = admin_hash head.last_hash event in
      let row : Stored AdminChainable = record {
        event = event;
        prev_hash = head.last_hash;
        hash = hash;
      } in
      record {
        purged = c.purged;
        before = c.before;
        written = c.written ++ row ∷ [];
        given_back = rw (map-append, c.given_back) refl;
        chain =
            IsChainFrom-append admin_seq admin_hash c.purged c.before c.written _ head _ c.chain
              (new_row-IsChainFrom event head hash refl refl);
      }

  record_admin_action-chain :
      (column : Json → Json) (now : ℕ) (input : AdminAction) (s : AdminLog)
      → Reordered (metadata_json input.metadata) (kept column (metadata_json input.metadata))
      → IsAdminChained s
      → IsAdminChained (record_admin_action (writer column) now input s)
  unfolding record_admin_action admin_event compute_admin_hash
  record_admin_action-chain column now input s keeps c =
      let head = admin_head s.head in
      let event = admin_event (head.last_seq + 1) now input in
      record {
        purged = c.purged;
        before = c.before;
        chain = IsChainFrom-append admin_seq admin_hash c.purged c.before s.rows _ head _ c.chain (
            new_row-IsChainFrom (reread (kept column) event) head (admin_hash head.last_hash event)
              refl
              (ap (chain_hash sha head.last_hash)
                (canonicalize_admin-reread quote number_text (kept column) event keeps)));
      }

-- Where the column gives back the metadata of the action with the properties of its objects in any
-- order (and so without an `undefined` property), recording the action in a log that is a chain up to
-- its head leaves a log that is one again, that has one more row, and that the verifier accepts
-- against its head.
pub record_admin_action-IsAdminChained :
    (quote : Text → Text) (number_text : Num → Text) (sha : Text → Text) (column : Json → Json)
    (now : ℕ) (input : AdminAction) (s : AdminLog)
    → IsAdminChained quote number_text sha s
    → Reordered (metadata_json input.metadata) (kept column (metadata_json input.metadata))
    → let s' = record_admin_action (writer quote number_text sha column) now input s in
      IsAdminChained quote number_text sha s'
      × (length s'.rows ≡ length s.rows + 1)
      × ((verify_admin_chain quote number_text sha s'.rows (some (admin_head s'.head))).ok ≡ true)
unfolding record_admin_action verify_admin_chain
record_admin_action-IsAdminChained quote number_text sha column now input s c keeps =
    let s' = record_admin_action (writer quote number_text sha column) now input s in
    let c' = record_admin_action-chain quote number_text sha column now input s keeps c in
    (
      c',
      length-append s.rows _,
      retention_verifies admin_seq (compute_admin_hash quote number_text sha) c'.purged c'.before []
          s'.rows (admin_head s'.head) c'.chain,
    )
