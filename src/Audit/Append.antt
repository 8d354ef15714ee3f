-- ===== src/Audit/Append.antt =====
-- lib/audit/append.ts: normalising incoming events and appending them to the access chain. The log
-- is the list of its rows in the order of `seq`, as the verifier reads them; the transaction holds
-- the chain's lock, so one run sees what the run before it wrote.
pub mod Keeps
pub mod Storable
use captivo_access.Prelude.{
  ℕ, suc, ◌+◌, Bool, List, [], ◌∷◌, ◌++◌, Option, none, some, map, Text, lit, text_eq, is_empty,
  get_or, leb, length, find?, if◌then◌else◌,
}
use captivo_access.Prelude.Decimal.{Integer, pos}
use captivo_access.Json.{Num, nat, negsuc, fraction, infinite, nan}
use captivo_access.Audit.Chain.{ChainableEvent, compute_hash}
use captivo_access.Audit.Verify.{Stored, ChainHead}

-- `AuditInput`; an absent property is `none`.
pub record AuditInput : Type 0 where
  pub timestamp : Option Text
  pub user_id : Option Text
  pub site_id : Option Text
  pub host : Option Text
  pub method : Option Text
  pub path : Option Text
  pub status : Option Num
  pub bytes_out : Option Num
  pub decision : Option Text
  pub reason : Option Text
  pub client_ip : Option Text
  pub user_agent : Option Text

-- The columns of a user and of a site that the rows repeat.
pub record UserInfo : Type 0 where
  pub id : Text
  pub email : Option Text
  pub name : Option Text
  pub company : Option Text

pub record SiteInfo : Type 0 where
  pub id : Text
  pub name : Option Text

-- The display columns of a row, which the hash leaves out.
pub record Display : Type 0 where
  pub user_email : Option Text
  pub user_name : Option Text
  pub company : Option Text
  pub site_name : Option Text

-- `NormalizedAuditRow`: the attested fields, whose sequence number is not set yet, and the display
-- columns.
pub record NormalizedRow : Type 0 where
  pub fields : ChainableEvent
  pub display : Display

pub record AuditRow : Type 0 where
  pub stored : Stored ChainableEvent
  pub display : Display

-- `id ? map.get(id) ?? null : null`.
abbrev pub lookup_name {ℓ} :
    {A : Type ℓ} → (A → Text) → (A → Option Text) → Option Text → List A → Option Text
lookup_name key column none rows = none
lookup_name key column (some id) rows =
    if is_empty id
    then none
    else elim (find? (λ r. text_eq (key r) id) rows) [ none ↦ none | some r ↦ column r ]

-- `BigInt(Math.max(0, Math.trunc(n)))`; `none` where `BigInt` throws.
unfoldable pub bytes_of : Option Num → Option ℕ
bytes_of none = some 0
bytes_of (some (nat n)) = some n
bytes_of (some (negsuc n)) = some 0
bytes_of (some (fraction negative n)) = some (if negative then 0 else n)
bytes_of (some (infinite negative)) = if negative then some 0 else none
bytes_of (some nan) = none

-- The largest numbers of the columns `Int` and `BigInt` of prisma/schema.prisma.
abbrev pub int4_max : ℕ
int4_max = 2147483647

abbrev pub int8_max : ℕ
int8_max = 9223372036854775807

-- `typeof e.status === "number" ? e.status : 0` in its column; `none` where the column cannot hold it,
-- so that `createMany` throws.
unfoldable pub status_of : Option Num → Option Integer
status_of none = some (pos 0)
status_of (some (nat n)) = if leb n int4_max then some (pos n) else none
status_of (some (negsuc n)) = if leb n int4_max then some (Integer.negsuc n) else none
status_of (some _) = none

-- The bytes in their column.
unfoldable pub stored_bytes : Option Num → Option ℕ
unfolding bytes_of
stored_bytes n = elim (bytes_of n) [
  | none ↦ none
  | some b ↦ if leb b int8_max then some b else none
]

-- `e.decision === "DENY" ? "DENY" : "ALLOW"`.
abbrev pub decision_of : Option Text → Text
decision_of none = lit "ALLOW"
decision_of (some d) = if text_eq d (lit "DENY") then lit "DENY" else lit "ALLOW"

-- The row, from the time, the status and the bytes that were read.
abbrev pub normalized_row :
    List UserInfo → List SiteInfo → AuditInput → ℕ → Integer → ℕ → NormalizedRow
normalized_row users sites e at status bytes = record {
  fields = record {
    seq = 0;
    timestamp = at;
    user_id = e.user_id;
    site_id = e.site_id;
    host = get_or e.host [];
    method = get_or e.method [];
    path = get_or e.path [];
    status = status;
    bytes_out = bytes;
    decision = decision_of e.decision;
    reason = e.reason;
    client_ip = e.client_ip;
    user_agent = e.user_agent;
  };
  display = record {
    user_email = lookup_name (λ (u : UserInfo). u.id) (λ u. u.email) e.user_id users;
    user_name = lookup_name (λ (u : UserInfo). u.id) (λ u. u.name) e.user_id users;
    company = lookup_name (λ (u : UserInfo). u.id) (λ u. u.company) e.user_id users;
    site_name = lookup_name (λ (s : SiteInfo). s.id) (λ s. s.name) e.site_id sites;
  };
}

module _ (parse_date : Text → Option ℕ) (now : ℕ) where
  -- `e.timestamp ? new Date(e.timestamp) : new Date()`; an invalid date is `none`.
  abbrev pub timestamp_of : Option Text → Option ℕ
  timestamp_of none = some now
  timestamp_of (some t) = if is_empty t then some now else parse_date t

  -- `normalizeAuditInput`; `none` where it throws, where the date has no ISO text, or where a column
  -- cannot hold a number: the call throws and stores nothing.
  unfoldable pub normalize_audit_input :
      List UserInfo → List SiteInfo → AuditInput → Option NormalizedRow
  normalize_audit_input users sites e = elim (timestamp_of e.timestamp) [
    | none ↦ none
    | some at ↦ elim (stored_bytes e.bytes_out) [
      | none ↦ none
      | some bytes ↦ elim (status_of e.status) [
        | none ↦ none
        | some status ↦ some (normalized_row users sites e at status bytes)
      ]
    ]
  ]

  -- All events, or `none` as soon as one throws.
  unfoldable pub normalize_all :
      List UserInfo → List SiteInfo → List AuditInput → Option (List NormalizedRow)
  normalize_all users sites [] = some []
  normalize_all users sites (e ∷ es) = elim (normalize_audit_input users sites e) [
    | none ↦ none
    | some n ↦ elim (normalize_all users sites es) [ none ↦ none | some ns ↦ some (n ∷ ns) ]
  ]

pub record AuditStore : Type 0 where
  pub rows : List AuditRow
  pub head : Option ChainHead

-- The head row as the `upsert` gives it: created with its defaults where it is missing.
abbrev pub upserted : Option ChainHead → ChainHead
upserted none = record { last_seq = 0; last_hash = [] }
upserted (some h) = h

module _ (sha : Text → Text) where
  -- The closure that numbers and links the rows, with its two variables `lastSeq` and `lastHash`.
  unfoldable pub chain_rows : ChainHead → List NormalizedRow → List AuditRow × ChainHead
  chain_rows head [] = ([], head)
  chain_rows head (n ∷ ns) =
      let seq = head.last_seq + 1 in
      let event = record n.fields { seq = seq } in
      let hash = compute_hash sha head.last_hash event in
      let row : AuditRow = record {
        stored = record { event = event; prev_hash = head.last_hash; hash = hash };
        display = n.display;
      } in
      let (rest, head') = chain_rows (record { last_seq = seq; last_hash = hash }) ns in
      (row ∷ rest, head')

  -- `appendAuditEvents`: the number of rows, and the log after it; `none` where it throws, which
  -- leaves the log as it was.
  unfoldable pub append_audit_events :
      (Text → Option ℕ)
      → ℕ
      → List UserInfo
      → List SiteInfo
      → List AuditInput
      → AuditStore
      → Option (ℕ × AuditStore)
  append_audit_events parse_date now users sites [] s = some (0, s)
  append_audit_events parse_date now users sites (e ∷ es) s =
      elim (normalize_all parse_date now users sites (e ∷ es)) [
        | none ↦ none
        | some ns ↦
            let (new, head') = chain_rows (upserted s.head) ns in
            if leb head'.last_seq int8_max
            then some (length new, record { rows = s.rows ++ new; head = some head' })
            else none
      ]
