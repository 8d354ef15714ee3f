-- ===== src/Audit/Admin.antt =====
-- lib/audit/admin-chain.ts and admin.ts: the chain of administrative actions. `quote` is
-- `JSON.stringify` of a string and `number_text` that of a number. The verifier is that of
-- Audit/Verify at these events.
pub mod Canonical
pub mod Records
pub mod Sorting
pub mod Undefined
use captivo_access.Prelude.{
  ℕ, ◌+◌, none, some, true, false, List, [], ◌∷◌, ◌++◌, Option, map, Text, lit, join, get_or,
  if◌then◌else◌,
}
use captivo_access.Prelude.Order.{text_leb}
use captivo_access.Prelude.Decimal.{decimal, iso_string}
use captivo_access.Json.{
  Num, Json, undefined, null, bool, num, str, arr, obj, Items, nil, cons, Fields, field, end,
}
use captivo_access.Audit.Chain.{unit_separator, chain_hash}
use captivo_access.Audit.Verify.{Stored, ChainHead, ChainVerifyResult, verify_chain}

pub record AdminChainable : Type 0 where
  pub seq : ℕ
  pub timestamp : ℕ
  pub actor_id : Option Text
  pub actor_email : Option Text
  pub action : Text
  pub target_type : Option Text
  pub target_id : Option Text
  pub summary : Text
  pub metadata : Json
  pub client_ip : Option Text

abbrev pub admin_seq : AdminChainable → ℕ
admin_seq e = e.seq

-- `e.metadata ?? null`.
abbrev pub or_null : Json → Json
or_null undefined = null
or_null v = v

-- `Object.keys(o).sort()`, each key with the text of its value. The keys of an object differ, so
-- every way to sort them gives this list.
unfoldable pub insert_key : Text × Text → List (Text × Text) → List (Text × Text)
insert_key x [] = x ∷ []
insert_key x (y ∷ ys) = if text_leb x.0 y.0 then x ∷ y ∷ ys else y ∷ insert_key x ys

unfoldable pub sort_keys : List (Text × Text) → List (Text × Text)
sort_keys [] = []
sort_keys (x ∷ xs) = insert_key x (sort_keys xs)

module _ (quote : Text → Text) (number_text : Num → Text) where
  unfoldable mutual
    pub stable_stringify : Json → Text
    stable_stringify undefined = lit "null"
    stable_stringify null = lit "null"
    stable_stringify (bool true) = lit "true"
    stable_stringify (bool false) = lit "false"
    stable_stringify (num n) = number_text n
    stable_stringify (str s) = quote s
    stable_stringify (arr vs) = lit "[" ++ join (lit ",") (item_texts vs) ++ lit "]"
    stable_stringify (obj fs) =
        lit "{"
        ++ join (lit ",") (map (λ e. quote e.0 ++ lit ":" ++ e.1) (sort_keys (field_texts fs)))
        ++ lit "}"

    pub item_texts : Items → List Text
    item_texts nil = []
    item_texts (cons v vs) = stable_stringify v ∷ item_texts vs

    -- Each key with the text of its value.
    pub field_texts : Fields → List (Text × Text)
    field_texts end = []
    field_texts (field k v fs) = (k, stable_stringify v) ∷ field_texts fs

  unfoldable pub canonicalize_admin : AdminChainable → Text
  canonicalize_admin e = join unit_separator (
      decimal e.seq
      ∷ iso_string e.timestamp
      ∷ get_or e.actor_id []
      ∷ get_or e.actor_email []
      ∷ e.action
      ∷ get_or e.target_type []
      ∷ get_or e.target_id []
      ∷ e.summary
      ∷ stable_stringify (or_null e.metadata)
      ∷ get_or e.client_ip []
      ∷ [])

  unfoldable pub compute_admin_hash : (Text → Text) → Text → AdminChainable → Text
  compute_admin_hash sha prev_hash e = chain_hash sha prev_hash (canonicalize_admin e)

  unfoldable pub verify_admin_chain :
      (Text → Text) → List (Stored AdminChainable) → Option ChainHead → ChainVerifyResult
  verify_admin_chain sha events head = verify_chain admin_seq (compute_admin_hash sha) events head

-- The argument of `recordAdminAction`; an absent property is `none`.
pub record AdminAction : Type 0 where
  pub actor_id : Text
  pub actor_email : Option Text
  pub action : Text
  pub target_type : Option Text
  pub target_id : Option Text
  pub summary : Text
  pub metadata : Option Fields
  pub client_ip : Option Text

pub record AdminLog : Type 0 where
  pub rows : List (Stored AdminChainable)
  pub head : Option ChainHead

-- The head row as the `upsert` gives it.
abbrev pub admin_head : Option ChainHead → ChainHead
admin_head none = record { last_seq = 0; last_hash = [] }
admin_head (some h) = h

abbrev pub metadata_json : Option Fields → Json
metadata_json none = null
metadata_json (some fs) = obj fs

-- What recording an action takes: `computeAdminHash`, and what the JSON column of the table gives
-- back of a value that is written to it.
pub record AdminWriter : Type 0 where
  pub hash : Text → AdminChainable → Text
  pub column : Json → Json

-- `input.metadata ? input.metadata : undefined` for the column: no metadata is the database's null.
abbrev pub kept : (Json → Json) → Json → Json
kept column null = null
kept column v = column v

-- The event with its metadata as the column gives it back.
abbrev pub reread : (Json → Json) → AdminChainable → AdminChainable
reread column e = record e { metadata = column e.metadata }

unfoldable pub admin_event : ℕ → ℕ → AdminAction → AdminChainable
admin_event seq now input = record {
  seq = seq;
  timestamp = now;
  actor_id = some input.actor_id;
  actor_email = input.actor_email;
  action = input.action;
  target_type = input.target_type;
  target_id = input.target_id;
  summary = input.summary;
  metadata = metadata_json input.metadata;
  client_ip = input.client_ip;
}

-- `recordAdminAction` where the transaction succeeds; where it throws, the log stays as it was. The
-- hash is taken over the action, and the row holds what the column keeps of its metadata.
unfoldable pub record_admin_action : AdminWriter → ℕ → AdminAction → AdminLog → AdminLog
record_admin_action writer now input s =
    let head = admin_head s.head in
    let seq = head.last_seq + 1 in
    let event = admin_event seq now input in
    let hash = writer.hash head.last_hash event in
    let row : Stored AdminChainable = record {
      event = reread (kept writer.column) event;
      prev_hash = head.last_hash;
      hash = hash;
    } in
    record { rows = s.rows ++ row ∷ []; head = some (record { last_seq = seq; last_hash = hash }) }
