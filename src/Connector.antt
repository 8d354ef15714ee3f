-- ===== src/Connector.antt =====
-- lib/connector/enrollment.ts: pairing codes and connector tokens, in a deployment of one tenant (the
-- code with `multiTenantEnabled` off). `verify` is the argon2 check of a secret against its hash;
-- the new token, its hash, identifiers and the clock are arguments. A transaction that throws
-- leaves both tables as they were.
pub mod Pairing
use captivo_access.Prelude.{
  ℕ, ◌+◌, ◌*◌, Bool, true, false, not, ◌&&◌, List, [], ◌∷◌, Option, none, some, Text, text_eq,
  is_empty, trim, ltb, leb, ◌==◌, is_some, get_or, find?, if◌then◌else◌,
}
use captivo_access.Database.{Table, every}

pub data ConnectorStatus : Type 0 where
  pending online offline revoked : ConnectorStatus

pub record ConnectorRow : Type 0 where
  pub id : Text
  pub name : Text
  pub token_hash : Text
  pub status : ConnectorStatus
  pub version : Option Text

pub record PairingRow : Type 0 where
  pub id : Text
  pub name : Text
  pub code_hash : Text
  pub connector_id : Option Text
  pub expires_at : ℕ
  pub used_at : Option ℕ

pub record PairMeta : Type 0 where
  pub name : Option Text
  pub version : Option Text

abbrev pub is_revoked : ConnectorStatus → Bool
is_revoked revoked = true
is_revoked _ = false

-- `meta.name?.trim() || p.name`.
abbrev pub name_or : Option Text → Text → Text
name_or none name = name
name_or (some n) name = if is_empty (trim n) then name else trim n

-- `version: meta.version ?? undefined` leaves the column as it is.
abbrev pub version_or : Option Text → Option Text → Option Text
version_or none old = old
version_or (some v) old = some v

abbrev pub rotated : Text → Option Text → ConnectorRow → ConnectorRow
rotated token_hash version c = record c {
  token_hash = token_hash;
  status = pending;
  version = version_or version c.version;
}

abbrev pub is_open : ℕ → PairingRow → Bool
is_open now p = not (is_some p.used_at) && ltb now p.expires_at

module _ (tp : Table PairingRow) (tc : Table ConnectorRow) where
  pub record Enrollment : Type 0 where
    pub pairings : tp.Store
    pub connectors : tc.Store

  unfoldable pub create_pairing : Text → Text → Text → Option Text → ℕ → ℕ → Enrollment → Enrollment
  create_pairing id code_hash name connector_id ttl_minutes now s = record s {
    pairings =
        tp.create
          (record {
            id = id;
            name = name;
            code_hash = code_hash;
            connector_id = connector_id;
            expires_at = now + ttl_minutes * 60000;
            used_at = none;
          })
          s.pairings;
  }

  -- The second half of the transaction, once the pairing is consumed: `before` is what a throw
  -- restores, `s` the tables so far.
  unfoldable pub attach_connector :
      PairingRow
      → PairMeta
      → Text
      → Text
      → Option Text
      → Enrollment
      → Enrollment
      → Enrollment × Option Text
  attach_connector p info new_id token_hash none before s = (
    record s {
      connectors =
          tc.create
            (record {
              id = new_id;
              name = name_or info.name p.name;
              token_hash = token_hash;
              status = pending;
              version = info.version;
            })
            s.connectors;
    },
    some new_id,
  )
  attach_connector p info new_id token_hash (some id) before s =
      let (connectors, n) =
        tc.update_many (λ c. text_eq c.id id && not (is_revoked c.status))
          (rotated token_hash info.version) s.connectors in
      if n == 0 then (before, none) else (record s { connectors = connectors }, some id)

  -- The identifier of the connector, and the tables after the call.
  unfoldable pub finish_redeem :
      PairingRow → PairMeta → Text → Text → ℕ → Enrollment → Enrollment × Option Text
  finish_redeem p info new_id token_hash now s =
      let (pairings, n) =
        tp.update_many (λ x. text_eq x.id p.id && not (is_some x.used_at))
          (λ x. record x { used_at = some now }) s.pairings in
      if n == 0
      then (s, none)
      else attach_connector p info new_id token_hash p.connector_id s
          (record s { pairings = pairings })

  unfoldable pub redeem_pairing :
      (Text → Text → Bool)
      → Text
      → PairMeta
      → Text
      → Text
      → ℕ
      → Enrollment
      → Enrollment × Option Text
  redeem_pairing verify code info new_id token_hash now s =
      elim (find? (λ p. verify code p.code_hash) (tp.find_many (is_open now) s.pairings)) [
        | none ↦ (s, none)
        | some p ↦ finish_redeem p info new_id token_hash now s
      ]

  unfoldable pub validate_connector_token : (Text → Text → Bool) → Text → Enrollment → Option Text
  validate_connector_token verify token s =
      elim (find? (λ c. verify token c.token_hash)
        (tc.find_many (λ c. not (is_revoked c.status)) s.connectors)) [
          | none ↦ none
          | some c ↦ some c.id
        ]
