-- ===== src/Tests/Connector.antt =====
-- A pairing code redeemed at concrete tables: the connector that it names has been revoked.
use captivo_access.Prelude.{◌≡◌, ◌∷◌, [], some, none, lit, text_eq}
use captivo_access.Database.{Table, tally}
use captivo_access.Database.ListTable.{list_table}
use captivo_access.Connector.{
  ConnectorRow, revoked, PairingRow, PairMeta, Enrollment, redeem_pairing,
}
use captivo_access.Connector.Pairing.{is_revoked_of, redeem_pairing_keeps_revoked}

abbrev pairings : Table PairingRow
pairings = list_table PairingRow

abbrev connectors : Table ConnectorRow
connectors = list_table ConnectorRow

abbrev site_code : PairingRow
site_code = record {
  id = lit "p1";
  name = lit "office";
  code_hash = lit "code";
  connector_id = some (lit "c1");
  expires_at = 5000;
  used_at = none;
}

abbrev old_connector : ConnectorRow
old_connector = record {
  id = lit "c1";
  name = lit "office";
  token_hash = lit "old";
  status = revoked;
  version = none;
}

abbrev enrolled : Enrollment pairings connectors
enrolled = record { pairings = site_code ∷ []; connectors = old_connector ∷ [] }

abbrev no_info : PairMeta
no_info = record { name = none; version = none }

redeem_pairing_example :
    tally connectors
      (is_revoked_of pairings connectors (lit "c1"))
      (redeem_pairing pairings connectors text_eq
        (lit "code")
        no_info
        (lit "c2")
        (lit "new")
        1000
        enrolled).0.connectors
    ≡ tally connectors (is_revoked_of pairings connectors (lit "c1")) (old_connector ∷ [])
redeem_pairing_example =
    redeem_pairing_keeps_revoked pairings connectors (lit "c1") text_eq (lit "code") no_info
      (lit "c2") (lit "new") 1000 enrolled
