-- ===== src/Connector/Pairing.antt =====
-- About redeemPairing of lib/connector/enrollment.ts: revoked connectors.
use captivo_access.Prelude.{
  ℕ, ◌≡◌, refl, Bool, not, ◌&&◌, Option, none, some, Text, text_eq, is_some, arith, Bool-cases,
  Option-cases, inl, inr, ◌==◌, ◌∙◌, find?,
}
use captivo_access.Database.{Table, every, updated, tally}
use captivo_access.Database.Queries.{count-congr}
use captivo_access.Connector.{
  ConnectorRow, pending, name_or, PairingRow, PairMeta, is_revoked, rotated, is_open, Enrollment,
  attach_connector, finish_redeem, redeem_pairing,
}

module _ (tp : Table PairingRow) (tc : Table ConnectorRow) (id : Text) where
  -- The revoked connectors of one identifier.
  abbrev pub is_revoked_of : ConnectorRow → Bool
  is_revoked_of c = text_eq c.id id && is_revoked c.status

  rotated_keeps :
      (own token_hash : Text) (version : Option Text) (c : ConnectorRow)
      → is_revoked_of (
          updated
            (λ x. text_eq x.id own && not (is_revoked x.status))
            (rotated token_hash version)
            c)
        ≡ is_revoked_of c
  rotated_keeps own token_hash version c = ground arith

  attach_keeps :
      (p : PairingRow) (info : PairMeta) (new_id token_hash : Text) (target : Option Text)
      (s : Enrollment tp tc) (pairings : tp.Store)
      → tally tc is_revoked_of
          (attach_connector tp tc p info new_id token_hash target s
            (record s { pairings = pairings })).0.connectors
        ≡ tally tc is_revoked_of s.connectors
  unfolding attach_connector
  attach_keeps p info new_id token_hash none s pairings =
      let row : ConnectorRow = record {
        id = new_id;
        name = name_or info.name p.name;
        token_hash = token_hash;
        status = pending;
        version = info.version;
      } in
      ground (arith, tc.count-create row is_revoked_of s.connectors)
  attach_keeps p info new_id token_hash (some own) s pairings =
      let q = λ (c : ConnectorRow). text_eq c.id own && not (is_revoked c.status) in
      let f = rotated token_hash info.version in
      elim (Bool-cases ((tc.update_many q f s.connectors).1 == 0)) [
        | inl e ↦ rw (e, attach_connector) refl
        | inr e ↦
            rw (e, attach_connector)
              (tc.count-update q f is_revoked_of s.connectors
                ∙ count-congr (λ c. is_revoked_of (updated q f c)) is_revoked_of
                    (tc.find_many every s.connectors) (rotated_keeps own token_hash info.version))
      ]

  finish_keeps :
      (p : PairingRow) (info : PairMeta) (new_id token_hash : Text) (now : ℕ) (s : Enrollment tp tc)
      → tally tc is_revoked_of (finish_redeem tp tc p info new_id token_hash now s).0.connectors
        ≡ tally tc is_revoked_of s.connectors
  unfolding finish_redeem
  finish_keeps p info new_id token_hash now s =
      let q = λ (x : PairingRow). text_eq x.id p.id && not (is_some x.used_at) in
      let f = λ (x : PairingRow). record x { used_at = some now } in
      elim (Bool-cases ((tp.update_many q f s.pairings).1 == 0)) [
        | inl e ↦ rw (e, finish_redeem) refl
        | inr e ↦
            rw (e, finish_redeem)
              (attach_keeps p info new_id token_hash p.connector_id s
                (tp.update_many q f s.pairings).0)
      ]

-- A pairing code brings no revoked connector back: whatever is redeemed, the revoked connectors of
-- every identifier are as many as before.
pub redeem_pairing_keeps_revoked :
    (tp : Table PairingRow) (tc : Table ConnectorRow) (id : Text) (verify : Text → Text → Bool)
    (code : Text) (info : PairMeta) (new_id token_hash : Text) (now : ℕ) (s : Enrollment tp tc)
    → tally tc
        (is_revoked_of tp tc id)
        (redeem_pairing tp tc verify code info new_id token_hash now s).0.connectors
      ≡ tally tc (is_revoked_of tp tc id) s.connectors
unfolding redeem_pairing
redeem_pairing_keeps_revoked tp tc id verify code info new_id token_hash now s =
    elim (Option-cases
      (find? (λ p. verify code p.code_hash) (tp.find_many (is_open now) s.pairings))) [
        | inl e ↦ rw (e, redeem_pairing) refl
        | inr (p, e) ↦ rw (e, redeem_pairing) (finish_keeps tp tc id p info new_id token_hash now s)
      ]
