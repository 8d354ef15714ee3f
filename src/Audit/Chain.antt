-- ===== src/Audit/Chain.antt =====
-- lib/audit/chain.ts: the attested text of an event and the hash that links it to its predecessor.
-- SHA-256 (in hex) is a parameter, `sha`.
use captivo_access.Prelude.{ℕ, List, [], ◌∷◌, ◌++◌, Option, Text, join, get_or}
use captivo_access.Prelude.Decimal.{Integer, decimal, integer_text, iso_string}

pub record ChainableEvent : Type 0 where
  pub seq : ℕ
  pub timestamp : ℕ
  pub user_id : Option Text
  pub site_id : Option Text
  pub host : Text
  pub method : Text
  pub path : Text
  -- The column is an `Int`.
  pub status : Integer
  pub bytes_out : ℕ
  pub decision : Text
  pub reason : Option Text
  pub client_ip : Option Text
  pub user_agent : Option Text

-- `US`.
abbrev pub unit_separator : Text
unit_separator = 0x1f ∷ []

abbrev pub genesis_prev_hash : Text
genesis_prev_hash = []

-- The fields, in their frozen order.
unfoldable pub canonical_fields : ChainableEvent → List Text
canonical_fields e =
    decimal e.seq
    ∷ iso_string e.timestamp
    ∷ get_or e.user_id []
    ∷ get_or e.site_id []
    ∷ e.host
    ∷ e.method
    ∷ e.path
    ∷ integer_text e.status
    ∷ decimal e.bytes_out
    ∷ e.decision
    ∷ get_or e.reason []
    ∷ get_or e.client_ip []
    ∷ get_or e.user_agent []
    ∷ []

unfoldable pub canonicalize : ChainableEvent → Text
canonicalize e = join unit_separator (canonical_fields e)

module _ (sha : Text → Text) where
  unfoldable pub chain_hash : Text → Text → Text
  chain_hash prev_hash canonical = sha (prev_hash ++ (10 ∷ canonical))

  unfoldable pub compute_hash : Text → ChainableEvent → Text
  compute_hash prev_hash e = chain_hash prev_hash (canonicalize e)
