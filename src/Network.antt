-- ===== src/Network.antt =====
-- lib/net/cidr.ts, the list of allowed addresses, and app/api/internal/access/check/route.ts, the
-- question of the data plane that puts the list in front of the decision on access (for the tenant of
-- the site, whom a wrapper finds that is not modelled).
pub mod Lists
pub mod Memo
pub mod Gate
use captivo_access.Prelude.{
  ℕ, ◌≡◌, Bool, true, false, not, ◌&&◌, ◌||◌, List, [], ◌∷◌, Option, none, some, Text, lit, text_eq,
  leb, ◌==◌, is_empty, is_some, is_digit, is_space, trim, split, select, all, length, map, get_or,
  if◌then◌else◌,
}
use mathlib.Core.List.{reverse}
use captivo_access.Prelude.Outcomes.{Outcome, returns, replies, ◌>>=◌, ◌>>◌, require}
use captivo_access.Json.{Json, Fields, get, as_string}
use captivo_access.Database.{Table}
use captivo_access.Access.Schedule.{Intl}
use captivo_access.Access.Evaluate.{Grant, User, Decision, evaluate_access}
use captivo_access.Access.Routes.Replies.{Failure, failure}

pub data Family : Type 0 where
  ipv4 ipv6 : Family

-- What the code takes from `node:net`: `isIP` (`none` for 0) and `BlockList`. The methods that add a
-- rule throw on a rule out of range, `none`. The laws are the documented behaviour: a fresh list
-- blocks nothing, a rule is taken or refused for what it is, and blocks what it covers.
pub record NodeNet (Number : Type 0) : Type 1 where
  pub is_ip : Text → Option Family
  pub BlockList : Type 0
  pub fresh : BlockList
  pub add_address : Text → Family → BlockList → Option BlockList
  pub add_subnet : Text → Number → Family → BlockList → Option BlockList
  pub check : Text → Family → BlockList → Bool
  pub takes_address : Text → Family → Bool
  pub takes_subnet : Text → Number → Family → Bool
  pub is_address : Text → Family → Text → Family → Bool
  pub in_subnet : Text → Number → Family → Text → Family → Bool
  pub check-fresh : (ip : Text) (g : Family) → check ip g fresh ≡ false
  pub takes-address :
      (a : Text) (f : Family) (b : BlockList) → is_some (add_address a f b) ≡ takes_address a f
  pub takes-subnet :
      (a : Text) (n : Number) (f : Family) (b : BlockList)
      → is_some (add_subnet a n f b) ≡ takes_subnet a n f
  pub check-address :
      (a : Text) (f : Family) (b b' : BlockList) (ip : Text) (g : Family)
      → add_address a f b ≡ some b'
      → check ip g b' ≡ (is_address a f ip g || check ip g b)
  pub check-subnet :
      (a : Text) (n : Number) (f : Family) (b b' : BlockList) (ip : Text) (g : Family)
      → add_subnet a n f b ≡ some b'
      → check ip g b' ≡ (in_subnet a n f ip g || check ip g b)

-- What the regular expression `[\s,]` meets.
abbrev pub is_separator : ℕ → Bool
is_separator c = is_space c || c == b','

-- `raw.split(/[\s,]+/)`: `cur` is the part being read, reversed, and `inside` says that the last
-- unit belongs to a separator.
unfoldable pub split_runs : Bool → Text → Text → List Text
split_runs inside cur [] = reverse cur ∷ []
split_runs inside cur (c ∷ s) =
    let on = split_runs true [] s in
    let longer = split_runs false (c ∷ cur) s in
    if is_separator c then (if inside then on else reverse cur ∷ on) else longer

unfoldable pub entries_of : Text → List Text
entries_of raw = select (λ s. not (is_empty s)) (map trim (split_runs false [] raw))

abbrev pub after_unit : ℕ → Option (Text × Text) → Option (Text × Text)
after_unit c none = none
after_unit c (some (a, b)) = some (c ∷ a, b)

-- `entry.indexOf("/")` with the two slices at it.
unfoldable pub cut_at_slash : Text → Option (Text × Text)
cut_at_slash [] = none
cut_at_slash (c ∷ s) =
    let rest = after_unit c (cut_at_slash s) in if c == b'/' then some ([], s) else rest

-- `/^::ffff:(\d{1,3}(?:\.\d{1,3}){3})$/i`.
abbrev pub is_group : Text → Bool
is_group s = leb 1 (length s) && leb (length s) 3 && all is_digit s

unfoldable pub is_dotted : Text → Bool
is_dotted s = let parts = split b'.' s in length parts == 4 && all is_group parts

abbrev pub is_f : ℕ → Bool
is_f c = c == b'f' || c == b'F'

unfoldable pub normalize_ip : Text → Text
normalize_ip (c0 ∷ c1 ∷ f0 ∷ f1 ∷ f2 ∷ f3 ∷ c2 ∷ s) =
    if c0 == b':'
      && c1 == b':'
      && is_f f0
      && is_f f1
      && is_f f2
      && is_f f3
      && c2 == b':'
      && is_dotted s
    then s
    else c0 ∷ c1 ∷ f0 ∷ f1 ∷ f2 ∷ f3 ∷ c2 ∷ s
normalize_ip ip = ip

-- The answer of `POST /api/internal/access/check` to the data plane.
pub data CheckReply : Type 0 where
  failed : Failure → CheckReply
  ip_not_allowed : CheckReply
  decided : Decision → CheckReply

-- `!a`, and `timingSafeEqualStr`; `bytes` is `Buffer.from`.
unfoldable pub timing_safe_equal_str : (Text → Text) → Option Text → Option Text → Bool
timing_safe_equal_str bytes none b = false
timing_safe_equal_str bytes (some a) none = false
timing_safe_equal_str bytes (some a) (some b) =
    not (is_empty a) && not (is_empty b) && text_eq (bytes a) (bytes b)

abbrev pub is_set : Option Text → Bool
is_set none = false
is_set (some s) = not (is_empty s)

-- `dataplaneAuthorized`: the secret of the environment and the header of the request.
unfoldable pub dataplane_authorized : (Text → Text) → Option Text → Option Text → Bool
dataplane_authorized bytes secret header =
    is_set secret && timing_safe_equal_str bytes header secret

-- `typeof body[key] === "string" ? body[key] : ""`.
abbrev pub string_field : Text → Fields → Text
string_field key body = get_or (as_string (get key body)) []

abbrev pub check_ids : Bool → Fields → Outcome Failure (Text × Text)
check_ids authorized body = do
  require authorized (failure 403 (lit "forbidden"))
  let user_id = string_field (lit "userId") body
  let site_id = string_field (lit "siteId") body
  require (not (is_empty user_id || is_empty site_id)) (failure 400 (lit "invalid_body"))
  returns (user_id, site_id)

-- `Number(text)` and `Number.isInteger` of the language, on a type of its floating-point numbers.
module _ {Number : Type 0} (number : Text → Number) (is_integer : Number → Bool)
    (net : NodeNet Number) where
  -- The list after a rule was added, and true; or as it was, and false, where adding it throws.
  abbrev pub added : net.BlockList → Option net.BlockList → net.BlockList × Bool
  added b none = (b, false)
  added b (some b') = (b', true)

  unfoldable pub add_subnet_entry : Text → Text → net.BlockList → net.BlockList × Bool
  add_subnet_entry addr suffix b = elim (net.is_ip addr) [
    | none ↦ (b, false)
    | some fam ↦
        if is_integer (number suffix)
        then added b (net.add_subnet addr (number suffix) fam b)
        else (b, false)
  ]

  unfoldable pub add_address_entry : Text → net.BlockList → net.BlockList × Bool
  add_address_entry entry b = elim (net.is_ip entry) [
    | none ↦ (b, false)
    | some fam ↦ added b (net.add_address entry fam b)
  ]

  unfoldable pub add_entry : Text → net.BlockList → net.BlockList × Bool
  add_entry entry b = elim (cut_at_slash entry) [
    | none ↦ add_address_entry entry b
    | some (addr, suffix) ↦ add_subnet_entry addr suffix b
  ]

  -- `entries.filter((e) => !addEntry(bl, e))`, over the list that it changes.
  unfoldable pub invalid_entries : List Text → net.BlockList → List Text
  invalid_entries [] b = []
  invalid_entries (e ∷ es) b =
      let x = add_entry e b in let rest = invalid_entries es x.0 in if x.1 then rest else e ∷ rest

  unfoldable pub validate_allowlist : Text → List Text
  validate_allowlist raw = invalid_entries (entries_of raw) net.fresh

  -- The loop of `build`, with `any`.
  unfoldable pub add_all : List Text → net.BlockList → Bool → net.BlockList × Bool
  add_all [] b found = (b, found)
  add_all (e ∷ es) b found = let x = add_entry e b in add_all es x.0 (x.1 || found)

  unfoldable pub build : Text → Option net.BlockList
  build raw = elim (entries_of raw) [
    | [] ↦ none
    | e ∷ es ↦ let x = add_all (e ∷ es) net.fresh false in if x.1 then some x.0 else none
  ]

  -- `cached`.
  pub record Cached : Type 0 where
    pub raw : Text
    pub list : Option net.BlockList

  abbrev pub built : Text → Cached
  built raw = record { raw = raw; list = build raw }

  unfoldable pub refreshed : Text → Option Cached → Cached
  refreshed raw none = built raw
  refreshed raw (some c) = if text_eq c.raw raw then c else built raw

  unfoldable pub checked : Option net.BlockList → Text → Bool
  checked none ip = true
  checked (some b) ip = elim (net.is_ip (normalize_ip ip)) [
    | none ↦ false
    | some fam ↦ net.check (normalize_ip ip) fam b
  ]

  unfoldable pub ip_allowed : Text → Text → Option Cached → Bool × Option Cached
  ip_allowed raw ip cached = let c = refreshed raw cached in (checked c.list ip, some c)

  -- `allowlist && !ipAllowed(allowlist, clientIp)`, which leaves the cache alone for no list.
  unfoldable pub network_allows : Text → Text → Option Cached → Bool × Option Cached
  network_allows [] ip cached = (true, cached)
  network_allows (c ∷ s) ip cached = ip_allowed (c ∷ s) ip cached

  module _ (intl : Intl) (users : Table User) (grants : Table Grant) where
    -- `handler` behind the secret: `allowlist` is what the settings hold.
    unfoldable pub check_request :
        Bool
        → Fields
        → Text
        → ℕ
        → users.Store
        → grants.Store
        → Option Cached
        → CheckReply × Option Cached
    check_request authorized body allowlist now us gs cached = elim (check_ids authorized body) [
      | replies f ↦ (failed f, cached)
      | returns (user_id, site_id) ↦
          let n = network_allows allowlist (string_field (lit "clientIp") body) cached in
          if n.0
          then (decided (evaluate_access intl users grants user_id site_id now us gs), n.1)
          else (ip_not_allowed, n.1)
    ]

    unfoldable pub check_access :
        (Text → Text)
        → Option Text
        → Option Text
        → Fields
        → Text
        → ℕ
        → users.Store
        → grants.Store
        → Option Cached
        → CheckReply × Option Cached
    check_access bytes secret header body allowlist now us gs cached =
        check_request (dataplane_authorized bytes secret header) body allowlist now us gs cached
