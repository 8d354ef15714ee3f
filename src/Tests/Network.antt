-- ===== src/Tests/Network.antt =====
-- The list of allowed addresses at a concrete `node:net`, whose addresses are a few texts and whose
-- subnets are the prefixes of a text.
use captivo_access.Prelude.{
  ℕ, ◌<◌, ◌≡◌, ◌↔◌, refl, Bool, true, false, ◌&&◌, ◌||◌, List, [], ◌∷◌, Option, none, some, Text,
  lit, text_eq, starts_with, is_some, any, map, leb, take, sym, if◌then◌else◌,
}
use mathlib.Core.Option.{some-injective}
use captivo_access.Prelude.Decimal.{digits_value}
use captivo_access.Json.{Fields, field, end, str}
use captivo_access.Database.{tally, find_first}
use captivo_access.Access.Evaluate.{User, UserStatus}
use captivo_access.Access.Evaluate.Verdict.{is_of, allows_now}
use captivo_access.Tests.Access.{monday, users, grants, staffed, held}
use captivo_access.Network.{
  Family, ipv4, ipv6, NodeNet, validate_allowlist, entries_of, normalize_ip, cut_at_slash,
  dataplane_authorized, check_access,
}
use captivo_access.Network.Lists.{permits}
use captivo_access.Network.Memo.{answers, ip_allowed_memo}
use captivo_access.Network.Gate.{lets_in, is_complete, check_access_iff}

-- Numbers that are natural, or none.
abbrev is_natural : Option ℕ → Bool
is_natural n = is_some n

abbrev number : Text → Option ℕ
number s = digits_value 0 s

-- A rule: an address, or the text in front of the addresses of a subnet.
abbrev Rule : Type 0
Rule = Text × Bool

abbrev meets : Text → Rule → Bool
meets ip (a, exact) = if exact then text_eq a ip else starts_with a ip

abbrev known : Text → Option Family
known s = if starts_with (lit "10.") s then some ipv4 else none

abbrev in_range : Option ℕ → Bool
in_range none = false
in_range (some n) = leb n 32

abbrev with_subnet : Text → Option ℕ → List Rule → Option (List Rule)
with_subnet a n b = if in_range n then some ((take 3 a, false) ∷ b) else none

subnet_taken : (b : Bool) (r : List Rule) → is_some (if b then some r else none) ≡ b
subnet_taken true r = refl
subnet_taken false r = refl

address_blocks :
    (a : Text) (b b' : List Rule) (ip : Text)
    → some ((a, true) ∷ b) ≡ some b'
    → any (meets ip) b' ≡ (text_eq a ip || any (meets ip) b)
address_blocks a b b' ip stored =
    let same : (a, true) ∷ b ≡ b' = some-injective _ _ stored in rw (sym same) refl

subnet_blocks :
    (c : Bool) (p : Text) (b b' : List Rule) (ip : Text)
    → (if c then some ((p, false) ∷ b) else none) ≡ some b'
    → any (meets ip) b' ≡ (starts_with p ip || any (meets ip) b)
subnet_blocks true p b b' ip stored =
    let same : (p, false) ∷ b ≡ b' = some-injective _ _ stored in rw (sym same) refl
subnet_blocks false p b b' ip stored = absurd cc

abbrev small_net : NodeNet (Option ℕ)
small_net = record {
  is_ip = known;
  BlockList = List Rule;
  fresh = [];
  add_address = λ a f b. some ((a, true) ∷ b);
  add_subnet = λ a n f b. with_subnet a n b;
  check = λ ip g b. any (meets ip) b;
  takes_address = λ a f. true;
  takes_subnet = λ a n f. in_range n;
  is_address = λ a f ip g. text_eq a ip;
  in_subnet = λ a n f ip g. starts_with (take 3 a) ip;
  check-fresh = λ ip g. refl;
  takes-address = λ a f b. refl;
  takes-subnet = λ a n f b. subnet_taken (in_range n) ((take 3 a, false) ∷ b);
  check-address = λ a f b b' ip g stored. address_blocks a b b' ip stored;
  check-subnet = λ a n f b b' ip g stored. subnet_blocks (in_range n) (take 3 a) b b' ip stored;
}

abbrev office : Text
office = lit "10.0.0.0/8, 10.1.2.3/40 elsewhere"

invalid_entries_test :
    validate_allowlist number is_natural small_net office ≡ lit "10.1.2.3/40" ∷ lit "elsewhere" ∷ []
unfolding validate_allowlist captivo_access.Network.invalid_entries entries_of
    captivo_access.Network.split_runs captivo_access.Prelude.trim captivo_access.Network.add_entry
    cut_at_slash captivo_access.Network.add_subnet_entry starts_with digits_value
    captivo_access.Network.add_address_entry
invalid_entries_test = refl

mapped_address_test : normalize_ip (lit "::FFFF:10.9.8.7") ≡ lit "10.9.8.7"
unfolding normalize_ip captivo_access.Network.is_dotted captivo_access.Prelude.split
mapped_address_test = refl

unmapped_address_test : normalize_ip (lit "::ffff:10.9.8.7777") ≡ lit "::ffff:10.9.8.7777"
unfolding normalize_ip captivo_access.Network.is_dotted captivo_access.Prelude.split
unmapped_address_test = refl

-- A slash without a prefix is the prefix 0, as `Number("")` is.
empty_suffix_test : cut_at_slash (lit "10.0.0.0/") ≡ some (lit "10.0.0.0", [])
unfolding cut_at_slash
empty_suffix_test = refl

abbrev calls : List (Text × Text)
calls = (office, lit "10.9.8.7") ∷ (lit "elsewhere", lit "x") ∷ (office, lit "11.0.0.1") ∷ []

ip_allowed_memo_example :
    answers number is_natural small_net calls none
    ≡ map (λ (raw, ip). permits number is_natural small_net raw ip) calls
ip_allowed_memo_example = ip_allowed_memo number is_natural small_net calls

abbrev question : Fields
question = field (lit "userId") (str (lit "alice")) (
    field (lit "siteId") (str (lit "wiki"))
      (field (lit "clientIp") (str (lit "::ffff:10.9.8.7")) end))

check_access_example :
    (lets_in
        (check_access number is_natural small_net monday users grants
          (λ s. s)
          (some (lit "key"))
          (some (lit "key"))
          question
          office
          1000
          staffed
          held
          none).0
      ≡ true)
    ↔ ((is_complete (dataplane_authorized (λ s. s) (some (lit "key")) (some (lit "key"))) question
          ≡ true)
        × (permits number is_natural small_net office (lit "::ffff:10.9.8.7") ≡ true)
        × (u : User) × (find_first users (λ u. text_eq u.id (lit "alice")) staffed ≡ some u)
        × (u.status ≡ UserStatus.active)
        × (0
            < tally grants
                (λ g. is_of (lit "alice") (lit "wiki") g && allows_now monday 1000 g)
                held))
unfolding captivo_access.Json.get text_eq
check_access_example =
    check_access_iff number is_natural small_net monday users grants (λ s. s) (some (lit "key"))
      (some (lit "key")) question office 1000 staffed held none tt
