-- ===== src/Auth/Handoff.antt =====
-- lib/mobile/handoff.ts: the cookie that carries the challenge of the app through a sign-in. The
-- keyed digest `mac` of a payload (base64url, with the secret) is a parameter.
pub mod RoundTrip
use captivo_access.Prelude.{
  ℕ, ◌+◌, ◌*◌, ◌/◌, Bool, true, false, not, ◌&&◌, ◌||◌, List, [], ◌∷◌, ◌++◌, Option, none, some,
  Text, lit, text_eq, ltb, leb, ◌==◌, length, all, is_digit, split, if◌then◌else◌,
}
use captivo_access.Prelude.Decimal.{decimal, digits_value}
use captivo_access.Json.{Json, str}

abbrev pub is_challenge_unit : ℕ → Bool
is_challenge_unit c =
    (leb b'A' c && leb c b'Z') || (leb b'a' c && leb c b'z') || is_digit c || c == b'_' || c == b'-'

-- `/^[A-Za-z0-9_-]{43}$/`.
unfoldable pub is_challenge : Text → Bool
is_challenge s = length s == 43 && all is_challenge_unit s

unfoldable pub is_pkce_challenge : Json → Bool
is_pkce_challenge (str s) = is_challenge s
is_pkce_challenge _ = false

abbrev pub handoff_ttl_sec : ℕ
handoff_ttl_sec = 600

-- `/^\d+$/` and `Number`, exact where JavaScript rounds a number above 2 ^ 53.
abbrev pub expiry : Text → Option ℕ
expiry [] = none
expiry (c ∷ s) = digits_value 0 (c ∷ s)

-- `!/^\d+$/.test(exp) || Number(exp) * 1000 < now`.
abbrev pub is_over : Option ℕ → ℕ → Bool
is_over none now = true
is_over (some seconds) now = ltb (seconds * 1000) now

module _ (mac : Text → Text) where
  -- The parts around each `.`, put together.
  unfoldable pub payload_of : Text → Text → Text
  payload_of challenge exp = challenge ++ b'.' ∷ exp

  -- `signHandoff` at an instant in milliseconds.
  unfoldable pub sign_handoff : Text → ℕ → Text
  sign_handoff challenge now =
      let payload = payload_of challenge (decimal (now / 1000 + handoff_ttl_sec)) in
      payload ++ b'.' ∷ mac payload

  -- The buffers are compared in full; `mac` writes one byte per character.
  abbrev pub read_parts : List Text → ℕ → Option Text
  read_parts (challenge ∷ (exp ∷ (sig ∷ []))) now =
      if not (text_eq sig (mac (payload_of challenge exp)))
      then none
      else if is_over (expiry exp) now
      then none
      else if is_challenge challenge
      then some challenge
      else none
  read_parts _ now = none

  unfoldable pub read_handoff : Option Text → ℕ → Option Text
  read_handoff none now = none
  read_handoff (some []) now = none
  read_handoff (some (c ∷ s)) now = read_parts (split b'.' (c ∷ s)) now
