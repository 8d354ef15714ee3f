-- ===== src/RateLimit.antt =====
-- lib/rate-limit.ts: the limiter in memory. The map is the list of its entries; the clock is an
-- argument.
pub mod Window
use captivo_access.Prelude.{
  ℕ, suc, ◌+◌, Bool, true, false, not, List, [], ◌∷◌, Option, none, some, Text, text_eq, ltb, leb,
  select, if◌then◌else◌,
}

pub record Hit : Type 0 where
  pub key : Text
  pub count : ℕ
  pub reset : ℕ

pub record Limiter : Type 0 where
  pub hits : List Hit
  pub last_sweep : ℕ

-- `hits.get(key)` and `hits.set(key, e)`.
abbrev pub lookup : Text → List Hit → Option Hit
lookup key [] = none
lookup key (h ∷ hs) = let rest = lookup key hs in if text_eq h.key key then some h else rest

abbrev pub put : Hit → List Hit → List Hit
put e [] = e ∷ []
put e (h ∷ hs) = let rest = put e hs in if text_eq h.key e.key then e ∷ hs else h ∷ rest

abbrev pub is_live : ℕ → Hit → Bool
is_live now h = not (ltb h.reset now)

-- `now - lastSweep < 1000` is written without subtraction.
unfoldable pub sweep : ℕ → Limiter → Limiter
sweep now s =
    if ltb now (s.last_sweep + 1000)
    then s
    else record { hits = select (is_live now) s.hits; last_sweep = now }

abbrev pub opened : Text → ℕ → ℕ → Limiter → Limiter × Bool
opened key window_ms now s = (
  record s { hits = put (record { key = key; count = 1; reset = now + window_ms }) s.hits },
  true,
)

abbrev pub check_entry : Text → ℕ → ℕ → ℕ → Limiter → Option Hit → Limiter × Bool
check_entry key limit window_ms now s none = opened key window_ms now s
check_entry key limit window_ms now s (some e) =
    if ltb e.reset now
    then opened key window_ms now s
    else if leb limit e.count
    then (s, false)
    else (record s { hits = put (record e { key = key; count = suc e.count }) s.hits }, true)

-- The limiter after the call, and whether the call passes.
unfoldable pub check_rate_limit : Text → ℕ → ℕ → ℕ → Limiter → Limiter × Bool
check_rate_limit key limit window_ms now s =
    let swept = sweep now s in check_entry key limit window_ms now swept (lookup key swept.hits)
