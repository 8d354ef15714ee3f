-- ===== src/RateLimit/Window.antt =====
-- About checkRateLimit of lib/rate-limit.ts: the calls of one window.
use captivo_access.Prelude.{
  ℕ, suc, ◌+◌, ◌-◌, ◌≤◌, ◌<◌, ◌≡◌, refl, true, false, List, [], ◌∷◌, Option, none, some, Text,
  text_eq, text_eq_refl, ltb, leb, select, All, arith, Bool-cases, inl, inr, if◌then◌else◌,
}
use captivo_access.RateLimit.{
  Hit, Limiter, lookup, put, is_live, sweep, opened, check_entry, check_rate_limit,
}

lookup-put : (e : Hit) (hs : List Hit) → lookup e.key (put e hs) ≡ some e
lookup-put e [] = rw (text_eq_refl e.key) refl
lookup-put e (h ∷ hs) = elim (Bool-cases (text_eq h.key e.key)) [
  | inl same ↦ rw same (rw (text_eq_refl e.key) refl)
  | inr other ↦ rw (other, other) (lookup-put e hs)
]

-- Sweeping keeps the entry of a key while its window runs.
lookup-select :
    (key : Text) (now : ℕ) (hs : List Hit) (e : Hit)
    → lookup key hs ≡ some e
    → now ≤ e.reset
    → lookup key (select (is_live now) hs) ≡ some e
lookup-select key now [] e found live = found
lookup-select key now (h ∷ hs) e found live = elim (Bool-cases (text_eq h.key key)) [
  | inl same ↦
      let first : some h ≡ some e = rw same at found in
      let kept : is_live now h ≡ true = ground (arith, first, live) in rw (kept, same) first
  | inr other ↦
      let later = rw other at found in
      elim (Bool-cases (is_live now h)) [
        | inl kept ↦ rw (kept, other) (lookup-select key now hs e later live)
        | inr gone ↦ rw gone (lookup-select key now hs e later live)
      ]
]

lookup-sweep :
    (key : Text) (now : ℕ) (s : Limiter) (e : Hit)
    → lookup key s.hits ≡ some e
    → now ≤ e.reset
    → lookup key (sweep now s).hits ≡ some e
unfolding sweep
lookup-sweep key now s e found live = elim (Bool-cases (ltb now (s.last_sweep + 1000))) [
  | inl recent ↦ rw (recent, sweep) found
  | inr due ↦ rw (due, sweep) (lookup-select key now s.hits e found live)
]

-- The number of calls that pass, of calls for one key at the given times in turn.
abbrev pub passed : Text → ℕ → ℕ → List ℕ → Limiter → ℕ
passed key limit window_ms [] s = 0
passed key limit window_ms (now ∷ times) s =
    let (s', ok) = check_rate_limit key limit window_ms now s in
    (if ok then 1 else 0) + passed key limit window_ms times s'

running : (now : ℕ) (e : Hit) → now ≤ e.reset → ltb e.reset now ≡ false
running now e h = ground arith

-- While the window of an entry runs, the calls that pass are at most what its count leaves.
passed_bounds :
    (key : Text) (limit window_ms : ℕ) (times : List ℕ) (s : Limiter) (e : Hit)
    → lookup key s.hits ≡ some e
    → All (λ now. now ≤ e.reset) times
    → passed key limit window_ms times s ≤ limit - e.count
unfolding check_rate_limit
passed_bounds key limit window_ms [] s e found h = omega arith
passed_bounds key limit window_ms (now ∷ times) s e found (h, hs) =
    let kept = lookup-sweep key now s e found h in
    let swept = sweep now s in
    elim (Bool-cases (leb limit e.count)) [
      | inl full ↦
          rw (kept, running now e h, full, check_rate_limit)
            (omega (arith, passed_bounds key limit window_ms times swept e kept hs))
      | inr room ↦
          let e' : Hit = record e { key = key; count = suc e.count } in
          let s' : Limiter = record swept { hits = put e' swept.hits } in
          rw (kept, running now e h, room, check_rate_limit)
            (ground
              (arith, passed_bounds key limit window_ms times s' e' (lookup-put e' swept.hits) hs))
    ]

-- A key has no entry, or one whose window is over.
abbrev pub IsOver : ℕ → Option Hit → Type 0
IsOver now none = Unit
IsOver now (some e) = e.reset < now

opens :
    (key : Text) (limit window_ms now : ℕ) (s : Limiter) (o : Option Hit)
    → IsOver now o
    → check_entry key limit window_ms now s o ≡ opened key window_ms now s
opens key limit window_ms now s none h = refl
opens key limit window_ms now s (some e) h =
    let over : ltb e.reset now ≡ true = ground (arith, h) in rw (over, check_entry) refl

-- From a call that opens a window (after the sweep its key has no entry, or one that is over and
-- was not swept yet), that call and all later calls for the key within the window that it opens,
-- in whatever number and at whatever times, pass at most `limit` times, for a limit of one or more.
pub check_rate_limit_bounds :
    (key : Text) (limit window_ms start : ℕ) (times : List ℕ) (s : Limiter)
    → 1 ≤ limit
    → IsOver start (lookup key (sweep start s).hits)
    → All (λ now. now ≤ start + window_ms) times
    → passed key limit window_ms (start ∷ times) s ≤ limit
unfolding check_rate_limit
check_rate_limit_bounds key limit window_ms start times s pos fresh h =
    let e : Hit = record { key = key; count = 1; reset = start + window_ms } in
    let s' : Limiter = record (sweep start s) { hits = put e (sweep start s).hits } in
    rw (check_rate_limit, opens key limit window_ms start (sweep start s) _ fresh)
      (omega (
        arith,
        pos,
        passed_bounds key limit window_ms times s' e (lookup-put e (sweep start s).hits) h,
      ))
