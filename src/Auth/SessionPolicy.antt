-- ===== src/Auth/SessionPolicy.antt =====
-- lib/policy/session-policy.ts: lifetimes, idle timeouts and the cap on concurrent sessions. A
-- limit that is absent or not positive does not apply.
use captivo_access.Prelude.{
  ℕ, zero, suc, ◌+◌, ◌-◌, ◌*◌, ◌≤◌, ◌<◌, ◌≡◌, ◌⊎◌, inl, inr, refl, Bool-cases, ◌++◌, Bool, false,
  List, [], ◌∷◌, Option, none, some, Text, length, take, drop, leb, ltb, arith, if◌then◌else◌,
  get_or, lt→ltb,
}

pub record SessionPolicy : Type 0 where
  pub idle_timeout_minutes : Option ℕ
  pub max_session_hours : Option ℕ
  pub max_concurrent_per_user : Option ℕ
  pub require_second_factor : Bool

-- `EMPTY`.
abbrev pub empty_policy : SessionPolicy
empty_policy = record {
  idle_timeout_minutes = none;
  max_session_hours = none;
  max_concurrent_per_user = none;
  require_second_factor = false;
}

-- A limit that applies.
abbrev pub positive : Option ℕ → Option ℕ
positive none = none
positive (some zero) = none
positive (some (suc n)) = some (suc n)

unfoldable pub session_ttl_ms : Option ℕ → ℕ → ℕ
session_ttl_ms policy_hours env_hours = get_or (positive policy_hours) env_hours * 3600000

abbrev pub idle_over : Option ℕ → ℕ → ℕ → Bool
idle_over none last_seen now = false
idle_over (some minutes) last_seen now = ltb (minutes * 60000 + last_seen) now

-- `now - lastSeen > minutes * 60000`, without subtraction.
unfoldable pub idle_expired : ℕ → ℕ → Option ℕ → Bool
idle_expired last_seen now idle_minutes = idle_over (positive idle_minutes) last_seen now

-- `length - (cap - 1)` is positive exactly where the sessions reach the cap.
abbrev pub evict_to : Option ℕ → List Text → List Text
evict_to none active = []
evict_to (some cap) active = take (length active - (cap - 1)) active

unfoldable pub eviction_ids : List Text → Option ℕ → List Text
eviction_ids active_oldest_first cap = evict_to (positive cap) active_oldest_first

-- `getSessionPolicy` on a read that may fail: a failure enforces nothing. `cache` is the policy
-- read last and when; the second part of the result is the cache after the call.
abbrev pub PolicyCache : Type 0
PolicyCache = Option (SessionPolicy × ℕ)

abbrev pub fresh_at : PolicyCache → ℕ → Option SessionPolicy
fresh_at none now = none
fresh_at (some (policy, at)) now = if ltb now (at + 30000) then some policy else none

-- A failed read, or the row of the tenant, which may be missing.
pub data PolicyRead : Type 0 where
  failed : PolicyRead
  found : Option SessionPolicy → PolicyRead

abbrev pub policy_of_read : PolicyRead → ℕ → PolicyCache → SessionPolicy × PolicyCache
policy_of_read failed now cache = (empty_policy, cache)
policy_of_read (found row) now cache =
    (get_or row empty_policy, some (get_or row empty_policy, now))

unfoldable pub get_session_policy : PolicyRead → ℕ → PolicyCache → SessionPolicy × PolicyCache
get_session_policy read now cache = elim (fresh_at cache now) [
  | some policy ↦ (policy, cache)
  | none ↦ policy_of_read read now cache
]

-- `saveSessionPolicy`: the row that the database holds afterwards, and the emptied cache.
unfoldable pub save_session_policy :
    SessionPolicy → Option SessionPolicy × PolicyCache → Option SessionPolicy × PolicyCache
save_session_policy input (row, cache) = (some input, none)

-- A saved policy is in force at once: the next read that succeeds returns it, whatever the cache
-- held before and whatever the time, and so does each later read within 30 seconds, even where
-- the database fails then.
pub saved_policy_in_force :
    (input : SessionPolicy) (row : Option SessionPolicy) (cache : PolicyCache) (now later : ℕ)
    (read : PolicyRead)
    → later < now + 30000
    → let saved = save_session_policy input (row, cache) in
      let after = get_session_policy (found saved.0) now saved.1 in
      (after.0 ≡ input) × ((get_session_policy read later after.1).0 ≡ input)
unfolding save_session_policy get_session_policy
saved_policy_in_force input row cache now later read h =
    (refl, rw (lt→ltb later (now + 30000) h, get_session_policy))

length-take-drop : (n : ℕ) (xs : List Text) → length (drop n xs) ≡ length xs - n
length-take-drop zero xs = omega arith
length-take-drop (suc n) [] = omega arith
length-take-drop (suc n) (x ∷ xs) = omega (arith, length-take-drop n xs)

take-drop : (n : ℕ) (xs : List Text) → take n xs ++ drop n xs ≡ xs
take-drop zero xs = refl
take-drop (suc n) [] = refl
take-drop (suc n) (x ∷ xs) = rw (take-drop n xs)

-- Under a positive cap, the sessions to evict are the first ones of the list, and either none is
-- evicted and the rest, with the session created next, is below or at the cap, or the rest with
-- that session reaches the cap exactly: no session is evicted without need.
pub eviction_leaves_room :
    (active : List Text) (cap : ℕ)
    → 0 < cap
    → (rest : List Text) × (eviction_ids active (some cap) ++ rest ≡ active)
      × (((eviction_ids active (some cap) ≡ []) × (length rest + 1 ≤ cap))
          ⊎ (length rest + 1 ≡ cap))
unfolding eviction_ids
eviction_leaves_room active zero h = absurd (omega arith)
eviction_leaves_room active (suc c) h =
    let n = length active - (suc c - 1) in
    (
      drop n active,
      take-drop n active,
      elim (Bool-cases (leb (length active) c)) [
        | inl few ↦
            let none_over : length active - (suc c - 1) ≡ 0 = ground arith in
            inl (rw none_over, omega (arith, length-take-drop n active))
        | inr many ↦ inr (ground (arith, length-take-drop n active))
      ],
    )
