-- ===== src/Auth/Session/Cap.antt =====
-- About createSession of lib/auth/session.ts: the cap on concurrent browser sessions.
use captivo_access.Prelude.{
  ℕ, zero, suc, ◌+◌, ◌-◌, ◌≤◌, ◌<◌, ◌≡◌, refl, Bool, true, false, not, ◌&&◌, List, [], ◌∷◌, some,
  Text, arith, text_eq_refl, ltb, leb, length, take, count, Bool-cases, inl, inr, if◌then◌else◌,
}
use captivo_access.Database.{Table, every, tally}
use captivo_access.Database.Queries.{count_mono}
use captivo_access.Auth.SessionPolicy.{SessionPolicy, session_ttl_ms, eviction_ids}
use captivo_access.Auth.Session.{
  Session, Meta, insert_oldest, oldest_first, ids_of, one_of, is_counted, opened, make_room,
  evict_for, create_session,
}

count-insert_oldest :
    (q : Session → Bool) (r : Session) (xs : List Session)
    → count q (insert_oldest r xs) ≡ (if q r then 1 else 0) + count q xs
count-insert_oldest q r [] = refl
count-insert_oldest q r (x ∷ xs) = elim (Bool-cases (leb r.created_at x.created_at)) [
  | inl e ↦ rw e refl
  | inr e ↦ rw e (omega (arith, count-insert_oldest q r xs))
]

count-oldest_first :
    (q : Session → Bool) (xs : List Session) → count q (oldest_first xs) ≡ count q xs
count-oldest_first q [] = refl
count-oldest_first q (x ∷ xs) =
    omega (arith, count-insert_oldest q x (oldest_first xs), count-oldest_first q xs)

length-ids_of : (xs : List Session) → length (ids_of xs) ≡ length xs
length-ids_of [] = refl
length-ids_of (x ∷ xs) = rw (length-ids_of xs)

-- The rows whose identifier is not among the first n identifiers of the list are no more than the
-- rest of the list.
kept_of_list :
    (ids : List Text) (n : ℕ) (xs : List Session)
    → ((i : Text) → one_of (take n (ids_of xs)) i ≡ true → one_of ids i ≡ true)
    → count (λ r. not (one_of ids r.id)) xs ≤ length xs - n
kept_of_list ids zero [] h = omega arith
kept_of_list ids (suc n) [] h = omega arith
kept_of_list ids zero (x ∷ xs) h =
    let rest = kept_of_list ids zero xs (λ i e. absurd cc) in
    elim (Bool-cases (one_of ids x.id)) [
      | inl e ↦ rw e (omega (arith, rest))
      | inr e ↦ rw e (omega (arith, rest))
    ]
kept_of_list ids (suc n) (x ∷ xs) h =
    let taken = h x.id (rw (text_eq_refl x.id)) in
    rw taken (omega (arith, kept_of_list ids n xs (λ i e. h i (ground arith))))

-- An empty list keeps every row.
one_of_none : (ids : List Text) (i : Text) → ltb 0 (length ids) ≡ false → one_of ids i ≡ false
one_of_none [] i e = refl
one_of_none (x ∷ ids) i e = absurd (ground arith)

module _ (t : Table Session) (policy : SessionPolicy) (user_id : Text) (now : ℕ) (s : t.Store) where
  -- The identifiers that make room for one more session under a cap of c + 1.
  abbrev evicted : ℕ → List Text
  evicted c =
      let ids = ids_of (oldest_first (t.find_many (is_counted user_id now) s)) in
      take (length ids - (suc c - 1)) ids

  kept_bounds :
      (c : ℕ) → tally t (λ r. is_counted user_id now r && not (one_of (evicted c) r.id)) s ≤ c
  kept_bounds c =
      let found = t.find_many (is_counted user_id now) s in
      let active = oldest_first found in
      let keep = λ (r : Session). not (one_of (evicted c) r.id) in
      omega (
        arith,
        t.count-find_many (is_counted user_id now) keep s,
        count-oldest_first keep found,
        kept_of_list (evicted c) (length (ids_of active) - (suc c - 1)) active (λ i e. e),
        length-ids_of active,
      )

  -- Making room leaves fewer live browser sessions of the user than the cap.
  make_room_bounds :
      (c : ℕ) → tally t (is_counted user_id now) (make_room t (suc c) user_id now s) ≤ c
  unfolding make_room eviction_ids
  make_room_bounds c = elim (Bool-cases (ltb 0 (length (evicted c)))) [
    | inl e ↦
        let same =
          count_mono (λ r. not (one_of (evicted c) r.id) && is_counted user_id now r)
            (λ r. is_counted user_id now r && not (one_of (evicted c) r.id)) (t.find_many every s)
            (λ r p. ground arith) in
        let left = t.count-delete (λ r. one_of (evicted c) r.id) (is_counted user_id now) s in
        rw e (omega (arith, same, left, kept_bounds c))
    | inr e ↦
        let all_kept =
          count_mono (is_counted user_id now)
            (λ r. is_counted user_id now r && not (one_of (evicted c) r.id)) (t.find_many every s)
            (λ r p. rw (p, one_of_none (evicted c) r.id e)) in
        rw e (omega (arith, all_kept, kept_bounds c))
  ]

  evict_for_bounds :
      (c : ℕ)
      → policy.max_concurrent_per_user ≡ some (suc c)
      → tally t (is_counted user_id now) (evict_for t policy user_id now s) ≤ c
  unfolding evict_for
  evict_for_bounds c h = rw (h, evict_for) (make_room_bounds c)

-- Whatever sessions a user has, after a sign-in under a cap the live browser sessions of that user,
-- the new one included, are at most the cap.
pub create_session_bounds :
    (sha : Text → Text) (t : Table Session) (policy : SessionPolicy) (env_hours : ℕ)
    (id token user_id : Text) (info : Meta) (now : ℕ) (s : t.Store) (cap : ℕ)
    → policy.max_concurrent_per_user ≡ some cap
    → 0 < cap
    → tally t
        (is_counted user_id now)
        (create_session sha t policy env_hours id token user_id info now s)
      ≤ cap
unfolding create_session
create_session_bounds sha t policy env_hours id token user_id info now s zero h pos =
    absurd (omega arith)
create_session_bounds sha t policy env_hours id token user_id info now s (suc c) h pos =
    let row =
      opened id (sha token) user_id info (session_ttl_ms policy.max_session_hours env_hours) now in
    let grew = t.count-create row (is_counted user_id now) (evict_for t policy user_id now s) in
    elim (Bool-cases (is_counted user_id now row)) [
      | inl e ↦
          let one = rw e at grew in omega (arith, one, evict_for_bounds t policy user_id now s c h)
      | inr e ↦
          let none_new = rw e at grew in
          omega (arith, none_new, evict_for_bounds t policy user_id now s c h)
    ]
