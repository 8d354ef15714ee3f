-- ===== src/Auth/Mobile/Once.antt =====
-- About redeemMobileCode of lib/mobile/session.ts: a code offered twice.
use captivo_access.Prelude.{
  ℕ, ◌+◌, ◌≤◌, ◌≡◌, refl, Bool, true, not, ◌&&◌, ◌||◌, List, [], ◌∷◌, Option, none, some, Text,
  text_eq, text_eq_refl, is_empty, arith, count, Bool-cases, Option-cases, inl, inr, ltb,
}
use captivo_access.Json.{Json, str}
use captivo_access.Database.{Table, every, updated, tally, find_first}
use captivo_access.Database.Queries.{count_mono, found_row}
use captivo_access.Auth.Session.{Session}
use captivo_access.Auth.Mobile.{is_code, redeemed, pkce_matches, redeem_mobile_code, swap_code}

count_split :
    (p q : Session → Bool) (xs : List Session)
    → count p xs ≡ count (λ x. p x && q x) xs + count (λ x. p x && not (q x)) xs
count_split p q [] = refl
count_split p q (x ∷ xs) = ground (arith, count_split p q xs)

no_longer_code :
    (hash id token_hash : Text) (device : Option Text) (now : ℕ) (x : Session)
    → is_code hash (
        updated
          (λ y. text_eq y.id id && text_eq y.token_hash hash)
          (redeemed token_hash device now)
          x)
      ≡ true
    → (is_code hash x && not (text_eq x.id id)) ≡ true
no_longer_code hash id token_hash device now x h = ground arith

module _ (sha sha_url : Text → Text) (t : Table Session) (code : Text) (s : t.Store)
    (one : tally t (is_code (sha code)) s ≤ 1) where
  swapped_away :
      (token : Text) (device : Option Text) (now : ℕ) (r : Session)
      → find_first t (is_code (sha code)) s ≡ some r
      → tally t
          (is_code (sha code))
          (t.update_many
            (λ x. text_eq x.id r.id && text_eq x.token_hash (sha code))
            (redeemed (sha token) device now)
            s).0
        ≡ 0
  swapped_away token device now r e =
      let p = is_code (sha code) in
      let f =
        updated (λ x. text_eq x.id r.id && text_eq x.token_hash (sha code))
          (redeemed (sha token) device now) in
      omega (
        arith,
        one,
        t.count-update (λ x. text_eq x.id r.id && text_eq x.token_hash (sha code))
            (redeemed (sha token) device now) p s,
        found_row t p (λ x. text_eq x.id r.id) s r e (text_eq_refl r.id),
        count_split p (λ x. text_eq x.id r.id) (t.find_many every s),
        count_mono (λ x. p (f x)) (λ x. p x && not (text_eq x.id r.id)) (t.find_many every s)
            (no_longer_code (sha code) r.id (sha token) device now),
      )

  spent :
      (verifier : Json) (token : Text) (device : Option Text) (now : ℕ) (got : Text × Text)
      → (redeem_mobile_code sha sha_url t (str code) verifier token device now s).1 ≡ some got
      → tally t
          (is_code (sha code))
          (redeem_mobile_code sha sha_url t (str code) verifier token device now s).0
        ≡ 0
  unfolding redeem_mobile_code swap_code
  spent verifier token device now got h = elim (Bool-cases (is_empty code)) [
    | inl e ↦ let no = rw (e, redeem_mobile_code) at h in absurd cc
    | inr e ↦ elim (Option-cases (find_first t (is_code (sha code)) s)) [
      | inl e1 ↦ let no = rw (e, e1, redeem_mobile_code) at h in absurd cc
      | inr (r, e1) ↦ elim (Option-cases r.mobile_challenge) [
        | inl e2 ↦ let no = rw (e, e1, e2, redeem_mobile_code) at h in absurd cc
        | inr (challenge, e2) ↦ elim (Bool-cases (is_empty challenge)) [
          | inl e3 ↦ let no = rw (e, e1, e2, e3, redeem_mobile_code) at h in absurd cc
          | inr e3 ↦
              elim (Bool-cases
                (ltb r.expires_at now || not (pkce_matches sha_url verifier challenge))) [
                  | inl e4 ↦ let no = rw (e, e1, e2, e3, e4, redeem_mobile_code) at h in absurd cc
                  | inr e4 ↦
                      rw (e, e1, e2, e3, e4, redeem_mobile_code)
                        (swapped_away token device now r e1)
                ]
        ]
      ]
    ]
  ]

-- Without a code row of its digest, a code yields nothing.
no_code :
    (sha sha_url : Text → Text) (t : Table Session) (code : Text) (s : t.Store) (verifier : Json)
    (token : Text) (device : Option Text) (now : ℕ)
    → tally t (is_code (sha code)) s ≡ 0
    → (redeem_mobile_code sha sha_url t (str code) verifier token device now s).1 ≡ none
unfolding redeem_mobile_code
no_code sha sha_url t code s verifier token device now h = elim (Bool-cases (is_empty code)) [
  | inl e ↦ rw (e, redeem_mobile_code) refl
  | inr e ↦ elim (Option-cases (find_first t (is_code (sha code)) s)) [
    | inl e1 ↦ rw (e, e1, redeem_mobile_code) refl
    | inr (r, e1) ↦ absurd (
        omega (
          arith,
          h,
          found_row t (is_code (sha code)) every s r e1 refl,
          count_mono (λ x. is_code (sha code) x && true) (is_code (sha code)) (t.find_many every s)
              (λ x k. ground arith),
        ))
  ]
]

-- Where no two code rows share the code's digest, a code that was redeemed is refused from then on,
-- whoever asks, with whatever verifier, for whatever device and at whatever time.
pub redeem_mobile_code_once :
    (sha sha_url : Text → Text) (t : Table Session) (code : Text) (s : t.Store)
    (verifier verifier' : Json) (token token' : Text) (device device' : Option Text) (now now' : ℕ)
    (got : Text × Text)
    → tally t (is_code (sha code)) s ≤ 1
    → (redeem_mobile_code sha sha_url t (str code) verifier token device now s).1 ≡ some got
    → let s' = (redeem_mobile_code sha sha_url t (str code) verifier token device now s).0 in
      (redeem_mobile_code sha sha_url t (str code) verifier' token' device' now' s').1 ≡ none
redeem_mobile_code_once sha sha_url t code s verifier verifier' token token' device device' now now'
      got one h =
    no_code sha sha_url t code
      (redeem_mobile_code sha sha_url t (str code) verifier token device now s).0 verifier' token'
      device' now' (spent sha sha_url t code s one verifier token device now got h)
