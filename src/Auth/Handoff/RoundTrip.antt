-- ===== src/Auth/Handoff/RoundTrip.antt =====
-- About signHandoff and readHandoff of lib/mobile/handoff.ts.
use captivo_access.Prelude.{
  ℕ, ◌+◌, ◌*◌, ◌/◌, ◌≡◌, ◌≢◌, refl, inl, inr, true, false, List, [], ◌∷◌, none, some, Text, arith,
  text_eq, text_eq_iff, text_eq_refl, ltb, all, Bool-cases, if◌then◌else◌, split, ap, subst, ◌∙◌,
}
use mathlib.Core.Option.{some_inj}
use mathlib.Core.List.{append_assoc}
use captivo_access.Prelude.Decimal.{decimal}
use captivo_access.Prelude.Slices.{List-cases}
use captivo_access.Prelude.Splits.{
  decimal_ne, append-cons-ne, Without, split-three, digits_value-decimal, decimal-Without,
}
use captivo_access.Auth.Handoff.{
  is_challenge_unit, is_challenge, handoff_ttl_sec, expiry, is_over, payload_of, sign_handoff,
  read_parts, read_handoff,
}

all_units-Without : (s : Text) → all is_challenge_unit s ≡ true → Without b'.' s
all_units-Without [] h = tt
all_units-Without (c ∷ s) h = ground (arith, all_units-Without s)

challenge-Without : (s : Text) → is_challenge s ≡ true → Without b'.' s
unfolding is_challenge
challenge-Without s h = all_units-Without s (ground arith)

expiry-decimal : (n : ℕ) → expiry (decimal n) ≡ some n
expiry-decimal n = elim (List-cases (decimal n)) [
  | inl e ↦ absurd (decimal_ne n e)
  | inr (c, s, e) ↦ rw e (rw e at (digits_value-decimal n))
]

module _ (mac : Text → Text) where
  -- What the cookie splits into.
  split-sign_handoff :
      (challenge : Text) (now : ℕ)
      → Without b'.' challenge
      → Without b'.' (mac (payload_of mac challenge (decimal (now / 1000 + handoff_ttl_sec))))
      → split b'.' (sign_handoff mac challenge now)
        ≡ challenge
          ∷ decimal (now / 1000 + handoff_ttl_sec)
          ∷ mac (payload_of mac challenge (decimal (now / 1000 + handoff_ttl_sec)))
          ∷ []
  unfolding sign_handoff payload_of
  split-sign_handoff challenge now h k = rw append_assoc (
      split-three b'.' challenge (decimal (now / 1000 + handoff_ttl_sec)) _ h
        (decimal-Without b'.' _ (omega arith)) k)

  read_handoff-parts :
      (v : Text) (now : ℕ)
      → v ≢ []
      → read_handoff mac (some v) now ≡ read_parts mac (split b'.' v) now
  unfolding read_handoff
  read_handoff-parts [] now h = absurd (h refl)
  read_handoff-parts (c ∷ s) now h = refl

  -- A cookie signed for a challenge gives the challenge back until it is over, ten minutes after the
  -- second in which it was signed, and nothing from then on. The digest has no full stop.
  pub read_handoff-sign_handoff :
      (challenge : Text) (now now' : ℕ)
      → is_challenge challenge ≡ true
      → Without b'.' (mac (payload_of mac challenge (decimal (now / 1000 + 600))))
      → read_handoff mac (some (sign_handoff mac challenge now)) now'
        ≡ (if ltb ((now / 1000 + 600) * 1000) now' then none else some challenge)
  unfolding sign_handoff
  read_handoff-sign_handoff challenge now now' h k =
      let sig = mac (payload_of mac challenge (decimal (now / 1000 + 600))) in
      read_handoff-parts (sign_handoff mac challenge now) now' (append-cons-ne _ sig b'.')
      ∙ rw
          (
            split-sign_handoff challenge now (challenge-Without challenge h) k,
            text_eq_refl sig,
            expiry-decimal (now / 1000 + 600),
            h,
          )
          refl

  abbrev Signed : List Text → Text → ℕ → Type 0
  Signed parts challenge now =
      (is_challenge challenge ≡ true)
      × (exp : Text) × (parts ≡ challenge ∷ exp ∷ mac (payload_of mac challenge exp) ∷ [])
      × (is_over (expiry exp) now ≡ false)

  read_parts_sound :
      (parts : List Text) (challenge : Text) (now : ℕ)
      → read_parts mac parts now ≡ some challenge
      → Signed parts challenge now
  read_parts_sound (a ∷ exp ∷ sig ∷ []) challenge now e =
      elim (Bool-cases (text_eq sig (mac (payload_of mac a exp)))) [
        | inr forged ↦ let no = rw forged at e in absurd cc
        | inl signed ↦ elim (Bool-cases (is_over (expiry exp) now)) [
          | inl over ↦ let no = rw (signed, over) at e in absurd cc
          | inr valid ↦ elim (Bool-cases (is_challenge a)) [
            | inr bad ↦ let no = rw (signed, valid, bad) at e in absurd cc
            | inl good ↦
                let same : a ≡ challenge = some_inj.0 (rw (signed, valid, good) at e) in
                let sound : Signed (a ∷ exp ∷ sig ∷ []) a now =
                  (good, exp, ap (λ x. a ∷ exp ∷ x ∷ []) ((text_eq_iff _ _).0 signed), valid) in
                subst (λ c. Signed (a ∷ exp ∷ sig ∷ []) c now) same sound
          ]
        ]
      ]
  read_parts_sound [] challenge now e = absurd cc
  read_parts_sound (a ∷ []) challenge now e = absurd cc
  read_parts_sound (a ∷ exp ∷ []) challenge now e = absurd cc
  read_parts_sound (a ∷ exp ∷ sig ∷ more ∷ parts) challenge now e = absurd cc

  -- Whatever the browser sends, a challenge that is read from it is one, and stands there before an
  -- instant that has not passed and the digest of both.
  pub read_handoff_sound :
      (v challenge : Text) (now : ℕ)
      → read_handoff mac (some v) now ≡ some challenge
      → (is_challenge challenge ≡ true)
        × (exp : Text) × (split b'.' v ≡ challenge ∷ exp ∷ mac (payload_of mac challenge exp) ∷ [])
        × (is_over (expiry exp) now ≡ false)
  unfolding read_handoff
  read_handoff_sound [] challenge now e = absurd cc
  read_handoff_sound (c ∷ s) challenge now e = read_parts_sound (split b'.' (c ∷ s)) challenge now e
