-- ===== src/Auth/Amr.antt =====
-- lib/auth/amr.ts: what a sign-in proved, and whether that is enough. The lower case of a string is
-- that of the JavaScript library, so `to_lower` is a parameter.
use captivo_access.Prelude.{
  ◌≤◌, ◌≡◌, ◌↔◌, ◌⊎◌, inl, inr, Bool, true, false, not, ◌||◌, List, [], ◌∷◌, ◌++◌, Text, lit,
  is_empty, trim, contains, join, length, ltb, ◌==◌, any, All, Any, text_eq, text_eq_iff, refl,
  arith, if◌then◌else◌, Bool-cases, length-append,
}
use captivo_access.Json.{Json, str, arr, items}

-- `SECOND_FACTOR`.
abbrev pub second_factor : List Text
second_factor = lit "otp" ∷ lit "mfa" ∷ lit "hwk" ∷ lit "swk" ∷ lit "sc" ∷ lit "fido" ∷ []

-- The loop of `readAmr`: the result so far, and the values left.
unfoldable pub read_methods : (Text → Text) → List Text → List Json → List Text
read_methods to_lower out [] = out
read_methods to_lower out (str v ∷ vs) =
    let m = to_lower (trim v) in
    let skipped = read_methods to_lower out vs in
    let pushed = out ++ m ∷ [] in
    let more = read_methods to_lower pushed vs in
    if is_empty m || ltb 32 (length m) || contains out m
    then skipped
    else if length pushed == 16
    then pushed
    else more
read_methods to_lower out (_ ∷ vs) = read_methods to_lower out vs

unfoldable pub read_amr : (Text → Text) → Json → List Text
read_amr to_lower (arr vs) = read_methods to_lower [] (items vs)
read_amr to_lower _ = []

unfoldable pub has_second_factor : List Text → Bool
has_second_factor amr = any (contains second_factor) amr

abbrev pub passkey_amr : Bool → List Text
passkey_amr true = lit "passkey" ∷ lit "mfa" ∷ []
passkey_amr false = lit "passkey" ∷ []

pub data SecondFactorGate : Type 0 where
  allow step_up refuse : SecondFactorGate

unfoldable pub second_factor_gate : Bool → List Text → Bool → SecondFactorGate
second_factor_gate required amr stepped_up =
    if not required
    then allow
    else if has_second_factor amr
    then allow
    else if stepped_up
    then refuse
    else step_up

unfoldable pub sign_in_label : List Text → Text
sign_in_label amr =
    if has_second_factor amr
    then lit "Two-step"
    else if contains amr (lit "passkey")
    then lit "Passkey"
    else if contains amr (lit "pwd")
    then lit "Password"
    else if length amr == 0
    then lit "—"
    else join (lit ", ") amr

-- The methods that prove a second factor: a code, several factors, a key in hardware or software, a
-- smart card, or a security key.
abbrev pub IsFactor : Text → Type 0
IsFactor m =
    Any (λ x. m ≡ x) (lit "otp" ∷ lit "mfa" ∷ lit "hwk" ∷ lit "swk" ∷ lit "sc" ∷ lit "fido" ∷ [])

contains_iff : (xs : List Text) (m : Text) → (contains xs m ≡ true) ↔ Any (λ x. m ≡ x) xs
contains_iff [] m = (λ h. absurd cc, λ h. absurd h)
contains_iff (x ∷ xs) m = elim (Bool-cases (text_eq m x)) [
  | inl same ↦ (λ h. inl ((text_eq_iff m x).0 same), λ h. rw same refl)
  | inr other ↦ rw other (
    (λ h. inr ((contains_iff xs m).0 h)),
    (λ h. elim h [
      | inl e ↦ let same = (text_eq_iff m x).1 e in absurd (ground (arith, same))
      | inr more ↦ (contains_iff xs m).1 more
    ]),
  )
]

has_second_factor_iff : (amr : List Text) → (has_second_factor amr ≡ true) ↔ Any IsFactor amr
unfolding has_second_factor
has_second_factor_iff [] = (λ h. absurd cc, λ h. absurd h)
has_second_factor_iff (m ∷ amr) = elim (Bool-cases (contains second_factor m)) [
  | inl factor ↦ (λ h. inl ((contains_iff second_factor m).0 factor), λ h. rw factor refl)
  | inr other ↦ rw other (
    (λ h. inr ((has_second_factor_iff amr).0 h)),
    (λ h. elim h [
      | inl e ↦ let factor = (contains_iff second_factor m).1 e in absurd (ground (arith, factor))
      | inr more ↦ (has_second_factor_iff amr).1 more
    ]),
  )
]

no-IsFactor_iff : (amr : List Text) → (has_second_factor amr ≡ false) ↔ (¬ Any IsFactor amr)
no-IsFactor_iff amr =
    let proven = has_second_factor_iff amr in
    (
      (λ bare h. let factor = proven.1 h in absurd (ground (arith, bare, factor))),
      (λ h. elim (Bool-cases (has_second_factor amr)) [
        | inl factor ↦ absurd (h (proven.0 factor))
        | inr bare ↦ bare
      ]),
    )

gate_by_test :
    (required : Bool) (amr : List Text) (stepped_up : Bool)
    → ((second_factor_gate required amr stepped_up ≡ allow)
        ↔ ((required ≡ false) ⊎ (has_second_factor amr ≡ true)))
      × ((second_factor_gate required amr stepped_up ≡ step_up)
          ↔ ((required ≡ true) × (has_second_factor amr ≡ false) × (stepped_up ≡ false)))
      × ((second_factor_gate required amr stepped_up ≡ refuse)
          ↔ ((required ≡ true) × (has_second_factor amr ≡ false) × (stepped_up ≡ true)))
unfolding second_factor_gate
gate_by_test required amr stepped_up = ground arith

-- A sign-in passes the gate exactly when the policy asks for nothing or one of its methods proves a
-- second factor; otherwise it is sent back to prove one exactly if that was not tried yet, and
-- refused exactly if it was.
pub second_factor_gate_iff :
    (required : Bool) (amr : List Text) (stepped_up : Bool)
    → ((second_factor_gate required amr stepped_up ≡ allow)
        ↔ ((required ≡ false) ⊎ Any IsFactor amr))
      × ((second_factor_gate required amr stepped_up ≡ step_up)
          ↔ ((required ≡ true) × (¬ Any IsFactor amr) × (stepped_up ≡ false)))
      × ((second_factor_gate required amr stepped_up ≡ refuse)
          ↔ ((required ≡ true) × (¬ Any IsFactor amr) × (stepped_up ≡ true)))
second_factor_gate_iff required amr stepped_up =
    let (allows, steps_up, refuses) = gate_by_test required amr stepped_up in
    let (found, finds) = has_second_factor_iff amr in
    let (lacks, lacking) = no-IsFactor_iff amr in
    (
      (
        (λ h. elim (allows.0 h) [ inl off ↦ inl off | inr t ↦ inr (found t) ]),
        (λ h. elim h [ inl off ↦ allows.1 (inl off) | inr f ↦ allows.1 (inr (finds f)) ]),
      ),
      (
        (λ h. let (on, bare, first) = steps_up.0 h in (on, lacks bare, first)),
        (λ (on, none_of, first). steps_up.1 (on, lacking none_of, first)),
      ),
      (
        (λ h. let (on, bare, again) = refuses.0 h in (on, lacks bare, again)),
        (λ (on, none_of, again). refuses.1 (on, lacking none_of, again)),
      ),
    )

abbrev pub IsClean : Text → Type 0
IsClean m = (is_empty m ≡ false) × (length m ≤ 32)

All-append_one :
    (xs : List Text) (m : Text) → All IsClean xs → IsClean m → All IsClean (xs ++ m ∷ [])
All-append_one [] m h k = (k, tt)
All-append_one (x ∷ xs) m (a, h) k = (a, All-append_one xs m h k)

read_methods_bounds :
    (to_lower : Text → Text) (out : List Text) (vs : List Json)
    → All IsClean out
    → length out ≤ 15
    → All IsClean (read_methods to_lower out vs) × (length (read_methods to_lower out vs) ≤ 16)
unfolding read_methods
read_methods_bounds to_lower out [] h n = (h, omega arith)
read_methods_bounds to_lower out (str v ∷ vs) h n =
    let m = to_lower (trim v) in
    let grown = length-append out (m ∷ []) in
    elim (Bool-cases (is_empty m || ltb 32 (length m) || contains out m)) [
      | inl skip ↦ rw skip (read_methods_bounds to_lower out vs h n)
      | inr keep ↦
          let clean : IsClean m = ground arith in
          let good = All-append_one out m h clean in
          elim (Bool-cases (length (out ++ m ∷ []) == 16)) [
            | inl full ↦ rw (keep, full) (good, omega (arith, grown))
            | inr room ↦
                rw (keep, room)
                  (read_methods_bounds to_lower (out ++ m ∷ []) vs good (ground (arith, grown)))
          ]
    ]
read_methods_bounds to_lower out (_ ∷ vs) h n = read_methods_bounds to_lower out vs h n

-- Whatever the claim is, the list has at most 16 methods, none of them empty or longer than 32.
pub read_amr_bounds :
    (to_lower : Text → Text) (claim : Json)
    → All IsClean (read_amr to_lower claim) × (length (read_amr to_lower claim) ≤ 16)
unfolding read_amr
read_amr_bounds to_lower (arr vs) = read_methods_bounds to_lower [] (items vs) tt (omega arith)
read_amr_bounds to_lower _ = (tt, omega arith)
