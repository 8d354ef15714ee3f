-- ===== src/Updates/Newest.antt =====
-- About `isUpdateAvailable` and `isConnectorOutdated` of lib/updates/semver.ts: which is newer.
use captivo_access.Prelude.{
  ℕ, ◌<◌, ◌≡◌, refl, ◌↔◌, ◌⊎◌, inl, inr, true, some, arith, ltb, ltb→lt, Bool-cases,
}
use captivo_access.Updates.{
  Version, Comparison, older, equal, newer, then_compare, compare_versions, is_comparison,
  compare_semver, is_connector_outdated, is_update_available,
}
use captivo_access.Updates.Printed.{printed, parse-printed}

-- The order of versions: the first number that differs decides.
abbrev pub IsBelow : Version → Version → Type 0
IsBelow a b =
    (a.major < b.major)
    ⊎ ((a.major ≡ b.major) × ((a.minor < b.minor) ⊎ ((a.minor ≡ b.minor) × (a.patch < b.patch))))

-- One number decides, or leaves it to the rest.
then_compare_older :
    (a b : ℕ) (rest : Comparison) (P : Type 0)
    → (is_comparison older (some rest) ≡ true) ↔ P
    → (is_comparison older (some (then_compare a b rest)) ≡ true) ↔ ((a < b) ⊎ ((a ≡ b) × P))
then_compare_older a b rest P h = elim (Bool-cases (ltb a b)) [
  | inl less ↦ rw (less, then_compare) ((λ _. inl (ltb→lt a b less)), (λ _. refl))
  | inr no_less ↦ elim (Bool-cases (ltb b a)) [
    | inl more ↦
        rw (no_less, more, then_compare) ((λ e. absurd cc), (λ d. absurd (ground (arith, d))))
    | inr no_more ↦
        let same : a ≡ b = ground arith in
        rw (no_less, no_more, then_compare)
          (
            (λ e. inr (same, h.0 e)),
            (λ d. elim d [ inl lt ↦ absurd (ground arith) | inr (_, p) ↦ h.1 p ]),
          )
  ]
]

then_compare_newer :
    (a b : ℕ) (rest : Comparison) (P : Type 0)
    → (is_comparison newer (some rest) ≡ true) ↔ P
    → (is_comparison newer (some (then_compare a b rest)) ≡ true) ↔ ((b < a) ⊎ ((b ≡ a) × P))
then_compare_newer a b rest P h = elim (Bool-cases (ltb a b)) [
  | inl less ↦ rw (less, then_compare) ((λ e. absurd cc), (λ d. absurd (ground (arith, d))))
  | inr no_less ↦ elim (Bool-cases (ltb b a)) [
    | inl more ↦ rw (no_less, more, then_compare) ((λ _. inl (ltb→lt b a more)), (λ _. refl))
    | inr no_more ↦
        let same : b ≡ a = ground arith in
        rw (no_less, no_more, then_compare)
          (
            (λ e. inr (same, h.0 e)),
            (λ d. elim d [ inl lt ↦ absurd (ground arith) | inr (_, p) ↦ h.1 p ]),
          )
  ]
]

last_older : (a b : ℕ) → (is_comparison older (some (then_compare a b equal)) ≡ true) ↔ (a < b)
last_older a b = ((λ h. ground (arith, h)), (λ h. ground (arith, h)))

last_newer : (a b : ℕ) → (is_comparison newer (some (then_compare a b equal)) ≡ true) ↔ (b < a)
last_newer a b = ((λ h. ground (arith, h)), (λ h. ground (arith, h)))

is_older_iff :
    (a b : Version) → (is_comparison older (some (compare_versions a b)) ≡ true) ↔ IsBelow a b
is_older_iff a b =
    then_compare_older a.major b.major _ _
      (then_compare_older a.minor b.minor _ _ (last_older a.patch b.patch))

is_newer_iff :
    (a b : Version) → (is_comparison newer (some (compare_versions a b)) ≡ true) ↔ IsBelow b a
is_newer_iff a b =
    then_compare_newer a.major b.major _ _
      (then_compare_newer a.minor b.minor _ _ (last_newer a.patch b.patch))

compare_semver-printed :
    (a b : Version)
    → compare_semver (some (printed a)) (some (printed b)) ≡ some (compare_versions a b)
unfolding compare_semver
compare_semver-printed a b = rw (compare_semver, parse-printed a, parse-printed b) refl

-- An update is announced exactly where the latest version is above the manager's in the order of
-- versions, and a connector is outdated exactly where its version is below the manager's.
pub updates_iff :
    (latest manager : Version)
    → ((is_update_available (some (printed latest)) (printed manager) ≡ true)
        ↔ IsBelow manager latest)
      × ((is_connector_outdated (some (printed latest)) (printed manager) ≡ true)
          ↔ IsBelow latest manager)
unfolding is_update_available is_connector_outdated
updates_iff latest manager =
    rw (is_update_available, is_connector_outdated, compare_semver-printed latest manager)
      (is_newer_iff latest manager, is_older_iff latest manager)
