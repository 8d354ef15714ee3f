-- ===== src/Updates.antt =====
-- lib/updates/semver.ts: which release is newer. A number of JavaScript is exact here.
pub mod Printed
pub mod Newest
use captivo_access.Prelude.{
  ℕ, ◌+◌, ◌*◌, ◌-◌, Bool, true, false, ◌||◌, [], ◌∷◌, Option, none, some, Text, is_empty, is_digit,
  trim, ltb, ◌==◌, if◌then◌else◌,
}

pub record Version : Type 0 where
  pub major : ℕ
  pub minor : ℕ
  pub patch : ℕ

-- The digits in front of a text: whether there is one, their value, and the rest.
unfoldable pub digits : Bool → ℕ → Text → Bool × ℕ × Text
digits seen n [] = (seen, n, [])
digits seen n (c ∷ s) =
    let more = digits true (n * 10 + (c - 48)) s in if is_digit c then more else (seen, n, c ∷ s)

-- `replace(/^v/i, "")`.
abbrev pub without_v : Text → Text
without_v [] = []
without_v (c ∷ s) = if c == b'v' || c == b'V' then s else c ∷ s

-- `(\d+)` and, but after the last number, the dot behind it.
abbrev pub number_part : Text → Option (ℕ × Text)
number_part s = let (seen, n, rest) = digits false 0 s in if seen then some (n, rest) else none

abbrev pub dot : Text → Option Text
dot [] = none
dot (c ∷ s) = if c == b'.' then some s else none

abbrev pub dotted : Text → Option (ℕ × Text)
dotted s = elim (number_part s) [
  | none ↦ none
  | some (n, rest) ↦ elim (dot rest) [ none ↦ none | some s' ↦ some (n, s') ]
]

unfoldable pub parse : Option Text → Option Version
parse none = none
parse (some v) = if is_empty v then none else elim (dotted (without_v (trim v))) [
  | none ↦ none
  | some (major, s1) ↦ elim (dotted s1) [
    | none ↦ none
    | some (minor, s2) ↦ elim (number_part s2) [
      | none ↦ none
      | some (patch, rest) ↦ some (record { major = major; minor = minor; patch = patch })
    ]
  ]
]

pub data Comparison : Type 0 where
  older equal newer : Comparison

abbrev pub then_compare : ℕ → ℕ → Comparison → Comparison
then_compare a b rest = if ltb a b then older else if ltb b a then newer else rest

abbrev pub compare_versions : Version → Version → Comparison
compare_versions a b =
    then_compare a.major b.major (then_compare a.minor b.minor (then_compare a.patch b.patch equal))

unfoldable pub compare_semver : Option Text → Option Text → Option Comparison
compare_semver a b = elim (parse a) [
  | none ↦ none
  | some va ↦ elim (parse b) [ none ↦ none | some vb ↦ some (compare_versions va vb) ]
]

abbrev pub is_comparison : Comparison → Option Comparison → Bool
is_comparison older (some older) = true
is_comparison newer (some newer) = true
is_comparison equal (some equal) = true
is_comparison _ _ = false

unfoldable pub is_connector_outdated : Option Text → Text → Bool
is_connector_outdated connector_version manager_version =
    is_comparison older (compare_semver connector_version (some manager_version))

unfoldable pub is_update_available : Option Text → Text → Bool
is_update_available latest_version manager_version =
    is_comparison newer (compare_semver latest_version (some manager_version))
