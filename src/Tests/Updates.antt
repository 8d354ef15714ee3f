-- ===== src/Tests/Updates.antt =====
-- Versions at concrete numbers.
use captivo_access.Prelude.{◌≡◌, ◌↔◌, true, some, lit, refl}
use captivo_access.Updates.{Version, is_connector_outdated, is_update_available}
use captivo_access.Updates.Printed.{printed}
use captivo_access.Updates.Newest.{IsBelow, updates_iff}

abbrev at_ten : Version
at_ten = record { major = 1; minor = 10; patch = 0 }

abbrev at_nine : Version
at_nine = record { major = 1; minor = 9; patch = 7 }

updates_iff_example :
    ((is_update_available (some (printed at_ten)) (printed at_nine) ≡ true)
      ↔ IsBelow at_nine at_ten)
    × ((is_connector_outdated (some (printed at_ten)) (printed at_nine) ≡ true)
        ↔ IsBelow at_ten at_nine)
updates_iff_example = updates_iff at_ten at_nine

prerelease_test : is_update_available (some (lit " v1.10.0-rc1")) (lit "1.9.7") ≡ true
unfolding is_update_available captivo_access.Updates.compare_semver captivo_access.Updates.parse
    captivo_access.Updates.digits captivo_access.Prelude.trim
prerelease_test = refl
