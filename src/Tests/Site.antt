-- ===== src/Tests/Site.antt =====
-- The site form and the rate limiter at concrete inputs.
use captivo_access.Prelude.{
  ◌≤◌, ◌≡◌, refl, true, false, [], ◌∷◌, Option, none, some, Text, lit, starts_with, if◌then◌else◌,
  arith,
}
use captivo_access.Json.{Num, nat, nan, Json, bool, num, str, Fields, field, end, obj}
use captivo_access.Site.GuacParams.{parse_guac_params}
use captivo_access.Site.GuacParams.Curated.{IsCurated, parse_guac_params-IsCurated}
use captivo_access.Site.Validate.{Options, validate_site_input}
use captivo_access.Site.Validate.Safe.{IsSafe, validate_site_input-IsSafe}
use captivo_access.RateLimit.{Limiter, lookup, sweep}
use captivo_access.RateLimit.Window.{IsOver, passed, check_rate_limit_bounds}

abbrev same : Text → Text
same s = s

abbrev no_number : Text → Num
no_number s = nan

abbrev web : Text → Option Text
web s = if starts_with (lit "https://") s then some (lit "https:") else none

abbrev cloud : Options
cloud = record {
  native_gateway = true;
  require_secret = true;
  recording_enabled = false;
  isolation_enabled = true;
  host_suffix = some (lit ".access.example.com");
}

abbrev wiki : Fields
wiki = field (lit "connectorId") (str (lit "c1")) (
    field (lit "name") (str (lit "Wiki")) (
      field (lit "hostname") (str (lit "wiki")) (
        field (lit "upstreamUrl") (str (lit "https://wiki.corp"))
          (field (lit "recordSessions") (bool true) end))))

validate_site_input_example :
    IsSafe web cloud (validate_site_input same same no_number web cloud wiki)
validate_site_input_example = validate_site_input-IsSafe same same no_number web cloud wiki

abbrev settings : Json
settings =
    obj (field (lit "colorDepth") (num (nat 16)) (field (lit "sftpRoot") (str (lit "etc")) end))

parse_guac_params_example : IsCurated (parse_guac_params no_number settings)
parse_guac_params_example = parse_guac_params-IsCurated no_number settings

-- The window of the key ended at 1500, and the last sweep was too recent to remove it at 1600.
abbrev unused : Limiter
unused = record {
  hits = record { key = lit "10.0.0.1"; count = 5; reset = 1500 } ∷ [];
  last_sweep = 1000;
}

not_swept_yet : IsOver 1600 (lookup (lit "10.0.0.1") (sweep 1600 unused).hits)
unfolding sweep captivo_access.Prelude.text_eq
not_swept_yet = omega arith

check_rate_limit_example :
    passed (lit "10.0.0.1") 2 1000 (1600 ∷ 2001 ∷ 2001 ∷ 2600 ∷ []) unused ≤ 2
check_rate_limit_example =
    check_rate_limit_bounds (lit "10.0.0.1") 2 1000 1600 (2001 ∷ 2001 ∷ 2600 ∷ []) unused
      (omega arith) not_swept_yet (omega arith, (omega arith, (omega arith, tt)))
