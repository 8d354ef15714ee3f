-- ===== src/Site/Validate/Safe.antt =====
-- About validateSiteInput of lib/site/validate.ts: the sites that are accepted.
use captivo_access.Prelude.{
  ℕ, ◌≤◌, ◌≡◌, ◌⊎◌, inl, inr, refl, Bool, true, false, not, ◌&&◌, ◌||◌, ◌++◌, Option, none, some,
  Text, lit, is_empty, contains, trim, arith, Bool-cases, Option-cases, is_some,
}
use captivo_access.Json.{Num, nat, negsuc, fraction, infinite, nan, Fields, get, is_true, non_empty}
use captivo_access.Site.Validate.{
  SiteValidation, transparent, gateway, isolated, refused, Options, AccessMode, mode_gateway,
  mode_isolated, mode_transparent, mode_of, protocols, is_dns_label, is_domain, hostname_of, is_web,
  raw_string, port_in_range, field_text, records, port_of, validate_isolated, validate_gateway,
  validate_transparent, validate_mode, validate_site_input,
}

-- The host of a transparent site: a domain of the customer's own, or a label under the suffix of the
-- deployment, or what was typed where no suffix is configured.
abbrev pub HostAllowed : Option Text → Bool → Text → Type 0
HostAllowed suffix true host = is_domain host ≡ true
HostAllowed none false host = is_empty host ≡ false
HostAllowed (some suffix) false host =
    ((is_empty suffix ≡ true) × (is_empty host ≡ false))
    ⊎ ((label : Text) × (is_dns_label label ≡ true) × (host ≡ label ++ suffix))

-- Recording is never on where the deployment has it off.
abbrev pub MayRecord : Options → Bool → Type 0
MayRecord opts recording = (recording && not opts.recording_enabled) ≡ false

module _ (url_protocol : Text → Option Text) (opts : Options) where
  abbrev pub IsSafe : SiteValidation → Type 0
  IsSafe (refused e) = Unit
  IsSafe (transparent t) =
      (is_web (url_protocol t.upstream_url) ≡ true)
      × HostAllowed opts.host_suffix t.custom_domain t.hostname
      × MayRecord opts t.record_sessions
  IsSafe (isolated i) =
      (opts.isolation_enabled ≡ true)
      × (is_web (url_protocol i.upstream_url) ≡ true)
      × MayRecord opts i.record_sessions
  IsSafe (gateway g) =
      (opts.native_gateway ≡ true)
      × (contains protocols g.protocol ≡ true)
      × (1 ≤ g.target_port)
      × (g.target_port ≤ 65535)
      × (is_empty g.target_host ≡ false)
      × (is_empty g.username ≡ false)
      × ((opts.require_secret && not (is_some g.secret)) ≡ false)
      × MayRecord opts g.record_sessions
      × ((g.keystroke_logging && not g.record_sessions) ≡ false)

port_in_range_lem : (n : Num) (p : ℕ) → port_in_range n ≡ some p → (1 ≤ p) × (p ≤ 65535)
port_in_range_lem (nat n) p h = (ground arith, ground arith)
port_in_range_lem (negsuc n) p h = absurd cc
port_in_range_lem (fraction b n) p h = absurd cc
port_in_range_lem (infinite b) p h = absurd cc
port_in_range_lem nan p h = absurd cc

hostname_of_lem :
    (custom : Bool) (suffix : Option Text) (raw host : Text)
    → is_empty raw ≡ false
    → hostname_of custom suffix raw ≡ some host
    → HostAllowed suffix custom host
unfolding hostname_of
hostname_of_lem true suffix raw host e h = elim (Bool-cases (is_domain raw)) [
  | inl d ↦ ground (arith, d)
  | inr d ↦ ground arith
]
hostname_of_lem false none raw host e h = ground arith
hostname_of_lem false (some suffix) raw host e h = elim (Bool-cases (is_empty suffix)) [
  | inl d ↦ inl (d, ground arith)
  | inr d ↦ elim (Bool-cases (is_dns_label raw)) [
    | inl l ↦ inr (raw, l, ground arith)
    | inr l ↦ absurd (ground arith)
  ]
]

or_false : (a b : Bool) → (a || b) ≡ false → (a ≡ false) × (b ≡ false)
or_false a b h = (ground arith, ground arith)

is_some-non_empty : (s : Text) → is_some (non_empty s) ≡ not (is_empty s)
is_some-non_empty s = ground arith

module _ (to_lower to_upper : Text → Text) (number_of : Text → Num)
    (url_protocol : Text → Option Text) (opts : Options) (body : Fields) where
  abbrev recording : Bool
  recording = records to_lower to_upper number_of url_protocol opts body

  abbrev text_of : Text → Text
  text_of = field_text to_lower to_upper number_of url_protocol opts body

  abbrev port : Option ℕ
  port =
      port_in_range
        (port_of to_lower to_upper number_of url_protocol opts body (get (lit "targetPort") body))

  records-MayRecord : MayRecord opts recording
  records-MayRecord = ground arith

  keystrokes_recorded : (asked : Bool) → ((recording && asked) && not recording) ≡ false
  keystrokes_recorded asked = ground arith

  secret_given :
      (secret : Text)
      → (opts.require_secret && is_empty secret) ≡ false
      → (opts.require_secret && not (is_some (non_empty secret))) ≡ false
  secret_given secret h = ground (arith, is_some-non_empty secret)

  validate_isolated-IsSafe :
      IsSafe url_protocol opts
        (validate_isolated to_lower to_upper number_of url_protocol opts body)
  unfolding validate_isolated
  validate_isolated-IsSafe = elim (Bool-cases opts.isolation_enabled) [
    | inr e ↦ rw (e, validate_isolated) tt
    | inl e ↦ elim (Bool-cases (is_empty (text_of (lit "upstreamUrl")))) [
      | inl e1 ↦ rw (e, e1, validate_isolated) tt
      | inr e1 ↦ elim (Bool-cases (is_web (url_protocol (text_of (lit "upstreamUrl"))))) [
        | inr e2 ↦ rw (e, e1, e2, validate_isolated) tt
        | inl e2 ↦ rw (e, e1, e2, validate_isolated) (refl, e2, records-MayRecord)
      ]
    ]
  ]

  validate_gateway-IsSafe :
      IsSafe url_protocol opts (validate_gateway to_lower to_upper number_of url_protocol opts body)
  unfolding validate_gateway
  validate_gateway-IsSafe = elim (Bool-cases opts.native_gateway) [
    | inr e ↦ rw (e, validate_gateway) tt
    | inl e ↦ elim (Bool-cases (contains protocols (to_upper (text_of (lit "protocol"))))) [
      | inr e1 ↦ rw (e, e1, validate_gateway) tt
      | inl e1 ↦
          elim (Bool-cases
            (is_empty (text_of (lit "targetHost")) || is_empty (text_of (lit "username")))) [
              | inl e2 ↦ rw (e, e1, e2, validate_gateway) tt
              | inr e2 ↦ elim (Option-cases port) [
                | inl e3 ↦ rw (e, e1, e2, e3, validate_gateway) tt
                | inr (p, e3) ↦
                    let secret = raw_string (get (lit "secret") body) in
                    elim (Bool-cases (opts.require_secret && is_empty secret)) [
                      | inl e4 ↦ rw (e, e1, e2, e3, e4, validate_gateway) tt
                      | inr e4 ↦
                          let (low, high) =
                            port_in_range_lem
                              (port_of to_lower to_upper number_of url_protocol opts body
                                (get (lit "targetPort") body))
                              p e3 in
                          let (has_host, has_user) = or_false _ _ e2 in
                          rw (e, e1, e2, e3, e4, validate_gateway)
                            (
                              refl,
                              e1,
                              low,
                              high,
                              has_host,
                              has_user,
                              secret_given secret e4,
                              records-MayRecord,
                              keystrokes_recorded (is_true (get (lit "keystrokeLogging") body)),
                            )
                    ]
              ]
            ]
    ]
  ]

  validate_transparent-IsSafe :
      IsSafe url_protocol opts
        (validate_transparent to_lower to_upper number_of url_protocol opts body)
  unfolding validate_transparent
  validate_transparent-IsSafe =
      let raw = trim (to_lower (text_of (lit "hostname"))) in
      let custom = is_true (get (lit "customDomain") body) in
      elim (Bool-cases (is_empty raw)) [
        | inl e ↦ rw (e, validate_transparent) tt
        | inr e ↦ elim (Option-cases (hostname_of custom opts.host_suffix raw)) [
          | inl e1 ↦ rw (e, e1, validate_transparent) tt
          | inr (host, e1) ↦ elim (Bool-cases (is_empty (text_of (lit "upstreamUrl")))) [
            | inl e2 ↦ rw (e, e1, e2, validate_transparent) tt
            | inr e2 ↦ elim (Bool-cases (is_web (url_protocol (text_of (lit "upstreamUrl"))))) [
              | inr e3 ↦ rw (e, e1, e2, e3, validate_transparent) tt
              | inl e3 ↦
                  rw (e, e1, e2, e3, validate_transparent)
                    (e3, hostname_of_lem custom opts.host_suffix raw host e e1, records-MayRecord)
            ]
          ]
        ]
      ]

  validate_mode-IsSafe :
      (mode : AccessMode)
      → IsSafe url_protocol opts
          (validate_mode to_lower to_upper number_of url_protocol opts body mode)
  validate_mode-IsSafe mode_isolated = validate_isolated-IsSafe
  validate_mode-IsSafe mode_gateway = validate_gateway-IsSafe
  validate_mode-IsSafe mode_transparent = validate_transparent-IsSafe

  -- Whatever a request sends, a site that is accepted is safe: its web address is one of HTTP or
  -- HTTPS and its host is allowed (transparent), its kind is enabled in the deployment (isolated and
  -- gateway), its protocol is one of three, its port lies between 1 and 65535, its host, its user
  -- and a required secret are present (gateway), and sessions and keystrokes are recorded only
  -- where the deployment records, keystrokes only with the session.
  pub validate_site_input-IsSafe :
      IsSafe url_protocol opts
        (validate_site_input to_lower to_upper number_of url_protocol opts body)
  unfolding validate_site_input
  validate_site_input-IsSafe =
      elim (Bool-cases
        (is_empty (text_of (lit "connectorId")) || is_empty (text_of (lit "name")))) [
          | inl e ↦ rw (e, validate_site_input) tt
          | inr e ↦
              rw (e, validate_site_input)
                (validate_mode-IsSafe (mode_of (get (lit "accessMode") body)))
        ]
