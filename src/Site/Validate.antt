-- ===== src/Site/Validate.antt =====
-- lib/site/validate.ts: the body of a request to create or change a site. Parameters: the lower and
-- upper case of a string, `Number(s)`, and the protocol of `new URL(s)` (none where it throws).
pub mod Safe
use captivo_access.Prelude.{
  ℕ, Bool, true, false, not, ◌&&◌, ◌||◌, List, [], ◌∷◌, ◌++◌, Option, none, some, Text, lit,
  text_eq, is_empty, is_digit, any, all, contains, trim, split, length, leb, ◌==◌, if◌then◌else◌,
  is_some,
}
use captivo_access.Json.{
  Num, nat, Json, bool, num, str, Fields, get, trimmed_string, is_true, non_empty,
}
use captivo_access.Site.GuacParams.{GuacParams, parse_guac_params}

-- `CLIP`, `FT` and `PROTOCOLS`.
abbrev pub clipboard_modes : List Text
clipboard_modes = lit "allow" ∷ lit "no_copy" ∷ lit "no_paste" ∷ lit "none" ∷ []

abbrev pub file_transfer_modes : List Text
file_transfer_modes = lit "allow" ∷ lit "no_upload" ∷ lit "no_download" ∷ lit "none" ∷ []

abbrev pub protocols : List Text
protocols = lit "RDP" ∷ lit "SSH" ∷ lit "VNC" ∷ []

pub record Transparent : Type 0 where
  pub connector_id : Text
  pub name : Text
  pub hostname : Text
  pub custom_domain : Bool
  pub upstream_url : Text
  pub description : Option Text
  pub insecure_skip_verify : Bool
  pub clipboard_mode : Option Text
  pub record_sessions : Bool

pub record Gateway : Type 0 where
  pub connector_id : Text
  pub name : Text
  pub description : Option Text
  pub protocol : Text
  pub target_host : Text
  pub target_port : ℕ
  pub username : Text
  pub secret : Option Text
  pub record_sessions : Bool
  pub keystroke_logging : Bool
  pub guac_params : GuacParams

pub record Isolated : Type 0 where
  pub connector_id : Text
  pub name : Text
  pub description : Option Text
  pub upstream_url : Text
  pub insecure_skip_verify : Bool
  pub record_sessions : Bool
  pub clipboard_mode : Option Text
  pub watermark : Option Bool
  pub file_transfer_mode : Text

pub data SiteError : Type 0 where
  connector_name_required isolation_disabled isolated_url_required invalid_upstream_url
        native_gateway_disabled invalid_protocol remote_desktop_fields_required invalid_port
        invalid_hostname connector_name_upstream_required :
      SiteError

pub data SiteValidation : Type 0 where
  transparent : Transparent → SiteValidation
  gateway : Gateway → SiteValidation
  isolated : Isolated → SiteValidation
  refused : SiteError → SiteValidation

pub record Options : Type 0 where
  pub native_gateway : Bool
  pub require_secret : Bool
  pub recording_enabled : Bool
  pub isolation_enabled : Bool
  pub host_suffix : Option Text

pub data AccessMode : Type 0 where
  mode_gateway mode_isolated mode_transparent : AccessMode

abbrev pub mode_of : Json → AccessMode
mode_of (str s) =
    if text_eq s (lit "GATEWAY")
    then mode_gateway
    else if text_eq s (lit "ISOLATED")
    then mode_isolated
    else mode_transparent
mode_of _ = mode_transparent

abbrev pub is_lower : ℕ → Bool
is_lower c = leb b'a' c && leb c b'z'

abbrev pub is_alnum : ℕ → Bool
is_alnum c = is_lower c || is_digit c

abbrev pub ends_alnum : Text → Bool
ends_alnum [] = false
ends_alnum (c ∷ []) = is_alnum c
ends_alnum (c ∷ (d ∷ s)) = ends_alnum (d ∷ s)

abbrev pub starts_alnum : Text → Bool
starts_alnum [] = false
starts_alnum (c ∷ s) = is_alnum c

abbrev pub is_label_unit : ℕ → Bool
is_label_unit c = is_alnum c || c == b'-'

-- `/^[a-z0-9](?:[a-z0-9-]{0,61}[a-z0-9])?$/`.
unfoldable pub is_dns_label : Text → Bool
is_dns_label s = starts_alnum s && (ends_alnum s && (all is_label_unit s && leb (length s) 63))

-- The parts of `/^(?=.{1,253}$)([a-z0-9]([a-z0-9-]{0,61}[a-z0-9])?\.)+[a-z]{2,}$/`: labels, and a
-- last part of letters.
abbrev pub are_domain_parts : List Text → Bool
are_domain_parts [] = false
are_domain_parts (tld ∷ []) = all is_lower tld && leb 2 (length tld)
are_domain_parts (l ∷ (m ∷ ls)) = is_dns_label l && are_domain_parts (m ∷ ls)

unfoldable pub is_domain : Text → Bool
is_domain s =
    leb (length s) 253 && (leb 2 (length (split b'.' s)) && are_domain_parts (split b'.' s))

-- The host of a transparent site, or none where it is invalid.
unfoldable pub hostname_of : Bool → Option Text → Text → Option Text
hostname_of true suffix raw = if is_domain raw then some raw else none
hostname_of false none raw = some raw
hostname_of false (some suffix) raw =
    if is_empty suffix then some raw else if is_dns_label raw then some (raw ++ suffix) else none

abbrev pub is_web : Option Text → Bool
is_web none = false
is_web (some protocol) = text_eq protocol (lit "http:") || text_eq protocol (lit "https:")

abbrev pub known : List Text → Text → Option Text
known modes s = if contains modes s then some s else none

abbrev pub known_or_none : List Text → Text → Text
known_or_none modes s = if contains modes s then s else lit "none"

abbrev pub watermark_of : Json → Option Bool
watermark_of (bool b) = some b
watermark_of _ = none

abbrev pub raw_string : Json → Text
raw_string (str s) = s
raw_string _ = []

abbrev pub port_in_range : Num → Option ℕ
port_in_range (nat n) = if leb 1 n && leb n 65535 then some n else none
port_in_range _ = none

module _ (to_lower to_upper : Text → Text) (number_of : Text → Num)
    (url_protocol : Text → Option Text) (opts : Options) (body : Fields) where
  abbrev pub field_text : Text → Text
  field_text k = trimmed_string (get k body)

  abbrev pub records : Bool
  records = opts.recording_enabled && is_true (get (lit "recordSessions") body)

  abbrev pub port_of : Json → Num
  port_of (num n) = n
  port_of v = number_of (trimmed_string v)

  unfoldable pub validate_isolated : SiteValidation
  validate_isolated =
      let upstream_url = field_text (lit "upstreamUrl") in
      if not opts.isolation_enabled
      then refused isolation_disabled
      else if is_empty upstream_url
      then refused isolated_url_required
      else if not (is_web (url_protocol upstream_url))
      then refused invalid_upstream_url
      else isolated (record {
        connector_id = field_text (lit "connectorId");
        name = field_text (lit "name");
        description = non_empty (field_text (lit "description"));
        upstream_url = upstream_url;
        insecure_skip_verify = is_true (get (lit "insecureSkipVerify") body);
        record_sessions = records;
        clipboard_mode = known clipboard_modes (field_text (lit "clipboardMode"));
        watermark = watermark_of (get (lit "watermark") body);
        file_transfer_mode =
            known_or_none file_transfer_modes (field_text (lit "fileTransferMode"));
      })

  unfoldable pub validate_gateway : SiteValidation
  validate_gateway =
      let protocol = to_upper (field_text (lit "protocol")) in
      let target_host = field_text (lit "targetHost") in
      let username = field_text (lit "username") in
      let secret = raw_string (get (lit "secret") body) in
      if not opts.native_gateway
      then refused native_gateway_disabled
      else if not (contains protocols protocol)
      then refused invalid_protocol
      else if is_empty target_host || is_empty username
      then refused remote_desktop_fields_required
      else elim (port_in_range (port_of (get (lit "targetPort") body))) [
        | none ↦ refused invalid_port
        | some target_port ↦
            if opts.require_secret && is_empty secret
            then refused remote_desktop_fields_required
            else gateway (record {
              connector_id = field_text (lit "connectorId");
              name = field_text (lit "name");
              description = non_empty (field_text (lit "description"));
              protocol = protocol;
              target_host = target_host;
              target_port = target_port;
              username = username;
              secret = non_empty secret;
              record_sessions = records;
              keystroke_logging = records && is_true (get (lit "keystrokeLogging") body);
              guac_params = parse_guac_params number_of (get (lit "guacParams") body);
            })
      ]

  unfoldable pub validate_transparent : SiteValidation
  validate_transparent =
      let custom_domain = is_true (get (lit "customDomain") body) in
      let raw_host = trim (to_lower (field_text (lit "hostname"))) in
      let upstream_url = field_text (lit "upstreamUrl") in
      if is_empty raw_host
      then refused invalid_hostname
      else elim (hostname_of custom_domain opts.host_suffix raw_host) [
        | none ↦ refused invalid_hostname
        | some hostname ↦
            if is_empty upstream_url
            then refused connector_name_upstream_required
            else if not (is_web (url_protocol upstream_url))
            then refused invalid_upstream_url
            else transparent (record {
              connector_id = field_text (lit "connectorId");
              name = field_text (lit "name");
              hostname = hostname;
              custom_domain = custom_domain;
              upstream_url = upstream_url;
              description = non_empty (field_text (lit "description"));
              insecure_skip_verify = is_true (get (lit "insecureSkipVerify") body);
              clipboard_mode = known clipboard_modes (field_text (lit "clipboardMode"));
              record_sessions = records;
            })
      ]

  abbrev pub validate_mode : AccessMode → SiteValidation
  validate_mode mode_isolated = validate_isolated
  validate_mode mode_gateway = validate_gateway
  validate_mode mode_transparent = validate_transparent

  unfoldable pub validate_site_input : SiteValidation
  validate_site_input =
      if is_empty (field_text (lit "connectorId")) || is_empty (field_text (lit "name"))
      then refused connector_name_required
      else validate_mode (mode_of (get (lit "accessMode") body))
