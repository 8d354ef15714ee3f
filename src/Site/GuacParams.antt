-- ===== src/Site/GuacParams.antt =====
-- lib/gateway/guac-params.ts: the settings that a request may carry, and those in force. `number_of`
-- is JavaScript's `Number(s)` on a string.
pub mod Curated
use captivo_access.Prelude.{
  ℕ, Bool, true, false, not, ◌&&◌, List, [], ◌∷◌, Option, none, some, Text, lit, is_empty, any,
  contains, trim, starts_with, text_eq, ◌||◌, ◌++◌, length, leb, ltb, ◌==◌, if◌then◌else◌,
}
use captivo_access.Prelude.Decimal.{decimal}
use captivo_access.Json.{Num, nat, Json, bool, num, str, obj, Fields, end, get}

pub record GuacParams : Type 0 where
  pub server_layout : Option Text
  pub color_depth : Option ℕ
  pub enable_wallpaper : Option Bool
  pub enable_theming : Option Bool
  pub enable_font_smoothing : Option Bool
  pub enable_full_window_drag : Option Bool
  pub enable_file_transfer : Option Bool
  pub block_upload : Option Bool
  pub block_download : Option Bool
  pub sftp_root : Option Text
  pub rdp_security : Option Text
  pub disable_audio : Option Bool
  pub enable_printing : Option Bool
  pub terminal_font_size : Option ℕ
  pub terminal_color_scheme : Option Text
  pub terminal_scrollback : Option ℕ

-- The values of `TERMINAL_COLOR_SCHEMES` and of `KEYBOARD_LAYOUTS` that are not empty.
abbrev pub schemes : List Text
schemes = lit "gray-black" ∷ lit "black-white" ∷ lit "green-black" ∷ lit "white-black" ∷ []

abbrev pub layouts : List Text
layouts =
    lit "en-us-qwerty"
    ∷ lit "en-gb-qwerty"
    ∷ lit "tr-tr-qwerty"
    ∷ lit "de-de-qwertz"
    ∷ lit "de-ch-qwertz"
    ∷ lit "fr-fr-azerty"
    ∷ lit "fr-be-azerty"
    ∷ lit "fr-ch-qwertz"
    ∷ lit "es-es-qwerty"
    ∷ lit "es-latam-qwerty"
    ∷ lit "it-it-qwerty"
    ∷ lit "ja-jp-qwerty"
    ∷ lit "pt-br-qwerty"
    ∷ lit "sv-se-qwerty"
    ∷ lit "no-no-qwerty"
    ∷ lit "hu-hu-qwertz"
    ∷ []

abbrev pub is_depth : ℕ → Bool
is_depth n = any (λ d. d == n) (8 ∷ 16 ∷ 24 ∷ [])

abbrev pub rdp_security_modes : List Text
rdp_security_modes = lit "any" ∷ lit "nla" ∷ lit "tls" ∷ lit "rdp" ∷ []

-- The properties of an object; an array has none of the keys that are read.
abbrev pub fields_of : Json → Fields
fields_of (obj fs) = fs
fields_of _ = end

abbrev pub text_where : (Text → Bool) → Json → Option Text
text_where p (str s) = if p s then some s else none
text_where p _ = none

abbrev pub bool_value : Json → Option Bool
bool_value (bool b) = some b
bool_value _ = none

-- A natural number that passes; no negative number or fraction passes any test of the source.
abbrev pub number_where : (ℕ → Bool) → Json → Option ℕ
number_where p (num (nat n)) = if p n then some n else none
number_where p _ = none

abbrev pub in_range : ℕ → ℕ → ℕ → Bool
in_range lo hi n = leb lo n && leb n hi

abbrev pub is_sftp_root : Text → Bool
is_sftp_root v = starts_with (lit "/") v && (leb (length v) 1024 && not (any (λ c. ltb c 32) v))

abbrev pub sftp_root_of : Json → Option Text
sftp_root_of (str s) = if is_sftp_root (trim s) then some (trim s) else none
sftp_root_of _ = none

-- A number, or a string that holds more than white space, read as one.
abbrev pub numeric : (Text → Num) → Json → Json
numeric number_of (str s) = if is_empty (trim s) then str s else num (number_of s)
numeric number_of v = v

unfoldable pub parse_guac_params : (Text → Num) → Json → GuacParams
parse_guac_params number_of input =
    let o = λ (k : Text). get k (fields_of input) in
    record {
      server_layout = text_where (contains layouts) (o (lit "serverLayout"));
      color_depth = number_where is_depth (o (lit "colorDepth"));
      enable_wallpaper = bool_value (o (lit "enableWallpaper"));
      enable_theming = bool_value (o (lit "enableTheming"));
      enable_font_smoothing = bool_value (o (lit "enableFontSmoothing"));
      enable_full_window_drag = bool_value (o (lit "enableFullWindowDrag"));
      enable_file_transfer = bool_value (o (lit "enableFileTransfer"));
      block_upload = bool_value (o (lit "blockUpload"));
      block_download = bool_value (o (lit "blockDownload"));
      sftp_root = sftp_root_of (o (lit "sftpRoot"));
      rdp_security = text_where (contains rdp_security_modes) (o (lit "rdpSecurity"));
      disable_audio = bool_value (o (lit "disableAudio"));
      enable_printing = bool_value (o (lit "enablePrinting"));
      terminal_font_size =
          number_where (in_range 8 32) (numeric number_of (o (lit "terminalFontSize")));
      terminal_color_scheme = text_where (contains schemes) (o (lit "terminalColorScheme"));
      terminal_scrollback =
          number_where (in_range 100 100000) (numeric number_of (o (lit "terminalScrollback")));
    }

-- `a ?? b`.
abbrev pub or_else {ℓ} : {A : Type ℓ} → Option A → Option A → Option A
or_else (some a) b = some a
or_else none b = b

unfoldable pub resolve_guac_params : GuacParams → GuacParams → GuacParams
resolve_guac_params r p = record {
  server_layout = or_else r.server_layout p.server_layout;
  color_depth = or_else r.color_depth p.color_depth;
  enable_wallpaper = or_else r.enable_wallpaper p.enable_wallpaper;
  enable_theming = or_else r.enable_theming p.enable_theming;
  enable_font_smoothing = or_else r.enable_font_smoothing p.enable_font_smoothing;
  enable_full_window_drag = or_else r.enable_full_window_drag p.enable_full_window_drag;
  enable_file_transfer = or_else r.enable_file_transfer p.enable_file_transfer;
  block_upload = or_else r.block_upload p.block_upload;
  block_download = or_else r.block_download p.block_download;
  sftp_root = or_else r.sftp_root p.sftp_root;
  rdp_security = or_else r.rdp_security p.rdp_security;
  disable_audio = or_else r.disable_audio p.disable_audio;
  enable_printing = or_else r.enable_printing p.enable_printing;
  terminal_font_size = or_else r.terminal_font_size p.terminal_font_size;
  terminal_color_scheme = or_else r.terminal_color_scheme p.terminal_color_scheme;
  terminal_scrollback = or_else r.terminal_scrollback p.terminal_scrollback;
}

-- `sshHome`.
abbrev pub ssh_home : Option Text → Text
ssh_home none = lit "/"
ssh_home (some username) =
    if text_eq username (lit "root")
    then lit "/root"
    else if is_empty username
    then lit "/"
    else lit "/home/" ++ username

pub data Protocol : Type 0 where
  rdp ssh vnc : Protocol

-- The pairs that an assignment adds, in the order of the code.
abbrev pub Args : Type 0
Args = List (Text × Text)

abbrev pub arg_text : Text → Option Text → Args
arg_text k none = []
arg_text k (some v) = if is_empty v then [] else (k, v) ∷ []

abbrev pub arg_number : Text → Option ℕ → Args
arg_number k none = []
arg_number k (some n) = if n == 0 then [] else (k, decimal n) ∷ []

abbrev pub arg_flag : Text → Option Bool → Args
arg_flag k (some true) = (k, lit "true") ∷ []
arg_flag k _ = []

abbrev pub is_mode : Text → Text → Bool
is_mode mode clipboard_mode = text_eq clipboard_mode mode || text_eq clipboard_mode (lit "none")

abbrev pub printing_args : Option Bool → Args
printing_args (some true) =
    (lit "enable-printing", lit "true") ∷ (lit "printer-name", lit "Captivo Printer") ∷ []
printing_args _ = []

abbrev pub protocol_args : GuacParams → Protocol → Args
protocol_args p rdp =
    arg_text (lit "security") p.rdp_security
    ++ arg_flag (lit "disable-audio") p.disable_audio
    ++ printing_args p.enable_printing
protocol_args p ssh =
    arg_number (lit "font-size") p.terminal_font_size
    ++ arg_text (lit "color-scheme") p.terminal_color_scheme
    ++ arg_number (lit "scrollback") p.terminal_scrollback
protocol_args p vnc = []

-- `(p.sftpRoot && p.sftpRoot.trim()) || sshHome(username)`.
abbrev pub root_or_home : Option Text → Option Text → Text
root_or_home none username = ssh_home username
root_or_home (some root) username = if is_empty (trim root) then ssh_home username else trim root

abbrev pub transfer_args : GuacParams → Protocol → Option Text → Args
transfer_args p rdp username =
    (lit "enable-drive", lit "true")
    ∷ (lit "create-drive-path", lit "true")
    ∷ (lit "drive-name", lit "Captivo")
    ∷ (arg_flag (lit "disable-upload") p.block_upload
        ++ arg_flag (lit "disable-download") p.block_download)
transfer_args p ssh username =
    (lit "enable-sftp", lit "true")
    ∷ (lit "sftp-root-directory", root_or_home p.sftp_root username)
    ∷ (arg_flag (lit "sftp-disable-upload") p.block_upload
        ++ arg_flag (lit "sftp-disable-download") p.block_download)
transfer_args p vnc username = []

abbrev pub when_flag : Option Bool → Args → Args
when_flag (some true) args = args
when_flag _ args = []

-- The arguments for guacd, as pairs; no key is assigned twice.
unfoldable pub to_guac_args : GuacParams → Text → Protocol → Option Text → Args
to_guac_args p clipboard_mode protocol username =
    arg_text (lit "server-layout") p.server_layout
    ++ arg_number (lit "color-depth") p.color_depth
    ++ arg_flag (lit "enable-wallpaper") p.enable_wallpaper
    ++ arg_flag (lit "enable-theming") p.enable_theming
    ++ arg_flag (lit "enable-font-smoothing") p.enable_font_smoothing
    ++ arg_flag (lit "enable-full-window-drag") p.enable_full_window_drag
    ++ (if is_mode (lit "no_copy") clipboard_mode
        then (lit "disable-copy", lit "true") ∷ []
        else [])
    ++ (if is_mode (lit "no_paste") clipboard_mode
        then (lit "disable-paste", lit "true") ∷ []
        else [])
    ++ protocol_args p protocol
    ++ when_flag p.enable_file_transfer (transfer_args p protocol username)
