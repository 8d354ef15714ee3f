-- ===== src/Site/GuacParams/Curated.antt =====
-- About parseGuacParams and resolveGuacParams of lib/gateway/guac-params.ts.
use captivo_access.Prelude.{
  ℕ, ◌≡◌, Bool, true, Option, none, some, Text, contains, trim, lit, Bool-cases, inl, inr,
}
use captivo_access.Json.{
  Num, nat, negsuc, fraction, infinite, nan, Json, undefined, null, bool, num, str, arr, obj, get,
}
use captivo_access.Site.GuacParams.{
  GuacParams, layouts, schemes, rdp_security_modes, is_depth, is_sftp_root, in_range, text_where,
  number_where, sftp_root_of, parse_guac_params, resolve_guac_params, or_else, numeric, fields_of,
}

-- An optional value passes a test wherever it is present.
abbrev pub Passes {ℓ} : {A : Type ℓ} → (A → Bool) → Option A → Type 0
Passes p none = Unit
Passes p (some a) = p a ≡ true

pub record IsCurated (g : GuacParams) : Type 0 where
  pub layout : Passes (contains layouts) g.server_layout
  pub depth : Passes is_depth g.color_depth
  pub root : Passes is_sftp_root g.sftp_root
  pub security : Passes (contains rdp_security_modes) g.rdp_security
  pub font : Passes (in_range 8 32) g.terminal_font_size
  pub scheme : Passes (contains schemes) g.terminal_color_scheme
  pub scrollback : Passes (in_range 100 100000) g.terminal_scrollback

text_where-Passes : (p : Text → Bool) (v : Json) → Passes p (text_where p v)
text_where-Passes p (str s) = elim (Bool-cases (p s)) [ inl e ↦ rw e e | inr e ↦ rw e tt ]
text_where-Passes p undefined = tt
text_where-Passes p null = tt
text_where-Passes p (bool b) = tt
text_where-Passes p (num n) = tt
text_where-Passes p (arr vs) = tt
text_where-Passes p (obj fs) = tt

number_where-Passes : (p : ℕ → Bool) (v : Json) → Passes p (number_where p v)
number_where-Passes p (num (nat n)) = elim (Bool-cases (p n)) [ inl e ↦ rw e e | inr e ↦ rw e tt ]
number_where-Passes p (num (negsuc n)) = tt
number_where-Passes p (num (fraction b n)) = tt
number_where-Passes p (num (infinite b)) = tt
number_where-Passes p (num nan) = tt
number_where-Passes p undefined = tt
number_where-Passes p null = tt
number_where-Passes p (bool b) = tt
number_where-Passes p (str s) = tt
number_where-Passes p (arr vs) = tt
number_where-Passes p (obj fs) = tt

sftp_root_of-Passes : (v : Json) → Passes is_sftp_root (sftp_root_of v)
sftp_root_of-Passes (str s) = elim (Bool-cases (is_sftp_root (trim s))) [
  | inl e ↦ rw e e
  | inr e ↦ rw e tt
]
sftp_root_of-Passes undefined = tt
sftp_root_of-Passes null = tt
sftp_root_of-Passes (bool b) = tt
sftp_root_of-Passes (num n) = tt
sftp_root_of-Passes (arr vs) = tt
sftp_root_of-Passes (obj fs) = tt

or_else-Passes {ℓ} :
    {A : Type ℓ} (p : A → Bool) (a b : Option A) → Passes p a → Passes p b → Passes p (or_else a b)
or_else-Passes p none b h k = k
or_else-Passes p (some a) b h k = h

-- Whatever a request sends, what is kept of it is of the curated values: the layouts, depths,
-- security modes and colour schemes of the lists, an absolute root of at most 1024 units without
-- control characters, and sizes within their bounds.
pub parse_guac_params-IsCurated :
    (number_of : Text → Num) (input : Json) → IsCurated (parse_guac_params number_of input)
unfolding parse_guac_params
parse_guac_params-IsCurated number_of input = record {
  layout = text_where-Passes (contains layouts) _;
  depth = number_where-Passes is_depth (get (lit "colorDepth") (fields_of input));
  root = sftp_root_of-Passes _;
  security = text_where-Passes (contains rdp_security_modes) _;
  font =
      number_where-Passes (in_range 8 32)
        (numeric number_of (get (lit "terminalFontSize") (fields_of input)));
  scheme = text_where-Passes (contains schemes) _;
  scrollback =
      number_where-Passes (in_range 100 100000)
        (numeric number_of (get (lit "terminalScrollback") (fields_of input)));
}

-- The settings in force, a site's own where it has them and the policy's elsewhere, are curated
-- where both are.
pub resolve_guac_params-IsCurated :
    (r p : GuacParams) → IsCurated r → IsCurated p → IsCurated (resolve_guac_params r p)
unfolding resolve_guac_params
resolve_guac_params-IsCurated r p h k = record {
  layout = or_else-Passes _ r.server_layout p.server_layout h.layout k.layout;
  depth = or_else-Passes _ r.color_depth p.color_depth h.depth k.depth;
  root = or_else-Passes _ r.sftp_root p.sftp_root h.root k.root;
  security = or_else-Passes _ r.rdp_security p.rdp_security h.security k.security;
  font = or_else-Passes _ r.terminal_font_size p.terminal_font_size h.font k.font;
  scheme = or_else-Passes _ r.terminal_color_scheme p.terminal_color_scheme h.scheme k.scheme;
  scrollback =
      or_else-Passes _ r.terminal_scrollback p.terminal_scrollback h.scrollback k.scrollback;
}
