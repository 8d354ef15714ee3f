-- ===== src/Site.antt =====
-- Sites: what an administrator may save (lib/site/validate.ts) and the settings of a remote
-- desktop or terminal (lib/gateway/guac-params.ts).
pub mod GuacParams
pub mod Validate
