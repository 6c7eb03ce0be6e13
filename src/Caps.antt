-- ===== src/Caps.antt =====
-- components/wdc_caps: the capabilities of a bundle and the authorization of its host calls.
pub mod Defs
pub mod Authorize
pub mod Rate
pub mod Spaced
pub mod Covered
pub mod Granted
pub mod Scan
pub mod Ops
pub mod Manifest
