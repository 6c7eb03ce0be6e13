-- ===== src/Profile.antt =====
-- components/wdc_profile: the device profile, its lookups and its validation.
pub mod Defs
pub mod Valid
pub mod Builtin
