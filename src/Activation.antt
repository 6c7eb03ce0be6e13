-- ===== src/Activation.antt =====
-- components/wdc_activation/wdc_activation.c: which slot runs at boot, probation and rollback.
pub mod Defs
pub mod Boot
pub mod Safe
pub mod Keeps
pub mod Probation
