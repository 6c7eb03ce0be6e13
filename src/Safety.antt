-- ===== src/Safety.antt =====
-- components/wdc_safety: the safety state of the shell, its guard on host calls and the safe outputs.
pub mod Defs
pub mod Force
pub mod Steps
pub mod Outputs
pub mod Guard
pub mod Calls
