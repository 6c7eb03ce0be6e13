-- ===== src/Security.antt =====
-- components/wdc_security: the security profiles and the policies and checks that they make.
pub mod Policy
pub mod Checks
pub mod Floor
pub mod Trust
