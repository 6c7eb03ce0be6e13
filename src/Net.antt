-- ===== src/Net.antt =====
-- components/wdc_net: the network operations that the shell performs for the guest.
pub mod Defs
pub mod Calls
pub mod Steps
pub mod Fits
pub mod Allowed
pub mod Mediated
pub mod History
