-- ===== src/Bundle.antt =====
-- components/wdc_bundle: the bundle container and the metadata of the two slots.
pub mod Metadata
pub mod Sha256
pub mod Header
pub mod Json
pub mod Manifest
pub mod Wasm
pub mod Policy
pub mod Signature
pub mod Checks
pub mod Verify
