-- ===== src/Cbor.antt =====
-- components/wdc_abi/wdc_cbor.c: the encoder and the decoder of the messages between host and guest.
pub mod Build
pub mod Read
pub mod Find
pub mod Writes
pub mod Place
pub mod Reads
pub mod Encoding
pub mod Typed
pub mod Lookup
pub mod Total
pub mod Whole
pub mod RoundTrip
