-- ===== src/HostCall.antt =====
-- components/wdc_abi/wdc_host_call.c: the calls of the guest into the host.
pub mod Opcode
pub mod Store
pub mod Response
pub mod Handlers
pub mod Dispatch
pub mod Memory
pub mod Bounds
pub mod Answers
pub mod Window
pub mod Config
