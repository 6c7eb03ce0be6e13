-- ===== src/Lib.antt =====
-- A model of the firmware of pulse-esp32-host in antt: the shell of an ESP32 device that runs guest
-- bundles under capabilities, with safe outputs, a log and a bundle activation that can roll back.
-- All sources are under firmware/components/ of the repository.
--
-- The parts and how they interact. A guest calls the host by an opcode with a CBOR request in its
-- memory. The host call component validates the pointers, asks the authorizer and runs a handler on
-- its own tables, on the GPIO layer or on the network. The authorizer of the shell is the safety
-- component's: it denies calls with effects while the app does not run, and otherwise asks the
-- capability component, which checks the profile, the bundle's capabilities and their limits. When
-- an app faults, the safety component forces the outputs to the levels of the profile, logs, leaves
-- a breadcrumb and posts an event. The activation component decides at boot which bundle slot runs.
-- A bundle is a container of a manifest, a payload and a signature; the bundle component verifies it
-- under a policy, which the security component makes from the state of the device, and the
-- capability component reads the capabilities from its manifest.
--
-- Files and sources:
--   Base        shared names: Status (the codes of wdc_abi/include/wdc_abi.h), rings, tests on
--               numbers, texts
--   Cbor        wdc_abi/wdc_cbor.c: Build the put functions, Read and Find the decoder; Encoding is
--               the independent description of the bytes, Typed and Lookup of what a lookup answers
--   Events      wdc_events: Event wdc_event_make, Queue the queue (wdc_event_queue.c), Envelope the
--               CBOR envelope (wdc_event_encode.c); Queue/Fifo is the bounded FIFO it refines
--   Bundle      wdc_bundle/wdc_bundle.c: Metadata the slot metadata with its checksum, Sha256 the hash
--               and the HMAC, Header the container, Json the scanner, Manifest the summary, Wasm the
--               sections and exports of the payload, Policy and Signature, Checks the steps of the
--               verification and Verify the whole; Wasm/Leb and Wasm/Modules are the independent
--               description of a module, Header/Container of a container
--   Activation  wdc_activation/wdc_activation.c: Defs the rollback, Boot the operations, Keeps the
--               invariant over every history of them
--   Profile     wdc_profile/wdc_profile_static.c: Defs the lookups and the validation, Builtin the
--               profile of the board, Valid the description of a valid profile
--   Gpio        wdc_hal/wdc_gpio_espidf.c: Driver the chip's driver with its laws, Hal the functions
--   Diag        wdc_diag/wdc_diag.c: Log the ring, the boot note and the breadcrumb
--   HostCall    wdc_abi/wdc_host_call.c: Opcode, Store (the static tables), Response, Handlers,
--               Dispatch, Memory (the call from guest memory)
--   Caps        wdc_caps/wdc_caps.c: Defs the checks, Authorize the rate limit and the decision, Scan
--               the scanner, Ops the names, Manifest the parser of the manifest
--   Safety      wdc_safety/wdc_safety.c: Defs the states, Force the safe outputs, Steps the
--               operations, Calls the guard as the authorizer of the host calls
--   Security    wdc_security/wdc_security.c: Policy the policies and the anti-rollback floor, Checks the
--               preflight, the check of a verified bundle and of the provisioning
--   Net         wdc_net/wdc_net.c: Defs the state and the checks, Calls the network calls, Steps the
--               start and the connection; Mediated and History are about what they record, Fits
--               about their answers
--   Tests       runs at concrete inputs, among them two bundles that are accepted
--
-- Correspondence. A function keeps the name of the C function without its wdc_ prefix and takes the
-- static state it uses as an argument, which it returns with its answer. An int32_t status is a
-- Status: ok for WDC_OK, or err of the code; a function with an output parameter answers a Result. A
-- pointer that may be NULL is an option, an array with its length a list, a C string the bytes
-- before its NUL. A pointer into a text or a payload that is scanned is the bytes from it on. A u32 or u64 that is computed wraps by an explicit modulus; flags that are or-ed
-- in the bytes of a header are sums, since the bits are disjoint. The clock is an argument of the
-- calls that read it. Texts that only reach the console are left out; the texts of the log are kept.
--
-- Bounds and fuel. The decoder of CBOR recurses on a fuel that the length of the message gives: an
-- item takes at least one byte, so the fuel lasts. The loop over the capabilities of a manifest and the
-- loop over the sections of a payload get a round for each byte, and the answer of the first without
-- fuel, `unterminated`, is none of the code's. Every other loop is structural. The sizes are the
-- source's: 16 events, 32 log records, 8 GPIO levels, 4 configuration slots and timers, 16
-- capabilities with 512 bytes of names.
--
-- Parameters. The bytes of the slot metadata in memory, of which the checksum is taken, are a
-- parameter, since the compiler lays them out. The GPIO driver is a record of functions on a state of
-- its own, with the laws that a pin is an output once it was configured as one, that an output drives
-- the level that was set last and that a call on one pin keeps the others; what a pin drives in another
-- mode is left open. The verifier of a signature is a function of the policy. The hooks of the host
-- calls are functions on a world of their own; the network hook is assumed to keep to its buffer where
-- a result says so, or is the one of Net.
--
-- Not modelled: the built-in capability sets (wdc_caps), wdc_ota, wdc_runtime, wdc_app and
-- firmware/main, which call third-party code or orchestrate what is here; the JSON export of wdc_diag,
-- the reason texts of a verification and the names for logs. What an output buffer holds after an
-- error is not described, so the memory of the guest is given only after a call that was answered with
-- a response or refused before a handler ran.
pub mod Base
pub mod Cbor
pub mod Events
pub mod Bundle
pub mod Activation
pub mod Profile
pub mod Gpio
pub mod Diag
pub mod HostCall
pub mod Caps
pub mod Safety
pub mod Security
pub mod Net
pub mod Tests
