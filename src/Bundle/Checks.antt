-- ===== src/Bundle/Checks.antt =====
-- The result of wdc_bundle_verify and its checks, one by one. The reason texts, which are for logs, are
-- left out.
pub mod Through
use pulse_esp32_host.Base.{
  ℕ, Bool, true, false, not, ◌&&◌, List, [], ◌∷◌, Option, none, some, Result, Status, Error, ok,
  err, ltb, leb, ◌==◌, if◌then◌else◌, length, Text, text_eq, codes, unknown, bad_length,
  contract_violation, unsupported_abi, invalid_resource, not_available,
}
use pulse_esp32_host.Profile.Defs.{DeviceProfile}
use pulse_esp32_host.Caps.Defs.{CapabilitySet}
use pulse_esp32_host.Caps.Manifest.{parse_manifest}
use pulse_esp32_host.Bundle.Sha256.{sha256}
use pulse_esp32_host.Bundle.Header.{ParsedHeader, blank_header, parse_header, sha256_hex}
use pulse_esp32_host.Bundle.Json.{target_array_contains}
use pulse_esp32_host.Bundle.Manifest.{Summary}
use pulse_esp32_host.Bundle.Wasm.{has_required_exports}
use pulse_esp32_host.Bundle.Policy.{Policy, profile_of}
use pulse_esp32_host.Bundle.Signature.{
  signature_alg_name, optional_text_matches, signature_valid, manifest_part, payload_part,
}

-- WdcBundleVerifyResult
pub record Report : Type 0 where
  pub status : Status
  pub header : ParsedHeader
  pub manifest : Option Summary
  pub capability_set : Option CapabilitySet
  pub header_ok : Bool
  pub manifest_hash_ok : Bool
  pub payload_hash_ok : Bool
  pub manifest_payload_binding_ok : Bool
  pub signature_ok : Bool
  pub abi_ok : Bool
  pub target_ok : Bool
  pub limits_ok : Bool
  pub capabilities_ok : Bool
  pub exports_ok : Bool
  pub anti_rollback_ok : Bool

abbrev pub blank_report : Report
blank_report = record {
  status = err unknown;
  header = blank_header;
  manifest = none;
  capability_set = none;
  header_ok = false;
  manifest_hash_ok = false;
  payload_hash_ok = false;
  manifest_payload_binding_ok = false;
  signature_ok = false;
  abi_ok = false;
  target_ok = false;
  limits_ok = false;
  capabilities_ok = false;
  exports_ok = false;
  anti_rollback_ok = false;
}

abbrev pub Outcome : Type 0
Outcome = Status × Report

-- set_fail
abbrev pub set_fail : Report → Error → Outcome
set_fail r e = (err e, record r { status = err e })

-- What follows a check that has passed.
unfoldable pub continue : Outcome → (Report → Outcome) → Outcome
continue (ok tt, r) next = next r
continue (err e, r) next = (err e, r)

infixr 5 ◌>=>◌
abbrev pub ◌>=>◌ : (Report → Outcome) → (Report → Outcome) → Report → Outcome
(check >=> next) r = continue (check r) next

-- A test that must hold.
abbrev pub require : Bool → Error → Report → Outcome
require true e r = (ok tt, r)
require false e r = set_fail r e

abbrev pub take_header : Status × ParsedHeader → Report → Outcome
take_header (ok tt, h) r = (ok tt, record r { header = h; header_ok = true })
take_header (err e, h) r = set_fail (record r { header = h }) e

unfoldable pub check_header : List ℕ → Report → Outcome
unfolding parse_header
check_header bundle r = take_header (parse_header bundle) r

-- No trailing bytes, and a payload within the policy.
unfoldable pub check_size : Policy → List ℕ → Report → Outcome
unfolding continue
check_size p bundle r =
    continue (require (r.header.total_len == length bundle) bad_length r)
      (require (leb r.header.payload_len p.max_payload_bytes) bad_length)

-- bytes_equal_constant_time compares all the bytes; here it is their equality.
unfoldable pub check_manifest_hash : List ℕ → Report → Outcome
unfolding sha256
check_manifest_hash bundle r =
    let same = text_eq (sha256 (manifest_part bundle r.header)) r.header.manifest_sha256 in
    require same contract_violation (record r { manifest_hash_ok = same })

unfoldable pub check_payload_hash : List ℕ → Report → Outcome
unfolding sha256
check_payload_hash bundle r =
    let same = text_eq (sha256 (payload_part bundle r.header)) r.header.payload_sha256 in
    require same contract_violation (record r { payload_hash_ok = same })

-- The checks behind the summary get it as an argument.
unfoldable pub binds_payload : ParsedHeader → Summary → Bool
unfolding sha256_hex
binds_payload h m =
    text_eq (sha256_hex h.payload_sha256) m.payload_sha256_hex
    && m.payload_size_bytes == h.payload_len

unfoldable pub check_binding : Summary → Report → Outcome
unfolding binds_payload
check_binding m r =
    let bound = binds_payload r.header m in
    require bound contract_violation (record r { manifest_payload_binding_ok = bound })

unfoldable pub check_signature_names : Policy → Summary → Report → Outcome
unfolding signature_alg_name
check_signature_names p m r =
    (require (text_eq m.signature_alg (signature_alg_name r.header.signature_alg))
          contract_violation
        >=> require (optional_text_matches p.required_signature_alg m.signature_alg)
            contract_violation
        >=> require (optional_text_matches p.trusted_signature_key_id m.signature_key_id)
            contract_violation)
      r

unfoldable pub check_signature : Policy → List ℕ → Summary → Report → Outcome
unfolding signature_valid
check_signature p bundle m r =
    let valid = signature_valid p bundle r.header m in
    require valid contract_violation (record r { signature_ok = valid })

-- WDC_ABI_MAJOR is 1 and WDC_ABI_MINOR 0.
abbrev pub abi_supported : Summary → Bool
abi_supported m = m.abi_major == 1 && leb m.abi_min_minor 0 && leb 0 m.abi_max_minor

unfoldable pub check_abi : Summary → Report → Outcome
check_abi m r =
    let supported = abi_supported m in
    require supported unsupported_abi (record r { abi_ok = supported })

-- strcmp(a, b) >= 0
unfoldable pub at_least : Text → Text → Bool
at_least [] [] = true
at_least [] (y ∷ ys) = false
at_least (x ∷ xs) [] = true
at_least (x ∷ xs) (y ∷ ys) = let rest = at_least xs ys in if x == y then rest else ltb y x

unfoldable pub board_rev_compatible : Option Text → Text → Bool
unfolding at_least
board_rev_compatible none minimum = false
board_rev_compatible (some actual) [] = false
board_rev_compatible (some actual) (x ∷ xs) = at_least actual (x ∷ xs)

abbrev pub target_matches : DeviceProfile → List ℕ → Summary → Bool
unfolding target_array_contains board_rev_compatible
target_matches profile json m =
    target_array_contains json (codes "soc") profile.hardware
    && target_array_contains json (codes "device_class") profile.device_class
    && board_rev_compatible profile.board_rev m.board_rev_min

unfoldable pub check_target : Policy → List ℕ → Summary → Report → Outcome
unfolding target_matches
check_target p bundle m r =
    let matches = target_matches (profile_of p) (manifest_part bundle r.header) m in
    require matches invalid_resource (record r { target_ok = matches })

abbrev pub within_limits : Policy → Summary → Bool
within_limits p m =
    leb m.linear_memory_max_bytes p.max_linear_memory_bytes
    && leb m.stack_bytes p.max_stack_bytes
    && leb m.max_event_bytes p.max_event_bytes
    && leb m.max_request_bytes p.max_request_bytes
    && leb m.max_response_bytes p.max_response_bytes

abbrev pub features_allowed : Summary → Bool
features_allowed m =
    not m.wasm_threads
    && not m.wasm_shared_memory
    && not m.wasm_wasi
    && text_eq m.runtime_engine (codes "wamr")
    && text_eq m.payload_kind (codes "wasm")

unfoldable pub check_limits : Policy → Summary → Report → Outcome
check_limits p m r =
    let allowed = within_limits p m && features_allowed m in
    require allowed bad_length (record r { limits_ok = allowed })

unfoldable pub check_rollback : Policy → Summary → Report → Outcome
check_rollback p m r =
    let fresh = leb p.min_security_counter m.security_counter in
    require fresh contract_violation (record r { anti_rollback_ok = fresh })

abbrev pub take_capabilities : Result CapabilitySet → Report → Outcome
take_capabilities (ok set) r =
    (ok tt, record r { capability_set = some set; capabilities_ok = true })
take_capabilities (err e) r = set_fail r e

unfoldable pub check_capabilities : Policy → List ℕ → Report → Outcome
unfolding parse_manifest
check_capabilities p bundle r =
    take_capabilities (parse_manifest (some (profile_of p)) (manifest_part bundle r.header)) r

unfoldable pub check_exports : List ℕ → Report → Outcome
unfolding has_required_exports
check_exports bundle r =
    let exported = has_required_exports (payload_part bundle r.header) in
    require exported not_available (record r { exports_ok = exported })
