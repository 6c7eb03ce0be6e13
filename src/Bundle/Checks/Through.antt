-- ===== src/Bundle/Checks/Through.antt =====
-- The checks of wdc_bundle_verify that a bundle has passed when the verification goes through.
use pulse_esp32_host.Base.{
  ℕ, ◌≡◌, refl, Bool, true, false, ◌&&◌, List, some, Result, Status, ok, err, Error, leb, ◌==◌,
  length, text_eq, arith, contract_violation, bad_length, unsupported_abi, invalid_resource,
  not_available,
}
use pulse_esp32_host.Caps.Defs.{CapabilitySet}
use pulse_esp32_host.Caps.Manifest.{parse_manifest}
use pulse_esp32_host.Bundle.Sha256.{sha256}
use pulse_esp32_host.Bundle.Header.{ParsedHeader, parse_header}
use pulse_esp32_host.Bundle.Manifest.{Summary}
use pulse_esp32_host.Bundle.Wasm.{has_required_exports}
use pulse_esp32_host.Bundle.Policy.{Policy, profile_of}
use pulse_esp32_host.Bundle.Signature.{
  manifest_part, payload_part, signature_alg_name, optional_text_matches, signature_valid,
}
use pulse_esp32_host.Bundle.Checks.{
  Report, Outcome, continue, require, ◌>=>◌, take_header, take_capabilities, binds_payload,
  abi_supported, target_matches, within_limits, features_allowed, check_header, check_size,
  check_manifest_hash, check_payload_hash, check_binding, check_signature_names, check_signature,
  check_abi, check_target, check_limits, check_rollback, check_capabilities, check_exports,
}

through :
    (t : Bool) (e : Error) (set_flag : Bool → Report) (next : Report → Outcome) (r' : Report)
    → continue (require t e (set_flag t)) next ≡ (ok tt, r')
    → (t ≡ true) × (next (set_flag true) ≡ (ok tt, r'))
unfolding continue
through true e set_flag next r' h = (refl, h)
through false e set_flag next r' h = absurd (ground arith)

pub check_binding-through :
    (m : Summary) (r : Report) (next : Report → Outcome) (r' : Report)
    → continue (check_binding m r) next ≡ (ok tt, r')
    → (binds_payload r.header m ≡ true)
      × (next (record r { manifest_payload_binding_ok = true }) ≡ (ok tt, r'))
unfolding check_binding
check_binding-through m r next r' h =
    through (binds_payload r.header m) contract_violation
      (λ t. record r { manifest_payload_binding_ok = t }) next r' h

pub check_signature-through :
    (p : Policy) (bundle : List ℕ) (m : Summary) (r : Report) (next : Report → Outcome)
    (r' : Report)
    → continue (check_signature p bundle m r) next ≡ (ok tt, r')
    → (signature_valid p bundle r.header m ≡ true)
      × (next (record r { signature_ok = true }) ≡ (ok tt, r'))
unfolding check_signature
check_signature-through p bundle m r next r' h =
    through (signature_valid p bundle r.header m) contract_violation
      (λ t. record r { signature_ok = t }) next r' h

pub check_abi-through :
    (m : Summary) (r : Report) (next : Report → Outcome) (r' : Report)
    → continue (check_abi m r) next ≡ (ok tt, r')
    → (abi_supported m ≡ true) × (next (record r { abi_ok = true }) ≡ (ok tt, r'))
unfolding check_abi
check_abi-through m r next r' h =
    through (abi_supported m) unsupported_abi (λ t. record r { abi_ok = t }) next r' h

pub check_target-through :
    (p : Policy) (bundle : List ℕ) (m : Summary) (r : Report) (next : Report → Outcome)
    (r' : Report)
    → continue (check_target p bundle m r) next ≡ (ok tt, r')
    → (target_matches (profile_of p) (manifest_part bundle r.header) m ≡ true)
      × (next (record r { target_ok = true }) ≡ (ok tt, r'))
unfolding check_target
check_target-through p bundle m r next r' h =
    through (target_matches (profile_of p) (manifest_part bundle r.header) m) invalid_resource
      (λ t. record r { target_ok = t }) next r' h

pub check_limits-through :
    (p : Policy) (m : Summary) (r : Report) (next : Report → Outcome) (r' : Report)
    → continue (check_limits p m r) next ≡ (ok tt, r')
    → (within_limits p m && features_allowed m ≡ true)
      × (next (record r { limits_ok = true }) ≡ (ok tt, r'))
unfolding check_limits
check_limits-through p m r next r' h =
    through (within_limits p m && features_allowed m) bad_length (λ t. record r { limits_ok = t })
      next r' h

pub check_rollback-through :
    (p : Policy) (m : Summary) (r : Report) (next : Report → Outcome) (r' : Report)
    → continue (check_rollback p m r) next ≡ (ok tt, r')
    → (leb p.min_security_counter m.security_counter ≡ true)
      × (next (record r { anti_rollback_ok = true }) ≡ (ok tt, r'))
unfolding check_rollback
check_rollback-through p m r next r' h =
    through (leb p.min_security_counter m.security_counter) contract_violation
      (λ t. record r { anti_rollback_ok = t }) next r' h

pub check_exports-through :
    (bundle : List ℕ) (r : Report) (next : Report → Outcome) (r' : Report)
    → continue (check_exports bundle r) next ≡ (ok tt, r')
    → (has_required_exports (payload_part bundle r.header) ≡ true)
      × (next (record r { exports_ok = true }) ≡ (ok tt, r'))
unfolding check_exports
check_exports-through bundle r next r' h =
    through (has_required_exports (payload_part bundle r.header)) not_available
      (λ t. record r { exports_ok = t }) next r' h

pub check_manifest_hash-through :
    (bundle : List ℕ) (r : Report) (next : Report → Outcome) (r' : Report)
    → continue (check_manifest_hash bundle r) next ≡ (ok tt, r')
    → (text_eq (sha256 (manifest_part bundle r.header)) r.header.manifest_sha256 ≡ true)
      × (next (record r { manifest_hash_ok = true }) ≡ (ok tt, r'))
unfolding check_manifest_hash
check_manifest_hash-through bundle r next r' h =
    through (text_eq (sha256 (manifest_part bundle r.header)) r.header.manifest_sha256)
      contract_violation (λ t. record r { manifest_hash_ok = t }) next r' h

pub check_payload_hash-through :
    (bundle : List ℕ) (r : Report) (next : Report → Outcome) (r' : Report)
    → continue (check_payload_hash bundle r) next ≡ (ok tt, r')
    → (text_eq (sha256 (payload_part bundle r.header)) r.header.payload_sha256 ≡ true)
      × (next (record r { payload_hash_ok = true }) ≡ (ok tt, r'))
unfolding check_payload_hash
check_payload_hash-through bundle r next r' h =
    through (text_eq (sha256 (payload_part bundle r.header)) r.header.payload_sha256)
      contract_violation (λ t. record r { payload_hash_ok = t }) next r' h

passes_three :
    (a b c : Bool) (r : Report) (next : Report → Outcome) (r' : Report)
    → continue
        ((require a contract_violation
            >=> require b contract_violation
            >=> require c contract_violation)
          r)
        next
      ≡ (ok tt, r')
    → (a ≡ true) × (b ≡ true) × (c ≡ true) × (next r ≡ (ok tt, r'))
unfolding continue
passes_three true true true r next r' h = (refl, refl, refl, h)
passes_three true true false r next r' h = absurd (ground arith)
passes_three true false c r next r' h = absurd (ground arith)
passes_three false b c r next r' h = absurd (ground arith)

passes_two :
    (a b : Bool) (r : Report) (next : Report → Outcome) (r' : Report)
    → continue (continue (require a bad_length r) (require b bad_length)) next ≡ (ok tt, r')
    → (a ≡ true) × (b ≡ true) × (next r ≡ (ok tt, r'))
unfolding continue
passes_two true true r next r' h = (refl, refl, h)
passes_two true false r next r' h = absurd (ground arith)
passes_two false b r next r' h = absurd (ground arith)

pub check_signature_names-through :
    (p : Policy) (m : Summary) (r : Report) (next : Report → Outcome) (r' : Report)
    → continue (check_signature_names p m r) next ≡ (ok tt, r')
    → (text_eq m.signature_alg (signature_alg_name r.header.signature_alg) ≡ true)
      × (optional_text_matches p.required_signature_alg m.signature_alg ≡ true)
      × (optional_text_matches p.trusted_signature_key_id m.signature_key_id ≡ true)
      × (next r ≡ (ok tt, r'))
unfolding check_signature_names
check_signature_names-through p m r next r' h =
    passes_three (text_eq m.signature_alg (signature_alg_name r.header.signature_alg))
      (optional_text_matches p.required_signature_alg m.signature_alg)
      (optional_text_matches p.trusted_signature_key_id m.signature_key_id) r next r' h

pub check_size-through :
    (p : Policy) (bundle : List ℕ) (r : Report) (next : Report → Outcome) (r' : Report)
    → continue (check_size p bundle r) next ≡ (ok tt, r')
    → ((r.header.total_len == length bundle) ≡ true)
      × (leb r.header.payload_len p.max_payload_bytes ≡ true)
      × (next r ≡ (ok tt, r'))
unfolding check_size
check_size-through p bundle r next r' h =
    passes_two (r.header.total_len == length bundle) (leb r.header.payload_len p.max_payload_bytes)
      r next r' h

through_capabilities :
    (res : Result CapabilitySet) (r : Report) (next : Report → Outcome) (r' : Report)
    → continue (take_capabilities res r) next ≡ (ok tt, r')
    → (set : CapabilitySet) × (res ≡ ok set)
      × (next (record r { capability_set = some set; capabilities_ok = true }) ≡ (ok tt, r'))
unfolding continue
through_capabilities (ok set) r next r' h = (set, refl, h)
through_capabilities (err e) r next r' h = absurd (ground arith)

through_header :
    (parsed : Status × ParsedHeader) (r : Report) (next : Report → Outcome) (r' : Report)
    → continue (take_header parsed r) next ≡ (ok tt, r')
    → (h : ParsedHeader) × (parsed ≡ (ok tt, h))
      × (next (record r { header = h; header_ok = true }) ≡ (ok tt, r'))
unfolding continue
through_header (ok tt, h) r next r' e = (h, refl, e)
through_header (err x, h) r next r' e = absurd (ground arith)

pub check_capabilities-through :
    (p : Policy) (bundle : List ℕ) (r : Report) (next : Report → Outcome) (r' : Report)
    → continue (check_capabilities p bundle r) next ≡ (ok tt, r')
    → (set : CapabilitySet) × (parse_manifest (some (profile_of p)) (manifest_part bundle r.header)
        ≡ ok set)
      × (next (record r { capability_set = some set; capabilities_ok = true }) ≡ (ok tt, r'))
unfolding check_capabilities
check_capabilities-through p bundle r next r' h =
    through_capabilities (parse_manifest (some (profile_of p)) (manifest_part bundle r.header)) r
      next r' h

pub check_header-through :
    (bundle : List ℕ) (r : Report) (next : Report → Outcome) (r' : Report)
    → continue (check_header bundle r) next ≡ (ok tt, r')
    → (h : ParsedHeader) × (parse_header bundle ≡ (ok tt, h))
      × (next (record r { header = h; header_ok = true }) ≡ (ok tt, r'))
unfolding check_header
check_header-through bundle r next r' h = through_header (parse_header bundle) r next r' h
