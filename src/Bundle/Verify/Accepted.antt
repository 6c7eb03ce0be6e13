-- ===== src/Bundle/Verify/Accepted.antt =====
-- What a bundle that wdc_bundle_verify accepts has been checked for.
use pulse_esp32_host.Base.{
  ℕ, ◌≤◌, ◌≡◌, refl, sym, ap, true, List, Option, some, Result, ok, err, leb→le, ◌==◌, length,
  text_eq, text_eq_sound, arith, and_split, ==_iff,
}
use pulse_esp32_host.Caps.Defs.{CapabilitySet}
use pulse_esp32_host.Caps.Manifest.{parse_manifest}
use pulse_esp32_host.Bundle.Sha256.{sha256}
use pulse_esp32_host.Bundle.Header.{ParsedHeader, parse_header, sha256_hex}
use pulse_esp32_host.Bundle.Manifest.{Summary, parse_summary}
use pulse_esp32_host.Bundle.Wasm.{has_required_exports}
use pulse_esp32_host.Bundle.Policy.{Policy, with_defaults, profile_of}
use pulse_esp32_host.Bundle.Signature.{
  manifest_part, payload_part, signature_alg_name, optional_text_matches, signature_valid,
}
use pulse_esp32_host.Bundle.Checks.{
  Report, blank_report, Outcome, binds_payload, abi_supported, target_matches, within_limits,
  features_allowed,
}
use pulse_esp32_host.Bundle.Verify.{check_summary, with_summary, read_summary, verify}
use pulse_esp32_host.Bundle.Checks.Through.{
  check_binding-through, check_signature-through, check_abi-through, check_target-through,
  check_limits-through, check_rollback-through, check_exports-through, check_manifest_hash-through,
  check_payload_hash-through, check_signature_names-through, check_size-through,
  check_capabilities-through, check_header-through,
}

-- What holds of the manifest of an accepted bundle.
pub record Accepts (p : Policy) (bundle : List ℕ) (h : ParsedHeader) (m : Summary) : Type 0 where
  pub payload_hex : sha256_hex h.payload_sha256 ≡ m.payload_sha256_hex
  pub payload_size : m.payload_size_bytes ≡ h.payload_len
  pub alg_name : m.signature_alg ≡ signature_alg_name h.signature_alg
  pub alg_allowed : optional_text_matches p.required_signature_alg m.signature_alg ≡ true
  pub key_trusted : optional_text_matches p.trusted_signature_key_id m.signature_key_id ≡ true
  pub signed : signature_valid p bundle h m ≡ true
  pub abi : abi_supported m ≡ true
  pub target : target_matches (profile_of p) (manifest_part bundle h) m ≡ true
  pub limits : within_limits p m ≡ true
  pub features : features_allowed m ≡ true
  pub fresh : p.min_security_counter ≤ m.security_counter
  pub capabilities : CapabilitySet
  pub capabilities_read :
      parse_manifest (some (profile_of p)) (manifest_part bundle h) ≡ ok capabilities
  pub exports : has_required_exports (payload_part bundle h) ≡ true

-- The report of an accepted bundle: every check has passed.
abbrev pub accepted_report : ParsedHeader → Summary → CapabilitySet → Report
accepted_report h m set = record {
  status = ok tt;
  header = h;
  manifest = some m;
  capability_set = some set;
  header_ok = true;
  manifest_hash_ok = true;
  payload_hash_ok = true;
  manifest_payload_binding_ok = true;
  signature_ok = true;
  abi_ok = true;
  target_ok = true;
  limits_ok = true;
  capabilities_ok = true;
  exports_ok = true;
  anti_rollback_ok = true;
}

-- The report when the checks up to the manifest have passed.
abbrev read_report : ParsedHeader → Summary → Report
read_report h m = record blank_report {
  header = h;
  manifest = some m;
  header_ok = true;
  manifest_hash_ok = true;
  payload_hash_ok = true;
}

check_summary-Accepts :
    (p : Policy) (bundle : List ℕ) (h : ParsedHeader) (m : Summary) (r' : Report)
    → check_summary p bundle m (read_report h m) ≡ (ok tt, r')
    → (a : Accepts p bundle h m) × (r' ≡ accepted_report h m a.capabilities)
unfolding check_summary binds_payload
check_summary-Accepts p bundle h m r' e =
    let r : Report = read_report h m in
    let r1 : Report = record r { manifest_payload_binding_ok = true } in
    let r2 : Report = record r1 { signature_ok = true } in
    let r3 : Report = record r2 { abi_ok = true } in
    let r4 : Report = record r3 { target_ok = true } in
    let r5 : Report = record r4 { limits_ok = true } in
    let r6 : Report = record r5 { anti_rollback_ok = true } in
    let (bound, e1) = check_binding-through m r _ r' e in
    let (alg, allowed, trusted, e2) = check_signature_names-through p m r1 _ r' e1 in
    let (signed, e3) = check_signature-through p bundle m r1 _ r' e2 in
    let (abi, e4) = check_abi-through m r2 _ r' e3 in
    let (target, e5) = check_target-through p bundle m r3 _ r' e4 in
    let (limits, e6) = check_limits-through p m r4 _ r' e5 in
    let (fresh, e7) = check_rollback-through p m r5 _ r' e6 in
    let (set, read, e8) = check_capabilities-through p bundle r6 _ r' e7 in
    let r7 : Report = record r6 { capability_set = some set; capabilities_ok = true } in
    let (exports, e9) = check_exports-through bundle r7 _ r' e8 in
    let (hex, size) =
      and_split (text_eq (sha256_hex h.payload_sha256) m.payload_sha256_hex)
        (m.payload_size_bytes == h.payload_len) bound in
    let (inside, features) = and_split (within_limits p m) (features_allowed m) limits in
    let a : Accepts p bundle h m = record {
      payload_hex = text_eq_sound (sha256_hex h.payload_sha256) m.payload_sha256_hex hex;
      payload_size = (==_iff m.payload_size_bytes h.payload_len).0 size;
      alg_name = text_eq_sound m.signature_alg (signature_alg_name h.signature_alg) alg;
      alg_allowed = allowed;
      key_trusted = trusted;
      signed = signed;
      abi = abi;
      target = target;
      limits = inside;
      features = features;
      fresh = leb→le p.min_security_counter m.security_counter fresh;
      capabilities = set;
      capabilities_read = read;
      exports = exports;
    } in
    (a, sym (ap (λ (k : Outcome). k.1) e9))

with_summary-Accepts :
    (p : Policy) (bundle : List ℕ) (h : ParsedHeader) (read : Result Summary) (r' : Report)
    → with_summary p bundle read (record blank_report {
      header = h;
      header_ok = true;
      manifest_hash_ok = true;
      payload_hash_ok = true;
    })
      ≡ (ok tt, r')
    → (m : Summary) × (read ≡ ok m)
      × (a : Accepts p bundle h m) × (r' ≡ accepted_report h m a.capabilities)
unfolding with_summary
with_summary-Accepts p bundle h (ok m) r' e =
    let (a, same) = check_summary-Accepts p bundle h m r' e in (m, refl, a, same)
with_summary-Accepts p bundle h (err x) r' e = absurd (ground arith)

-- A bundle that is accepted: the container, the hashes, the manifest and what it is checked for.
pub record IsVerified (p : Policy) (bundle : List ℕ) (r : Report) : Type 0 where
  pub header : ParsedHeader
  pub header_read : parse_header bundle ≡ (ok tt, header)
  pub whole : header.total_len ≡ length bundle
  pub payload_fits : header.payload_len ≤ p.max_payload_bytes
  pub manifest_hash : sha256 (manifest_part bundle header) ≡ header.manifest_sha256
  pub payload_hash : sha256 (payload_part bundle header) ≡ header.payload_sha256
  pub manifest : Summary
  pub manifest_read : parse_summary (manifest_part bundle header) ≡ ok manifest
  pub accepts : Accepts p bundle header manifest
  pub report : r ≡ accepted_report header manifest accepts.capabilities

-- A bundle is accepted only with every check passed under the policy with its defaults: the header
-- parses, nothing trails, the payload fits, both hashes are the SHA-256 of their parts, the manifest
-- parses, names the payload's hash and size and the algorithm of the header, the signature is valid and
-- its algorithm and key allowed, the ABI, the target, the limits and the features fit, the security
-- counter is not below the minimum, the capabilities are read for the profile and the required functions
-- are exported. The report then has every flag set, with the header, the manifest and the capabilities.
pub verify-IsVerified :
    (bundle : List ℕ) (policy : Option Policy) (r : Report)
    → verify bundle policy ≡ (ok tt, r)
    → IsVerified (with_defaults policy) bundle r
unfolding verify read_summary
verify-IsVerified bundle policy r e =
    let p = with_defaults policy in
    let (h, header_read, e1) = check_header-through bundle blank_report _ r e in
    let r1 : Report = record blank_report { header = h; header_ok = true } in
    let (whole, fits, e2) = check_size-through p bundle r1 _ r e1 in
    let (manifest_hash, e3) = check_manifest_hash-through bundle r1 _ r e2 in
    let r2 : Report = record r1 { manifest_hash_ok = true } in
    let (payload_hash, e4) = check_payload_hash-through bundle r2 _ r e3 in
    let (m, manifest_read, a, same) =
      with_summary-Accepts p bundle h (parse_summary (manifest_part bundle h)) r e4 in
    record {
      header = h;
      header_read = header_read;
      whole = (==_iff h.total_len (length bundle)).0 whole;
      payload_fits = leb→le h.payload_len p.max_payload_bytes fits;
      manifest_hash =
          text_eq_sound (sha256 (manifest_part bundle h)) h.manifest_sha256 manifest_hash;
      payload_hash = text_eq_sound (sha256 (payload_part bundle h)) h.payload_sha256 payload_hash;
      manifest = m;
      manifest_read = manifest_read;
      accepts = a;
      report = same;
    }
