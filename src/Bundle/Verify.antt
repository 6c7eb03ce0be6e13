-- ===== src/Bundle/Verify.antt =====
-- wdc_bundle_verify of components/wdc_bundle: its checks in their order.
pub mod Accepted
pub mod Production
use pulse_esp32_host.Base.{
  ℕ, ◌+◌, Bool, true, false, not, ◌&&◌, ◌||◌, List, [], ◌∷◌, ◌++◌, Option, none, some, Result,
  Status, Error, ok, err, ltb, leb, ◌==◌, if◌then◌else◌, length, Text, text_eq, codes, unknown,
  bad_length, contract_violation, unsupported_abi, invalid_resource, not_available,
}
use pulse_esp32_host.Profile.Defs.{DeviceProfile}
use pulse_esp32_host.Caps.Defs.{CapabilitySet}
use pulse_esp32_host.Caps.Manifest.{parse_manifest}
use pulse_esp32_host.Bundle.Sha256.{sha256}
use pulse_esp32_host.Bundle.Header.{ParsedHeader, blank_header, bytes_at, parse_header, sha256_hex}
use pulse_esp32_host.Bundle.Json.{target_array_contains}
use pulse_esp32_host.Bundle.Manifest.{Summary, parse_summary}
use pulse_esp32_host.Bundle.Wasm.{has_required_exports}
use pulse_esp32_host.Bundle.Metadata.{VerifyResult}
use pulse_esp32_host.Bundle.Policy.{Policy, with_defaults, profile_of}
use pulse_esp32_host.Bundle.Signature.{signature_alg_name, optional_text_matches, signature_valid}
use pulse_esp32_host.Bundle.Signature.{manifest_part}
use pulse_esp32_host.Bundle.Checks.{
  Report, blank_report, Outcome, set_fail, ◌>=>◌, check_header, check_size, check_manifest_hash,
  check_payload_hash, check_binding, check_signature_names, check_signature, check_abi,
  check_target, check_limits, check_rollback, check_capabilities, check_exports,
}

abbrev pub verified : Report → Outcome
verified r = (ok tt, record r { status = ok tt })

-- What comes behind the summary.
unfoldable pub check_summary : Policy → List ℕ → Summary → Report → Outcome
unfolding check_binding check_signature_names check_signature check_abi check_target check_limits
    check_rollback check_capabilities check_exports
check_summary p bundle m =
    check_binding m
    >=> check_signature_names p m
    >=> check_signature p bundle m
    >=> check_abi m
    >=> check_target p bundle m
    >=> check_limits p m
    >=> check_rollback p m
    >=> check_capabilities p bundle
    >=> check_exports bundle
    >=> verified

unfoldable pub with_summary : Policy → List ℕ → Result Summary → Report → Outcome
unfolding check_summary
with_summary p bundle (err e) r = set_fail r e
with_summary p bundle (ok m) r = check_summary p bundle m (record r { manifest = some m })

unfoldable pub read_summary : Policy → List ℕ → Report → Outcome
unfolding parse_summary with_summary
read_summary p bundle r = with_summary p bundle (parse_summary (manifest_part bundle r.header)) r

-- wdc_bundle_verify; the pointers to the bundle and the result are not NULL.
unfoldable pub verify : List ℕ → Option Policy → Outcome
unfolding check_header check_size check_manifest_hash check_payload_hash read_summary with_defaults
verify bundle policy =
    let p = with_defaults policy in
    (check_header bundle
        >=> check_size p bundle
        >=> check_manifest_hash bundle
        >=> check_payload_hash bundle
        >=> read_summary p bundle)
      blank_report

-- What the metadata of the slots reads of the result.
abbrev version_of : Option Summary → ℕ × ℕ
version_of none = (0, 0)
version_of (some m) = (m.bundle_version, m.security_counter)

abbrev pub metadata_view : Report → VerifyResult
metadata_view r = record {
  status = r.status;
  payload_hash_ok = r.payload_hash_ok;
  bundle_version = (version_of r.manifest).0;
  security_counter = (version_of r.manifest).1;
  payload_sha256 = r.header.payload_sha256;
}
