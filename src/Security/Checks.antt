-- ===== src/Security/Checks.antt =====
-- The checks of wdc_security.c: of the device, of a verified bundle and of the provisioning. The reports
-- are kept whether the caller asks for them or not, without their reason texts, which are for logs.
use Prim.Native.Nat.{bit_and, bit_xor}
use pulse_esp32_host.Base.{
  ℕ, Bool, true, false, not, ◌&&◌, ◌||◌, [], ◌∷◌, Option, none, some, Status, ok, err, unknown,
  bad_pointer, invalid_state, invalid_resource, contract_violation, not_available, ◌==◌,
  if◌then◌else◌, Text, text_eq, codes,
}
use pulse_esp32_host.Profile.Defs.{DeviceProfile}
use pulse_esp32_host.Bundle.Manifest.{Summary}
use pulse_esp32_host.Bundle.Checks.{Report}
use pulse_esp32_host.Security.Policy.{
  SecurityPolicy, or_production, Mode, dev_mode, production_mode,
}

-- WDC_SECURITY_FLAG_* and WDC_SECURITY_PRODUCTION_REQUIRED_FLAGS
abbrev pub flag_secure_boot : ℕ
flag_secure_boot = 1

abbrev pub flag_flash_encryption : ℕ
flag_flash_encryption = 2

abbrev pub flag_provisioned_keys : ℕ
flag_provisioned_keys = 4

abbrev pub flag_ota_endpoint : ℕ
flag_ota_endpoint = 8

abbrev pub production_required_flags : ℕ
production_required_flags = 15

-- wdc_security_default_dev_state and wdc_security_default_production_state
abbrev pub default_dev_state : ℕ
default_dev_state = 0

abbrev pub default_production_state : ℕ
default_production_state = production_required_flags

-- WdcSecurityPreflightReport
pub record PreflightReport : Type 0 where
  pub status : Status
  pub required_flags : ℕ
  pub missing_flags : ℕ
  pub security_floor : ℕ
  pub production_mode : Bool
  pub secure_signature_required : Bool
  pub anti_rollback_required : Bool
  pub dev_signature_rejected : Bool

abbrev pub blank_preflight : PreflightReport
blank_preflight = record {
  status = err unknown;
  required_flags = 0;
  missing_flags = 0;
  security_floor = 0;
  production_mode = false;
  secure_signature_required = false;
  anti_rollback_required = false;
  dev_signature_rejected = false;
}

-- The status of a report is the one that is returned.
abbrev pub answer : Status → PreflightReport → Status × PreflightReport
answer s r = (s, record r { status = s })

abbrev is_production : Mode → Bool
is_production dev_mode = false
is_production production_mode = true

-- `required & ~flags`
abbrev pub missing_of : ℕ → ℕ → ℕ
missing_of required flags = bit_and required (bit_xor flags 0xffff_ffff)

-- wdc_security_preflight; the state is its flags.
unfoldable pub preflight : Mode → Option ℕ → Status × PreflightReport
preflight mode none =
    answer (err bad_pointer) (record blank_preflight { production_mode = is_production mode })
preflight mode (some flags) =
    let required = if is_production mode then production_required_flags else 0 in
    let missing = missing_of required flags in
    let report = record blank_preflight {
      production_mode = is_production mode;
      required_flags = required;
      missing_flags = missing;
      secure_signature_required = is_production mode;
      anti_rollback_required = is_production mode;
    } in
    if not (missing == 0) then answer (err invalid_state) report else answer (ok tt) report

-- The algorithm's name in a result; it is empty where no manifest was read.
abbrev pub alg_of : Option Summary → Text
alg_of none = []
alg_of (some m) = m.signature_alg

abbrev pub differs_from : Option Text → Text → Bool
differs_from none actual = false
differs_from (some []) actual = false
differs_from (some (x ∷ xs)) actual = not (text_eq actual (x ∷ xs))

abbrev pub result_report : SecurityPolicy → PreflightReport
result_report s = record blank_preflight {
  production_mode = s.production_mode;
  secure_signature_required = s.require_secure_bundle_signature;
  anti_rollback_required = s.anti_rollback_enabled;
}

-- The checks of a result whose status is WDC_OK.
unfoldable pub validate_ok_result : SecurityPolicy → Report → Status × PreflightReport
validate_ok_result s v =
    let alg = alg_of v.manifest in
    let report = result_report s in
    if s.require_secure_bundle_signature && not v.signature_ok
    then answer (err contract_violation) report
    else if s.reject_dev_signature && text_eq alg (codes "hmac-sha256-dev")
    then answer (err contract_violation) (record report { dev_signature_rejected = true })
    else if s.require_secure_bundle_signature && differs_from s.required_signature_alg alg
    then answer (err contract_violation) report
    else if s.anti_rollback_enabled && not v.anti_rollback_ok
    then answer (err contract_violation) report
    else answer (ok tt) report

-- wdc_security_validate_bundle_result
unfoldable pub validate_bundle_result :
    Option SecurityPolicy → Option Report → Status × PreflightReport
unfolding validate_ok_result
validate_bundle_result policy none = answer (err bad_pointer) (result_report (or_production policy))
validate_bundle_result policy (some v) = elim v.status [
  | err e ↦ answer (err e) (result_report (or_production policy))
  | ok u ↦ validate_ok_result (or_production policy) v
]

-- WdcProvisioningRecord
pub record ProvisioningRecord : Type 0 where
  pub serial : Text
  pub device_class : Text
  pub board_rev : Text
  pub trusted_signature_key_id : Text
  pub ota_endpoint_prefix : Text
  pub provisioned : Bool

abbrev pub is_blank_text : Text → Bool
is_blank_text [] = true
is_blank_text (x ∷ xs) = false

-- strcmp with a text of the profile, which is not NULL there
abbrev pub same_text : Text → Option Text → Bool
same_text t none = false
same_text t (some u) = text_eq t u

abbrev production_fields : Bool → ProvisioningRecord → Status
production_fields false r = ok tt
production_fields true r =
    if is_blank_text r.trusted_signature_key_id || is_blank_text r.ota_endpoint_prefix
    then err not_available
    else ok tt

-- wdc_security_validate_provisioning for a record and a profile that are not NULL
unfoldable pub validate_record : SecurityPolicy → ProvisioningRecord → DeviceProfile → Status
validate_record s r profile =
    if not r.provisioned || is_blank_text r.serial || is_blank_text r.device_class
    then err invalid_state
    else if not (same_text r.device_class profile.device_class)
    then err invalid_resource
    else if not (is_blank_text r.board_rev) && not (same_text r.board_rev profile.board_rev)
    then err invalid_resource
    else production_fields s.production_mode r

unfoldable pub validate_provisioning :
    Option ProvisioningRecord → Option DeviceProfile → Option SecurityPolicy → Status
unfolding validate_record
validate_provisioning none profile policy = err bad_pointer
validate_provisioning (some r) none policy = err bad_pointer
validate_provisioning (some r) (some profile) policy =
    validate_record (or_production policy) r profile

-- wdc_security_reset_reason_is_watchdog
abbrev pub reset_reason_is_watchdog : ℕ → Bool
reset_reason_is_watchdog reason = reason == 7 || reason == 8 || reason == 9 || reason == 100
