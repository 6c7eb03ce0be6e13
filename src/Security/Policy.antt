-- ===== src/Security/Policy.antt =====
-- WdcSecurityPolicy of wdc_security.c and the verification policies that are made from it.
use pulse_esp32_host.Base.{
  ℕ, Bool, true, false, not, ◌&&◌, ◌||◌, [], ◌∷◌, Option, none, some, ltb, if◌then◌else◌, Text,
  codes,
}
use pulse_esp32_host.Profile.Defs.{DeviceProfile}
use pulse_esp32_host.Bundle.Metadata.{Metadata, SlotRecord, SlotState, empty}
use pulse_esp32_host.Bundle.Policy.{Policy, VerifyFn, default_dev_policy, default_production_policy}

pub data BuildProfile : Type 0 where
  development production : BuildProfile

-- A text that is NULL is `none`.
pub record SecurityPolicy : Type 0 where
  pub profile : BuildProfile
  pub production_mode : Bool
  pub require_secure_bundle_signature : Bool
  pub reject_dev_signature : Bool
  pub anti_rollback_enabled : Bool
  pub watchdog_rollback_enabled : Bool
  pub effectful_self_tests_allowed : Bool
  pub boot_diagnostic_probes_allowed : Bool
  pub serial_install_allowed : Bool
  pub profile_mutation_allowed : Bool
  pub required_signature_alg : Option Text
  pub trusted_signature_key_id : Option Text
  pub ota_endpoint_prefix : Option Text

-- wdc_security_development_policy
abbrev pub development_policy : SecurityPolicy
development_policy = record {
  profile = development;
  production_mode = false;
  require_secure_bundle_signature = false;
  reject_dev_signature = false;
  anti_rollback_enabled = false;
  watchdog_rollback_enabled = true;
  effectful_self_tests_allowed = true;
  boot_diagnostic_probes_allowed = true;
  serial_install_allowed = true;
  profile_mutation_allowed = true;
  required_signature_alg = some [];
  trusted_signature_key_id = some [];
  ota_endpoint_prefix = some [];
}

-- wdc_security_production_policy
abbrev pub production_policy : SecurityPolicy
production_policy = record {
  profile = production;
  production_mode = true;
  require_secure_bundle_signature = true;
  reject_dev_signature = true;
  anti_rollback_enabled = true;
  watchdog_rollback_enabled = true;
  effectful_self_tests_allowed = false;
  boot_diagnostic_probes_allowed = false;
  serial_install_allowed = false;
  profile_mutation_allowed = false;
  required_signature_alg = some (codes "ed25519");
  trusted_signature_key_id = some [];
  ota_endpoint_prefix = some [];
}

abbrev pub max_u64 : ℕ → ℕ → ℕ
max_u64 a b = if ltb b a then a else b

abbrev pub is_empty_slot : SlotState → Bool
is_empty_slot empty = true
is_empty_slot _ = false

-- A slot raises the floor unless it is empty.
unfoldable pub raise_floor : ℕ → SlotRecord → ℕ
raise_floor floor r = if is_empty_slot r.state then floor else max_u64 floor r.security_counter

-- wdc_security_metadata_security_floor; no metadata is a NULL pointer.
unfoldable pub security_floor : Option Metadata → ℕ
unfolding raise_floor
security_floor none = 0
security_floor (some m) = raise_floor (raise_floor 0 m.record_a) m.record_b

abbrev pub or_production : Option SecurityPolicy → SecurityPolicy
or_production none = production_policy
or_production (some s) = s

abbrev or_ed25519 : Option Text → Option Text
or_ed25519 none = some (codes "ed25519")
or_ed25519 (some t) = some t

-- A key id that is given replaces the one of the policy.
abbrev pub key_or : Option Text → Option Text → Option Text
key_or none key = key
key_or (some []) key = key
key_or (some (x ∷ xs)) key = some (x ∷ xs)

-- wdc_security_make_bundle_verify_policy
unfoldable pub make_bundle_verify_policy :
    Option DeviceProfile → Option Metadata → Option SecurityPolicy → Policy
unfolding default_dev_policy security_floor
make_bundle_verify_policy profile metadata policy =
    let s = or_production policy in
    let dev = default_dev_policy profile in
    record dev {
      production_mode = s.production_mode;
      allow_unsigned_dev = not s.production_mode && not s.require_secure_bundle_signature;
      dev_hmac_key = if s.production_mode || s.reject_dev_signature then none else dev.dev_hmac_key;
      min_security_counter =
          if s.anti_rollback_enabled then security_floor metadata else dev.min_security_counter;
      required_signature_alg =
          if s.require_secure_bundle_signature
          then or_ed25519 s.required_signature_alg
          else dev.required_signature_alg;
      trusted_signature_key_id = key_or s.trusted_signature_key_id dev.trusted_signature_key_id;
    }

-- WdcSecurityMode; a value outside the enum is treated as production.
pub data Mode : Type 0 where
  dev_mode production_mode : Mode

-- WdcSecurityBundlePolicyConfig
pub record BundlePolicyConfig : Type 0 where
  pub mode : Mode
  pub profile : Option DeviceProfile
  pub min_security_counter : ℕ
  pub trusted_signature_key_id : Option Text
  pub signature_verify : Option VerifyFn

unfoldable pub policy_of_config : BundlePolicyConfig → Mode → Policy
unfolding default_dev_policy default_production_policy
policy_of_config c dev_mode = record (default_dev_policy c.profile) {
  min_security_counter = c.min_security_counter;
}
policy_of_config c production_mode =
    let p = default_production_policy c.profile in
    record p {
      min_security_counter = c.min_security_counter;
      trusted_signature_key_id = key_or c.trusted_signature_key_id p.trusted_signature_key_id;
      signature_verify = c.signature_verify;
    }

-- wdc_security_make_bundle_policy
unfoldable pub make_bundle_policy : Option BundlePolicyConfig → Policy
unfolding policy_of_config default_production_policy
make_bundle_policy none = default_production_policy none
make_bundle_policy (some c) = policy_of_config c c.mode
