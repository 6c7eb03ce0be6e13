-- ===== src/Bundle/Policy.antt =====
-- WdcBundleVerifyPolicy of components/wdc_bundle and the default policies.
use pulse_esp32_host.Base.{
  ℕ, ◌*◌, Bool, true, false, List, Option, none, some, Status, ◌==◌, if◌then◌else◌, Text, codes,
}
use pulse_esp32_host.Profile.Defs.{DeviceProfile}
use pulse_esp32_host.Profile.Builtin.{builtin}
use pulse_esp32_host.Bundle.Manifest.{Summary}

-- WdcBundleSignatureVerifyFn: the summary, the algorithm, and the bytes of the header, the manifest, the
-- payload and the signature.
abbrev pub VerifyFn : Type 0
VerifyFn = Summary → ℕ → List ℕ → List ℕ → List ℕ → List ℕ → Status

-- `none` is a NULL pointer.
pub record Policy : Type 0 where
  pub profile : Option DeviceProfile
  pub min_security_counter : ℕ
  pub max_linear_memory_bytes : ℕ
  pub max_stack_bytes : ℕ
  pub max_payload_bytes : ℕ
  pub max_event_bytes : ℕ
  pub max_request_bytes : ℕ
  pub max_response_bytes : ℕ
  pub production_mode : Bool
  pub allow_unsigned_dev : Bool
  pub dev_hmac_key : Option (List ℕ)
  pub signature_verify : Option VerifyFn
  pub required_signature_alg : Option Text
  pub trusted_signature_key_id : Option Text

-- WDC_BUNDLE_DEFAULT_MAX_*
abbrev pub default_linear_memory : ℕ
default_linear_memory = 256 * 1024

abbrev pub default_stack : ℕ
default_stack = 32 * 1024

abbrev pub default_payload : ℕ
default_payload = 2 * 1024 * 1024

abbrev pub default_event : ℕ
default_event = 2048

abbrev pub default_request : ℕ
default_request = 2048

abbrev pub default_response : ℕ
default_response = 2048

abbrev or_builtin : Option DeviceProfile → DeviceProfile
or_builtin none = builtin
or_builtin (some profile) = profile

-- WDC_DEV_HMAC_KEY
abbrev pub dev_hmac_key_bytes : List ℕ
dev_hmac_key_bytes = codes "wdc-dev-bundle-signing-key-r6"

-- wdc_bundle_make_default_dev_policy
unfoldable pub default_dev_policy : Option DeviceProfile → Policy
default_dev_policy profile = record {
  profile = some (or_builtin profile);
  min_security_counter = 0;
  max_linear_memory_bytes = default_linear_memory;
  max_stack_bytes = default_stack;
  max_payload_bytes = default_payload;
  max_event_bytes = default_event;
  max_request_bytes = default_request;
  max_response_bytes = default_response;
  production_mode = false;
  allow_unsigned_dev = false;
  dev_hmac_key = some dev_hmac_key_bytes;
  signature_verify = none;
  required_signature_alg = none;
  trusted_signature_key_id = none;
}

-- wdc_bundle_make_default_production_policy
unfoldable pub default_production_policy : Option DeviceProfile → Policy
unfolding default_dev_policy
default_production_policy profile = record (default_dev_policy profile) {
  production_mode = true;
  allow_unsigned_dev = false;
  dev_hmac_key = none;
  required_signature_alg = some (codes "ed25519");
  trusted_signature_key_id = some (codes "prod-test-r9");
  signature_verify = none;
}

abbrev or_default : ℕ → ℕ → ℕ
or_default n d = if n == 0 then d else n

abbrev or_dev_policy : Option Policy → Policy
unfolding default_dev_policy
or_dev_policy none = default_dev_policy none
or_dev_policy (some p) = p

-- The local policy of wdc_bundle_verify: a missing one is the default, and a 0 stands for the default limit.
unfoldable pub with_defaults : Option Policy → Policy
unfolding or_dev_policy
with_defaults policy =
    let p = or_dev_policy policy in
    record p {
      profile = some (or_builtin p.profile);
      max_linear_memory_bytes = or_default p.max_linear_memory_bytes default_linear_memory;
      max_stack_bytes = or_default p.max_stack_bytes default_stack;
      max_payload_bytes = or_default p.max_payload_bytes default_payload;
      max_event_bytes = or_default p.max_event_bytes default_event;
      max_request_bytes = or_default p.max_request_bytes default_request;
      max_response_bytes = or_default p.max_response_bytes default_response;
    }

-- The profile of a local policy, which is not NULL.
abbrev pub profile_of : Policy → DeviceProfile
profile_of p = or_builtin p.profile
