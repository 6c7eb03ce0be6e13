-- ===== src/Tests/Verified.antt =====
-- The verification of two bundles, and their installation under the security policies.
use pulse_esp32_host.Base.{
  ℕ, ◌≡◌, ◌≢◌, refl, ap, true, List, [], ◌∷◌, none, some, Status, ok, pos, replicate,
}
use pulse_esp32_host.Bundle.Manifest.{Summary}
use pulse_esp32_host.Bundle.Metadata.{
  Metadata, slot_a, slot_b, SlotRecord, confirmed, empty, metadata_magic, mark_verified,
}
use pulse_esp32_host.Bundle.Policy.{with_defaults}
use pulse_esp32_host.Bundle.Checks.{Outcome, blank_report}
use pulse_esp32_host.Bundle.Verify.{verify, metadata_view}
use pulse_esp32_host.Bundle.Verify.Accepted.{IsVerified, verify-IsVerified}
use pulse_esp32_host.Bundle.Verify.Production.{IsEd25519, verify-IsEd25519}
use pulse_esp32_host.Security.Policy.{
  SecurityPolicy, development_policy, production_policy, make_bundle_verify_policy,
  make_bundle_policy, BundlePolicyConfig, production_mode,
}
use pulse_esp32_host.Security.Checks.{validate_bundle_result}
use pulse_esp32_host.Security.Trust.{production_accepts_none, verified-passes_security}
use pulse_esp32_host.Tests.Bundles.{
  dev_bundle, dev_policy, dev_outcome, dev_bundle_accepted, signed_bundle, signed_policy,
  signed_outcome, signed_bundle_accepted, signed_policy_production, test_verifier,
}

verify-IsVerified_example : IsVerified (with_defaults (some dev_policy)) dev_bundle dev_outcome.1
verify-IsVerified_example =
    verify-IsVerified dev_bundle (some dev_policy) dev_outcome.1 dev_bundle_accepted

verify-IsEd25519_example :
    (m : Summary) × (signed_outcome.1.manifest ≡ some m)
    × IsEd25519 (with_defaults (some signed_policy)) signed_bundle signed_outcome.1.header m
verify-IsEd25519_example =
    verify-IsEd25519 signed_bundle (some signed_policy) signed_outcome.1 signed_policy_production
      signed_bundle_accepted

abbrev old_record : SlotRecord
old_record = record {
  state = confirmed;
  bundle_version = 3;
  security_counter = 9;
  payload_sha256 = replicate 32 5;
}

abbrev installed : Metadata
installed = record {
  magic = metadata_magic;
  version = 1;
  reserved = 0;
  active_slot = slot_a;
  last_good_slot = slot_a;
  record_a = old_record;
  record_b = record {
    state = empty;
    bundle_version = 0;
    security_counter = 0;
    payload_sha256 = replicate 32 0;
  };
  candidate_boot_count = 0;
  candidate_fault_count = 0;
  last_failure_reason = pos 0;
  metadata_generation = 7;
  metadata_crc = 0;
}

-- The development policy with anti-rollback.
abbrev guarded_policy : SecurityPolicy
guarded_policy = record development_policy { anti_rollback_enabled = true }

abbrev guarded_outcome : Outcome
unfolding verify make_bundle_verify_policy
guarded_outcome =
    verify dev_bundle (some (make_bundle_verify_policy none (some installed) (some guarded_policy)))

abbrev layout : Metadata → List ℕ
layout m = m.metadata_generation ∷ []

abbrev marked : Status × Metadata
marked = mark_verified layout installed slot_b (metadata_view guarded_outcome.1)

production_accepts_none_example :
    verify signed_bundle
      (some (make_bundle_verify_policy none (some installed) (some production_policy)))
    ≢ (ok tt, blank_report)
production_accepts_none_example =
    production_accepts_none signed_bundle none (some installed) production_policy blank_report refl

abbrev config : BundlePolicyConfig
config = record {
  mode = production_mode;
  profile = none;
  min_security_counter = 9;
  trusted_signature_key_id = none;
  signature_verify = some test_verifier;
}

abbrev config_outcome : Outcome
unfolding verify make_bundle_policy
config_outcome = verify signed_bundle (some (make_bundle_policy (some config)))

config_status : config_outcome.0 ≡ ok tt
unfolding config_outcome
config_status = refl

config_accepted :
    verify signed_bundle (some (make_bundle_policy (some config))) ≡ (ok tt, config_outcome.1)
unfolding config_outcome verify make_bundle_policy
config_accepted = ap (λ (s : Status). (s, config_outcome.1)) config_status

verified-passes_security_example :
    (validate_bundle_result (some production_policy) (some config_outcome.1)).0 ≡ ok tt
verified-passes_security_example =
    verified-passes_security signed_bundle config config_outcome.1 refl config_accepted
