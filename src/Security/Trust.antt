-- ===== src/Security/Trust.antt =====
-- The policies of wdc_security.c in production, and the verification under them.
use pulse_esp32_host.Base.{
  ℕ, ◌≡◌, ◌≢◌, refl, sym, subst, ◌∙◌, true, List, Option, none, some, ok, codes, arith,
}
use pulse_esp32_host.Profile.Defs.{DeviceProfile}
use pulse_esp32_host.Bundle.Header.{ParsedHeader}
use pulse_esp32_host.Bundle.Manifest.{Summary}
use pulse_esp32_host.Bundle.Metadata.{Metadata}
use pulse_esp32_host.Bundle.Policy.{with_defaults}
use pulse_esp32_host.Bundle.Checks.{Report}
use pulse_esp32_host.Bundle.Verify.{verify}
use pulse_esp32_host.Bundle.Verify.Accepted.{verify-IsVerified, accepted_report}
use pulse_esp32_host.Bundle.Verify.Production.{verify-IsEd25519, signature_valid-IsEd25519}
use pulse_esp32_host.Security.Policy.{
  SecurityPolicy, production_policy, make_bundle_verify_policy, make_bundle_policy,
  policy_of_config, BundlePolicyConfig, production_mode,
}
use pulse_esp32_host.Caps.Defs.{CapabilitySet}
use pulse_esp32_host.Security.Checks.{validate_bundle_result, validate_ok_result}

no_verifier :
    (profile : Option DeviceProfile) (metadata : Option Metadata) (s : SecurityPolicy)
    → (with_defaults (some (make_bundle_verify_policy profile metadata (some s)))).signature_verify
      ≡ none
unfolding make_bundle_verify_policy with_defaults
no_verifier profile metadata s = refl

keeps_production :
    (profile : Option DeviceProfile) (metadata : Option Metadata) (s : SecurityPolicy)
    → (with_defaults (some (make_bundle_verify_policy profile metadata (some s)))).production_mode
      ≡ s.production_mode
unfolding make_bundle_verify_policy with_defaults
keeps_production profile metadata s = refl

-- Whatever the bundle, the policy that is made from a security policy in production mode accepts none:
-- it has no verifier of signatures, and production takes nothing but a verified signature.
pub production_accepts_none :
    (bundle : List ℕ) (profile : Option DeviceProfile) (metadata : Option Metadata)
    (s : SecurityPolicy) (r : Report)
    → s.production_mode ≡ true
    → verify bundle (some (make_bundle_verify_policy profile metadata (some s))) ≢ (ok tt, r)
production_accepts_none bundle profile metadata s r production e =
    let p = make_bundle_verify_policy profile metadata (some s) in
    let (m, _, signed) =
      verify-IsEd25519 bundle (some p) r (keeps_production profile metadata s ∙ production) e in
    let clash : none ≡ some signed.verifier =
      sym (no_verifier profile metadata s) ∙ signed.installed in
    absurd (ground arith)

config_production :
    (c : BundlePolicyConfig)
    → c.mode ≡ production_mode
    → (with_defaults (some (make_bundle_policy (some c)))).production_mode ≡ true
unfolding make_bundle_policy with_defaults policy_of_config
config_production c h = rw h refl

validate_ed25519 :
    (h : ParsedHeader) (m : Summary) (set : CapabilitySet)
    → m.signature_alg ≡ codes "ed25519"
    → (validate_ok_result production_policy (accepted_report h m set)).0 ≡ ok tt
unfolding validate_ok_result
validate_ed25519 h m set alg = rw alg refl

-- A bundle that is accepted under the policy made from a configuration for production also passes the
-- security check of verified bundles in production.
pub verified-passes_security :
    (bundle : List ℕ) (c : BundlePolicyConfig) (r : Report)
    → c.mode ≡ production_mode
    → verify bundle (some (make_bundle_policy (some c))) ≡ (ok tt, r)
    → (validate_bundle_result (some production_policy) (some r)).0 ≡ ok tt
unfolding validate_bundle_result
verified-passes_security bundle c r h e =
    let p = make_bundle_policy (some c) in
    let v = verify-IsVerified bundle (some p) r e in
    let signed =
      signature_valid-IsEd25519 (with_defaults (some p)) bundle v.header v.manifest
        (config_production c h) v.accepts.signed in
    subst (λ (k : Report). (validate_bundle_result (some production_policy) (some k)).0 ≡ ok tt)
      (sym v.report) (validate_ed25519 v.header v.manifest v.accepts.capabilities signed.alg_text)
