-- ===== src/Bundle/Signature.antt =====
-- The signature of a bundle: the checks of its names and of the signature itself in wdc_bundle_verify.
use pulse_esp32_host.Base.{
  ℕ, Bool, true, false, not, ◌&&◌, List, [], ◌∷◌, Option, none, some, Status, ok, err, ◌==◌,
  if◌then◌else◌, take, Text, text_eq, codes,
}
use pulse_esp32_host.Bundle.Sha256.{hmac_sha256}
use pulse_esp32_host.Bundle.Header.{ParsedHeader, bytes_at, sig_none, sig_hmac, sig_ed25519}
use pulse_esp32_host.Bundle.Manifest.{Summary}
use pulse_esp32_host.Bundle.Policy.{Policy, VerifyFn}

-- wdc_bundle_signature_alg_name
unfoldable pub signature_alg_name : ℕ → Text
signature_alg_name alg =
    if alg == sig_none
    then codes "none"
    else if alg == sig_hmac
    then codes "hmac-sha256-dev"
    else if alg == sig_ed25519
    then codes "ed25519"
    else codes "unknown"

abbrev pub optional_text_matches : Option Text → Text → Bool
optional_text_matches none actual = true
optional_text_matches (some []) actual = true
optional_text_matches (some (x ∷ xs)) actual = text_eq (x ∷ xs) actual

-- The bytes that are signed, and the signature behind them.
abbrev pub header_part : List ℕ → ParsedHeader → List ℕ
header_part bundle h = take h.header_len bundle

abbrev pub manifest_part : List ℕ → ParsedHeader → List ℕ
manifest_part bundle h = bytes_at bundle h.manifest_offset h.manifest_len

abbrev pub payload_part : List ℕ → ParsedHeader → List ℕ
payload_part bundle h = bytes_at bundle h.payload_offset h.payload_len

abbrev pub signature_part : List ℕ → ParsedHeader → List ℕ
signature_part bundle h = bytes_at bundle h.signature_offset h.signature_len

-- The HMAC of the development key; a key without bytes is refused.
unfoldable pub hmac_valid : Bool → Option (List ℕ) → List ℕ → ParsedHeader → Bool
unfolding hmac_sha256
hmac_valid true key bundle h = false
hmac_valid false none bundle h = false
hmac_valid false (some []) bundle h = false
hmac_valid false (some (k ∷ ks)) bundle h =
    text_eq
      (hmac_sha256 (some (k ∷ ks)) (header_part bundle h) (manifest_part bundle h)
        (payload_part bundle h))
      (bytes_at bundle h.signature_offset 32)

abbrev pub is_ok : Status → Bool
is_ok (ok tt) = true
is_ok (err e) = false

unfoldable pub ed25519_valid : Option VerifyFn → List ℕ → ParsedHeader → Summary → Bool
ed25519_valid none bundle h m = false
ed25519_valid (some verify) bundle h m =
    text_eq m.signature_alg (codes "ed25519")
    && is_ok (
        verify m h.signature_alg (header_part bundle h) (manifest_part bundle h)
          (payload_part bundle h) (signature_part bundle h))

unfoldable pub signature_valid : Policy → List ℕ → ParsedHeader → Summary → Bool
unfolding hmac_valid ed25519_valid
signature_valid p bundle h m =
    if h.signature_alg == sig_none
    then not p.production_mode && p.allow_unsigned_dev
    else if h.signature_alg == sig_hmac
    then hmac_valid p.production_mode p.dev_hmac_key bundle h
    else if h.signature_alg == sig_ed25519
    then ed25519_valid p.signature_verify bundle h m
    else false
