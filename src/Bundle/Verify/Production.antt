-- ===== src/Bundle/Verify/Production.antt =====
-- The signature of a bundle that is accepted by a policy in production mode.
use pulse_esp32_host.Base.{
  ℕ, ◌≡◌, refl, sym, ap, subst, ◌∙◌, true, false, not, ◌&&◌, List, Option, none, some, Status, ok,
  err, ◌==◌, ==_iff, if◌then◌else◌, if_cases, and_split, inl, inr, text_eq, text_eq_sound, codes,
  arith,
}
use pulse_esp32_host.Bundle.Header.{ParsedHeader, sig_none, sig_hmac, sig_ed25519}
use pulse_esp32_host.Bundle.Manifest.{Summary}
use pulse_esp32_host.Bundle.Policy.{Policy, VerifyFn, with_defaults}
use pulse_esp32_host.Bundle.Signature.{
  header_part, manifest_part, payload_part, signature_part, is_ok, hmac_valid, ed25519_valid,
  signature_valid,
}
use pulse_esp32_host.Bundle.Checks.{Report}
use pulse_esp32_host.Bundle.Verify.{verify}
use pulse_esp32_host.Bundle.Verify.Accepted.{verify-IsVerified}

-- The verifier of the policy has accepted the Ed25519 signature over the parts of the bundle.
pub record IsEd25519 (p : Policy) (bundle : List ℕ) (h : ParsedHeader) (m : Summary) : Type 0 where
  pub alg : h.signature_alg ≡ sig_ed25519
  pub alg_text : m.signature_alg ≡ codes "ed25519"
  pub verifier : VerifyFn
  pub installed : p.signature_verify ≡ some verifier
  pub accepted :
      verifier m h.signature_alg
        (header_part bundle h)
        (manifest_part bundle h)
        (payload_part bundle h)
        (signature_part bundle h)
      ≡ ok tt

is_ok_sound : (s : Status) → is_ok s ≡ true → s ≡ ok tt
is_ok_sound (ok tt) h = refl
is_ok_sound (err e) h = absurd (ground arith)

ed25519_valid-IsEd25519 :
    (p : Policy) (verifier : Option VerifyFn) (bundle : List ℕ) (h : ParsedHeader) (m : Summary)
    → p.signature_verify ≡ verifier
    → h.signature_alg ≡ sig_ed25519
    → ed25519_valid verifier bundle h m ≡ true
    → IsEd25519 p bundle h m
unfolding ed25519_valid
ed25519_valid-IsEd25519 p none bundle h m installed alg e = absurd (ground arith)
ed25519_valid-IsEd25519 p (some f) bundle h m installed alg e =
    let answer =
      f m h.signature_alg (header_part bundle h) (manifest_part bundle h) (payload_part bundle h)
        (signature_part bundle h) in
    let (text, accepted) = and_split (text_eq m.signature_alg (codes "ed25519")) (is_ok answer) e in
    record {
      alg = alg;
      alg_text = text_eq_sound m.signature_alg (codes "ed25519") text;
      verifier = f;
      installed = installed;
      accepted = is_ok_sound answer accepted;
    }

hmac_valid-production :
    (key : Option (List ℕ)) (bundle : List ℕ) (h : ParsedHeader)
    → hmac_valid true key bundle h ≡ false
unfolding hmac_valid
hmac_valid-production key bundle h = refl

pub signature_valid-IsEd25519 :
    (p : Policy) (bundle : List ℕ) (h : ParsedHeader) (m : Summary)
    → p.production_mode ≡ true
    → signature_valid p bundle h m ≡ true
    → IsEd25519 p bundle h m
unfolding signature_valid
signature_valid-IsEd25519 p bundle h m production e =
    let unsigned = not p.production_mode && p.allow_unsigned_dev in
    let hmac = hmac_valid p.production_mode p.dev_hmac_key bundle h in
    let ed25519 = ed25519_valid p.signature_verify bundle h m in
    let no_hmac : hmac ≡ false =
      ap (λ t. hmac_valid t p.dev_hmac_key bundle h) production
      ∙ hmac_valid-production p.dev_hmac_key bundle h in
    let last = if h.signature_alg == sig_ed25519 then ed25519 else false in
    let middle = if h.signature_alg == sig_hmac then hmac else last in
    elim (if_cases (h.signature_alg == sig_none) unsigned middle true e) [
      | inl (_, e1) ↦ absurd (ground arith)
      | inr (_, e1) ↦ elim (if_cases (h.signature_alg == sig_hmac) hmac last true e1) [
        | inl (_, e2) ↦ absurd (ground arith)
        | inr (_, e2) ↦ elim (if_cases (h.signature_alg == sig_ed25519) ed25519 false true e2) [
          | inl (alg, e3) ↦
              ed25519_valid-IsEd25519 p p.signature_verify bundle h m refl
                ((==_iff h.signature_alg sig_ed25519).0 alg) e3
          | inr (_, e3) ↦ absurd (ground arith)
        ]
      ]
    ]

-- Under a policy in production mode a bundle is accepted only when its header and its manifest say
-- Ed25519 and the installed verifier has accepted the signature over the header, the manifest and the
-- payload: no unsigned bundle, no development HMAC, and nothing without a verifier.
pub verify-IsEd25519 :
    (bundle : List ℕ) (policy : Option Policy) (r : Report)
    → (with_defaults policy).production_mode ≡ true
    → verify bundle policy ≡ (ok tt, r)
    → (m : Summary) × (r.manifest ≡ some m) × IsEd25519 (with_defaults policy) bundle r.header m
verify-IsEd25519 bundle policy r production e =
    let v = verify-IsVerified bundle policy r e in
    let s =
      signature_valid-IsEd25519 (with_defaults policy) bundle v.header v.manifest production
        v.accepts.signed in
    subst
      (λ (k : Report).
        (m : Summary) × (k.manifest ≡ some m) × IsEd25519 (with_defaults policy) bundle k.header m)
      (sym v.report) (v.manifest, refl, s)
