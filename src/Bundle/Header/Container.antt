-- ===== src/Bundle/Header/Container.antt =====
-- A container written by its description is read back: the header, the manifest and the payload.
use mathlib.Core.List.{append_assoc}
use pulse_esp32_host.Base.{
  ℕ, zero, suc, ◌+◌, ◌-◌, ◌/◌, ◌%◌, ◌^◌, ◌<◌, ◌≡◌, refl, sym, ap, ◌∙◌, Bool, true, false, List, [],
  ◌∷◌, ◌++◌, ok, ltb, ◌==◌, ◌&&◌, not, length, length-append, get_or, get_or-append_right, take,
  drop, arith,
}
use pulse_esp32_host.Bundle.Header.{
  ParsedHeader, header_len_v1, container_version_v1, magic_v1, sig_none, sig_hmac, sig_ed25519,
  read_u16_le, read_u32_le, read_fields, check_offsets, check_fields, parse_header, bytes_at,
  get_payload,
}

abbrev pub le_2 : ℕ → List ℕ
le_2 n = n % 256 ∷ n / 256 ∷ []

abbrev pub le_4 : ℕ → List ℕ
le_4 n = n % 256 ∷ n / 2 ^ 8 % 256 ∷ n / 2 ^ 16 % 256 ∷ n / 2 ^ 24 ∷ []

-- What a bundle is made of.
pub record Parts : Type 0 where
  pub manifest : List ℕ
  pub payload : List ℕ
  pub manifest_sha256 : List ℕ
  pub payload_sha256 : List ℕ
  pub signature_alg : ℕ
  pub signature : List ℕ
  pub reserved : List ℕ

abbrev pub front : Parts → List ℕ
front b =
    magic_v1
    ++ (le_2 container_version_v1
        ++ (le_2 header_len_v1 ++ (le_4 (length b.manifest) ++ le_4 (length b.payload))))

abbrev pub container : Parts → List ℕ
container b =
    front b
    ++ (b.manifest_sha256
        ++ (b.payload_sha256
            ++ (le_2 b.signature_alg
                ++ (le_2 (length b.signature)
                    ++ (b.reserved ++ (b.manifest ++ (b.payload ++ b.signature)))))))

-- The signature has the length of its algorithm.
abbrev pub alg_fits : ℕ → ℕ → Bool
alg_fits alg len =
    not (alg == sig_hmac && not (len == 32))
    && not (alg == sig_ed25519 && not (len == 64))
    && not (alg == sig_none && not (len == 0))

pub record IsParts (b : Parts) : Type 0 where
  pub some_manifest : 0 < length b.manifest
  pub some_payload : 0 < length b.payload
  pub manifest_hash : length b.manifest_sha256 ≡ 32
  pub payload_hash : length b.payload_sha256 ≡ 32
  pub alg : b.signature_alg < 2 ^ 16
  pub fits : alg_fits b.signature_alg (length b.signature) ≡ true
  pub reserve : length b.reserved ≡ 32
  pub signed : length b.signature < 2 ^ 16
  pub total : 120 + length b.manifest + length b.payload + length b.signature < 2 ^ 32

get_or-after :
    (xs ys : List ℕ) (n i j : ℕ) → length xs ≡ n → i ≡ n + j → get_or (xs ++ ys) i 0 ≡ get_or ys j 0
get_or-after xs ys n i j e h =
    let e' : i - length xs ≡ j = omega (arith, e) in
    get_or-append_right xs ys i 0 (omega (arith, e)) ∙ ap (λ k. get_or ys k 0) e'

drop_exact : (xs ys : List ℕ) (n : ℕ) → length xs ≡ n → drop n (xs ++ ys) ≡ ys
drop_exact [] ys zero h = refl
drop_exact [] ys (suc n) h = absurd (omega arith)
drop_exact (x ∷ xs) ys zero h = absurd (omega arith)
drop_exact (x ∷ xs) ys (suc n) h = drop_exact xs ys n (omega arith)

take_exact : (xs ys : List ℕ) (n : ℕ) → length xs ≡ n → take n (xs ++ ys) ≡ xs
take_exact [] ys zero h = refl
take_exact [] ys (suc n) h = absurd (omega arith)
take_exact (x ∷ xs) ys zero h = absurd (omega arith)
take_exact (x ∷ xs) ys (suc n) h = ap (◌∷◌ x) (take_exact xs ys n (omega arith))

abbrev pub header_of : Parts → ParsedHeader
header_of b = record {
  container_version = container_version_v1;
  header_len = header_len_v1;
  manifest_len = length b.manifest;
  payload_len = length b.payload;
  signature_alg = b.signature_alg;
  signature_len = length b.signature;
  manifest_offset = 120;
  payload_offset = 120 + length b.manifest;
  signature_offset = 120 + length b.manifest + length b.payload;
  total_len = 120 + length b.manifest + length b.payload + length b.signature;
  manifest_sha256 = b.manifest_sha256;
  payload_sha256 = b.payload_sha256;
}

module _ (b : Parts) (v : IsParts b) where
  abbrev body : List ℕ
  body = b.manifest ++ (b.payload ++ b.signature)

  abbrev tail : List ℕ
  tail = le_2 b.signature_alg ++ (le_2 (length b.signature) ++ (b.reserved ++ body))

  abbrev hashes : List ℕ
  hashes = (front b ++ b.manifest_sha256) ++ b.payload_sha256

  abbrev head : List ℕ
  head = hashes ++ (le_2 b.signature_alg ++ (le_2 (length b.signature) ++ b.reserved))

  split_hash : container b ≡ (front b ++ b.manifest_sha256) ++ (b.payload_sha256 ++ tail)
  split_hash = sym (append_assoc (front b) b.manifest_sha256 (b.payload_sha256 ++ tail))

  split_tail : container b ≡ hashes ++ tail
  split_tail = split_hash ∙ sym (append_assoc (front b ++ b.manifest_sha256) b.payload_sha256 tail)

  split_body : container b ≡ head ++ body
  split_body =
      split_tail
      ∙ sym (
          append_assoc hashes (le_2 b.signature_alg ++ (le_2 (length b.signature) ++ b.reserved))
            body)

  length_first : length (front b ++ b.manifest_sha256) ≡ 52
  length_first = omega (arith, length-append (front b) b.manifest_sha256, v.manifest_hash)

  length-hashes : length hashes ≡ 84
  length-hashes = omega (
    arith,
    length_first,
    length-append (front b ++ b.manifest_sha256) b.payload_sha256,
    v.payload_hash,
  )

  length_head : length head ≡ 120
  length_head = omega (
    arith,
    length-hashes,
    length-append hashes (le_2 b.signature_alg ++ (le_2 (length b.signature) ++ b.reserved)),
    v.reserve,
  )

  length-container :
      length (container b) ≡ 120 + length b.manifest + length b.payload + length b.signature
  length-container = omega (
    arith,
    ap length split_body,
    length-append head body,
    length_head,
    length-append b.manifest (b.payload ++ b.signature),
    length-append b.payload b.signature,
  )

  at_tail : (i j : ℕ) → i ≡ 84 + j → get_or (container b) i 0 ≡ get_or tail j 0
  at_tail i j e =
      ap (λ (k : List ℕ). get_or k i 0) split_tail ∙ get_or-after hashes tail 84 i j length-hashes e

  read_alg : read_u16_le (container b) 84 ≡ b.signature_alg
  read_alg = omega (arith, at_tail 84 0 refl, at_tail 85 1 refl, v.alg)

  read_signature_len : read_u16_le (container b) 86 ≡ length b.signature
  read_signature_len = omega (arith, at_tail 86 2 refl, at_tail 87 3 refl, v.signed)

  read_manifest_len : read_u32_le (container b) 12 ≡ length b.manifest
  read_manifest_len = omega (arith, v.total)

  read_payload_len : read_u32_le (container b) 16 ≡ length b.payload
  read_payload_len = omega (arith, v.total)

  read_manifest_hash : bytes_at (container b) 20 32 ≡ b.manifest_sha256
  read_manifest_hash = take_exact b.manifest_sha256 (b.payload_sha256 ++ tail) 32 v.manifest_hash

  read_payload_hash : bytes_at (container b) 52 32 ≡ b.payload_sha256
  read_payload_hash =
      ap (λ (k : List ℕ). bytes_at k 52 32) split_hash
      ∙ ap (take 32)
          (drop_exact (front b ++ b.manifest_sha256) (b.payload_sha256 ++ tail) 52 length_first)
      ∙ take_exact b.payload_sha256 tail 32 v.payload_hash

  abbrev plain_header : ParsedHeader
  plain_header = record (header_of b) {
    manifest_offset = 0;
    payload_offset = 0;
    signature_offset = 0;
    total_len = 0;
  }

  fields-container : read_fields (container b) ≡ plain_header
  unfolding read_fields
  fields-container = cc (
    read_alg, read_signature_len, read_manifest_len, read_payload_len, read_manifest_hash,
    read_payload_hash,
  )

  check-container : check_fields (length (container b)) plain_header ≡ (ok tt, header_of b)
  unfolding check_fields check_offsets
  check-container =
      ground (arith, length-container, v.total, v.fits, v.some_manifest, v.some_payload)

  parse-container : parse_header (container b) ≡ (ok tt, header_of b)
  unfolding parse_header
  parse-container =
      let long : ltb (length (container b)) header_len_v1 ≡ false =
        ground (arith, length-container) in
      rw long (ap (check_fields (length (container b))) fields-container ∙ check-container)

  manifest-container : bytes_at (container b) 120 (length b.manifest) ≡ b.manifest
  manifest-container =
      ap (λ (k : List ℕ). bytes_at k 120 (length b.manifest)) split_body
      ∙ ap (take (length b.manifest)) (drop_exact head body 120 length_head)
      ∙ take_exact b.manifest (b.payload ++ b.signature) (length b.manifest) refl

  abbrev to_payload : List ℕ
  to_payload = head ++ b.manifest

  length-to_payload : length to_payload ≡ 120 + length b.manifest
  length-to_payload = omega (arith, length_head, length-append head b.manifest)

  payload-container :
      bytes_at (container b) (120 + length b.manifest) (length b.payload) ≡ b.payload
  payload-container =
      ap (λ (k : List ℕ). bytes_at k (120 + length b.manifest) (length b.payload))
        (split_body ∙ sym (append_assoc head b.manifest (b.payload ++ b.signature)))
      ∙ ap (take (length b.payload)) (
          drop_exact to_payload (b.payload ++ b.signature) (120 + length b.manifest)
            length-to_payload)
      ∙ take_exact b.payload b.signature (length b.payload) refl

  get-container : get_payload (container b) (header_of b) ≡ ok b.payload
  unfolding get_payload
  get-container = ground (arith, length-container, v.total, payload-container)

-- A container written by its description, within 32-bit lengths and with a signature as long as its
-- algorithm wants, is read back: its header is the described one, the bytes at the manifest's offset
-- are the manifest, and its payload is the payload.
pub container_read_back :
    (b : Parts)
    → IsParts b
    → (parse_header (container b) ≡ (ok tt, header_of b))
      × (bytes_at (container b) 120 (length b.manifest) ≡ b.manifest)
      × (get_payload (container b) (header_of b) ≡ ok b.payload)
container_read_back b v = (parse-container b v, manifest-container b v, get-container b v)
