-- ===== src/Bundle/Header/Regions.antt =====
-- Where the parts of a bundle lie whose header was accepted.
use pulse_esp32_host.Base.{
  ℕ, zero, suc, ◌+◌, ◌^◌, ◌≤◌, ◌<◌, ◌≡◌, ◌≢◌, sym, ap, subst, ◌∙◌, List, [], ◌∷◌, Status, wdc_ok,
  length, get_or, All, arith,
}
use pulse_esp32_host.Bundle.Header.{
  ParsedHeader, header_len_v1, read_u16_le, read_u32_le, read_fields, with_offsets, check_offsets,
  check_fields, parse_header,
}

abbrev pub IsByte : ℕ → Type 0
IsByte x = x < 256

get_or-IsByte : (xs : List ℕ) (i : ℕ) → All IsByte xs → get_or xs i 0 < 256
get_or-IsByte [] i h = omega arith
get_or-IsByte (x ∷ xs) zero h = h.0
get_or-IsByte (x ∷ xs) (suc i) h = get_or-IsByte xs i h.1

read_u16_le-lt : (xs : List ℕ) (i : ℕ) → All IsByte xs → read_u16_le xs i < 2 ^ 16
read_u16_le-lt xs i h = omega (arith, get_or-IsByte xs i h, get_or-IsByte xs (i + 1) h)

read_u32_le-lt : (xs : List ℕ) (i : ℕ) → All IsByte xs → read_u32_le xs i < 2 ^ 32
read_u32_le-lt xs i h = omega (
  arith,
  get_or-IsByte xs i h,
  get_or-IsByte xs (i + 1) h,
  get_or-IsByte xs (i + 2) h,
  get_or-IsByte xs (i + 3) h,
)

-- The parts stand one behind the other and no sum has wrapped.
pub record IsLaidOut (h : ParsedHeader) : Type 0 where
  pub manifest_first : h.manifest_offset ≡ header_len_v1
  pub payload_next : h.payload_offset ≡ header_len_v1 + h.manifest_len
  pub signature_next : h.signature_offset ≡ header_len_v1 + h.manifest_len + h.payload_len
  pub total : h.total_len ≡ header_len_v1 + h.manifest_len + h.payload_len + h.signature_len
  pub some_manifest : 0 < h.manifest_len
  pub some_payload : 0 < h.payload_len

check_fields-offsets :
    (n : ℕ) (h : ParsedHeader)
    → (check_fields n h).0 ≡ wdc_ok
    → (h.header_len ≡ header_len_v1)
      × (0 < h.manifest_len)
      × (0 < h.payload_len)
      × (check_fields n h ≡ check_offsets n (with_offsets h))
unfolding check_fields
check_fields-offsets n h e = ground arith

check_offsets-order :
    (n : ℕ) (h : ParsedHeader)
    → n ≢ header_len_v1
    → (check_offsets n h).0 ≡ wdc_ok
    → ((check_offsets n h).1 ≡ h)
      × (h.manifest_offset ≤ h.payload_offset)
      × (h.payload_offset ≤ h.signature_offset)
      × (h.signature_offset ≤ h.total_len)
      × (h.total_len ≤ n)
unfolding check_offsets
check_offsets-order n h ne e = ground arith

check-IsLaidOut :
    (n : ℕ) (h : ParsedHeader)
    → h.manifest_len < 2 ^ 32
    → h.payload_len < 2 ^ 32
    → h.signature_len < 2 ^ 16
    → n ≢ header_len_v1
    → (check_fields n h).0 ≡ wdc_ok
    → IsLaidOut (check_fields n h).1 × ((check_fields n h).1.total_len ≤ n)
check-IsLaidOut n h m p s ne e =
    let (len, some_manifest, some_payload, same) = check_fields-offsets n h e in
    let (kept, manifest, payload, signature, total) =
      check_offsets-order n (with_offsets h) ne
        (sym (ap (λ (r : Status × ParsedHeader). r.0) same) ∙ e) in
    subst (λ (r : ParsedHeader). IsLaidOut r × (r.total_len ≤ n))
      (sym (ap (λ (r : Status × ParsedHeader). r.1) same ∙ kept))
      (
        record {
          manifest_first = len;
          payload_next = omega (arith, len, manifest);
          signature_next = omega (arith, len, manifest, payload);
          total = omega (arith, len, manifest, payload, signature);
          some_manifest = some_manifest;
          some_payload = some_payload;
        },
        total,
      )

parse_header-fields :
    (bundle : List ℕ)
    → (parse_header bundle).0 ≡ wdc_ok
    → parse_header bundle ≡ check_fields (length bundle) (read_fields bundle)
unfolding parse_header
parse_header-fields bundle e = ground arith

-- When a bundle of bytes that is not a header alone is accepted, its manifest, payload and
-- signature follow the header without a gap, the manifest and the payload are not empty, no offset
-- has wrapped, and all end within the bundle.
pub parse_header-IsLaidOut :
    (bundle : List ℕ)
    → All IsByte bundle
    → length bundle ≢ header_len_v1
    → (parse_header bundle).0 ≡ wdc_ok
    → IsLaidOut (parse_header bundle).1 × ((parse_header bundle).1.total_len ≤ length bundle)
unfolding read_fields
parse_header-IsLaidOut bundle bytes ne e =
    let same = parse_header-fields bundle e in
    let h = read_fields bundle in
    subst (λ (r : Status × ParsedHeader). IsLaidOut r.1 × (r.1.total_len ≤ length bundle))
      (sym same)
      (check-IsLaidOut (length bundle) h (read_u32_le-lt bundle 12 bytes)
        (read_u32_le-lt bundle 16 bytes) (read_u16_le-lt bundle 86 bytes) ne
        (sym (ap (λ (r : Status × ParsedHeader). r.0) same) ∙ e))
