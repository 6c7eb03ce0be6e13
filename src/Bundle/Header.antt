-- ===== src/Bundle/Header.antt =====
-- The container header of wdc_bundle.c, the payload behind it and the text of a hash. The bytes of a
-- little-endian number are added: their bits are disjoint.
pub mod Regions
pub mod Container
use pulse_esp32_host.Base.{
  u32, ℕ, ◌+◌, ◌*◌, ◌/◌, ◌%◌, ◌^◌, Bool, not, ◌||◌, ◌&&◌, List, [], ◌∷◌, ◌++◌, Option, none, some,
  Result, Status, ok, err, bad_pointer, bad_length, bad_encoding, unsupported_abi, ltb, ◌==◌,
  if◌then◌else◌, length, get_or, take, drop, replicate, Text, text_eq, codes,
}

-- WDC_BUNDLE_MAGIC_V1: "WDCBNDL" and a NUL
abbrev pub magic_v1 : List ℕ
magic_v1 = 87 ∷ 68 ∷ 67 ∷ 66 ∷ 78 ∷ 68 ∷ 76 ∷ 0 ∷ []

-- WDC_BUNDLE_CONTAINER_VERSION_V1 and WDC_BUNDLE_HEADER_LEN_V1
abbrev pub container_version_v1 : ℕ
container_version_v1 = 1

abbrev pub header_len_v1 : ℕ
header_len_v1 = 120

-- WDC_BUNDLE_SIG_NONE, _HMAC_SHA256_DEV and _ED25519
abbrev pub sig_none : ℕ
sig_none = 0

abbrev pub sig_hmac : ℕ
sig_hmac = 1

abbrev pub sig_ed25519 : ℕ
sig_ed25519 = 2

pub record ParsedHeader : Type 0 where
  pub container_version : ℕ
  pub header_len : ℕ
  pub manifest_len : ℕ
  pub payload_len : ℕ
  pub signature_alg : ℕ
  pub signature_len : ℕ
  pub manifest_offset : ℕ
  pub payload_offset : ℕ
  pub signature_offset : ℕ
  pub total_len : ℕ
  pub manifest_sha256 : List ℕ
  pub payload_sha256 : List ℕ

abbrev pub blank_header : ParsedHeader
blank_header = record {
  container_version = 0;
  header_len = 0;
  manifest_len = 0;
  payload_len = 0;
  signature_alg = 0;
  signature_len = 0;
  manifest_offset = 0;
  payload_offset = 0;
  signature_offset = 0;
  total_len = 0;
  manifest_sha256 = replicate 32 0;
  payload_sha256 = replicate 32 0;
}

-- The bytes of `bundle` at an offset; every offset that is read lies inside.
abbrev pub read_u16_le : List ℕ → ℕ → ℕ
read_u16_le bundle i = get_or bundle i 0 + get_or bundle (i + 1) 0 * 2 ^ 8

abbrev pub read_u32_le : List ℕ → ℕ → ℕ
read_u32_le bundle i =
    get_or bundle i 0
    + get_or bundle (i + 1) 0 * 2 ^ 8
    + get_or bundle (i + 2) 0 * 2 ^ 16
    + get_or bundle (i + 3) 0 * 2 ^ 24

abbrev pub bytes_at : List ℕ → ℕ → ℕ → List ℕ
bytes_at bundle i n = take n (drop i bundle)

-- The fields that are copied from the header.
unfoldable pub read_fields : List ℕ → ParsedHeader
read_fields bundle = record blank_header {
  container_version = read_u16_le bundle 8;
  header_len = read_u16_le bundle 10;
  manifest_len = read_u32_le bundle 12;
  payload_len = read_u32_le bundle 16;
  manifest_sha256 = bytes_at bundle 20 32;
  payload_sha256 = bytes_at bundle 52 32;
  signature_alg = read_u16_le bundle 84;
  signature_len = read_u16_le bundle 86;
}

-- The offsets, in uint32_t arithmetic.
abbrev pub with_offsets : ParsedHeader → ParsedHeader
with_offsets h =
    let payload = u32 (h.header_len + h.manifest_len) in
    let signature = u32 (payload + h.payload_len) in
    record h {
      manifest_offset = h.header_len;
      payload_offset = payload;
      signature_offset = signature;
      total_len = u32 (signature + h.signature_len);
    }

unfoldable pub check_offsets : ℕ → ParsedHeader → Status × ParsedHeader
check_offsets bundle_len h =
    if ltb h.payload_offset h.manifest_offset
      || ltb h.signature_offset h.payload_offset
      || ltb h.total_len h.signature_offset
    then (err bad_length, h)
    else if not (bundle_len == header_len_v1) && ltb bundle_len h.total_len
    then (err bad_length, h)
    else (ok tt, h)

unfoldable pub check_fields : ℕ → ParsedHeader → Status × ParsedHeader
unfolding check_offsets
check_fields bundle_len h =
    if not (h.container_version == container_version_v1) || not (h.header_len == header_len_v1)
    then (err unsupported_abi, h)
    else if h.manifest_len == 0 || h.payload_len == 0
    then (err bad_length, h)
    else if h.signature_alg == sig_hmac && not (h.signature_len == 32)
    then (err bad_length, h)
    else if h.signature_alg == sig_ed25519 && not (h.signature_len == 64)
    then (err bad_length, h)
    else if h.signature_alg == sig_none && not (h.signature_len == 0)
    then (err bad_length, h)
    else check_offsets bundle_len (with_offsets h)

-- wdc_bundle_parse_header with the header that it leaves, on an error too. The pointers are not NULL.
unfoldable pub parse_header : List ℕ → Status × ParsedHeader
unfolding read_fields check_fields
parse_header bundle =
    if ltb (length bundle) header_len_v1
    then (err bad_length, blank_header)
    else if not (text_eq (take 8 bundle) magic_v1)
    then (err bad_encoding, blank_header)
    else check_fields (length bundle) (read_fields bundle)

-- wdc_bundle_get_payload; the sum of the offsets wraps.
unfoldable pub get_payload : List ℕ → ParsedHeader → Result (List ℕ)
get_payload bundle h =
    let end = u32 (h.payload_offset + h.payload_len) in
    if ltb end h.payload_offset || ltb (length bundle) end
    then err bad_length
    else ok (bytes_at bundle h.payload_offset h.payload_len)

abbrev pub hex_digit : ℕ → ℕ
hex_digit n = get_or (codes "0123456789abcdef") n 0

-- wdc_bundle_sha256_hex
unfoldable pub sha256_hex : List ℕ → Text
sha256_hex [] = []
sha256_hex (x ∷ xs) = hex_digit (x / 16 % 16) ∷ hex_digit (x % 16) ∷ sha256_hex xs
