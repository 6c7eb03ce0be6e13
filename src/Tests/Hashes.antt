-- ===== src/Tests/Hashes.antt =====
-- A hash, an HMAC, two containers and a number.
use pulse_esp32_host.Base.{
  ℕ, ◌%◌, ◌^◌, ◌≤◌, ◌≡◌, refl, Bool, true, ◌&&◌, List, [], ◌∷◌, ◌++◌, map, some, ok, wdc_ok, ltb,
  length, replicate, All, codes, decimal, arith,
}
use Prim.Native.Nat.{bit_xor}
use pulse_esp32_host.Bundle.Sha256.{sha256, hmac_sha256, key_block}
use pulse_esp32_host.Bundle.Sha256.Whole.{IsHash, sha256-IsHash}
use pulse_esp32_host.Bundle.Sha256.Nested.{hmac-sha256}
use pulse_esp32_host.Bundle.Header.{parse_header, get_payload, bytes_at}
use pulse_esp32_host.Bundle.Header.Regions.{IsByte, IsLaidOut, parse_header-IsLaidOut}
use pulse_esp32_host.Bundle.Header.Container.{
  Parts, IsParts, container, header_of, container_read_back,
}
use pulse_esp32_host.Bundle.Json.{extract_uint64}
use pulse_esp32_host.Bundle.Json.Numbers.{decimal_read_back}

abbrev abc : List ℕ
abc = codes "abc"

sha256-IsHash_example : IsHash abc (sha256 abc)
sha256-IsHash_example = sha256-IsHash abc

hmac-sha256_example :
    hmac_sha256 (some (codes "key")) (codes "a") (codes "b") (codes "c")
    ≡ sha256 (
        map (λ x. bit_xor x 0x5c) (key_block (some (codes "key")))
        ++ sha256 (
            map (λ x. bit_xor x 0x36) (key_block (some (codes "key")))
            ++ (codes "a" ++ (codes "b" ++ codes "c"))))
hmac-sha256_example = hmac-sha256 (some (codes "key")) (codes "a") (codes "b") (codes "c")

abbrev small_parts : Parts
small_parts = record {
  manifest = 123 ∷ 125 ∷ [];
  payload = 0 ∷ [];
  manifest_sha256 = replicate 32 1;
  payload_sha256 = replicate 32 2;
  signature_alg = 0;
  signature = [];
  reserved = replicate 32 0;
}

small_parts-IsParts : IsParts small_parts
small_parts-IsParts = record {
  some_manifest = omega arith;
  some_payload = omega arith;
  manifest_hash = refl;
  payload_hash = refl;
  alg = omega arith;
  fits = refl;
  reserve = refl;
  signed = omega arith;
  total = omega arith;
}

container_read_back_example :
    (parse_header (container small_parts) ≡ (ok tt, header_of small_parts))
    × (bytes_at (container small_parts) 120 2 ≡ small_parts.manifest)
    × (get_payload (container small_parts) (header_of small_parts) ≡ ok small_parts.payload)
container_read_back_example = container_read_back small_parts small_parts-IsParts

abbrev all_bytes : List ℕ → Bool
all_bytes [] = true
all_bytes (x ∷ xs) = ltb x 256 && all_bytes xs

all_bytes_sound : (xs : List ℕ) → all_bytes xs ≡ true → All IsByte xs
all_bytes_sound [] h = tt
all_bytes_sound (x ∷ xs) h = (ground arith, all_bytes_sound xs (ground arith))

small_bundle_parsed : (parse_header (container small_parts)).0 ≡ wdc_ok
unfolding parse_header
small_bundle_parsed = refl

parse_header-IsLaidOut_example :
    IsLaidOut (parse_header (container small_parts)).1
    × ((parse_header (container small_parts)).1.total_len ≤ length (container small_parts))
parse_header-IsLaidOut_example =
    parse_header-IsLaidOut (container small_parts) (all_bytes_sound (container small_parts) refl)
      (ground arith) small_bundle_parsed

decimal_read_back_example : extract_uint64 (decimal 1207 ++ codes ",") ≡ ok (1207 % 2 ^ 64)
decimal_read_back_example = decimal_read_back 1207 (codes ",") refl
