-- ===== src/Tests/Bundles.antt =====
-- Two bundles that are accepted: one with the development HMAC, one with an Ed25519 signature.
use pulse_esp32_host.Base.{
  ap, true, Status, ℕ, ◌≡◌, refl, List, [], ◌∷◌, ◌++◌, none, some, ok, err, io, codes, replicate,
  text_eq, if◌then◌else◌, Text,
}
use pulse_esp32_host.Bundle.Policy.{
  Policy, VerifyFn, default_dev_policy, default_production_policy, with_defaults,
}
use pulse_esp32_host.Bundle.Checks.{Outcome}
use pulse_esp32_host.Bundle.Verify.{verify}

abbrev pub module_payload : List ℕ
module_payload =
    0 ∷ 97 ∷ 115 ∷ 109 ∷ 1 ∷ 0 ∷ 0 ∷ 0 ∷ 7 ∷ 83 ∷ 4 ∷ 15 ∷ 119 ∷ 100 ∷ 99 ∷ 95 ∷ 109 ∷ 111 ∷ 100
    ∷ 117 ∷ 108 ∷ 101 ∷ 95 ∷ 105 ∷ 110 ∷ 105 ∷ 116 ∷ 0 ∷ 0 ∷ 19 ∷ 119 ∷ 100 ∷ 99 ∷ 95 ∷ 109 ∷ 111
    ∷ 100 ∷ 117 ∷ 108 ∷ 101 ∷ 95 ∷ 111 ∷ 110 ∷ 95 ∷ 101 ∷ 118 ∷ 101 ∷ 110 ∷ 116 ∷ 0 ∷ 1 ∷ 17 ∷ 119
    ∷ 100 ∷ 99 ∷ 95 ∷ 109 ∷ 111 ∷ 100 ∷ 117 ∷ 108 ∷ 101 ∷ 95 ∷ 104 ∷ 101 ∷ 97 ∷ 108 ∷ 116 ∷ 104 ∷ 0
    ∷ 2 ∷ 19 ∷ 119 ∷ 100 ∷ 99 ∷ 95 ∷ 109 ∷ 111 ∷ 100 ∷ 117 ∷ 108 ∷ 101 ∷ 95 ∷ 115 ∷ 104 ∷ 117 ∷ 116
    ∷ 100 ∷ 111 ∷ 119 ∷ 110 ∷ 0 ∷ 3 ∷ []

abbrev head_bytes : ℕ → ℕ → ℕ → List ℕ → List ℕ → List ℕ
head_bytes manifest_low alg signature_len manifest_sha256 payload_sha256 =
    codes "WDCBNDL"
    ++ (0 ∷ 1 ∷ 0 ∷ 120 ∷ 0 ∷ manifest_low ∷ 2 ∷ 0 ∷ 0 ∷ 93 ∷ 0 ∷ 0 ∷ 0 ∷ [])
    ++ manifest_sha256
    ++ payload_sha256
    ++ (alg ∷ 0 ∷ signature_len ∷ 0 ∷ [])
    ++ replicate 32 0

abbrev payload_hash : List ℕ
payload_hash =
    208 ∷ 104 ∷ 232 ∷ 38 ∷ 3 ∷ 209 ∷ 81 ∷ 198 ∷ 210 ∷ 187 ∷ 142 ∷ 69 ∷ 35 ∷ 248 ∷ 134 ∷ 80 ∷ 158
    ∷ 199 ∷ 233 ∷ 84 ∷ 22 ∷ 25 ∷ 52 ∷ 137 ∷ 106 ∷ 189 ∷ 219 ∷ 202 ∷ 57 ∷ 73 ∷ 211 ∷ 175 ∷ []

abbrev dev_manifest : Text
dev_manifest =
    codes
      "{\"manifest_format\":1,\"bundle_id\":\"relay\",\"bundle_version\":4,\"security_counter\":1"
    ++ codes
        "2,\"abi\":{\"major\":1,\"min_minor\":0,\"max_minor\":0},\"target\":{\"soc\":[\"esp32-s3\"],\"de"
    ++ codes
        "vice_class\":[\"relay-node\"],\"board_rev_min\":\"c\"},\"runtime\":{\"engine\":\"wamr\",\"payl"
    ++ codes
        "oad_kind\":\"wasm\"},\"wasm_features\":{\"threads\":false,\"shared_memory\":false,\"wasi\":"
    ++ codes
        "false},\"limits\":{\"linear_memory_max_bytes\":65536,\"stack_bytes\":8192,\"max_event_b"
    ++ codes
        "ytes\":2048,\"max_request_bytes\":2048,\"max_response_bytes\":2048},\"payload\":{\"sha25"
    ++ codes "6\":\"d068e82603d151c6d2bb8e4523f886509ec7e954161934896abddbca3949d3af\",\"size_byte"
    ++ codes
        "s\":93},\"signature\":{\"alg\":\"hmac-sha256-dev\",\"key_id\":\"prod-test-r9\"},\"capabiliti"
    ++ codes
        "es\":[{\"id\":1,\"kind\":\"gpio\",\"resource\":\"relay_1\",\"ops\":[\"read\",\"write\"],\"max_rate"
    ++ codes "_hz\":10}]}"

abbrev dev_hash : List ℕ
dev_hash =
    84 ∷ 8 ∷ 86 ∷ 13 ∷ 166 ∷ 191 ∷ 2 ∷ 195 ∷ 134 ∷ 26 ∷ 199 ∷ 176 ∷ 81 ∷ 42 ∷ 4 ∷ 48 ∷ 60 ∷ 235 ∷ 56
    ∷ 133 ∷ 30 ∷ 95 ∷ 237 ∷ 226 ∷ 19 ∷ 112 ∷ 35 ∷ 88 ∷ 1 ∷ 217 ∷ 68 ∷ 43 ∷ []

abbrev dev_signature : List ℕ
dev_signature =
    157 ∷ 225 ∷ 81 ∷ 176 ∷ 250 ∷ 254 ∷ 95 ∷ 187 ∷ 139 ∷ 3 ∷ 79 ∷ 219 ∷ 8 ∷ 33 ∷ 0 ∷ 208 ∷ 154 ∷ 215
    ∷ 20 ∷ 66 ∷ 71 ∷ 92 ∷ 24 ∷ 169 ∷ 15 ∷ 168 ∷ 251 ∷ 47 ∷ 150 ∷ 50 ∷ 115 ∷ 214 ∷ []

abbrev pub dev_bundle : List ℕ
dev_bundle =
    head_bytes 218 1 32 dev_hash payload_hash ++ dev_manifest ++ module_payload ++ dev_signature

abbrev signed_manifest : Text
signed_manifest =
    codes
      "{\"manifest_format\":1,\"bundle_id\":\"relay\",\"bundle_version\":4,\"security_counter\":1"
    ++ codes
        "2,\"abi\":{\"major\":1,\"min_minor\":0,\"max_minor\":0},\"target\":{\"soc\":[\"esp32-s3\"],\"de"
    ++ codes
        "vice_class\":[\"relay-node\"],\"board_rev_min\":\"c\"},\"runtime\":{\"engine\":\"wamr\",\"payl"
    ++ codes
        "oad_kind\":\"wasm\"},\"wasm_features\":{\"threads\":false,\"shared_memory\":false,\"wasi\":"
    ++ codes
        "false},\"limits\":{\"linear_memory_max_bytes\":65536,\"stack_bytes\":8192,\"max_event_b"
    ++ codes
        "ytes\":2048,\"max_request_bytes\":2048,\"max_response_bytes\":2048},\"payload\":{\"sha25"
    ++ codes "6\":\"d068e82603d151c6d2bb8e4523f886509ec7e954161934896abddbca3949d3af\",\"size_byte"
    ++ codes
        "s\":93},\"signature\":{\"alg\":\"ed25519\",\"key_id\":\"prod-test-r9\"},\"capabilities\":[{\"i"
    ++ codes
        "d\":1,\"kind\":\"gpio\",\"resource\":\"relay_1\",\"ops\":[\"read\",\"write\"],\"max_rate_hz\":10}"
    ++ codes "]}"

abbrev signed_hash : List ℕ
signed_hash =
    189 ∷ 76 ∷ 20 ∷ 108 ∷ 246 ∷ 119 ∷ 172 ∷ 67 ∷ 250 ∷ 196 ∷ 176 ∷ 244 ∷ 5 ∷ 250 ∷ 148 ∷ 96 ∷ 59 ∷ 8
    ∷ 123 ∷ 27 ∷ 86 ∷ 126 ∷ 144 ∷ 29 ∷ 94 ∷ 240 ∷ 37 ∷ 152 ∷ 246 ∷ 140 ∷ 56 ∷ 129 ∷ []

abbrev pub signed_bundle : List ℕ
signed_bundle =
    head_bytes 210 2 64 signed_hash payload_hash
    ++ signed_manifest
    ++ module_payload
    ++ replicate 64 7

-- A verifier that accepts one signature.
abbrev pub test_verifier : VerifyFn
test_verifier m alg header manifest payload signature =
    if text_eq signature (replicate 64 7) then ok tt else err io

abbrev pub dev_policy : Policy
unfolding default_dev_policy
dev_policy = default_dev_policy none

abbrev pub signed_policy : Policy
unfolding default_production_policy
signed_policy = record (default_production_policy none) {
  signature_verify = some test_verifier;
  min_security_counter = 12;
}

abbrev pub dev_outcome : Outcome
unfolding verify dev_policy
dev_outcome = verify dev_bundle (some dev_policy)

abbrev pub signed_outcome : Outcome
unfolding verify signed_policy
signed_outcome = verify signed_bundle (some signed_policy)

dev_status : dev_outcome.0 ≡ ok tt
unfolding dev_outcome
dev_status = refl

pub dev_bundle_accepted : verify dev_bundle (some dev_policy) ≡ (ok tt, dev_outcome.1)
unfolding dev_outcome verify
dev_bundle_accepted = ap (λ (s : Status). (s, dev_outcome.1)) dev_status

signed_status : signed_outcome.0 ≡ ok tt
unfolding signed_outcome
signed_status = refl

pub signed_bundle_accepted : verify signed_bundle (some signed_policy) ≡ (ok tt, signed_outcome.1)
unfolding signed_outcome verify
signed_bundle_accepted = ap (λ (s : Status). (s, signed_outcome.1)) signed_status

pub signed_policy_production : (with_defaults (some signed_policy)).production_mode ≡ true
unfolding with_defaults signed_policy
signed_policy_production = refl
