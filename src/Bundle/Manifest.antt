-- ===== src/Bundle/Manifest.antt =====
-- WdcBundleManifestSummary of components/wdc_bundle and the function that reads it from the manifest.
use pulse_esp32_host.Base.{
  ℕ, Bool, List, Result, ok, bad_encoding, ◌>>=◌, ◌>>◌, guard, or_bad, ◌==◌, Text, codes,
}
use pulse_esp32_host.Bundle.Json.{
  at_key, object_at, extract_u32_key, extract_u64_key, extract_string_key, extract_bool_key,
  extract_object_string, extract_object_u32, extract_first_string,
}

-- A `char` array holds the text before its NUL.
pub record Summary : Type 0 where
  pub bundle_id : Text
  pub bundle_version : ℕ
  pub security_counter : ℕ
  pub abi_major : ℕ
  pub abi_min_minor : ℕ
  pub abi_max_minor : ℕ
  pub target_soc : Text
  pub target_device_class : Text
  pub board_rev_min : Text
  pub runtime_engine : Text
  pub payload_kind : Text
  pub wasm_threads : Bool
  pub wasm_shared_memory : Bool
  pub wasm_wasi : Bool
  pub linear_memory_max_bytes : ℕ
  pub stack_bytes : ℕ
  pub max_event_bytes : ℕ
  pub max_request_bytes : ℕ
  pub max_response_bytes : ℕ
  pub payload_size_bytes : ℕ
  pub payload_sha256_hex : Text
  pub signature_alg : Text
  pub signature_key_id : Text

-- WDC_BUNDLE_MAX_ID_BYTES, WDC_BUNDLE_MAX_TEXT_BYTES and WDC_BUNDLE_SHA256_HEX_BYTES
abbrev pub max_id_bytes : ℕ
max_id_bytes = 96

abbrev pub max_text_bytes : ℕ
max_text_bytes = 96

abbrev pub sha256_hex_bytes : ℕ
sha256_hex_bytes = 65

-- A read of the summary: every failure is the same.
abbrev u32_of : List ℕ → Text → Result ℕ
u32_of json key = or_bad (extract_u32_key json key)

abbrev bool_of : List ℕ → Text → Result Bool
bool_of json key = or_bad (extract_bool_key json key)

abbrev text_in : List ℕ → Text → Text → ℕ → Result Text
text_in json object_key key size = or_bad (extract_object_string json object_key key size)

abbrev limit_of : List ℕ → Text → Result ℕ
limit_of json key = or_bad (extract_object_u32 json (codes "limits") key)

abbrev first_target : List ℕ → Text → Result Text
first_target json key = or_bad (extract_first_string json (codes "target") key max_text_bytes)

unfoldable pub read_identity : List ℕ → Result (Text × ℕ × ℕ)
unfolding extract_u32_key extract_string_key extract_u64_key
read_identity json = u32_of json (codes "manifest_format") >>= λ format.
    guard (format == 1) bad_encoding
    >> (or_bad (extract_string_key json (codes "bundle_id") max_id_bytes) >>= λ bundle_id.
        u32_of json (codes "bundle_version") >>= λ bundle_version.
        or_bad (extract_u64_key json (codes "security_counter")) >>= λ security_counter.
        ok (bundle_id, bundle_version, security_counter))

unfoldable pub read_abi : List ℕ → Result (ℕ × ℕ × ℕ)
unfolding object_at extract_u32_key
read_abi json = at_key (object_at json (codes "abi")) λ abi. u32_of abi (codes "major") >>= λ major.
    u32_of abi (codes "min_minor") >>= λ min_minor.
    u32_of abi (codes "max_minor") >>= λ max_minor. ok (major, min_minor, max_minor)

unfoldable pub read_target : List ℕ → Result (Text × Text × Text)
unfolding extract_first_string extract_object_string
read_target json = first_target json (codes "soc") >>= λ soc.
    first_target json (codes "device_class") >>= λ device_class.
    text_in json (codes "target") (codes "board_rev_min") 16 >>= λ board_rev_min.
    ok (soc, device_class, board_rev_min)

unfoldable pub read_runtime : List ℕ → Result (Text × Text)
unfolding extract_object_string
read_runtime json = text_in json (codes "runtime") (codes "engine") 32 >>= λ engine.
    text_in json (codes "runtime") (codes "payload_kind") 32 >>= λ payload_kind.
    ok (engine, payload_kind)

unfoldable pub read_features : List ℕ → Result (Bool × Bool × Bool)
unfolding object_at extract_bool_key
read_features json = at_key (object_at json (codes "wasm_features")) λ features.
    bool_of features (codes "threads") >>= λ threads.
    bool_of features (codes "shared_memory") >>= λ shared_memory.
    bool_of features (codes "wasi") >>= λ wasi. ok (threads, shared_memory, wasi)

unfoldable pub read_limits : List ℕ → Result (ℕ × ℕ × ℕ × ℕ × ℕ)
unfolding extract_object_u32
read_limits json = limit_of json (codes "linear_memory_max_bytes") >>= λ linear_memory.
    limit_of json (codes "stack_bytes") >>= λ stack.
    limit_of json (codes "max_event_bytes") >>= λ event.
    limit_of json (codes "max_request_bytes") >>= λ request.
    limit_of json (codes "max_response_bytes") >>= λ response.
    ok (linear_memory, stack, event, request, response)

unfoldable pub read_payload : List ℕ → Result (Text × ℕ × Text × Text)
unfolding extract_object_string extract_object_u32
read_payload json = text_in json (codes "payload") (codes "sha256") sha256_hex_bytes >>= λ sha256.
    or_bad (extract_object_u32 json (codes "payload") (codes "size_bytes")) >>= λ size_bytes.
    text_in json (codes "signature") (codes "alg") 32 >>= λ alg.
    text_in json (codes "signature") (codes "key_id") 64 >>= λ key_id.
    ok (sha256, size_bytes, alg, key_id)

-- wdc_bundle_parse_manifest_summary; the pointers are not NULL, and nothing reads the summary of a failure.
unfoldable pub parse_summary : List ℕ → Result Summary
unfolding read_identity read_abi read_target read_runtime read_features read_limits read_payload
parse_summary json = read_identity json >>= λ identity. read_abi json >>= λ abi.
    read_target json >>= λ target. read_runtime json >>= λ runtime.
    read_features json >>= λ features. read_limits json >>= λ limits.
    read_payload json >>= λ payload. ok (record {
      bundle_id = identity.0;
      bundle_version = identity.1;
      security_counter = identity.2;
      abi_major = abi.0;
      abi_min_minor = abi.1;
      abi_max_minor = abi.2;
      target_soc = target.0;
      target_device_class = target.1;
      board_rev_min = target.2;
      runtime_engine = runtime.0;
      payload_kind = runtime.1;
      wasm_threads = features.0;
      wasm_shared_memory = features.1;
      wasm_wasi = features.2;
      linear_memory_max_bytes = limits.0;
      stack_bytes = limits.1;
      max_event_bytes = limits.2;
      max_request_bytes = limits.3;
      max_response_bytes = limits.4;
      payload_size_bytes = payload.1;
      payload_sha256_hex = payload.0;
      signature_alg = payload.2;
      signature_key_id = payload.3;
    })
