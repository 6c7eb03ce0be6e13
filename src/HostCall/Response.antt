-- ===== src/HostCall/Response.antt =====
-- The keys of requests and responses, the responses and the resource tests of wdc_host_call.c.
use pulse_esp32_host.Base.{
  ℕ, Bool, true, false, ◌||◌, List, Result, Status, ok, err, wdc_ok, ◌>>=◌, ◌==◌, status_code,
  codes,
}
use pulse_esp32_host.Cbor.Build.{
  builder_init, Builder, begin_map, put_key_i32, put_key_uint, put_key_text, put_key_bytes,
}
use pulse_esp32_host.Cbor.Find.{find_u32, find_bool}

-- WDC_CBOR_KEY_STATUS and the other keys of requests and responses
abbrev pub key_status : ℕ
key_status = 0

abbrev pub key_abi_major : ℕ
key_abi_major = 1

abbrev pub key_abi_minor : ℕ
key_abi_minor = 2

abbrev pub key_resource_id : ℕ
key_resource_id = 3

abbrev pub key_value : ℕ
key_value = 4

abbrev pub key_timer_id : ℕ
key_timer_id = 5

abbrev pub key_delay_ms : ℕ
key_delay_ms = 6

abbrev pub key_repeat : ℕ
key_repeat = 7

abbrev pub key_key : ℕ
key_key = 8

abbrev pub key_data : ℕ
key_data = 9

abbrev pub key_build_stage : ℕ
key_build_stage = 10

abbrev pub key_shell_version : ℕ
key_shell_version = 11

abbrev pub finish : Result Builder → Result (List ℕ)
finish r = r >>= λ b. ok b.bytes

unfoldable pub response_status : ℕ → Status → Result (List ℕ)
response_status cap code =
    finish (begin_map 1 (builder_init cap) >>= put_key_i32 key_status (status_code code))

unfoldable pub response_status_value : ℕ → Status → ℕ → Result (List ℕ)
response_status_value cap code value = finish (
    (begin_map 2 (builder_init cap) >>= put_key_i32 key_status (status_code code))
    >>= put_key_uint key_value value)

abbrev pub config_answer : ℕ → List ℕ → Result (List ℕ)
config_answer cap value = finish (
    (begin_map 2 (builder_init cap) >>= put_key_i32 key_status (status_code wdc_ok))
    >>= put_key_bytes key_data value)

-- WDC_ABI_MAJOR, WDC_ABI_MINOR, WDC_CURRENT_BUILD_STAGE and WDC_CURRENT_SHELL_VERSION
unfoldable pub sys_info : ℕ → Result (List ℕ)
sys_info cap = finish (
    ((((begin_map 5 (builder_init cap) >>= put_key_i32 key_status (status_code wdc_ok))
          >>= put_key_uint key_abi_major 1)
        >>= put_key_uint key_abi_minor 0)
      >>= put_key_text key_build_stage (codes "R9"))
    >>= put_key_text key_shell_version (codes "0.1.0-r9"))

-- The relay, the status LED and the button.
abbrev pub valid_resource : ℕ → Bool
valid_resource id = id == 1 || id == 2 || id == 3

abbrev pub writable_resource : ℕ → Bool
writable_resource id = id == 1 || id == 2

abbrev pub bool_value : Bool → ℕ
bool_value true = 1
bool_value false = 0

-- A value is a number, or else a Boolean.
abbrev pub read_value : List ℕ → Result ℕ
read_value req = elim (find_u32 req key_value) [
  | ok value ↦ ok value
  | err e ↦ find_bool req key_value >>= λ b. ok (bool_value b)
]
