-- ===== src/Tests/Calls.antt =====
-- Host calls without hooks, on the tables as they start and with a small guest memory.
use pulse_esp32_host.Base.{
  ℕ, ◌≡◌, refl, List, [], ◌∷◌, none, some, ok, wdc_ok, replicate, arith, codes, Text, text_eq,
  if◌then◌else◌,
}
use pulse_esp32_host.Cbor.Find.{find_text, find_bytes, find_item}
use pulse_esp32_host.Cbor.Read.{read_type_value, read_item}
use pulse_esp32_host.HostCall.Opcode.{Opcode}
use pulse_esp32_host.HostCall.Store.{host_init}
use pulse_esp32_host.HostCall.Handlers
use pulse_esp32_host.HostCall.Response.{response_status, key_key, key_data}
use pulse_esp32_host.HostCall.Handlers.{Hooks, State, config_index}
use pulse_esp32_host.HostCall.Memory.{GuestMemory}
use pulse_esp32_host.HostCall.Config.{value_of, config_reply, config_set_then_get}

abbrev bare_hooks : Hooks Unit
bare_hooks = record { authorizer = none; gpio_write = none; gpio_read = none; net = none }

abbrev bare_state : State bare_hooks
bare_state = record { host = host_init; world = tt }

abbrev guest_memory : GuestMemory
guest_memory = record {
  base = some (replicate 40 0);
  max_request_bytes = 0;
  max_response_bytes = 0;
}

-- The key "k" with the value 7, and a request for it.
abbrev set_request : List ℕ
set_request = 0xa2 ∷ 8 ∷ 0x61 ∷ 107 ∷ 9 ∷ 0x41 ∷ 7 ∷ []

abbrev get_request : List ℕ
get_request = 0xa1 ∷ 8 ∷ 0x61 ∷ 107 ∷ []

abbrev letter_k : Text
letter_k = codes "k"

set_request_key : find_text set_request key_key ≡ ok letter_k
unfolding find_text find_item read_type_value read_item
set_request_key = refl

set_request_value : find_bytes set_request key_data ≡ ok (7 ∷ [])
unfolding find_bytes find_item read_type_value read_item
set_request_value = refl

get_request_key : find_text get_request key_key ≡ ok letter_k
unfolding find_text find_item read_type_value read_item
get_request_key = refl

first_slot : config_index bare_hooks bare_state letter_k ≡ some 0
unfolding host_init
first_slot = refl

config_set_then_get_example :
    let (r, s') = Handlers.config_set bare_hooks set_request 64 bare_state in
    (r ≡ response_status 64 wdc_ok)
    × (Handlers.config_get bare_hooks get_request 64 s' ≡ (
      config_reply 64
          (if text_eq letter_k letter_k then some (7 ∷ []) else value_of letter_k host_init.config),
      s',
    ))
config_set_then_get_example =
    config_set_then_get bare_hooks set_request get_request letter_k letter_k (7 ∷ []) 64 bare_state
      set_request_key set_request_value get_request_key (ground arith) (ground arith) (omega arith)
      (omega arith) (ground (arith, first_slot))
