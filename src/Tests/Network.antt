-- ===== src/Tests/Network.antt =====
-- The network calls of wdc_net.c on the built-in profile: a connection, a publish and an HTTP request.
use pulse_esp32_host.Base.{ℕ, ◌≡◌, refl, List, [], ◌∷◌, ◌++◌, none, some, codes, replicate}
use pulse_esp32_host.Cbor.Find.{find_u32, find_item, find_text, find_bytes}
use pulse_esp32_host.Cbor.Read.{read_type_value, read_item}
use pulse_esp32_host.Profile.Defs.{find_resource_by_id, find_network_by_id}
use pulse_esp32_host.Profile.Builtin.{builtin}
use pulse_esp32_host.Events.Queue.{EventQueue, init}
use pulse_esp32_host.HostCall.Opcode.{Opcode, mqtt_publish, mqtt_subscribe}
use pulse_esp32_host.HostCall.Store.{host_init}
use pulse_esp32_host.HostCall.Handlers.{Hooks, State}
use pulse_esp32_host.HostCall.Memory.{GuestMemory}
use pulse_esp32_host.Net.Defs.{Net, connected, blank_status}
use pulse_esp32_host.Net.Calls.{net_host_call}
use pulse_esp32_host.Net.Steps.{net_init}
use pulse_esp32_host.Net.History.{Step, call, change, run}

abbrev net_off : Net
net_off = record { profile = none; status = blank_status }

-- {3: 20, 25: "devices/demo/telemetry", 26: 1, 9: two bytes}
abbrev publish_request : List ℕ
publish_request =
    (0xa4 ∷ 3 ∷ 20 ∷ 0x18 ∷ 25 ∷ 0x76 ∷ [])
    ++ codes "devices/demo/telemetry"
    ++ (0x18 ∷ 26 ∷ 1 ∷ 9 ∷ 0x42 ∷ 7 ∷ 8 ∷ [])

-- {3: 21, 25: "devices/demo/commands/x"}
abbrev subscribe_request : List ℕ
subscribe_request = (0xa2 ∷ 3 ∷ 21 ∷ 0x18 ∷ 25 ∷ 0x77 ∷ []) ++ codes "devices/demo/commands/x"

abbrev history : List Step
history =
    call mqtt_publish publish_request 64
    ∷ change connected none
    ∷ call mqtt_publish publish_request 64
    ∷ call mqtt_subscribe subscribe_request 64
    ∷ []

abbrev after : Net × EventQueue
after = run history ((net_init (some builtin) net_off).1, init)

published_once : after.0.status.publish_count ≡ 1
unfolding run find_u32 find_item read_type_value read_item net_init find_resource_by_id find_text
    find_bytes find_network_by_id
published_once = refl

abbrev other_hooks : Hooks Net
other_hooks = record { authorizer = none; gpio_write = none; gpio_read = none; net = none }

abbrev net_state : State (record other_hooks { net = some net_host_call })
net_state = record { host = host_init; world = net_off }

abbrev net_memory : GuestMemory
net_memory = record { base = some (replicate 40 0); max_request_bytes = 0; max_response_bytes = 0 }
