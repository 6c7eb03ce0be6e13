-- ===== src/Net/Steps.antt =====
-- The other operations of wdc_net.c: the start, the changes of the connection and their events.
use pulse_esp32_host.Base.{
  ℕ, Bool, true, false, not, List, Option, none, some, Result, Status, ok, err, bad_pointer,
  invalid_state, ◌==◌, if◌then◌else◌, length, take, Text, [],
}
use pulse_esp32_host.Profile.Defs.{DeviceProfile}
use pulse_esp32_host.Events.Event.{Event, make, payload_max, resource_none}
use pulse_esp32_host.Events.Queue.{EventQueue, push}
use pulse_esp32_host.Net.Defs.{NetState, disconnected, connected, blank_status, Net}

-- WDC_EVENT_NET_CONNECTED and WDC_EVENT_NET_DISCONNECTED
abbrev pub event_net_connected : ℕ
event_net_connected = 0x0801

abbrev pub event_net_disconnected : ℕ
event_net_disconnected = 0x0802

-- wdc_net_init; it installs the calls of this component as the network hook.
unfoldable pub net_init : Option DeviceProfile → Net → Status × Net
net_init none n = (err bad_pointer, n)
net_init (some profile) n = (
  ok tt,
  record {
    profile = some profile;
    status = record blank_status {
      state = disconnected;
      initialized = true;
      next_request_id = 1;
      last_status = ok tt;
    };
  },
)

abbrev reason_bytes : Option Text → List ℕ
reason_bytes none = []
reason_bytes (some reason) = take payload_max reason

abbrev payload_or_null : List ℕ → Option (List ℕ)
payload_or_null payload = if length payload == 0 then none else some payload

abbrev post_made : Result Event → EventQueue → EventQueue
unfolding push
post_made (ok e) q = (push q (some e)).1
post_made (err x) q = q

-- post_network_state_event
unfoldable pub post_network_state_event : ℕ → Option Text → EventQueue → EventQueue
unfolding make post_made
post_network_state_event event_type reason q =
    let payload = reason_bytes reason in
    post_made (make event_type resource_none 0 (payload_or_null payload) (length payload)) q

abbrev is_connected_state : NetState → Bool
is_connected_state connected = true
is_connected_state _ = false

abbrev differ : Bool → Bool → Bool
differ true b = not b
differ false b = b

-- wdc_net_set_state
unfoldable pub net_set_state : NetState → Option Text → Net → EventQueue → Status × Net × EventQueue
unfolding post_network_state_event
net_set_state state reason n q =
    let now = is_connected_state state in
    let n' = record n {
      status = record n.status { state = state; is_connected = now; last_status = ok tt };
    } in
    let event_type = if now then event_net_connected else event_net_disconnected in
    if not n.status.initialized
    then (err invalid_state, n, q)
    else if differ n.status.is_connected now
    then (ok tt, n', post_network_state_event event_type reason q)
    else (ok tt, n', q)

-- wdc_net_set_connected
unfoldable pub net_set_connected : Bool → Option Text → Net → EventQueue → Status × Net × EventQueue
unfolding net_set_state
net_set_connected on reason n q = net_set_state (if on then connected else disconnected) reason n q

-- wdc_net_install_host_bridge: the profile that the hook works on
unfoldable pub install_host_bridge : Option DeviceProfile → Net → Status × Net
install_host_bridge (some profile) n = (ok tt, record n { profile = some profile })
install_host_bridge none n = elim n.profile [
  | none ↦ (err bad_pointer, n)
  | some profile ↦ (ok tt, n)
]
