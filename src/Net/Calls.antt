-- ===== src/Net/Calls.antt =====
-- The network calls of wdc_net.c on its state.
use pulse_esp32_host.Base.{
  ℕ, ◌+◌, not, ◌&&◌, List, Option, Result, Status, ok, err, Error, wdc_ok, ◌>>=◌, ◌>>◌, guard,
  or_bad, or_missing, bad_encoding, bad_length, capability_denied, invalid_state, not_synchronized,
  response_too_small, unsupported_opcode, leb, ◌==◌, if◌then◌else◌, status_code, Text, u32,
}
use pulse_esp32_host.Cbor.Build.{
  Builder, builder_init, begin_map, put_key_i32, put_key_uint, put_key_bool,
}
use pulse_esp32_host.Cbor.Find.{find_u32, find_text}
use pulse_esp32_host.Profile.Defs.{DeviceProfile, NetworkResource}
use pulse_esp32_host.HostCall.Opcode.{
  Opcode, net_status, mqtt_publish, mqtt_subscribe, http_request,
}
use pulse_esp32_host.HostCall.Response.{key_status, finish, response_status}
use pulse_esp32_host.Net.Defs.{
  NetState, uninitialized, disconnected, connected, degraded, other_net_state, NetStatus, Net,
  topic_max, method_max, url_max, net_payload_max, key_connected, key_topic, key_qos,
  key_request_id, key_method, key_url, key_http_status, key_network_state, key_pending_count,
  copy_text, parse_network_resource, network_policy_for, text_has_prefix, method_allowed,
  payload_len_of,
}

abbrev pub Answer : Type 0
Answer = Result (List ℕ) × Net

abbrev pub state_number : NetState → ℕ
state_number uninitialized = 0
state_number disconnected = 1
state_number connected = 2
state_number degraded = 3
state_number (other_net_state n) = n

-- The two keys of an answer with a request id.
abbrev pub id_answer : ℕ → ℕ → ℕ → Result Builder
id_answer pairs cap request_id =
    (begin_map pairs (builder_init cap) >>= put_key_i32 key_status (status_code wdc_ok))
    >>= put_key_uint key_request_id request_id

-- write_net_status_response
unfoldable pub net_status_response : ℕ → NetStatus → Result (List ℕ)
net_status_response cap s = finish (
    ((((begin_map 5 (builder_init cap) >>= put_key_i32 key_status (status_code wdc_ok))
          >>= put_key_bool key_connected s.is_connected)
        >>= put_key_uint key_network_state (state_number s.state))
      >>= put_key_uint key_pending_count (u32 (s.http_request_count + s.subscribe_count)))
    >>= put_key_uint key_request_id s.last_request_id)

-- reject_policy
unfoldable pub reject : Error → ℕ → Net → Answer
unfolding response_status
reject code cap n =
    let s = n.status in
    (
      response_status cap (err code),
      record n {
        status = record s { rejected_count = u32 (s.rejected_count + 1); last_status = err code };
      },
    )

-- What goes on with the value of a check, or rejects the call.
unfoldable pub checked : {A : Type 0} → Result A → ℕ → Net → (A → Answer) → Answer
unfolding reject
checked (ok a) cap n k = k a
checked (err e) cap n k = reject e cap n

unfoldable pub require_connected : Net → Status × Net
require_connected n =
    let s = n.status in
    if not s.initialized
    then (err invalid_state, n)
    else if not s.is_connected
    then (
      err not_synchronized,
      record n {
        status = record s {
          denied_disconnected_count = u32 (s.denied_disconnected_count + 1);
          last_status = err not_synchronized;
        };
      },
    )
    else (ok tt, n)

unfoldable pub when_connected : ℕ → Status × Net → (Net → Answer) → Answer
unfolding response_status
when_connected cap (ok tt, n) k = k n
when_connected cap (err e, n) k = (response_status cap (err e), n)

unfoldable pub next_request_id : NetStatus → ℕ × NetStatus
next_request_id s =
    let id = if s.next_request_id == 0 then 1 else s.next_request_id in
    (id, record s { next_request_id = u32 (id + 1); last_request_id = id })

-- The checks of a publish behind the lookup of its topic, in their order.
unfoldable pub publish_under : List ℕ → Text → ℕ → NetworkResource → Result (Text × ℕ × ℕ)
unfolding copy_text
publish_under req topic len policy =
    guard (text_has_prefix topic policy.mqtt_topic_prefix) capability_denied
    >> (guard (leb len policy.max_payload_bytes) bad_length
        >> (or_missing (find_u32 req key_qos) 0 >>= λ qos.
            guard (leb qos 2) bad_encoding
            >> (copy_text topic_max topic >>= λ copied. ok (copied, len, qos))))

unfoldable pub check_publish : Option DeviceProfile → ℕ → List ℕ → Result (Text × ℕ × ℕ)
unfolding network_policy_for publish_under
check_publish profile id req = or_bad (find_text req key_topic) >>= λ topic.
    payload_len_of req >>= λ len.
    guard (leb len net_payload_max) bad_length
    >> (network_policy_for profile id >>= publish_under req topic len)

unfoldable pub published : ℕ → ℕ → Net → Text × ℕ × ℕ → Answer
unfolding next_request_id
published cap id n (topic, len, qos) =
    let (request_id, s) = next_request_id n.status in
    let operation = record s.last_publish {
      topic = topic;
      resource_id = id;
      request_id = request_id;
      payload_len = len;
      qos = qos;
    } in
    (
      finish (id_answer 2 cap request_id),
      record n {
        status = record s {
          last_publish = operation;
          publish_count = u32 (s.publish_count + 1);
          last_status = ok tt;
        };
      },
    )

unfoldable pub mqtt_publish_call : List ℕ → ℕ → Net → Answer
unfolding parse_network_resource checked when_connected require_connected check_publish published
mqtt_publish_call req cap n = checked (parse_network_resource n.profile req) cap n λ id.
    when_connected cap (require_connected n)
      λ n. checked (check_publish n.profile id req) cap n (published cap id n)

unfoldable pub subscribe_under : Text → NetworkResource → Result Text
unfolding copy_text
subscribe_under topic policy =
    guard (text_has_prefix topic policy.mqtt_subscribe_prefix) capability_denied
    >> copy_text topic_max topic

unfoldable pub check_subscribe : Option DeviceProfile → ℕ → List ℕ → Result Text
unfolding network_policy_for subscribe_under
check_subscribe profile id req = or_bad (find_text req key_topic) >>= λ topic.
    network_policy_for profile id >>= subscribe_under topic

unfoldable pub subscribed : ℕ → ℕ → Net → Text → Answer
unfolding next_request_id
subscribed cap id n topic =
    let (request_id, s) = next_request_id n.status in
    let operation = record s.last_subscribe {
      topic = topic;
      resource_id = id;
      request_id = request_id;
    } in
    (
      finish (id_answer 2 cap request_id),
      record n {
        status = record s {
          last_subscribe = operation;
          subscribe_count = u32 (s.subscribe_count + 1);
          last_status = ok tt;
        };
      },
    )

unfoldable pub mqtt_subscribe_call : List ℕ → ℕ → Net → Answer
unfolding parse_network_resource checked when_connected require_connected check_subscribe subscribed
mqtt_subscribe_call req cap n = checked (parse_network_resource n.profile req) cap n λ id.
    when_connected cap (require_connected n)
      λ n. checked (check_subscribe n.profile id req) cap n (subscribed cap id n)

unfoldable pub http_under : Text → Text → ℕ → NetworkResource → Result (Text × Text × ℕ)
unfolding method_allowed
http_under method url len policy =
    guard
      (text_has_prefix url policy.http_url_prefix && method_allowed method policy.http_methods_csv)
      capability_denied
    >> (guard (leb len policy.max_payload_bytes) bad_length >> ok (method, url, len))

unfoldable pub check_http : Option DeviceProfile → ℕ → List ℕ → Result (Text × Text × ℕ)
unfolding network_policy_for http_under
check_http profile id req = or_bad (find_text req key_method) >>= λ method.
    or_bad (find_text req key_url) >>= λ url. payload_len_of req >>= λ len.
    guard (leb len net_payload_max) bad_length
    >> (network_policy_for profile id >>= http_under method url len)

unfoldable pub requested : ℕ → ℕ → ℕ → Net → Text → Answer
unfolding next_request_id
requested cap id len n url =
    let (request_id, s) = next_request_id n.status in
    let operation = record s.last_http_request {
      url = url;
      resource_id = id;
      request_id = request_id;
      payload_len = len;
    } in
    (
      finish (id_answer 3 cap request_id >>= put_key_uint key_http_status 202),
      record n {
        status = record s {
          last_http_request = operation;
          http_request_count = u32 (s.http_request_count + 1);
          last_status = ok tt;
        };
      },
    )

-- The method that was copied stays when the URL does not fit.
abbrev pub set_method : Net → Text → Net
set_method n method =
    let s = n.status in
    record n {
      status = record s { last_http_request = record s.last_http_request { method = method } };
    }

unfoldable pub copy_request : ℕ → ℕ → Net → Text × Text × ℕ → Answer
unfolding checked copy_text requested
copy_request cap id n (method, url, len) = checked (copy_text method_max method) cap n λ method.
    let n' = set_method n method in checked (copy_text url_max url) cap n' (requested cap id len n')

unfoldable pub http_request_call : List ℕ → ℕ → Net → Answer
unfolding parse_network_resource checked when_connected require_connected check_http copy_request
http_request_call req cap n = checked (parse_network_resource n.profile req) cap n λ id.
    when_connected cap (require_connected n)
      λ n. checked (check_http n.profile id req) cap n (copy_request cap id n)

unfoldable pub run_opcode : Opcode → List ℕ → ℕ → Net → Answer
unfolding net_status_response mqtt_publish_call mqtt_subscribe_call http_request_call
run_opcode net_status req cap n = (net_status_response cap n.status, n)
run_opcode mqtt_publish req cap n = mqtt_publish_call req cap n
run_opcode mqtt_subscribe req cap n = mqtt_subscribe_call req cap n
run_opcode http_request req cap n = http_request_call req cap n
run_opcode _ req cap n = (err unsupported_opcode, n)

-- wdc_net_host_call; the response is not NULL.
unfoldable pub net_host_call : Opcode → List ℕ → ℕ → Net → Answer
unfolding run_opcode
net_host_call opcode req cap n =
    if cap == 0 then (err response_too_small, n) else run_opcode opcode req cap n
