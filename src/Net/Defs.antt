-- ===== src/Net/Defs.antt =====
-- WdcNetStatus and the checks of wdc_net.c. A text in an operation is the bytes that were copied.
use pulse_esp32_host.Base.{
  ℕ, Bool, true, false, not, ◌&&◌, ◌||◌, List, [], ◌∷◌, Option, none, some, Result, Status, ok, err,
  wdc_ok, ◌>>=◌, ◌>>◌, guard, or_bad, or_missing, bad_length, invalid_resource, invalid_state, leb,
  ◌==◌, if◌then◌else◌, length, Text, text_eq, starts_with,
}
use pulse_esp32_host.Cbor.Find.{find_u32, find_bytes}
use pulse_esp32_host.Profile.Defs.{
  DeviceProfile, NetworkResource, ProfileResource, has_kind, kind_network, find_resource_by_id,
  find_network_by_id,
}
use pulse_esp32_host.HostCall.Response.{key_resource_id, key_data}

-- WdcNetState
pub data NetState : Type 0 where
  uninitialized disconnected connected degraded : NetState
  other_net_state : ℕ → NetState

-- WdcNetOperation
pub record NetOperation : Type 0 where
  pub resource_id : ℕ
  pub request_id : ℕ
  pub payload_len : ℕ
  pub qos : ℕ
  pub topic : Text
  pub method : Text
  pub url : Text

abbrev pub no_operation : NetOperation
no_operation = record {
  resource_id = 0;
  request_id = 0;
  payload_len = 0;
  qos = 0;
  topic = [];
  method = [];
  url = [];
}

pub record NetStatus : Type 0 where
  pub state : NetState
  pub initialized : Bool
  pub is_connected : Bool
  pub next_request_id : ℕ
  pub last_request_id : ℕ
  pub publish_count : ℕ
  pub subscribe_count : ℕ
  pub http_request_count : ℕ
  pub denied_disconnected_count : ℕ
  pub rejected_count : ℕ
  pub last_status : Status
  pub last_publish : NetOperation
  pub last_subscribe : NetOperation
  pub last_http_request : NetOperation

abbrev pub blank_status : NetStatus
blank_status = record {
  state = uninitialized;
  initialized = false;
  is_connected = false;
  next_request_id = 0;
  last_request_id = 0;
  publish_count = 0;
  subscribe_count = 0;
  http_request_count = 0;
  denied_disconnected_count = 0;
  rejected_count = 0;
  last_status = wdc_ok;
  last_publish = no_operation;
  last_subscribe = no_operation;
  last_http_request = no_operation;
}

-- s_profile and s_status
pub record Net : Type 0 where
  pub profile : Option DeviceProfile
  pub status : NetStatus

-- WDC_NET_TOPIC_MAX_BYTES, _METHOD_MAX_BYTES, _URL_MAX_BYTES and _PAYLOAD_MAX_BYTES
abbrev pub topic_max : ℕ
topic_max = 96

abbrev pub method_max : ℕ
method_max = 8

abbrev pub url_max : ℕ
url_max = 160

abbrev pub net_payload_max : ℕ
net_payload_max = 1024

-- WDC_CBOR_KEY_TOPIC and the other keys of network calls
abbrev pub key_connected : ℕ
key_connected = 24

abbrev pub key_topic : ℕ
key_topic = 25

abbrev pub key_qos : ℕ
key_qos = 26

abbrev pub key_request_id : ℕ
key_request_id = 28

abbrev pub key_method : ℕ
key_method = 29

abbrev pub key_url : ℕ
key_url = 30

abbrev pub key_http_status : ℕ
key_http_status = 31

abbrev pub key_network_state : ℕ
key_network_state = 32

abbrev pub key_pending_count : ℕ
key_pending_count = 35

-- copy_text: whether the text fits its array with a NUL
unfoldable pub copy_text : ℕ → Text → Result Text
copy_text out_cap text =
    if length text == 0 || leb out_cap (length text) then err bad_length else ok text

abbrev pub resource_in : Option DeviceProfile → ℕ → Option ProfileResource
resource_in none id = none
resource_in (some p) id = find_resource_by_id p id

abbrev pub resource_is_network : Option DeviceProfile → ℕ → Bool
resource_is_network profile id = has_kind kind_network (resource_in profile id)

unfoldable pub parse_network_resource : Option DeviceProfile → List ℕ → Result ℕ
parse_network_resource profile req = or_bad (find_u32 req key_resource_id) >>= λ id.
    guard (resource_is_network profile id) invalid_resource >> ok id

abbrev pub or_invalid_resource : Option NetworkResource → Result NetworkResource
or_invalid_resource none = err invalid_resource
or_invalid_resource (some n) = ok n

unfoldable pub network_policy_for : Option DeviceProfile → ℕ → Result NetworkResource
network_policy_for none id = err invalid_state
network_policy_for (some p) id = or_invalid_resource (find_network_by_id p id)

-- text_has_prefix; a prefix that is NULL or empty fits nothing.
abbrev pub text_has_prefix : Text → Option Text → Bool
text_has_prefix text none = false
text_has_prefix text (some []) = false
text_has_prefix text (some (p ∷ ps)) = starts_with (p ∷ ps) text

-- The bytes before the next comma, and those without the spaces at their end.
abbrev until_comma : Text → Text
until_comma [] = []
until_comma (x ∷ xs) = if x == 44 then [] else x ∷ until_comma xs

abbrev pub cons_unless_space : ℕ → Text → Text
cons_unless_space x [] = if x == 32 then [] else x ∷ []
cons_unless_space x (y ∷ ys) = x ∷ y ∷ ys

abbrev trim_end : Text → Text
trim_end [] = []
trim_end (x ∷ xs) = cons_unless_space x (trim_end xs)

-- The loop of method_allowed: at a start it passes over commas and spaces and compares the entry that
-- stands there; within an entry it goes on to the next comma.
unfoldable pub method_loop : Text → Bool → Text → Bool
method_loop method at_start [] = false
method_loop method true (x ∷ xs) =
    let next = method_loop method true xs in
    let within = method_loop method false xs in
    if x == 44 || x == 32 then next else text_eq (trim_end (until_comma (x ∷ xs))) method || within
method_loop method false (x ∷ xs) =
    let next = method_loop method true xs in
    let within = method_loop method false xs in if x == 44 then next else within

unfoldable pub method_allowed : Text → Option Text → Bool
unfolding method_loop
method_allowed method none = false
method_allowed method (some csv) = not (length method == 0) && method_loop method true csv

-- The length of the payload of a request, which may be missing.
abbrev pub payload_len_of : List ℕ → Result ℕ
payload_len_of req = or_missing (find_bytes req key_data >>= λ payload. ok (length payload)) 0
