-- ===== src/Caps/Defs.antt =====
-- Capabilities, the audit record and the checks of wdc_caps.c.
-- The texts of the audit record, which are for logs, are left out.
use Prim.Native.Nat.{bit_and}
use pulse_esp32_host.Base.{
  ℕ, ◌-◌, Bool, false, not, ◌&&◌, List, [], ◌∷◌, Option, none, some, Result, Status, ok, err,
  wdc_ok, not_available, bad_encoding, bad_length, invalid_resource, capability_denied, ltb, ◌==◌,
  if◌then◌else◌, length, take, Text, text_eq, starts_with,
}
use pulse_esp32_host.Cbor.Find.{find_bytes}
use pulse_esp32_host.Profile.Defs.{
  DeviceProfile, ProfileResource, find_resource_by_id, has_kind, kind_config, elems, first,
}
use pulse_esp32_host.HostCall.Opcode.{Opcode, config_set, mqtt_publish, http_request}
use pulse_esp32_host.HostCall.Response.{key_data}
use pulse_esp32_host.HostCall.Store.{find_index}

-- WDC_CAP_OP_READ, _WRITE, _SUBSCRIBE, _PUBLISH and _REQUEST
abbrev pub op_read : ℕ
op_read = 1

abbrev pub op_write : ℕ
op_write = 2

abbrev pub op_subscribe : ℕ
op_subscribe = 4

abbrev pub op_publish : ℕ
op_publish = 8

abbrev pub op_request : ℕ
op_request = 16

-- WDC_CAPS_MAX_CAPABILITIES
abbrev pub max_capabilities : ℕ
max_capabilities = 16

pub record Capability : Type 0 where
  pub capability_id : ℕ
  pub kind : ℕ
  pub resource_id : ℕ
  pub resource_name : Option Text
  pub ops : ℕ
  pub max_payload_bytes : ℕ
  pub max_rate_hz : ℕ

-- `none` is a NULL array.
pub record CapabilitySet : Type 0 where
  pub bundle_id : Option Text
  pub bundle_version : ℕ
  pub capabilities : Option (List Capability)

pub record Audit : Type 0 where
  pub bundle_version : ℕ
  pub opcode : Opcode
  pub resource_id : ℕ
  pub result : Status
  pub payload_len : ℕ
  pub payload_limit : ℕ
  pub rate_limit_hz : ℕ
  pub now_ms : ℕ
  pub next_allowed_ms : ℕ

pub record Authorizer : Type 0 where
  pub profile : Option DeviceProfile
  pub capability_set : Option CapabilitySet
  pub last_allowed_ms : List ℕ
  pub rate_seen : List Bool

abbrev set_version : Option CapabilitySet → ℕ
set_version none = 0
set_version (some s) = elim s.bundle_id [ none ↦ 0 | some t ↦ s.bundle_version ]

unfoldable pub audit_reset : Option CapabilitySet → Opcode → ℕ → Audit
audit_reset s opcode resource_id = record {
  bundle_version = set_version s;
  opcode = opcode;
  resource_id = resource_id;
  result = wdc_ok;
  payload_len = 0;
  payload_limit = 0;
  rate_limit_hz = 0;
  now_ms = 0;
  next_allowed_ms = 0;
}

abbrev pub audit_decision : Audit → Status → Audit
audit_decision a result = record a { result = result }

abbrev pub has_op : ℕ → ℕ → Bool
has_op ops op = not (bit_and ops op == 0)

abbrev pub grants_resource : ℕ → ℕ → ℕ → Capability → Bool
grants_resource kind op resource_id c =
    c.kind == kind && c.resource_id == resource_id && has_op c.ops op

-- A set with an array.
abbrev pub given_capabilities : Option CapabilitySet → Option (List Capability)
given_capabilities none = none
given_capabilities (some s) = s.capabilities

abbrev pub caps_of : Option CapabilitySet → List Capability
caps_of s = elems (given_capabilities s)

-- The loop over the capabilities, with the limits of the one that grants; without a set there is none.
unfoldable pub grant : Option Capability → Audit → Status × Audit
grant none a = (err capability_denied, audit_decision a (err capability_denied))
grant (some c) a = (
  ok tt,
  record a { payload_limit = c.max_payload_bytes; rate_limit_hz = c.max_rate_hz; result = wdc_ok },
)

abbrev pub resource_of : Option DeviceProfile → ℕ → Option ProfileResource
resource_of none id = none
resource_of (some p) id = find_resource_by_id p id

unfoldable pub check_resource :
    Option CapabilitySet → Option DeviceProfile → Opcode → ℕ → ℕ → ℕ → Status × Audit
unfolding grant audit_reset
check_resource s profile opcode kind op resource_id =
    let a = audit_reset s opcode resource_id in
    if not (has_kind kind (resource_of profile resource_id))
    then (err invalid_resource, audit_decision a (err invalid_resource))
    else grant (first (grants_resource kind op resource_id) (caps_of s)) a

-- A pattern that ends in ".*" matches the keys that start with what is before the star.
abbrev pub ends_in_wildcard : Text → Bool
ends_in_wildcard [] = false
ends_in_wildcard (x ∷ []) = false
ends_in_wildcard (x ∷ y ∷ []) = x == 46 && y == 42
ends_in_wildcard (x ∷ y ∷ z ∷ rest) = ends_in_wildcard (y ∷ z ∷ rest)

unfoldable pub config_name_matches : Option Text → Text → Bool
config_name_matches none key = false
config_name_matches (some pattern) key =
    if ends_in_wildcard pattern
    then starts_with (take (length pattern - 1) pattern) key
    else text_eq pattern key

abbrev pub grants_config : ℕ → Text → Capability → Bool
grants_config op key c =
    c.kind == kind_config && has_op c.ops op && config_name_matches c.resource_name key

-- The key is not NULL, since it lies in the request.
unfoldable pub check_config_key : Option CapabilitySet → Opcode → ℕ → Text → Status × Audit
unfolding grant audit_reset
check_config_key s opcode op key =
    let a = audit_reset s opcode 0 in
    if length key == 0
    then (err bad_encoding, audit_decision a (err bad_encoding))
    else grant (first (grants_config op key) (caps_of s)) a

abbrev pub found_len : Result (List ℕ) → Result ℕ
found_len (ok payload) = ok (length payload)
found_len (err not_available) = ok 0
found_len (err _) = err bad_encoding

abbrev payload_of : List ℕ → Result ℕ
payload_of req = found_len (find_bytes req key_data)

unfoldable pub request_payload_len : Opcode → List ℕ → Result ℕ
request_payload_len config_set req = payload_of req
request_payload_len mqtt_publish req = payload_of req
request_payload_len http_request req = payload_of req
request_payload_len _ req = ok 0

unfoldable pub enforce_payload_limit : Opcode → List ℕ → Audit → Status × Audit
unfolding request_payload_len
enforce_payload_limit opcode req a =
    if a.payload_limit == 0 then (ok tt, a) else elim (request_payload_len opcode req) [
      | err e ↦ (err e, audit_decision a (err e))
      | ok len ↦
          let a' = record a { payload_len = len } in
          if ltb a.payload_limit len
          then (err bad_length, audit_decision a' (err bad_length))
          else (ok tt, a')
    ]

unfoldable pub find_resource_capability_index : Option CapabilitySet → ℕ → ℕ → ℕ → Option ℕ
find_resource_capability_index s kind op resource_id =
    find_index (grants_resource kind op resource_id) (take max_capabilities (caps_of s))

unfoldable pub find_config_capability_index : Option CapabilitySet → ℕ → Text → Option ℕ
find_config_capability_index s op key =
    find_index (grants_config op key) (take max_capabilities (caps_of s))
