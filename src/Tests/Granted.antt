-- ===== src/Tests/Granted.antt =====
-- A bundle that may set the relay twice a second.
use pulse_esp32_host.Base.{
  ℕ, ◌≡◌, refl, true, false, List, [], ◌∷◌, some, wdc_ok, err, capability_denied, replicate, codes,
}
use pulse_esp32_host.Cbor.Find.{find_u32, find_item, find_bytes}
use pulse_esp32_host.Cbor.Read.{read_type_value, read_item}
use pulse_esp32_host.Profile.Defs.{kind_gpio, kind_network, find_resource_by_id}
use pulse_esp32_host.Profile.Builtin.{builtin}
use pulse_esp32_host.HostCall.Opcode.{Opcode}
use pulse_esp32_host.Caps.Defs.{op_write, op_publish, Capability, CapabilitySet}
use pulse_esp32_host.Caps.Authorize.{CapsState, decide}
use pulse_esp32_host.Caps.Granted.{to_publish, IsGranted, allowed-IsGranted}

abbrev relay_capability : Capability
relay_capability = record {
  capability_id = 1;
  kind = kind_gpio;
  resource_id = 1;
  resource_name = some (codes "relay_1");
  ops = op_write;
  max_payload_bytes = 0;
  max_rate_hz = 2;
}

abbrev relay_set : CapabilitySet
relay_set = record {
  bundle_id = some (codes "relay_demo");
  bundle_version = 1;
  capabilities = some (relay_capability ∷ []);
}

abbrev relay_caps : CapsState
relay_caps = record {
  authorizer = record {
    profile = some builtin;
    capability_set = some relay_set;
    last_allowed_ms = replicate 16 0;
    rate_seen = replicate 16 false;
  };
  audit = record {
    bundle_version = 0;
    opcode = Opcode.gpio_set;
    resource_id = 0;
    result = err capability_denied;
    payload_len = 0;
    payload_limit = 0;
    rate_limit_hz = 0;
    now_ms = 0;
    next_allowed_ms = 0;
  };
}

-- The relay on.
abbrev relay_on : List ℕ
relay_on = 0xa2 ∷ 3 ∷ 1 ∷ 4 ∷ 0xf5 ∷ []

-- {3: 20, 9: two bytes}
abbrev publish_data : List ℕ
publish_data = 0xa2 ∷ 3 ∷ 20 ∷ 9 ∷ 0x42 ∷ 7 ∷ 8 ∷ []

abbrev telemetry_capability : Capability
telemetry_capability = record relay_capability {
  kind = kind_network;
  resource_id = 20;
  resource_name = some (codes "mqtt_telemetry");
  ops = op_publish;
  max_payload_bytes = 2;
}

abbrev telemetry_caps : CapsState
telemetry_caps = record relay_caps {
  authorizer = record relay_caps.authorizer {
    capability_set =
        some
          (record relay_set { capabilities = some (relay_capability ∷ telemetry_capability ∷ []) });
  };
}

publish_allowed : (decide 1000 Opcode.mqtt_publish publish_data telemetry_caps).0 ≡ wdc_ok
unfolding decide find_u32 find_item read_type_value read_item find_resource_by_id find_bytes
publish_allowed = refl

allowed-IsGranted_example : IsGranted telemetry_caps kind_network op_publish true publish_data
allowed-IsGranted_example =
    allowed-IsGranted 1000 Opcode.mqtt_publish kind_network op_publish true publish_data
      telemetry_caps to_publish publish_allowed
