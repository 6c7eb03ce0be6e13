-- ===== src/Profile/Builtin.antt =====
-- The built-in profile of wdc_profile_static.c, that wdc_profile_builtin answers.
use pulse_esp32_host.Base.{true, false, [], ◌∷◌, none, some, pos, codes}
use pulse_esp32_host.Profile.Defs.{
  DeviceProfile, input_pullup, output, kind_gpio, kind_sensor, kind_network, kind_storage,
}

abbrev pub builtin : DeviceProfile
builtin = record {
  device_class = some (codes "relay-node");
  hardware = some (codes "esp32-s3");
  board_rev = some (codes "c");
  resources = some (
      record { resource_id = 1; kind = kind_gpio; name = some (codes "relay_1") }
      ∷ record { resource_id = 2; kind = kind_gpio; name = some (codes "status_led") }
      ∷ record { resource_id = 3; kind = kind_gpio; name = some (codes "button_1") }
      ∷ record { resource_id = 10; kind = kind_sensor; name = some (codes "temp_ambient") }
      ∷ record { resource_id = 20; kind = kind_network; name = some (codes "mqtt_telemetry") }
      ∷ record { resource_id = 21; kind = kind_network; name = some (codes "mqtt_commands") }
      ∷ record { resource_id = 22; kind = kind_network; name = some (codes "http_api") }
      ∷ record { resource_id = 30; kind = kind_storage; name = some (codes "app_state") }
      ∷ []);
  gpio = some (
      record {
        resource_id = 1;
        name = some (codes "relay_1");
        pin = pos 12;
        mode = output;
        active_level = pos 1;
        safe_level = pos 0;
        apply_safe_level = true;
      }
      ∷ record {
        resource_id = 2;
        name = some (codes "status_led");
        pin = pos 48;
        mode = output;
        active_level = pos 0;
        safe_level = pos 1;
        apply_safe_level = true;
      }
      ∷ record {
        resource_id = 3;
        name = some (codes "button_1");
        pin = pos 0;
        mode = input_pullup;
        active_level = pos 0;
        safe_level = pos 1;
        apply_safe_level = false;
      }
      ∷ []);
  network = some (
      record {
        resource_id = 20;
        name = some (codes "mqtt_telemetry");
        mqtt_topic_prefix = some (codes "devices/demo/telemetry");
        mqtt_subscribe_prefix = none;
        http_url_prefix = none;
        http_methods_csv = none;
        max_payload_bytes = 512;
      }
      ∷ record {
        resource_id = 21;
        name = some (codes "mqtt_commands");
        mqtt_topic_prefix = none;
        mqtt_subscribe_prefix = some (codes "devices/demo/commands/");
        http_url_prefix = none;
        http_methods_csv = none;
        max_payload_bytes = 256;
      }
      ∷ record {
        resource_id = 22;
        name = some (codes "http_api");
        mqtt_topic_prefix = none;
        mqtt_subscribe_prefix = none;
        http_url_prefix = some (codes "https://api.example.invalid/devices/demo/");
        http_methods_csv = some (codes "GET,POST");
        max_payload_bytes = 1024;
      }
      ∷ []);
}
