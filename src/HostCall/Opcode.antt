-- ===== src/HostCall/Opcode.antt =====
-- WdcHostOpcode of wdc_abi.h and the tests on it in wdc_host_call.c.
use pulse_esp32_host.Base.{ℕ, Bool, true, false, ◌||◌}

-- `other_opcode` is a number outside the enum.
pub data Opcode : Type 0 where
  sys_get_info sys_get_metric time_get : Opcode
  timer_set timer_cancel : Opcode
  config_get config_set config_delete : Opcode
  gpio_get gpio_set gpio_subscribe : Opcode
  sensor_read sensor_subscribe i2c_transfer : Opcode
  net_status mqtt_publish mqtt_subscribe http_request : Opcode
  ble_set_value ble_notify ble_advertise_set : Opcode
  kv_get kv_set kv_delete : Opcode
  other_opcode : ℕ → Opcode

unfoldable pub opcode_known : Opcode → Bool
opcode_known (other_opcode n) = false
opcode_known _ = true

unfoldable pub opcode_supported_r3 : Opcode → Bool
opcode_supported_r3 sys_get_info = true
opcode_supported_r3 timer_set = true
opcode_supported_r3 timer_cancel = true
opcode_supported_r3 config_get = true
opcode_supported_r3 config_set = true
opcode_supported_r3 gpio_get = true
opcode_supported_r3 gpio_set = true
opcode_supported_r3 _ = false

abbrev is_config_delete : Opcode → Bool
is_config_delete config_delete = true
is_config_delete _ = false

abbrev is_gpio_subscribe : Opcode → Bool
is_gpio_subscribe gpio_subscribe = true
is_gpio_subscribe _ = false

unfoldable pub opcode_supported_r4 : Opcode → Bool
unfolding opcode_supported_r3
opcode_supported_r4 op = opcode_supported_r3 op || is_config_delete op || is_gpio_subscribe op

abbrev is_network : Opcode → Bool
is_network net_status = true
is_network mqtt_publish = true
is_network mqtt_subscribe = true
is_network http_request = true
is_network _ = false

unfoldable pub opcode_supported_r8 : Opcode → Bool
unfolding opcode_supported_r4
opcode_supported_r8 op = opcode_supported_r4 op || is_network op

unfoldable pub opcode_safe_without_authorizer : Opcode → Bool
opcode_safe_without_authorizer sys_get_info = true
opcode_safe_without_authorizer net_status = true
opcode_safe_without_authorizer _ = false
