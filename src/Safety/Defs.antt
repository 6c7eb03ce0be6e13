-- ===== src/Safety/Defs.antt =====
-- The state of wdc_safety.c with what its functions act on: the GPIO layer, the event queue, the log
-- and what is installed in the host calls.
use pulse_esp32_host.Base.{ℕ, Bool, true, false, [], Option, ℤ, pos, Text, codes}
use pulse_esp32_host.Events.Queue.{EventQueue}
use pulse_esp32_host.Profile.Defs.{DeviceProfile}
use pulse_esp32_host.Gpio.Driver.{Driver}
use pulse_esp32_host.Gpio.Hal.{Gpio}
use pulse_esp32_host.Diag.Log.{Diag}
use pulse_esp32_host.HostCall.Opcode.{Opcode}
use pulse_esp32_host.Caps.Authorize.{CapsState}

pub data SafetyState : Type 0 where
  uninitialized boot_safe no_bundle app_running app_fault_stopped : SafetyState

pub data FaultKind : Type 0 where
  fault_none fault_no_bundle runtime_trap runtime_non_ok contract_violation host_io manual :
      FaultKind

-- WdcRuntimeOutcome of wdc_runtime.h, of which a report tells the outcome alone.
pub data RuntimeOutcome : Type 0 where
  not_started outcome_ok runtime_init_failed bundle_load_failed instantiate_failed : RuntimeOutcome
  exec_env_failed export_missing guest_trapped guest_non_ok_status : RuntimeOutcome
  invalid_payload invalid_runtime_state : RuntimeOutcome

pub record SafetyStatus : Type 0 where
  pub state : SafetyState
  pub last_fault_kind : FaultKind
  pub last_fault_status : ℤ
  pub last_runtime_outcome : RuntimeOutcome
  pub safe_defaults_applied : ℕ
  pub safe_force_count : ℕ
  pub fault_count : ℕ
  pub denied_while_stopped_count : ℕ
  pub denied_by_capability_count : ℕ
  pub denied_by_rate_limit_count : ℕ
  pub last_fault_event_id : ℕ
  pub physical_outputs_safe : Bool
  pub active_bundle : Text
  pub active_bundle_version : ℕ
  pub last_fault_reason : Text

abbrev pub blank_status : SafetyStatus
blank_status = record {
  state = uninitialized;
  last_fault_kind = fault_none;
  last_fault_status = pos 0;
  last_runtime_outcome = not_started;
  safe_defaults_applied = 0;
  safe_force_count = 0;
  fault_count = 0;
  denied_while_stopped_count = 0;
  denied_by_capability_count = 0;
  denied_by_rate_limit_count = 0;
  last_fault_event_id = 0;
  physical_outputs_safe = false;
  active_bundle = [];
  active_bundle_version = 0;
  last_fault_reason = [];
}

abbrev pub state_number : SafetyState → ℕ
state_number uninitialized = 0
state_number boot_safe = 1
state_number no_bundle = 2
state_number app_running = 3
state_number app_fault_stopped = 4

abbrev pub fault_number : FaultKind → ℕ
fault_number fault_none = 0
fault_number fault_no_bundle = 1
fault_number runtime_trap = 2
fault_number runtime_non_ok = 3
fault_number contract_violation = 4
fault_number host_io = 5
fault_number manual = 6

abbrev pub outcome_number : RuntimeOutcome → ℕ
outcome_number not_started = 0
outcome_number outcome_ok = 1
outcome_number runtime_init_failed = 2
outcome_number bundle_load_failed = 3
outcome_number instantiate_failed = 4
outcome_number exec_env_failed = 5
outcome_number export_missing = 6
outcome_number guest_trapped = 7
outcome_number guest_non_ok_status = 8
outcome_number invalid_payload = 9
outcome_number invalid_runtime_state = 10

abbrev pub state_name : SafetyState → Text
state_name uninitialized = codes "uninitialized"
state_name boot_safe = codes "boot_safe"
state_name no_bundle = codes "no_bundle"
state_name app_running = codes "app_running"
state_name app_fault_stopped = codes "app_fault_stopped"

unfoldable pub effectful_when_stopped : Opcode → Bool
effectful_when_stopped Opcode.gpio_set = true
effectful_when_stopped Opcode.timer_set = true
effectful_when_stopped Opcode.timer_cancel = true
effectful_when_stopped Opcode.config_set = true
effectful_when_stopped Opcode.config_delete = true
effectful_when_stopped Opcode.mqtt_publish = true
effectful_when_stopped Opcode.mqtt_subscribe = true
effectful_when_stopped Opcode.http_request = true
effectful_when_stopped Opcode.ble_set_value = true
effectful_when_stopped Opcode.ble_notify = true
effectful_when_stopped Opcode.kv_set = true
effectful_when_stopped Opcode.kv_delete = true
effectful_when_stopped _ = false

-- `bridge` is the profile that the GPIO hooks of the host calls were installed with, and `guarded`
-- says that the authorizer of this component is installed.
pub record Shell (d : Driver) : Type 0 where
  pub profile : Option DeviceProfile
  pub caps : CapsState
  pub status : SafetyStatus
  pub gpio : Gpio d
  pub queue : EventQueue
  pub diag : Diag
  pub bridge : Option DeviceProfile
  pub guarded : Bool
