-- ===== src/Tests/Stop.antt =====
-- A running app that traps, on the board of Tests/Board.
use pulse_esp32_host.Base.{
  ℕ, ◌≡◌, refl, true, false, List, [], ◌∷◌, none, some, err, wdc_ok, negsuc, replicate,
  capability_denied,
}
use pulse_esp32_host.Profile.Defs.{validate_basic}
use pulse_esp32_host.Profile.Builtin.{builtin}
use pulse_esp32_host.Events.Queue.{init}
use pulse_esp32_host.Diag.Log.{diag_init}
use pulse_esp32_host.Gpio.Hal.{set_state, configure_gpio, apply_safe_gpio_defaults}
use pulse_esp32_host.HostCall.Opcode.{Opcode}
use pulse_esp32_host.HostCall.Store.{host_init}
use pulse_esp32_host.HostCall.Handlers.{Hooks, State}
use pulse_esp32_host.HostCall.Dispatch.{given, dispatch}
use pulse_esp32_host.Caps.Defs.{Audit}
use pulse_esp32_host.Caps.Authorize.{CapsState}
use pulse_esp32_host.Safety.Defs.{
  Shell, blank_status, app_running, app_fault_stopped, effectful_when_stopped, manual,
  guest_trapped,
}
use pulse_esp32_host.Safety.Force.{force_safe_outputs, forced}
use pulse_esp32_host.Safety.Steps.{stop_app}
use pulse_esp32_host.Safety.Outputs.{IsOutputsSafe, stopped_is_safe}
use pulse_esp32_host.Safety.Calls.{guard, IsRefused, stopped_call-IsRefused}
use pulse_esp32_host.Tests.Board.{chip, chip-IsDriver, builtin-Apart, cold_gpio}

abbrev no_audit : Audit
no_audit = record {
  bundle_version = 0;
  opcode = Opcode.gpio_set;
  resource_id = 0;
  result = err capability_denied;
  payload_len = 0;
  payload_limit = 0;
  rate_limit_hz = 0;
  now_ms = 0;
  next_allowed_ms = 0;
}

abbrev idle_caps : CapsState
idle_caps = record {
  authorizer = record {
    profile = none;
    capability_set = none;
    last_allowed_ms = replicate 16 0;
    rate_seen = replicate 16 false;
  };
  audit = no_audit;
}

abbrev running_shell : Shell chip
running_shell = record {
  profile = some builtin;
  caps = idle_caps;
  status = record blank_status { state = app_running };
  gpio = cold_gpio;
  queue = init;
  diag = diag_init;
  bridge = some builtin;
  guarded = true;
}

stop_answers_ok :
    (stop_app chip 900 manual (negsuc 0) none (some guest_trapped) running_shell).0 ≡ wdc_ok
unfolding stop_app force_safe_outputs forced apply_safe_gpio_defaults configure_gpio validate_basic
    set_state
stop_answers_ok = refl

stopped_is_safe_example :
    IsOutputsSafe chip 900 chip-IsDriver builtin
      (stop_app chip 900 manual (negsuc 0) none (some guest_trapped) running_shell).1
stopped_is_safe_example =
    stopped_is_safe chip 900 chip-IsDriver builtin manual (negsuc 0) none (some guest_trapped)
      running_shell refl builtin-Apart stop_answers_ok

abbrev stopped_shell : Shell chip
stopped_shell = record running_shell { status = record blank_status { state = app_fault_stopped } }

-- The relay on.
abbrev relay_on : List ℕ
relay_on = 0xa2 ∷ 3 ∷ 1 ∷ 4 ∷ 0xf5 ∷ []

gpio_set-effectful : effectful_when_stopped Opcode.gpio_set ≡ true
unfolding effectful_when_stopped
gpio_set-effectful = refl

abbrev guarded_hooks : Hooks (Shell chip)
guarded_hooks = record {
  authorizer = some (guard chip 1000);
  gpio_write = none;
  gpio_read = none;
  net = none;
}

abbrev stopped_state : State guarded_hooks
stopped_state = record { host = host_init; world = stopped_shell }

stopped_call-IsRefused_example :
    IsRefused chip 1000 guarded_hooks 64 stopped_state
      (dispatch guarded_hooks Opcode.gpio_set (given relay_on) true 64 stopped_state)
stopped_call-IsRefused_example =
    stopped_call-IsRefused chip 1000 guarded_hooks Opcode.gpio_set (given relay_on) true 64
      stopped_state refl refl gpio_set-effectful
