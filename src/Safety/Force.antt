-- ===== src/Safety/Force.antt =====
-- The events, the log lines and the forcing of the safe outputs of wdc_safety.c. `now` is the clock
-- of the log at the call.
use pulse_esp32_host.Base.{
  u32, ℕ, ◌+◌, ◌/◌, ◌%◌, Bool, true, false, List, [], ◌∷◌, ◌++◌, Option, none, some, Status, ok,
  err, invalid_state, if◌then◌else◌, status_code, Text, codes, printed, true_false,
}
use pulse_esp32_host.Events.Event.{Event, make, resource_none}
use pulse_esp32_host.Events.Queue.{push}
use pulse_esp32_host.Profile.Defs.{DeviceProfile}
use pulse_esp32_host.Gpio.Driver.{Driver}
use pulse_esp32_host.Gpio.Hal.{Gpio, apply_safe_gpio_defaults, outputs_match_safe_levels}
use pulse_esp32_host.Diag.Log.{diag_log, message_max, log_info, log_warn, log_error}
use pulse_esp32_host.Safety.Defs.{
  SafetyState, app_running, app_fault_stopped, host_io, SafetyStatus, state_name, Shell,
}

-- WDC_EVENT_SAFETY_STATE_CHANGED and WDC_EVENT_FAULT
abbrev pub event_state_changed : ℕ
event_state_changed = 0x0702

abbrev pub event_fault : ℕ
event_fault = 0x0701

-- WDC_SAFETY_REASON_MAX and WDC_SAFETY_BUNDLE_MAX
abbrev pub reason_max : ℕ
reason_max = 80

abbrev pub text_or : Text → Option Text → Text
text_or default none = default
text_or default (some t) = t

abbrev pub is_running : SafetyState → Bool
is_running app_running = true
is_running _ = false

module _ (d : Driver) (now : ℕ) where
  abbrev pub set_status : Shell d → SafetyStatus → Shell d
  set_status w st = record w { status = st }

  abbrev code_bytes : ℕ → List ℕ
  code_bytes code = code % 256 ∷ code / 256 % 256 ∷ code / 65536 % 256 ∷ code / 16777216 % 256 ∷ []

  -- The queue gives the event an id in its own copy; the id read here is that of the local event.
  unfoldable pub post_made : Event → Shell d → Shell d
  unfolding push
  post_made e w =
      let (s, queue) = push w.queue (some e) in
      let w' : Shell d = record w { queue = queue } in
      elim s [
        | ok u ↦ set_status w' (record w.status { last_fault_event_id = e.event_id })
        | err x ↦ w'
      ]

  unfoldable pub post_safety_event : ℕ → ℕ → Shell d → Shell d
  unfolding make post_made
  post_safety_event event_type code w =
      elim (make event_type resource_none 0 (some (code_bytes code)) 4) [
        | ok e ↦ post_made e w
        | err x ↦ w
      ]

  abbrev pub log : ℕ → Text → Shell d → Shell d
  log level message w = record w {
    diag = diag_log now level (some (printed message_max message)) w.diag;
  }

  abbrev is_stopped : SafetyState → Bool
  is_stopped app_fault_stopped = true
  is_stopped _ = false

  unfoldable pub log_transition : Text → Shell d → Shell d
  unfolding diag_log
  log_transition reason w =
      log (if is_stopped w.status.state then log_error else log_info)
        (codes "safety state="
          ++ state_name w.status.state
          ++ codes " reason="
          ++ reason
          ++ codes " outputs_safe="
          ++ true_false w.status.physical_outputs_safe)
        w

  -- The comparison of the outputs, with the flag that keeps its answer.
  unfoldable pub check_outputs : Shell d → Shell d
  unfolding outputs_match_safe_levels
  check_outputs w =
      let (safe, gpio) = outputs_match_safe_levels d w.gpio w.profile in
      record w { gpio = gpio; status = record w.status { physical_outputs_safe = safe } }

  abbrev log_forced : Option Text → Shell d → Shell d
  log_forced none w = w
  log_forced (some reason) w = log log_warn (codes "safe GPIO outputs forced: " ++ reason) w

  unfoldable pub forced : Option Text → Status × Gpio d → Shell d → Status × Shell d
  unfolding check_outputs diag_log
  forced reason (err e, gpio) w = (
    err e,
    log log_error (codes "failed to force safe GPIO outputs") (record w {
      gpio = gpio;
      status = record w.status {
        last_fault_kind = host_io;
        last_fault_status = status_code (err e);
        physical_outputs_safe = false;
      };
    }),
  )
  forced reason (ok u, gpio) w = (
    ok tt,
    log_forced reason (
        check_outputs (record w {
          gpio = gpio;
          status = record w.status {
            safe_defaults_applied = gpio.safe_defaults_applied;
            safe_force_count = u32 (w.status.safe_force_count + 1);
          };
        })),
  )

  abbrev force_with : Option Text → Option DeviceProfile → Shell d → Status × Shell d
  force_with reason none w = (err invalid_state, w)
  force_with reason (some p) w = forced reason (apply_safe_gpio_defaults d w.gpio p) w

  unfoldable pub force_safe_outputs : Option Text → Shell d → Status × Shell d
  unfolding forced apply_safe_gpio_defaults
  force_safe_outputs reason w = force_with reason w.profile w
