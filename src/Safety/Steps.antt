-- ===== src/Safety/Steps.antt =====
-- The functions of wdc_safety.c. `now` is the clock of the log and of the rate limits at the call.
use pulse_esp32_host.Base.{
  u32, ℕ, ◌+◌, Bool, true, false, not, ◌&&◌, List, Option, none, some, Status, ok, err,
  capability_denied, rate_limited, bad_pointer, invalid_state, if◌then◌else◌, ℤ, pos, Text, codes,
  printed,
}
use pulse_esp32_host.Profile.Defs.{DeviceProfile, validate_basic}
use pulse_esp32_host.Gpio.Driver.{Driver}
use pulse_esp32_host.Gpio.Hal.{reset_state}
use pulse_esp32_host.Diag.Log.{record_breadcrumb}
use pulse_esp32_host.HostCall.Opcode.{Opcode}
use pulse_esp32_host.Caps.Defs.{CapabilitySet}
use pulse_esp32_host.Caps.Authorize.{decide, install}
use pulse_esp32_host.Safety.Defs.{
  boot_safe, no_bundle, app_running, app_fault_stopped, FaultKind, fault_none, fault_no_bundle,
  runtime_trap, runtime_non_ok, contract_violation, RuntimeOutcome, not_started, guest_trapped,
  guest_non_ok_status, invalid_payload, invalid_runtime_state, SafetyStatus, blank_status,
  state_number, fault_number, outcome_number, effectful_when_stopped, Shell,
}
use pulse_esp32_host.Safety.Force.{
  event_state_changed, event_fault, reason_max, text_or, is_running, set_status, post_safety_event,
  log_transition, check_outputs, force_safe_outputs,
}

module _ (d : Driver) (now : ℕ) where
  -- The rest of a function, unless the step before it failed.
  abbrev pub then_ok : Status × Shell d → (Shell d → Shell d) → Status × Shell d
  then_ok (err e, w) k = (err e, w)
  then_ok (ok u, w) k = (ok tt, k w)

  unfoldable pub reset : DeviceProfile → Shell d → Shell d
  unfolding install
  reset p w = record w {
    profile = some p;
    bridge = some p;
    caps = record w.caps { authorizer = install none none };
    status = record blank_status { state = boot_safe };
  }

  unfoldable pub say_init : Shell d → Shell d
  unfolding log_transition post_safety_event
  say_init w =
      post_safety_event d now event_state_changed (state_number boot_safe)
        (log_transition d now (codes "init") w)

  -- What safety_init does after the profile was validated.
  unfoldable pub init_valid : Status → DeviceProfile → Shell d → Status × Shell d
  unfolding force_safe_outputs reset say_init
  init_valid (err e) p w = (err e, w)
  init_valid (ok u) p w =
      then_ok (force_safe_outputs d now (some (codes "safety init")) (reset p w)) say_init

  unfoldable pub safety_init : Option DeviceProfile → Shell d → Status × Shell d
  unfolding init_valid validate_basic
  safety_init none w = (err bad_pointer, w)
  safety_init (some p) w = init_valid (validate_basic p) p w

  -- The fields of the authorizer alone are written: its rates stay as they are.
  abbrev pub install_set : DeviceProfile → CapabilitySet → Shell d → Shell d
  install_set p set w = record w {
    guarded = true;
    caps = record w.caps {
      authorizer = record w.caps.authorizer { profile = some p; capability_set = some set };
    };
  }

  abbrev pub init_if_none : Option DeviceProfile → DeviceProfile → Shell d → Status × Shell d
  init_if_none none p w = safety_init (some p) w
  init_if_none (some q) p w = (ok tt, w)

  unfoldable pub install_guarded_authorizer :
      Option DeviceProfile → Option CapabilitySet → Shell d → Status × Shell d
  unfolding safety_init
  install_guarded_authorizer none set w = (err bad_pointer, w)
  install_guarded_authorizer (some p) none w = (err bad_pointer, w)
  install_guarded_authorizer (some p) (some set) w =
      then_ok (init_if_none w.profile p w) (install_set p set)

  unfoldable pub clear_guarded_authorizer : Shell d → Shell d
  unfolding install
  clear_guarded_authorizer w = record w {
    guarded = false;
    caps = record w.caps { authorizer = install none none };
  }

  abbrev run_app : Option Text → ℕ → Shell d → Shell d
  run_app bundle_id bundle_version w = record w {
    status = record w.status {
      state = app_running;
      last_fault_kind = fault_none;
      last_fault_status = pos 0;
      last_runtime_outcome = not_started;
      active_bundle_version = bundle_version;
      active_bundle = printed reason_max (text_or (codes "<unknown>") bundle_id);
    };
  }

  abbrev mark_with : Option DeviceProfile → Option Text → ℕ → Shell d → Status × Shell d
  mark_with none bundle_id bundle_version w = (err invalid_state, w)
  mark_with (some p) bundle_id bundle_version w = (
    ok tt,
    post_safety_event d now event_state_changed (state_number app_running) (
        log_transition d now (codes "app running")
          (check_outputs d now (run_app bundle_id bundle_version w))),
  )

  unfoldable pub mark_app_running : Option Text → ℕ → Shell d → Status × Shell d
  unfolding check_outputs log_transition post_safety_event
  mark_app_running bundle_id bundle_version w = mark_with w.profile bundle_id bundle_version w

  abbrev pub enter_no_bundle : Option Text → Shell d → Shell d
  enter_no_bundle reason w = record w {
    status = record w.status {
      state = no_bundle;
      last_fault_kind = fault_no_bundle;
      last_fault_status = pos 0;
      last_fault_reason = printed reason_max (text_or (codes "no bundle loaded") reason);
    };
  }

  unfoldable pub enter_no_bundle_mode : Option Text → Shell d → Status × Shell d
  unfolding force_safe_outputs log_transition post_safety_event
  enter_no_bundle_mode reason w =
      then_ok (force_safe_outputs d now (some (text_or (codes "no bundle") reason)) w) (λ w.
        post_safety_event d now event_state_changed (state_number no_bundle)
          (log_transition d now (text_or (codes "no bundle") reason) (enter_no_bundle reason w)))

  unfoldable pub fault_from_report : Option RuntimeOutcome → FaultKind → FaultKind
  fault_from_report none fallback = fallback
  fault_from_report (some guest_trapped) fallback = runtime_trap
  fault_from_report (some guest_non_ok_status) fallback = runtime_non_ok
  fault_from_report (some invalid_payload) fallback = contract_violation
  fault_from_report (some invalid_runtime_state) fallback = contract_violation
  fault_from_report (some _) fallback = fallback

  abbrev pub outcome_or : Option RuntimeOutcome → RuntimeOutcome
  outcome_or none = not_started
  outcome_or (some o) = o

  abbrev pub note_fault : FaultKind → ℤ → Text → RuntimeOutcome → Shell d → Shell d
  note_fault kind code reason outcome w = record w {
    status = record w.status {
      fault_count = u32 (w.status.fault_count + 1);
      last_fault_kind = kind;
      last_fault_status = code;
      last_runtime_outcome = outcome;
      last_fault_reason = printed reason_max reason;
    };
    diag =
        record_breadcrumb (pos (state_number app_fault_stopped)) (pos (fault_number kind)) code
          (pos (outcome_number outcome)) (some w.status.active_bundle)
          w.status.active_bundle_version (some reason) w.diag;
  }

  abbrev pub stop : Shell d → Shell d
  stop w = record w { status = record w.status { state = app_fault_stopped } }

  -- The app is stopped whether or not the outputs could be forced, and the answer says if they were.
  abbrev pub stopped : Text → Status × Shell d → Status × Shell d
  stopped reason (s, w) =
      let w' = log_transition d now reason (check_outputs d now (stop w)) in
      (s, post_safety_event d now event_fault (fault_number w'.status.last_fault_kind) w')

  unfoldable pub stop_app :
      FaultKind → ℤ → Option Text → Option RuntimeOutcome → Shell d → Status × Shell d
  unfolding force_safe_outputs check_outputs log_transition post_safety_event fault_from_report
      record_breadcrumb
  stop_app fault code reason report w =
      let text = text_or (codes "app stopped") reason in
      stopped text (
        force_safe_outputs d now (some text)
          (note_fault (fault_from_report report fault) code text (outcome_or report) w))

  abbrev counted : Status → SafetyStatus → SafetyStatus
  counted (err capability_denied) st = record st {
    denied_by_capability_count = u32 (st.denied_by_capability_count + 1);
  }
  counted (err rate_limited) st = record st {
    denied_by_rate_limit_count = u32 (st.denied_by_rate_limit_count + 1);
  }
  counted _ st = st

  -- The function answers WDC_OK, as the one of the capabilities does; this is its decision.
  unfoldable pub authorize_host_call : Opcode → List ℕ → Shell d → Status × Shell d
  unfolding effectful_when_stopped decide
  authorize_host_call opcode req w =
      if effectful_when_stopped opcode && not (is_running w.status.state)
      then (
        err invalid_state,
        set_status d now w (record w.status {
          denied_while_stopped_count = u32 (w.status.denied_while_stopped_count + 1);
        }),
      )
      else (let (decision, caps) = decide now opcode req w.caps in
          (decision, record w { caps = caps; status = counted decision w.status }))

  -- The status, where the pointer for it is not NULL; the outputs are compared before.
  unfoldable pub get_status : Bool → Shell d → Option SafetyStatus × Shell d
  unfolding check_outputs
  get_status false w = (none, w)
  get_status true w = let w' = check_outputs d now w in (some w'.status, w')

  unfoldable pub reset_for_test : Shell d → Shell d
  unfolding install reset_state
  reset_for_test w = record w {
    profile = none;
    caps = record w.caps { authorizer = install none none };
    status = blank_status;
    gpio = reset_state d w.gpio.hw;
    bridge = none;
    guarded = false;
  }
