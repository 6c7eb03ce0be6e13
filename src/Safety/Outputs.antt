-- ===== src/Safety/Outputs.antt =====
-- When the safety component says that the outputs are safe, they are.
use pulse_esp32_host.Base.{
  ℕ, ◌≡◌, refl, sym, subst, ◌∙◌, true, Option, none, some, Status, ok, wdc_ok, ℤ, All, arith, Text,
  codes,
}
use pulse_esp32_host.Profile.Defs.{DeviceProfile, elems}
use pulse_esp32_host.Gpio.Driver.{Driver, IsDriver}
use pulse_esp32_host.Gpio.Hal.{
  Gpio, is_safe_output, apply_safe_gpio_defaults, outputs_match_safe_levels,
}
use pulse_esp32_host.Gpio.Entry.{Apart, SafeWhen}
use pulse_esp32_host.Gpio.Safe.{defaults_make_safe}
use pulse_esp32_host.Safety.Defs.{Shell, FaultKind, RuntimeOutcome, fault_number}
use pulse_esp32_host.Safety.Force.{
  post_made, post_safety_event, log_transition, check_outputs, forced, force_safe_outputs, text_or,
  event_fault,
}
use pulse_esp32_host.Safety.Steps.{stop_app, note_fault, outcome_or, stop, fault_from_report}

module _ (d : Driver) (now : ℕ) where
  post_safety_event-keeps :
      (event_type code : ℕ) (w : Shell d)
      → let w' = post_safety_event d now event_type code w in
        (w'.gpio ≡ w.gpio)
        × (w'.status.physical_outputs_safe ≡ w.status.physical_outputs_safe)
        × (w'.status.state ≡ w.status.state)
        × (w'.profile ≡ w.profile)
  unfolding post_safety_event post_made
  post_safety_event-keeps event_type code w = ground arith

  log_transition-keeps :
      (reason : Text) (w : Shell d)
      → let w' = log_transition d now reason w in
        (w'.gpio ≡ w.gpio) × (w'.status.physical_outputs_safe ≡ w.status.physical_outputs_safe)
  unfolding log_transition
  log_transition-keeps reason w = (refl, refl)

  module _ (law : IsDriver d) (p : DeviceProfile) where
    -- Every safe output drives its level, and the status says so.
    pub record IsOutputsSafe (w : Shell d) : Type 0 where
      pub levels : All (λ r. SafeWhen d law (is_safe_output d r) w.gpio r) (elems p.gpio)
      pub matched : outputs_match_safe_levels d w.gpio (some p) ≡ (true, w.gpio)
      pub flag : w.status.physical_outputs_safe ≡ true

    check_outputs-keeps :
        (w : Shell d)
        → w.profile ≡ some p
        → outputs_match_safe_levels d w.gpio (some p) ≡ (true, w.gpio)
        → let w' = check_outputs d now w in
          (w'.gpio ≡ w.gpio) × (w'.status.physical_outputs_safe ≡ true) × (w'.profile ≡ some p)
    unfolding check_outputs
    check_outputs-keeps w h m = ground arith

    force-apply :
        (reason : Option Text) (w : Shell d)
        → w.profile ≡ some p
        → (force_safe_outputs d now reason w).0 ≡ wdc_ok
        → ((apply_safe_gpio_defaults d w.gpio p).0 ≡ wdc_ok)
          × (force_safe_outputs d now reason w
              ≡ forced d now reason (ok tt, (apply_safe_gpio_defaults d w.gpio p).1) w)
    unfolding force_safe_outputs forced
    force-apply reason w h e = ground arith

    of_gpio :
        (gpio : Gpio d) (w : Shell d)
        → w.gpio ≡ gpio
        → w.status.physical_outputs_safe ≡ true
        → All (λ r. SafeWhen d law (is_safe_output d r) gpio r) (elems p.gpio)
        → outputs_match_safe_levels d gpio (some p) ≡ (true, gpio)
        → IsOutputsSafe w
    of_gpio gpio w same flag safe m = record {
      levels =
          subst (λ (g : Gpio d). All (λ r. SafeWhen d law (is_safe_output d r) g r) (elems p.gpio))
            (sym same) safe;
      matched =
          subst (λ (g : Gpio d). outputs_match_safe_levels d g (some p) ≡ (true, g)) (sym same) m;
      flag = flag;
    }

    forced-keeps :
        (reason : Option Text) (gpio : Gpio d) (w : Shell d)
        → w.profile ≡ some p
        → outputs_match_safe_levels d gpio (some p) ≡ (true, gpio)
        → let w' = (forced d now reason (ok tt, gpio) w).1 in
          (w'.gpio ≡ gpio) × (w'.status.physical_outputs_safe ≡ true) × (w'.profile ≡ some p)
    unfolding forced check_outputs
    forced-keeps none gpio w h m = ground arith
    forced-keeps (some r) gpio w h m = ground arith

    forced-IsOutputsSafe :
        (reason : Option Text) (gpio : Gpio d) (w : Shell d)
        → w.profile ≡ some p
        → All (λ r. SafeWhen d law (is_safe_output d r) gpio r) (elems p.gpio)
        → outputs_match_safe_levels d gpio (some p) ≡ (true, gpio)
        → let w' = (forced d now reason (ok tt, gpio) w).1 in
          IsOutputsSafe w' × (w'.profile ≡ some p)
    forced-IsOutputsSafe reason gpio w h safe m =
        let (same, flag, given) = forced-keeps reason gpio w h m in
        (of_gpio gpio (forced d now reason (ok tt, gpio) w).1 same flag safe m, given)

    force-IsOutputsSafe :
        (reason : Option Text) (w : Shell d)
        → w.profile ≡ some p
        → Apart (elems p.gpio)
        → (force_safe_outputs d now reason w).0 ≡ wdc_ok
        → let w' = (force_safe_outputs d now reason w).1 in IsOutputsSafe w' × (w'.profile ≡ some p)
    force-IsOutputsSafe reason w h apart e =
        let (applied, same) = force-apply reason w h e in
        let (safe, m) = defaults_make_safe d law p w.gpio apart applied in
        subst (λ (r : Status × Shell d). IsOutputsSafe r.1 × (r.1.profile ≡ some p)) (sym same)
          (forced-IsOutputsSafe reason (apply_safe_gpio_defaults d w.gpio p).1 w h safe m)

    -- What comes after the outputs were forced keeps them safe.
    last-IsOutputsSafe :
        (event_type code : ℕ) (reason : Text) (w : Shell d)
        → IsOutputsSafe w
        → w.profile ≡ some p
        → IsOutputsSafe (
            post_safety_event d now event_type code
              (log_transition d now reason (check_outputs d now w)))
    last-IsOutputsSafe event_type code reason w safe h =
        let (same, flag, given) = check_outputs-keeps w h safe.matched in
        let logged = log_transition d now reason (check_outputs d now w) in
        let (same', flag', st, given') = post_safety_event-keeps event_type code logged in
        let (same'', flag'') = log_transition-keeps reason (check_outputs d now w) in
        of_gpio w.gpio (post_safety_event d now event_type code logged) (same' ∙ same'' ∙ same)
          (flag' ∙ flag'' ∙ flag) safe.levels safe.matched

    stop-IsOutputsSafe : (w : Shell d) → IsOutputsSafe w → IsOutputsSafe (stop d now w)
    stop-IsOutputsSafe w safe = record {
      levels = safe.levels;
      matched = safe.matched;
      flag = safe.flag;
    }

    -- When a stop of the app answers WDC_OK, on a driver that keeps its laws and in a shell with a
    -- profile that names no resource id or pin twice, every output of the profile that has a safe
    -- level drives it, and the comparison of the outputs and the status say that they are safe.
    pub stopped_is_safe :
        (fault : FaultKind) (code : ℤ) (reason : Option Text) (report : Option RuntimeOutcome)
        (w : Shell d)
        → w.profile ≡ some p
        → Apart (elems p.gpio)
        → (stop_app d now fault code reason report w).0 ≡ wdc_ok
        → IsOutputsSafe (stop_app d now fault code reason report w).1
    unfolding stop_app
    stopped_is_safe fault code reason report w h apart e =
        let text = text_or (codes "app stopped") reason in
        let noted =
          note_fault d now (fault_from_report d now report fault) code text
            (outcome_or d now report) w in
        let (safe, given) = force-IsOutputsSafe (some text) noted h apart e in
        let w' = (force_safe_outputs d now (some text) noted).1 in
        last-IsOutputsSafe event_fault (fault_number w'.status.last_fault_kind) text (stop d now w')
          (stop-IsOutputsSafe w' safe) given
