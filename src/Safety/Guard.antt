-- ===== src/Safety/Guard.antt =====
-- Host calls with effects are denied unless the app runs, and only mark_app_running lets it run.
use pulse_esp32_host.Base.{
  ℕ, ◌≡◌, Bool, true, false, List, Option, err, invalid_state, ℤ, arith, Text,
}
use pulse_esp32_host.Profile.Defs.{DeviceProfile}
use pulse_esp32_host.Gpio.Driver.{Driver}
use pulse_esp32_host.HostCall.Opcode.{Opcode}
use pulse_esp32_host.Caps.Defs.{CapabilitySet}
use pulse_esp32_host.Safety.Defs.{Shell, FaultKind, RuntimeOutcome, effectful_when_stopped}
use pulse_esp32_host.Safety.Force.{is_running, check_outputs, force_safe_outputs}
use pulse_esp32_host.Safety.Steps.{
  safety_init, install_guarded_authorizer, clear_guarded_authorizer, get_status, reset_for_test,
  enter_no_bundle_mode, stop_app, authorize_host_call,
}

-- What the functions of the component that write its state make of a shell, all but
-- mark_app_running. Each call has a clock of its own.
pub data Quiet (d : Driver) (w : Shell d) : Shell d → Type 0 where
  start : Quiet d w w
  did_init :
      {w' : Shell d} (now : ℕ) (p : Option DeviceProfile)
      → Quiet d w w'
      → Quiet d w (safety_init d now p w').1
  did_install :
      {w' : Shell d} (now : ℕ) (p : Option DeviceProfile) (set : Option CapabilitySet)
      → Quiet d w w'
      → Quiet d w (install_guarded_authorizer d now p set w').1
  did_clear :
      {w' : Shell d} (now : ℕ) → Quiet d w w' → Quiet d w (clear_guarded_authorizer d now w')
  did_force :
      {w' : Shell d} (now : ℕ) (reason : Option Text)
      → Quiet d w w'
      → Quiet d w (force_safe_outputs d now reason w').1
  did_enter_no_bundle :
      {w' : Shell d} (now : ℕ) (reason : Option Text)
      → Quiet d w w'
      → Quiet d w (enter_no_bundle_mode d now reason w').1
  did_stop :
      {w' : Shell d} (now : ℕ) (fault : FaultKind) (code : ℤ) (reason : Option Text)
      (report : Option RuntimeOutcome)
      → Quiet d w w'
      → Quiet d w (stop_app d now fault code reason report w').1
  did_authorize :
      {w' : Shell d} (now : ℕ) (opcode : Opcode) (req : List ℕ)
      → Quiet d w w'
      → Quiet d w (authorize_host_call d now opcode req w').1
  did_compare : {w' : Shell d} (now : ℕ) → Quiet d w w' → Quiet d w (check_outputs d now w')
  did_get_status :
      {w' : Shell d} (now : ℕ) (given : Bool)
      → Quiet d w w'
      → Quiet d w (get_status d now given w').1
  did_reset : {w' : Shell d} (now : ℕ) → Quiet d w w' → Quiet d w (reset_for_test d now w')

pub denied :
    (d : Driver) (now : ℕ) (opcode : Opcode) (req : List ℕ) (w : Shell d)
    → is_running w.status.state ≡ false
    → effectful_when_stopped opcode ≡ true
    → let w' = (authorize_host_call d now opcode req w).1 in
      ((authorize_host_call d now opcode req w).0 ≡ err invalid_state)
      × (w'.gpio ≡ w.gpio)
      × (w'.caps ≡ w.caps)
      × (w'.status.state ≡ w.status.state)
unfolding authorize_host_call
denied d now opcode req w h e = ground arith
