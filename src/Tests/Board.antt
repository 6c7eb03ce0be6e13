-- ===== src/Tests/Board.antt =====
-- A chip for the GPIO layer, a shell on it and the built-in profile's outputs at work.
use pulse_esp32_host.Base.{
  ℕ, ◌≡◌, ◌↔◌, refl, Bool, true, false, some, wdc_ok, All, replicate, arith, ◌==◌, if◌then◌else◌,
}
use pulse_esp32_host.Profile.Defs.{GpioMode, output, elems, validate_basic}
use pulse_esp32_host.Profile.Builtin.{builtin}
use pulse_esp32_host.Profile.Valid.{IsProfile, validate_basic_iff}
use pulse_esp32_host.Gpio.Driver.{Driver, IsDriver}
use pulse_esp32_host.Gpio.Hal.{
  Gpio, state_slots, set_state, is_safe_output, configure_gpio, apply_safe_gpio_defaults,
  outputs_match_safe_levels,
}
use pulse_esp32_host.Gpio.Entry.{Apart, SafeWhen}
use pulse_esp32_host.Gpio.Safe.{defaults_make_safe}

pub record Pins : Type 0 where
  pub is_out : ℕ → Bool
  pub levels : ℕ → ℕ

abbrev set_pin {ℓ} : {A : Type ℓ} → ℕ → A → (ℕ → A) → ℕ → A
set_pin pin value old other = if other == pin then value else old other

abbrev is_output_mode : GpioMode → Bool
is_output_mode output = true
is_output_mode _ = false

-- Every call of the driver succeeds. An output drives what was set last; another pin drives no
-- level, which 2 stands for.
abbrev pub chip : Driver
chip = record {
  Hw = Pins;
  gpio_config =
      λ pin mode hw. (true, record hw { is_out = set_pin pin (is_output_mode mode) hw.is_out });
  gpio_set_level = λ pin level hw. (true, record hw { levels = set_pin pin level hw.levels });
  gpio_get_level = λ pin hw. hw.levels pin;
}

pub chip-IsDriver : IsDriver chip
chip-IsDriver = record {
  drives = λ pin hw. if hw.is_out pin then hw.levels pin else 2;
  in_output = λ pin hw. hw.is_out pin;
  config_output = λ pin hw h. ground arith;
  set_drives = λ pin level hw o h. ground arith;
  set_keeps = λ pin level other hw h. ground arith;
  config_keeps = λ pin mode other hw h. ground arith;
}

pub builtin-Apart : Apart (elems builtin.gpio)
builtin-Apart = ground arith

abbrev pub cold_gpio : Gpio chip
cold_gpio = record {
  hw = record { is_out = λ pin. false; levels = λ pin. 0 };
  slots = replicate state_slots (record { used = false; resource_id = 0; level = 0 });
  safe_defaults_applied = 0;
}

pub defaults_apply : (apply_safe_gpio_defaults chip cold_gpio builtin).0 ≡ wdc_ok
unfolding apply_safe_gpio_defaults configure_gpio validate_basic set_state
defaults_apply = refl

defaults_make_safe_example :
    let g = (apply_safe_gpio_defaults chip cold_gpio builtin).1 in
    All (λ r. SafeWhen chip chip-IsDriver (is_safe_output chip r) g r) (elems builtin.gpio)
    × (outputs_match_safe_levels chip g (some builtin) ≡ (true, g))
defaults_make_safe_example =
    defaults_make_safe chip chip-IsDriver builtin cold_gpio builtin-Apart defaults_apply

validate_basic_iff_example : (validate_basic builtin ≡ wdc_ok) ↔ IsProfile builtin
validate_basic_iff_example = validate_basic_iff builtin
