-- ===== src/Gpio/Driver.antt =====
-- The GPIO driver that wdc_gpio_espidf.c calls: gpio_config, gpio_set_level and gpio_get_level, on a
-- hardware state of its own. A Boolean is true for ESP_OK.
use pulse_esp32_host.Base.{ℕ, Bool, true, ◌≡◌, ◌≢◌}
use pulse_esp32_host.Profile.Defs.{GpioMode, output}

pub record Driver : Type 1 where
  pub Hw : Type 0
  pub gpio_config : ℕ → GpioMode → Hw → Bool × Hw
  pub gpio_set_level : ℕ → ℕ → Hw → Bool × Hw
  pub gpio_get_level : ℕ → Hw → ℕ

-- What the layer relies on: a pin that was configured as an output is one, and drives the level that
-- is set while it is one; a call on one pin keeps what the others drive. Nothing is said of what a
-- pin drives in another mode.
pub record IsDriver (d : Driver) : Type 0 where
  pub drives : ℕ → d.Hw → ℕ
  pub in_output : ℕ → d.Hw → Bool
  pub config_output :
      (pin : ℕ) (hw : d.Hw)
      → (d.gpio_config pin output hw).0 ≡ true
      → in_output pin (d.gpio_config pin output hw).1 ≡ true
  pub set_drives :
      (pin level : ℕ) (hw : d.Hw)
      → in_output pin hw ≡ true
      → (d.gpio_set_level pin level hw).0 ≡ true
      → drives pin (d.gpio_set_level pin level hw).1 ≡ level
  pub set_keeps :
      (pin level other : ℕ) (hw : d.Hw)
      → other ≢ pin
      → drives other (d.gpio_set_level pin level hw).1 ≡ drives other hw
  pub config_keeps :
      (pin : ℕ) (mode : GpioMode) (other : ℕ) (hw : d.Hw)
      → other ≢ pin
      → drives other (d.gpio_config pin mode hw).1 ≡ drives other hw
