-- ===== src/Gpio/Entry.antt =====
-- What the set-up of one entry of the GPIO table does to the pins and to the levels on record.
use pulse_esp32_host.Base.{
  ℕ, ◌≡◌, ◌≢◌, refl, Bool, true, false, inl, inr, List, [], ◌∷◌, some, wdc_ok, Result-cases, ℤ, pos,
  negsuc, All, arith,
}
use pulse_esp32_host.Profile.Defs.{
  GpioMode, disabled, input, input_pullup, output, other_mode, GpioResource,
}
use pulse_esp32_host.Gpio.Driver.{Driver, IsDriver}
use pulse_esp32_host.Gpio.Hal.{
  Gpio, bit, int_bit, pin_number, find_level, set_state, store, configure_mode, configure_gpio,
  is_safe_output,
}
use pulse_esp32_host.Gpio.Slots.{set_state-find, set_state-others}

bit-int_bit : (z : ℤ) → bit (int_bit z) ≡ int_bit z
bit-int_bit (pos n) = ground arith
bit-int_bit (negsuc n) = refl

-- No two entries of a table share a pin or a resource id.
abbrev pub ApartFrom : GpioResource → GpioResource → Type 0
ApartFrom r x = (pin_number x.pin ≢ pin_number r.pin) × (x.resource_id ≢ r.resource_id)

abbrev pub Apart : List GpioResource → Type 0
Apart [] = Unit
Apart (r ∷ rs) = All (ApartFrom r) rs × Apart rs

module _ (d : Driver) (law : IsDriver d) where
  -- The pin drives the safe level, and that is the level on record.
  abbrev pub AtSafeLevel : Gpio d → GpioResource → Type 0
  AtSafeLevel g r =
      (law.drives (pin_number r.pin) g.hw ≡ int_bit r.safe_level)
      × (find_level g.slots r.resource_id ≡ some (int_bit r.safe_level))

  -- The same for the entries of a kind; nothing is said of the others.
  abbrev pub SafeWhen : Bool → Gpio d → GpioResource → Type 0
  SafeWhen true g r = AtSafeLevel g r
  SafeWhen false g r = Unit

  abbrev pub IsSafe : Gpio d → GpioResource → Type 0
  IsSafe g r = (is_safe_output d r ≡ true) → AtSafeLevel g r

  store-find :
      (g : Gpio d) (id level : ℕ)
      → (store d g id level).0 ≡ wdc_ok
      → find_level (store d g id level).1.slots id ≡ some (bit level)
  store-find g id level h = elim (Result-cases (set_state g.slots id level)) [
    | inl (new, e) ↦ ground (arith, set_state-find g.slots new id level e)
    | inr (x, e) ↦ absurd (ground arith)
  ]

  store-keeps :
      (g : Gpio d) (id level other : ℕ)
      → other ≢ id
      → find_level (store d g id level).1.slots other ≡ find_level g.slots other
  store-keeps g id level other ne = elim (Result-cases (set_state g.slots id level)) [
    | inl (new, e) ↦ ground (arith, set_state-others g.slots new id level other ne e)
    | inr (x, e) ↦ ground arith
  ]

  store-hw : (g : Gpio d) (id level : ℕ) → (store d g id level).1.hw ≡ g.hw
  store-hw g id level = ground arith

  -- The gpio_set_level call and the store after it.
  module _ (g : Gpio d) (r : GpioResource) where
    abbrev configured : Bool × d.Hw
    configured = d.gpio_config (pin_number r.pin) output g.hw

    abbrev driven : Bool × d.Hw
    driven = d.gpio_set_level (pin_number r.pin) (int_bit r.safe_level) configured.1

    abbrev before_store : Gpio d
    before_store = record g { hw = driven.1 }

    output-IsSafe :
        (configure_mode d g r output).0 ≡ wdc_ok → IsSafe (configure_mode d g r output).1 r
    unfolding configure_mode
    output-IsSafe h s = ground (
      arith,
      store-find before_store r.resource_id (int_bit r.safe_level),
      store-hw before_store r.resource_id (int_bit r.safe_level),
      law.config_output (pin_number r.pin) g.hw,
      law.set_drives (pin_number r.pin) (int_bit r.safe_level) configured.1,
      bit-int_bit r.safe_level,
    )

  -- An entry leaves alone the pins and the ids that are not its own.
  abbrev pub Keeps : Gpio d → Gpio d → GpioResource → Type 0
  Keeps g g' r =
      ((pin : ℕ) → pin ≢ pin_number r.pin → law.drives pin g'.hw ≡ law.drives pin g.hw)
      × ((id : ℕ) → id ≢ r.resource_id → find_level g'.slots id ≡ find_level g.slots id)

  Keeps-output : (g : Gpio d) (r : GpioResource) → Keeps g (configure_mode d g r output).1 r
  unfolding configure_mode
  Keeps-output g r = (
    λ pin ne. ground (
      arith,
      law.set_keeps (pin_number r.pin) (int_bit r.safe_level) pin (configured g r).1 ne,
      law.config_keeps (pin_number r.pin) output pin g.hw ne,
      store-hw (before_store g r) r.resource_id (int_bit r.safe_level),
    ),
    λ id ne.
        ground (arith, store-keeps (before_store g r) r.resource_id (int_bit r.safe_level) id ne),
  )

  configure_mode-Keeps :
      (g : Gpio d) (r : GpioResource) (m : GpioMode) → Keeps g (configure_mode d g r m).1 r
  unfolding configure_mode
  configure_mode-Keeps g r output = Keeps-output g r
  configure_mode-Keeps g r disabled = (λ pin ne. refl, λ id ne. refl)
  configure_mode-Keeps g r (other_mode n) = (λ pin ne. refl, λ id ne. refl)
  configure_mode-Keeps g r input =
      let g' : Gpio d = record g { hw = (d.gpio_config (pin_number r.pin) input g.hw).1 } in
      (
        λ pin ne. ground (
          arith,
          law.config_keeps (pin_number r.pin) input pin g.hw ne,
          store-hw g' r.resource_id 0,
        ),
        λ id ne. ground (arith, store-keeps g' r.resource_id 0 id ne),
      )
  configure_mode-Keeps g r input_pullup =
      let g' : Gpio d = record g { hw = (d.gpio_config (pin_number r.pin) input_pullup g.hw).1 } in
      (
        λ pin ne. ground (
          arith,
          law.config_keeps (pin_number r.pin) input_pullup pin g.hw ne,
          store-hw g' r.resource_id 1,
        ),
        λ id ne. ground (arith, store-keeps g' r.resource_id 1 id ne),
      )

  pub configure_gpio-Keeps : (g : Gpio d) (r : GpioResource) → Keeps g (configure_gpio d g r).1 r
  unfolding configure_gpio
  configure_gpio-Keeps g r =
      let (pins, ids) = configure_mode-Keeps g r r.mode in
      (λ pin ne. ground (arith, pins pin ne), λ id ne. ground (arith, ids id ne))

  pub configure_gpio-IsSafe :
      (g : Gpio d) (r : GpioResource)
      → (configure_gpio d g r).0 ≡ wdc_ok
      → IsSafe (configure_gpio d g r).1 r
  unfolding configure_gpio
  configure_gpio-IsSafe g r h s = ground (arith, output-IsSafe g r)
