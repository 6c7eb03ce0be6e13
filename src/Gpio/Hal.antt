-- ===== src/Gpio/Hal.antt =====
-- The functions of wdc_gpio_espidf.c, as built for the chip. The table of levels is static state.
use pulse_esp32_host.Base.{
  ℕ, ◌+◌, Bool, true, false, not, ◌&&◌, List, [], ◌∷◌, Option, none, some, Result, Status, ok, err,
  bad_pointer, bad_encoding, invalid_resource, io, no_memory, not_available, ltb, ◌==◌,
  if◌then◌else◌, ℤ, pos, negsuc, replicate,
}
use pulse_esp32_host.Profile.Defs.{
  GpioMode, input, input_pullup, output, GpioResource, DeviceProfile, elems, is_none,
  find_gpio_by_id, pin_valid, validate_basic,
}
use pulse_esp32_host.Gpio.Driver.{Driver}

pub record GpioState : Type 0 where
  pub used : Bool
  pub resource_id : ℕ
  pub level : ℕ

-- WDC_HAL_GPIO_STATE_SLOTS
abbrev pub state_slots : ℕ
state_slots = 8

abbrev pub bit : ℕ → ℕ
bit level = if level == 0 then 0 else 1

abbrev pub int_bit : ℤ → ℕ
int_bit (pos n) = bit n
int_bit (negsuc n) = 1

-- pin_bit_mask and gpio_num_t see a pin that was tested
abbrev pub pin_number : ℤ → ℕ
pin_number (pos n) = n
pin_number (negsuc n) = 0

-- The level in the slot that wdc_hal_find_state finds.
abbrev pub find_level : List GpioState → ℕ → Option ℕ
find_level [] resource_id = none
find_level (s ∷ ss) resource_id =
    if s.used && s.resource_id == resource_id then some s.level else find_level ss resource_id

abbrev pub cons_to : GpioState → Option (List GpioState) → Option (List GpioState)
cons_to s none = none
cons_to s (some ss) = some (s ∷ ss)

-- A write to the first slot that passes the test, if there is one.
abbrev pub write_first : (GpioState → Bool) → GpioState → List GpioState → Option (List GpioState)
write_first test new [] = none
write_first test new (s ∷ ss) =
    if test s then some (new ∷ ss) else cons_to s (write_first test new ss)

abbrev pub holds_id : ℕ → GpioState → Bool
holds_id resource_id s = s.used && s.resource_id == resource_id

abbrev pub is_free : GpioState → Bool
is_free s = not s.used

-- The slot with the id, or else the first free one.
unfoldable pub set_state : List GpioState → ℕ → ℕ → Result (List GpioState)
set_state slots resource_id level =
    let new : GpioState = record { used = true; resource_id = resource_id; level = bit level } in
    elim (write_first (holds_id resource_id) new slots) [
      | some slots' ↦ ok slots'
      | none ↦ elim (write_first is_free new slots) [
        | some slots' ↦ ok slots'
        | none ↦ err no_memory
      ]
    ]

module _ (d : Driver) where
  pub record Gpio : Type 0 where
    pub hw : d.Hw
    pub slots : List GpioState
    pub safe_defaults_applied : ℕ

  abbrev pub store : Gpio → ℕ → ℕ → Status × Gpio
  store g resource_id level = elim (set_state g.slots resource_id level) [
    | ok slots ↦ (ok tt, record g { slots = slots })
    | err e ↦ (err e, g)
  ]

  unfoldable pub configure_mode : Gpio → GpioResource → GpioMode → Status × Gpio
  configure_mode g r output =
      let (configured, hw) = d.gpio_config (pin_number r.pin) output g.hw in
      let g' = record g { hw = hw } in
      if not configured
      then (err io, g')
      else if not r.apply_safe_level
      then (ok tt, g')
      else (let (driven, hw') = d.gpio_set_level (pin_number r.pin) (int_bit r.safe_level) hw in
          let g'' = record g' { hw = hw' } in
          if not driven then (err io, g'') else store g'' r.resource_id (int_bit r.safe_level))
  configure_mode g r input_pullup =
      let (configured, hw) = d.gpio_config (pin_number r.pin) input_pullup g.hw in
      let g' = record g { hw = hw } in
      if not configured then (err io, g') else store g' r.resource_id 1
  configure_mode g r input =
      let (configured, hw) = d.gpio_config (pin_number r.pin) input g.hw in
      let g' = record g { hw = hw } in
      if not configured then (err io, g') else store g' r.resource_id 0
  configure_mode g r _ = (ok tt, g)

  unfoldable pub configure_gpio : Gpio → GpioResource → Status × Gpio
  unfolding configure_mode
  configure_gpio g r =
      if not (pin_valid r.pin) then (err invalid_resource, g) else configure_mode g r r.mode

  abbrev pub is_output : GpioMode → Bool
  is_output output = true
  is_output _ = false

  abbrev pub is_safe_output : GpioResource → Bool
  is_safe_output r = is_output r.mode && r.apply_safe_level

  abbrev pub count_safe : GpioResource → Gpio → Gpio
  count_safe r g =
      if is_safe_output r
      then record g { safe_defaults_applied = g.safe_defaults_applied + 1 }
      else g

  -- The loop over the table, up to the first error.
  unfoldable pub configure_all : Gpio → List GpioResource → Status × Gpio
  unfolding configure_gpio
  configure_all g [] = (ok tt, g)
  configure_all g (r ∷ rs) =
      let (s, g') = configure_gpio g r in
      let rest = configure_all (count_safe r g') rs in elim s [ ok u ↦ rest | err e ↦ (err e, g') ]

  -- The profile pointer is not NULL. The count is below the number of entries, so it does not wrap.
  unfoldable pub apply_safe_gpio_defaults : Gpio → DeviceProfile → Status × Gpio
  unfolding configure_all validate_basic
  apply_safe_gpio_defaults g p =
      if is_none p.gpio then (err bad_pointer, g) else elim (validate_basic p) [
        | err e ↦ (err e, g)
        | ok u ↦ configure_all (record g { safe_defaults_applied = 0 }) (elems p.gpio)
      ]

  abbrev pub set_output : Gpio → GpioResource → ℕ → ℕ → Status × Gpio
  set_output g r resource_id value =
      if not (is_output r.mode)
      then (err invalid_resource, g)
      else if ltb 1 value
      then (err bad_encoding, g)
      else (let (driven, hw) = d.gpio_set_level (pin_number r.pin) (bit value) g.hw in
          let g' = record g { hw = hw } in
          if not driven then (err io, g') else store g' resource_id value)

  unfoldable pub set_level_by_resource : Gpio → DeviceProfile → ℕ → ℕ → Status × Gpio
  set_level_by_resource g p resource_id value = elim (find_gpio_by_id p resource_id) [
    | none ↦ (err invalid_resource, g)
    | some r ↦ set_output g r resource_id value
  ]

  abbrev pub is_input : GpioMode → Bool
  is_input input = true
  is_input input_pullup = true
  is_input _ = false

  abbrev pub stored_level : Gpio → ℕ → Result ℕ
  stored_level g resource_id = elim (find_level g.slots resource_id) [
    | none ↦ err not_available
    | some level ↦ ok level
  ]

  -- An input is read from the chip, and the level is stored if there is a slot for it.
  abbrev pub get_input : Gpio → GpioResource → ℕ → Result ℕ × Gpio
  get_input g r resource_id =
      if is_input r.mode
      then (let level = bit (d.gpio_get_level (pin_number r.pin) g.hw) in
          (ok level, (store g resource_id level).1))
      else (stored_level g resource_id, g)

  unfoldable pub get_level_by_resource : Gpio → DeviceProfile → ℕ → Result ℕ × Gpio
  get_level_by_resource g p resource_id = elim (find_gpio_by_id p resource_id) [
    | none ↦ (err invalid_resource, g)
    | some r ↦ get_input g r resource_id
  ]

  abbrev pub is_level : Result ℕ → ℕ → Bool
  is_level (ok level) wanted = level == wanted
  is_level (err e) wanted = false

  -- The loop of the comparison; a lookup may store the level of an input.
  unfoldable pub outputs_match : DeviceProfile → Gpio → List GpioResource → Bool × Gpio
  unfolding get_level_by_resource
  outputs_match p g [] = (true, g)
  outputs_match p g (r ∷ rs) =
      let (level, g') = get_level_by_resource g p r.resource_id in
      let skipped = outputs_match p g rs in
      let rest = outputs_match p g' rs in
      if not (is_safe_output r)
      then skipped
      else if is_level level (int_bit r.safe_level)
      then rest
      else (false, g')

  -- A profile pointer that is NULL is `none`.
  unfoldable pub outputs_match_safe_levels : Gpio → Option DeviceProfile → Bool × Gpio
  unfolding outputs_match
  outputs_match_safe_levels g none = (false, g)
  outputs_match_safe_levels g (some p) =
      if is_none p.gpio then (false, g) else outputs_match p g (elems p.gpio)

  unfoldable pub reset_state : d.Hw → Gpio
  reset_state hw = record {
    hw = hw;
    slots = replicate state_slots (record { used = false; resource_id = 0; level = 0 });
    safe_defaults_applied = 0;
  }
