-- ===== src/Gpio/Safe.antt =====
-- What the outputs are after the safe defaults were applied.
use pulse_esp32_host.Base.{
  ◌≡◌, ◌≢◌, refl, sym, subst, ◌∙◌, Bool, true, false, Bool-cases, inl, inr, List, [], ◌∷◌, some,
  Status, ok, err, wdc_ok, Result-cases, ◌==◌, All, All-map, arith,
}
use pulse_esp32_host.Profile.Defs.{
  GpioResource, DeviceProfile, elems, is_none, find_gpio_by_id, first, validate_basic,
}
use pulse_esp32_host.Profile.Valid.{IsGpio, IsProfile, validate_basic_iff}
use pulse_esp32_host.Gpio.Driver.{Driver, IsDriver}
use pulse_esp32_host.Gpio.Hal.{
  Gpio, int_bit, pin_number, find_level, configure_gpio, configure_all, count_safe, is_safe_output,
  apply_safe_gpio_defaults, get_level_by_resource, outputs_match, outputs_match_safe_levels,
}
use pulse_esp32_host.Gpio.Entry.{
  ApartFrom, Apart, AtSafeLevel, SafeWhen, IsSafe, configure_gpio-Keeps, configure_gpio-IsSafe,
}

module _ (d : Driver) (law : IsDriver d) where
  abbrev entry_done : Gpio d → GpioResource → Gpio d
  entry_done g r = count_safe d r (configure_gpio d g r).1

  all_cons :
      (g : Gpio d) (r : GpioResource) (rs : List GpioResource)
      → (configure_gpio d g r).0 ≡ wdc_ok
      → configure_all d g (r ∷ rs) ≡ configure_all d (entry_done g r) rs
  unfolding configure_all
  all_cons g r rs h = ground arith

  all_stop :
      (g : Gpio d) (r : GpioResource) (rs : List GpioResource) (e : _)
      → (configure_gpio d g r).0 ≡ err e
      → configure_all d g (r ∷ rs) ≡ (err e, (configure_gpio d g r).1)
  unfolding configure_all
  all_stop g r rs e h = ground arith

  -- The two states agree on the pin and on the level of an entry.
  abbrev Agrees : Gpio d → Gpio d → GpioResource → Type 0
  Agrees g g' r =
      (law.drives (pin_number r.pin) g'.hw ≡ law.drives (pin_number r.pin) g.hw)
      × (find_level g'.slots r.resource_id ≡ find_level g.slots r.resource_id)

  entry_done-Agrees :
      (g : Gpio d) (x r : GpioResource)
      → ApartFrom r x
      → Agrees g (configure_gpio d g x).1 r × Agrees g (entry_done g x) r
  entry_done-Agrees g x r (pin_ne, id_ne) =
      let (pins, ids) = configure_gpio-Keeps d law g x in
      let pin_same = pins (pin_number r.pin) (λ e. pin_ne (sym e)) in
      let id_same = ids r.resource_id (λ e. id_ne (sym e)) in
      ((pin_same, id_same), ground (arith, pin_same, id_same))

  All-Agrees :
      (g : Gpio d) (rs : List GpioResource) (r : GpioResource)
      → All (ApartFrom r) rs
      → Agrees g (configure_all d g rs).1 r
  All-Agrees g [] r a = unfold configure_all in (refl, refl)
  All-Agrees g (x ∷ rs) r (apart, a) =
      let (now, after) = entry_done-Agrees g x r apart in
      elim (Result-cases (configure_gpio d g x).0) [
        | inl (u, e) ↦
            let (pins, ids) = All-Agrees (entry_done g x) rs r a in
            rw (all_cons g x rs e) (pins ∙ after.0, ids ∙ after.1)
        | inr (err_code, e) ↦ rw (all_stop g x rs err_code e) now
      ]

  Agrees-IsSafe :
      (g g' : Gpio d) (r : GpioResource) → Agrees g g' r → IsSafe d law g r → IsSafe d law g' r
  Agrees-IsSafe g g' r (pins, ids) safe is_safe = (pins ∙ (safe is_safe).0, ids ∙ (safe is_safe).1)

  -- Once the loop over a table without conflicts succeeded, every safe output is safe.
  All-IsSafe :
      (g : Gpio d) (rs : List GpioResource)
      → Apart rs
      → (configure_all d g rs).0 ≡ wdc_ok
      → All (IsSafe d law (configure_all d g rs).1) rs
  All-IsSafe g [] a h = tt
  All-IsSafe g (r ∷ rs) (apart, a) h = elim (Result-cases (configure_gpio d g r).0) [
    | inl (u, e) ↦
        let first_safe : IsSafe d law (entry_done g r) r =
          λ s. ground (arith, configure_gpio-IsSafe d law g r e s) in
        let later = All-IsSafe (entry_done g r) rs a (rw (sym (all_cons g r rs e)) h) in
        subst (λ (k : Status × Gpio d). All (IsSafe d law k.1) (r ∷ rs)) (sym (all_cons g r rs e))
          (
            Agrees-IsSafe (entry_done g r) (configure_all d (entry_done g r) rs).1 r
                (All-Agrees (entry_done g r) rs r apart) first_safe,
            later,
          )
    | inr (err_code, e) ↦ absurd (ground (arith, all_stop g r rs err_code e))
  ]

-- The lookup of an entry's id finds the entry itself.
abbrev pub IsFound : List GpioResource → GpioResource → Type 0
IsFound table r = first (λ (x : GpioResource). x.resource_id == r.resource_id) table ≡ some r

lift-IsFound :
    (t : GpioResource) (table rs : List GpioResource)
    → All (ApartFrom t) rs
    → All (IsFound table) rs
    → All (IsFound (t ∷ table)) rs
lift-IsFound t table [] a f = tt
lift-IsFound t table (r ∷ rs) ((pin_ne, id_ne), a) (f, fs) =
    (ground arith, lift-IsFound t table rs a fs)

All-IsFound : (rs : List GpioResource) → Apart rs → All (IsFound rs) rs
All-IsFound [] a = tt
All-IsFound (r ∷ rs) (apart, a) = (ground arith, lift-IsFound r rs rs apart (All-IsFound rs a))

module _ (d : Driver) (law : IsDriver d) (p : DeviceProfile) where
  safe_level_read :
      (g : Gpio d) (r : GpioResource)
      → is_safe_output d r ≡ true
      → r.resource_id ≢ 0
      → IsFound (elems p.gpio) r
      → IsSafe d law g r
      → get_level_by_resource d g p r.resource_id ≡ (ok (int_bit r.safe_level), g)
  unfolding get_level_by_resource find_gpio_by_id
  safe_level_read g r out id found safe = ground (arith, (safe out).1)

  All-match :
      (g : Gpio d) (rs : List GpioResource)
      → All (λ (r : GpioResource). r.resource_id ≢ 0) rs
      → All (IsFound (elems p.gpio)) rs
      → All (IsSafe d law g) rs
      → outputs_match d p g rs ≡ (true, g)
  unfolding outputs_match
  All-match g [] ids founds safes = refl
  All-match g (r ∷ rs) (id, ids) (found, founds) (safe, safes) =
      elim (Bool-cases (is_safe_output d r)) [
        | inl out ↦
            ground (arith, safe_level_read g r out id found safe, All-match g rs ids founds safes)
        | inr other ↦ ground (arith, All-match g rs ids founds safes)
      ]

  ids_nonzero : IsProfile p → All (λ (r : GpioResource). r.resource_id ≢ 0) (elems p.gpio)
  ids_nonzero h =
      All-map (IsGpio p) (λ (r : GpioResource). r.resource_id ≢ 0) (elems p.gpio) (λ r g. g.id)
        h.gpio_valid

  table_given : IsProfile p → is_none p.gpio ≡ false
  table_given h = ground (arith, h.some_gpio)

  defaults-configure_all :
      (g : Gpio d)
      → (apply_safe_gpio_defaults d g p).0 ≡ wdc_ok
      → (validate_basic p ≡ wdc_ok)
        × (apply_safe_gpio_defaults d g p
            ≡ configure_all d (record g { safe_defaults_applied = 0 }) (elems p.gpio))
  unfolding apply_safe_gpio_defaults
  defaults-configure_all g h = ground arith

  match_given :
      (g : Gpio d)
      → is_none p.gpio ≡ false
      → outputs_match d p g (elems p.gpio) ≡ (true, g)
      → outputs_match_safe_levels d g (some p) ≡ (true, g)
  unfolding outputs_match_safe_levels
  match_given g given h = ground arith

  safe_when :
      (b : Bool) (g : Gpio d) (r : GpioResource)
      → (b ≡ true → AtSafeLevel d law g r)
      → SafeWhen d law b g r
  safe_when true g r h = h refl
  safe_when false g r h = tt

  -- When the safe defaults of a profile without conflicting entries were applied with success, every
  -- pin that has a safe level drives it, by the laws of the driver, and the comparison of the levels
  -- on record agrees without a change.
  pub defaults_make_safe :
      (g : Gpio d)
      → Apart (elems p.gpio)
      → (apply_safe_gpio_defaults d g p).0 ≡ wdc_ok
      → let g' = (apply_safe_gpio_defaults d g p).1 in
        All (λ r. SafeWhen d law (is_safe_output d r) g' r) (elems p.gpio)
        × (outputs_match_safe_levels d g' (some p) ≡ (true, g'))
  defaults_make_safe g apart h =
      let (valid, same) = defaults-configure_all g h in
      let good = (validate_basic_iff p).0 valid in
      let start : Gpio d = record g { safe_defaults_applied = 0 } in
      let safe : All (IsSafe d law (apply_safe_gpio_defaults d g p).1) (elems p.gpio) =
        subst (λ (k : Status × Gpio d). All (IsSafe d law k.1) (elems p.gpio)) (sym same)
          (All-IsSafe d law start (elems p.gpio) apart (rw (sym same) h)) in
      let g' = (apply_safe_gpio_defaults d g p).1 in
      (
        All-map (IsSafe d law g') (λ r. SafeWhen d law (is_safe_output d r) g' r) (elems p.gpio)
            (λ r h. safe_when (is_safe_output d r) g' r h) safe,
        match_given (apply_safe_gpio_defaults d g p).1 (table_given good) (
            All-match (apply_safe_gpio_defaults d g p).1 (elems p.gpio) (ids_nonzero good)
              (All-IsFound (elems p.gpio) apart) safe),
      )
