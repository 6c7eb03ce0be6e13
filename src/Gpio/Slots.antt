-- ===== src/Gpio/Slots.antt =====
-- The table of levels of wdc_gpio_espidf.c as a map from resources to levels.
use pulse_esp32_host.Base.{
  ℕ, ◌≡◌, ◌≢◌, refl, true, List, [], ◌∷◌, Option, none, some, ok, arith, Bool-cases, inl, inr,
}
use pulse_esp32_host.Gpio.Hal.{
  GpioState, bit, find_level, write_first, holds_id, is_free, cons_to, set_state,
}

abbrev slot_of : ℕ → ℕ → GpioState
slot_of id level = record { used = true; resource_id = id; level = level }

cons_to-some :
    (s : GpioState) (o : Option (List GpioState)) (ss : List GpioState)
    → cons_to s o ≡ some ss
    → (rest : List GpioState) × (o ≡ some rest) × (ss ≡ s ∷ rest)
cons_to-some s none ss h = absurd (ground arith)
cons_to-some s (some rest) ss h = (rest, refl, ground arith)

module _ (id level : ℕ) where
  update-find :
      (slots new : List GpioState)
      → write_first (holds_id id) (slot_of id level) slots ≡ some new
      → find_level new id ≡ some level
  update-find [] new h = absurd (ground arith)
  update-find (s ∷ ss) new h = elim (Bool-cases (holds_id id s)) [
    | inl e ↦ ground arith
    | inr e ↦
        let (rest, e', at) =
          cons_to-some s (write_first (holds_id id) (slot_of id level) ss) new (ground arith) in
        rw at (ground (arith, update-find ss rest e'))
  ]

  update-others :
      (other : ℕ) (slots new : List GpioState)
      → other ≢ id
      → write_first (holds_id id) (slot_of id level) slots ≡ some new
      → find_level new other ≡ find_level slots other
  update-others other [] new ne h = absurd (ground arith)
  update-others other (s ∷ ss) new ne h = elim (Bool-cases (holds_id id s)) [
    | inl e ↦ ground arith
    | inr e ↦
        let (rest, e', at) =
          cons_to-some s (write_first (holds_id id) (slot_of id level) ss) new (ground arith) in
        rw at (ground (arith, update-others other ss rest ne e'))
  ]

  cons_to-none : (s : GpioState) (o : Option (List GpioState)) → cons_to s o ≡ none → o ≡ none
  cons_to-none s none h = refl
  cons_to-none s (some rest) h = absurd (ground arith)

  update-none :
      (slots : List GpioState)
      → write_first (holds_id id) (slot_of id level) slots ≡ none
      → find_level slots id ≡ none
  update-none [] h = refl
  update-none (s ∷ ss) h =
      let rest = cons_to-none s (write_first (holds_id id) (slot_of id level) ss) in
      ground (arith, rest, update-none ss)

  fill-find :
      (slots new : List GpioState)
      → find_level slots id ≡ none
      → write_first is_free (slot_of id level) slots ≡ some new
      → find_level new id ≡ some level
  fill-find [] new e h = absurd (ground arith)
  fill-find (s ∷ ss) new e h = elim (Bool-cases (is_free s)) [
    | inl f ↦ ground arith
    | inr f ↦
        let (rest, e', at) =
          cons_to-some s (write_first is_free (slot_of id level) ss) new (ground arith) in
        rw at (ground (arith, fill-find ss rest (ground arith) e'))
  ]

  fill-others :
      (other : ℕ) (slots new : List GpioState)
      → other ≢ id
      → write_first is_free (slot_of id level) slots ≡ some new
      → find_level new other ≡ find_level slots other
  fill-others other [] new ne h = absurd (ground arith)
  fill-others other (s ∷ ss) new ne h = elim (Bool-cases (is_free s)) [
    | inl f ↦ ground arith
    | inr f ↦
        let (rest, e', at) =
          cons_to-some s (write_first is_free (slot_of id level) ss) new (ground arith) in
        rw at (ground (arith, fill-others other ss rest ne e'))
  ]

-- A level that was stored is found, and the other levels are as before.
pub set_state-find :
    (slots new : List GpioState) (id level : ℕ)
    → set_state slots id level ≡ ok new
    → find_level new id ≡ some (bit level)
unfolding set_state
set_state-find slots new id level h = ground (
  arith,
  update-find id (bit level) slots new,
  fill-find id (bit level) slots new,
  update-none id (bit level) slots,
)

pub set_state-others :
    (slots new : List GpioState) (id level other : ℕ)
    → other ≢ id
    → set_state slots id level ≡ ok new
    → find_level new other ≡ find_level slots other
unfolding set_state
set_state-others slots new id level other ne h = ground (
  arith,
  update-others id (bit level) other slots new,
  fill-others id (bit level) other slots new,
)
