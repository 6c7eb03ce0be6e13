-- ===== src/HostCall/Config.antt =====
-- The configuration table as a map from keys to values.
use pulse_esp32_host.Base.{
  c_string, ℕ, suc, ◌≤◌, ◌≡◌, ◌≢◌, inl, inr, refl, sym, ap, subst, ◌∙◌, true, false, Bool-cases,
  List, [], ◌∷◌, Option, none, some, Option-cases, Result, ok, err, wdc_ok, not_available,
  if◌then◌else◌, length, get_or, set, All, arith, Text, text_eq, text_eq_sound, text_eq_refl,
}
use pulse_esp32_host.Cbor.Find.{find_text, find_bytes}
use pulse_esp32_host.HostCall.Store.{
  ConfigSlot, blank_config, config_is, find_index, next_index, is_free_config, config_key_max,
  config_value_max,
}
use pulse_esp32_host.HostCall.Response.{response_status, config_answer, key_key, key_data}
use pulse_esp32_host.HostCall.Handlers.{
  Hooks, State, config_index, get_config, config_get, config_set,
}

-- The value under a key: that of the first slot with the key.
abbrev pub value_of : Text → List ConfigSlot → Option (List ℕ)
value_of key [] = none
value_of key (s ∷ ss) = if config_is key s then some s.value else value_of key ss

-- A key that C sees whole.
abbrev pub NulFree : Text → Type 0
NulFree key = All (λ (x : ℕ). x ≢ 0) key

c_string_whole : (key : Text) → NulFree key → c_string key ≡ key
c_string_whole [] h = refl
c_string_whole (x ∷ xs) (ne, h) = ground (arith, c_string_whole xs h)

abbrev slot_of : Text → List ℕ → ConfigSlot
slot_of key value = record { used = true; key = key; value = value }

config_is_own :
    (key : Text) (value : List ℕ) → NulFree key → config_is key (slot_of key value) ≡ true
config_is_own key value h = rw (c_string_whole key h) (text_eq_refl key)

config_is_other :
    (key other : Text) (value : List ℕ)
    → NulFree key
    → other ≢ key
    → config_is other (slot_of key value) ≡ false
config_is_other key other value h ne = elim (Bool-cases (config_is other (slot_of key value))) [
  | inl e ↦ absurd (ne (sym (text_eq_sound key other (rw (sym (c_string_whole key h)) e))))
  | inr e ↦ e
]

-- The key of a slot is the only key that it answers to.
config_is_unique :
    (key other : Text) (s : ConfigSlot)
    → other ≢ key
    → config_is key s ≡ true
    → config_is other s ≡ false
config_is_unique key other s ne h = elim (Bool-cases (config_is other s)) [
  | inl e ↦ absurd (
      ne (
        sym (text_eq_sound (c_string s.key) other (ground arith))
        ∙ text_eq_sound (c_string s.key) key (ground arith)))
  | inr e ↦ e
]

next_index-some :
    (o : Option ℕ) (i : ℕ) → next_index o ≡ some i → (j : ℕ) × (o ≡ some j) × (i ≡ suc j)
next_index-some none i h = absurd (ground arith)
next_index-some (some j) i h = (j, refl, ground arith)

next_index-none : (o : Option ℕ) → next_index o ≡ none → o ≡ none
next_index-none none h = refl
next_index-none (some j) h = absurd (ground arith)

-- After a write at index `i`, the key has the value and the other keys have theirs.
abbrev IsWritten : Text → List ℕ → List ConfigSlot → ℕ → Type 0
IsWritten key value table i =
    (value_of key (set table i (slot_of key value)) ≡ some value)
    × ((other : Text)
        → other ≢ key
        → value_of other (set table i (slot_of key value)) ≡ value_of other table)

module _ (key : Text) (value : List ℕ) (whole : NulFree key) where
  skip_slot :
      (s : ConfigSlot) (ss : List ConfigSlot) (j : ℕ)
      → config_is key s ≡ false
      → IsWritten key value ss j
      → IsWritten key value (s ∷ ss) (suc j)
  skip_slot s ss j miss (own, others) = (ground arith, λ other ne. ground (arith, others other ne))

  take_slot :
      (s : ConfigSlot) (ss : List ConfigSlot)
      → ((other : Text) → other ≢ key → config_is other s ≡ false)
      → IsWritten key value (s ∷ ss) 0
  take_slot s ss hides = (
    ground (arith, config_is_own key value whole),
    λ other ne. ground (arith, hides other ne, config_is_other key other value whole ne),
  )

  update-IsWritten :
      (table : List ConfigSlot) (i : ℕ)
      → find_index (config_is key) table ≡ some i
      → IsWritten key value table i
  update-IsWritten [] i h = absurd (ground arith)
  update-IsWritten (s ∷ ss) i h = elim (Bool-cases (config_is key s)) [
    | inl e ↦
        let zero_at : 0 ≡ i = ground arith in
        subst (IsWritten key value (s ∷ ss)) zero_at
          (take_slot s ss (λ other ne. config_is_unique key other s ne e))
    | inr e ↦
        let (j, at, same) = next_index-some (find_index (config_is key) ss) i (ground arith) in
        rw same (skip_slot s ss j e (update-IsWritten ss j at))
  ]

  fill-IsWritten :
      (table : List ConfigSlot) (i : ℕ)
      → find_index (config_is key) table ≡ none
      → find_index is_free_config table ≡ some i
      → IsWritten key value table i
  fill-IsWritten [] i h f = absurd (ground arith)
  fill-IsWritten (s ∷ ss) i h f = elim (Bool-cases (is_free_config s)) [
    | inl e ↦
        let zero_at : 0 ≡ i = ground arith in
        subst (IsWritten key value (s ∷ ss)) zero_at (take_slot s ss (λ other ne. ground arith))
    | inr e ↦
        let (j, at, same) = next_index-some (find_index is_free_config ss) i (ground arith) in
        let missed : config_is key s ≡ false = ground arith in
        rw same (
          skip_slot s ss j missed (
            fill-IsWritten ss j (next_index-none (find_index (config_is key) ss) (ground arith))
              at))
  ]

-- What config_get answers for the value of a key.
abbrev pub config_reply : ℕ → Option (List ℕ) → Result (List ℕ)
config_reply size none = response_status size (err not_available)
config_reply size (some value) = config_answer size value

abbrev value_at : List ConfigSlot → Option ℕ → Option (List ℕ)
value_at table none = none
value_at table (some i) = some (get_or table i blank_config).value

value_at-next :
    (s : ConfigSlot) (ss : List ConfigSlot) (o : Option ℕ)
    → value_at (s ∷ ss) (next_index o) ≡ value_at ss o
value_at-next s ss none = refl
value_at-next s ss (some i) = refl

value_at-find :
    (key : Text) (table : List ConfigSlot)
    → value_at table (find_index (config_is key) table) ≡ value_of key table
value_at-find key [] = refl
value_at-find key (s ∷ ss) = elim (Bool-cases (config_is key s)) [
  | inl e ↦ ground arith
  | inr e ↦ ground (arith, value_at-next s ss (find_index (config_is key) ss), value_at-find key ss)
]

module _ {W : Type 0} (hooks : Hooks W) where
  get_config-reply :
      (size : ℕ) (o : Option ℕ) (s : State hooks)
      → get_config hooks size o s ≡ (config_reply size (value_at s.host.config o), s)
  get_config-reply size none s = refl
  get_config-reply size (some i) s = refl

  config_get-reply :
      (req : List ℕ) (key : Text) (size : ℕ) (s : State hooks)
      → find_text req key_key ≡ ok key
      → config_get hooks req size s ≡ (config_reply size (value_of key s.host.config), s)
  unfolding config_get
  config_get-reply req key size s e = ground (
    arith,
    get_config-reply size (find_index (config_is key) s.host.config) s,
    value_at-find key s.host.config,
  )

  config_place :
      (key : Text) (value : List ℕ) (s : State hooks) (i : ℕ)
      → NulFree key
      → config_index hooks s key ≡ some i
      → IsWritten key value s.host.config i
  config_place key value s i whole h =
      elim (Option-cases (find_index (config_is key) s.host.config)) [
        | inl e ↦ fill-IsWritten key value whole s.host.config i e (ground arith)
        | inr (j, e) ↦ update-IsWritten key value whole s.host.config i (ground arith)
      ]

  config_set_step :
      (req : List ℕ) (key : Text) (value : List ℕ) (size i : ℕ) (s : State hooks)
      → find_text req key_key ≡ ok key
      → find_bytes req key_data ≡ ok value
      → length key ≢ 0
      → length key ≤ config_key_max
      → length value ≤ config_value_max
      → config_index hooks s key ≡ some i
      → config_set hooks req size s ≡ (
        response_status size wdc_ok,
        record s { host = record s.host { config = set s.host.config i (slot_of key value) } },
      )
  unfolding config_set
  config_set_step req key value size i s ek ev pos short fits at = ground arith

  -- The value of a key once another may have been written.
  value_after :
      (key other : Text) (value : List ℕ) (table : List ConfigSlot) (i : ℕ)
      → IsWritten key value table i
      → value_of other (set table i (slot_of key value))
        ≡ (if text_eq other key then some value else value_of other table)
  value_after key other value table i (own, others) = elim (Bool-cases (text_eq other key)) [
    | inl e ↦
        let same : other ≡ key = text_eq_sound other key e in
        rw e (ap (λ k. value_of k (set table i (slot_of key value))) same ∙ own)
    | inr e ↦ rw e (others other (λ same. different same e))
  ]
    where
      different : other ≡ key → text_eq other key ≡ false → ⊥
      different same e = absurd (ground (arith, text_eq_refl key, ap (λ k. text_eq k key) same))

  -- A value that is set under a key without NUL bytes, within the limits and with a slot to take, is
  -- what config_get answers for that key; every other key answers as before.
  pub config_set_then_get :
      (set_req get_req : List ℕ) (key other : Text) (value : List ℕ) (size : ℕ) (s : State hooks)
      → find_text set_req key_key ≡ ok key
      → find_bytes set_req key_data ≡ ok value
      → find_text get_req key_key ≡ ok other
      → NulFree key
      → length key ≢ 0
      → length key ≤ config_key_max
      → length value ≤ config_value_max
      → config_index hooks s key ≢ none
      → let (r, s') = config_set hooks set_req size s in
        (r ≡ response_status size wdc_ok)
        × (config_get hooks get_req size s' ≡ (
          config_reply size
              (if text_eq other key then some value else value_of other s.host.config),
          s',
        ))
  config_set_then_get set_req get_req key other value size s ek ev eo whole pos short fits room =
      elim (Option-cases (config_index hooks s key)) [
        | inl e ↦ absurd (room e)
        | inr (i, e) ↦
            let done = config_set_step set_req key value size i s ek ev pos short fits e in
            let after : State hooks = record s {
              host = record s.host { config = set s.host.config i (slot_of key value) };
            } in
            rw done (
              refl,
              config_get-reply get_req other size after eo
                  ∙ ap (λ v. (config_reply size v, after))
                      (value_after key other value s.host.config i
                        (config_place key value s i whole e)),
            )
      ]
