-- ===== src/HostCall/Handlers.antt =====
-- The handlers of wdc_host_call.c. The hooks that other components install are an interface, on a
-- world of their own. An answer is the bytes of the response, whose number goes to out_len.
use pulse_esp32_host.Base.{
  ℕ, Bool, true, false, not, ◌||◌, List, Option, none, some, Result, Status, ok, err, wdc_ok,
  or_missing, bad_encoding, bad_length, invalid_resource, no_memory, not_available, ltb, ◌==◌,
  if◌then◌else◌, length, get_or, set, Text,
}
use pulse_esp32_host.Cbor.Find.{find_u32, find_bool, find_bytes, find_text}
use pulse_esp32_host.HostCall.Opcode.{Opcode}
use pulse_esp32_host.HostCall.Store.{
  Host, ConfigSlot, TimerSlot, blank_config, blank_timer, config_key_max, config_value_max,
  config_is, timer_is, find_index, or_else, is_free_config, is_free_timer,
}
use pulse_esp32_host.HostCall.Response.{
  key_resource_id, key_timer_id, key_delay_ms, key_repeat, key_key, key_data, response_status,
  response_status_value, config_answer, valid_resource, writable_resource, read_value,
}

-- The functions that wdc_host_call_set_authorizer and the other setters install, with their context.
-- An authorizer answers its own status and, on WDC_OK, its decision.
pub record Hooks (W : Type 0) : Type 0 where
  pub authorizer : Option (Opcode → List ℕ → W → Result Status × W)
  pub gpio_write : Option (ℕ → ℕ → W → Status × W)
  pub gpio_read : Option (ℕ → W → Result ℕ × W)
  pub net : Option (Opcode → List ℕ → ℕ → W → Result (List ℕ) × W)

module _ {W : Type 0} (hooks : Hooks W) where
  pub record State : Type 0 where
    pub host : Host
    pub world : W

  abbrev pub Reply : Type 0
  Reply = Result (List ℕ) × State

  -- A lookup in the request that fails answers WDC_ERR_BAD_ENCODING.
  abbrev pub need {ℓ} : {A : Type ℓ} → Result A → State → (A → Reply) → Reply
  need (ok a) s k = k a
  need (err e) s k = (err bad_encoding, s)

  abbrev pub write_level : State → ℕ → ℕ → State
  write_level s id value = record s {
    host = record s.host { gpio_levels = set s.host.gpio_levels id value };
  }

  unfoldable pub call_write : Option (ℕ → ℕ → W → Status × W) → ℕ → ℕ → State → Status × State
  call_write none id value s = (ok tt, s)
  call_write (some write) id value s =
      let (status, world) = write id value s.world in (status, record s { world = world })

  abbrev pub written_level : ℕ → ℕ → ℕ → Status × State → Reply
  written_level cap id value (err e, s) = (response_status cap (err e), s)
  written_level cap id value (ok u, s) = (response_status cap wdc_ok, write_level s id value)

  -- gpio_set once the request is read; the other `checked` functions follow their lookups too.
  abbrev pub checked_gpio_set : ℕ → State → ℕ → ℕ → Reply
  checked_gpio_set cap s id value =
      if not (valid_resource id)
      then (response_status cap (err invalid_resource), s)
      else if not (writable_resource id)
      then (response_status cap (err invalid_resource), s)
      else if ltb 1 value
      then (err bad_encoding, s)
      else written_level cap id value (call_write hooks.gpio_write id value s)

  unfoldable pub gpio_set : List ℕ → ℕ → State → Reply
  unfolding call_write
  gpio_set req cap s =
      need (find_u32 req key_resource_id) s
        (λ id. need (read_value req) s (checked_gpio_set cap s id))

  abbrev level_bit : ℕ → ℕ
  level_bit level = if level == 0 then 0 else 1

  abbrev pub own_level : ℕ → ℕ → State → Reply
  own_level cap id s = (response_status_value cap wdc_ok (get_or s.host.gpio_levels id 0), s)

  abbrev pub read_level : ℕ → ℕ → Result ℕ × State → Reply
  read_level cap id (ok level, s) = (response_status_value cap wdc_ok (level_bit level), s)
  read_level cap id (err not_available, s) = own_level cap id s
  read_level cap id (err e, s) = (response_status cap (err e), s)

  unfoldable pub call_read : Option (ℕ → W → Result ℕ × W) → ℕ → State → Result ℕ × State
  call_read none id s = (err not_available, s)
  call_read (some read) id s =
      let (level, world) = read id s.world in (level, record s { world = world })

  abbrev pub checked_gpio_get : ℕ → State → ℕ → Reply
  checked_gpio_get cap s id =
      if not (valid_resource id)
      then (response_status cap (err invalid_resource), s)
      else read_level cap id (call_read hooks.gpio_read id s)

  unfoldable pub gpio_get : List ℕ → ℕ → State → Reply
  unfolding call_read
  gpio_get req cap s = need (find_u32 req key_resource_id) s (checked_gpio_get cap s)

  abbrev pub checked_subscribe : ℕ → State → ℕ → Reply
  checked_subscribe cap s id =
      if not (valid_resource id)
      then (response_status cap (err invalid_resource), s)
      else (response_status cap wdc_ok, s)

  unfoldable pub gpio_subscribe : List ℕ → ℕ → State → Reply
  gpio_subscribe req cap s = need (find_u32 req key_resource_id) s (checked_subscribe cap s)

  abbrev pub put_timer : ℕ → TimerSlot → Option ℕ → State → Reply
  put_timer cap t none s = (response_status cap (err no_memory), s)
  put_timer cap t (some i) s = (
    response_status cap wdc_ok,
    record s { host = record s.host { timers = set s.host.timers i t } },
  )

  abbrev pub timer_index : State → ℕ → Option ℕ
  timer_index s id =
      or_else (find_index (timer_is id) s.host.timers) (find_index is_free_timer s.host.timers)

  abbrev pub checked_timer_set : ℕ → State → ℕ → ℕ → Bool → Reply
  checked_timer_set cap s id delay repeat =
      put_timer cap (record { used = true; timer_id = id; delay_ms = delay; repeat = repeat })
        (timer_index s id) s

  abbrev pub checked_delay : List ℕ → ℕ → State → ℕ → ℕ → Reply
  checked_delay req cap s id delay =
      if id == 0 || delay == 0
      then (err bad_encoding, s)
      else need (or_missing (find_bool req key_repeat) false) s (checked_timer_set cap s id delay)

  unfoldable pub timer_set : List ℕ → ℕ → State → Reply
  timer_set req cap s =
      need (find_u32 req key_timer_id) s
        (λ id. need (find_u32 req key_delay_ms) s (checked_delay req cap s id))

  abbrev pub clear_timer : Option ℕ → State → State
  clear_timer none s = s
  clear_timer (some i) s = record s {
    host = record s.host { timers = set s.host.timers i blank_timer };
  }

  abbrev pub checked_cancel : ℕ → State → ℕ → Reply
  checked_cancel cap s id =
      if id == 0
      then (err bad_encoding, s)
      else (response_status cap wdc_ok, clear_timer (find_index (timer_is id) s.host.timers) s)

  unfoldable pub timer_cancel : List ℕ → ℕ → State → Reply
  timer_cancel req cap s = need (find_u32 req key_timer_id) s (checked_cancel cap s)

  abbrev pub put_config : ℕ → ConfigSlot → Option ℕ → State → Reply
  put_config cap c none s = (response_status cap (err no_memory), s)
  put_config cap c (some i) s = (
    response_status cap wdc_ok,
    record s { host = record s.host { config = set s.host.config i c } },
  )

  abbrev pub config_index : State → Text → Option ℕ
  config_index s key =
      or_else (find_index (config_is key) s.host.config) (find_index is_free_config s.host.config)

  abbrev pub checked_config_set : ℕ → State → Text → List ℕ → Reply
  checked_config_set cap s key value =
      if length key == 0 || ltb config_key_max (length key) || ltb config_value_max (length value)
      then (err bad_length, s)
      else put_config cap (record { used = true; key = key; value = value }) (config_index s key) s

  unfoldable pub config_set : List ℕ → ℕ → State → Reply
  config_set req cap s =
      need (find_text req key_key) s
        (λ key. need (find_bytes req key_data) s (checked_config_set cap s key))

  abbrev pub get_config : ℕ → Option ℕ → State → Reply
  get_config cap none s = (response_status cap (err not_available), s)
  get_config cap (some i) s = (config_answer cap (get_or s.host.config i blank_config).value, s)

  abbrev pub checked_config_get : ℕ → State → Text → Reply
  checked_config_get cap s key = get_config cap (find_index (config_is key) s.host.config) s

  unfoldable pub config_get : List ℕ → ℕ → State → Reply
  config_get req cap s = need (find_text req key_key) s (checked_config_get cap s)

  abbrev pub clear_config : Option ℕ → State → State
  clear_config none s = s
  clear_config (some i) s = record s {
    host = record s.host { config = set s.host.config i blank_config };
  }

  abbrev pub checked_config_delete : ℕ → State → Text → Reply
  checked_config_delete cap s key =
      (response_status cap wdc_ok, clear_config (find_index (config_is key) s.host.config) s)

  unfoldable pub config_delete : List ℕ → ℕ → State → Reply
  config_delete req cap s = need (find_text req key_key) s (checked_config_delete cap s)

  unfoldable pub call_net :
      Option (Opcode → List ℕ → ℕ → W → Result (List ℕ) × W) → Opcode → List ℕ → ℕ → State → Reply
  call_net none opcode req cap s = (response_status cap (err not_available), s)
  call_net (some net) opcode req cap s =
      let (answer, world) = net opcode req cap s.world in (answer, record s { world = world })

  unfoldable pub network_call : Opcode → List ℕ → ℕ → State → Reply
  unfolding call_net
  network_call opcode req cap s = call_net hooks.net opcode req cap s
