-- ===== src/HostCall/Store.antt =====
-- The static tables of wdc_host_call.c: levels, configuration and timers.
use pulse_esp32_host.Base.{
  c_string, ℕ, suc, Bool, false, not, ◌&&◌, List, [], ◌∷◌, Option, none, some, ltb, ◌==◌,
  if◌then◌else◌, replicate, Text, text_eq,
}

-- CONFIG_SLOTS, CONFIG_KEY_MAX, CONFIG_VALUE_MAX and TIMER_SLOTS
abbrev pub config_slots : ℕ
config_slots = 4

abbrev pub config_key_max : ℕ
config_key_max = 31

abbrev pub config_value_max : ℕ
config_value_max = 96

abbrev pub timer_slots : ℕ
timer_slots = 4

-- `key` holds the bytes before the NUL that config_set writes after them; the string that strlen
-- sees ends at the first NUL.
pub record ConfigSlot : Type 0 where
  pub used : Bool
  pub key : Text
  pub value : List ℕ

pub record TimerSlot : Type 0 where
  pub used : Bool
  pub timer_id : ℕ
  pub delay_ms : ℕ
  pub repeat : Bool

pub record HostLimits : Type 0 where
  pub max_request_bytes : ℕ
  pub max_response_bytes : ℕ

pub record Host : Type 0 where
  pub gpio_levels : List ℕ
  pub config : List ConfigSlot
  pub timers : List TimerSlot
  pub limits : HostLimits

abbrev pub blank_config : ConfigSlot
blank_config = record { used = false; key = []; value = [] }

abbrev pub blank_timer : TimerSlot
blank_timer = record { used = false; timer_id = 0; delay_ms = 0; repeat = false }

-- WDC_MAX_REQUEST_BYTES_DEFAULT and WDC_MAX_RESPONSE_BYTES_DEFAULT
unfoldable pub default_limits : HostLimits
default_limits = record { max_request_bytes = 2048; max_response_bytes = 2048 }

-- The static initialisers.
unfoldable pub host_init : Host
unfolding default_limits
host_init = record {
  gpio_levels = 0 ∷ 0 ∷ 1 ∷ 1 ∷ [];
  config = replicate config_slots blank_config;
  timers = replicate timer_slots blank_timer;
  limits = default_limits;
}

abbrev clamp : ℕ → ℕ → ℕ
clamp value default =
    let given = (if value == 0 then default else value) in
    if ltb default given then default else given

-- `none` is a NULL pointer.
unfoldable pub set_limits : Option HostLimits → Host → Host
unfolding default_limits
set_limits none h = record h { limits = default_limits }
set_limits (some l) h = record h {
  limits = record {
    max_request_bytes = clamp l.max_request_bytes default_limits.max_request_bytes;
    max_response_bytes = clamp l.max_response_bytes default_limits.max_response_bytes;
  };
}

-- strlen(slot.key) == key_len && memcmp(slot.key, key, key_len) == 0
abbrev pub config_is : Text → ConfigSlot → Bool
config_is key s = s.used && text_eq (c_string s.key) key

abbrev pub timer_is : ℕ → TimerSlot → Bool
timer_is timer_id s = s.used && s.timer_id == timer_id

abbrev pub next_index : Option ℕ → Option ℕ
next_index none = none
next_index (some i) = some (suc i)

-- The index of the first entry that passes a test, as an option for a result of -1.
abbrev pub find_index {ℓ} : {A : Type ℓ} → (A → Bool) → List A → Option ℕ
find_index test [] = none
find_index test (x ∷ xs) = if test x then some 0 else next_index (find_index test xs)

-- The index of an entry, or else of the first free slot.
abbrev pub or_else : Option ℕ → Option ℕ → Option ℕ
or_else none o = o
or_else (some i) o = some i

abbrev pub is_free_config : ConfigSlot → Bool
is_free_config c = not c.used

abbrev pub is_free_timer : TimerSlot → Bool
is_free_timer t = not t.used
