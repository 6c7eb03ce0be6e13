-- ===== src/Events/Event.antt =====
-- WdcEvent and wdc_event_make of components/wdc_events (wdc_events.h, wdc_event_queue.c).
use pulse_esp32_host.Base.{
  ℕ, Bool, ◌&&◌, not, List, [], ◌++◌, Option, none, some, Result, ok, err, bad_length, bad_pointer,
  ltb, ◌==◌, if◌then◌else◌, take, drop, replicate,
}

-- WDC_EVENT_PAYLOAD_MAX
abbrev pub payload_max : ℕ
payload_max = 128

-- WDC_ABI_MAJOR and WDC_ABI_MINOR
abbrev pub abi_major_current : ℕ
abi_major_current = 1

abbrev pub abi_minor_current : ℕ
abi_minor_current = 0

-- WDC_EVENT_RESOURCE_NONE
abbrev pub resource_none : ℕ
resource_none = 0

-- `payload` is the array of payload_max bytes, of which payload_len are used.
pub record Event : Type 0 where
  pub abi_major : ℕ
  pub event_type : ℕ
  pub event_id : ℕ
  pub resource_id : ℕ
  pub timestamp_ms : ℕ
  pub payload_len : ℕ
  pub payload : List ℕ

-- memset(event, 0, sizeof(*event))
abbrev pub zero_event : Event
zero_event = record {
  abi_major = 0;
  event_type = 0;
  event_id = 0;
  resource_id = 0;
  timestamp_ms = 0;
  payload_len = 0;
  payload = replicate payload_max 0;
}

-- memcpy(dst, src, n)
abbrev pub memcpy : List ℕ → List ℕ → ℕ → List ℕ
memcpy dst src n = take n src ++ drop n dst

-- A pointer that may be NULL is an option.
abbrev pub is_null : Option (List ℕ) → Bool
is_null none = Bool.true
is_null (some p) = Bool.false

abbrev pub deref : Option (List ℕ) → List ℕ
deref none = []
deref (some p) = p

unfoldable pub make : ℕ → ℕ → ℕ → Option (List ℕ) → ℕ → Result Event
make event_type resource_id timestamp_ms payload payload_len =
    if ltb payload_max payload_len
    then err bad_length
    else if not (payload_len == 0) && is_null payload
    then err bad_pointer
    else ok (record zero_event {
      abi_major = abi_major_current;
      event_type = event_type;
      resource_id = resource_id;
      timestamp_ms = timestamp_ms;
      payload_len = payload_len;
      payload =
          if payload_len == 0
          then replicate payload_max 0
          else memcpy (replicate payload_max 0) (deref payload) payload_len;
    })
