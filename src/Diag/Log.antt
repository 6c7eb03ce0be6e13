-- ===== src/Diag/Log.antt =====
-- The state and the functions of wdc_diag.c. The clock is an argument, in milliseconds; the console
-- output is left out. A record's message is what fits its buffer of WDC_DIAG_MESSAGE_MAX bytes.
use pulse_esp32_host.Base.{
  u32, ℕ, ◌+◌, ◌%◌, Bool, true, false, not, List, [], ◌++◌, Option, none, some, Result, ok, err,
  bad_length, ltb, leb, ◌==◌, if◌then◌else◌, get_or, set, replicate, ℤ, pos, Text, codes, printed,
  decimal,
}

-- WDC_DIAG_RING_CAPACITY, WDC_DIAG_MESSAGE_MAX and WDC_DIAG_BREADCRUMB_MAGIC
abbrev pub ring_capacity : ℕ
ring_capacity = 32

abbrev pub message_max : ℕ
message_max = 96

abbrev pub breadcrumb_magic : ℕ
breadcrumb_magic = 0x57444642

-- WDC_LOG_INFO, _WARN and _ERROR
abbrev pub log_info : ℕ
log_info = 1

abbrev pub log_warn : ℕ
log_warn = 2

abbrev pub log_error : ℕ
log_error = 3

pub record DiagRecord : Type 0 where
  pub seq : ℕ
  pub timestamp_ms : ℕ
  pub level : ℕ
  pub message : Text

pub data ResetClass : Type 0 where
  unknown power software watchdog panic brownout : ResetClass

pub record Breadcrumb : Type 0 where
  pub magic : ℕ
  pub generation : ℕ
  pub reset_reason : ℕ
  pub reset_class : ResetClass
  pub safety_state : ℤ
  pub fault_kind : ℤ
  pub fault_status : ℤ
  pub runtime_outcome : ℤ
  pub bundle_version : ℕ
  pub bundle : Text
  pub reason : Text

pub record Diag : Type 0 where
  pub ring_buf : List DiagRecord
  pub head : ℕ
  pub count : ℕ
  pub next_seq : ℕ
  pub dropped : ℕ
  pub boot_count : ℕ
  pub fault_count : ℕ
  pub last_reset_reason : ℕ
  pub last_reset_class : ResetClass
  pub breadcrumb : Breadcrumb
  pub breadcrumb_present : Bool
  pub initialized : Bool

abbrev pub blank_record : DiagRecord
blank_record = record { seq = 0; timestamp_ms = 0; level = 0; message = [] }

abbrev pub blank_breadcrumb : Breadcrumb
blank_breadcrumb = record {
  magic = 0;
  generation = 0;
  reset_reason = 0;
  reset_class = unknown;
  safety_state = pos 0;
  fault_kind = pos 0;
  fault_status = pos 0;
  runtime_outcome = pos 0;
  bundle_version = 0;
  bundle = [];
  reason = [];
}

unfoldable pub diag_init : Diag
diag_init = record {
  ring_buf = replicate ring_capacity blank_record;
  head = 0;
  count = 0;
  next_seq = 1;
  dropped = 0;
  boot_count = 0;
  fault_count = 0;
  last_reset_reason = 0;
  last_reset_class = unknown;
  breadcrumb = blank_breadcrumb;
  breadcrumb_present = false;
  initialized = true;
}

-- The first call of a function initialises the state.
abbrev pub ready : Diag → Diag
ready d = if d.initialized then d else diag_init

abbrev pub text_or : Text → Option Text → Text
text_or default none = default
text_or default (some t) = t

abbrev pub record_of : ℕ → ℕ → ℕ → Option Text → DiagRecord
record_of seq now level message = record {
  seq = seq;
  timestamp_ms = now;
  level = level;
  message = printed message_max (text_or [] message);
}

-- Once the state is initialised: the slot is chosen, then the record is written to it.
unfoldable pub log_ready : ℕ → ℕ → Option Text → Diag → Diag
log_ready now level message d =
    let full = not (ltb d.count ring_capacity) in
    let slot = (if full then d.head else (d.head + d.count) % ring_capacity) in
    record d {
      ring_buf = set d.ring_buf slot (record_of d.next_seq now level message);
      head = if full then (d.head + 1) % ring_capacity else d.head;
      count = if full then d.count else d.count + 1;
      dropped = if full then u32 (d.dropped + 1) else d.dropped;
      next_seq = u32 (d.next_seq + 1);
      fault_count = if level == log_error then u32 (d.fault_count + 1) else d.fault_count;
    }

-- wdc_diag_log, which always answers WDC_OK.
unfoldable pub diag_log : ℕ → ℕ → Option Text → Diag → Diag
unfolding log_ready diag_init
diag_log now level message d = log_ready now level message (ready d)

-- wdc_diag_classify_reset as built for the chip.
unfoldable pub classify_reset : ℕ → ResetClass
classify_reset reason =
    if reason == 1
    then power
    else if reason == 3
    then software
    else if reason == 4
    then panic
    else if reason == 7
    then watchdog
    else if reason == 8
    then watchdog
    else if reason == 9
    then watchdog
    else if reason == 10
    then brownout
    else unknown

abbrev boot_message : ℕ → Text → ℕ → Text
boot_message boot_count reset_name reset_reason =
    codes "boot #"
    ++ decimal boot_count
    ++ codes " reset="
    ++ reset_name
    ++ codes "("
    ++ decimal reset_reason
    ++ codes ")"

unfoldable pub note_boot : ℕ → ℕ → Option Text → Diag → Diag
unfolding diag_log classify_reset diag_init
note_boot now reset_reason reset_name d =
    let r = ready d in
    let boot_count = u32 (r.boot_count + 1) in
    diag_log now log_info
      (some (
        printed message_max
          (boot_message boot_count (text_or (codes "unknown") reset_name) reset_reason)))
      (record r {
        boot_count = boot_count;
        last_reset_reason = reset_reason;
        last_reset_class = classify_reset reset_reason;
      })

-- wdc_diag_get; `out` is not NULL.
unfoldable pub diag_get : Diag → ℕ → Result DiagRecord
diag_get d index =
    if leb d.count index
    then err bad_length
    else ok (get_or d.ring_buf ((d.head + index) % ring_capacity) blank_record)

unfoldable pub record_breadcrumb : ℤ → ℤ → ℤ → ℤ → Option Text → ℕ → Option Text → Diag → Diag
unfolding diag_init
record_breadcrumb safety_state fault_kind fault_status runtime_outcome bundle bundle_version reason
      d =
    let r = ready d in
    let next_generation = u32 (r.breadcrumb.generation + 1) in
    record r {
      breadcrumb = record {
        magic = breadcrumb_magic;
        generation = if next_generation == 0 then 1 else next_generation;
        reset_reason = r.last_reset_reason;
        reset_class = r.last_reset_class;
        safety_state = safety_state;
        fault_kind = fault_kind;
        fault_status = fault_status;
        runtime_outcome = runtime_outcome;
        bundle_version = bundle_version;
        bundle = printed 80 (text_or [] bundle);
        reason = printed message_max (text_or [] reason);
      };
      breadcrumb_present = true;
    }

unfoldable pub get_breadcrumb : Diag → Option Breadcrumb
get_breadcrumb d = if d.breadcrumb_present then some d.breadcrumb else none
