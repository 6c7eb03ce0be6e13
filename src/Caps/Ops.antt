-- ===== src/Caps/Ops.antt =====
-- The names of kinds and operations in a manifest, and parse_ops_array of wdc_caps.c.
use Prim.Native.Nat.{bit_or}
use pulse_esp32_host.Base.{
  ℕ, zero, suc, List, [], ◌∷◌, none, some, Result, ok, err, bad_encoding, ◌>>=◌, ◌==◌,
  if◌then◌else◌, length, Text, text_eq, codes,
}
use pulse_esp32_host.Profile.Defs.{
  kind_none, kind_gpio, kind_sensor, kind_network, kind_config, kind_storage,
}
use pulse_esp32_host.Caps.Defs.{op_read, op_write, op_subscribe, op_publish, op_request}
use pulse_esp32_host.Caps.Scan.{
  skip_blanks, find_key, extract_slice, find_matching, behind_bracket, Matched,
}

-- WDC_RESOURCE_KIND_I2C, _BLE, _DIAGNOSTICS and _CLOCK
abbrev pub kind_i2c : ℕ
kind_i2c = 3

abbrev pub kind_ble : ℕ
kind_ble = 5

abbrev pub kind_diagnostics : ℕ
kind_diagnostics = 8

abbrev pub kind_clock : ℕ
kind_clock = 9

-- WDC_CAP_OP_NONE and _NOTIFY
abbrev pub op_none : ℕ
op_none = 0

abbrev pub op_notify : ℕ
op_notify = 32

-- The number that stands beside a text in a table, by slice_eq.
abbrev pub number_of : Text → ℕ → List (Text × ℕ) → ℕ
number_of text default [] = default
number_of text default ((literal, n) ∷ table) =
    if text_eq text literal then n else number_of text default table

abbrev kind_names : List (Text × ℕ)
kind_names =
    (codes "gpio", kind_gpio)
    ∷ (codes "sensor", kind_sensor)
    ∷ (codes "i2c", kind_i2c)
    ∷ (codes "network", kind_network)
    ∷ (codes "ble", kind_ble)
    ∷ (codes "config", kind_config)
    ∷ (codes "storage", kind_storage)
    ∷ (codes "diagnostics", kind_diagnostics)
    ∷ (codes "clock", kind_clock)
    ∷ []

-- wdc_resource_kind_from_string
unfoldable pub resource_kind_from_string : Text → ℕ
resource_kind_from_string text = number_of text kind_none kind_names

abbrev op_names : List (Text × ℕ)
op_names =
    (codes "read", op_read)
    ∷ (codes "write", op_write)
    ∷ (codes "subscribe", op_subscribe)
    ∷ (codes "publish", op_publish)
    ∷ (codes "request", op_request)
    ∷ (codes "notify", op_notify)
    ∷ []

-- wdc_cap_op_from_string
unfoldable pub cap_op_from_string : Text → ℕ
cap_op_from_string text = number_of text op_none op_names

-- One round of parse_ops_array: the flag of the text that stands next, and what is behind it; a comma has no flag.
abbrev next_op : List ℕ → Result (ℕ × List ℕ)
next_op [] = err bad_encoding
next_op (x ∷ xs) =
    if x == 44
    then ok (op_none, xs)
    else extract_slice (x ∷ xs) >>= λ slice. ok (cap_op_from_string slice.0, slice.1)

abbrev add_ops : ℕ → (ℕ → List ℕ → ℕ) → Result (ℕ × List ℕ) → ℕ
add_ops ops next (err e) = ops
add_ops ops next (ok (op, rest)) = next (bit_or ops op) rest

-- The loop of parse_ops_array; a byte is fuel for a round.
unfoldable pub ops_loop : ℕ → ℕ → List ℕ → ℕ
unfolding skip_blanks cap_op_from_string extract_slice
ops_loop zero ops p = ops
ops_loop (suc fuel) ops p = add_ops ops (ops_loop fuel) (next_op (skip_blanks p))

abbrev ops_in : Matched → ℕ
unfolding ops_loop
ops_in none = op_none
ops_in (some (inner, rest)) = ops_loop (length inner) op_none (behind_bracket inner)

-- parse_ops_array
unfoldable pub parse_ops_array : List ℕ → ℕ
unfolding find_key find_matching ops_in
parse_ops_array object = elim (find_key (codes "ops") object) [
  | none ↦ op_none
  | some ops_value ↦ ops_in (find_matching 91 93 ops_value)
]
