-- ===== src/Cbor/Build.antt =====
-- WdcCborBuilder and the put functions of wdc_cbor.c.
-- A builder holds the bytes written so far; its buffer is not NULL, which every caller checks
-- before. Where the source joins disjoint bits by `|`, the sum is written.
use pulse_esp32_host.Base.{
  ℕ, zero, suc, ◌+◌, ◌-◌, ◌*◌, ◌/◌, ◌%◌, ◌^◌, Bool, true, false, ◌||◌, List, [], ◌∷◌, ◌++◌, Result,
  ok, err, ◌>>=◌, response_too_small, ltb, leb, if◌then◌else◌, length, ℤ, pos, negsuc,
}

pub record Builder : Type 0 where
  pub cap : ℕ
  pub bytes : List ℕ

abbrev pub builder_init : ℕ → Builder
builder_init cap = record { cap = cap; bytes = [] }

abbrev pub append_bytes : Builder → List ℕ → Builder
append_bytes b xs = record b { bytes = b.bytes ++ xs }

abbrev pub major_unsigned : ℕ
major_unsigned = 0

abbrev pub major_negative : ℕ
major_negative = 1

abbrev pub major_bytes : ℕ
major_bytes = 2

abbrev pub major_text : ℕ
major_text = 3

abbrev pub major_array : ℕ
major_array = 4

abbrev pub major_map : ℕ
major_map = 5

abbrev pub major_tag : ℕ
major_tag = 6

abbrev pub major_simple : ℕ
major_simple = 7

abbrev pub simple_false : ℕ
simple_false = 0xf4

abbrev pub simple_true : ℕ
simple_true = 0xf5

unfoldable pub put_u8 : ℕ → Builder → Result Builder
put_u8 value b =
    if leb b.cap (length b.bytes)
    then err response_too_small
    else ok (append_bytes b (value % 256 ∷ []))

unfoldable pub put_raw : List ℕ → Builder → Result Builder
put_raw value b =
    if ltb b.cap (length value) || ltb (b.cap - length value) (length b.bytes)
    then err response_too_small
    else ok (append_bytes b value)

-- The loop over `shift`, from 8 * (n - 1) down to 0 in steps of 8.
unfoldable pub put_shifted : ℕ → ℕ → Builder → Result Builder
unfolding put_u8
put_shifted zero value b = ok b
put_shifted (suc n) value b = put_u8 (value / 2 ^ (8 * n) % 256) b >>= put_shifted n value

unfoldable pub put_type_value : ℕ → ℕ → Builder → Result Builder
unfolding put_u8 put_shifted
put_type_value major value b =
    let prefix = major * 32 in
    if leb value 23
    then put_u8 (prefix + value) b
    else if leb value 0xff
    then (put_u8 (prefix + 24) b >>= put_u8 value)
    else if leb value 0xffff
    then (put_u8 (prefix + 25) b >>= put_u8 (value / 256 % 256)) >>= put_u8 (value % 256)
    else if leb value 0xffff_ffff
    then put_u8 (prefix + 26) b >>= put_shifted 4 value
    else put_u8 (prefix + 27) b >>= put_shifted 8 value

unfoldable pub begin_map : ℕ → Builder → Result Builder
unfolding put_type_value
begin_map pairs b = put_type_value major_map pairs b

unfoldable pub put_key : ℕ → Builder → Result Builder
unfolding put_type_value
put_key key b = put_type_value major_unsigned key b

-- wdc_cbor_put_key_u32 and wdc_cbor_put_key_u64, which differ in the type of the value alone.
unfoldable pub put_key_uint : ℕ → ℕ → Builder → Result Builder
unfolding put_key
put_key_uint key value b = put_key key b >>= put_type_value major_unsigned value

-- -1 - value is n for the value -(n + 1).
abbrev pub put_int : ℤ → Builder → Result Builder
unfolding put_type_value
put_int (pos n) b = put_type_value major_unsigned n b
put_int (negsuc n) b = put_type_value major_negative n b

unfoldable pub put_key_i32 : ℕ → ℤ → Builder → Result Builder
unfolding put_key
put_key_i32 key value b = put_key key b >>= put_int value

abbrev pub simple_of : Bool → ℕ
simple_of true = simple_true
simple_of false = simple_false

unfoldable pub put_key_bool : ℕ → Bool → Builder → Result Builder
unfolding put_key
put_key_bool key value b = put_key key b >>= put_u8 (simple_of value)

unfoldable pub put_key_bytes : ℕ → List ℕ → Builder → Result Builder
unfolding put_key
put_key_bytes key value b =
    (put_key key b >>= put_type_value major_bytes (length value)) >>= put_raw value

-- The text is given without its final NUL, so that its length is strlen.
unfoldable pub put_key_text : ℕ → List ℕ → Builder → Result Builder
unfolding put_key
put_key_text key value b =
    (put_key key b >>= put_type_value major_text (length value)) >>= put_raw value
