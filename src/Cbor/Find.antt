-- ===== src/Cbor/Find.antt =====
-- The lookups of wdc_cbor.c. A message of no bytes and no map is the empty list.
use pulse_esp32_host.Base.{
  ℕ, zero, suc, ◌-◌, ◌^◌, Bool, true, false, not, ◌||◌, ◌&&◌, List, Result, ok, err, ◌>>=◌,
  bad_encoding, not_available, ltb, leb, ◌==◌, if◌then◌else◌, length, ℤ, pos, negsuc,
}
use pulse_esp32_host.Cbor.Build.{major_unsigned, major_negative, major_bytes, major_text, major_map}
use pulse_esp32_host.Cbor.Read.{Item, read_type_value, read_item, enough}

abbrev is_map_to : Result Item → ℕ → Bool
is_map_to (err e) len = false
is_map_to (ok item) len = item.major == major_map && item.next == len

unfoldable pub is_empty_or_map : List ℕ → Bool
is_empty_or_map buf =
    if length buf == 0 then true else is_map_to (read_item (enough buf) buf 0) (length buf)

-- The loop over the pairs that are left, from `offset` on.
unfoldable pub find_pair : List ℕ → ℕ → ℕ → ℕ → Result Item
find_pair buf key zero offset =
    if not (offset == length buf) then err bad_encoding else err not_available
find_pair buf key (suc n) offset = read_item (enough buf) buf offset >>= λ key_item.
    read_item (enough buf) buf key_item.next >>= λ value_item.
    (let rest = find_pair buf key n value_item.next in
      if key_item.major == major_unsigned && key_item.value == key then ok value_item else rest)

unfoldable pub find_item : List ℕ → ℕ → Result Item
unfolding find_pair
find_item buf key =
    if length buf == 0
    then err not_available
    else (read_type_value buf 0 >>= λ h.
        (if not (h.major == major_map) || ltb 32 h.value
          then err bad_encoding
          else find_pair buf key h.value h.next))

abbrev pub as_u32 : Item → Result ℕ
as_u32 item =
    if not (item.major == major_unsigned) || ltb (2 ^ 32 - 1) item.value
    then err bad_encoding
    else ok item.value

abbrev pub as_u64 : Item → Result ℕ
as_u64 item = if not (item.major == major_unsigned) then err bad_encoding else ok item.value

abbrev pub as_i32 : Item → Result ℤ
as_i32 item =
    if item.major == major_unsigned && leb item.value (2 ^ 31 - 1)
    then ok (pos item.value)
    else if item.major == major_negative && leb item.value (2 ^ 31 - 1)
    then ok (negsuc item.value)
    else err bad_encoding

abbrev pub as_bool : Item → Result Bool
as_bool item = if not item.is_bool then err bad_encoding else ok item.bool_value

abbrev pub as_bytes : Item → Result (List ℕ)
as_bytes item = if not (item.major == major_bytes) then err bad_encoding else ok item.payload

abbrev pub as_text : Item → Result (List ℕ)
as_text item = if not (item.major == major_text) then err bad_encoding else ok item.payload

unfoldable pub find_u32 : List ℕ → ℕ → Result ℕ
find_u32 buf key = find_item buf key >>= as_u32

unfoldable pub find_u64 : List ℕ → ℕ → Result ℕ
find_u64 buf key = find_item buf key >>= as_u64

unfoldable pub find_i32 : List ℕ → ℕ → Result ℤ
find_i32 buf key = find_item buf key >>= as_i32

unfoldable pub find_bool : List ℕ → ℕ → Result Bool
find_bool buf key = find_item buf key >>= as_bool

unfoldable pub find_bytes : List ℕ → ℕ → Result (List ℕ)
find_bytes buf key = find_item buf key >>= as_bytes

unfoldable pub find_text : List ℕ → ℕ → Result (List ℕ)
find_text buf key = find_item buf key >>= as_text
