-- ===== src/Cbor/Read.antt =====
-- The decoder of wdc_cbor.c: one item at an offset of a message.
-- Bytes are below 256, so where the source joins shifted bytes by `|`, the sum is written.
use pulse_esp32_host.Base.{
  ℕ, zero, suc, ◌+◌, ◌-◌, ◌*◌, ◌/◌, ◌%◌, ◌^◌, Bool, true, false, ◌||◌, List, [], Result, ok, err,
  ◌>>=◌, bad_encoding, unterminated, ltb, leb, ◌==◌, if◌then◌else◌, length, get_or, take, drop,
}
use pulse_esp32_host.Cbor.Build.{
  major_bytes, major_text, major_array, major_map, major_tag, major_simple, simple_false,
  simple_true,
}

abbrev pub byte : List ℕ → ℕ → ℕ
byte buf i = get_or buf i 0

-- What read_type_value writes through its pointers.
pub record Head : Type 0 where
  pub major : ℕ
  pub value : ℕ
  pub next : ℕ

-- The loop over eight bytes: `n` are left, from `offset` on.
unfoldable pub read_shifted : List ℕ → ℕ → ℕ → ℕ → ℕ
read_shifted buf zero offset value = value
read_shifted buf (suc n) offset value =
    read_shifted buf n (offset + 1) (value * 256 + byte buf offset)

-- The argument after the first byte, by its low five bits `addl`.
unfoldable pub read_argument : List ℕ → ℕ → ℕ → ℕ → Result Head
read_argument buf major addl offset =
    let len = length buf in
    if leb addl 23
    then ok (record { major = major; value = addl; next = offset })
    else if addl == 24
    then (if leb len offset
        then err bad_encoding
        else ok (record { major = major; value = byte buf offset; next = offset + 1 }))
    else if addl == 25
    then (if ltb (len - offset) 2
        then err bad_encoding
        else ok (record {
          major = major;
          value = byte buf offset * 256 + byte buf (offset + 1);
          next = offset + 2;
        }))
    else if addl == 26
    then (if ltb (len - offset) 4
        then err bad_encoding
        else ok (record {
          major = major;
          value =
              byte buf offset * 2 ^ 24
              + byte buf (offset + 1) * 2 ^ 16
              + byte buf (offset + 2) * 256
              + byte buf (offset + 3);
          next = offset + 4;
        }))
    else if addl == 27
    then (if ltb (len - offset) 8
        then err bad_encoding
        else ok (record { major = major; value = read_shifted buf 8 offset 0; next = offset + 8 }))
    else err bad_encoding

unfoldable pub read_type_value : List ℕ → ℕ → Result Head
unfolding read_argument
read_type_value buf offset =
    if leb (length buf) offset
    then err bad_encoding
    else read_argument buf (byte buf offset / 32) (byte buf offset % 32) (offset + 1)

-- `payload` holds the bytes that the pointer and the length of the source name.
pub record Item : Type 0 where
  pub major : ℕ
  pub value : ℕ
  pub payload : List ℕ
  pub next : ℕ
  pub is_bool : Bool
  pub bool_value : Bool

abbrev pub plain_item : Head → Item
plain_item h = record {
  major = h.major;
  value = h.value;
  payload = [];
  next = h.next;
  is_bool = false;
  bool_value = false;
}

-- A loop of `n` calls of skip_item, which keeps only where each item ends.
unfoldable pub skip_items : (ℕ → Result Item) → ℕ → ℕ → Result ℕ
skip_items read zero offset = ok offset
skip_items read (suc n) offset = read offset >>= λ item. skip_items read n item.next

abbrev pub with_next : Item → ℕ → Item
with_next item n = record item { next = n }

-- read_item once the head is read; `read` is the call for an inner item.
unfoldable pub read_body : (ℕ → Result Item) → List ℕ → Head → Result Item
unfolding skip_items
read_body read buf h =
    if h.major == major_bytes || h.major == major_text
    then (if ltb (2 ^ 32 - 1) h.value
          || ltb (length buf) h.next
          || ltb (length buf - h.next) h.value
        then err bad_encoding
        else ok (record (plain_item h) {
          payload = take h.value (drop h.next buf);
          next = h.next + h.value;
        }))
    else if h.major == major_array
    then (if ltb 32 h.value
        then err bad_encoding
        else skip_items read h.value h.next >>= λ n. ok (with_next (plain_item h) n))
    else if h.major == major_map
    then (if ltb 32 h.value
        then err bad_encoding
        else skip_items read (2 * h.value) h.next >>= λ n. ok (with_next (plain_item h) n))
    else if h.major == major_tag
    then err bad_encoding
    else ok (plain_item h)

unfoldable pub bool_item : ℕ → ℕ → Item
bool_item b offset = record {
  major = major_simple;
  value = 0;
  payload = [];
  next = offset + 1;
  is_bool = true;
  bool_value = b == simple_true;
}

-- `fuel` bounds the nesting, which the source leaves to the stack; an inner item starts at a later
-- offset, so the length of the message is fuel enough.
unfoldable pub read_item : ℕ → List ℕ → ℕ → Result Item
unfolding read_type_value read_body bool_item
read_item zero buf offset = err unterminated
read_item (suc fuel) buf offset =
    let inner = read_item fuel buf in
    if leb (length buf) offset
    then err bad_encoding
    else if byte buf offset == simple_false || byte buf offset == simple_true
    then ok (bool_item (byte buf offset) offset)
    else read_type_value buf offset >>= read_body inner buf

-- The fuel that the callers give.
abbrev pub enough : List ℕ → ℕ
enough buf = suc (length buf)
