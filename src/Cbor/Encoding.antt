-- ===== src/Cbor/Encoding.antt =====
-- The messages that the put functions build, as bytes, and the lookups on them.
use pulse_esp32_host.Base.{
  ℕ, suc, ◌+◌, ◌^◌, ◌<◌, ◌≡◌, refl, ap, ◌∙◌, ◌⊎◌, Bool, true, false, inl, inr, List, [], ◌∷◌, ◌++◌,
  Result, ok, ◌>>=◌, length, length-append, arith, ℤ, pos, negsuc,
}
use pulse_esp32_host.Cbor.Build.{
  major_unsigned, major_negative, major_bytes, major_text, major_map, major_simple, simple_of,
}
use pulse_esp32_host.Cbor.Read.{
  byte, Head, Item, plain_item, bool_item, read_type_value, read_body, read_item,
}
use pulse_esp32_host.Cbor.Writes.{head_bytes}
use pulse_esp32_host.Cbor.Place.{At, At-left, At-right, At-room, At-byte, At-slice}
use pulse_esp32_host.Cbor.Reads.{read_head, length-head_bytes}

-- The values that the put functions write.
pub data Value : Type 0 where
  uint : ℕ → Value
  sint : ℤ → Value
  flag : Bool → Value
  bytes text : List ℕ → Value

abbrev pub sint_bytes : ℤ → List ℕ
sint_bytes (pos n) = head_bytes major_unsigned n
sint_bytes (negsuc n) = head_bytes major_negative n

abbrev pub value_bytes : Value → List ℕ
value_bytes (uint n) = head_bytes major_unsigned n
value_bytes (sint i) = sint_bytes i
value_bytes (flag b) = simple_of b ∷ []
value_bytes (bytes xs) = head_bytes major_bytes (length xs) ++ xs
value_bytes (text xs) = head_bytes major_text (length xs) ++ xs

abbrev pub pair_bytes : ℕ × Value → List ℕ
pair_bytes (key, v) = head_bytes major_unsigned key ++ value_bytes v

abbrev pub pairs_bytes : List (ℕ × Value) → List ℕ
pairs_bytes [] = []
pairs_bytes (p ∷ ps) = pair_bytes p ++ pairs_bytes ps

abbrev pub map_bytes : List (ℕ × Value) → List ℕ
map_bytes ps = head_bytes major_map (length ps) ++ pairs_bytes ps

abbrev pub IntFits : ℤ → Type 0
IntFits (pos n) = n < 2 ^ 31
IntFits (negsuc n) = n < 2 ^ 31

-- The values that the C types can hold.
abbrev pub Fits : Value → Type 0
Fits (uint n) = n < 2 ^ 64
Fits (sint i) = IntFits i
Fits (flag b) = Unit
Fits (bytes xs) = length xs < 2 ^ 32
Fits (text xs) = length xs < 2 ^ 32

abbrev pub int_item : ℤ → ℕ → Item
int_item (pos n) next = plain_item (record { major = major_unsigned; value = n; next = next })
int_item (negsuc n) next = plain_item (record { major = major_negative; value = n; next = next })

-- The item that the decoder makes of a value.
abbrev pub item_of : Value → ℕ → Item
item_of (uint n) next = plain_item (record { major = major_unsigned; value = n; next = next })
item_of (sint i) next = int_item i next
item_of (flag b) next = record {
  major = major_simple;
  value = 0;
  payload = [];
  next = next;
  is_bool = true;
  bool_value = b;
}
item_of (bytes xs) next =
    record (plain_item (record { major = major_bytes; value = length xs; next = next })) {
      payload = xs;
    }
item_of (text xs) next =
    record (plain_item (record { major = major_text; value = length xs; next = next })) {
      payload = xs;
    }

-- A first byte below the simple values is a head.
read_item_step :
    (fuel : ℕ) (buf : List ℕ) (offset : ℕ)
    → offset < length buf
    → byte buf offset < 0xe0
    → read_item (suc fuel) buf offset
      ≡ (read_type_value buf offset >>= read_body (read_item fuel buf) buf)
unfolding read_item
read_item_step fuel buf offset h lt = ground arith

-- An item of a major type below the simple values: its body decides.
pub read_item_head :
    (fuel : ℕ) (buf : List ℕ) (offset major value : ℕ)
    → major < 7
    → value < 2 ^ 64
    → At buf offset (head_bytes major value)
    → read_item (suc fuel) buf offset
      ≡ read_body
          (read_item fuel buf)
          buf
          (record { major = major; value = value; next = offset + length (head_bytes major value) })
read_item_head fuel buf offset major value h lt a =
    let (e, first) = read_head buf major value offset (omega arith) lt a in
    read_item_step fuel buf offset (omega (arith, length-head_bytes major value, At-room _ a))
      (omega (arith, first))
    ∙ ap (λ (r : Result Head). r >>= read_body (read_item fuel buf) buf) e

read_int :
    (fuel : ℕ) (buf : List ℕ) (offset : ℕ) (i : ℤ)
    → IntFits i
    → At buf offset (sint_bytes i)
    → read_item (suc fuel) buf offset ≡ ok (int_item i (offset + length (sint_bytes i)))
unfolding read_body
read_int fuel buf offset (pos n) h a =
    read_item_head fuel buf offset major_unsigned n (omega arith) (omega arith) a
read_int fuel buf offset (negsuc n) h a =
    read_item_head fuel buf offset major_negative n (omega arith) (omega arith) a

read_string :
    (fuel : ℕ) (buf : List ℕ) (offset major : ℕ) (xs : List ℕ)
    → (major ≡ major_bytes) ⊎ (major ≡ major_text)
    → length xs < 2 ^ 32
    → At buf offset (head_bytes major (length xs) ++ xs)
    → read_item (suc fuel) buf offset
      ≡ ok
          (record (plain_item (record {
            major = major;
            value = length xs;
            next = offset + length (head_bytes major (length xs) ++ xs);
          })) { payload = xs })
unfolding read_body
read_string fuel buf offset major xs m h a = ground (
  arith,
  read_item_head fuel buf offset major (length xs) (ground arith) (omega arith) (At-left _ xs a),
  At-slice xs (At-right (head_bytes major (length xs)) xs a),
  At-room _ a,
  length-append (head_bytes major (length xs)) xs,
)

-- Every value is read back, and the item ends where the value's bytes end.
pub read_value :
    (fuel : ℕ) (buf : List ℕ) (offset : ℕ) (v : Value)
    → Fits v
    → At buf offset (value_bytes v)
    → read_item (suc fuel) buf offset ≡ ok (item_of v (offset + length (value_bytes v)))
read_value fuel buf offset (uint n) h a =
    unfold read_body in read_item_head fuel buf offset major_unsigned n (omega arith) h a
read_value fuel buf offset (sint i) h a = read_int fuel buf offset i h a
read_value fuel buf offset (flag true) h a =
    unfold read_item bool_item in ground (arith, At-byte a, At-room _ a)
read_value fuel buf offset (flag false) h a =
    unfold read_item bool_item in ground (arith, At-byte a, At-room _ a)
read_value fuel buf offset (bytes xs) h a =
    read_string fuel buf offset major_bytes xs (inl refl) h a
read_value fuel buf offset (text xs) h a = read_string fuel buf offset major_text xs (inr refl) h a
