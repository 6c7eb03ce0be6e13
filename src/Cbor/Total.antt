-- ===== src/Cbor/Total.antt =====
-- The decoder ends on every message, whatever its bytes, and stays inside it.
use pulse_esp32_host.Base.{
  ℕ, zero, suc, ◌+◌, ◌*◌, ◌≤◌, ◌<◌, ◌≢◌, Bool, true, false, List, Result, ok, err, ◌>>=◌,
  unterminated, bad_encoding, ◌==◌, ◌&&◌, ◌||◌, not, if◌then◌else◌, ltb, length, arith,
}
use pulse_esp32_host.Cbor.Build.{major_unsigned, major_map}
use pulse_esp32_host.Cbor.Read.{
  Item, Head, plain_item, with_next, bool_item, read_type_value, skip_items, read_body, read_item,
  enough,
}
use pulse_esp32_host.Cbor.Find.{find_pair, find_item}

-- The fuel did not run out, and an item ends after its offset and inside the message.
abbrev pub Ends : List ℕ → ℕ → Result Item → Type 0
Ends buf offset (ok item) = (offset < item.next) × (item.next ≤ length buf)
Ends buf offset (err e) = e ≢ unterminated

abbrev HeadEnds : List ℕ → ℕ → Result Head → Type 0
HeadEnds buf offset (ok h) = (offset < h.next) × (h.next ≤ length buf)
HeadEnds buf offset (err e) = e ≢ unterminated

abbrev SkipEnds : List ℕ → ℕ → Result ℕ → Type 0
SkipEnds buf offset (ok n) = (offset ≤ n) × (n ≤ length buf)
SkipEnds buf offset (err e) = e ≢ unterminated

read_type_value-HeadEnds :
    (buf : List ℕ) (offset : ℕ) → HeadEnds buf offset (read_type_value buf offset)
unfolding read_type_value
read_type_value-HeadEnds buf offset = ground arith

SkipEnds-weaken :
    (buf : List ℕ) (low high : ℕ) (r : Result ℕ)
    → low ≤ high
    → SkipEnds buf high r
    → SkipEnds buf low r
SkipEnds-weaken buf low high (ok n) le h = omega arith
SkipEnds-weaken buf low high (err e) le h = h

then_skip-SkipEnds :
    (buf : List ℕ) (offset : ℕ) (r : Result Item) (rest : ℕ → Result ℕ)
    → Ends buf offset r
    → ((o : ℕ) → o ≤ length buf → offset ≤ o → SkipEnds buf o (rest o))
    → SkipEnds buf offset (r >>= λ item. rest item.next)
then_skip-SkipEnds buf offset (err e) rest h ih = h
then_skip-SkipEnds buf offset (ok item) rest h ih =
    SkipEnds-weaken buf offset item.next (rest item.next) (omega arith)
      (ih item.next (omega arith) (omega arith))

skip_items-SkipEnds :
    (read : ℕ → Result Item) (buf : List ℕ) (n offset : ℕ)
    → offset ≤ length buf
    → ((o : ℕ) → offset ≤ o → o ≤ length buf → Ends buf o (read o))
    → SkipEnds buf offset (skip_items read n offset)
unfolding skip_items
skip_items-SkipEnds read buf zero offset h inner = (omega arith, h)
skip_items-SkipEnds read buf (suc n) offset h inner =
    then_skip-SkipEnds buf offset (read offset) (skip_items read n) (inner offset (omega arith) h)
      (λ o le ge. skip_items-SkipEnds read buf n o le (λ o' ge' le'. inner o' (omega arith) le'))

skipped-Ends :
    (buf : List ℕ) (offset : ℕ) (h : Head) (r : Result ℕ)
    → offset < h.next
    → SkipEnds buf h.next r
    → Ends buf offset (r >>= λ n. ok (with_next (plain_item h) n))
skipped-Ends buf offset h (ok n) lt e = omega arith
skipped-Ends buf offset h (err x) lt e = e

module _ (read : ℕ → Result Item) (buf : List ℕ) (offset : ℕ)
    (inner : (o : ℕ) → offset < o → o ≤ length buf → Ends buf o (read o)) where
  skips-Ends :
      (h : Head) (n : ℕ)
      → offset < h.next
      → h.next ≤ length buf
      → Ends buf offset (skip_items read n h.next >>= λ k. ok (with_next (plain_item h) k))
  skips-Ends h n lt le =
      skipped-Ends buf offset h (skip_items read n h.next) lt
        (skip_items-SkipEnds read buf n h.next le (λ o ge le'. inner o (omega arith) le'))

  read_body-Ends :
      (h : Head) → offset < h.next → h.next ≤ length buf → Ends buf offset (read_body read buf h)
  unfolding read_body
  read_body-Ends h lt le =
      ground (arith, skips-Ends h h.value lt le, skips-Ends h (2 * h.value) lt le)

then_body-Ends :
    (read : ℕ → Result Item) (buf : List ℕ) (offset : ℕ) (r : Result Head)
    → ((o : ℕ) → offset < o → o ≤ length buf → Ends buf o (read o))
    → HeadEnds buf offset r
    → Ends buf offset (r >>= read_body read buf)
then_body-Ends read buf offset (ok h) inner e = read_body-Ends read buf offset inner h e.0 e.1
then_body-Ends read buf offset (err x) inner e = e

-- With more fuel than bytes are left, read_item ends.
read_item-Ends :
    (fuel : ℕ) (buf : List ℕ) (offset : ℕ)
    → length buf < fuel + offset
    → offset ≤ length buf
    → Ends buf offset (read_item fuel buf offset)
unfolding read_item bool_item
read_item-Ends zero buf offset h le = absurd (omega arith)
read_item-Ends (suc fuel) buf offset h le = ground (
  arith,
  then_body-Ends (read_item fuel buf) buf offset (read_type_value buf offset)
      (λ (o : ℕ) (lt : offset < o) (in_buf : o ≤ length buf).
        read_item-Ends fuel buf o (omega arith) in_buf)
      (read_type_value-HeadEnds buf offset),
)

abbrev EndsFind : Result Item → Type 0
EndsFind (ok item) = Unit
EndsFind (err e) = e ≢ unterminated

hit_or_rest :
    (hit : Bool) (item : Item) (rest : Result Item)
    → EndsFind rest
    → EndsFind (if hit then ok item else rest)
hit_or_rest true item rest h = tt
hit_or_rest false item rest h = h

bind-EndsFind :
    (buf : List ℕ) (offset : ℕ) (r : Result Item) (f : Item → Result Item)
    → Ends buf offset r
    → ((item : Item) → item.next ≤ length buf → EndsFind (f item))
    → EndsFind (r >>= f)
bind-EndsFind buf offset (ok item) f h k = k item h.1
bind-EndsFind buf offset (err e) f h k = h

item-Ends :
    (buf : List ℕ) (offset : ℕ)
    → offset ≤ length buf
    → Ends buf offset (read_item (enough buf) buf offset)
item-Ends buf offset le = read_item-Ends (enough buf) buf offset (omega arith) le

find_pair-EndsFind :
    (buf : List ℕ) (key n offset : ℕ) → offset ≤ length buf → EndsFind (find_pair buf key n offset)
unfolding find_pair
find_pair-EndsFind buf key zero offset le = ground arith
find_pair-EndsFind buf key (suc n) offset le =
    bind-EndsFind buf offset (read_item (enough buf) buf offset) _ (item-Ends buf offset le)
      (λ key_item in_buf.
        bind-EndsFind buf key_item.next (read_item (enough buf) buf key_item.next) _
          (item-Ends buf key_item.next in_buf)
          (λ value_item in_buf'.
            hit_or_rest (key_item.major == major_unsigned && key_item.value == key) value_item
              (find_pair buf key n value_item.next)
              (find_pair-EndsFind buf key n value_item.next in_buf')))

find_head-EndsFind :
    (buf : List ℕ) (key : ℕ) (r : Result Head)
    → HeadEnds buf 0 r
    → EndsFind (
        r >>= λ h.
        if not (h.major == major_map) || ltb 32 h.value
        then err bad_encoding
        else find_pair buf key h.value h.next)
find_head-EndsFind buf key (ok h) e = ground (arith, find_pair-EndsFind buf key h.value h.next e.1)
find_head-EndsFind buf key (err x) e = e

find_item-EndsFind : (buf : List ℕ) (key : ℕ) → EndsFind (find_item buf key)
unfolding find_item
find_item-EndsFind buf key =
    ground
      (arith, find_head-EndsFind buf key (read_type_value buf 0) (read_type_value-HeadEnds buf 0))

not_unterminated : (r : Result Item) → EndsFind r → r ≢ err unterminated
not_unterminated (ok item) h = λ e. cc
not_unterminated (err x) h = λ e. h (ground arith)

-- Whatever the bytes of a message, the decoder ends on it within the fuel of its length: an item that
-- it reads ends after its offset and inside the message, and the search for a key comes to an answer.
pub decoder-Ends :
    (buf : List ℕ) (offset key : ℕ)
    → offset ≤ length buf
    → Ends buf offset (read_item (enough buf) buf offset) × (find_item buf key ≢ err unterminated)
decoder-Ends buf offset key le =
    (item-Ends buf offset le, not_unterminated (find_item buf key) (find_item-EndsFind buf key))
