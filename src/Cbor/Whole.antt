-- ===== src/Cbor/Whole.antt =====
-- The put functions for keys and values write the bytes of their pair, and a map is written whole.
use mathlib.Core.List.{append-nil, append_assoc}
use pulse_esp32_host.Base.{
  ℕ, ◌<◌, ◌≡◌, refl, sym, subst, ◌∙◌, Bool, true, false, List, [], ◌∷◌, ◌++◌, Result, ok, err,
  ◌>>=◌, length, arith, response_too_small, ℤ, pos, negsuc, leb, if◌then◌else◌,
}
use pulse_esp32_host.Cbor.Build.{
  Builder, builder_init, major_unsigned, major_negative, major_bytes, major_text, major_map,
  put_raw, put_type_value, begin_map, put_key, put_key_uint, put_int, put_key_i32, put_key_bool,
  simple_of, put_key_bytes, put_key_text,
}
use pulse_esp32_host.Cbor.Writes.{
  Writes, head_bytes, put_u8-Writes, put_raw-Writes, seq-Writes, put_type_value-Writes,
}
use pulse_esp32_host.Cbor.Encoding.{
  Value, uint, sint, flag, bytes, text, sint_bytes, pair_bytes, pairs_bytes, map_bytes,
}

put_key-Writes : (key : ℕ) → Writes (put_key key) (head_bytes major_unsigned key)
unfolding put_key
put_key-Writes key = record { at = (put_type_value-Writes major_unsigned key (omega arith)).at }

pub begin_map-Writes : (pairs : ℕ) → Writes (begin_map pairs) (head_bytes major_map pairs)
unfolding begin_map
begin_map-Writes pairs = record { at = (put_type_value-Writes major_map pairs (omega arith)).at }

put_int-Writes : (i : ℤ) → Writes (put_int i) (sint_bytes i)
unfolding put_type_value
put_int-Writes (pos n) = put_type_value-Writes major_unsigned n (omega arith)
put_int-Writes (negsuc n) = put_type_value-Writes major_negative n (omega arith)

simple_of-byte : (v : Bool) → simple_of v < 256
simple_of-byte true = omega arith
simple_of-byte false = omega arith

-- The put function for a value of each type.
abbrev pub put_value : ℕ → Value → Builder → Result Builder
put_value key (uint n) = put_key_uint key n
put_value key (sint i) = put_key_i32 key i
put_value key (flag v) = put_key_bool key v
put_value key (bytes xs) = put_key_bytes key xs
put_value key (text xs) = put_key_text key xs

put_string-Writes :
    (key major : ℕ) (xs : List ℕ)
    → major < 8
    → Writes
        (λ b. (put_key key b >>= put_type_value major (length xs)) >>= put_raw xs)
        (head_bytes major_unsigned key ++ (head_bytes major (length xs) ++ xs))
put_string-Writes key major xs h =
    subst (Writes _)
      (append_assoc (head_bytes major_unsigned key) (head_bytes major (length xs)) xs)
      (seq-Writes (seq-Writes (put_key-Writes key) (put_type_value-Writes major (length xs) h))
        (put_raw-Writes xs))

-- A put function writes the bytes of its key and value, all of them or, without room, none that count.
pub put_value-Writes : (key : ℕ) (v : Value) → Writes (put_value key v) (pair_bytes (key, v))
put_value-Writes key (uint n) =
    unfold put_key_uint in
    seq-Writes (put_key-Writes key) (put_type_value-Writes major_unsigned n (omega arith))
put_value-Writes key (sint i) =
    unfold put_key_i32 in seq-Writes (put_key-Writes key) (put_int-Writes i)
put_value-Writes key (flag v) =
    unfold put_key_bool in
    seq-Writes (put_key-Writes key) (put_u8-Writes (simple_of v) (simple_of-byte v))
put_value-Writes key (bytes xs) =
    unfold put_key_bytes in put_string-Writes key major_bytes xs (omega arith)
put_value-Writes key (text xs) =
    unfold put_key_text in put_string-Writes key major_text xs (omega arith)

-- The puts of all pairs, in order.
unfoldable pub put_pairs : List (ℕ × Value) → Builder → Result Builder
put_pairs [] b = ok b
put_pairs ((key, v) ∷ ps) b = put_value key v b >>= put_pairs ps

-- How every caller builds a message: wdc_cbor_builder_init, wdc_cbor_begin_map, then the puts.
unfoldable pub build_map : ℕ → List (ℕ × Value) → Result Builder
unfolding put_pairs
build_map cap ps = begin_map (length ps) (builder_init cap) >>= put_pairs ps

then_ok : (r : Result Builder) → (r >>= ok) ≡ r
then_ok (ok b) = refl
then_ok (err e) = refl

then_assoc :
    (r : Result Builder) (f g : Builder → Result Builder)
    → ((r >>= f) >>= g) ≡ (r >>= λ b. f b >>= g)
then_assoc (ok b) f g = refl
then_assoc (err e) f g = refl

then_pairs-Writes :
    (ps : List (ℕ × Value)) {f : Builder → Result Builder} {xs : List ℕ}
    → Writes f xs
    → Writes (λ b. f b >>= put_pairs ps) (xs ++ pairs_bytes ps)
unfolding put_pairs
then_pairs-Writes [] {f} {xs} h = record { at = λ b. then_ok (f b) ∙ rw append-nil (h.at b) }
then_pairs-Writes ((key, v) ∷ ps) {f} {xs} h = record {
  at = λ b.
      sym (then_assoc (f b) (put_value key v) (put_pairs ps))
      ∙ rw (← append_assoc xs (pair_bytes (key, v)) (pairs_bytes ps))
          ((then_pairs-Writes ps (seq-Writes h (put_value-Writes key v))).at b);
}

-- A message is built whole if the buffer holds it, and the answer is WDC_ERR_RESPONSE_TOO_SMALL if
-- not, for every list of keys and values.
pub build_map_exact :
    (cap : ℕ) (ps : List (ℕ × Value))
    → build_map cap ps ≡ (
        if leb (length (map_bytes ps)) cap
        then ok (record { cap = cap; bytes = map_bytes ps })
        else err response_too_small)
unfolding build_map begin_map
build_map_exact size ps = ground (
  arith,
  (then_pairs-Writes ps (put_type_value-Writes major_map (length ps) (omega arith))).at
      (builder_init size),
)
