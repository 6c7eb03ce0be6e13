-- ===== src/Cbor/RoundTrip.antt =====
-- A message that was built is a map for the decoder, and its lookups find what was put.
use mathlib.Core.List.{append-nil}
use pulse_esp32_host.Base.{
  ℕ, suc, ◌+◌, ◌-◌, ◌*◌, ◌≤◌, ◌<◌, ◌≡◌, refl, sym, ap, subst, ◌∙◌, true, List, [], ◌∷◌, Result, ok,
  length, length-append, arith, All,
}
use pulse_esp32_host.Cbor.Build.{Builder, major_unsigned, major_map}
use pulse_esp32_host.Cbor.Read.{Item, skip_items, read_body, read_item, enough}
use pulse_esp32_host.Cbor.Find.{is_empty_or_map}
use pulse_esp32_host.Cbor.Writes.{head_bytes}
use pulse_esp32_host.Cbor.Place.{At, At-left, At-right}
use pulse_esp32_host.Cbor.Reads.{length-head_bytes}
use pulse_esp32_host.Cbor.Encoding.{
  Value, uint, value_bytes, pair_bytes, pairs_bytes, map_bytes, item_of, read_value, read_item_head,
}
use pulse_esp32_host.Cbor.Lookup.{PairFits, IsMessage, Answers, lookups_find_first, next_item_of}
use pulse_esp32_host.Cbor.Whole.{build_map, build_map_exact}

skip_item_step :
    (read : ℕ → Result Item) (n offset : ℕ) (item : Item)
    → read offset ≡ ok item
    → skip_items read (suc n) offset ≡ skip_items read n item.next
unfolding skip_items
skip_item_step read n offset item e = rw e refl

module _ (buf : List ℕ) (fuel : ℕ) where
  skip_pair :
      (k : ℕ) (v : Value) (n offset : ℕ)
      → PairFits (k, v)
      → At buf offset (pair_bytes (k, v))
      → skip_items (read_item (suc fuel) buf) (suc (suc n)) offset
        ≡ skip_items (read_item (suc fuel) buf) n (offset + length (pair_bytes (k, v)))
  skip_pair k v n offset (hk, hv) a =
      let key_bytes = head_bytes major_unsigned k in
      let middle = offset + length key_bytes in
      let ek =
        read_value fuel buf offset (uint k) (omega arith) (At-left key_bytes (value_bytes v) a) in
      let ev = read_value fuel buf middle v hv (At-right key_bytes (value_bytes v) a) in
      skip_item_step _ (suc n) offset (item_of (uint k) middle) ek
      ∙ skip_item_step _ n middle (item_of v (middle + length (value_bytes v))) ev
      ∙ ap (skip_items (read_item (suc fuel) buf) n) (
          next_item_of v (middle + length (value_bytes v))
          ∙ omega (arith, length-append key_bytes (value_bytes v)))

  skip_pairs :
      (ps : List (ℕ × Value)) (offset : ℕ)
      → All PairFits ps
      → At buf offset (pairs_bytes ps)
      → skip_items (read_item (suc fuel) buf) (2 * length ps) offset
        ≡ ok (offset + length (pairs_bytes ps))
  skip_pairs [] offset fit a = unfold skip_items in ap ok (omega arith)
  skip_pairs ((k, v) ∷ ps) offset (h, fit) a =
      let pair = pair_bytes (k, v) in
      ap (λ n. skip_items (read_item (suc fuel) buf) n offset) (omega arith)
      ∙ skip_pair k v (2 * length ps) offset h (At-left pair (pairs_bytes ps) a)
      ∙ skip_pairs ps (offset + length pair) fit (At-right pair (pairs_bytes ps) a)
      ∙ ap ok (omega (arith, length-append pair (pairs_bytes ps)))

map_body :
    (buf : List ℕ) (read : ℕ → Result Item) (n next end : ℕ)
    → n ≤ 32
    → skip_items read (2 * n) next ≡ ok end
    → end ≡ length buf
    → 0 < length buf
    → read_item (enough buf) buf 0
      ≡ read_body read buf (record { major = major_map; value = n; next = next })
    → is_empty_or_map buf ≡ true
unfolding is_empty_or_map read_body
map_body buf read n next end few e whole pos e' = ground arith

map_bytes-is_map : (ps : List (ℕ × Value)) → IsMessage ps → is_empty_or_map (map_bytes ps) ≡ true
map_bytes-is_map ps m =
    let buf = map_bytes ps in
    let head = head_bytes major_map (length ps) in
    let whole : At buf 0 buf = record {
      before = [];
      after = [];
      split = sym (append-nil _);
      place = refl;
    } in
    let split = length-append head (pairs_bytes ps) in
    let pos : 0 < length buf = omega (arith, split, length-head_bytes major_map (length ps)) in
    map_body buf (read_item (length buf) buf) (length ps) (0 + length head)
      (0 + length head + length (pairs_bytes ps)) m.few
      (subst
        (λ k.
          skip_items (read_item k buf) (2 * length ps) (0 + length head)
          ≡ ok (0 + length head + length (pairs_bytes ps)))
        (omega arith)
        (skip_pairs buf (length buf - 1) ps (0 + length head) m.fit
          (At-right head (pairs_bytes ps) whole)))
      (omega (arith, split)) pos
      (read_item_head (length buf) buf 0 major_map (length ps) (omega arith) (omega (arith, m.few))
        (At-left head (pairs_bytes ps) whole))

built_bytes :
    (size : ℕ) (ps : List (ℕ × Value)) (b : Builder)
    → build_map size ps ≡ ok b
    → b.bytes ≡ map_bytes ps
built_bytes size ps b e = ground (arith, build_map_exact size ps)

-- A message of at most 32 pairs that was built into any buffer is taken as a map by the decoder, and
-- under every key each typed lookup gives the value put first under that key, a number for each
-- number type that holds it, WDC_ERR_BAD_ENCODING if its type does not hold that value, and
-- WDC_ERR_NOT_AVAILABLE if no pair has the key.
pub build_then_find :
    (size : ℕ) (ps : List (ℕ × Value)) (b : Builder) (key : ℕ)
    → IsMessage ps
    → build_map size ps ≡ ok b
    → (is_empty_or_map b.bytes ≡ true) × Answers b.bytes key ps
build_then_find size ps b key m e =
    rw (built_bytes size ps b e) (map_bytes-is_map ps m, lookups_find_first ps key m)
