-- ===== src/Cbor/Lookup.antt =====
-- The lookups on a message that the put functions built.
use mathlib.Core.List.{append-nil}
use pulse_esp32_host.Base.{
  ℕ, suc, ◌+◌, ◌^◌, ◌≤◌, ◌<◌, ◌≡◌, refl, sym, ◌∙◌, Bool-cases, inl, inr, List, [], ◌∷◌, Option,
  none, some, Result, ok, err, ◌>>=◌, not_available, ◌==◌, if◌then◌else◌, length, length-append,
  arith, pos, negsuc, All,
}
use pulse_esp32_host.Cbor.Build.{major_unsigned, major_map}
use pulse_esp32_host.Cbor.Read.{Item, read_type_value, read_item, enough}
use pulse_esp32_host.Cbor.Find.{
  find_pair, find_item, find_u32, find_u64, find_i32, find_bool, find_bytes, find_text, as_u32,
  as_u64, as_i32, as_bool, as_bytes, as_text,
}
use pulse_esp32_host.Cbor.Writes.{head_bytes}
use pulse_esp32_host.Cbor.Place.{At, At-left, At-right}
use pulse_esp32_host.Cbor.Reads.{read_head, length-head_bytes}
use pulse_esp32_host.Cbor.Encoding.{
  Value, uint, sint, flag, bytes, text, value_bytes, pair_bytes, pairs_bytes, map_bytes, Fits,
  item_of, read_value,
}
use pulse_esp32_host.Cbor.Typed.{
  u32_in, u64_in, i32_in, bool_in, bytes_in, text_in, Gives, as_u32-Gives, as_u64-Gives,
  as_i32-Gives, as_bool-Gives, as_bytes-Gives, as_text-Gives,
}

-- The value of the first pair with the key.
abbrev pub lookup_value : ℕ → List (ℕ × Value) → Option Value
lookup_value key [] = none
lookup_value key ((k, v) ∷ ps) = if k == key then some v else lookup_value key ps

abbrev pub PairFits : ℕ × Value → Type 0
PairFits (k, v) = (k < 2 ^ 32) × Fits v

-- What a message must be for the decoder to take it: 32 pairs at most, of values that fit their types.
pub record IsMessage (ps : List (ℕ × Value)) : Type 0 where
  pub few : length ps ≤ 32
  pub fit : All PairFits ps

abbrev Finds : Result Item → Option Value → Type 0
Finds r none = r ≡ err not_available
Finds r (some v) = (n : ℕ) × (r ≡ ok (item_of v n)) × Fits v

pub next_item_of : (v : Value) (n : ℕ) → (item_of v n).next ≡ n
next_item_of (uint k) n = refl
next_item_of (sint (pos k)) n = refl
next_item_of (sint (negsuc k)) n = refl
next_item_of (flag b) n = refl
next_item_of (bytes xs) n = refl
next_item_of (text xs) n = refl

module _ (buf : List ℕ) (key : ℕ) where
  find_pair_step :
      (n offset k next end : ℕ) (v : Value)
      → read_item (enough buf) buf offset ≡ ok (item_of (uint k) next)
      → read_item (enough buf) buf next ≡ ok (item_of v end)
      → find_pair buf key (suc n) offset
        ≡ (if k == key then ok (item_of v end) else find_pair buf key n end)
  unfolding find_pair
  find_pair_step n offset k next end v e e' = ground (arith, next_item_of v end)

  find_pair-Finds :
      (ps : List (ℕ × Value)) (offset : ℕ)
      → All PairFits ps
      → At buf offset (pairs_bytes ps)
      → offset + length (pairs_bytes ps) ≡ length buf
      → Finds (find_pair buf key (length ps) offset) (lookup_value key ps)
  find_pair-Finds [] offset fit a whole = unfold find_pair in ground arith
  find_pair-Finds ((k, v) ∷ ps) offset ((hk, hv), fit) a whole =
      let key_bytes = head_bytes major_unsigned k in
      let pair = pair_bytes (k, v) in
      let here = At-left pair (pairs_bytes ps) a in
      let middle = offset + length key_bytes in
      let after = middle + length (value_bytes v) in
      let ek =
        read_value (length buf) buf offset (uint k) (omega arith)
          (At-left key_bytes (value_bytes v) here) in
      let ev = read_value (length buf) buf middle v hv (At-right key_bytes (value_bytes v) here) in
      let place : offset + length pair ≡ after =
        omega (arith, length-append key_bytes (value_bytes v)) in
      let later : At buf after (pairs_bytes ps) = rw place at (At-right pair (pairs_bytes ps) a) in
      let ih =
        find_pair-Finds ps after fit later (omega (arith, length-append pair (pairs_bytes ps))) in
      let step = find_pair_step (length ps) offset k middle after v ek ev in
      elim (Bool-cases (k == key)) [
        | inl hit ↦ rw hit (after, step ∙ rw hit, hv)
        | inr miss ↦ rw (miss, step) (rw miss ih)
      ]

find_item_step :
    (buf : List ℕ) (key n next : ℕ)
    → 0 < length buf
    → n ≤ 32
    → read_type_value buf 0 ≡ ok (record { major = major_map; value = n; next = next })
    → find_item buf key ≡ find_pair buf key n next
unfolding find_item
find_item_step buf key n next h le e = ground arith

find_item-Finds :
    (ps : List (ℕ × Value)) (key : ℕ)
    → IsMessage ps
    → Finds (find_item (map_bytes ps) key) (lookup_value key ps)
find_item-Finds ps key m =
    let buf = map_bytes ps in
    let head = head_bytes major_map (length ps) in
    let whole : At buf 0 (map_bytes ps) = record {
      before = [];
      after = [];
      split = sym (append-nil _);
      place = refl;
    } in
    let e =
      (read_head buf major_map (length ps) 0 (omega arith) (omega (arith, m.few))
        (At-left head (pairs_bytes ps) whole)).0 in
    let rest =
      find_pair-Finds buf key ps (0 + length head) m.fit (At-right head (pairs_bytes ps) whole)
        (omega (arith, length-append head (pairs_bytes ps))) in
    rw
      (find_item_step buf key (length ps) (0 + length head)
        (omega
          (arith, length-append head (pairs_bytes ps), length-head_bytes major_map (length ps)))
        m.few e)
      rest

-- What a lookup must answer for the value that a message holds under a key, if it holds one.
abbrev pub answer {ℓ} : {A : Type ℓ} → (Value → Result A) → Option Value → Result A
answer value_in none = err not_available
answer value_in (some v) = value_in v

answer_of_Finds {ℓ} :
    {A : Type ℓ} (conv : Item → Result A) (value_in : Value → Result A) (r : Result Item)
    (o : Option Value)
    → Gives conv value_in
    → Finds r o
    → (r >>= conv) ≡ answer value_in o
answer_of_Finds conv value_in r none g h = rw h
answer_of_Finds conv value_in r (some v) g (n, h, fits) = rw h (g v n fits)

module _ (ps : List (ℕ × Value)) (m : IsMessage ps) (key : ℕ) where
  pub find_u32-map_bytes : find_u32 (map_bytes ps) key ≡ answer u32_in (lookup_value key ps)
  unfolding find_u32
  find_u32-map_bytes = answer_of_Finds as_u32 u32_in _ _ as_u32-Gives (find_item-Finds ps key m)

  pub find_u64-map_bytes : find_u64 (map_bytes ps) key ≡ answer u64_in (lookup_value key ps)
  unfolding find_u64
  find_u64-map_bytes = answer_of_Finds as_u64 u64_in _ _ as_u64-Gives (find_item-Finds ps key m)

  pub find_i32-map_bytes : find_i32 (map_bytes ps) key ≡ answer i32_in (lookup_value key ps)
  unfolding find_i32
  find_i32-map_bytes = answer_of_Finds as_i32 i32_in _ _ as_i32-Gives (find_item-Finds ps key m)

  pub find_bool-map_bytes : find_bool (map_bytes ps) key ≡ answer bool_in (lookup_value key ps)
  unfolding find_bool
  find_bool-map_bytes = answer_of_Finds as_bool bool_in _ _ as_bool-Gives (find_item-Finds ps key m)

  pub find_bytes-map_bytes : find_bytes (map_bytes ps) key ≡ answer bytes_in (lookup_value key ps)
  unfolding find_bytes
  find_bytes-map_bytes =
      answer_of_Finds as_bytes bytes_in _ _ as_bytes-Gives (find_item-Finds ps key m)

  pub find_text-map_bytes : find_text (map_bytes ps) key ≡ answer text_in (lookup_value key ps)
  unfolding find_text
  find_text-map_bytes = answer_of_Finds as_text text_in _ _ as_text-Gives (find_item-Finds ps key m)

-- What the lookups answer in a message under a key is what the value put first under it says.
abbrev pub Answers : List ℕ → ℕ → List (ℕ × Value) → Type 0
Answers buf key ps =
    let v = lookup_value key ps in
    (find_u32 buf key ≡ answer u32_in v)
    × (find_u64 buf key ≡ answer u64_in v)
    × (find_i32 buf key ≡ answer i32_in v)
    × (find_bool buf key ≡ answer bool_in v)
    × (find_bytes buf key ≡ answer bytes_in v)
    × (find_text buf key ≡ answer text_in v)

-- On a message of at most 32 pairs that the put functions built, each lookup answers as the value of
-- the first pair with its key says, and WDC_ERR_NOT_AVAILABLE where no pair has the key.
pub lookups_find_first :
    (ps : List (ℕ × Value)) (key : ℕ) → IsMessage ps → Answers (map_bytes ps) key ps
lookups_find_first ps key m = (
  find_u32-map_bytes ps m key,
  find_u64-map_bytes ps m key,
  find_i32-map_bytes ps m key,
  find_bool-map_bytes ps m key,
  find_bytes-map_bytes ps m key,
  find_text-map_bytes ps m key,
)
