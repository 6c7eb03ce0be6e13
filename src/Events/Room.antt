-- ===== src/Events/Room.antt =====
-- The room that an event envelope takes.
use pulse_esp32_host.Base.{
  ℕ, ◌+◌, ◌≤◌, ◌<◌, ◌^◌, ◌≡◌, Bool-cases, inl, inr, List, [], ◌∷◌, ◌++◌, some, ok, ◌==◌, length,
  length-append, take, arith,
}
use pulse_esp32_host.Cbor.Build.{major_unsigned, major_bytes, major_map}
use pulse_esp32_host.Cbor.Writes.{head_bytes}
use pulse_esp32_host.Cbor.Reads.{
  length-head_bytes, length-head_bytes_small, length-head_bytes_byte, length-head_bytes_word,
}
use pulse_esp32_host.Cbor.Encoding.{
  Value, uint, bytes, pairs_bytes, value_bytes, pair_bytes, map_bytes,
}
use pulse_esp32_host.Cbor.Whole.{build_map_exact}
use pulse_esp32_host.Events.Event.{Event, resource_none}
use pulse_esp32_host.Events.Envelope.{
  key_resource_id, key_abi_version, key_event_type, key_event_id, key_timestamp_ms, key_payload,
  event_abi_version, encode_cbor, decode_envelope,
}
use pulse_esp32_host.Events.Carried.{
  IsEvent, resource_pair, payload_pair, event_pairs, encode_event-build_map, payload_length,
  event_round_trip,
}

-- The bytes of the longest envelope: a map head, five keys of one byte with their values, and the
-- payload's key, head and bytes.
abbrev pub envelope_max : ℕ
envelope_max = 166

length-pairs_cons :
    (k : ℕ) (v : Value) (ps : List (ℕ × Value)) (n m : ℕ)
    → k ≤ 23
    → length (value_bytes v) ≤ n
    → length (pairs_bytes ps) ≤ m
    → length (pairs_bytes ((k, v) ∷ ps)) ≤ 1 + n + m
length-pairs_cons k v ps n m small fits rest = omega (
  arith,
  length-append (pair_bytes (k, v)) (pairs_bytes ps),
  length-append (head_bytes major_unsigned k) (value_bytes v),
  length-head_bytes_small major_unsigned k small,
)

length-word : (n : ℕ) → n < 2 ^ 32 → length (value_bytes (uint n)) ≤ 5
length-word n h = length-head_bytes_word major_unsigned n (omega arith)

module _ (e : Event) (h : IsEvent e) where
  length-payload_pair : length (pairs_bytes (payload_pair e)) ≤ 131
  length-payload_pair = elim (Bool-cases (e.payload_len == 0)) [
    | inl p ↦ rw p (omega arith)
    | inr p ↦ rw p (
        length-pairs_cons key_payload (bytes (take e.payload_len e.payload)) [] 130 0 (omega arith)
          bytes_fit (omega arith))
  ]
    where
      bytes_fit : length (value_bytes (bytes (take e.payload_len e.payload))) ≤ 130
      bytes_fit =
          let xs = take e.payload_len e.payload in
          omega (
            arith,
            length-append (head_bytes major_bytes (length xs)) xs,
            length-head_bytes_byte major_bytes (length xs)
                (omega (arith, payload_length e h, h.fits)),
            payload_length e h,
            h.fits,
          )

  length-last_pairs : length (pairs_bytes (resource_pair e ++ payload_pair e)) ≤ 137
  length-last_pairs = elim (Bool-cases (e.resource_id == resource_none)) [
    | inl r ↦ rw r (omega (arith, length-payload_pair))
    | inr r ↦ rw r (
        length-pairs_cons key_resource_id (uint e.resource_id) (payload_pair e) 5 131 (omega arith)
          (length-word e.resource_id h.resource_word) length-payload_pair)
  ]

  length-event_pairs : length (pairs_bytes (event_pairs e)) ≤ 165
  length-event_pairs =
      let last = resource_pair e ++ payload_pair e in
      let time : ℕ × Value = (key_timestamp_ms, uint e.timestamp_ms) in
      let id : ℕ × Value = (key_event_id, uint e.event_id) in
      let kind : ℕ × Value = (key_event_type, uint e.event_type) in
      let after_time = length-head_bytes major_unsigned e.timestamp_ms in
      let from_time =
        length-pairs_cons key_timestamp_ms (uint e.timestamp_ms) last 9 137 (omega arith)
          after_time.1 length-last_pairs in
      let from_id =
        length-pairs_cons key_event_id (uint e.event_id) (time ∷ last) 5 147 (omega arith)
          (length-word e.event_id h.id_word) from_time in
      let from_type =
        length-pairs_cons key_event_type (uint e.event_type) (id ∷ time ∷ last) 5 153 (omega arith)
          (length-word e.event_type h.type_word) from_id in
      length-pairs_cons key_abi_version (uint event_abi_version) (kind ∷ id ∷ time ∷ last) 5 159
        (omega arith) (length-word event_abi_version (omega arith)) from_type

  pair_count-small : length (event_pairs e) ≤ 23
  pair_count-small = ground (arith)

  length-envelope : length (map_bytes (event_pairs e)) ≤ envelope_max
  length-envelope = omega (
    arith,
    length-append (head_bytes major_map (length (event_pairs e))) (pairs_bytes (event_pairs e)),
    length-head_bytes_small major_map (length (event_pairs e)) pair_count-small,
    length-event_pairs,
  )

encode_done :
    (e : Event) (out_cap : ℕ)
    → IsEvent e
    → envelope_max ≤ out_cap
    → encode_cbor (some e) (some out_cap) ≡ ok (map_bytes (event_pairs e))
unfolding encode_cbor
encode_done e out_cap h room = ground (
  arith,
  encode_event-build_map e out_cap,
  build_map_exact out_cap (event_pairs e),
  length-envelope e h,
  h.fits,
)

-- Every such event is encoded if the buffer has 166 bytes, with or without a resource and a payload,
-- and the decoder gives it back.
pub envelope_fits :
    (e : Event) (out_cap : ℕ)
    → IsEvent e
    → envelope_max ≤ out_cap
    → (bs : List ℕ) × (encode_cbor (some e) (some out_cap) ≡ ok bs)
      × (length bs ≤ envelope_max)
      × (decode_envelope (some bs) ≡ ok e)
envelope_fits e out_cap h room =
    let done = encode_done e out_cap h room in
    (
      map_bytes (event_pairs e),
      done,
      length-envelope e h,
      event_round_trip e out_cap (map_bytes (event_pairs e)) h done,
    )
