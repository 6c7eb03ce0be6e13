-- ===== src/Events/Carried.antt =====
-- An event that is encoded and decoded comes out as it went in.
use pulse_esp32_host.Base.{
  or_missing, ℕ, ◌+◌, ◌-◌, ◌≤◌, ◌<◌, ◌^◌, ◌≡◌, refl, sym, ap, ap₂, fun_ext, true, Bool-cases, inl,
  inr, not, List, [], ◌∷◌, ◌++◌, some, Result, ok, err, ◌>>=◌, ◌==◌, if◌then◌else◌, length,
  length-take, take-take, take-drop, drop-replicate, take, drop, replicate, arith, Result-cases,
}
use pulse_esp32_host.Cbor.Build.{Builder, builder_init, begin_map, put_key_uint, put_key_bytes}
use pulse_esp32_host.Cbor.Encoding.{Value, uint, bytes}
use pulse_esp32_host.Cbor.Lookup.{IsMessage, Answers}
use pulse_esp32_host.Cbor.Find.{is_empty_or_map, find_u32, find_u64, find_bytes}
use pulse_esp32_host.Cbor.Whole.{build_map, put_pairs}
use pulse_esp32_host.Cbor.RoundTrip.{build_then_find}
use pulse_esp32_host.Events.Event.{Event, payload_max, resource_none, abi_major_current, memcpy}
use pulse_esp32_host.Events.Envelope.{
  key_resource_id, key_abi_version, key_event_type, key_event_id, key_timestamp_ms, key_payload,
  event_abi_version, when, one_if, encode_event, encode_cbor, decode_envelope, decode_fields,
}

-- An event of the C type whose array is zero past its payload, with the current ABI major.
pub record IsEvent (e : Event) : Type 0 where
  pub major : e.abi_major ≡ abi_major_current
  pub type_word : e.event_type < 2 ^ 32
  pub id_word : e.event_id < 2 ^ 32
  pub resource_word : e.resource_id < 2 ^ 32
  pub time_word : e.timestamp_ms < 2 ^ 64
  pub fits : e.payload_len ≤ payload_max
  pub storage : length e.payload ≡ payload_max
  pub rest_zero : drop e.payload_len e.payload ≡ replicate (payload_max - e.payload_len) 0

abbrev pub resource_pair : Event → List (ℕ × Value)
resource_pair e =
    if e.resource_id == resource_none then [] else (key_resource_id, uint e.resource_id) ∷ []

abbrev pub payload_pair : Event → List (ℕ × Value)
payload_pair e =
    if e.payload_len == 0 then [] else (key_payload, bytes (take e.payload_len e.payload)) ∷ []

-- The pairs of the envelope, in the order of the puts.
abbrev pub event_pairs : Event → List (ℕ × Value)
event_pairs e =
    (key_abi_version, uint event_abi_version)
    ∷ (key_event_type, uint e.event_type)
    ∷ (key_event_id, uint e.event_id)
    ∷ (key_timestamp_ms, uint e.timestamp_ms)
    ∷ (resource_pair e ++ payload_pair e)

last_put : (r : Result Builder) → (r >>= put_pairs []) ≡ r
unfolding put_pairs
last_put (ok b) = refl
last_put (err e) = refl

-- The puts under a condition.
abbrev last_puts : Event → Builder → Result Builder
last_puts e b =
    when (not (e.resource_id == resource_none)) (put_key_uint key_resource_id e.resource_id) b
    >>= when (not (e.payload_len == 0)) (put_key_bytes key_payload (take e.payload_len e.payload))

last_puts-pairs :
    (e : Event) (b : Builder) → last_puts e b ≡ put_pairs (resource_pair e ++ payload_pair e) b
unfolding put_pairs
last_puts-pairs e b = elim (Bool-cases (e.resource_id == resource_none)) [
  | inl r ↦ elim (Bool-cases (e.payload_len == 0)) [
    | inl p ↦ rw (r, p) refl
    | inr p ↦ rw (r, p) (sym (last_put _))
  ]
  | inr r ↦ elim (Bool-cases (e.payload_len == 0)) [
    | inl p ↦ rw (r, p) refl
    | inr p ↦
        rw (r, p)
          (ap (λ k. put_key_uint key_resource_id e.resource_id b >>= k)
            (fun_ext (λ b'. sym (last_put _))))
  ]
]

abbrev pair_count : Event → ℕ
pair_count e = 4 + one_if (not (e.resource_id == resource_none)) + one_if (not (e.payload_len == 0))

pair_count-length : (e : Event) → pair_count e ≡ length (event_pairs e)
pair_count-length e = ground arith

pub encode_event-build_map :
    (e : Event) (size : ℕ) → encode_event e size ≡ build_map size (event_pairs e)
unfolding encode_event build_map put_pairs
encode_event-build_map e size =
    ap₂
      (λ n (k : Builder → Result Builder). begin_map n (builder_init size) >>= λ b.
        put_key_uint key_abi_version event_abi_version b >>= λ b.
        put_key_uint key_event_type e.event_type b >>= λ b.
        put_key_uint key_event_id e.event_id b >>= λ b.
        put_key_uint key_timestamp_ms e.timestamp_ms b >>= k)
      (pair_count-length e) (fun_ext (last_puts-pairs e))

module _ (e : Event) (h : IsEvent e) where
  pub event_pairs-IsMessage : IsMessage (event_pairs e)
  event_pairs-IsMessage = record {
    few = ground arith;
    fit = ground (
      arith,
      h.type_word,
      h.id_word,
      h.time_word,
      h.resource_word,
      h.fits,
      length-take e.payload_len e.payload (omega (arith, h.fits, h.storage)),
    );
  }

  payload_back :
      memcpy (replicate payload_max 0) (take e.payload_len e.payload) e.payload_len ≡ e.payload
  payload_back = rw (take-take, drop-replicate, ← h.rest_zero) (take-drop e.payload_len e.payload)

  pub payload_length : length (take e.payload_len e.payload) ≡ e.payload_len
  payload_length = length-take e.payload_len e.payload (omega (arith, h.fits, h.storage))

  module _ (buf : List ℕ) (found : (key : ℕ) → Answers buf key (event_pairs e)) where
    found_payload : or_missing (find_bytes buf key_payload) [] ≡ ok (take e.payload_len e.payload)
    found_payload = ground (arith, found key_payload)

    found_resource : or_missing (find_u32 buf key_resource_id) resource_none ≡ ok e.resource_id
    found_resource = ground (arith, found key_resource_id, h.resource_word)

    found_version : find_u32 buf key_abi_version ≡ ok event_abi_version
    found_version = (found key_abi_version).0

    found_type : find_u32 buf key_event_type ≡ ok e.event_type
    found_type = ground (arith, found key_event_type, h.type_word)

    found_id : find_u32 buf key_event_id ≡ ok e.event_id
    found_id = ground (arith, found key_event_id, h.id_word)

    found_time : find_u64 buf key_timestamp_ms ≡ ok e.timestamp_ms
    found_time = ground (arith, found key_timestamp_ms)

    event_back : is_empty_or_map buf ≡ true → decode_envelope (some buf) ≡ ok e
    unfolding decode_envelope decode_fields
    event_back m = ground (
      arith, found_version, found_type, found_id, found_time, found_resource, found_payload,
      payload_length, payload_back, h.major, h.fits,
    )

-- An encoded event, in whatever buffer it fits, is decoded to the event, for every event of the C
-- type with the current ABI major, a payload within its array, and zeros after it.
pub event_round_trip :
    (e : Event) (out_cap : ℕ) (bs : List ℕ)
    → IsEvent e
    → encode_cbor (some e) (some out_cap) ≡ ok bs
    → decode_envelope (some bs) ≡ ok e
unfolding encode_cbor
event_round_trip e out_cap bs h eq = elim (Result-cases (build_map out_cap (event_pairs e))) [
  | inl (b, built) ↦
      let same : b.bytes ≡ bs = ground (arith, encode_event-build_map e out_cap, h.fits) in
      let found = λ (key : ℕ).
        build_then_find out_cap (event_pairs e) b key (event_pairs-IsMessage e h) built in
      rw (← same) (event_back e h b.bytes (λ key. (found key).1) (found 0).0)
  | inr (x, failed) ↦ absurd (ground (arith, encode_event-build_map e out_cap, h.fits))
]
