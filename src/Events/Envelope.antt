-- ===== src/Events/Envelope.antt =====
-- The event envelope of components/wdc_events/wdc_event_encode.c. A pointer that may be NULL is an
-- option; what an output buffer holds after an error is not described.
use pulse_esp32_host.Base.{
  ℕ, ◌+◌, Bool, true, false, not, List, [], Option, none, some, Result, ok, err, ◌>>=◌, or_bad,
  or_missing, bad_length, bad_pointer, bad_encoding, unsupported_abi, ltb, ◌==◌, if◌then◌else◌,
  length, take,
}
use pulse_esp32_host.Cbor.Build.{Builder, builder_init, begin_map, put_key_uint, put_key_bytes}
use pulse_esp32_host.Cbor.Find.{is_empty_or_map, find_u32, find_u64, find_bytes}
use pulse_esp32_host.Events.Event.{
  Event, zero_event, payload_max, resource_none, abi_major_current, memcpy,
}

-- WDC_CBOR_KEY_RESOURCE_ID, _ABI_VERSION, _EVENT_TYPE, _EVENT_ID, _TIMESTAMP_MS and _PAYLOAD
abbrev pub key_resource_id : ℕ
key_resource_id = 3

abbrev pub key_abi_version : ℕ
key_abi_version = 12

abbrev pub key_event_type : ℕ
key_event_type = 13

abbrev pub key_event_id : ℕ
key_event_id = 14

abbrev pub key_timestamp_ms : ℕ
key_timestamp_ms = 15

abbrev pub key_payload : ℕ
key_payload = 16

-- WDC_R4_EVENT_ABI_VERSION, the major number in the upper half of the word
abbrev pub event_abi_version : ℕ
event_abi_version = 0x10000

abbrev pub when : Bool → (Builder → Result Builder) → Builder → Result Builder
when true f b = f b
when false f b = ok b

abbrev pub one_if : Bool → ℕ
one_if true = 1
one_if false = 0

-- The puts of wdc_event_encode_cbor, once its arguments are tested.
unfoldable pub encode_event : Event → ℕ → Result Builder
encode_event e out_cap =
    let has_resource = not (e.resource_id == resource_none) in
    let has_payload = not (e.payload_len == 0) in
    begin_map (4 + one_if has_resource + one_if has_payload) (builder_init out_cap) >>= λ b.
    put_key_uint key_abi_version event_abi_version b >>= λ b.
    put_key_uint key_event_type e.event_type b >>= λ b.
    put_key_uint key_event_id e.event_id b >>= λ b.
    put_key_uint key_timestamp_ms e.timestamp_ms b >>= λ b.
    when has_resource (put_key_uint key_resource_id e.resource_id) b
    >>= when has_payload (put_key_bytes key_payload (take e.payload_len e.payload))

-- `out` is the capacity of the buffer; the answer is the bytes written, whose number goes to out_len.
-- wdc_event_encode_envelope is this function.
unfoldable pub encode_cbor : Option Event → Option ℕ → Result (List ℕ)
unfolding encode_event
encode_cbor none out = err bad_pointer
encode_cbor (some e) none = err bad_pointer
encode_cbor (some e) (some out_cap) =
    if ltb payload_max e.payload_len
    then err bad_length
    else (encode_event e out_cap >>= λ b. ok b.bytes)

-- The payload is copied over the zeroed array.
abbrev pub with_payload : Event → List ℕ → Result Event
with_payload e p =
    if ltb payload_max (length p)
    then err bad_length
    else ok (record e { payload_len = length p; payload = memcpy e.payload p (length p) })

unfoldable pub decode_fields : List ℕ → Result Event
decode_fields buf = or_bad (find_u32 buf key_event_type) >>= λ event_type.
    or_bad (find_u32 buf key_event_id) >>= λ event_id.
    or_bad (find_u64 buf key_timestamp_ms) >>= λ timestamp_ms.
    or_missing (find_u32 buf key_resource_id) resource_none >>= λ resource_id.
    or_missing (find_bytes buf key_payload) []
    >>= with_payload (record zero_event {
      abi_major = abi_major_current;
      event_type = event_type;
      event_id = event_id;
      resource_id = resource_id;
      timestamp_ms = timestamp_ms;
    })

-- wdc_event_decode_cbor is this function.
unfoldable pub decode_envelope : Option (List ℕ) → Result Event
unfolding decode_fields
decode_envelope none = err bad_pointer
decode_envelope (some buf) =
    if not (is_empty_or_map buf)
    then err bad_encoding
    else (or_bad (find_u32 buf key_abi_version) >>= λ abi_version.
        if not (abi_version == event_abi_version) then err unsupported_abi else decode_fields buf)
