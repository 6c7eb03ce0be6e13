-- ===== src/Tests/Queue.antt =====
-- The event queue and the event envelope at concrete events.
use pulse_esp32_host.Base.{
  ℕ, ◌≡◌, ◌≤◌, List, [], ◌∷◌, none, some, ok, length, All, replicate, arith, refl,
}
use pulse_esp32_host.Cbor.Build.{begin_map, put_key_uint, put_key_bytes, put_raw}
use pulse_esp32_host.Events.Event.{Event, zero_event}
use pulse_esp32_host.Events.Queue.{Op, post, next, init, push, run, capacity}
use pulse_esp32_host.Events.Queue.Fifo
use pulse_esp32_host.Events.Queue.Inv.{init-IsValid}
use pulse_esp32_host.Events.Queue.Refine.{contents, view, push_refines, run_refines}
use pulse_esp32_host.Events.Queue.Admitted.{after, IsAdmitted, waiting-IsAdmitted}
use pulse_esp32_host.Events.Envelope.{encode_cbor, decode_envelope}
use pulse_esp32_host.Events.Carried.{IsEvent, event_round_trip}
use pulse_esp32_host.Events.Room.{envelope_max, envelope_fits}

-- A button event of two payload bytes, without an id yet.
abbrev button_event : Event
button_event = record zero_event {
  abi_major = 1;
  event_type = 2;
  resource_id = 7;
  timestamp_ms = 1500;
  payload_len = 2;
  payload = 1 ∷ 9 ∷ replicate 126 0;
}

abbrev three_ops : List Op
three_ops =
    post (some button_event) ∷ post none ∷ post (some button_event) ∷ next ∷ next ∷ next ∷ []

run_refines_example : run init three_ops ≡ Fifo.run (view init) three_ops
run_refines_example = run_refines three_ops init init-IsValid

push_refines_example :
    let (s, q) = push init (some button_event) in
    (s, view q) ≡ Fifo.put (view init) (some button_event)
push_refines_example = push_refines init (some button_event) init-IsValid

waiting-IsAdmitted_example :
    All IsAdmitted (contents (after init three_ops))
    × (length (contents (after init three_ops)) ≤ capacity)
waiting-IsAdmitted_example = waiting-IsAdmitted three_ops

button_event-IsEvent : IsEvent button_event
button_event-IsEvent = ground arith

-- What the encoder makes of the event: a map of six pairs.
abbrev button_bytes : List ℕ
button_bytes =
    0xa6 ∷ 12 ∷ 0x1a ∷ 0 ∷ 1 ∷ 0 ∷ 0 ∷ 13 ∷ 2 ∷ 14 ∷ 0 ∷ 15 ∷ 0x19 ∷ 5 ∷ 0xdc ∷ 3 ∷ 7 ∷ 16 ∷ 0x42
    ∷ 1 ∷ 9 ∷ []

button_encodes : encode_cbor (some button_event) (some 64) ≡ ok button_bytes
unfolding encode_cbor begin_map put_key_uint put_key_bytes put_raw
button_encodes = refl

event_round_trip_example : decode_envelope (some button_bytes) ≡ ok button_event
event_round_trip_example =
    event_round_trip button_event 64 button_bytes button_event-IsEvent button_encodes

envelope_fits_example :
    (bs : List ℕ) × (encode_cbor (some button_event) (some 200) ≡ ok bs)
    × (length bs ≤ envelope_max)
    × (decode_envelope (some bs) ≡ ok button_event)
envelope_fits_example = envelope_fits button_event 200 button_event-IsEvent (omega arith)
