-- ===== src/Events/Queue.antt =====
-- WdcEventQueue of components/wdc_events/wdc_event_queue.c. The functions on the one static queue,
-- wdc_events_post and the others, are these at that queue, so they have no second definition.
pub mod Fifo
pub mod Inv
pub mod Refine
pub mod Admitted
use pulse_esp32_host.Base.{
  u32, ℕ, ◌+◌, ◌-◌, ◌%◌, ◌^◌, ◌≡◌, Bool, List, Option, none, some, Result, ok, err, Status,
  bad_length, bad_pointer, busy, not_available, ltb, leb, ◌==◌, if◌then◌else◌, get_or, set,
  replicate,
}
use pulse_esp32_host.Events.Event.{Event, payload_max, abi_major_current, zero_event}

-- WDC_EVENT_QUEUE_CAPACITY_DEFAULT
abbrev pub capacity : ℕ
capacity = 16

pub record EventQueue : Type 0 where
  pub items : List Event
  pub head : ℕ
  pub count : ℕ
  pub dropped : ℕ
  pub next_event_id : ℕ

unfoldable pub init : EventQueue
init = record {
  items = replicate capacity zero_event;
  head = 0;
  count = 0;
  dropped = 0;
  next_event_id = 1;
}

-- next_event_id++, which steps over 0 when it wraps.
abbrev pub bump_id : ℕ → ℕ
bump_id n = if u32 (n + 1) == 0 then 1 else u32 (n + 1)

abbrev pub with_major : Event → Event
with_major e = if e.abi_major == 0 then record e { abi_major = abi_major_current } else e

abbrev pub with_id : ℕ → Event → Event
with_id n e = if e.event_id == 0 then record e { event_id = n } else e

-- The index that a push writes; head and count stay below 2 * capacity, so size_t does not wrap.
abbrev pub tail : EventQueue → ℕ
tail q = (q.head + q.count) % capacity

-- `none` is a NULL event.
unfoldable pub push : EventQueue → Option Event → Status × EventQueue
push q none = (err bad_pointer, q)
push q (some e) =
    if ltb payload_max e.payload_len
    then (err bad_length, q)
    else if leb capacity q.count
    then (err busy, record q { dropped = u32 (q.dropped + 1) })
    else (
      ok tt,
      record q {
        items = set q.items (tail q) (with_id q.next_event_id (with_major e));
        next_event_id = if e.event_id == 0 then bump_id q.next_event_id else q.next_event_id;
        count = q.count + 1;
      },
    )

-- The event goes through `out`; `count--` runs only at a count that is not 0.
unfoldable pub pop : EventQueue → Result Event × EventQueue
pop q = if q.count == 0 then (err not_available, q) else (
  ok (get_or q.items q.head zero_event),
  record q { head = (q.head + 1) % capacity; count = q.count - 1 },
)

-- wdc_events_get_stats; the overflow policy has one value, drop newest, and is left out.
pub record QueueStats : Type 0 where
  pub pending : ℕ
  pub dropped : ℕ
  pub capacity : ℕ

unfoldable pub get_stats : EventQueue → QueueStats
get_stats q = record { pending = q.count; dropped = q.dropped; capacity = capacity }

-- What the shell does with the queue between two looks at it.
pub data Op : Type 0 where
  post : Option Event → Op
  next : Op

abbrev pub Reply : Type 0
Reply = Status × Option Event

abbrev pub reply_of : Result Event → Reply
reply_of (ok e) = (ok tt, some e)
reply_of (err x) = (err x, none)

unfoldable pub run : EventQueue → List Op → List Reply
run q List.[] = List.[]
run q (List.◌∷◌ (post e) ops) = let (s, q') = push q e in List.◌∷◌ (s, none) (run q' ops)
run q (List.◌∷◌ next ops) = let (r, q') = pop q in List.◌∷◌ (reply_of r) (run q' ops)
