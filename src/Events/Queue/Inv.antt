-- ===== src/Events/Queue/Inv.antt =====
-- The representation invariant of the event queue.
use pulse_esp32_host.Base.{◌≤◌, ◌<◌, ◌^◌, ◌≡◌, ◌≢◌, Option, none, some, arith, length, length-set}
use pulse_esp32_host.Events.Event.{Event}
use pulse_esp32_host.Events.Queue.{EventQueue, capacity, with_id, with_major, tail, init, push, pop}

pub record IsValid (q : EventQueue) : Type 0 where
  pub storage : length q.items ≡ capacity
  pub head_in : q.head < capacity
  pub count_in : q.count ≤ capacity
  pub id_nonzero : q.next_event_id ≢ 0
  pub id_word : q.next_event_id < 2 ^ 32
  pub dropped_word : q.dropped < 2 ^ 32

pub init-IsValid : IsValid init
unfolding init
init-IsValid = omega arith

pub push-IsValid : (q : EventQueue) (e : Option Event) → IsValid q → IsValid (push q e).1
unfolding push
push-IsValid q none v = v
push-IsValid q (some e) v =
    ground (arith, length-set q.items (tail q) (with_id q.next_event_id (with_major e)))

pub pop-IsValid : (q : EventQueue) → IsValid q → IsValid (pop q).1
unfolding pop
pop-IsValid q v = ground arith
