-- ===== src/Events/Queue/Refine.antt =====
-- The event queue implements its FIFO.
use pulse_esp32_host.Base.{
  ◌≡◌, refl, List, [], ◌∷◌, Option, none, some, arith, ring, length-ring, ring-pos, ring-set_end,
}
use pulse_esp32_host.Events.Event.{Event, zero_event}
use pulse_esp32_host.Events.Queue.{
  EventQueue, capacity, with_id, with_major, tail, push, pop, Op, post, next, run,
}
use pulse_esp32_host.Events.Queue.Inv.{IsValid, push-IsValid, pop-IsValid}
use pulse_esp32_host.Events.Queue.Fifo
use pulse_esp32_host.Events.Queue.Fifo.{Fifo}

-- The events that wait, oldest first.
abbrev pub contents : EventQueue → List Event
contents q = ring zero_event capacity q.items q.head q.count

abbrev pub view : EventQueue → Fifo
view q = record { waiting = contents q; lost = q.dropped; fresh_id = q.next_event_id }

-- A push answers as the FIFO does and leaves the queue holding the FIFO's events: at the end in
-- order, or none with the drop counted when 16 events wait.
pub push_refines :
    (q : EventQueue) (e : Option Event)
    → IsValid q
    → let (s, q') = push q e in (s, view q') ≡ Fifo.put (view q) e
unfolding push Fifo.put
push_refines q none v = refl
push_refines q (some e) v = ground (
  arith,
  length-ring zero_event capacity q.items q.head q.count,
  ring-set_end zero_event capacity q.items (with_id q.next_event_id (with_major e)) q.count q.head
      (tail q),
)

-- A pop hands out the oldest event and leaves the others.
pub pop_refines :
    (q : EventQueue) → IsValid q → let (r, q') = pop q in (r, view q') ≡ Fifo.get (view q)
unfolding pop Fifo.get
pop_refines q v = ground (arith, ring-pos zero_event capacity q.items q.head q.count)

-- No sequence of posts and pops tells a valid queue from the FIFO of its contents.
pub run_refines : (ops : List Op) (q : EventQueue) → IsValid q → run q ops ≡ Fifo.run (view q) ops
unfolding run Fifo.run
run_refines [] q v = refl
run_refines (post e ∷ ops) q v =
    rw (run_refines ops (push q e).1 (push-IsValid q e v), ← push_refines q e v)
run_refines (next ∷ ops) q v = rw (run_refines ops (pop q).1 (pop-IsValid q v), ← pop_refines q v)
