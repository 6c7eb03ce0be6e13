-- ===== src/Events/Queue/Admitted.antt =====
-- What holds of the events that wait in a queue, after any posts and pops.
use pulse_esp32_host.Base.{
  ◌≤◌, ◌≢◌, sym, subst, List, [], ◌∷◌, Option, none, some, Result, arith, length, All, All-append,
  length-ring, Status,
}
use pulse_esp32_host.Events.Event.{Event, payload_max, zero_event}
use pulse_esp32_host.Events.Queue.{
  EventQueue, capacity, with_id, with_major, init, push, pop, Op, post, next,
}
use pulse_esp32_host.Events.Queue.Inv.{IsValid, init-IsValid, push-IsValid, pop-IsValid}
use pulse_esp32_host.Events.Queue.Refine.{contents, view, push_refines, pop_refines}
use pulse_esp32_host.Events.Queue.Fifo
use pulse_esp32_host.Events.Queue.Fifo.{Fifo, take_from}

-- An event that a handler may be given: with an ABI major, an id, and a payload within its array.
pub record IsAdmitted (e : Event) : Type 0 where
  pub major : e.abi_major ≢ 0
  pub id : e.event_id ≢ 0
  pub fits : e.payload_len ≤ payload_max

pub after : EventQueue → List Op → EventQueue
after q [] = q
after q (post e ∷ ops) = after (push q e).1 ops
after q (next ∷ ops) = after (pop q).1 ops

put-Admitted :
    (f : Fifo) (e : Option Event)
    → f.fresh_id ≢ 0
    → All IsAdmitted f.waiting
    → All IsAdmitted (Fifo.put f e).1.waiting
unfolding Fifo.put
put-Admitted f none h a = a
put-Admitted f (some e) h a =
    ground (arith, All-append IsAdmitted f.waiting (with_id f.fresh_id (with_major e) ∷ []))

get-Admitted : (f : Fifo) → All IsAdmitted f.waiting → All IsAdmitted (Fifo.get f).1.waiting
unfolding Fifo.get
get-Admitted f a = ground arith

record IsClean (q : EventQueue) : Type 0 where
  valid : IsValid q
  admitted : All IsAdmitted (contents q)

push-IsClean : (q : EventQueue) (e : Option Event) → IsClean q → IsClean (push q e).1
push-IsClean q e c = record {
  valid = push-IsValid q e c.valid;
  admitted =
      subst (λ (r : Status × Fifo). All IsAdmitted r.1.waiting) (sym (push_refines q e c.valid))
        (put-Admitted (view q) e c.valid.id_nonzero c.admitted);
}

pop-IsClean : (q : EventQueue) → IsClean q → IsClean (pop q).1
pop-IsClean q c = record {
  valid = pop-IsValid q c.valid;
  admitted =
      subst (λ (r : Result Event × Fifo). All IsAdmitted r.1.waiting) (sym (pop_refines q c.valid))
        (get-Admitted (view q) c.admitted);
}

after-IsClean : (q : EventQueue) (ops : List Op) → IsClean q → IsClean (after q ops)
unfolding after
after-IsClean q [] c = c
after-IsClean q (post e ∷ ops) c = after-IsClean (push q e).1 ops (push-IsClean q e c)
after-IsClean q (next ∷ ops) c = after-IsClean (pop q).1 ops (pop-IsClean q c)

init-IsClean : IsClean init
unfolding init
init-IsClean = record { valid = unfold init in init-IsValid; admitted = tt }

-- After any posts and pops from the start, at most 16 events wait, and each has an ABI major, an id
-- that is not 0 and a payload length within its array, whatever the posted events held.
pub waiting-IsAdmitted :
    (ops : List Op)
    → All IsAdmitted (contents (after init ops)) × (length (contents (after init ops)) ≤ capacity)
waiting-IsAdmitted ops =
    let c = after-IsClean init ops init-IsClean in
    (
      c.admitted,
      omega (
        arith,
        length-ring zero_event capacity (after init ops).items (after init ops).head
            (after init ops).count,
        c.valid.count_in,
      ),
    )
