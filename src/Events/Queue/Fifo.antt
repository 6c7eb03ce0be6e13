-- ===== src/Events/Queue/Fifo.antt =====
-- What the event queue promises: a FIFO of at most `capacity` events that drops the newest, counts
-- what it drops, and numbers the events that come without an id.
use pulse_esp32_host.Base.{
  u32, ℕ, ◌+◌, List, [], ◌∷◌, ◌++◌, Option, none, some, Result, ok, err, Status, bad_length,
  bad_pointer, busy, not_available, ltb, leb, ◌==◌, if◌then◌else◌, length,
}
use pulse_esp32_host.Events.Event.{Event, payload_max}
use pulse_esp32_host.Events.Queue.{capacity, bump_id, with_id, with_major, Op, post, next}
use pulse_esp32_host.Events.Queue.{Reply, reply_of}

pub record Fifo : Type 0 where
  pub waiting : List Event
  pub lost : ℕ
  pub fresh_id : ℕ

unfoldable pub empty : Fifo
empty = record { waiting = []; lost = 0; fresh_id = 1 }

unfoldable pub put : Fifo → Option Event → Status × Fifo
put f none = (err bad_pointer, f)
put f (some e) =
    if ltb payload_max e.payload_len
    then (err bad_length, f)
    else if leb capacity (length f.waiting)
    then (err busy, record f { lost = u32 (f.lost + 1) })
    else (
      ok tt,
      record f {
        waiting = f.waiting ++ (with_id f.fresh_id (with_major e) ∷ []);
        fresh_id = if e.event_id == 0 then bump_id f.fresh_id else f.fresh_id;
      },
    )

unfoldable pub take_from : List Event → Fifo → Result Event × Fifo
take_from [] f = (err not_available, f)
take_from (e ∷ rest) f = (ok e, record f { waiting = rest })

unfoldable pub get : Fifo → Result Event × Fifo
unfolding take_from
get f = take_from f.waiting f

unfoldable pub run : Fifo → List Op → List Reply
run f [] = []
run f (post e ∷ ops) = let (s, f') = put f e in (s, none) ∷ run f' ops
run f (next ∷ ops) = let (r, f') = get f in reply_of r ∷ run f' ops
