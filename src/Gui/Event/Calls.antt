-- ===== src/Gui/Event/Calls.antt =====
-- The calls of the interrupt handlers and of the event loop, in the order in which they take the
-- queue's lock.
use polaros.Prelude.{◌≡◌, refl, ap₂, Option, List, [], ◌∷◌}
use polaros.Ring.{offer, tail, head?}
use polaros.Gui.Event.{Event, EventQueue, queue_size, new, push, pop}
use polaros.Gui.Event.Fifo.{Holds, new-Holds, push-Holds, pop-Holds}

pub data Call : Type 0 where
  put : Event → Call
  take : Call

-- What the `take`s return, in order.
unfoldable pub run : EventQueue → List Call → List (Option Event)
run q [] = []
run q (put e ∷ calls) = run (push q e) calls
run q (take ∷ calls) = (pop q).0 ∷ run (pop q).1 calls

unfoldable pub run_fifo : List Event → List Call → List (Option Event)
run_fifo es [] = []
run_fifo es (put e ∷ calls) = run_fifo (offer queue_size es e) calls
run_fifo es (take ∷ calls) = head? es ∷ run_fifo (tail es) calls

run-Holds :
    (calls : List Call) (q : EventQueue) (es : List Event)
    → Holds q es
    → run q calls ≡ run_fifo es calls
unfolding run run_fifo
run-Holds [] q es h = refl
run-Holds (put e ∷ calls) q es h =
    run-Holds calls (push q e) (offer queue_size es e) (push-Holds q es e h)
run-Holds (take ∷ calls) q es h =
    let p = pop-Holds q es h in ap₂ ◌∷◌ p.0 (run-Holds calls (pop q).1 (tail es) p.1)

-- However the producers and the consumer are interleaved, what is taken from a new event queue is
-- what a first-in first-out queue gives that holds at most 256 events and loses those that come
-- when it is full.
pub run-eq-run_fifo : (calls : List Call) → run new calls ≡ run_fifo [] calls
run-eq-run_fifo calls = run-Holds calls new [] new-Holds
