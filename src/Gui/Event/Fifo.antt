-- ===== src/Gui/Event/Fifo.antt =====
-- The event queue is a first-in first-out queue of at most 256 events; an event that comes when it
-- is full is lost.
use polaros.Prelude.{
  suc, ◌+◌, ◌-◌, ◌%◌, ◌≤◌, ◌<◌, ◌≡◌, refl, ap, Option, none, some, List, [], ◌∷◌, map, arith,
  length, length-set,
}
use mathlib.Core.List.{map-append}
use polaros.Ring.{
  offer, tail, head?, unroll, length-unroll, unroll_pos, unroll-set, unroll-set_ne, next, next-lt,
  next-round,
}
use polaros.Gui.Event.{Event, EventQueue, queue_size, new, push, pop}

abbrev slots : EventQueue → List (Option Event)
slots q = unroll queue_size none q.buf q.read_pos q.count

-- The queue holds the events of the list, the oldest first.
pub record Holds (q : EventQueue) (events : List Event) : Type 0 where
  pub size : length q.buf ≡ 256
  pub inside : q.read_pos < 256
  pub few : q.count ≤ 256
  pub behind : q.write_pos ≡ (q.read_pos + q.count) % 256
  pub items : slots q ≡ map some events

pub new-Holds : Holds new []
unfolding new
new-Holds = record {
  size = refl;
  inside = omega arith;
  few = omega arith;
  behind = refl;
  items = refl;
}

length-map-some : (es : List Event) → length (map some es) ≡ length es
length-map-some [] = refl
length-map-some (e ∷ es) = ap suc (length-map-some es)

pub count-Holds : (q : EventQueue) (es : List Event) → Holds q es → q.count ≡ length es
count-Holds q es h = omega (
  arith,
  length-unroll queue_size none q.buf q.read_pos q.count,
  ap (length {A = Option Event}) h.items,
  length-map-some es,
)

pub push-Holds :
    (q : EventQueue) (es : List Event) (e : Event)
    → Holds q es
    → Holds (push q e) (offer queue_size es e)
unfolding push
push-Holds q es e h = ground (
  arith,
  h.size,
  h.inside,
  h.few,
  h.behind,
  h.items,
  count-Holds q es h,
  length-set q.buf q.write_pos (some e),
  map-append some es (e ∷ []),
  unroll-set 256 none q.buf (some e) (omega (arith, h.size)) q.read_pos q.count q.write_pos
      h.inside,
)

pub pop-Holds :
    (q : EventQueue) (es : List Event)
    → Holds q es
    → ((pop q).0 ≡ head? es) × Holds (pop q).1 (tail es)
unfolding pop
pop-Holds q [] h = ground (arith, h.size, h.inside, h.few, h.behind, h.items, count-Holds q [] h)
pop-Holds q (e ∷ es) h = ground (
  arith,
  h.size,
  h.inside,
  h.few,
  h.behind,
  h.items,
  count-Holds q (e ∷ es) h,
  length-set q.buf q.read_pos none,
  unroll_pos 256 none q.buf q.read_pos q.count,
  next-lt 256 q.read_pos h.inside,
  next-round 256 q.read_pos (q.count - 1),
  unroll-set_ne 256 none q.buf none (omega (arith, h.size)) (next 256 q.read_pos) (q.count - 1) 255
      q.read_pos,
)
