-- ===== src/Gui/Event.antt =====
-- src/gui/event.rs: the events of the user interface and the queue between the interrupt handlers
-- and the event loop.
pub mod Fifo
pub mod Calls
use polaros.Prelude.{
  ℕ, ◌+◌, ◌-◌, ◌%◌, Option, none, some, List, ltb, ◌==◌, if◌then◌else◌, get_or, set, replicate,
}
use polaros.Prelude.Int.{ℤ}

pub data MouseButton : Type 0 where
  left right middle : MouseButton

-- `char` holds the code point.
pub data KeyCode : Type 0 where
  char : ℕ → KeyCode
  arrow_up arrow_down arrow_left arrow_right enter backspace tab escape f1 f2 f3 : KeyCode

pub data Event : Type 0 where
  key_press : KeyCode → Event
  mouse_move : ℤ → ℤ → Event
  mouse_down mouse_up : ℤ → ℤ → MouseButton → Event
  tick : Event

abbrev pub queue_size : ℕ
queue_size = 256

pub record EventQueue : Type 0 where
  pub buf : List (Option Event)
  pub read_pos : ℕ
  pub write_pos : ℕ
  pub count : ℕ

unfoldable pub new : EventQueue
new = record { buf = replicate queue_size none; read_pos = 0; write_pos = 0; count = 0 }

unfoldable pub push : EventQueue → Event → EventQueue
push q event =
    if ltb q.count queue_size
    then record {
      buf = set q.buf q.write_pos (some event);
      read_pos = q.read_pos;
      write_pos = (q.write_pos + 1) % queue_size;
      count = q.count + 1;
    }
    else q

-- `take()` leaves `None` in the slot.
unfoldable pub pop : EventQueue → Option Event × EventQueue
pop q = if q.count == 0 then (none, q) else (
  get_or q.buf q.read_pos none,
  record {
    buf = set q.buf q.read_pos none;
    read_pos = (q.read_pos + 1) % queue_size;
    write_pos = q.write_pos;
    count = q.count - 1;
  },
)
