-- ===== src/Gui/Session.antt =====
-- src/gui/mod.rs: the desktop, the terminal windows on it, and the rounds of the event loop. The
-- terminal in a window is a parameter with the methods of Gui/Widget, filled in Session/Terminals.
pub mod Spawn
pub mod Rounds
pub mod Quiet
pub mod Terminals
pub mod Closing
pub mod Dragging
mod Tests
use polaros.Prelude.{
  ℕ, ◌+◌, ◌-◌, ◌*◌, ◌%◌, ◌^◌, ◌≡◌, ◌⊎◌, Bool, true, false, ◌&&◌, ◌||◌, leb, if◌then◌else◌, Option,
  none, some, List, [], ◌∷◌, text, refl, inl, inr,
}
use polaros.Prelude.Int.{ℤ, pos, negsuc, pos_part, neg_part, sub_ℕ, ◌+ℤ◌, ◌-ℤ◌, leb_ℤ}
use polaros.Gui.Event.{Event, key_press, mouse_move, mouse_down, mouse_up, tick}
use polaros.Gui.Widget.{Rect, as_i16, checked, EventResponse, Widget}
use polaros.Gui.Widget.Desktop
use polaros.Gui.Widget.Desktop.{Desktop}
use polaros.Gui.Widget.Window
use polaros.Gui.Widget.Window.{Window}
use polaros.Gui.Compositor
use polaros.Gui.Compositor.{Compositor}

-- `Box<dyn Widget>`: what the program puts on the screen.
pub data Layer (C : Type 0) : Type 0 where
  desktop : Desktop → Layer C
  window : Window C → Layer C

-- `z * 15` and `z % 60`, whose sign is that of `z`.
abbrev pub times_15 : ℤ → ℤ
times_15 z = sub_ℕ (pos_part z * 15) (neg_part z * 15)

abbrev pub rem_60 : ℤ → ℤ
rem_60 z = sub_ℕ (pos_part z % 60) (neg_part z % 60)

abbrev pub rem_of : Option ℤ → Option ℤ
rem_of none = none
rem_of (some z) = some (rem_60 z)

abbrev pub product_of : Option ℤ → Option ℤ
product_of none = none
product_of (some z) = rem_of (checked (times_15 z))

-- `((win_id as i16 - 10) * 15) % 60`
unfoldable pub offset : ℕ → Option ℤ
offset win_id = product_of (checked (as_i16 (win_id % 65536) -ℤ pos 10))

pub record Screen (C : Type 0) : Type 0 where
  pub compositor : Compositor (Layer C)
  pub cursor_x : ℤ
  pub cursor_y : ℤ
  pub next_widget_id : ℕ
  pub frame_counter : ℕ

abbrev pub rounds_after :
    {C S : Type 0}
    → (Screen C → S → Option (Screen C × S))
    → Option (Screen C × S)
    → Option (Screen C × S)
rounds_after next none = none
rounds_after next (some (g, s)) = next g s

-- `run` moves the cursor, and reads the result of `handle_event` for a press only.
abbrev pub pointer_after : Event → ℤ × ℤ → ℤ × ℤ
pointer_after (mouse_move x y) at = (x, y)
pointer_after (mouse_down x y b) at = at
pointer_after (mouse_up x y b) at = at
pointer_after (key_press k) at = at
pointer_after tick at = at

abbrev pub asks : Event → Bool → Bool
asks (mouse_down x y b) answer = answer
asks (mouse_move x y) answer = false
asks (mouse_up x y b) answer = false
asks (key_press k) answer = false
asks tick answer = false

module _ {S C : Type 0} (terminal : Widget S C) (new_terminal : ℕ → ℤ → ℤ → ℕ → ℕ → Option C) where
  abbrev pub layer_id : Layer C → ℕ
  layer_id (desktop d) = d.id
  layer_id (window win) = win.id

  abbrev pub layer_bounds : Layer C → Rect
  layer_bounds (desktop d) = Desktop.bounds d
  layer_bounds (window win) = Window.bounds win

  abbrev pub layer_set_position : Layer C → ℤ → ℤ → Layer C
  layer_set_position (desktop d) x y = desktop (Desktop.set_position d x y)
  layer_set_position (window win) x y = window (Window.set_position win x y)

  abbrev pub layer_handle_event : Layer C → Event → S → EventResponse × Layer C × S
  layer_handle_event (desktop d) e s = let r = Desktop.handle_event d e s in (r.0, desktop r.1, r.2)
  layer_handle_event (window win) e s =
      let r = Window.handle_event terminal win e s in (r.0, window r.1, r.2)

  pub layer_frame :
      (w : Layer C) (e : Event) (s : S)
      → (layer_id (layer_handle_event w e s).1 ≡ layer_id w)
        × (layer_bounds (layer_handle_event w e s).1 ≡ layer_bounds w)
  layer_frame (desktop d) e s = (refl, refl)
  layer_frame (window win) e s = Window.handle_event_frame terminal win e s

  pub layer_moves :
      (w : Layer C) (x y : ℤ)
      → (layer_id (layer_set_position w x y) ≡ layer_id w)
        × ((layer_bounds (layer_set_position w x y) ≡ layer_bounds w)
            ⊎ (layer_bounds (layer_set_position w x y) ≡ record (layer_bounds w) { x = x; y = y }))
  layer_moves (desktop d) x y = (refl, inl refl)
  layer_moves (window win) x y = (refl, inr refl)

  abbrev pub layer : Widget S (Layer C)
  layer = record {
    id = layer_id;
    bounds = layer_bounds;
    set_position = layer_set_position;
    handle_event = layer_handle_event;
    id-set_position = λ w x y. (layer_moves w x y).0;
    id-handle_event = λ w e s. (layer_frame w e s).0;
    bounds-handle_event = λ w e s. (layer_frame w e s).1;
    bounds-set_position = λ w x y. (layer_moves w x y).1;
  }

  -- `NEXT_WIDGET_ID.fetch_add(1)`
  abbrev pub after : ℕ → ℕ
  after id = (id + 1) % 2 ^ 32

  abbrev pub with_content : Window C → Option C → Option (Layer C)
  with_content win none = none
  with_content win (some term) = some (window (Window.set_content win term))

  abbrev pub terminal_window : ℕ → ℕ → ℤ → Option (Layer C)
  terminal_window win_id term_id off =
      let win = Window.new win_id (pos 20 +ℤ off) (pos 10 +ℤ off) 280 160 (text "Terminal") in
      let cr = Window.content_rect win in
      with_content win (new_terminal term_id cr.x cr.y cr.w cr.h)

  abbrev pub put_window : Screen C → ℕ → Option (Layer C) → Option (Screen C)
  put_window g next none = none
  put_window g next (some win) =
      some (record g { compositor = Compositor.add_widget g.compositor win; next_widget_id = next })

  abbrev pub spawn_at : Screen C → Option ℤ → Option (Screen C)
  spawn_at g none = none
  spawn_at g (some off) =
      let win_id = g.next_widget_id in
      let term_id = after win_id in
      put_window g (after term_id) (terminal_window win_id term_id off)

  unfoldable pub spawn_terminal_window : Screen C → Option (Screen C)
  unfolding offset Compositor.add_widget
  spawn_terminal_window g = spawn_at g (offset g.next_widget_id)

  -- The desktop and the first window: `run` up to its loop.
  unfoldable pub start : Option (Screen C)
  unfolding spawn_terminal_window Compositor.add_widget
  start = spawn_terminal_window (record {
    compositor = Compositor.add_widget Compositor.new (desktop (record { id = 0 }));
    cursor_x = pos 160;
    cursor_y = pos 100;
    next_widget_id = 10;
    frame_counter = 0;
  })

  -- The events that `pop` gives until the queue is empty or its lock is taken.
  unfoldable pub process : Screen C → List Event → Bool → S → Bool × Screen C × S
  unfolding Compositor.handle_event
  process g [] need s = (need, g, s)
  process g (event ∷ events) need s =
      let at = pointer_after event (g.cursor_x, g.cursor_y) in
      let r = Compositor.handle_event layer g.compositor event s in
      process (record g { compositor = r.1; cursor_x = at.0; cursor_y = at.1 }) events
        (need || asks event r.0) r.2

  -- Every third round sends a tick; what it draws is not modelled.
  unfoldable pub end_round : Screen C → S → Screen C × S
  unfolding Compositor.handle_event
  end_round g s =
      let frames = g.frame_counter + 1 in
      let r = Compositor.handle_event layer g.compositor tick s in
      if leb 3 frames
      then (record g { frame_counter = 0; compositor = r.1 }, r.2)
      else (record g { frame_counter = frames }, s)

  abbrev pub end_spawned : Option (Screen C) → S → Option (Screen C × S)
  end_spawned none s = none
  end_spawned (some g) s = some (end_round g s)

  -- One round of the loop in `run`, for the events that it takes from the queue.
  unfoldable pub round : Screen C → List Event → S → Option (Screen C × S)
  unfolding process end_round spawn_terminal_window
  round g events s =
      let done = process g events false s in
      end_spawned (if done.0 then spawn_terminal_window done.1 else some done.1) done.2

  unfoldable pub rounds : Screen C → List (List Event) → S → Option (Screen C × S)
  unfolding round
  rounds g [] s = some (g, s)
  rounds g (events ∷ rest) s = rounds_after (λ g s. rounds g rest s) (round g events s)
