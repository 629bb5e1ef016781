-- ===== src/Drivers/Mouse.antt =====
-- src/drivers/mouse.rs: the bytes of the mouse's packets, and the events that they make.
pub mod Position
mod Tests
use polaros.Prelude.{
  ℕ, zero, suc, ◌+◌, ◌*◌, ◌/◌, ◌%◌, Bool, true, false, not, ◌&&◌, ◌||◌, ltb, leb, ◌==◌,
  if◌then◌else◌,
}
use polaros.Prelude.Int.{ℤ, pos, negsuc, ◌+ℤ◌, ◌-ℤ◌, clamp_ℤ, eqb_ℤ}
use polaros.Gui.Event.{
  Event, EventQueue, MouseButton, left, right, mouse_move, mouse_down, mouse_up, push,
}

-- `SCREEN_WIDTH` and `SCREEN_HEIGHT` of src/gui/framebuffer.rs.
abbrev pub screen_width : ℕ
screen_width = 320

abbrev pub screen_height : ℕ
screen_height = 200

-- `bytes` by its three places; `x` and `y` are `i16`.
pub record MouseState : Type 0 where
  pub cycle : ℕ
  pub byte0 : ℕ
  pub byte1 : ℕ
  pub byte2 : ℕ
  pub x : ℤ
  pub y : ℤ
  pub prev_buttons : ℕ

unfoldable pub new : MouseState
new = record {
  cycle = 0;
  byte0 = 0;
  byte1 = 0;
  byte2 = 0;
  x = pos 160;
  y = pos 100;
  prev_buttons = 0;
}

-- `byte & mask != 0`, for a mask of one bit.
abbrev pub has_bit : ℕ → ℕ → Bool
has_bit byte mask = byte / mask % 2 == 1

-- A push where `try_lock` succeeds. The handler runs to its end before any other code, so that the
-- lock is free in all of its tries or in none.
abbrev pub send : Bool → Event → EventQueue → EventQueue
send free event queue = if free then push queue event else queue

unfoldable pub emit_button_event : Bool → ℕ → ℕ → ℕ → MouseButton → ℤ → ℤ → EventQueue → EventQueue
emit_button_event free buttons prev mask button x y queue =
    let down =
      if has_bit buttons mask && not (has_bit prev mask)
      then send free (mouse_down x y button) queue
      else queue in
    if not (has_bit buttons mask) && has_bit prev mask
    then send free (mouse_up x y button) down
    else down

-- The displacement of a packet: a byte, with its sign in a bit of the first one.
abbrev pub signed : ℕ → ℕ → ℕ → ℤ
signed flags mask byte = if has_bit flags mask then pos byte -ℤ pos 256 else pos byte

-- The third byte of a packet.
unfoldable pub finish_packet : Bool → MouseState → ℕ → EventQueue → MouseState × EventQueue
unfolding emit_button_event
finish_packet free state byte queue =
    let state1 = record state { byte2 = byte; cycle = 0 } in
    let flags = state.byte0 in
    let dx = signed flags 0x10 state.byte1 in
    let dy = pos 0 -ℤ signed flags 0x20 byte in
    let new_x = clamp_ℤ (state.x +ℤ dx) (pos 319) in
    let new_y = clamp_ℤ (state.y +ℤ dy) (pos 199) in
    let buttons = flags % 8 in
    let prev = state.prev_buttons in
    let moved =
      if not (eqb_ℤ new_x state.x) || not (eqb_ℤ new_y state.y)
      then send free (mouse_move new_x new_y) queue
      else queue in
    let pressed = emit_button_event free buttons prev 1 left new_x new_y moved in
    if has_bit flags 0x40 || has_bit flags 0x80 then (state1, queue) else (
      record state1 { x = new_x; y = new_y; prev_buttons = buttons },
      emit_button_event free buttons prev 2 right new_x new_y pressed,
    )

unfoldable pub handle_byte : Bool → MouseState → ℕ → EventQueue → MouseState × EventQueue
unfolding finish_packet
handle_byte free state byte queue =
    if state.cycle == 0
    then ((if has_bit byte 8 then record state { byte0 = byte; cycle = 1 } else state), queue)
    else if state.cycle == 1
    then (record state { byte1 = byte; cycle = 2 }, queue)
    else if state.cycle == 2
    then finish_packet free state byte queue
    else (record state { cycle = 0 }, queue)
