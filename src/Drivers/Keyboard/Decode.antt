-- ===== src/Drivers/Keyboard/Decode.antt =====
-- Keys in src/drivers/keyboard.rs: the layout that is chosen, the events for the windows, and
-- `read_key`. What the pc-keyboard crate makes of scancodes and of keys is a parameter.
use polaros.Prelude.{ℕ, ◌≡◌, refl, Bool, Option, none, some, List, [], ◌∷◌, ◌==◌, if◌then◌else◌}
use polaros.Gui.Event as Gui
use polaros.Gui.Event.{Event, key_press, EventQueue}
use polaros.Drivers.Keyboard.Layout.{
  LayoutId, us104, uk105, de105, azerty, dvorak, colemak, current_layout,
}

-- `KeyCode` of the crate, as far as keys are told apart, and `DecodedKey`.
pub data RawKey : Type 0 where
  up_key down_key left_key right_key escape_key f1_key f2_key f3_key other_key : RawKey

pub data DecodedKey : Type 0 where
  unicode : ℕ → DecodedKey
  raw_key : RawKey → DecodedKey

-- `PolarLayout::map_keycode`, for the byte in `CURRENT_LAYOUT`; `layouts` are those of the crate.
unfoldable pub map_keycode :
    {Key Modifiers Control : Type 0}
    → (LayoutId → Key → Modifiers → Control → DecodedKey)
    → (Key → Bool)
    → (Modifiers → Bool)
    → ℕ
    → Key
    → Modifiers
    → Control
    → DecodedKey
unfolding current_layout
map_keycode layouts is_oem7 is_shifted code keycode modifiers handle_ctrl =
    elim (current_layout code) [
      | us104 ↦
          if is_oem7 keycode
          then (if is_shifted modifiers then unicode 124 else unicode 92)
          else layouts us104 keycode modifiers handle_ctrl
      | uk105 ↦ layouts uk105 keycode modifiers handle_ctrl
      | de105 ↦ layouts de105 keycode modifiers handle_ctrl
      | azerty ↦ layouts azerty keycode modifiers handle_ctrl
      | dvorak ↦ layouts dvorak keycode modifiers handle_ctrl
      | colemak ↦ layouts colemak keycode modifiers handle_ctrl
    ]

unfoldable pub gui_key : DecodedKey → Option Gui.KeyCode
gui_key (unicode c) =
    if c == 10
    then some Gui.enter
    else if c == 8
    then some Gui.backspace
    else if c == 9
    then some Gui.tab
    else if c == 27
    then some Gui.escape
    else some (Gui.char c)
gui_key (raw_key up_key) = some Gui.arrow_up
gui_key (raw_key down_key) = some Gui.arrow_down
gui_key (raw_key left_key) = some Gui.arrow_left
gui_key (raw_key right_key) = some Gui.arrow_right
gui_key (raw_key escape_key) = some Gui.escape
gui_key (raw_key f1_key) = some Gui.f1
gui_key (raw_key f2_key) = some Gui.f2
gui_key (raw_key f3_key) = some Gui.f3
gui_key (raw_key other_key) = none

-- `try_lock` finds the queue free or not.
abbrev pub offer : Bool → EventQueue → Option Gui.KeyCode → EventQueue
offer free queue none = queue
offer free queue (some key) = if free then Gui.push queue (key_press key) else queue

abbrev pub offer_key : Bool → EventQueue → Option DecodedKey → EventQueue
offer_key free queue none = queue
offer_key free queue (some key) = offer free queue (gui_key key)

pub data KeyEvent : Type 0 where
  char : ℕ → KeyEvent
  arrow_up arrow_down : KeyEvent

unfoldable pub key_event : DecodedKey → Option KeyEvent
key_event (unicode c) = some (char c)
key_event (raw_key up_key) = some arrow_up
key_event (raw_key down_key) = some arrow_down
key_event (raw_key left_key) = none
key_event (raw_key right_key) = none
key_event (raw_key escape_key) = none
key_event (raw_key f1_key) = none
key_event (raw_key f2_key) = none
key_event (raw_key f3_key) = none
key_event (raw_key other_key) = none

abbrev pub event_of : Option DecodedKey → Option KeyEvent
event_of none = none
event_of (some key) = key_event key

-- `decode` is `add_byte` and then `process_keyevent`, on the state of the crate's keyboard.
module _ {K : Type 0} (decode : K → ℕ → Option DecodedKey × K) where
  unfoldable pub add_scancode_gui : K → EventQueue → Bool → ℕ → K × EventQueue
  unfolding gui_key Gui.push
  add_scancode_gui keyboard queue free scancode =
      let (key, keyboard1) = decode keyboard scancode in (keyboard1, offer_key free queue key)

  abbrev pub or_further :
      Option KeyEvent → K → List ℕ → Option KeyEvent × K × List ℕ → Option KeyEvent × K × List ℕ
  or_further none keyboard scancodes further = further
  or_further (some event) keyboard scancodes further = (some event, keyboard, scancodes)

  -- `read_key` on the scancodes that the buffer gives: the event, the keyboard and the scancodes that
  -- are left. Without an event it waits for more.
  unfoldable pub read_key : K → List ℕ → Option KeyEvent × K × List ℕ
  unfolding key_event
  read_key keyboard [] = (none, keyboard, [])
  read_key keyboard (scancode ∷ scancodes) =
      let (key, keyboard1) = decode keyboard scancode in
      or_further (event_of key) keyboard1 scancodes (read_key keyboard1 scancodes)

  abbrev and_further : Option KeyEvent → List KeyEvent → List KeyEvent
  and_further none events = events
  and_further (some event) events = event ∷ events

  -- All events that the scancodes give.
  unfoldable pub key_events : K → List ℕ → List KeyEvent
  unfolding key_event
  key_events keyboard [] = []
  key_events keyboard (scancode ∷ scancodes) =
      let (key, keyboard1) = decode keyboard scancode in
      and_further (event_of key) (key_events keyboard1 scancodes)

  -- What is read is the first of the events, and behind it come the others.
  abbrev pub Reads : Option KeyEvent × K × List ℕ → List KeyEvent → Type 0
  Reads (none, keyboard, scancodes) events = events ≡ []
  Reads (some event, keyboard, scancodes) events = events ≡ event ∷ key_events keyboard scancodes

  or_further-Reads :
      (o : Option KeyEvent) (keyboard : K) (scancodes : List ℕ)
      → Reads (read_key keyboard scancodes) (key_events keyboard scancodes)
      → Reads
          (or_further o keyboard scancodes (read_key keyboard scancodes))
          (and_further o (key_events keyboard scancodes))
  or_further-Reads none keyboard scancodes h = h
  or_further-Reads (some event) keyboard scancodes h = refl

  -- Calls of `read_key` give the events of the scancodes one after the other.
  pub read_key-Reads :
      (keyboard : K) (scancodes : List ℕ)
      → Reads (read_key keyboard scancodes) (key_events keyboard scancodes)
  unfolding key_events read_key
  read_key-Reads keyboard [] = refl
  read_key-Reads keyboard (scancode ∷ scancodes) =
      let r = decode keyboard scancode in
      or_further-Reads (event_of r.0) r.1 scancodes (read_key-Reads r.1 scancodes)
