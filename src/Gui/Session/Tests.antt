-- ===== src/Gui/Session/Tests.antt =====
-- The screen at concrete inputs: two windows on the desktop, the second over the first.
use polaros.Prelude.{
  ℕ, ◌≡◌, ◌↔◌, ◌≤◌, ◌<◌, refl, true, false, Option, none, some, List, [], ◌∷◌, ◌++◌, All, arith,
  ◌⊎◌,
}
use polaros.Prelude.Int.{ℤ, pos, ◌+ℤ◌, ◌-ℤ◌}
use polaros.Gui.Event.{key_press, char, backspace, Event, mouse_down, mouse_move, left}
use polaros.Gui.Widget.{Widget, contains}
use polaros.Gui.Widget.Desktop.{Desktop, desktop_widget}
use polaros.Gui.Widget.Window
use polaros.Gui.Widget.Window.{Window, bounds}
use polaros.Gui.Compositor.{
  Compositor, hit_test, handle_event, forget_drag, find, close_rect, title_bar, is_close,
}
use polaros.Gui.Compositor.Invariant.{IsValid}
use polaros.Gui.Compositor.Click.{Pressed, click-Pressed}
use polaros.Gui.Compositor.HitTest.{Topmost, Misses, hit_test-Topmost}
use polaros.Gui.Compositor.Range.{Fits}
use polaros.Gui.Session.{
  Layer, desktop, window, layer, layer_bounds, Screen, start, rounds, spawn_terminal_window,
}
use polaros.Gui.Session.Spawn.{Opened, spawn_terminal_window_lem}
use polaros.Gui.Session.Rounds.{IsGood}
use polaros.Gui.Session.Terminals.{terminal, IsNoEnter, start-rounds}
use polaros.Gui.Widget.Terminal
use polaros.Gui.Widget.Terminal.{Terminal}
use polaros.Fs.Tree.{nil}
use polaros.Shell.Disk.{Drive}
use polaros.Shell.Commands.{Outside, State}
use polaros.Gui.Session.Closing.{close-Pressed}
use polaros.Gui.Session.Dragging.{handle_events, drag-Follows}

-- The content of the windows: a widget that does nothing.
abbrev blank : Widget ℕ Desktop
blank = desktop_widget

abbrev new_blank : ℕ → ℤ → ℤ → ℕ → ℕ → Option Desktop
new_blank id x y w h = some (record { id = id })

abbrev screen_layer : Widget ℕ (Layer Desktop)
screen_layer = layer blank new_blank

abbrev a_window : ℕ → ℕ → Window Desktop
a_window id corner = record {
  id = id;
  x = pos corner;
  y = pos corner;
  w = 100;
  h = 50;
  title = [];
  content = none;
}

abbrev bottom : Layer Desktop
bottom = desktop (record { id = 0 })

abbrev two_windows : Compositor (Layer Desktop)
two_windows = record {
  layers = bottom ∷ window (a_window 10 20) ∷ window (a_window 12 40) ∷ [];
  focused_id = some 12;
  drag_state = none;
}

two_windows-IsValid : IsValid screen_layer bottom two_windows
two_windows-IsValid = record {
  rest = window (a_window 10 20) ∷ window (a_window 12 40) ∷ [];
  at_bottom = refl;
  distinct = λ i. ground arith;
  focus_in = ground arith;
  drag_in = tt;
}

hits_lower : hit_test screen_layer two_windows.layers (pos 25) (pos 25) ≡ some 10
unfolding hit_test ◌+ℤ◌
hits_lower = refl

raises_lower :
    (handle_event screen_layer two_windows (mouse_down (pos 25) (pos 25) left) 0).1.layers
    ≡ bottom ∷ window (a_window 12 40) ∷ window (a_window 10 20) ∷ []
unfolding handle_event hit_test ◌+ℤ◌ ◌-ℤ◌ Window.handle_event
raises_lower = refl

hit_test-Topmost_example :
    ((hit_test screen_layer two_windows.layers (pos 25) (pos 25) ≡ some 10)
      ↔ Topmost screen_layer two_windows.layers (pos 25) (pos 25) 10)
    × ((hit_test screen_layer two_windows.layers (pos 25) (pos 25) ≡ none)
        ↔ All (Misses screen_layer (pos 25) (pos 25)) two_windows.layers)
hit_test-Topmost_example = hit_test-Topmost screen_layer two_windows.layers (pos 25) (pos 25) 10

click-Pressed_example : Pressed screen_layer two_windows (pos 25) (pos 25) 0 10
click-Pressed_example =
    click-Pressed screen_layer bottom two_windows (pos 25) (pos 25) 0 10 two_windows-IsValid
      hits_lower (ground arith)

closes_lower : hit_test screen_layer two_windows.layers (pos 112) (pos 25) ≡ some 10
unfolding hit_test ◌+ℤ◌
closes_lower = refl

in_button : contains (close_rect (bounds (a_window 10 20))) (pos 112) (pos 25) ≡ true
unfolding ◌+ℤ◌ ◌-ℤ◌
in_button = refl

close-Pressed_example :
    (below : List (Layer Desktop)) × (above : List (Layer Desktop)) × (two_windows.layers
      ≡ below ++ (window (a_window 10 20) ∷ above))
    × (handle_event screen_layer two_windows (mouse_down (pos 112) (pos 25) left) 0 ≡ (
      false,
      record { layers = below ++ above; focused_id = none; drag_state = forget_drag none 10 },
      0,
    ))
close-Pressed_example =
    close-Pressed blank new_blank bottom two_windows (pos 112) (pos 25) 0 10 (a_window 10 20)
      two_windows-IsValid closes_lower (ground arith) refl in_button

on_title : contains (title_bar (bounds (a_window 10 20))) (pos 25) (pos 25) ≡ true
unfolding ◌+ℤ◌
on_title = refl

off_close : contains (close_rect (bounds (a_window 10 20))) (pos 25) (pos 25) ≡ false
unfolding ◌+ℤ◌ ◌-ℤ◌
off_close = refl

stays_open :
    is_close (Window.handle_event blank (a_window 10 20) (mouse_down (pos 25) (pos 25) left) 0).0
    ≡ false
unfolding Window.handle_event ◌+ℤ◌ ◌-ℤ◌
stays_open = refl

drag-Follows_example :
    let c' =
      (handle_events blank new_blank two_windows
        (mouse_down (pos 25) (pos 25) left
          ∷ ((mouse_move (pos 0) (pos 0) ∷ []) ++ (mouse_move (pos 3) (pos 60) ∷ [])))
        0).0 in
    (win' : Window Desktop) × (find screen_layer c'.layers 10 ≡ some (window win'))
    × (win'.x ≡ pos 20 +ℤ (pos 3 -ℤ pos 25))
    × (win'.y ≡ pos 20 +ℤ (pos 60 -ℤ pos 25))
    × (win'.w ≡ 100)
    × (win'.h ≡ 50)
drag-Follows_example =
    drag-Follows blank new_blank bottom two_windows (pos 25) (pos 25) 0 10 (a_window 10 20)
      (mouse_move (pos 0) (pos 0) ∷ []) (pos 3) (pos 60) two_windows-IsValid hits_lower
      (ground arith) refl on_title off_close stays_open (tt, tt)

abbrev first_screen : Screen Desktop
first_screen = record {
  compositor = two_windows;
  cursor_x = pos 0;
  cursor_y = pos 0;
  next_widget_id = 14;
  frame_counter = 0;
}

spawn_terminal_window_lem_example :
    ((14 ≤ 2194)
      × (g' : Screen Desktop) × (spawn_terminal_window blank new_blank first_screen ≡ some g')
      × Opened blank new_blank first_screen g')
    ⊎ ((2194 < 14) × (spawn_terminal_window blank new_blank first_screen ≡ none))
spawn_terminal_window_lem_example =
    spawn_terminal_window_lem blank new_blank first_screen (λ id x y. (record { id = id }, refl))
      (omega arith) (omega arith)

abbrev two_rounds : List (List Event)
two_rounds =
    (mouse_down (pos 10) (pos 10) left ∷ mouse_move (pos 30) (pos 12) ∷ [])
    ∷ (mouse_down (pos 30) (pos 12) left ∷ key_press (char 97) ∷ key_press backspace ∷ [])
    ∷ []

-- A machine without a disk.
abbrev no_drive : Drive Unit
no_drive = record {
  is_available = λ s. false;
  write_sector = λ n bytes s. (false, s);
  read_sector = λ n s. none;
}

abbrev no_others : Outside Unit
no_others = record { drive = no_drive; other = λ cmd args s. ([], s.machine) }

abbrev at_root : State Unit
at_root = record { cwd = []; fs = record { root = nil }; env = []; machine = tt }

abbrev shell_window : Widget (Option (State Unit)) Terminal
shell_window = terminal no_others (λ c. false)

start-rounds_example :
    (g : Screen Terminal) × (start shell_window Terminal.new ≡ some g)
    × (g' : Screen Terminal) × (s' : Option (State Unit)) × (rounds shell_window Terminal.new g
          two_rounds
          (some at_root)
        ≡ some (g', s'))
    × (All (All (IsNoEnter no_others (λ c. false))) two_rounds → s' ≡ some at_root)
    × IsGood shell_window Terminal.new g'
    × All
        (λ (w : Layer Terminal). Fits (layer_bounds shell_window Terminal.new w))
        g'.compositor.layers
start-rounds_example =
    start-rounds no_others (λ c. false) two_rounds at_root (omega arith) (omega arith)
