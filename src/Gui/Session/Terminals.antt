-- ===== src/Gui/Session/Terminals.antt =====
-- The event loop of src/gui/mod.rs with the terminals of src/gui/widget/terminal.rs in its windows. The
-- machine is `none` once a terminal has panicked.
use mathlib.Core.Path.{subst}
use polaros.Prelude.{
  ℕ, ◌≤◌, ◌≡◌, ◌≢◌, refl, ap, Bool, Option, none, some, List, [], ◌∷◌, length, All,
}
use polaros.Gui.Event.{Event, KeyCode, key_press, mouse_move, mouse_down, mouse_up, tick, enter}
use polaros.Gui.Widget.{Widget}
use polaros.Gui.Widget.Terminal
use polaros.Gui.Widget.Terminal.{Terminal}
use polaros.Gui.Widget.Terminal.Keys.{terminal_widget}
use polaros.Gui.Compositor.Machine.{IsQuiet}
use polaros.Gui.Compositor.Range.{OnScreen, Fits}
use polaros.Gui.Session.{Layer, Screen, layer_bounds, start, rounds}
use polaros.Gui.Session.Spawn.{Opens}
use polaros.Gui.Session.Quiet.{Stays, rounds-quiet}
use polaros.Gui.Session.Rounds.{IsGood, loop-IsGood}
use polaros.Shell.Commands.{Outside, State}

module _ {M : Type 0} (outside : Outside M) (is_alphanumeric : ℕ → Bool) where
  abbrev pub terminal : Widget (Option (State M)) Terminal
  terminal = terminal_widget outside is_alphanumeric

  terminal-Opens : Opens terminal Terminal.new
  unfolding Terminal.new Terminal.push_lines Terminal.push_line Terminal.wrap
  terminal-Opens id x y = (_, refl)

  -- Every key but Enter, and everything else.
  abbrev pub IsNoEnter : Event → Type 0
  IsNoEnter e = e ≢ key_press enter

  press_key-quiet :
      (t : Terminal) (k : KeyCode) (s : State M)
      → k ≢ enter
      → (Terminal.press_key outside is_alphanumeric t k s).2 ≡ some s
  unfolding Terminal.press_key
  press_key-quiet t enter s h = absurd (h refl)
  press_key-quiet t _ s h = refl

  terminal-IsQuiet : (e : Event) → IsNoEnter e → IsQuiet terminal e
  unfolding Terminal.handle_event
  terminal-IsQuiet e h t none = refl
  terminal-IsQuiet (key_press k) h t (some s) = press_key-quiet t k s (λ p. h (ap key_press p))
  terminal-IsQuiet (mouse_move x y) h t (some s) = refl
  terminal-IsQuiet (mouse_down x y b) h t (some s) = refl
  terminal-IsQuiet (mouse_up x y b) h t (some s) = refl
  terminal-IsQuiet tick h t (some s) = refl

  all-IsQuiet : (events : List Event) → All IsNoEnter events → All (IsQuiet terminal) events
  all-IsQuiet [] h = tt
  all-IsQuiet (e ∷ events) h = (terminal-IsQuiet e h.0, all-IsQuiet events h.1)

  batches-IsQuiet :
      (batches : List (List Event))
      → All (All IsNoEnter) batches
      → All (All (IsQuiet terminal)) batches
  batches-IsQuiet [] h = tt
  batches-IsQuiet (events ∷ batches) h = (all-IsQuiet events h.0, batches-IsQuiet batches h.1)

  -- The program's event loop with its terminals, but without what it draws: from its start and for 1092
  -- rounds, and as many as there are, whatever the events are, if the pointer is on the screen, it comes
  -- to a screen, and the only panics are those of a terminal that runs a command, which lose the machine:
  -- without an Enter key the machine stays as it was. The ids of the layers are distinct, the desktop is
  -- the lowest layer, focus and drag name layers that are there and are not the desktop, and all sums of
  -- the layers' coordinates fit in an `i16`.
  pub start-rounds :
      (batches : List (List Event)) (s : State M)
      → length batches ≤ 1092
      → All (All OnScreen) batches
      → (g : Screen Terminal) × (start terminal Terminal.new ≡ some g)
        × (g' : Screen Terminal) × (s' : Option (State M)) × (rounds terminal Terminal.new g batches
              (some s)
            ≡ some (g', s'))
        × (All (All IsNoEnter) batches → s' ≡ some s)
        × IsGood terminal Terminal.new g'
        × All
            (λ (w : Layer Terminal). Fits (layer_bounds terminal Terminal.new w))
            g'.compositor.layers
  start-rounds batches s short on =
      let (g, e, g', s', e', good, fits) =
        loop-IsGood terminal Terminal.new batches (some s) terminal-Opens short on in
      let stays = λ (h : All (All IsNoEnter) batches).
        subst (Stays terminal Terminal.new (some s)) e' (
          rounds-quiet terminal Terminal.new g batches (some s) (terminal-IsQuiet tick (λ p. cc p))
            (batches-IsQuiet batches h)) in
      (g, e, g', s', e', stays, good, fits)
