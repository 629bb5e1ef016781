-- ===== src/Gui/Session/Quiet.antt =====
-- Rounds of the event loop of src/gui/mod.rs whose events leave the rest of the machine as it is.
use mathlib.Core.Path.{subst}
use polaros.Prelude.{
  ℕ, ◌+◌, ◌≡◌, refl, ◌∙◌, Bool, false, ◌||◌, Bool-cases, inl, inr, leb, if◌then◌else◌, Option, none,
  some, List, [], ◌∷◌, All,
}
use mathlib.Core.Path.{subst}
use polaros.Prelude.Int.{ℤ}
use polaros.Gui.Event.{
  Event, key_press, mouse_move, mouse_down, mouse_up, tick, left, right, middle,
}
use polaros.Gui.Widget.{Widget, EventResponse, consumed, ignored, contains}
use polaros.Gui.Widget.Window
use polaros.Gui.Widget.Window.{Window, forward, bounds, close_button_rect}
use polaros.Gui.Compositor
use polaros.Gui.Compositor.Machine.{IsQuiet, handle_event-quiet}
use polaros.Gui.Session.{
  desktop, window, Screen, layer, process, pointer_after, asks, round, rounds, end_round,
  spawn_terminal_window, end_spawned, rounds_after,
}

module _ {S C : Type 0} (terminal : Widget S C) (new_terminal : ℕ → ℤ → ℤ → ℕ → ℕ → Option C) where
  forward-quiet :
      (win : Window C) (c : Option C) (other : EventResponse) (e : Event) (s : S)
      → IsQuiet terminal e
      → (forward terminal win c other e s).2 ≡ s
  forward-quiet win none other e s q = refl
  forward-quiet win (some c) other e s q = q c s

  window-quiet :
      (win : Window C) (e : Event) (s : S)
      → IsQuiet terminal e
      → (Window.handle_event terminal win e s).2 ≡ s
  unfolding Window.handle_event
  window-quiet win (mouse_down x y left) s q =
      elim (Bool-cases (contains (close_button_rect win) x y)) [
        | inl t ↦ rw t refl
        | inr f ↦ elim (Bool-cases (contains (bounds win) x y)) [
          | inl t ↦ rw (f, t) (forward-quiet win win.content consumed (mouse_down x y left) s q)
          | inr g ↦ rw (f, g) refl
        ]
      ]
  window-quiet win (mouse_down x y right) s q = forward-quiet win win.content ignored _ s q
  window-quiet win (mouse_down x y middle) s q = forward-quiet win win.content ignored _ s q
  window-quiet win (key_press k) s q = forward-quiet win win.content ignored _ s q
  window-quiet win (mouse_move x y) s q = forward-quiet win win.content ignored _ s q
  window-quiet win (mouse_up x y b) s q = forward-quiet win win.content ignored _ s q
  window-quiet win tick s q = forward-quiet win win.content ignored _ s q

  layer-IsQuiet : (e : Event) → IsQuiet terminal e → IsQuiet (layer terminal new_terminal) e
  layer-IsQuiet e q (desktop d) s = refl
  layer-IsQuiet e q (window win) s = window-quiet win e s q

  process-quiet :
      (g : Screen C) (events : List Event) (need : Bool) (s : S)
      → All (IsQuiet terminal) events
      → (process terminal new_terminal g events need s).2 ≡ s
  unfolding process
  process-quiet g [] need s q = refl
  process-quiet g (e ∷ events) need s q =
      let r = Compositor.handle_event (layer terminal new_terminal) g.compositor e s in
      let at = pointer_after e (g.cursor_x, g.cursor_y) in
      let next = record g { compositor = r.1; cursor_x = at.0; cursor_y = at.1 } in
      process-quiet next events (need || asks e r.0) r.2 q.1
      ∙ handle_event-quiet (layer terminal new_terminal) g.compositor e s (layer-IsQuiet e q.0)

  end_round-quiet :
      (g : Screen C) (s : S) → IsQuiet terminal tick → (end_round terminal new_terminal g s).1 ≡ s
  unfolding end_round
  end_round-quiet g s q = elim (Bool-cases (leb 3 (g.frame_counter + 1))) [
    | inl t ↦ rw t (
        handle_event-quiet (layer terminal new_terminal) g.compositor tick s (layer-IsQuiet tick q))
    | inr f ↦ rw f refl
  ]

  -- If it comes to a screen, the machine is the one it began with.
  abbrev pub Stays : S → Option (Screen C × S) → Type 0
  Stays s none = Unit
  Stays s (some (g, s')) = s' ≡ s

  end_spawned-quiet :
      (o : Option (Screen C)) (s s0 : S)
      → IsQuiet terminal tick
      → s ≡ s0
      → Stays s0 (end_spawned terminal new_terminal o s)
  end_spawned-quiet none s s0 q e = tt
  end_spawned-quiet (some g) s s0 q e = end_round-quiet g s q ∙ e

  round-quiet :
      (g : Screen C) (events : List Event) (s : S)
      → IsQuiet terminal tick
      → All (IsQuiet terminal) events
      → Stays s (round terminal new_terminal g events s)
  unfolding round
  round-quiet g events s t q =
      let done = process terminal new_terminal g events false s in
      end_spawned-quiet
        (if done.0 then spawn_terminal_window terminal new_terminal done.1 else some done.1) done.2
        s t (process-quiet g events false s q)

  rounds_after-quiet :
      (next : Screen C → S → Option (Screen C × S)) (o : Option (Screen C × S)) (s : S)
      → ((g : Screen C) (s1 : S) → Stays s1 (next g s1))
      → Stays s o
      → Stays s (rounds_after next o)
  rounds_after-quiet next none s n h = tt
  rounds_after-quiet next (some (g, s1)) s n h = subst (λ z. Stays z (next g s1)) h (n g s1)

  pub rounds-quiet :
      (g : Screen C) (batches : List (List Event)) (s : S)
      → IsQuiet terminal tick
      → All (All (IsQuiet terminal)) batches
      → Stays s (rounds terminal new_terminal g batches s)
  unfolding rounds
  rounds-quiet g [] s t q = refl
  rounds-quiet g (events ∷ batches) s t q =
      rounds_after-quiet (λ g1 s1. rounds terminal new_terminal g1 batches s1)
        (round terminal new_terminal g events s) s (λ g1 s1. rounds-quiet g1 batches s1 t q.1)
        (round-quiet g events s t q.0)
