-- ===== src/Gui/Widget/Button.antt =====
-- src/gui/widget/button.rs: the state of a button. What `on_click` does to the machine is a function.
use polaros.Prelude.{
  ℕ, ◌≡◌, refl, ap, ◌∙◌, if◌then◌else◌, Bool, true, false, not, ◌&&◌, Bytes, Bool-cases, inl, inr,
  Option, none, some, List, [], ◌∷◌, All, ◌++◌,
}
use polaros.Prelude.Int.{ℤ}
use polaros.Gui.Event.{
  Event, key_press, mouse_move, mouse_down, mouse_up, tick, left, right, middle,
}
use polaros.Gui.Widget.{Rect, contains, EventResponse, consumed, ignored, Widget}

pub data ButtonState : Type 0 where
  normal hovered pressed : ButtonState

abbrev pub is_pressed : ButtonState → Bool
is_pressed normal = false
is_pressed hovered = false
is_pressed pressed = true

pub record Button (S : Type 0) : Type 0 where
  pub id : ℕ
  pub x : ℤ
  pub y : ℤ
  pub w : ℕ
  pub h : ℕ
  pub label : Bytes
  pub state : ButtonState
  pub on_click : Option (S → S)

module _ {S : Type 0} where
  abbrev pub new : ℕ → ℤ → ℤ → ℕ → ℕ → Bytes → Button S
  new id x y w h label = record {
    id = id;
    x = x;
    y = y;
    w = w;
    h = h;
    label = label;
    state = normal;
    on_click = none;
  }

  abbrev pub bounds : Button S → Rect
  bounds b = record { x = b.x; y = b.y; w = b.w; h = b.h }

  abbrev pub set_position : Button S → ℤ → ℤ → Button S
  set_position b x y = record b { x = x; y = y }

  abbrev pub call : Option (S → S) → S → S
  call none s = s
  call (some callback) s = callback s

  unfoldable pub handle_event : Button S → Event → S → EventResponse × Button S × S
  handle_event b (mouse_move x y) s =
      let state =
        if contains (bounds b) x y
        then (if not (is_pressed b.state) then hovered else b.state)
        else normal in
      (ignored, record b { state = state }, s)
  handle_event b (mouse_down x y left) s =
      if contains (bounds b) x y
      then (consumed, record b { state = pressed }, s)
      else (ignored, b, s)
  handle_event b (mouse_up x y left) s =
      if is_pressed b.state && contains (bounds b) x y
      then (consumed, record b { state = hovered }, call b.on_click s)
      else (ignored, record b { state = normal }, s)
  handle_event b (mouse_down x y right) s = (ignored, b, s)
  handle_event b (mouse_down x y middle) s = (ignored, b, s)
  handle_event b (mouse_up x y right) s = (ignored, b, s)
  handle_event b (mouse_up x y middle) s = (ignored, b, s)
  handle_event b (key_press k) s = (ignored, b, s)
  handle_event b tick s = (ignored, b, s)

  unfoldable pub run : Button S → List Event → S → Button S × S
  run b [] s = (b, s)
  run b (e ∷ es) s = let r = handle_event b e s in run r.1 es r.2

  -- The pointer moves, and stays within a button.
  abbrev pub MovesInside : Button S → Event → Type 0
  MovesInside b (mouse_move x y) = contains (bounds b) x y ≡ true
  MovesInside b (mouse_down x y button) = ⊥
  MovesInside b (mouse_up x y button) = ⊥
  MovesInside b (key_press k) = ⊥
  MovesInside b tick = ⊥

  moves_step :
      (b : Button S) (x y : ℤ) (s : S)
      → b.state ≡ pressed
      → contains (bounds b) x y ≡ true
      → handle_event b (mouse_move x y) s ≡ (ignored, b, s)
  unfolding handle_event
  moves_step b x y s p h = rw (h, p) refl

  press :
      (b : Button S) (x y : ℤ) (s : S)
      → contains (bounds b) x y ≡ true
      → handle_event b (mouse_down x y left) s ≡ (consumed, record b { state = pressed }, s)
  unfolding handle_event
  press b x y s h = rw h refl

  release :
      (b : Button S) (x y : ℤ) (s : S)
      → b.state ≡ pressed
      → contains (bounds b) x y ≡ true
      → handle_event b (mouse_up x y left) s
        ≡ (consumed, record b { state = hovered }, call b.on_click s)
  unfolding handle_event
  release b x y s p h = rw (p, h) refl

  moves_stay :
      (es : List Event) (b : Button S) (rest : List Event) (s : S)
      → b.state ≡ pressed
      → All (MovesInside b) es
      → run b (es ++ rest) s ≡ run b rest s
  unfolding run
  moves_stay [] b rest s p h = refl
  moves_stay (mouse_move x y ∷ es) b rest s p h =
      ap (λ (r : EventResponse × Button S × S). run r.1 (es ++ rest) r.2) (moves_step b x y s p h.0)
      ∙ moves_stay es b rest s p h.1
  moves_stay (mouse_down x y button ∷ es) b rest s p h = absurd h.0
  moves_stay (mouse_up x y button ∷ es) b rest s p h = absurd h.0
  moves_stay (key_press k ∷ es) b rest s p h = absurd h.0
  moves_stay (tick ∷ es) b rest s p h = absurd h.0

  -- A press of the left button inside a button, moves that all stay inside it, and a release inside
  -- it make its call exactly once, whatever its state was before, and leave it hovered.
  pub run-click :
      (b : Button S) (x y u v : ℤ) (es : List Event) (s : S)
      → contains (bounds b) x y ≡ true
      → All (MovesInside b) es
      → contains (bounds b) u v ≡ true
      → run b (mouse_down x y left ∷ (es ++ (mouse_up u v left ∷ []))) s
        ≡ (record b { state = hovered }, call b.on_click s)
  unfolding run
  run-click b x y u v es s down moves up =
      let held = record b { state = pressed } in
      ap (λ (r : EventResponse × Button S × S). run r.1 (es ++ (mouse_up u v left ∷ [])) r.2)
        (press b x y s down)
      ∙ moves_stay es held (mouse_up u v left ∷ []) s refl moves
      ∙ ap (λ (r : EventResponse × Button S × S). (r.1, r.2)) (release held u v s refl up)

  handle_event_frame :
      (b : Button S) (e : Event) (s : S)
      → ((handle_event b e s).1.id ≡ b.id) × (bounds (handle_event b e s).1 ≡ bounds b)
  unfolding handle_event
  handle_event_frame b (mouse_move x y) s = (refl, refl)
  handle_event_frame b (mouse_down x y left) s = elim (Bool-cases (contains (bounds b) x y)) [
    | inl t ↦ rw t (refl, refl)
    | inr f ↦ rw f (refl, refl)
  ]
  handle_event_frame b (mouse_up x y left) s =
      elim (Bool-cases (is_pressed b.state && contains (bounds b) x y)) [
        | inl t ↦ rw t (refl, refl)
        | inr f ↦ rw f (refl, refl)
      ]
  handle_event_frame b (mouse_down x y right) s = (refl, refl)
  handle_event_frame b (mouse_down x y middle) s = (refl, refl)
  handle_event_frame b (mouse_up x y right) s = (refl, refl)
  handle_event_frame b (mouse_up x y middle) s = (refl, refl)
  handle_event_frame b (key_press k) s = (refl, refl)
  handle_event_frame b tick s = (refl, refl)

  pub button_widget : Widget S (Button S)
  button_widget = record {
    id = λ b. b.id;
    bounds = bounds;
    set_position = set_position;
    handle_event = handle_event;
    id-set_position = λ b x y. refl;
    id-handle_event = λ b e s. (handle_event_frame b e s).0;
    bounds-handle_event = λ b e s. (handle_event_frame b e s).1;
    bounds-set_position = λ b x y. inr refl;
  }
