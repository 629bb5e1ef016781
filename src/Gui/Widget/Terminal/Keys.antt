-- ===== src/Gui/Widget/Terminal/Keys.antt =====
-- What every event leaves as it is in a terminal of src/gui/widget/terminal.rs, and the bounds that it
-- keeps.
use polaros.Prelude.{
  All-drop, ℕ, ◌-◌, ◌≤◌, ◌≡◌, refl, ap, inl, inr, Bool-cases, Option-cases, Bool, ◌==◌, Option,
  none, some, List, ◌++◌, length, All, All-append, Bytes, arith,
}
use polaros.Gui.Event.{Event}
use polaros.Gui.Widget.{Widget, Rect}
use polaros.Shell.Commands.{Outside, State}
use polaros.Gui.Widget.Terminal.{
  Terminal, cols, wrap, max_scrollback, with_pieces, push_line, handle_event,
}
use polaros.Gui.Widget.Terminal.Events.{HoldsAll, IsClosed, handle_event-Holds}
use polaros.Gui.Widget.Terminal.Wrap.{wrap-Wrapped, Fits, length-newest}

-- The id and the bounds, which events leave alone.
abbrev pub frame : Terminal → ℕ × Rect
frame t = (t.id, record { x = t.x; y = t.y; w = t.w; h = t.h })

-- At most 100 lines, which fit in the width, and an input of at most 259 bytes: a character of four
-- bytes may come behind 255. `F` is the frame.
pub record Keeps (F : ℕ × Rect) (t : Terminal) : Type 0 where
  pub framed : frame t ≡ F
  pub few : length t.lines ≤ 100
  pub fit : All (Fits (cols t)) t.lines
  pub short : length t.input_buf ≤ 259

with_pieces-frame :
    (F : ℕ × Rect) (t : Terminal) (o : Option (List Bytes))
    → frame t ≡ F
    → HoldsAll (λ u. frame u ≡ F) (with_pieces t o)
with_pieces-frame F t none h = tt
with_pieces-frame F t (some pieces) h = h

push_line-frame :
    (F : ℕ × Rect) (t : Terminal) (line : Bytes)
    → frame t ≡ F
    → HoldsAll (λ u. frame u ≡ F) (push_line t line)
unfolding push_line
push_line-frame F t line h = elim (Bool-cases (cols t == 0)) [
  | inl e ↦ rw e h
  | inr f ↦ rw f (with_pieces-frame F t (wrap (length line) (cols t) line) h)
]

module _ (F : ℕ × Rect) where
  with_pieces-Keeps :
      (t : Terminal) (fuel : ℕ) (line : Bytes)
      → Keeps F t
      → HoldsAll (Keeps F) (with_pieces t (wrap fuel (cols t) line))
  with_pieces-Keeps t fuel line h = elim (Option-cases (wrap fuel (cols t) line)) [
    | inl e ↦ rw e tt
    | inr (pieces, e) ↦
        let both = t.lines ++ pieces in
        let fit =
          All-append (Fits (cols t)) t.lines pieces h.fit
            (wrap-Wrapped fuel (cols t) line pieces e).fit in
        rw e (record {
          framed = h.framed;
          few = length-newest both;
          fit = All-drop (Fits (cols t)) (length both - max_scrollback) both fit;
          short = h.short;
        })
  ]

  push_line-Keeps :
      (t : Terminal) (line : Bytes) → Keeps F t → HoldsAll (Keeps F) (push_line t line)
  unfolding push_line
  push_line-Keeps t line h = elim (Bool-cases (cols t == 0)) [
    | inl e ↦ rw e h
    | inr f ↦ rw f (with_pieces-Keeps t (length line) line h)
  ]

  Keeps-IsClosed : IsClosed (Keeps F)
  Keeps-IsClosed = record {
    pushes = push_line-Keeps;
    clears = λ t h. record { framed = h.framed; few = omega arith; fit = tt; short = h.short };
    goes = λ t c h. record { framed = h.framed; few = h.few; fit = h.fit; short = h.short };
    types =
        λ t bytes k h. record { framed = h.framed; few = h.few; fit = h.fit; short = k h.short };
    blinks = λ t visible ticks h. record {
      framed = h.framed;
      few = h.few;
      fit = h.fit;
      short = h.short;
    };
  }

module _ {M : Type 0} (outside : Outside M) (is_alphanumeric : ℕ → Bool) where
  -- Whatever happens to a terminal, and whatever its commands do, it keeps its id and its bounds, at
  -- most 100 lines, none of them longer than the window is wide, and at most 259 bytes of input.
  pub handle_event-Keeps :
      (F : ℕ × Rect) (t : Terminal) (e : Event) (s : Option (State M))
      → Keeps F t
      → Keeps F (handle_event outside is_alphanumeric t e s).1
  handle_event-Keeps F = handle_event-Holds (Keeps F) (Keeps-IsClosed F) outside is_alphanumeric

  framed-IsClosed : (F : ℕ × Rect) → IsClosed (λ t. frame t ≡ F)
  framed-IsClosed F = record {
    pushes = push_line-frame F;
    clears = λ t h. h;
    goes = λ t c h. h;
    types = λ t bytes k h. h;
    blinks = λ t visible ticks h. h;
  }

  pub handle_event-frame :
      (t : Terminal) (e : Event) (s : Option (State M))
      → frame (handle_event outside is_alphanumeric t e s).1 ≡ frame t
  handle_event-frame t e s =
      handle_event-Holds (λ u. frame u ≡ frame t) (framed-IsClosed (frame t)) outside
        is_alphanumeric t e s refl

  -- The terminal as a widget of the compositor.
  abbrev pub terminal_widget : Widget (Option (State M)) Terminal
  terminal_widget = record {
    id = λ t. t.id;
    bounds = λ t. record { x = t.x; y = t.y; w = t.w; h = t.h };
    set_position = λ t x y. record t { x = x; y = y };
    handle_event = handle_event outside is_alphanumeric;
    id-set_position = λ t x y. refl;
    id-handle_event = λ t e s. ap (λ (f : ℕ × Rect). f.0) (handle_event-frame t e s);
    bounds-handle_event = λ t e s. ap (λ (f : ℕ × Rect). f.1) (handle_event-frame t e s);
    bounds-set_position = λ t x y. inr refl;
  }
