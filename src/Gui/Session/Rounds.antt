-- ===== src/Gui/Session/Rounds.antt =====
-- The rounds of the event loop of src/gui/mod.rs: what they keep, and that they do not panic.
use mathlib.Core.Path.{subst}
use polaros.Prelude.{
  ℕ, ◌+◌, ◌*◌, ◌≤◌, ◌≡◌, ◌≢◌, refl, ap, sym, Bool, false, Bool-cases, ◌||◌, inl, inr, leb, ◌==◌,
  if◌then◌else◌, Option, none, some, List, [], ◌∷◌, length, All, All-append, arith,
}
use polaros.Prelude.Int.{ℤ, pos}
use polaros.Gui.Event.{Event, tick}
use polaros.Gui.Widget.{Widget, EventResponse, consumed, ignored, open_terminal, close_request}
use polaros.Gui.Widget.Desktop.{response, response-ne-close}
use polaros.Gui.Compositor
use polaros.Gui.Compositor.{
  Compositor, retain_ne, remove_widget, select, press, send_to, send_to_all, drag_to, move_to,
  type_to, hit_test, is_close, raise_to_top,
}
use polaros.Gui.Compositor.Layers.{count_id, count_id-append}
use polaros.Gui.Compositor.Counts.{count_id-handle_event}
use polaros.Gui.Compositor.Invariant.{IsFixed, IsValid}
use polaros.Gui.Compositor.Kept.{handle_event-IsValid, add_widget-IsValid}
use polaros.Gui.Compositor.Range.{OnScreen, IsNear, Fits}
use polaros.Gui.Compositor.OnScreen.{InRange, Near, AllNear-Fits, handle_event-InRange}
use polaros.Gui.Session.{
  Layer, desktop, Screen, layer, layer_id, layer_bounds, process, pointer_after, asks, round,
  rounds, end_round, start, spawn_terminal_window,
}
use polaros.Gui.Session.Spawn.{Opened, Opens, opened_added, spawn_opened}

is_close-ne : (r : EventResponse) → r ≢ close_request → is_close r ≡ false
is_close-ne close_request h = absurd (h refl)
is_close-ne consumed h = refl
is_close-ne ignored h = refl
is_close-ne open_terminal h = refl

module _ {S C : Type 0} (terminal : Widget S C) (new_terminal : ℕ → ℤ → ℤ → ℕ → ℕ → Option C) where
  abbrev pub the_desktop : Layer C
  the_desktop = desktop (record { id = 0 })

  the_desktop-IsFixed : IsFixed (layer terminal new_terminal) the_desktop
  the_desktop-IsFixed = record {
    zero_id = refl;
    stays = λ e s. refl;
    remains = λ e s. is_close-ne (response e) (response-ne-close e);
  }

  -- What the event loop keeps, on top of what the compositor does: the next id is larger than those
  -- of the layers, so that a new window has an id of its own.
  pub record IsGood (g : Screen C) : Type 0 where
    pub valid : IsValid (layer terminal new_terminal) the_desktop g.compositor
    pub in_range : InRange (layer terminal new_terminal) g.compositor
    pub fresh :
        (i : ℕ)
        → g.next_widget_id ≤ i
        → count_id (layer terminal new_terminal) g.compositor.layers i ≡ 0
    pub ids : 10 ≤ g.next_widget_id

  handle_event-IsGood :
      (g : Screen C) (e : Event) (s : S) (u v : ℤ) (frames : ℕ)
      → OnScreen e
      → IsGood g
      → IsGood (record {
        compositor = (Compositor.handle_event (layer terminal new_terminal) g.compositor e s).1;
        cursor_x = u;
        cursor_y = v;
        next_widget_id = g.next_widget_id;
        frame_counter = frames;
      })
  handle_event-IsGood g e s u v frames on h =
      let l = layer terminal new_terminal in
      record {
        valid = handle_event-IsValid l the_desktop the_desktop-IsFixed g.compositor e s h.valid;
        in_range = handle_event-InRange l g.compositor e s on h.in_range;
        fresh = λ i m. omega (arith, count_id-handle_event l g.compositor e s i, h.fresh i m);
        ids = h.ids;
      }

  process-IsGood :
      (events : List Event) (g : Screen C) (need : Bool) (s : S)
      → All OnScreen events
      → IsGood g
      → IsGood (process terminal new_terminal g events need s).1
        × ((process terminal new_terminal g events need s).1.next_widget_id ≡ g.next_widget_id)
  unfolding process
  process-IsGood [] g need s on h = (h, refl)
  process-IsGood (e ∷ events) g need s on h =
      let at = pointer_after e (g.cursor_x, g.cursor_y) in
      let r = Compositor.handle_event (layer terminal new_terminal) g.compositor e s in
      let next = record g { compositor = r.1; cursor_x = at.0; cursor_y = at.1 } in
      process-IsGood events next (need || asks e r.0) r.2 on.1
        (handle_event-IsGood g e s at.0 at.1 g.frame_counter on.0 h)

  add_widget-InRange :
      (c : Compositor (Layer C)) (w : Layer C)
      → InRange (layer terminal new_terminal) c
      → Near (layer terminal new_terminal) w
      → InRange (layer terminal new_terminal) (Compositor.add_widget c w)
  unfolding Compositor.add_widget
  add_widget-InRange c w h near = record {
    near = All-append (Near (layer terminal new_terminal)) c.layers (w ∷ []) h.near (near, tt);
    offsets = h.offsets;
  }

  opened-Near :
      (g g' : Screen C) (o : Opened terminal new_terminal g g')
      → Near (layer terminal new_terminal) o.win
  opened-Near g g' o = subst IsNear (sym o.has_bounds) (
      let small = o.small in
      record {
        x_range = omega arith;
        y_range = omega arith;
        w_range = omega arith;
        h_range = omega arith;
      })

  count_id-added :
      (c : Compositor (Layer C)) (w : Layer C) (i : ℕ)
      → count_id (layer terminal new_terminal) (Compositor.add_widget c w).layers i
        ≡ count_id (layer terminal new_terminal) c.layers i
          + (if layer_id terminal new_terminal w == i then 1 else 0)
  unfolding Compositor.add_widget
  count_id-added c w i =
      omega (arith, count_id-append (layer terminal new_terminal) c.layers (w ∷ []) i)

  pub spawn-IsGood :
      (g : Screen C)
      → Opens terminal new_terminal
      → g.next_widget_id ≤ 2194
      → IsGood g
      → (g' : Screen C) × (spawn_terminal_window terminal new_terminal g ≡ some g')
        × IsGood g'
        × (g'.next_widget_id ≡ g.next_widget_id + 2)
  spawn-IsGood g opens small h =
      let l = layer terminal new_terminal in
      let (g', e, o) = spawn_opened terminal new_terminal g opens h.ids small in
      let on_top = opened_added terminal new_terminal g g' o in
      let added =
        add_widget-IsValid l the_desktop the_desktop-IsFixed g.compositor o.win
          (h.fresh (layer_id terminal new_terminal o.win) (omega (arith, o.has_id))) h.valid in
      (
        g',
        e,
        record {
          valid = subst (IsValid l the_desktop) (sym on_top) added;
          in_range =
              subst (InRange l) (sym on_top)
                (add_widget-InRange g.compositor o.win h.in_range (opened-Near g g' o));
          fresh = λ i m. ground (
            arith,
            o.has_id,
            o.next,
            count_id-added g.compositor o.win i,
            ap (λ (c : Compositor (Layer C)). count_id l c.layers i) on_top,
            h.fresh i,
          );
          ids = omega (arith, h.ids, o.next);
        },
        o.next,
      )

  end_round-IsGood :
      (g : Screen C) (s : S)
      → IsGood g
      → IsGood (end_round terminal new_terminal g s).0
        × ((end_round terminal new_terminal g s).0.next_widget_id ≡ g.next_widget_id)
  unfolding end_round
  end_round-IsGood g s h = elim (Bool-cases (leb 3 (g.frame_counter + 1))) [
    | inl t ↦ rw t (handle_event-IsGood g tick s g.cursor_x g.cursor_y 0 tt h, refl)
    | inr f ↦
        rw f (record { valid = h.valid; in_range = h.in_range; fresh = h.fresh; ids = h.ids }, refl)
  ]

  round-IsGood :
      (g : Screen C) (events : List Event) (s : S)
      → Opens terminal new_terminal
      → g.next_widget_id ≤ 2194
      → All OnScreen events
      → IsGood g
      → (g' : Screen C) × (s' : S) × (round terminal new_terminal g events s ≡ some (g', s'))
        × IsGood g'
        × (g'.next_widget_id ≤ g.next_widget_id + 2)
  unfolding round
  round-IsGood g events s opens small on h =
      let done = process terminal new_terminal g events false s in
      let p = process-IsGood events g false s on h in
      elim (Bool-cases done.0) [
        | inl t ↦
            let (g1, e, good, n) = spawn-IsGood done.1 opens (omega (arith, p.1)) p.0 in
            let r = end_round-IsGood g1 done.2 good in
            let f = end_round terminal new_terminal g1 done.2 in
            (f.0, f.1, rw (t, e) refl, r.0, omega (arith, r.1, n, p.1))
        | inr g ↦
            let r = end_round-IsGood done.1 done.2 p.0 in
            let f = end_round terminal new_terminal done.1 done.2 in
            (f.0, f.1, rw g refl, r.0, omega (arith, r.1, p.1))
      ]

  rounds-IsGood :
      (batches : List (List Event)) (g : Screen C) (s : S)
      → Opens terminal new_terminal
      → g.next_widget_id + 2 * length batches ≤ 2196
      → All (All OnScreen) batches
      → IsGood g
      → (g' : Screen C) × (s' : S) × (rounds terminal new_terminal g batches s ≡ some (g', s'))
        × IsGood g'
  unfolding rounds
  rounds-IsGood [] g s opens room on h = (g, s, refl, h)
  rounds-IsGood (events ∷ batches) g s opens room on h =
      let (g1, s1, e, good, n) = round-IsGood g events s opens (omega arith) on.0 h in
      let (g2, s2, e2, good2) = rounds-IsGood batches g1 s1 opens (omega (arith, n)) on.1 good in
      (g2, s2, rw e e2, good2)

  abbrev with_desktop : Screen C
  with_desktop = record {
    compositor = record { layers = the_desktop ∷ []; focused_id = none; drag_state = none };
    cursor_x = pos 160;
    cursor_y = pos 100;
    next_widget_id = 10;
    frame_counter = 0;
  }

  with_desktop-IsGood : IsGood with_desktop
  with_desktop-IsGood = record {
    valid = record {
      rest = [];
      at_bottom = refl;
      distinct = λ i. ground arith;
      focus_in = tt;
      drag_in = tt;
    };
    in_range = record {
      near = (
        record {
          x_range = omega arith;
          y_range = omega arith;
          w_range = omega arith;
          h_range = omega arith;
        },
        tt,
      );
      offsets = tt;
    };
    fresh = λ i m. ground arith;
    ids = omega arith;
  }

  -- From its start and for 1092 rounds, and as many as there are, the event loop does not panic,
  -- whatever the events are, if the pointer is on the screen: after them the ids of the layers are
  -- distinct, the desktop is the lowest layer, focus and drag name layers that are there and are not
  -- the desktop, and all sums of the layers' coordinates fit in an `i16`.
  pub loop-IsGood :
      (batches : List (List Event)) (s : S)
      → Opens terminal new_terminal
      → length batches ≤ 1092
      → All (All OnScreen) batches
      → (g : Screen C) × (start terminal new_terminal ≡ some g)
        × (g' : Screen C) × (s' : S) × (rounds terminal new_terminal g batches s ≡ some (g', s'))
        × IsGood g'
        × All (λ (w : Layer C). Fits (layer_bounds terminal new_terminal w)) g'.compositor.layers
  unfolding start Compositor.add_widget
  loop-IsGood batches s opens short on =
      let (g, e, good, n) = spawn-IsGood with_desktop opens (omega arith) with_desktop-IsGood in
      let (g', s', e', good') = rounds-IsGood batches g s opens (omega (arith, n)) on good in
      (
        g,
        e,
        g',
        s',
        e',
        good',
        AllNear-Fits (layer terminal new_terminal) g'.compositor.layers good'.in_range.near,
      )
