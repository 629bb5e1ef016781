-- ===== src/Gui/Session/Spawn.antt =====
-- When a terminal window can be opened, and where it is put: src/gui/mod.rs.
use polaros.Prelude.{
  ℕ, ◌+◌, ◌-◌, ◌*◌, ◌%◌, ◌≤◌, ◌<◌, ◌≡◌, refl, none, some, [], ◌∷◌, ◌++◌, arith, Bool-cases, inl,
  inr, leb, leb→le, ◌⊎◌, text, Option,
}
use polaros.Prelude.Int.{ℤ, pos, ◌+ℤ◌, ◌-ℤ◌}
use polaros.Gui.Widget.{Widget, as_i16, checked}
use polaros.Gui.Widget.Window
use polaros.Gui.Compositor
use polaros.Gui.Session.{
  Screen, offset, spawn_terminal_window, layer_id, layer_bounds, after, Layer, window,
}

less_ten :
    (id : ℕ) → 10 ≤ id → id < 32768 → checked (as_i16 (id % 65536) -ℤ pos 10) ≡ some (pos (id - 10))
unfolding ◌-ℤ◌
less_ten id low high = let same : id % 65536 ≡ id = omega arith in rw same (ground arith)

offset_some : (id : ℕ) → 10 ≤ id → id ≤ 2194 → offset id ≡ some (pos ((id - 10) * 15 % 60))
unfolding offset
offset_some id low high = rw (less_ten id low (omega arith)) (ground arith)

offset_none : (id : ℕ) → 2194 < id → id < 32768 → offset id ≡ none
unfolding offset
offset_none id low high = rw (less_ten id (omega arith) high) (ground arith)

module _ {S C : Type 0} (terminal : Widget S C) (new_terminal : ℕ → ℤ → ℤ → ℕ → ℕ → Option C) where
  -- A window on top of the others, and nothing else but the next id has changed.
  pub record Opened (g g' : Screen C) : Type 0 where
    pub win : Layer C
    pub step : ℕ
    pub small : step ≤ 45
    pub on_top : g'.compositor.layers ≡ g.compositor.layers ++ (win ∷ [])
    pub same_focus : g'.compositor.focused_id ≡ g.compositor.focused_id
    pub same_drag : g'.compositor.drag_state ≡ g.compositor.drag_state
    pub same_cursor : (g'.cursor_x ≡ g.cursor_x) × (g'.cursor_y ≡ g.cursor_y)
    pub has_id : layer_id terminal new_terminal win ≡ g.next_widget_id
    pub has_bounds :
        layer_bounds terminal new_terminal win
        ≡ record { x = pos (20 + step); y = pos (10 + step); w = 280; h = 160 }
    pub next : g'.next_widget_id ≡ g.next_widget_id + 2
    pub same_frames : g'.frame_counter ≡ g.frame_counter

  -- A terminal of the size that windows have can be made.
  abbrev pub Opens : Type 0
  Opens = (id : ℕ) (x y : ℤ) → (c : C) × (new_terminal id x y 278 147 ≡ some c)

  pub opened_added :
      (g g' : Screen C) (o : Opened g g') → g'.compositor ≡ Compositor.add_widget g.compositor o.win
  unfolding Compositor.add_widget
  opened_added g g' o =
      λ i. record { layers = o.on_top i; focused_id = o.same_focus i; drag_state = o.same_drag i }

  pub spawn_opened :
      (g : Screen C)
      → Opens
      → 10 ≤ g.next_widget_id
      → g.next_widget_id ≤ 2194
      → (g' : Screen C) × (spawn_terminal_window terminal new_terminal g ≡ some g') × Opened g g'
  unfolding spawn_terminal_window Compositor.add_widget ◌+ℤ◌
  spawn_opened g opens low high =
      let step = (g.next_widget_id - 10) * 15 % 60 in
      let win_id = g.next_widget_id in
      let term_id = after terminal new_terminal win_id in
      let at =
        Window.new win_id (pos 20 +ℤ pos step) (pos 10 +ℤ pos step) 280 160 (text "Terminal") in
      let cr = Window.content_rect at in
      let (c, made) = opens term_id cr.x cr.y in
      let win : Layer C = window (Window.set_content at c) in
      let g' : Screen C = record g {
        compositor = Compositor.add_widget g.compositor win;
        next_widget_id = after terminal new_terminal (after terminal new_terminal win_id);
      } in
      (
        g',
        rw (offset_some g.next_widget_id low high, made) refl,
        record {
          win = win;
          step = step;
          small = omega arith;
          on_top = refl;
          same_focus = refl;
          same_drag = refl;
          same_cursor = (refl, refl);
          has_id = refl;
          has_bounds = ground arith;
          next = omega arith;
          same_frames = refl;
        },
      )

  -- If a terminal of its size can be made: with a next id from 10 to 2194 a window opens above all others, with that id, its corner at
  -- (20 + step, 10 + step) for a step of at most 45, and the rest stays as it was; with a larger one
  -- that is below 2 ^ 15 it panics, as its offset overflows.
  pub spawn_terminal_window_lem :
      (g : Screen C)
      → Opens
      → 10 ≤ g.next_widget_id
      → g.next_widget_id < 32768
      → ((g.next_widget_id ≤ 2194)
          × (g' : Screen C) × (spawn_terminal_window terminal new_terminal g ≡ some g')
          × Opened g g')
        ⊎ ((2194 < g.next_widget_id) × (spawn_terminal_window terminal new_terminal g ≡ none))
  unfolding spawn_terminal_window
  spawn_terminal_window_lem g opens low high = elim (Bool-cases (leb g.next_widget_id 2194)) [
    | inl t ↦
        let small = leb→le g.next_widget_id 2194 t in
        let r = spawn_opened g opens low small in inl (small, r.0, r.1, r.2)
    | inr f ↦
        let large : 2194 < g.next_widget_id = ground arith in
        inr (large, rw (offset_none g.next_widget_id large high) refl)
  ]
