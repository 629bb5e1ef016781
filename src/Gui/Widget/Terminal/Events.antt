-- ===== src/Gui/Widget/Terminal/Events.antt =====
-- A predicate that the parts of src/gui/widget/terminal.rs keep is kept by every event.
use polaros.Prelude.{
  ℕ, ◌+◌, ◌≤◌, ◌<◌, ◌≡◌, inl, inr, Bool-cases, Bool, true, not, ◌&&◌, leb, ltb, Option, none, some,
  List, [], ◌∷◌, ◌++◌, length, length-append, Bytes, arith, text,
}
use polaros.Fs.Name.{Name, name_eq}
use polaros.Fs.RamFs.{RamFs, DirPath, read, write}
use polaros.Kernel.Syscall.{split}
use polaros.Gui.Event.{
  Event, KeyCode, key_press, mouse_move, mouse_down, mouse_up, tick, char, arrow_up, arrow_down,
  arrow_left, arrow_right, enter, backspace, tab, escape, f1, f2, f3,
}
use polaros.Shell.Line.{trim, split_once, is_nil}
use polaros.Shell.Unicode.{encode_char, pop_char, expand_text}
use polaros.Shell.Commands.{Outside, State}
use polaros.Shell.Pipeline.{
  OutputMode, to_screen, to_file, append_to, pipe_char, command_of, appended, text_of,
}
use polaros.Gui.Widget.Terminal.{
  Terminal, max_input, push_line, push_lines, parse_redirections, run_in, run_parts, reported,
  and_state, put_out, run_from, run_read, run_input, run_line, execute_command, after_enter,
  press_key, blink, handle_event,
}

abbrev pub HoldsAll : (Terminal → Type 0) → Option Terminal → Type 0
HoldsAll P none = Unit
HoldsAll P (some t) = P t

abbrev pub HoldsBoth : {M : Type 0} → (Terminal → Type 0) → Option (Terminal × State M) → Type 0
HoldsBoth P none = Unit
HoldsBoth P (some (t, s)) = P t

-- What a predicate on terminals must allow: pushing and clearing lines, another directory, another
-- input, and blinking.
pub record IsClosed (P : Terminal → Type 0) : Type 0 where
  pub pushes : (t : Terminal) (line : Bytes) → P t → HoldsAll P (push_line t line)
  pub clears : (t : Terminal) → P t → P (record t { lines = [] })
  pub goes : (t : Terminal) (c : DirPath) → P t → P (record t { cwd = c })
  pub types :
      (t : Terminal) (bytes : Bytes)
      → (length t.input_buf ≤ 259 → length bytes ≤ 259)
      → P t
      → P (record t { input_buf = bytes })
  pub blinks :
      (t : Terminal) (visible : Bool) (ticks : ℕ)
      → P t
      → P (record t { cursor_visible = visible; cursor_blink_tick = ticks })

length-pop_char : (bs : Bytes) → length (pop_char bs) ≤ length bs
unfolding pop_char
length-pop_char [] = omega arith
length-pop_char (b ∷ bs) = ground (arith, length-pop_char bs)

length-encode_char : (c : ℕ) → length (encode_char c) ≤ 4
length-encode_char c = ground arith

room :
    (bs : Bytes) (c : ℕ)
    → (leb 32 c && ltb (length bs) max_input) ≡ true
    → length (bs ++ encode_char c) ≤ 259
room bs c h =
    let few : length bs < 256 = ground (arith, h) in
    omega (arith, few, length-append bs (encode_char c), length-encode_char c)

module _ (P : Terminal → Type 0) (closed : IsClosed P) where
  push_lines-Holds :
      (ls : List Bytes) (o : Option Terminal) → HoldsAll P o → HoldsAll P (push_lines o ls)
  unfolding push_lines
  push_lines-Holds [] o h = h
  push_lines-Holds (l ∷ ls) none h = push_lines-Holds ls none tt
  push_lines-Holds (l ∷ ls) (some t) h = push_lines-Holds ls (push_line t l) (closed.pushes t l h)

  module _ {M : Type 0} (outside : Outside M) (is_alphanumeric : ℕ → Bool) where
    run_parts-Holds :
        (parts : List Bytes) (pipe : Option Bytes) (t : Terminal) (s : State M)
        → P t
        → P (run_parts outside is_alphanumeric parts pipe t s).1
    unfolding run_parts
    run_parts-Holds [] pipe t s h = h
    run_parts-Holds (part ∷ parts) pipe t s h =
        let part1 = trim part in
        let (cmd, args) = command_of part1 (split_once 32 part1) in
        let r = run_in outside is_alphanumeric t cmd args pipe s in
        elim (Bool-cases (is_nil part1)) [
          | inl e ↦ rw e (run_parts-Holds parts pipe t s h)
          | inr f ↦ elim (Bool-cases (name_eq cmd (text "clear"))) [
            | inl e ↦
                rw (f, e)
                  (run_parts-Holds parts (some []) (record t { lines = [] }) s (closed.clears t h))
            | inr g ↦ rw (f, g) (run_parts-Holds parts (some r.0) r.1 r.2 (closed.goes t r.1.cwd h))
          ]
        ]

    and_state-Holds :
        (o : Option Terminal) (s : State M)
        → HoldsAll P o
        → HoldsBoth P (and_state outside is_alphanumeric o s)
    and_state-Holds none s h = tt
    and_state-Holds (some t) s h = h

    reported-Holds :
        (done failed : Bytes) (filename : Name) (wrote : Bool) (fs : RamFs) (t : Terminal)
        (s : State M)
        → P t
        → HoldsBoth P (reported outside is_alphanumeric done failed filename (wrote, fs) t s)
    reported-Holds done failed filename wrote fs t s h =
        and_state-Holds (push_line t _) (record s { fs = fs }) (closed.pushes t _ h)

    put_out-Holds :
        (mode : OutputMode) (output : Option Bytes) (t : Terminal) (s : State M)
        → P t
        → HoldsBoth P (put_out outside is_alphanumeric mode output t s)
    put_out-Holds mode none t s h = h
    put_out-Holds (to_file f) (some output) t s h =
        let r = write s.fs t.cwd f output in reported-Holds _ _ f r.0 r.1 t s h
    put_out-Holds (append_to f) (some output) t s h =
        let r = write s.fs t.cwd f (appended (read s.fs t.cwd f) output) in
        reported-Holds _ _ f r.0 r.1 t s h
    put_out-Holds to_screen (some output) t s h =
        and_state-Holds _ s (push_lines-Holds _ (some t) h)

    run_from-Holds :
        (p : Bytes) (mode : OutputMode) (pipe : Option Bytes) (t : Terminal) (s : State M)
        → P t
        → HoldsBoth P (run_from outside is_alphanumeric p mode pipe t s)
    run_from-Holds p mode pipe t s h =
        let parts = split pipe_char p in
        let r = run_parts outside is_alphanumeric parts pipe t s in
        put_out-Holds mode r.0 r.1 r.2 (run_parts-Holds parts pipe t s h)

    run_read-Holds :
        (name : Name) (content : Option Bytes) (p : Bytes) (mode : OutputMode) (t : Terminal)
        (s : State M)
        → P t
        → HoldsBoth P (run_read outside is_alphanumeric name content p mode t s)
    run_read-Holds name none p mode t s h = and_state-Holds _ s (closed.pushes t _ h)
    run_read-Holds name (some content) p mode t s h =
        run_from-Holds p mode (some (text_of content)) t s h

    run_input-Holds :
        (input : Option Name) (p : Bytes) (mode : OutputMode) (t : Terminal) (s : State M)
        → P t
        → HoldsBoth P (run_input outside is_alphanumeric input p mode t s)
    run_input-Holds none p mode t s h = run_from-Holds p mode none t s h
    run_input-Holds (some name) p mode t s h =
        run_read-Holds name (read s.fs t.cwd name) p mode t s h

    run_line-Holds :
        (cmd : Bytes) (o : Option Terminal) (s : State M)
        → HoldsAll P o
        → HoldsBoth P (run_line outside is_alphanumeric cmd o s)
    run_line-Holds cmd none s h = tt
    run_line-Holds cmd (some t) s h =
        let t1 = record t { input_buf = [] } in
        let h1 = closed.types t [] (λ k. omega arith) h in
        let r = parse_redirections (trim (expand_text is_alphanumeric s.env (trim cmd))) in
        elim (Bool-cases (is_nil (trim cmd))) [
          | inl e ↦ rw e h1
          | inr f ↦ rw f (run_input-Holds r.1.input_file r.0 r.1.output_mode t1 s h1)
        ]

    execute_command-Holds :
        (t : Terminal) (s : State M)
        → P t
        → HoldsBoth P (execute_command outside is_alphanumeric t s)
    unfolding execute_command
    execute_command-Holds t s h = run_line-Holds t.input_buf (push_line t _) s (closed.pushes t _ h)

    after_enter-Holds :
        (t : Terminal) (o : Option (Terminal × State M))
        → P t
        → HoldsBoth P o
        → P (after_enter outside is_alphanumeric t o).1
    after_enter-Holds t none h k = h
    after_enter-Holds t (some (t1, s)) h k = k

    press_key-Holds :
        (t : Terminal) (k : KeyCode) (s : State M)
        → P t
        → P (press_key outside is_alphanumeric t k s).1
    unfolding press_key
    press_key-Holds t (char c) s h =
        elim (Bool-cases (leb 32 c && ltb (length t.input_buf) max_input)) [
          | inl e ↦
              rw e (closed.types t (t.input_buf ++ encode_char c) (λ k. room t.input_buf c e) h)
          | inr f ↦ rw f h
        ]
    press_key-Holds t enter s h =
        after_enter-Holds t (execute_command outside is_alphanumeric t s) h
          (execute_command-Holds t s h)
    press_key-Holds t backspace s h =
        closed.types t (pop_char t.input_buf) (λ k. omega (arith, length-pop_char t.input_buf, k)) h
    press_key-Holds t arrow_up s h = h
    press_key-Holds t arrow_down s h = h
    press_key-Holds t arrow_left s h = h
    press_key-Holds t arrow_right s h = h
    press_key-Holds t tab s h = h
    press_key-Holds t escape s h = h
    press_key-Holds t f1 s h = h
    press_key-Holds t f2 s h = h
    press_key-Holds t f3 s h = h

    blink-Holds : (t : Terminal) → P t → P (blink outside is_alphanumeric t)
    blink-Holds t h = elim (Bool-cases (leb 25 (t.cursor_blink_tick + 1))) [
      | inl e ↦ rw e (closed.blinks t (not t.cursor_visible) 0 h)
      | inr f ↦ rw f (closed.blinks t t.cursor_visible (t.cursor_blink_tick + 1) h)
    ]

    pub handle_event-Holds :
        (t : Terminal) (e : Event) (s : Option (State M))
        → P t
        → P (handle_event outside is_alphanumeric t e s).1
    unfolding handle_event
    handle_event-Holds t e none h = h
    handle_event-Holds t (key_press k) (some s) h = press_key-Holds t k s h
    handle_event-Holds t tick (some s) h = blink-Holds t h
    handle_event-Holds t (mouse_move x y) (some s) h = h
    handle_event-Holds t (mouse_down x y b) (some s) h = h
    handle_event-Holds t (mouse_up x y b) (some s) h = h
