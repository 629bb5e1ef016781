-- ===== src/Kernel/Timer.antt =====
-- src/kernel/timer.rs: the tick counter, the clock of the status bar, and the preemption.
pub mod Clock
mod Tests
use polaros.Prelude.{
  ℕ, zero, suc, ◌+◌, ◌-◌, ◌*◌, ◌/◌, ◌%◌, Bool, true, false, not, ◌&&◌, Option, none, some, List, [],
  ◌∷◌, ◌++◌, length, take, set, replicate, ltb, ◌==◌, if◌then◌else◌, Bytes, text,
}
use polaros.Fs.Name.{is_utf8}
use polaros.Drivers.Vga.{Buffer, update_status_bar}
use polaros.Kernel.Task.{Scheduler, Outcome, returns, schedule_preempt}

abbrev pub timer_hz : ℕ
timer_hz = 100

pub record FmtBuf : Type 0 where
  pub buf : Bytes
  pub pos : ℕ

abbrev pub new_buf : FmtBuf
new_buf = record { buf = replicate 40 0; pos = 0 }

unfoldable pub write_str : FmtBuf → Bytes → FmtBuf
write_str b [] = b
write_str b (byte ∷ bytes) =
    write_str
      (if ltb b.pos (length b.buf)
        then record { buf = set b.buf b.pos byte; pos = b.pos + 1 }
        else b)
      bytes

abbrev pub as_str : FmtBuf → Bytes
as_str b = if is_utf8 (take b.pos b.buf) then take b.pos b.buf else []

-- What `{}` prints of a number, and what `{:02}` prints of one below 100.
abbrev pub two_digits : ℕ → Bytes
two_digits n = (48 + n / 10) ∷ (48 + n % 10) ∷ []

module _ (decimal : ℕ → Bytes) where
  -- The pieces of " {}h {:02}m {:02}s ", which `write!` writes one after another.
  unfoldable pub uptime : ℕ → List Bytes
  uptime ticks =
      let secs = ticks / timer_hz in
      text " "
      ∷ decimal (secs / 3600)
      ∷ text "h "
      ∷ two_digits (secs % 3600 / 60)
      ∷ text "m "
      ∷ two_digits (secs % 60)
      ∷ text "s "
      ∷ []

  unfoldable pub write_all : FmtBuf → List Bytes → FmtBuf
  write_all b [] = b
  write_all b (piece ∷ pieces) = write_all (write_str b piece) pieces

  -- `TICKS` and the screen; the acknowledgement of the interrupt is left out.
  unfoldable pub rust_timer_handler : Bool → ℕ → Buffer → ℕ × Buffer
  unfolding uptime write_all
  rust_timer_handler gui_mode_active ticks screen =
      let ticks' = (ticks + 1) % 18446744073709551616 in
      let status = as_str (write_all new_buf (uptime ticks')) in
      if not gui_mode_active && (ticks' % timer_hz == 0)
      then (ticks', update_status_bar (text " PolarOs v0.1.0") status screen)
      else (ticks', screen)

-- A tick that finds the scheduler locked is skipped.
unfoldable pub scheduler_schedule : Bool → Scheduler → Outcome (Option (ℕ × ℕ) × Scheduler)
scheduler_schedule free s = if free then schedule_preempt s else returns (none, s)
