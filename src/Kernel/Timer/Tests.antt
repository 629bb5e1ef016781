-- ===== src/Kernel/Timer/Tests.antt =====
-- The clock at concrete inputs.
use polaros.Prelude.{ℕ, ◌+◌, ◌≡◌, refl, [], ◌∷◌, Bytes, text}
use polaros.Fs.Name.{is_utf8}
use polaros.Kernel.Timer.{new_buf, write_str, as_str, uptime, write_all}

-- A number below 10 as its digit.
abbrev digit : ℕ → Bytes
digit n = (48 + n) ∷ []

one_hour : as_str (write_all digit new_buf (uptime digit 366100)) ≡ text " 1h 01m 01s "
unfolding write_all write_str uptime is_utf8
one_hour = refl
