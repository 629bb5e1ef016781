-- ===== src/Shell/History.antt =====
-- `CommandHistory` of src/shell/mod.rs: the lines that the arrow keys bring back.
pub mod Calls
mod Tests
use polaros.Prelude.{
  ℕ, zero, suc, ◌+◌, ◌-◌, Bool, true, false, Option, none, some, List, [], ◌∷◌, ◌++◌, length,
  get_elem?, ltb, leb, ◌==◌, if◌then◌else◌, Bytes,
}
use polaros.Fs.Name.{name_eq}

abbrev pub history_max : ℕ
history_max = 16

pub record CommandHistory : Type 0 where
  pub entries : List Bytes
  pub cursor : ℕ

unfoldable pub new : CommandHistory
new = record { entries = []; cursor = 0 }

-- `entries.last()`.
abbrev pub last : List Bytes → Option Bytes
last [] = none
last (e ∷ []) = some e
last (e ∷ f ∷ es) = last (f ∷ es)

-- `entries.last() == Some(cmd)`.
abbrev pub is_last : List Bytes → Bytes → Bool
is_last es cmd = elim (last es) [ none ↦ false | some e ↦ name_eq e cmd ]

-- `entries.remove(0)`.
abbrev pub remove_first : List Bytes → List Bytes
remove_first [] = []
remove_first (e ∷ es) = es

unfoldable pub push : CommandHistory → Bytes → CommandHistory
push h cmd =
    let kept = if leb history_max (length h.entries) then remove_first h.entries else h.entries in
    let entries' = kept ++ cmd ∷ [] in
    if is_last h.entries cmd
    then record h { cursor = length h.entries }
    else record { entries = entries'; cursor = length entries' }

-- What an arrow key comes to: an index out of range panics.
pub data Shown : Type 0 where
  shows : Bytes → Shown
  nothing panics : Shown

abbrev pub entry_at : List Bytes → ℕ → Shown
entry_at es i = elim (get_elem? es i) [ none ↦ panics | some e ↦ shows e ]

unfoldable pub up : CommandHistory → Shown × CommandHistory
up h =
    let cursor' = if ltb 0 h.cursor then h.cursor - 1 else h.cursor in
    if length h.entries == 0
    then (nothing, h)
    else (entry_at h.entries cursor', record h { cursor = cursor' })

unfoldable pub down : CommandHistory → Shown × CommandHistory
down h =
    let cursor' = h.cursor + 1 in
    if leb (length h.entries) h.cursor
    then (nothing, h)
    else if ltb cursor' (length h.entries)
    then (entry_at h.entries cursor', record h { cursor = cursor' })
    else (nothing, record h { cursor = cursor' })
