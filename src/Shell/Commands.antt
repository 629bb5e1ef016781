-- ===== src/Shell/Commands.antt =====
-- `run_command` of src/shell/commands.rs: the table of the commands, and what each of them is given. The
-- commands on the file system, on lines and on the environment are those of Shell/Files, Shell/Inspect
-- and Shell/Text; the others act on the rest of the machine, which is a parameter with their handlers.
pub mod Directory
use polaros.Prelude.{
  ℕ, ◌+◌, ◌-◌, ◌==◌, ltb, if◌then◌else◌, Bool, true, false, Option, none, some, List, [], ◌∷◌, ◌++◌,
  length, replicate, Bytes, text,
}
use polaros.Fs.Name.{Name, name_eq}
use polaros.Fs.RamFs.{RamFs, DirPath}
use polaros.Shell.Env.{Env}
use polaros.Shell.Line.{decimal}
use polaros.Shell.Disk.{
  Drive, SaveReport, no_disk, header_failed, save_out_of_fuel, sector_failed, saved, LoadReport,
  disk_missing, header_unread, no_file_system, load_out_of_fuel, damaged, sector_unread, loaded,
  cmd_save, cmd_load,
}
use polaros.Shell.Files.{
  quoted, Result, cmd_ls, cmd_cat, cmd_touch, cmd_write, cmd_rm, cmd_mkdir, cmd_cd, cmd_pwd, cmd_cp,
  cmd_mv,
}
use polaros.Shell.Inspect.{
  cmd_grep, cmd_wc, cmd_hexdump, head_command, tail_command, sort_command, uniq_command, cmd_env,
  cmd_export,
}
use polaros.Shell.Text.{trim_trailing_newline}

-- The shell's directory, the file system, the environment, and the rest of the machine.
pub record State (M : Type 0) : Type 0 where
  pub cwd : DirPath
  pub fs : RamFs
  pub env : Env
  pub machine : M

-- The disk, and the handlers of help, uptime, info, ps, spawn, kill, exec, fatls and keymap, and of the
-- screen that clear clears. They read the shell's state, and change only the rest of the machine.
pub record Outside (M : Type 0) : Type 0 where
  pub drive : Drive M
  pub other : Bytes → Bytes → State M → Bytes × M

-- The handlers of the table, by the name of their command.
pub data Command : Type 0 where
  echo ls cat touch write_file rm mkdir_command pwd grep wc cp mv hexdump head tail sort_lines :
      Command
  uniq env_command export : Command
  save : Command
  -- A command that acts on the rest of the machine, and one that is not in the table.
  other unknown : Command
  -- Those before the table.
  clear cd load : Command

-- The texts of the two commands on the disk; they do not run out of fuel (Shell/Disk).
abbrev pub saved_text : SaveReport → Bytes
saved_text no_disk = text "Dysk ATA niedostepny."
saved_text header_failed = text "Blad zapisu naglowka."
saved_text save_out_of_fuel = []
saved_text (sector_failed sector) = text "Blad zapisu sektora " ++ decimal sector ++ text "."
saved_text (saved bytes sectors) =
    text "Zapisano " ++ decimal bytes ++ text " bajtow (" ++ decimal sectors ++ text " sektorow)."

abbrev pub loaded_text : LoadReport → Bytes
loaded_text disk_missing = text "Dysk ATA niedostepny."
loaded_text header_unread = text "Blad odczytu naglowka."
loaded_text no_file_system = text "Brak zapisanego systemu plikow na dysku."
loaded_text load_out_of_fuel = []
loaded_text damaged = text "Uszkodzone dane na dysku."
loaded_text (sector_unread sector) = text "Blad odczytu sektora " ++ decimal sector ++ text "."
loaded_text (loaded bytes) = text "Wczytano system plikow (" ++ decimal bytes ++ text " bajtow)."

-- `COMMAND_TABLE` and the names before it, without the help texts.
abbrev pub table : List (Bytes × Command)
table =
    (text "clear", clear)
    ∷ (text "cd", cd)
    ∷ (text "load", load)
    ∷ (text "help", other)
    ∷ (text "echo", echo)
    ∷ (text "ls", ls)
    ∷ (text "cat", cat)
    ∷ (text "touch", touch)
    ∷ (text "write", write_file)
    ∷ (text "rm", rm)
    ∷ (text "mkdir", mkdir_command)
    ∷ (text "pwd", pwd)
    ∷ (text "grep", grep)
    ∷ (text "wc", wc)
    ∷ (text "cp", cp)
    ∷ (text "mv", mv)
    ∷ (text "hexdump", hexdump)
    ∷ (text "head", head)
    ∷ (text "tail", tail)
    ∷ (text "sort", sort_lines)
    ∷ (text "uniq", uniq)
    ∷ (text "save", save)
    ∷ (text "uptime", other)
    ∷ (text "info", other)
    ∷ (text "ps", other)
    ∷ (text "spawn", other)
    ∷ (text "kill", other)
    ∷ (text "exec", other)
    ∷ (text "env", env_command)
    ∷ (text "export", export)
    ∷ (text "fatls", other)
    ∷ (text "keymap", other)
    ∷ []

unfoldable pub find_command : List (Bytes × Command) → Bytes → Command
find_command [] cmd = unknown
find_command ((name, command) ∷ entries) cmd =
    let rest = find_command entries cmd in if name_eq name cmd then command else rest

module _ {M : Type 0} where
  abbrev pub changes_fs : State M → Result → Bytes × State M
  changes_fs s r = (r.0, record s { fs = r.1 })

  abbrev pub changes_machine : State M → Bytes × M → Bytes × State M
  changes_machine s r = (r.0, record s { machine = r.1 })

  module _ (outside : Outside M) where
    abbrev pub dispatch : Command → Bytes → Bytes → Option Bytes → State M → Bytes × State M
    dispatch clear cmd args pipe s = ([], record s { machine = (outside.other cmd args s).1 })
    dispatch cd cmd args pipe s = ([], record s { cwd = cmd_cd args s.fs s.cwd })
    dispatch echo cmd args pipe s = (args, s)
    dispatch ls cmd args pipe s = changes_fs s (cmd_ls s.fs s.cwd)
    dispatch cat cmd args pipe s = changes_fs s (cmd_cat args s.fs s.cwd)
    dispatch touch cmd args pipe s = changes_fs s (cmd_touch args s.fs s.cwd)
    dispatch write_file cmd args pipe s = changes_fs s (cmd_write args s.fs s.cwd)
    dispatch rm cmd args pipe s = changes_fs s (cmd_rm args s.fs s.cwd)
    dispatch mkdir_command cmd args pipe s = changes_fs s (cmd_mkdir args s.fs s.cwd)
    dispatch pwd cmd args pipe s = (cmd_pwd s.cwd, s)
    dispatch grep cmd args pipe s = (cmd_grep args s.fs s.cwd pipe, s)
    dispatch wc cmd args pipe s = (cmd_wc args s.fs s.cwd pipe, s)
    dispatch cp cmd args pipe s = changes_fs s (cmd_cp args s.fs s.cwd)
    dispatch mv cmd args pipe s = changes_fs s (cmd_mv args s.fs s.cwd)
    dispatch hexdump cmd args pipe s = (cmd_hexdump args s.fs s.cwd, s)
    dispatch head cmd args pipe s = (head_command args s.fs s.cwd pipe, s)
    dispatch tail cmd args pipe s = (tail_command args s.fs s.cwd pipe, s)
    dispatch sort_lines cmd args pipe s = (sort_command args s.fs s.cwd pipe, s)
    dispatch uniq cmd args pipe s = (uniq_command pipe, s)
    dispatch env_command cmd args pipe s = (cmd_env s.env, s)
    dispatch export cmd args pipe s = let r = cmd_export args s.env in (r.0, record s { env = r.1 })
    dispatch save cmd args pipe s =
        let r = cmd_save outside.drive s.fs s.machine in changes_machine s (saved_text r.0, r.1)
    dispatch load cmd args pipe s =
        let (report, fs, cwd) = cmd_load outside.drive s.fs s.cwd s.machine in
        (loaded_text report, record s { fs = fs; cwd = cwd })
    dispatch other cmd args pipe s = changes_machine s (outside.other cmd args s)
    dispatch unknown cmd args pipe s = (
      quoted (text "Nieznana komenda: ") cmd (text ". Wpisz 'help' aby zobaczyc liste komend."),
      s,
    )

    unfoldable pub run_command : Bytes → Bytes → Option Bytes → State M → Bytes × State M
    unfolding find_command
    run_command cmd args pipe s = dispatch (find_command table cmd) cmd args pipe s
