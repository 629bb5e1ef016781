-- ===== src/Lib.antt =====
-- PolarOs: a small operating system kernel for x86_64 in Rust. This library models the parts of it
-- that can be run without the hardware, and proves what they do.
--
-- The program's parts. The kernel (src/kernel) keeps the tasks and switches between them on timer
-- ticks, yields and exits. The file system (src/fs) is a tree in memory behind one lock; the shell
-- (src/shell) calls it, and its `save` and `load` commands write it to a disk and read it back. The
-- drivers (src/drivers) put scancodes and events into ring buffers from interrupt handlers, and the
-- user interface (src/gui) and the shell take them out.
--
-- Which file models which part:
--   Fs/Name: `String` as the key of a map, by its bytes, and the test of UTF-8 (core::str::from_utf8).
--   Fs/Tree: `FsEntry` of src/fs/ramfs.rs, and what a `BTreeMap` does, as a list of entries that
--     Fs/Tree/Order shows to stay in ascending order.
--   Fs/RamFs: `RamFs` of src/fs/ramfs.rs, one function for each method of the trait `FileSystem` of
--     src/fs/mod.rs under the method's name. A `&mut self` method returns the new file system beside
--     its result. View has the abstract view (path and name to what stands there), Update how a
--     change through `get_dir_mut` shows in it, Results the methods' contracts, and Calls sequences
--     of calls.
--   Fs/Codec: `serialize`, `load_from` and their helpers. The position in the data is the list of
--     the bytes that are left. The recursion on directories is on fuel, one more than the bytes
--     there are, which is enough as each directory and each entry takes at least two (Total).
--   Fs/Boot: `init` of src/fs/mod.rs.
--   Fs/Fat: the reader of src/fs/fat.rs. What the driver reads of each sector is a parameter. Sums,
--     differences and products of `u32` panic where they overflow, as they do in the debug build
--     that deploy.ps1 installs.
--   Kernel/Task: `Task` and `Scheduler` of src/kernel/task/scheduler.rs, one function for each
--     method. The raw pointers to saved contexts that a switch returns are the indices of the two
--     tasks. An index out of range is the outcome `panics`. The search of `find_and_switch` is on
--     fuel, as much as there are tasks, which is enough as it goes round once (Search). Invariant
--     has the scheduler's invariant, Kill what `cmd_kill` of src/shell/commands.rs does to it, Fair
--     the round robin.
--   Kernel/Syscall: the system calls of src/kernel/syscall/handlers.rs. The table of open files is a
--     list of 16 places; the calls take the bytes that a pointer and a length give. Dispatch has
--     `syscall_dispatch` on the whole state. The memory is that of user programs, with a byte at each
--     address that is mapped for them; a call whose pointer leaves it, or is null, `strays`, as no
--     pointer is checked, and what follows is not modelled. Parse is about paths, Table about
--     descriptors, Reads about reading, Sound about the invariant.
--   Kernel/Memory: `BootInfoFrameAllocator` of src/kernel/memory/frame_allocator.rs. `PhysFrame` of
--     the x86_64 crate is a parameter: a frame contains its address and is aligned.
--   Shell/Disk: `cmd_save` and `cmd_load` of src/shell/commands.rs. The drive behind
--     src/drivers/ata.rs is a parameter; a working one does what it is told on sectors below 2 ^ 28
--     and keeps them. The loops are on fuel, a round for each byte of the data, which is enough as
--     each sector takes at least one (Sectors). What the commands print is a report with the
--     numbers in it.
--   Kernel/Timer: the handlers of src/kernel/timer.rs. What `{}` prints of a number is a parameter.
--   Shell/Completion: src/shell/completion.rs. A slice inside a character is the outcome `panics`.
--   Shell/Text: head, tail, sort and uniq of src/shell/commands.rs on their input. Joined and Pieces
--     are about the text that is put together from lines and taken apart again, Order about the lines
--     that sort and uniq leave, and Piped about one behind the other.
--   Shell/Env: `ENV_VARS` and `expand_env_vars` of src/shell/commands.rs. The loop is on fuel, a round
--     for each character, which is enough as each round takes at least one (Expand). What is
--     alphanumeric is a parameter.
--   Shell/Line: what `trim`, `split_whitespace`, `split_once`, `rfind`, `contains` and `parse` of the
--     standard library do on bytes. Shell/Unicode: characters and bytes.
--   Shell/Files: ls, cat, touch, write, rm, mkdir, cd, pwd, cp and mv of src/shell/commands.rs; Moves is
--     about cp and mv, Places about cd. Shell/Inspect: grep, wc, hexdump, env, export, and head, tail,
--     sort and uniq with their arguments; Matching is about grep. The lines of hexdump are on fuel, one
--     for each byte, of which each takes at least one.
--   Shell/Commands: `COMMAND_TABLE` and `run_command`, load and save included. The parameter `Outside`
--     has the disk drive and the handlers of help, uptime, info, ps, spawn, kill, exec, fatls and
--     keymap, and of the screen that clear clears: they read the shell's state and change only the rest
--     of the machine. Directory shows what all commands keep.
--   Shell/Pipeline: `parse_redirections`, `execute_line` and the loop of `run` of src/shell/mod.rs.
--     Redirections is about the first, Stored about the output in a file, Session about many lines.
--   Shell/Editor: `read_line` of src/shell/mod.rs on the keys of Drivers/Keyboard/Decode; what it prints
--     is a list of calls. Row runs them on the row of the screen that is written, with its 80 columns
--     and the prompt; Column compares its column with that of Drivers/Vga, and Shown, Completing and
--     Echoed what stands there with the text.
--   Shell/History: `CommandHistory` of src/shell/mod.rs.
--   Drivers/Vga: `Writer` and `update_status_bar` of src/drivers/vga.rs, the screen as a list of rows.
--     Rows has its shape, Scroll what stands on it, Calls the writer's invariant, Status the last row.
--   Drivers/Mouse: `handle_byte` of src/drivers/mouse.rs, with the queue of Gui/Event. The handler is
--     not interrupted, so that the queue's lock is free in all of its tries or in none.
--   Gui/Event: `Event` and `EventQueue` of src/gui/event.rs.
--   Gui/Widget: `Rect`, `EventResponse` and the trait `Widget` of src/gui/widget/mod.rs, the latter as a
--     record of operations and laws that each widget fills: Desktop, Window, Button and Terminal.
--   Gui/Widget/Terminal: src/gui/widget/terminal.rs without its drawing; `none` is a panic. The loop of
--     `push_line` is on fuel, a round for each byte, which is enough as each takes at least one (Wrap,
--     which also has where a split panics).
--     Redirected compares its `parse_redirections` with that of the shell, Events and Keys are about
--     what events keep.
--   Gui/Compositor: `Compositor` of src/gui/compositor.rs over any widgets with these laws. A sum of
--     coordinates, which are `i16`, is a sum of integers; Range shows that none overflows, and OnScreen
--     that windows stay in reach of the pointer. Layers, HitTest, Click, Drag and Counts are about the
--     order of the layers, the layer at a point, presses, moves and the number of windows; Invariant has the
--     invariant, and Kept that all operations keep it; Machine is about events that leave the rest of the
--     machine as it is.
--   Gui/Session: the start and the rounds of `run` and `spawn_terminal_window` of src/gui/mod.rs. What a
--     window shows is a parameter, a widget with the laws that can fail to be made. Rounds has the
--     invariant of the loop, Quiet the rounds that leave the machine as it is, and Spawn, Closing and
--     Dragging what happens to a window. Terminals fills the parameter with Gui/Widget/Terminal; the
--     machine is `none` once a terminal has panicked.
--   Gui/Framebuffer, Gui/Draw: src/gui/framebuffer.rs and src/gui/primitives.rs, the frame as a list of
--     64000 bytes. A sum of `i16` that overflows is `none`, as a debug build panics.
--   Drivers/Keyboard: `ScancodeBuffer`, the choice of a layout, and the keys (Decode) of
--     src/drivers/keyboard.rs. What the pc-keyboard crate decodes is a parameter.
--   Ring: a ring buffer's positions and the queue that it stands for, for the two above.
--   Prelude: names, lists, machine words and integers that all of them use.
-- The Tests modules run the definitions, and apply the theorems, at concrete inputs.
--
-- Not modelled: input and output by ports, assembly, the processor's tables and the crates that set
-- them up; the drawing of the widgets, of texts and of the pointer, `draw_line`, which nothing calls,
-- panels and labels, which only draw; the tables of fonts and images; the loader of ELF
-- programs; what help, uptime, info, ps, fatls and keymap print, and the starting of programs by
-- spawn and exec.
pub mod Prelude
pub mod Ring
pub mod Gui
pub mod Kernel
pub mod Drivers
pub mod Fs
pub mod Shell
