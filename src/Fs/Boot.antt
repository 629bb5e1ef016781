-- ===== src/Fs/Boot.antt =====
-- `fs::init` of src/fs/mod.rs: the files and the directory that every boot begins with.
use polaros.Prelude.{[], ◌∷◌, text}
use polaros.Fs.RamFs.{RamFs, write, mkdir}

-- The results of the calls are dropped, as in the source.
unfoldable pub init : RamFs → RamFs
unfolding write mkdir
init fs =
    let fs1 =
      (write fs [] (text "readme.txt") (
        text
          "Witaj w PolarOs v0.1.0!\nTo jest prosty system operacyjny napisany w Rust.\nUzyj 'help' aby zobaczyc dostepne komendy.")).1 in
    let fs2 = (write fs1 [] (text "hello.txt") (text "Hello, World!")).1 in
    let fs3 =
      (write fs2 [] (text "version.txt")
        (text "PolarOs v0.1.0\nArchitektura: x86_64\nJezyk: Rust")).1 in
    let fs4 = (mkdir fs3 [] (text "docs")).1 in
    (write fs4 (text "docs" ∷ []) (text "info.txt") (text "Katalog z dokumentacja systemu.")).1
