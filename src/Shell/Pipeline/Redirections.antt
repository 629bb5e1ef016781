-- ===== src/Shell/Pipeline/Redirections.antt =====
-- What `parse_redirections` of src/shell/mod.rs makes of a line that is written with redirections.
use polaros.Prelude.{
  ℕ, zero, suc, ◌-◌, ◌≡◌, refl, ap, ◌∙◌, Bool, true, false, ◌||◌, ◌==◌, Option, none, some, [], ◌∷◌,
  ◌++◌, append-nil, Bytes, arith,
}
use polaros.Fs.Name.{Name}
use polaros.Shell.Line.{
  trim, trim_start_from, trim_end_from, white_len, rfind, rfind_here, has_prefix, is_nil,
}
use polaros.Shell.Pipeline.{
  OutputMode, to_screen, to_file, append_to, has_byte, greater, less, pipe_char, last_is, input_at,
  with_input, input_only, parse_input, write_at, parse_write, append_at, parse_redirections,
  is_target,
}

abbrev pub Lacks : ℕ → Bytes → Type 0
Lacks c bs = has_byte c bs ≡ false

or_false : (a b : Bool) → (a || b) ≡ false → (a ≡ false) × (b ≡ false)
or_false true b h = cc
or_false false b h = (refl, h)

pub Lacks-append : (c : ℕ) (a b : Bytes) → Lacks c a → Lacks c b → Lacks c (a ++ b)
Lacks-append c [] b ha hb = hb
Lacks-append c (x ∷ a) b ha hb = ground (arith, Lacks-append c a b, ha, hb)

-- Trimming leaves a part of the text.
Lacks-trim_start_from : (c : ℕ) (k : ℕ) (bs : Bytes) → Lacks c bs → Lacks c (trim_start_from k bs)
unfolding trim_start_from
Lacks-trim_start_from c k [] h = refl
Lacks-trim_start_from c (suc k) (b ∷ bs) h =
    Lacks-trim_start_from c k bs (or_false (b == c) (has_byte c bs) h).1
Lacks-trim_start_from c zero (b ∷ bs) h = ground (
  arith,
  h,
  Lacks-trim_start_from c (white_len (b ∷ bs) - 1) bs (or_false (b == c) (has_byte c bs) h).1,
)

Lacks-trim_end_from : (c : ℕ) (k : ℕ) (bs : Bytes) → Lacks c bs → Lacks c (trim_end_from k bs)
unfolding trim_end_from
Lacks-trim_end_from c k [] h = refl
Lacks-trim_end_from c (suc k) (b ∷ bs) h =
    ground (arith, h, Lacks-trim_end_from c k bs (or_false (b == c) (has_byte c bs) h).1)
Lacks-trim_end_from c zero (b ∷ bs) h = ground (
  arith,
  h,
  Lacks-trim_end_from c (white_len (b ∷ bs) - 1) bs (or_false (b == c) (has_byte c bs) h).1,
)

pub Lacks-trim : (c : ℕ) (bs : Bytes) → Lacks c bs → Lacks c (trim bs)
unfolding trim
Lacks-trim c bs h = Lacks-trim_end_from c 0 _ (Lacks-trim_start_from c 0 bs h)

-- The last place of one byte, and of two.
module _ (c : ℕ) where
  pub rfind-none : (b : Bytes) → Lacks c b → rfind (c ∷ []) b ≡ none
  unfolding rfind
  rfind-none [] h = refl
  rfind-none (x ∷ b) h = ground (arith, h, rfind-none b)

  pub rfind_last : (a b : Bytes) → Lacks c b → rfind (c ∷ []) (a ++ (c ∷ b)) ≡ some (a, c ∷ b)
  unfolding rfind
  rfind_last [] b h = ground (arith, rfind-none b h)
  rfind_last (x ∷ a) b h =
      ap (rfind_here (has_prefix (c ∷ []) (x ∷ (a ++ (c ∷ b)))) x (a ++ (c ∷ b))) (rfind_last a b h)

  pub rfind_two_none : (b : Bytes) → Lacks c b → rfind (c ∷ c ∷ []) b ≡ none
  unfolding rfind
  rfind_two_none [] h = refl
  rfind_two_none (x ∷ b) h = ground (arith, h, rfind_two_none b)

  pub rfind_two_one :
      (a b : Bytes) → Lacks c a → Lacks c b → rfind (c ∷ c ∷ []) (a ++ (c ∷ b)) ≡ none
  unfolding rfind
  rfind_two_one [] [] ha hb = ground arith
  rfind_two_one [] (y ∷ b) ha hb = ground (arith, hb, rfind_two_none (y ∷ b) hb)
  rfind_two_one (x ∷ a) b ha hb = ground (arith, ha, rfind_two_one a b)

  pub rfind_two_last :
      (a b : Bytes) → Lacks c b → rfind (c ∷ c ∷ []) (a ++ (c ∷ c ∷ b)) ≡ some (a, c ∷ c ∷ b)
  unfolding rfind
  rfind_two_last [] b h = ground (arith, rfind_two_one [] b refl h)
  rfind_two_last (x ∷ a) b h =
      ap (rfind_here (has_prefix (c ∷ c ∷ []) (x ∷ (a ++ (c ∷ c ∷ b)))) x (a ++ (c ∷ c ∷ b)))
        (rfind_two_last a b h)

last_is-Lacks : (c : ℕ) (a : Bytes) → Lacks c a → last_is c a ≡ false
last_is-Lacks c [] h = refl
last_is-Lacks c (x ∷ []) h = ground (arith, h)
last_is-Lacks c (x ∷ y ∷ a) h = last_is-Lacks c (y ∷ a) (or_false (x == c) (has_byte c (y ∷ a)) h).1

-- A command line: what runs, where its input comes from, and where its output goes.
abbrev pub front_of : Bytes → Option Bytes → Bytes
front_of p none = p
front_of p (some i) = p ++ (less ∷ i)

abbrev pub tail_of : OutputMode → Bytes
tail_of to_screen = []
tail_of (to_file f) = greater ∷ f
tail_of (append_to f) = greater ∷ greater ∷ f

abbrev pub line_of : Bytes → Option Bytes → OutputMode → Bytes
line_of p i mode = front_of p i ++ tail_of mode

abbrev pub trimmed : Option Bytes → Option Name
trimmed none = none
trimmed (some i) = some (trim i)

abbrev pub trimmed_mode : OutputMode → OutputMode
trimmed_mode to_screen = to_screen
trimmed_mode (to_file f) = to_file (trim f)
trimmed_mode (append_to f) = append_to (trim f)

-- The pieces have no redirections or pipes of their own, but for pipes in what runs.
abbrev pub IsPlainInput : Option Bytes → Type 0
IsPlainInput none = Unit
IsPlainInput (some i) =
    Lacks less i × Lacks greater i × Lacks pipe_char i × (is_nil (trim i) ≡ false)

abbrev pub IsPlainName : Bytes → Type 0
IsPlainName f = Lacks greater f × Lacks pipe_char f × (is_nil (trim f) ≡ false)

abbrev pub IsPlainMode : OutputMode → Type 0
IsPlainMode to_screen = Unit
IsPlainMode (to_file f) = IsPlainName f
IsPlainMode (append_to f) = IsPlainName f

pub is_target-trim :
    (f : Bytes) → Lacks pipe_char f → is_nil (trim f) ≡ false → is_target (trim f) ≡ true
is_target-trim f l n = ground (arith, n, Lacks-trim pipe_char f l)

pub front_of-Lacks :
    (p : Bytes) (i : Option Bytes) → Lacks greater p → IsPlainInput i → Lacks greater (front_of p i)
front_of-Lacks p none h k = h
front_of-Lacks p (some i) h k = Lacks-append greater p (less ∷ i) h k.1

with_input_lem :
    (p : Bytes) (i : Option Bytes) (mode : OutputMode)
    → Lacks less p
    → IsPlainInput i
    → with_input (front_of p i) mode ≡ (p, record { input_file = trimmed i; output_mode = mode })
unfolding with_input
with_input_lem p none mode h k = ap (input_at p mode) (rfind-none less p h)
with_input_lem p (some i) mode h k =
    ap (input_at (p ++ (less ∷ i)) mode) (rfind_last less p i k.0) ∙ rw k.3 refl

parse_input_lem :
    (p : Bytes) (i : Option Bytes)
    → Lacks less p
    → IsPlainInput i
    → parse_input (front_of p i) ≡ (p, record { input_file = trimmed i; output_mode = to_screen })
unfolding parse_input
parse_input_lem p none h k = ap (input_only p) (rfind-none less p h)
parse_input_lem p (some i) h k =
    ap (input_only (p ++ (less ∷ i))) (rfind_last less p i k.0)
    ∙ rw (is_target-trim i k.2 k.3, Lacks-trim greater i k.1) refl

-- A line that is written as what runs, '<' and a file, and '>' or ">>" and a file, the redirections
-- as wanted, is taken apart into these, the names of the files without the blanks around them, if
-- what runs holds no '<' and no '>', the input's name no '<', no '>' and no pipe, the output's name
-- no '>' and no pipe, and no name is blank.
pub parse_redirections-line_of :
    (p : Bytes) (i : Option Bytes) (mode : OutputMode)
    → Lacks less p
    → Lacks greater p
    → IsPlainInput i
    → IsPlainMode mode
    → parse_redirections (line_of p i mode)
      ≡ (p, record { input_file = trimmed i; output_mode = trimmed_mode mode })
unfolding parse_redirections parse_write
parse_redirections-line_of p i to_screen hl hg hi hm =
    let front = front_of p i in
    let free = front_of-Lacks p i hg hi in
    ap parse_redirections (append-nil front)
    ∙ ap (append_at front) (rfind_two_none greater front free)
    ∙ ap (write_at front) (rfind-none greater front free)
    ∙ parse_input_lem p i hl hi
parse_redirections-line_of p i (to_file f) hl hg hi hm =
    let front = front_of p i in
    let line = front ++ (greater ∷ f) in
    let free = front_of-Lacks p i hg hi in
    ap (append_at line) (rfind_two_one greater front f free hm.0)
    ∙ ap (write_at line) (rfind_last greater front f hm.0)
    ∙ rw (last_is-Lacks greater front free, is_target-trim f hm.1 hm.2)
        (with_input_lem p i (to_file (trim f)) hl hi)
parse_redirections-line_of p i (append_to f) hl hg hi hm =
    let front = front_of p i in
    let line = front ++ (greater ∷ greater ∷ f) in
    ap (append_at line) (rfind_two_last greater front f hm.0)
    ∙ rw (is_target-trim f hm.1 hm.2) (with_input_lem p i (append_to (trim f)) hl hi)
