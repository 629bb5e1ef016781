-- ===== src/Drivers/Keyboard/Buffer.antt =====
-- `ScancodeBuffer` of src/drivers/keyboard.rs.
use polaros.Prelude.{
  ℕ, ◌+◌, ◌-◌, ◌%◌, ◌≤◌, ◌<◌, ◌≡◌, refl, ap, ap₂, Option, none, some, List, [], ◌∷◌, arith, length,
  length-set, ltb, ◌==◌, if◌then◌else◌, set, get_or, replicate, Bytes,
}
use polaros.Ring.{
  offer, tail, head?, unroll, length-unroll, unroll_pos, unroll-set, next-lt, next-round,
}

abbrev pub buf_size : ℕ
buf_size = 128

pub record ScancodeBuffer : Type 0 where
  pub buf : Bytes
  pub read_pos : ℕ
  pub write_pos : ℕ
  pub count : ℕ

unfoldable pub new : ScancodeBuffer
new = record { buf = replicate buf_size 0; read_pos = 0; write_pos = 0; count = 0 }

unfoldable pub push : ScancodeBuffer → ℕ → ScancodeBuffer
push b scancode =
    if ltb b.count buf_size
    then record {
      buf = set b.buf b.write_pos scancode;
      read_pos = b.read_pos;
      write_pos = (b.write_pos + 1) % buf_size;
      count = b.count + 1;
    }
    else b

unfoldable pub pop : ScancodeBuffer → Option ℕ × ScancodeBuffer
pop b = if b.count == 0 then (none, b) else (
  some (get_or b.buf b.read_pos 0),
  record {
    buf = b.buf;
    read_pos = (b.read_pos + 1) % buf_size;
    write_pos = b.write_pos;
    count = b.count - 1;
  },
)

-- The buffer holds the scancodes of the list, the oldest first.
pub record Holds (b : ScancodeBuffer) (codes : Bytes) : Type 0 where
  pub size : length b.buf ≡ 128
  pub inside : b.read_pos < 128
  pub few : b.count ≤ 128
  pub behind : b.write_pos ≡ (b.read_pos + b.count) % 128
  pub items : unroll buf_size 0 b.buf b.read_pos b.count ≡ codes

new-Holds : Holds new []
unfolding new
new-Holds = record {
  size = refl;
  inside = omega arith;
  few = omega arith;
  behind = refl;
  items = refl;
}

count-Holds : (b : ScancodeBuffer) (cs : Bytes) → Holds b cs → b.count ≡ length cs
count-Holds b cs h =
    omega (arith, length-unroll buf_size 0 b.buf b.read_pos b.count, ap (length {A = ℕ}) h.items)

push-Holds :
    (b : ScancodeBuffer) (cs : Bytes) (c : ℕ) → Holds b cs → Holds (push b c) (offer buf_size cs c)
unfolding push
push-Holds b cs c h = ground (
  arith,
  h.size,
  h.inside,
  h.few,
  h.behind,
  h.items,
  count-Holds b cs h,
  length-set b.buf b.write_pos c,
  unroll-set 128 0 b.buf c (omega (arith, h.size)) b.read_pos b.count b.write_pos h.inside,
)

pop-Holds :
    (b : ScancodeBuffer) (cs : Bytes)
    → Holds b cs
    → ((pop b).0 ≡ head? cs) × Holds (pop b).1 (tail cs)
unfolding pop
pop-Holds b [] h = ground (arith, h.size, h.inside, h.few, h.behind, h.items, count-Holds b [] h)
pop-Holds b (c ∷ cs) h = ground (
  arith,
  h.size,
  h.inside,
  h.few,
  h.behind,
  h.items,
  count-Holds b (c ∷ cs) h,
  unroll_pos 128 0 b.buf b.read_pos b.count,
  next-lt 128 b.read_pos h.inside,
  next-round 128 b.read_pos (b.count - 1),
)

-- `some c` is a scancode that an interrupt adds, `none` a call of `pop`.
unfoldable pub run : ScancodeBuffer → List (Option ℕ) → List (Option ℕ)
run b [] = []
run b (some c ∷ calls) = run (push b c) calls
run b (none ∷ calls) = (pop b).0 ∷ run (pop b).1 calls

unfoldable pub run_fifo : Bytes → List (Option ℕ) → List (Option ℕ)
run_fifo cs [] = []
run_fifo cs (some c ∷ calls) = run_fifo (offer buf_size cs c) calls
run_fifo cs (none ∷ calls) = head? cs ∷ run_fifo (tail cs) calls

run-Holds :
    (calls : List (Option ℕ)) (b : ScancodeBuffer) (cs : Bytes)
    → Holds b cs
    → run b calls ≡ run_fifo cs calls
unfolding run run_fifo
run-Holds [] b cs h = refl
run-Holds (some c ∷ calls) b cs h =
    run-Holds calls (push b c) (offer buf_size cs c) (push-Holds b cs c h)
run-Holds (none ∷ calls) b cs h =
    let p = pop-Holds b cs h in ap₂ ◌∷◌ p.0 (run-Holds calls (pop b).1 (tail cs) p.1)

-- However the keyboard interrupt and the reader are interleaved, the reader takes from a new
-- scancode buffer what a first-in first-out queue gives that holds at most 128 scancodes and loses
-- those that come when it is full.
pub buffer-eq-fifo : (calls : List (Option ℕ)) → run new calls ≡ run_fifo [] calls
buffer-eq-fifo calls = run-Holds calls new [] new-Holds
