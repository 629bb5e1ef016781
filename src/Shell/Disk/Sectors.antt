-- ===== src/Shell/Disk/Sectors.antt =====
-- A working drive, and the sectors behind the first one: what the loop of `cmd_save` writes to
-- them, the loop of `cmd_load` collects.
use polaros.Prelude.{
  ℕ, zero, suc, ◌+◌, ◌-◌, ◌/◌, ◌≤◌, ◌<◌, ◌≡◌, ◌≢◌, refl, ap, ◌∙◌, min, true, some, [], ◌∷◌, ◌++◌,
  length, length-append, length-take, length-drop, take, drop, take-append-drop, take-append_length,
  append_assoc, append-nil, replicate, length-replicate, ltb, lt→ltb, Bytes, arith,
}
use polaros.Shell.Disk.{Drive, written, Collected, collected, buffer, write_rest, read_rest}

-- A drive that is there, does what it is told on the sectors of 28-bit addresses, and keeps them.
pub record IsWorking {S : Type 0} (drive : Drive S) : Type 0 where
  pub present : (s : S) → drive.is_available s ≡ true
  pub writes :
      (sector : ℕ) (buf : Bytes) (s : S)
      → sector < 268435456
      → length buf ≡ 512
      → (drive.write_sector sector buf s).0 ≡ true
  pub reads_back :
      (sector : ℕ) (buf : Bytes) (s : S)
      → sector < 268435456
      → length buf ≡ 512
      → drive.read_sector sector (drive.write_sector sector buf s).1 ≡ some buf
  pub keeps :
      (sector other : ℕ) (buf : Bytes) (s : S)
      → sector < 268435456
      → other < 268435456
      → other ≢ sector
      → drive.read_sector other (drive.write_sector sector buf s).1 ≡ drive.read_sector other s

pub length-buffer : (bytes : Bytes) → length bytes ≤ 512 → length (buffer bytes) ≡ 512
length-buffer bytes h = simp (length-append, length-replicate) (omega arith)

-- The first bytes of a buffer.
pub take-append : (n : ℕ) (xs ys : Bytes) → n ≡ length xs → take n (xs ++ ys) ≡ xs
take-append n xs ys e = rw e (take-append_length xs ys)

module _ {S : Type 0} (drive : Drive S) (works : IsWorking drive) where
  -- The sectors from `sector` on hold the bytes: the loop of `cmd_load` collects them, whatever it
  -- has collected before.
  pub record Holds (fuel sector : ℕ) (rest : Bytes) (before : S) (s' : S) : Type 0 where
    pub below :
        (other : ℕ) → other < sector → drive.read_sector other s' ≡ drive.read_sector other before
    pub collects :
        (content : Bytes) (total_len : ℕ)
        → total_len ≡ length content + length rest
        → read_rest drive fuel sector total_len content s' ≡ collected (content ++ rest)

  pub record Saves (fuel sector : ℕ) (rest : Bytes) (s : S) : Type 0 where
    pub s' : S
    pub end : ℕ
    pub outcome : write_rest drive fuel sector rest s ≡ (written end, s')
    pub holds : Holds fuel sector rest s s'

  collect_none :
      (fuel sector : ℕ) (content : Bytes) (total_len : ℕ) (s : S)
      → total_len ≡ length content + 0
      → read_rest drive fuel sector total_len content s ≡ collected (content ++ [])
  unfolding read_rest
  collect_none zero sector content total_len s e = rw append-nil (ground arith)
  collect_none (suc fuel) sector content total_len s e = rw append-nil (ground arith)

  write_step :
      (fuel sector b : ℕ) (bs : Bytes) (s s' : S) (end : ℕ)
      → (drive.write_sector sector (buffer (take 512 (b ∷ bs))) s).0 ≡ true
      → write_rest drive fuel
          (sector + 1)
          (drop 512 (b ∷ bs))
          (drive.write_sector sector (buffer (take 512 (b ∷ bs))) s).1
        ≡ (written end, s')
      → write_rest drive (suc fuel) sector (b ∷ bs) s ≡ (written end, s')
  unfolding write_rest
  write_step fuel sector b bs s s' end ok e = cc (ok, e)

  collect_step :
      (fuel sector total_len : ℕ) (content buf : Bytes) (s : S) (r : Collected)
      → ltb (length content) total_len ≡ true
      → drive.read_sector sector s ≡ some buf
      → read_rest drive fuel
          (sector + 1)
          total_len
          (content ++ take (min (total_len - length content) 512) buf)
          s
        ≡ r
      → read_rest drive (suc fuel) sector total_len content s ≡ r
  unfolding read_rest
  collect_step fuel sector total_len content buf s r more e again = cc (more, e, again)

  -- The bytes that are read of a sector are those that were written to it.
  chunk-read :
      (rest : Bytes) (k : ℕ)
      → k ≡ length rest
      → take (min k 512) (buffer (take 512 rest)) ≡ take 512 rest
  chunk-read rest k e =
      take-append (min k 512) (take 512 rest) (replicate (512 - length (take 512 rest)) 0)
        (simp length-take (omega arith))

  -- One sector more in front of those that hold the rest.
  Holds-suc :
      (fuel sector b : ℕ) (bs : Bytes) (s s' : S)
      → sector < 268435456
      → Holds fuel
          (sector + 1)
          (drop 512 (b ∷ bs))
          (drive.write_sector sector (buffer (take 512 (b ∷ bs))) s).1
          s'
      → Holds (suc fuel) sector (b ∷ bs) s s'
  Holds-suc fuel sector b bs s s' bound h =
      let rest = b ∷ bs in
      let chunk = take 512 rest in
      let size = length-buffer chunk (simp length-take (omega arith)) in
      record {
        below = λ other lt.
            h.below other (omega arith)
            ∙ works.keeps sector other (buffer chunk) s bound (omega arith) (omega arith);
        collects = λ content total_len e.
            let at : drive.read_sector sector s' ≡ some (buffer chunk) =
              h.below sector (omega arith) ∙ works.reads_back sector (buffer chunk) s bound size in
            let all : chunk ++ drop 512 rest ≡ rest = take-append-drop 512 rest in
            collect_step fuel sector total_len content (buffer chunk) s'
              (collected (content ++ rest)) (lt→ltb (length content) total_len (omega arith)) at
              (rw (chunk-read rest (total_len - length content) (omega arith)) (
                h.collects (content ++ chunk) total_len
                  (simp (length-append, length-take, length-drop) (omega arith))
                ∙ ap collected
                    (append_assoc content chunk (drop 512 rest) ∙ ap (λ l. content ++ l) all)));
      }

  pub saves :
      (fuel sector : ℕ) (rest : Bytes) (s : S)
      → length rest ≤ fuel
      → sector + (length rest + 511) / 512 ≤ 268435456
      → Saves fuel sector rest s
  saves fuel sector [] s h k = record {
    s' = s;
    end = sector;
    outcome = unfold write_rest in refl;
    holds = record {
      below = λ other lt. refl;
      collects = λ content total_len e. collect_none fuel sector content total_len s e;
    };
  }
  saves zero sector (b ∷ bs) s h k = absurd (omega arith)
  saves (suc fuel) sector (b ∷ bs) s h k =
      let rest = b ∷ bs in
      let chunk = take 512 rest in
      let size = length-buffer chunk (simp length-take (omega arith)) in
      let s1 = (drive.write_sector sector (buffer chunk) s).1 in
      let bound : sector < 268435456 = omega arith in
      let ok = works.writes sector (buffer chunk) s bound size in
      let left = length-drop 512 rest in
      let next =
        saves fuel (sector + 1) (drop 512 rest) s1 (omega (arith, left)) (omega (arith, left)) in
      record {
        s' = next.s';
        end = next.end;
        outcome = write_step fuel sector b bs s next.s' next.end ok next.outcome;
        holds = Holds-suc fuel sector b bs s next.s' bound next.holds;
      }
