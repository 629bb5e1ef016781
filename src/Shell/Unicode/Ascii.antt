-- ===== src/Shell/Unicode/Ascii.antt =====
-- Texts of ASCII: each byte is a character.
use polaros.Prelude.{
  ℕ, zero, suc, ◌<◌, ◌≡◌, refl, ap, true, false, [], ◌∷◌, drop, All, Bytes, arith,
}
use polaros.Shell.Completion.{is_char_boundary}
use polaros.Shell.Unicode.{ends_char, pop_char}

abbrev pub IsAscii : Bytes → Type 0
IsAscii bs = All (λ (b : ℕ). b < 0x80) bs

pub boundary-IsAscii : (bs : Bytes) (n : ℕ) → IsAscii bs → is_char_boundary bs n ≡ true
boundary-IsAscii [] n h = refl
boundary-IsAscii (b ∷ bs) zero h = let k = h.0 in ground arith
boundary-IsAscii (b ∷ bs) (suc n) h = boundary-IsAscii bs n h.1

pub IsAscii-drop : (n : ℕ) (bs : Bytes) → IsAscii bs → IsAscii (drop n bs)
IsAscii-drop zero bs h = h
IsAscii-drop (suc n) [] h = tt
IsAscii-drop (suc n) (b ∷ bs) h = IsAscii-drop n bs h.1

-- The text without its last byte.
abbrev pub without_last : Bytes → Bytes
without_last [] = []
without_last (b ∷ []) = []
without_last (b ∷ c ∷ bs) = b ∷ without_last (c ∷ bs)

pub IsAscii-without_last : (bs : Bytes) → IsAscii bs → IsAscii (without_last bs)
IsAscii-without_last [] h = tt
IsAscii-without_last (b ∷ []) h = tt
IsAscii-without_last (b ∷ c ∷ bs) h = (h.0, IsAscii-without_last (c ∷ bs) h.1)

-- The last character of such a text is its last byte.
pub pop_char-IsAscii : (bs : Bytes) → IsAscii bs → pop_char bs ≡ without_last bs
unfolding pop_char
pop_char-IsAscii [] h = refl
pop_char-IsAscii (b ∷ []) h = refl
pop_char-IsAscii (b ∷ c ∷ bs) h =
    let k = h.1.0 in
    let inside : ends_char (c ∷ bs) ≡ false = ground arith in
    rw inside (ap (λ (r : Bytes). b ∷ r) (pop_char-IsAscii (c ∷ bs) h.1))
