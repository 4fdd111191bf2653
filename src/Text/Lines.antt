-- ===== src/Text/Lines.antt =====
-- A loop of std::getline over a text with newlines.
use prob_alimama_2023_a.Base.{
  ℕ, ◌≡◌, refl, false, [], ◌∷◌, ◌++◌, arith, ◌==◌, All, length, some, Bytes,
}
use prob_alimama_2023_a.Text.{newline, lines, find_first_of}

-- `c` is not in `s`.
abbrev pub Free : ℕ → Bytes → Type 0
Free c s = All (λ x. (x == c) ≡ false) s

pub lines-append :
    (line rest : Bytes) → Free newline line → lines (line ++ newline ∷ rest) ≡ line ∷ lines rest
unfolding lines
lines-append [] rest h = refl
lines-append (c ∷ line) rest (d, h) = rw (d, lines-append line rest h)

pub find_first_of-append :
    (c : ℕ) (before after : Bytes)
    → Free c before
    → find_first_of c (before ++ c ∷ after) ≡ some (length before)
unfolding find_first_of
find_first_of-append c [] after h = ground arith
find_first_of-append c (x ∷ before) after (d, h) = rw (d, find_first_of-append c before after h)
