-- ===== src/Text.antt =====
-- What the sources use of the standard library on text: std::stoi, std::stoull, std::to_string,
-- std::getline, find_first_of, find_last_of, substr and compare. `none` is an exception.
pub mod Numbers
pub mod Lines
use prob_alimama_2023_a.Base.{
  ℕ, zero, suc, ◌+◌, ◌-◌, ◌*◌, ◌/◌, ◌%◌, ◌^◌, Bool, true, false, ◌&&◌, ◌||◌, ◌<◌, ◌≡◌, arith,
  Option, none, some, List, [], ◌∷◌, ◌++◌, ltb, leb, ◌==◌, if◌then◌else◌, length, take, drop, Bytes,
  equal, codes,
}

abbrev pub is_digit : ℕ → Bool
is_digit c = leb b'0' c && leb c b'9'

-- isspace
abbrev pub is_space : ℕ → Bool
is_space c = c == 32 || (leb 9 c && leb c 13)

-- The digits from here on, read onto `acc`.
unfoldable pub read_digits : ℕ → Bytes → ℕ
read_digits acc [] = acc
read_digits acc (c ∷ cs) = if is_digit c then read_digits (acc * 10 + (c - b'0')) cs else acc

-- The number in front, if a digit is there.
unfoldable pub read_number : Bytes → Option ℕ
unfolding read_digits
read_number [] = none
read_number (c ∷ cs) = if is_digit c then some (read_digits 0 (c ∷ cs)) else none

unfoldable pub skip_spaces : Bytes → Bytes
skip_spaces [] = []
skip_spaces (c ∷ cs) = if is_space c then skip_spaces cs else c ∷ cs

-- A sign, and what follows it.
unfoldable pub read_sign : Bytes → Bool × Bytes
read_sign [] = (false, [])
read_sign (c ∷ cs) =
    if c == b'-' then (true, cs) else if c == b'+' then (false, cs) else (false, c ∷ cs)

-- The bit pattern of an int.
unfoldable pub stoi : Bytes → Option ℕ
unfolding read_number skip_spaces read_sign
stoi text =
    let (negative, rest) = read_sign (skip_spaces text) in
    elim (read_number rest) [
      | none ↦ none
      | some n ↦
          if negative
          then if leb n (2 ^ 31) then some ((2 ^ 32 - n) % 2 ^ 32) else none
          else if ltb n (2 ^ 31)
          then some n
          else none
    ]

-- A minus sign negates modulo 2 ^ 64.
unfoldable pub stoull : Bytes → Option ℕ
unfolding read_number skip_spaces read_sign
stoull text =
    let (negative, rest) = read_sign (skip_spaces text) in
    elim (read_number rest) [
      | none ↦ none
      | some n ↦
          if ltb n (2 ^ 64) then some (if negative then (2 ^ 64 - n) % 2 ^ 64 else n) else none
    ]

-- The decimal digits of n, at most `fuel` of them.
unfoldable pub digits : (fuel n : ℕ) → Bytes
digits zero n = []
digits (suc fuel) n =
    let rest = digits fuel (n / 10) in
    if ltb n 10 then (b'0' + n) ∷ [] else rest ++ (b'0' + n % 10) ∷ []

-- n + 1 digits are enough for n.
unfoldable pub to_string : ℕ → Bytes
unfolding digits
to_string n = digits (suc n) n

-- The text of an `int`, which is its bit pattern here.
unfoldable pub int_to_string : ℕ → Bytes
unfolding to_string
int_to_string n = if ltb n (2 ^ 31) then to_string n else b'-' ∷ to_string (2 ^ 32 - n)

-- An `int` that is not negative is written as its pattern is.
pub int_to_string-to_string : (n : ℕ) → n < 2 ^ 31 → int_to_string n ≡ to_string n
unfolding int_to_string
int_to_string-to_string n h = ground (arith, h)

abbrev pub newline : ℕ
newline = 10

abbrev pub onto_first : ℕ → List Bytes → List Bytes
onto_first c [] = (c ∷ []) ∷ []
onto_first c (line ∷ rest) = (c ∷ line) ∷ rest

-- The lines that a loop of `getline` sees: an empty rest is none.
unfoldable pub lines : Bytes → List Bytes
lines [] = []
lines (c ∷ cs) = if c == newline then [] ∷ lines cs else onto_first c (lines cs)

-- The position of the first `c`.
unfoldable pub find_first_of : ℕ → Bytes → Option ℕ
find_first_of c [] = none
find_first_of c (x ∷ xs) =
    if x == c then some 0 else elim (find_first_of c xs) [ none ↦ none | some i ↦ some (suc i) ]

-- `s.substr(pos)`: out_of_range past the end.
unfoldable pub substr_from : Bytes → ℕ → Option Bytes
substr_from s pos = if leb pos (length s) then some (drop pos s) else none

-- `s.compare(0, prefix.size(), prefix) == 0`
unfoldable pub has_prefix : Bytes → Bytes → Bool
unfolding equal
has_prefix s prefix = equal (take (length prefix) s) prefix

-- `path.substr(path.find_last_of('/') + 1)`; with no slash, `npos + 1` is 0.
unfoldable pub after_slash : Bytes → Bytes
after_slash [] = []
after_slash (c ∷ cs) = elim (find_first_of b'/' cs) [
  | some i ↦ after_slash cs
  | none ↦ if c == b'/' then cs else c ∷ cs
]
