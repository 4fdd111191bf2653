-- ===== src/Text/Numbers.antt =====
-- std::stoi and std::stoull on what std::to_string writes.
use prob_alimama_2023_a.Base.{
  lt→ltb, not-ltb, ℕ, zero, suc, ◌+◌, ◌-◌, ◌*◌, ◌/◌, ◌%◌, ◌^◌, ◌<◌, ◌≡◌, refl, sym, ap, ◌∙◌, true,
  false, some, [], ◌∷◌, ◌++◌, arith, All, All-append, Bytes, dec_lt,
}
use prob_alimama_2023_a.Text.{
  is_digit, read_digits, read_number, skip_spaces, read_sign, stoi, stoull, digits, to_string,
}

-- No digit comes next.
abbrev pub Stops : Bytes → Type 0
Stops [] = Unit
Stops (c ∷ cs) = is_digit c ≡ false

read_digits-Stops : (acc : ℕ) (rest : Bytes) → Stops rest → read_digits acc rest ≡ acc
unfolding read_digits
read_digits-Stops acc [] s = refl
read_digits-Stops acc (c ∷ cs) s = rw s

read_digits-append :
    (xs ys : Bytes) (acc : ℕ)
    → All (λ c. is_digit c ≡ true) xs
    → read_digits acc (xs ++ ys) ≡ read_digits (read_digits acc xs) ys
unfolding read_digits
read_digits-append [] ys acc h = refl
read_digits-append (c ∷ xs) ys acc (d, h) =
    ground (arith, d, read_digits-append xs ys (acc * 10 + (c - b'0')) h)

pub digits-digit : (fuel n : ℕ) → All (λ c. is_digit c ≡ true) (digits fuel n)
unfolding digits
digits-digit zero n = tt
digits-digit (suc fuel) n = elim (dec_lt n 10) [
  | yes small ↦ rw (lt→ltb n 10 small) (ground arith, tt)
  | no big ↦ rw (not-ltb n 10 big) (
      All-append (λ c. is_digit c ≡ true) (digits fuel (n / 10)) ((b'0' + n % 10) ∷ [])
        (digits-digit fuel (n / 10)) (ground arith, tt))
]

read_one : (acc d : ℕ) → d < 10 → read_digits acc ((b'0' + d) ∷ []) ≡ acc * 10 + d
unfolding read_digits
read_one acc d h = ground arith

read-digits : (fuel n : ℕ) → n < fuel → read_digits 0 (digits fuel n) ≡ n
unfolding digits
read-digits zero n h = elim h [ ]
read-digits (suc fuel) n h = elim (dec_lt n 10) [
  | yes small ↦ rw (lt→ltb n 10 small) (read_one 0 n small ∙ omega arith)
  | no big ↦ rw (not-ltb n 10 big) (
      read_digits-append (digits fuel (n / 10)) ((b'0' + n % 10) ∷ []) 0
        (digits-digit fuel (n / 10))
      ∙ ap (λ a. read_digits a ((b'0' + n % 10) ∷ [])) (read-digits fuel (n / 10) (omega arith))
      ∙ read_one (n / 10) (n % 10) (omega arith)
      ∙ omega arith)
]

abbrev Starts : Bytes → Type 0
Starts [] = ⊥
Starts (c ∷ cs) = is_digit c ≡ true

Starts-append : (xs ys : Bytes) → Starts xs → Starts (xs ++ ys)
Starts-append [] ys h = absurd h
Starts-append (c ∷ xs) ys h = h

digits-Starts : (fuel n : ℕ) → n < fuel → Starts (digits fuel n)
unfolding digits
digits-Starts zero n h = elim h [ ]
digits-Starts (suc fuel) n h = elim (dec_lt n 10) [
  | yes small ↦ rw (lt→ltb n 10 small) (ground arith)
  | no big ↦ rw (not-ltb n 10 big) (
      Starts-append (digits fuel (n / 10)) ((b'0' + n % 10) ∷ [])
        (digits-Starts fuel (n / 10) (omega arith)))
]

skip_spaces-digit : (c : ℕ) (cs : Bytes) → is_digit c ≡ true → skip_spaces (c ∷ cs) ≡ c ∷ cs
unfolding skip_spaces
skip_spaces-digit c cs h = ground (arith, h)

read_sign-digit : (c : ℕ) (cs : Bytes) → is_digit c ≡ true → read_sign (c ∷ cs) ≡ (false, c ∷ cs)
unfolding read_sign
read_sign-digit c cs h = ground (arith, h)

read_number-digit :
    (c : ℕ) (cs : Bytes) → is_digit c ≡ true → read_number (c ∷ cs) ≡ some (read_digits 0 (c ∷ cs))
unfolding read_number
read_number-digit c cs h = rw h

stoi-Starts : (s : Bytes) (n : ℕ) → Starts s → read_digits 0 s ≡ n → n < 2 ^ 31 → stoi s ≡ some n
unfolding stoi
stoi-Starts [] n h e b = absurd h
stoi-Starts (c ∷ cs) n h e b = rw (
  stoi,
  skip_spaces-digit c cs h,
  read_sign-digit c cs h,
  read_number-digit c cs h,
  e,
  lt→ltb n (2 ^ 31) b,
  ap (λ z. (read_sign z).0) (skip_spaces-digit c cs h),
  ap (λ z. z.0) (read_sign-digit c cs h),
)

-- The digits of a number, up to what stops them, are read as the number.
pub read_digits-to_string :
    (n : ℕ) (rest : Bytes) → Stops rest → read_digits 0 (to_string n ++ rest) ≡ n
unfolding to_string
read_digits-to_string n rest s =
    read_digits-append (digits (suc n) n) rest 0 (digits-digit (suc n) n)
    ∙ read_digits-Stops (read_digits 0 (digits (suc n) n)) rest s
    ∙ read-digits (suc n) n (omega arith)

pub to_string-eq :
    (m n : ℕ) (xs ys : Bytes) → Stops xs → Stops ys → to_string m ++ xs ≡ to_string n ++ ys → m ≡ n
to_string-eq m n xs ys a b e =
    sym (read_digits-to_string m xs a) ∙ ap (read_digits 0) e ∙ read_digits-to_string n ys b

pub to_string-digit : (n : ℕ) → All (λ c. is_digit c ≡ true) (to_string n)
unfolding to_string
to_string-digit n = digits-digit (suc n) n

-- A number below 2 ^ 31, written in decimal and followed by no digit, is read back.
pub stoi-to_string :
    (n : ℕ) (rest : Bytes) → n < 2 ^ 31 → Stops rest → stoi (to_string n ++ rest) ≡ some n
unfolding to_string
stoi-to_string n rest b s =
    stoi-Starts (digits (suc n) n ++ rest) n
      (Starts-append (digits (suc n) n) rest (digits-Starts (suc n) n (omega arith)))
      (read_digits-append (digits (suc n) n) rest 0 (digits-digit (suc n) n)
        ∙ read_digits-Stops (read_digits 0 (digits (suc n) n)) rest s
        ∙ read-digits (suc n) n (omega arith))
      b

stoull-Starts :
    (s : Bytes) (n : ℕ) → Starts s → read_digits 0 s ≡ n → n < 2 ^ 64 → stoull s ≡ some n
unfolding stoull
stoull-Starts [] n h e b = absurd h
stoull-Starts (c ∷ cs) n h e b = rw (
  stoull,
  skip_spaces-digit c cs h,
  read_sign-digit c cs h,
  read_number-digit c cs h,
  e,
  lt→ltb n (2 ^ 64) b,
  ap (λ z. (read_sign z).0) (skip_spaces-digit c cs h),
  ap (λ z. z.0) (read_sign-digit c cs h),
)

-- A number below 2 ^ 64, written in decimal and followed by no digit, is read back.
pub stoull-to_string :
    (n : ℕ) (rest : Bytes) → n < 2 ^ 64 → Stops rest → stoull (to_string n ++ rest) ≡ some n
unfolding to_string
stoull-to_string n rest b s =
    stoull-Starts (digits (suc n) n ++ rest) n
      (Starts-append (digits (suc n) n) rest (digits-Starts (suc n) n (omega arith)))
      (read_digits-append (digits (suc n) n) rest 0 (digits-digit (suc n) n)
        ∙ read_digits-Stops (read_digits 0 (digits (suc n) n)) rest s
        ∙ read-digits (suc n) n (omega arith))
      b
