-- ===== src/Hdfs/MetaText.antt =====
-- code/src/hdfs_hander.cpp, testbench/gen_data.cpp: one line of model.meta, written and read.
use prob_alimama_2023_a.Base.{
  not-ltb, ℕ, zero, suc, ◌+◌, ◌-◌, ◌≡◌, ◌≤◌, ◌<◌, ◌^◌, refl, sym, ap, ◌∙◌, true, some, [], ◌∷◌,
  ◌++◌, arith, ltb, All, All-append, length, length-append, take, drop, replicate, Bytes, codes,
  append-nil,
}
use prob_alimama_2023_a.Text.{is_digit, to_string, find_first_of, substr_from, stoi, digits}
use prob_alimama_2023_a.Text.Numbers.{digits-digit, stoi-to_string}
use prob_alimama_2023_a.Text.Lines.{Free, find_first_of-append}
use prob_alimama_2023_a.GenData.{slice_file_name}
use prob_alimama_2023_a.Hdfs.Meta.{name_of_line, size_of_line}

-- Every character comes after the comma, so it is no comma, no newline and no NUL.
abbrev pub Plain : Bytes → Type 0
Plain s = All (λ c. ltb b',' c ≡ true) s

pub Plain-Free : (c : ℕ) (s : Bytes) → c ≤ b',' → Plain s → Free c s
Plain-Free c [] h p = tt
Plain-Free c (x ∷ s) h (d, p) = (ground (arith, d, h), Plain-Free c s h p)

digits-Plain : (s : Bytes) → All (λ c. is_digit c ≡ true) s → Plain s
digits-Plain [] h = tt
digits-Plain (c ∷ s) (d, h) = (ground (arith, d), digits-Plain s h)

pub to_string-Plain : (n : ℕ) → Plain (to_string n)
unfolding to_string
to_string-Plain n = digits-Plain (digits (suc n) n) (digits-digit (suc n) n)

replicate-Plain : (n : ℕ) → Plain (replicate n b'0')
replicate-Plain zero = tt
replicate-Plain (suc n) = (refl, replicate-Plain n)

pub slice_file_name-Plain : (slice_cnt i : ℕ) → Plain (slice_file_name slice_cnt i)
unfolding slice_file_name
slice_file_name-Plain slice_cnt i =
    let pad = length (to_string slice_cnt) - length (to_string i) in
    All-append (λ c. ltb b',' c ≡ true) (codes "model_slice.") (replicate pad b'0' ++ to_string i)
      (
        refl,
        (refl, (refl, (refl, (refl, (refl, (refl, (refl, (refl, (refl, (refl, (refl, tt))))))))))),
      )
      (All-append (λ c. ltb b',' c ≡ true) (replicate pad b'0') (to_string i) (replicate-Plain pad)
        (to_string-Plain i))

take-append : (xs ys : Bytes) → take (length xs) (xs ++ ys) ≡ xs
take-append [] ys = refl
take-append (x ∷ xs) ys = ap (λ z. x ∷ z) (take-append xs ys)

drop-append : (xs ys : Bytes) (n k : ℕ) → n ≡ length xs + k → drop n (xs ++ ys) ≡ drop k ys
drop-append [] ys n k e = ap (λ z. drop z ys) (omega (arith, e))
drop-append (x ∷ xs) ys zero k e = absurd (omega (arith, e))
drop-append (x ∷ xs) ys (suc n) k e = drop-append xs ys n k (omega (arith, e))

substr_from-drop : (s : Bytes) (pos : ℕ) → pos ≤ length s → substr_from s pos ≡ some (drop pos s)
unfolding substr_from
substr_from-drop s pos h = ground (arith, h)

name_of_line-comma :
    (line rest : Bytes) (comma : ℕ)
    → substr_from line 6 ≡ some rest
    → find_first_of b',' line ≡ some comma
    → 6 ≤ comma
    → name_of_line line ≡ some (take (comma - 6) rest)
unfolding name_of_line
name_of_line-comma line rest comma e f h = rw (name_of_line, e, f, not-ltb comma 6 (omega arith))

size_of_line-comma :
    (line rest : Bytes) (comma : ℕ)
    → find_first_of b',' line ≡ some comma
    → substr_from line (comma + 6) ≡ some rest
    → size_of_line line ≡ stoi rest
unfolding size_of_line
size_of_line-comma line rest comma f e = rw (size_of_line, f, e)

-- A line as the generator writes it, for any name.
abbrev pub line_of : (name size : Bytes) → Bytes
line_of name size = codes "slice:" ++ (name ++ (b',' ∷ (codes "size:" ++ size)))

find_first_of-line_of :
    (name size : Bytes)
    → Plain name
    → find_first_of b',' (line_of name size) ≡ some (6 + length name)
find_first_of-line_of name size p =
    find_first_of-append b',' (codes "slice:" ++ name) (codes "size:" ++ size)
      (refl, (refl, (refl, (refl, (refl, (refl, Plain-Free b',' name (omega arith) p))))))
    ∙ ap some (omega arith)

length-line_of : (name size : Bytes) → length (line_of name size) ≡ 12 + length name + length size
length-line_of name size = omega (arith, length-append name (b',' ∷ (codes "size:" ++ size)))

pub name_of_line-line_of :
    (name size : Bytes) → Plain name → name_of_line (line_of name size) ≡ some name
name_of_line-line_of name size p =
    name_of_line-comma (line_of name size) (name ++ (b',' ∷ (codes "size:" ++ size)))
      (6 + length name)
      (substr_from-drop (line_of name size) 6 (omega (arith, length-line_of name size)))
      (find_first_of-line_of name size p) (omega arith)
    ∙ ap some (
        ap (λ n. take n (name ++ (b',' ∷ (codes "size:" ++ size)))) (omega arith)
        ∙ take-append name (b',' ∷ (codes "size:" ++ size)))

pub size_of_line-line_of :
    (name : Bytes) (size : ℕ)
    → Plain name
    → size < 2 ^ 31
    → size_of_line (line_of name (to_string size)) ≡ some size
size_of_line-line_of name size p b =
    let text = to_string size in
    size_of_line-comma (line_of name text) (drop (6 + length name + 6) (line_of name text))
      (6 + length name) (find_first_of-line_of name text p)
      (substr_from-drop (line_of name text) (6 + length name + 6)
        (omega (arith, length-line_of name text)))
    ∙ ap stoi (
        drop-append (codes "slice:" ++ name) (b',' ∷ (codes "size:" ++ text)) (6 + length name + 6)
          6 (omega arith)
        ∙ sym (append-nil text))
    ∙ stoi-to_string size [] b tt
