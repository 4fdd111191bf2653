-- ===== src/Hdfs/Reading.antt =====
-- code/src/hdfs_hander.cpp: the read loops.
use prob_alimama_2023_a.Base.{
  ℕ, zero, suc, ◌<◌, ◌≡◌, refl, sym, ◌⊎◌, inl, inr, ap, ◌∙◌, ◌++◌, [], ◌∷◌, arith, length, All,
  subst, All-append_left, All-append_right, Bytes, length-append, append_assoc, append-nil, ◌==◌,
  false,
}
use prob_alimama_2023_a.Hdfs.{
  HdfsApi, ReadLaws, Readable, Read, eof, failed, chunk, done, read_loop, c_string,
}

-- A text without NUL is kept whole.
pub c_string-NulFree : (s : Bytes) → All (λ c. (c == 0) ≡ false) s → c_string s ≡ s
unfolding c_string
c_string-NulFree [] h = refl
c_string-NulFree (c ∷ s) (d, h) = rw (d, c_string-NulFree s h)

read-cases :
    {File : Type 0} (r : Read File)
    → (r ≡ eof) ⊎ (r ≡ failed) ⊎ ((bytes : Bytes) × (next : File) × (r ≡ chunk bytes next))
read-cases eof = inl refl
read-cases failed = inr (inl refl)
read-cases (chunk bytes next) = inr (inr (bytes, next, refl))

-- `keep` keeps every piece of `s`.
abbrev pub Keeps : (Bytes → Bytes) → Bytes → Type 0
Keeps keep s = (a b c : Bytes) → s ≡ a ++ (b ++ c) → keep b ≡ b

Keeps-rest :
    (keep : Bytes → Bytes) (bytes rest s : Bytes)
    → s ≡ bytes ++ rest
    → Keeps keep s
    → Keeps keep rest
Keeps-rest keep bytes rest s e k a b c h =
    k (bytes ++ a) b c (e ∙ ap (λ z. bytes ++ z) h ∙ sym (append_assoc bytes a (b ++ c)))

pub NulFree-Keeps : (s : Bytes) → All (λ c. (c == 0) ≡ false) s → Keeps c_string s
NulFree-Keeps s h a b c e =
    let tail =
      All-append_right (λ x. (x == 0) ≡ false) a (b ++ c)
        (subst (λ z. All (λ x. (x == 0) ≡ false) z) e h) in
    c_string-NulFree b (All-append_left (λ x. (x == 0) ≡ false) b c tail)

shorter :
    (bytes rest s : Bytes) (fuel : ℕ)
    → s ≡ bytes ++ rest
    → 0 < length bytes
    → length s < suc fuel
    → length rest < fuel
shorter bytes rest s fuel e pos h = omega (arith, length-append bytes rest, ap length e)

rejoin :
    (out piece bytes rest s : Bytes)
    → piece ≡ bytes
    → s ≡ bytes ++ rest
    → (out ++ piece) ++ rest ≡ out ++ s
rejoin out piece bytes rest s e h =
    ap (λ z. (out ++ z) ++ rest) e ∙ append_assoc out bytes rest ∙ ap (λ z. out ++ z) (sym h)

module _ (api : HdfsApi) (keep : Bytes → Bytes) (size fuel : ℕ) (file : api.File)
    (out : Bytes) where
  read_loop-eof : api.read file size ≡ eof → read_loop api keep size (suc fuel) file out ≡ done out
  unfolding read_loop
  read_loop-eof e = cc e

  read_loop-chunk :
      (bytes : Bytes) (next : api.File)
      → api.read file size ≡ chunk bytes next
      → read_loop api keep size (suc fuel) file out
        ≡ read_loop api keep size fuel next (out ++ keep bytes)
  unfolding read_loop
  read_loop-chunk bytes next e = cc e

module _ (api : HdfsApi) (laws : ReadLaws api) (sane : Readable api) where
  pub read_loop-done :
      (keep : Bytes → Bytes) (size fuel : ℕ) (file : api.File) (out : Bytes)
      → 0 < size
      → length (api.contents file) < fuel
      → Keeps keep (api.contents file)
      → read_loop api keep size fuel file out ≡ done (out ++ api.contents file)
  unfolding read_loop
  read_loop-done keep size zero file out pos enough k = elim enough [ ]
  read_loop-done keep size (suc fuel) file out pos enough k =
      elim (read-cases (api.read file size)) [
        | inl e ↦
            read_loop-eof api keep size fuel file out e
            ∙ ap done
                (sym (append-nil out) ∙ ap (λ z. out ++ z) (sym (laws.read-eof file size pos e)))
        | inr (inl e) ↦ absurd (sane.read-failed file size e)
        | inr (inr (bytes, next, e)) ↦
            let split = laws.read-chunk file next size bytes e in
            (read_loop-chunk api keep size fuel file out bytes next e
              ∙ read_loop-done keep size fuel next (out ++ keep bytes) pos
                  (shorter bytes (api.contents next) (api.contents file) fuel split.0 split.1
                    enough)
                  (Keeps-rest keep bytes (api.contents next) (api.contents file) split.0 k)
              ∙ ap done (
                  rejoin out (keep bytes) bytes (api.contents next) (api.contents file)
                    (k [] bytes (api.contents next) split.0) split.0))
      ]
