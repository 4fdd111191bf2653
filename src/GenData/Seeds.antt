-- ===== src/GenData/Seeds.antt =====
-- testbench/gen_data.cpp: what the check of the seeds says of the files that are written after it.
use prob_alimama_2023_a.Base.{
  ℕ, zero, suc, ◌+◌, ◌*◌, ◌/◌, ◌^◌, ◌≤◌, ◌<◌, ◌≡◌, ◌≢◌, refl, sym, ◌∙◌, ap, subst, Bool, true,
  false, Option, some, >>=-eq-some, List, [], ◌∷◌, ◌++◌, take, drop, if◌then◌else◌, Bytes, arith,
  ℕ_discrete,
}
use prob_alimama_2023_a.Base.Xor.{bit_xor-lt}
use prob_alimama_2023_a.Config.{Version}
use prob_alimama_2023_a.GenData.Content.{
  hash_sample, myhash, int_bytes, gen_words, gen_data, clash, check_slice, seed_of, conflicts,
}

-- The four bytes of word `j` of a file.
abbrev pub word : ℕ → Bytes → Bytes
word zero content = take 4 content
word (suc j) content = word j (drop 4 content)

cons_eq : {a b : ℕ} {xs ys : List ℕ} → a ∷ xs ≡ b ∷ ys → (a ≡ b) × (xs ≡ ys)
cons_eq e = (cc e, cc e)

int_bytes-eq : (x y : ℕ) → x < 2 ^ 32 → y < 2 ^ 32 → int_bytes x ≡ int_bytes y → x ≡ y
unfolding int_bytes
int_bytes-eq x y hx hy e =
    let (a, r) = cons_eq e in
    let (b, s) = cons_eq r in
    let (c, t) = cons_eq s in let (d, u) = cons_eq t in omega (arith, a, b, c, d, hx, hy)

word-gen_words :
    (i n seeda j : ℕ) (rest : Bytes)
    → j < n
    → word j (gen_words i n seeda ++ rest) ≡ int_bytes (myhash (i + j) seeda)
unfolding gen_words int_bytes
word-gen_words i zero seeda j rest lt = absurd (omega (arith, lt))
word-gen_words i (suc n) seeda zero rest lt = ap (λ k. int_bytes (myhash k seeda)) (omega arith)
word-gen_words i (suc n) seeda (suc j) rest lt =
    word-gen_words (suc i) n seeda j rest (omega (arith, lt))
    ∙ ap (λ k. int_bytes (myhash k seeda)) (omega arith)

word-gen_data :
    (size seeda j : ℕ) (old : Bytes)
    → j < size / 4
    → word j (gen_data size seeda old) ≡ int_bytes (myhash j seeda)
unfolding gen_data
word-gen_data size seeda j old lt =
    word-gen_words 0 (size / 4) seeda j (drop (size / 4 * 4) old) lt
    ∙ ap (λ k. int_bytes (myhash k seeda)) (omega arith)

append_nil : (xs ys : List ℕ) → xs ++ ys ≡ [] → (xs ≡ []) × (ys ≡ [])
append_nil [] ys e = (refl, e)
append_nil (x ∷ xs) ys e = cc e

check_slice-nil :
    (i j n sa sb sc k : ℕ)
    → check_slice i j n sa sb sc ≡ []
    → j ≤ k
    → k < j + n
    → clash k sa sb sc ≡ false
unfolding check_slice
check_slice-nil i j zero sa sb sc k e le lt = absurd (omega (arith, le, lt))
check_slice-nil i j (suc n) sa sb sc k e le lt =
    let (now, later) =
      append_nil (if clash j sa sb sc then i ∷ [] else []) (check_slice i (suc j) n sa sb sc) e in
    elim (ℕ_discrete j k) [
      | yes same ↦ subst (λ z. clash z sa sb sc ≡ false) same (no_clash (clash j sa sb sc) now)
      | no other ↦
          check_slice-nil i (suc j) n sa sb sc k later (omega (arith, le, other))
            (omega (arith, lt))
    ]
  where
    no_clash : (b : Bool) → (if b then i ∷ [] else []) ≡ [] → b ≡ false
    no_clash true f = cc f
    no_clash false f = refl

-- The seeds of a slice that the check has passed.
record Clean (words : ℕ) (versions : List Version) (i : ℕ) : Type 0 where
  sa : ℕ
  sb : ℕ
  sc : ℕ
  first : seed_of versions 0 i ≡ some sa
  second : seed_of versions 1 i ≡ some sb
  third : seed_of versions 2 i ≡ some sc
  clean : (j : ℕ) → j < words → clash j sa sb sc ≡ false

some_list : {a b : List ℕ} → some a ≡ some b → a ≡ b
some_list e = cc e

conflicts-Clean :
    (words : ℕ) (versions : List Version) (i n k : ℕ)
    → conflicts words versions i n ≡ some []
    → i ≤ k
    → k < i + n
    → Clean words versions k
unfolding conflicts
conflicts-Clean words versions i zero k e le lt = absurd (omega (arith, le, lt))
conflicts-Clean words versions i (suc n) k e le lt =
    let (sa, a, e1) = >>=-eq-some (seed_of versions 0 i) _ e in
    let (sb, b, e2) = >>=-eq-some (seed_of versions 1 i) _ e1 in
    let (sc, c, e3) = >>=-eq-some (seed_of versions 2 i) _ e2 in
    let (rest, r, e4) = >>=-eq-some (conflicts words versions (suc i) n) _ e3 in
    let (now, later) = append_nil (check_slice i 0 words sa sb sc) rest (some_list e4) in
    elim (ℕ_discrete i k) [
      | yes same ↦ subst (Clean words versions) same (record {
        sa = sa;
        sb = sb;
        sc = sc;
        first = a;
        second = b;
        third = c;
        clean = λ j lj. check_slice-nil i 0 words sa sb sc j now (omega arith) (omega (arith, lj));
      })
      | no other ↦
          conflicts-Clean words versions (suc i) n k (r ∙ ap some later) (omega (arith, le, other))
            (omega (arith, lt))
    ]

abbrev Apart : (j sv sw : ℕ) → Type 0
Apart j sv sw = myhash j sv ≢ myhash j sw

clash-Apart :
    (j sa sb sc : ℕ) → clash j sa sb sc ≡ false → Apart j sa sb × Apart j sb sc × Apart j sa sc
unfolding clash
clash-Apart j sa sb sc e =
    ((λ q. ground (arith, e, q)), (λ q. ground (arith, e, q)), (λ q. ground (arith, e, q)))

same_seed : {a b : ℕ} {o : Option ℕ} → o ≡ some a → o ≡ some b → a ≡ b
same_seed x y = cc (x, y)

Clean-Apart :
    {words : ℕ} {versions : List Version} {i : ℕ} (c : Clean words versions i) (v w j sv sw : ℕ)
    → v < 3
    → w < 3
    → v ≢ w
    → j < words
    → seed_of versions v i ≡ some sv
    → seed_of versions w i ≡ some sw
    → Apart j sv sw
Clean-Apart {versions = versions} {i = i} c v w j sv sw hv hw n lt x y = by_version v w hv hw n x y
  where
    apart : Apart j c.sa c.sb × Apart j c.sb c.sc × Apart j c.sa c.sc
    apart = clash-Apart j c.sa c.sb c.sc (c.clean j lt)

    moved : (a b : ℕ) → Apart j a b → a ≡ sv → b ≡ sw → Apart j sv sw
    moved a b h p q e = h (ap (myhash j) p ∙ e ∙ ap (myhash j) (sym q))

    flipped : (a b : ℕ) → Apart j a b → Apart j b a
    flipped a b h e = h (sym e)

    by_version :
        (v w : ℕ)
        → v < 3
        → w < 3
        → v ≢ w
        → seed_of versions v i ≡ some sv
        → seed_of versions w i ≡ some sw
        → Apart j sv sw
    by_version zero zero hv hw n x y = absurd (n refl)
    by_version zero (suc zero) hv hw n x y =
        moved _ _ apart.0 (same_seed c.first x) (same_seed c.second y)
    by_version zero (suc (suc zero)) hv hw n x y =
        moved _ _ apart.2 (same_seed c.first x) (same_seed c.third y)
    by_version (suc zero) zero hv hw n x y =
        moved _ _ (flipped _ _ apart.0) (same_seed c.second x) (same_seed c.first y)
    by_version (suc zero) (suc zero) hv hw n x y = absurd (n refl)
    by_version (suc zero) (suc (suc zero)) hv hw n x y =
        moved _ _ apart.1 (same_seed c.second x) (same_seed c.third y)
    by_version (suc (suc zero)) zero hv hw n x y =
        moved _ _ (flipped _ _ apart.2) (same_seed c.third x) (same_seed c.first y)
    by_version (suc (suc zero)) (suc zero) hv hw n x y =
        moved _ _ (flipped _ _ apart.1) (same_seed c.third x) (same_seed c.second y)
    by_version (suc (suc zero)) (suc (suc zero)) hv hw n x y = absurd (n refl)
    by_version (suc (suc (suc v))) w hv hw n x y = absurd (omega (arith, hv))
    by_version zero (suc (suc (suc w))) hv hw n x y = absurd (omega (arith, hw))
    by_version (suc zero) (suc (suc (suc w))) hv hw n x y = absurd (omega (arith, hw))
    by_version (suc (suc zero)) (suc (suc (suc w))) hv hw n x y = absurd (omega (arith, hw))

myhash-lt : (j seeda : ℕ) → j < 2 ^ 32 → seeda < 2 ^ 32 → myhash j seeda < 2 ^ 32
unfolding myhash hash_sample
myhash-lt j seeda h k = bit_xor-lt j seeda 32 h k

-- If the check of the seeds prints no slice, then in the files that are written for a slice, of a
-- size below 2 ^ 31, every word differs between any two of the three versions, whatever the buffers
-- held.
pub conflicts-word :
    (size cnt : ℕ) (versions : List Version) (v w i j sv sw : ℕ) (old other : Bytes)
    → size < 2 ^ 31
    → conflicts (size / 4) versions 0 cnt ≡ some []
    → i < cnt
    → v < 3
    → w < 3
    → v ≢ w
    → j < size / 4
    → seed_of versions v i ≡ some sv
    → seed_of versions w i ≡ some sw
    → sv < 2 ^ 32
    → sw < 2 ^ 32
    → word j (gen_data size sv old) ≢ word j (gen_data size sw other)
conflicts-word size cnt versions v w i j sv sw old other small none_printed li hv hw n lj x y bv bw
      e =
    let c =
      conflicts-Clean (size / 4) versions 0 cnt i none_printed (omega arith) (omega (arith, li)) in
    let below : j < 2 ^ 32 = omega (arith, small, lj) in
    Clean-Apart {versions = versions} {i = i} c v w j sv sw hv hw n lj x y (
      int_bytes-eq (myhash j sv) (myhash j sw) (myhash-lt j sv below bv) (myhash-lt j sw below bw)
        (sym (word-gen_data size sv j old lj) ∙ e ∙ word-gen_data size sw j other lj))
