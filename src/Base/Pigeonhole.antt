-- ===== src/Base/Pigeonhole.antt =====
-- Lists without repetition whose members are among n given values: with n of them, each value is
-- there. `same` is the equality test.
use Prim.Native.Nat.{ℕ, ◌+◌, ◌≤◌, ◌<◌}
use mathlib.Core.Path.{◌≡◌, refl}
use mathlib.Core.Bool.{Bool, true}
use mathlib.Core.List.{List, [], ◌∷◌}
use native.Mathlib.Omega.{arith}
use prob_alimama_2023_a.Base.Tests.{if◌then◌else◌}
use prob_alimama_2023_a.Base.Lists.{length}
use prob_alimama_2023_a.Base.Threads.{
  weigh, weigh-plus, weigh-one, weight-le, weigh_squeeze, weigh_single, weigh-eq-zero,
}

module _ {ℓ} {A : Type ℓ} (same : A → A → Bool) where
  abbrev pub count : A → List A → ℕ
  count a [] = 0
  count a (x ∷ xs) = (if same x a then 1 else 0) + count a xs

  module _ (name : ℕ → A) where
    -- Every member is `name i` for some i below n.
    abbrev pub Among : ℕ → List A → Type 0
    Among n [] = Unit
    Among n (x ∷ xs) = ((i : ℕ) × (i < n) × (same x (name i) ≡ true)) × Among n xs

    pub length-le-weigh :
        (n : ℕ) (xs : List A) → Among n xs → length xs ≤ weigh (λ i. count (name i) xs) n (λ i. i)
    length-le-weigh n [] h = omega arith
    length-le-weigh n (x ∷ xs) ((i, lt, e), h) = ground (
      arith,
      length-le-weigh n xs h,
      weigh-plus (λ j. if same x (name j) then 1 else 0) (λ j. count (name j) xs) n,
      weight-le (λ j. if same x (name j) then 1 else 0) n (λ j. j) i lt,
    )

    pub pigeonhole :
        (n : ℕ) (xs : List A)
        → Among n xs
        → ((i : ℕ) → count (name i) xs ≤ 1)
        → n ≤ length xs
        → (i : ℕ) → i < n
        → 1 ≤ count (name i) xs
    pigeonhole n xs h once long i lt =
        weigh_squeeze (λ j. count (name j) xs) (λ j. 1) once n (λ j. j)
          (omega (arith, weigh-one n, length-le-weigh n xs h, long)) i lt

    pub weigh-le-length :
        (n : ℕ) (xs : List A)
        → ((x : A) (i j : ℕ)
            → i < n
            → j < n
            → same x (name i) ≡ true
            → same x (name j) ≡ true
            → i ≡ j)
        → weigh (λ i. count (name i) xs) n (λ i. i) ≤ length xs
    weigh-le-length n [] only =
        omega (arith, weigh-eq-zero (λ (i : ℕ). 0) n (λ i. i) (λ i lt. refl))
    weigh-le-length n (x ∷ xs) only = omega (
      arith,
      weigh-le-length n xs only,
      weigh-plus (λ j. if same x (name j) then 1 else 0) (λ j. count (name j) xs) n,
      weigh_single (λ j. if same x (name j) then 1 else 0) n (λ i. ground arith)
          (λ i j il jl a b. only x i j il jl (ground (arith, a)) (ground (arith, b))),
    )
