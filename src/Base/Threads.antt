-- ===== src/Base/Threads.antt =====
-- A value for each thread, as a function of the thread's number: change one, and add up the first
-- `n` by a weight.
use Prim.Native.Nat.{ℕ, zero, suc, ◌+◌, ◌≤◌, ◌<◌}
use mathlib.Core.Path.{◌≡◌, refl}
use mathlib.Core.Logic.{◌≢◌, ite}
use native.Mathlib.Omega.{arith}
use native.Mathlib.Decide.{dec_lt, ℕ_discrete}

module _ {ℓ} {A : Type ℓ} where
  abbrev pub update : (ℕ → A) → ℕ → A → ℕ → A
  update f i a j = ite (ℕ_discrete j i) a (f j)

  pub update_self : (f : ℕ → A) (i : ℕ) (a : A) → update f i a i ≡ a
  update_self f i a = ground arith

  pub update_ne : (f : ℕ → A) (i : ℕ) (a : A) (j : ℕ) → j ≢ i → update f i a j ≡ f j
  update_ne f i a j h = ground arith

  module _ (weight : A → ℕ) where
    unfoldable pub weigh : ℕ → (ℕ → A) → ℕ
    weigh zero f = 0
    weigh (suc n) f = weight (f n) + weigh n f

    weigh-update_above :
        (n : ℕ) (f : ℕ → A) (i : ℕ) (a : A) → n ≤ i → weigh n (update f i a) ≡ weigh n f
    unfolding weigh
    weigh-update_above zero f i a h = refl
    weigh-update_above (suc n) f i a h = ground (arith, weigh-update_above n f i a)

    -- A change at one thread replaces its weight.
    pub weigh-update :
        (n : ℕ) (f : ℕ → A) (i : ℕ) (a : A)
        → i < n
        → weigh n (update f i a) + weight (f i) ≡ weigh n f + weight a
    unfolding weigh
    weigh-update zero f i a h = elim h [ ]
    weigh-update (suc n) f i a h = elim (dec_lt i n) [
      | yes lt ↦ ground (arith, weigh-update n f i a lt)
      | no ge ↦ ground (arith, weigh-update_above n f i a)
    ]

    pub weight-le : (n : ℕ) (f : ℕ → A) (i : ℕ) → i < n → weight (f i) ≤ weigh n f
    unfolding weigh
    weight-le zero f i h = elim h [ ]
    weight-le (suc n) f i h = elim (dec_lt i n) [
      | yes lt ↦ ground (arith, weight-le n f i lt)
      | no ge ↦ let e : i ≡ n = omega arith in ground arith
    ]

    pub weight_pair-le :
        (n : ℕ) (f : ℕ → A) (i j : ℕ) → i < j → j < n → weight (f i) + weight (f j) ≤ weigh n f
    unfolding weigh
    weight_pair-le zero f i j h k = elim k [ ]
    weight_pair-le (suc n) f i j h k = elim (dec_lt j n) [
      | yes lt ↦ ground (arith, weight_pair-le n f i j h lt)
      | no ge ↦ let e : j ≡ n = omega arith in ground (arith, weight-le n f i)
    ]

    pub weigh-le : ((a : A) → weight a ≤ 1) → (n : ℕ) (f : ℕ → A) → weigh n f ≤ n
    unfolding weigh
    weigh-le small zero f = omega arith
    weigh-le small (suc n) f = omega (arith, small (f n), weigh-le small n f)

    pub weigh-eq-zero : (n : ℕ) (f : ℕ → A) → ((i : ℕ) → i < n → weight (f i) ≡ 0) → weigh n f ≡ 0
    unfolding weigh
    weigh-eq-zero zero f h = refl
    weigh-eq-zero (suc n) f h =
        omega (arith, h n (omega arith), weigh-eq-zero n f (λ i lt. h i (omega arith)))

pub weigh-cong {ℓ κ} :
    {A : Type ℓ} {B : Type κ} (v : A → ℕ) (w : B → ℕ) (n : ℕ) (f : ℕ → A) (g : ℕ → B)
    → ((i : ℕ) → i < n → v (f i) ≡ w (g i))
    → weigh v n f ≡ weigh w n g
unfolding weigh
weigh-cong v w zero f g h = refl
weigh-cong v w (suc n) f g h =
    omega (arith, h n (omega arith), weigh-cong v w n f g (λ i lt. h i (omega arith)))

module _ {ℓ} {A : Type ℓ} (v w : A → ℕ) (below : (a : A) → v a ≤ w a) where
  pub weigh_mono : (n : ℕ) (f : ℕ → A) → weigh v n f ≤ weigh w n f
  unfolding weigh
  weigh_mono zero f = omega arith
  weigh_mono (suc n) f = omega (arith, below (f n), weigh_mono n f)

  -- A weight that is nowhere larger, and in total no smaller, is the same at each thread.
  pub weigh_squeeze :
      (n : ℕ) (f : ℕ → A) → weigh w n f ≤ weigh v n f → (i : ℕ) → i < n → w (f i) ≤ v (f i)
  unfolding weigh
  weigh_squeeze zero f h i lt = elim lt [ ]
  weigh_squeeze (suc n) f h i lt = elim (dec_lt i n) [
    | yes inner ↦ weigh_squeeze n f (omega (arith, h, below (f n))) i inner
    | no last ↦ let e : i ≡ n = omega arith in rw e (omega (arith, h, weigh_mono n f))
  ]

-- The weights are themselves functions of the thread's number.
pub weigh-plus :
    (f g : ℕ → ℕ) (n : ℕ)
    → weigh (λ i. f i + g i) n (λ i. i) ≡ weigh f n (λ i. i) + weigh g n (λ i. i)
unfolding weigh
weigh-plus f g zero = refl
weigh-plus f g (suc n) = omega (arith, weigh-plus f g n)

pub weigh-one : (n : ℕ) → weigh (λ (i : ℕ). 1) n (λ i. i) ≡ n
unfolding weigh
weigh-one zero = refl
weigh-one (suc n) = omega (arith, weigh-one n)

-- Of the weights at most one is 1, and the others are 0.
pub weigh_single :
    (f : ℕ → ℕ) (n : ℕ)
    → ((i : ℕ) → f i ≤ 1)
    → ((i j : ℕ) → i < n → j < n → f i ≡ 1 → f j ≡ 1 → i ≡ j)
    → weigh f n (λ i. i) ≤ 1
unfolding weigh
weigh_single f zero small only = omega arith
weigh_single f (suc n) small only = elim (dec_lt 0 (f n)) [
  | no rest ↦ omega (
    arith,
    rest,
    weigh_single f n small (λ i j il jl. only i j (omega (arith, il)) (omega (arith, jl))),
  )
  | yes one ↦ omega (
    arith,
    small n,
    weigh-eq-zero f n (λ i. i)
        (λ i lt. elim (dec_lt 0 (f i)) [
          | no z ↦ omega (arith, z)
          | yes p ↦ absurd (
              omega (
                arith,
                lt,
                only i n (omega (arith, lt)) (omega arith) (omega (arith, p, small i))
                    (omega (arith, one, small n)),
              ))
        ]),
  )
]
