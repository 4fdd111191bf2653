-- ===== src/Base/Xor.antt =====
-- Exclusive or of numbers: what it cancels and how large it is.
use prob_alimama_2023_a.Base.{
  ℕ, zero, suc, ◌+◌, ◌*◌, ◌/◌, ◌%◌, ◌^◌, ◌≤◌, ◌<◌, ◌≡◌, refl, sym, ◌∙◌, subst, ◌⊎◌, inl, inr, arith,
}
use Prim.Native.Nat.{bit_xor, bit_xor-bitwise, digits, differ}

abbrev xor_digits : ℕ → ℕ → ℕ → ℕ
xor_digits n a b = digits (λ b. b) differ n a b

bit-cases : (d : ℕ) → d < 2 → (d ≡ 0) ⊎ (d ≡ 1)
bit-cases zero lt = inl refl
bit-cases (suc zero) lt = inr refl
bit-cases (suc (suc d)) lt = absurd (omega (arith, lt))

differ-lt : (x y : ℕ) → x < 2 → y < 2 → differ x y < 2
differ-lt zero y h k = k
differ-lt (suc zero) zero h k = h
differ-lt (suc zero) (suc zero) h k = omega arith
differ-lt (suc zero) (suc (suc y)) h k = absurd (omega (arith, k))
differ-lt (suc (suc x)) y h k = absurd (omega (arith, h))

differ-cancel : (d x y : ℕ) → d < 2 → x < 2 → y < 2 → differ d x ≡ differ d y → x ≡ y
differ-cancel zero x y hd hx hy e = e
differ-cancel (suc zero) zero zero hd hx hy e = refl
differ-cancel (suc zero) (suc zero) (suc zero) hd hx hy e = refl
differ-cancel (suc zero) zero (suc zero) hd hx hy e = omega (arith, e)
differ-cancel (suc zero) (suc zero) zero hd hx hy e = omega (arith, e)
differ-cancel (suc zero) zero (suc (suc y)) hd hx hy e = absurd (omega (arith, hy))
differ-cancel (suc zero) (suc zero) (suc (suc y)) hd hx hy e = absurd (omega (arith, hy))
differ-cancel (suc zero) (suc (suc x)) y hd hx hy e = absurd (omega (arith, hx))
differ-cancel (suc (suc d)) x y hd hx hy e = absurd (omega (arith, hd))

-- Two digits and the rest, taken apart.
halves : (p q x y : ℕ) → x < 2 → y < 2 → p * 2 + x ≡ q * 2 + y → (p ≡ q) × (x ≡ y)
halves p q x y hx hy e = (omega (arith, hx, hy, e), omega (arith, hx, hy, e))

halves-eq : (b c : ℕ) → b / 2 ≡ c / 2 → b % 2 ≡ c % 2 → b ≡ c
halves-eq b c p q = omega (arith, p, q)

digits-cancel : (n a b c : ℕ) → a ≤ n → xor_digits n a b ≡ xor_digits n a c → b ≡ c
digits-cancel zero zero b c h e = e
digits-cancel zero (suc a) b c h e = absurd (omega (arith, h))
digits-cancel (suc n) zero b c h e = e
digits-cancel (suc n) (suc a) b c h e =
    let (p, q) =
      halves (xor_digits n (suc a / 2) (b / 2)) (xor_digits n (suc a / 2) (c / 2))
        (differ (suc a % 2) (b % 2)) (differ (suc a % 2) (c % 2))
        (differ-lt (suc a % 2) (b % 2) (omega arith) (omega arith))
        (differ-lt (suc a % 2) (c % 2) (omega arith) (omega arith)) e in
    halves-eq b c (digits-cancel n (suc a / 2) (b / 2) (c / 2) (omega (arith, h)) p)
      (differ-cancel (suc a % 2) (b % 2) (c % 2) (omega arith) (omega arith) (omega arith) q)

digits-lt : (n a b w : ℕ) → a < 2 ^ w → b < 2 ^ w → xor_digits n a b < 2 ^ w
digits-lt zero a b w h k = k
digits-lt (suc n) zero b w h k = k
digits-lt (suc n) (suc a) b zero h k = absurd (omega (arith, h))
digits-lt (suc n) (suc a) b (suc w) h k = omega (
  arith,
  digits-lt n (suc a / 2) (b / 2) w (omega (arith, h)) (omega (arith, k)),
  differ-lt (suc a % 2) (b % 2) (omega arith) (omega arith),
)

bit_xor-digits : (a b : ℕ) → bit_xor a b ≡ xor_digits a a b
bit_xor-digits a b = λ i. bit_xor-bitwise a b i

pub bit_xor-cancel : (a b c : ℕ) → bit_xor a b ≡ bit_xor a c → b ≡ c
bit_xor-cancel a b c e =
    digits-cancel a a b c (omega arith) (sym (bit_xor-digits a b) ∙ e ∙ bit_xor-digits a c)

pub bit_xor-lt : (a b w : ℕ) → a < 2 ^ w → b < 2 ^ w → bit_xor a b < 2 ^ w
bit_xor-lt a b w h k = subst (λ z. z < 2 ^ w) (sym (bit_xor-digits a b)) (digits-lt a a b w h k)
