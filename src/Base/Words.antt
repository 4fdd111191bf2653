-- ===== src/Base/Words.antt =====
-- The conversions between uint64_t and int. An `int` is its bit pattern, a number below 2 ^ 32.
use prob_alimama_2023_a.Base.{ℕ, ◌+◌, ◌-◌, ◌%◌, ◌^◌, ◌<◌, ◌≡◌, arith, ltb, if◌then◌else◌}

-- uint64_t, or any wider number, to int
abbrev pub to_int : ℕ → ℕ
to_int n = n % 2 ^ 32

-- int to uint64_t: the sign is extended.
abbrev pub to_u64 : ℕ → ℕ
to_u64 n = if ltb n (2 ^ 31) then n else n + (2 ^ 64 - 2 ^ 32)

pub to_u64-to_int : (n : ℕ) → n < 2 ^ 31 → to_u64 (to_int n) ≡ n
to_u64-to_int n h = ground arith

pub to_int-eq : (n : ℕ) → n < 2 ^ 32 → to_int n ≡ n
to_int-eq n h = omega arith
