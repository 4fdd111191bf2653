-- ===== src/TokenBucket/Examples.antt =====
-- testbench/token_bucket.h: the theorems at a bucket of ten tokens a second.
use prob_alimama_2023_a.Base.{◌+◌, ◌≤◌, ◌≡◌, refl, max, some, [], ◌∷◌, leb, if◌then◌else◌, arith}
use prob_alimama_2023_a.TokenBucket.{TokenBucket, token_bucket, time_after, time_before, consume}
use prob_alimama_2023_a.TokenBucket.Rate.{
  consume-max, Calls, no_calls, calls, Calls-spent_le, spent,
}

abbrev ten_a_second : TokenBucket
ten_a_second = record { time_per_token = 100000000; burst_time = 500000000; last_consume_time = 7 }

consume-max_example :
    consume ten_a_second 2 20 5
    ≡ some (
      record ten_a_second { last_consume_time = max 20 200000007 },
      if leb 200000007 20 then 20 else 200000007 + 5,
    )
consume-max_example =
    consume-max ten_a_second 2 20 5 200000007 (omega arith) (omega arith) refl (omega arith)

-- The first call returns 50 milliseconds late, the second at once after its time.
three-Calls : Calls ten_a_second (150000007 ∷ 200000007 ∷ 900000000 ∷ [])
unfolding consume time_after time_before
three-Calls = calls 8 50000000 refl (calls 150000007 0 refl (calls 900000000 0 refl no_calls))

Calls-spent_le_example :
    7 + spent 100000000 300000000 (150000007 ∷ 200000007 ∷ 900000000 ∷ []) ≤ 300000000
unfolding token_bucket
Calls-spent_le_example =
    Calls-spent_le 10 5 7 ten_a_second (150000007 ∷ 200000007 ∷ 900000000 ∷ []) 300000000 refl
      three-Calls (omega arith)
