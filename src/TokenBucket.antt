-- ===== src/TokenBucket.antt =====
-- testbench/token_bucket.h: the rate limit of the benchmark. Times are nanoseconds of the steady
-- clock. A duration is an int64_t, made from a uint64_t product: its bit pattern, which from 2 ^ 63
-- on is that of a negative duration.
mod Rate
mod Examples
use prob_alimama_2023_a.Base.{
  ℕ, ◌+◌, ◌-◌, ◌*◌, ◌/◌, ◌%◌, ◌^◌, max, Option, none, some, ◌>>=◌, ltb, leb, ◌==◌, if◌then◌else◌,
}

pub record TokenBucket : Type 0 where
  pub time_per_token : ℕ
  pub burst_time : ℕ
  pub last_consume_time : ℕ

-- The constructor at time `now`; a rate of 0 is a division by zero.
unfoldable pub token_bucket : (rate burst_size now : ℕ) → Option TokenBucket
token_bucket rate burst_size now =
    let time_per_token = 1000000000 / rate in
    if rate == 0
    then none
    else some (record {
      time_per_token = time_per_token;
      burst_time = burst_size * time_per_token % 2 ^ 64;
      last_consume_time = now;
    })

-- A time and a duration after it, which is its bit pattern; `none` is a sum that an int64_t cannot
-- hold. A sum below 0 counts as 0, which loses the same comparisons.
unfoldable pub time_after : (time duration : ℕ) → Option ℕ
time_after time duration =
    if ltb duration (2 ^ 63)
    then (if ltb (time + duration) (2 ^ 63) then some (time + duration) else none)
    else some (time - (2 ^ 64 - duration))

unfoldable pub time_before : (time duration : ℕ) → Option ℕ
time_before time duration =
    if ltb duration (2 ^ 63)
    then some (time - duration)
    else if ltb (time + (2 ^ 64 - duration)) (2 ^ 63)
    then some (time + (2 ^ 64 - duration))
    else none

-- A call at time `now`: the bucket after it, and the time at which it returns. `sleep_until`
-- returns when the time has come or `late` nanoseconds after it.
unfoldable pub consume : TokenBucket → (tokens now late : ℕ) → Option (TokenBucket × ℕ)
unfolding time_after time_before
consume bucket tokens now late = do
  needed ← time_after bucket.last_consume_time (tokens * bucket.time_per_token % 2 ^ 64)
  burst ← time_before now bucket.burst_time
  let earliest_time = max needed burst
  some (
      if leb earliest_time now
      then (record bucket { last_consume_time = now }, now)
      else (record bucket { last_consume_time = earliest_time }, earliest_time + late))
