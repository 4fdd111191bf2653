-- ===== src/Benchmark/Examples.antt =====
-- A benchmark of one client, which has been asked for one request.
use prob_alimama_2023_a.Base.{
  ℕ, ℕ_discrete, ltb, ◌-◌, ◌+◌, ◌*◌, ◌/◌, ◌%◌, ◌^◌, ◌<◌, ◌≡◌, ◌↔◌, refl, Bool, true, some, arith,
}
use prob_alimama_2023_a.Base.Threads.{weigh}
use prob_alimama_2023_a.ConcurrentQueue.{concurrent_queue, push_back, can_push}
use prob_alimama_2023_a.Benchmark.Summary.{Double, Types, no_counts}
use prob_alimama_2023_a.Benchmark.{
  EachReqInternal, Bench, bench, request, all_collected, requests, Reach, here, later,
}
use prob_alimama_2023_a.Benchmark.Invariant.{with_clients, with_collectors, with_calculator}
use prob_alimama_2023_a.Benchmark.Accounts.{requests_accounted, all_collected_iff}

abbrev whole_numbers : Double
whole_numbers = record {
  Number = ℕ;
  nought = 0;
  one_percent = 1;
  of_count = λ n. n;
  add = λ a b. a + b;
  times = λ a b. a * b / 100;
  over = λ a b. a / b;
  to_int32 = λ n. n;
  minus = λ a b. a - b;
  less = ltb;
}

abbrev numbers : Types
numbers = record { Req = ℕ; Resp = ℕ; Ref = ℕ; Custom = ℕ }

abbrev always_good : ℕ → ℕ → ℕ → Bool × ℕ
always_good resp ref custom = (true, custom)

abbrev first : EachReqInternal numbers
first = record { id = 1; request = 10; ref_resp = 10 }

asked :
    (b : Bool) × (s : Bench whole_numbers numbers) × (request whole_numbers numbers 1 first
        (bench whole_numbers numbers 0)
      ≡ some (b, s))
unfolding request bench concurrent_queue push_back can_push no_counts
asked = (_, _, refl)

reached : Reach whole_numbers numbers always_good 1 (bench whole_numbers numbers 0) asked.1
reached = later here (requests first asked.2)

asked_enable : asked.1.enable ≡ true
unfolding asked
asked_enable = refl

asked_few : with_clients whole_numbers numbers always_good 1 asked.1 + asked.1.dropped < 2 ^ 32
unfolding asked weigh ℕ_discrete
asked_few = omega arith

requests_accounted_example :
    (asked.1.req_idx
      ≡ (with_clients whole_numbers numbers always_good 1 asked.1
          + with_collectors whole_numbers numbers always_good 1 asked.1
          + with_calculator whole_numbers numbers always_good 1 asked.1
          + asked.1.dropped
          + asked.1.late)
        % 2 ^ 64)
    × (asked.1.counts.completed_requests
        ≡ (asked.1.counts.success_request_count + asked.1.counts.error_request_count
            + asked.1.counts.timeout_request_count)
          % 2 ^ 64)
requests_accounted_example =
    requests_accounted whole_numbers numbers always_good 1 0 (omega arith) reached

all_collected_iff_example :
    (all_collected whole_numbers numbers asked.1 ≡ true)
    ↔ (with_clients whole_numbers numbers always_good 1 asked.1 + asked.1.dropped ≡ 0)
all_collected_iff_example =
    all_collected_iff whole_numbers numbers always_good 1 0 (omega arith) reached asked_enable
      asked_few
