-- ===== src/Testbench/MaxQps.antt =====
-- testbench/testbench.cc: the search for the largest rate, over what each of its iterations
-- measures.
use prob_alimama_2023_a.Base.{ℕ, zero, suc, List, [], ◌∷◌, if◌then◌else◌}
use prob_alimama_2023_a.Benchmark.Summary.{Double, Types, SummaryData}

module _ (double : Double) (types : Types) where
  open double use {Number, nought, of_count, add, minus, times, over, less, to_int32}

  pub record TestMaxQpsConfig : Type 0 where
    pub qps_baseline : ℕ
    pub thread_num : ℕ
    pub timeout_ms : ℕ
    pub request_duration_each_iter_sec : ℕ
    pub max_iter_times : ℕ
    pub success_percent_th : Number
    pub qps_step_size_percent : Number

  -- The variables of `TestMaxQps`.
  pub record Search : Type 0 where
    pub qps_limit : Number
    pub last_qps : Number
    pub max_qps : Number

  unfoldable pub search : TestMaxQpsConfig → Search
  search cfg = record { qps_limit = of_count cfg.qps_baseline; last_qps = nought; max_qps = nought }

  -- What an iteration asks for: the limit of its benchmark, and how many requests it sends.
  unfoldable pub request_times : TestMaxQpsConfig → Search → ℕ
  request_times cfg s = to_int32 (times s.qps_limit (of_count cfg.request_duration_each_iter_sec))

  -- The end of an iteration that took `elapsedtime_ms`.
  unfoldable pub next_limit :
      TestMaxQpsConfig → SummaryData double types → (elapsedtime_ms : Number) → Search → Search
  next_limit cfg summary elapsedtime_ms s =
      let qps =
        over (of_count summary.counts.success_request_count)
          (over elapsedtime_ms (of_count 1000)) in
      let step = times s.qps_limit cfg.qps_step_size_percent in
      record {
        qps_limit =
            if less summary.success_request_percent cfg.success_percent_th
            then minus s.qps_limit step
            else add s.qps_limit step;
        last_qps = qps;
        max_qps = if less s.max_qps qps then qps else s.max_qps;
      }

  -- The loop, with `iterations` to go, over the measurements; it ends early where no clients are
  -- made.
  unfoldable pub test_max_qps :
      TestMaxQpsConfig
      → (iterations : ℕ) → List (SummaryData double types × Number)
      → Search
      → Search
  unfolding next_limit
  test_max_qps cfg zero measured s = s
  test_max_qps cfg (suc n) [] s = s
  test_max_qps cfg (suc n) ((summary, elapsedtime_ms) ∷ measured) s =
      test_max_qps cfg n measured (next_limit cfg summary elapsedtime_ms s)
