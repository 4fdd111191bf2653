-- ===== src/Benchmark/Accounts.antt =====
-- testbench/grpc_benchmark.h: where the requests of a benchmark are, and what its counters say of
-- them.
use prob_alimama_2023_a.Base.{ℕ, ◌+◌, ◌%◌, ◌^◌, ◌<◌, ◌≡◌, ◌↔◌, Bool, true, arith}
use prob_alimama_2023_a.Benchmark.Summary.{Double, Types}
use prob_alimama_2023_a.Benchmark.{Bench, bench, all_collected, Reach}
use prob_alimama_2023_a.Benchmark.Invariant.{
  with_clients, with_collectors, with_calculator, Reach-Inv,
}

module _ (double : Double) (types : Types)
    (do_compare : types.Resp → types.Ref → types.Custom → Bool × types.Custom) (clients : ℕ) where
  -- With a client at least, in any interleaving from the start, counted modulo 2 ^ 64: the requests
  -- asked for are those with the clients, the responses that a collector has taken off the pending
  -- ones, those in the queue or with the calculator, those completed, those that were dropped and
  -- those answered too late; and the completed ones are the successes, the errors and the timeouts.
  pub requests_accounted :
      (custom : types.Custom) {s : Bench double types}
      → 0 < clients
      → Reach double types do_compare clients (bench double types custom) s
      → (s.req_idx
          ≡ (with_clients double types do_compare clients s
              + with_collectors double types do_compare clients s
              + with_calculator double types do_compare clients s
              + s.dropped
              + s.late)
            % 2 ^ 64)
        × (s.counts.completed_requests
            ≡ (s.counts.success_request_count + s.counts.error_request_count
                + s.counts.timeout_request_count)
              % 2 ^ 64)
  requests_accounted custom pos r =
      let inv = Reach-Inv double types do_compare clients custom pos r in (inv.asked, inv.kinds)

  -- With a client at least, in any interleaving from the start with fewer than 2 ^ 32 requests with
  -- the clients or dropped, where a request is with the clients until a collector has taken its
  -- response off `pending_num_`: as long as the benchmark is enabled, the condition of
  -- `WaitAllUntilTimeout` holds if and only if no request is with the clients and none has been
  -- dropped.
  pub all_collected_iff :
      (custom : types.Custom) {s : Bench double types}
      → 0 < clients
      → Reach double types do_compare clients (bench double types custom) s
      → s.enable ≡ true
      → with_clients double types do_compare clients s + s.dropped < 2 ^ 32
      → (all_collected double types s ≡ true)
        ↔ (with_clients double types do_compare clients s + s.dropped ≡ 0)
  unfolding all_collected
  all_collected_iff custom {s} pos r on few =
      let p = (Reach-Inv double types do_compare clients custom pos r).unanswered on in
      ((λ e. ground (arith, on, e, p, few)), (λ e. ground (arith, on, e, p, few)))
