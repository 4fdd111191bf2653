-- ===== src/Benchmark/Summary.antt =====
-- testbench/grpc_benchmark.h: the data of a benchmark, its counters and what `Summary` makes of
-- them.
use prob_alimama_2023_a.Base.{
  ℕ, ◌+◌, ◌%◌, ◌^◌, Bool, true, false, Option, none, some, List, [], ◌∷◌, length, get_elem?, leb,
  if◌then◌else◌,
}

-- What the sources use of `double`.
pub record Double : Type 1 where
  pub Number : Type 0
  pub nought : Number
  pub one_percent : Number  -- 0.01
  pub of_count : ℕ → Number
  pub add : Number → Number → Number
  pub times : Number → Number → Number
  pub over : Number → Number → Number
  pub to_int32 : Number → ℕ
  pub minus : Number → Number → Number
  pub less : Number → Number → Bool

-- The parameters of the templates.
pub record Types : Type 1 where
  pub Req : Type 0
  pub Resp : Type 0
  pub Ref : Type 0
  pub Custom : Type 0

-- grpc::Status: OK, DEADLINE_EXCEEDED, or any other error.
pub data Status : Type 0 where
  status_ok deadline_exceeded other_error : Status

module _ (double : Double) (types : Types) where
  -- The start time is left out: the latency has been taken from it.
  pub record EachResp : Type 0 where
    pub id : ℕ
    pub response : types.Resp
    pub ref_resp : types.Ref
    pub status : Status
    pub latency : double.Number

  -- The counters of `SummaryData`, the sum of the latencies, and `pq_`, in any order.
  pub record Counts : Type 0 where
    pub completed_requests : ℕ
    pub success_request_count : ℕ
    pub error_request_count : ℕ
    pub timeout_request_count : ℕ
    pub custom_summary : types.Custom
    pub total_latency : double.Number
    pub pq : List double.Number

  unfoldable pub no_counts : types.Custom → Counts
  no_counts custom = record {
    completed_requests = 0;
    success_request_count = 0;
    error_request_count = 0;
    timeout_request_count = 0;
    custom_summary = custom;
    total_latency = double.nought;
    pq = [];
  }

  abbrev pub count_one : ℕ → ℕ
  count_one x = (x + 1) % 2 ^ 64

  unfoldable pub update_summary : EachResp → Counts → Bool × Counts
  update_summary resp s =
      let completed = count_one s.completed_requests in
      elim resp.status [
        | deadline_exceeded ↦ (
          false,
          record s {
            completed_requests = completed;
            timeout_request_count = count_one s.timeout_request_count;
          },
        )
        | other_error ↦ (
          false,
          record s {
            completed_requests = completed;
            error_request_count = count_one s.error_request_count;
          },
        )
        | status_ok ↦ (
          true,
          record s {
            completed_requests = completed;
            total_latency = double.add s.total_latency resp.latency;
            success_request_count = count_one s.success_request_count;
            pq = resp.latency ∷ s.pq;
          },
        )
      ]

  pub record SummaryData : Type 0 where
    pub counts : Counts
    pub avg_latency_ms : double.Number
    pub p99_latency_ms : double.Number
    pub success_request_percent : double.Number

  -- What `Summary` computes once its wait is over; `order` is the order of an iterator over `pq_`.
  -- An iterator past the end is a fault. The latency at its end stays 0.
  unfoldable pub summarize :
      (order : List double.Number → List double.Number) → Counts → Option SummaryData
  summarize order s =
      let index =
        double.to_int32
          (double.times (double.of_count s.success_request_count) double.one_percent) in
      if leb index (length s.pq)
      then some (record {
        counts = s;
        avg_latency_ms = double.over s.total_latency (double.of_count s.success_request_count);
        p99_latency_ms = elim (get_elem? (order s.pq) index) [
          | none ↦ double.nought
          | some latency ↦ latency
        ];
        success_request_percent =
            double.over (double.of_count s.success_request_count)
              (double.of_count s.completed_requests);
      })
      else none
