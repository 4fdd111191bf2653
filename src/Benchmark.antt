-- ===== src/Benchmark.antt =====
-- testbench/grpc_benchmark.h: the benchmark, which spreads requests over its clients, collects the
-- responses and counts them. Each step is a piece of one of its threads, with one operation on what
-- they share, or of a call; `Request` is one step, since the thread that calls it is also the one
-- that waits. The wait for the rate limit (TokenBucket) only delays the step that sends. A double
-- is a value of the record Double.
pub mod Summary
mod Length
mod Invariant
mod Accounts
mod Examples
use prob_alimama_2023_a.Base.{
  ℕ, ◌+◌, ◌-◌, ◌%◌, ◌^◌, ◌<◌, ◌≡◌, Bool, true, false, not, ◌/◌, ◌&&◌, ◌||◌, Option, none, some,
  ◌>>=◌, List, [], ◌∷◌, ◌++◌, length, leb, ◌==◌, if◌then◌else◌,
}
use prob_alimama_2023_a.Base.Threads.{update}
use prob_alimama_2023_a.ConcurrentQueue.{
  ConcurrentQueue, concurrent_queue, QueueStatus, closed, ok, push_back, wait_and_pop, close,
}
use prob_alimama_2023_a.Benchmark.Summary.{
  Double, Types, EachResp, Status, Counts, update_summary, no_counts,
}

-- An int32_t is its bit pattern.
abbrev pub increase : ℕ → ℕ
increase x = (x + 1) % 2 ^ 32

abbrev pub decrease : ℕ → ℕ
decrease x = (x + (2 ^ 32 - 1)) % 2 ^ 32

abbrev pub not_positive : ℕ → Bool
not_positive x = x == 0 || leb (2 ^ 31) x

abbrev pub refused : QueueStatus → ℕ
refused closed = 1
refused _ = 0

-- `sleepNanoseconds`: the seconds and nanoseconds that it sleeps.
abbrev pub sleep_time : ℕ → ℕ × ℕ
sleep_time nanoseconds = (nanoseconds / 10 ^ 9, nanoseconds % 10 ^ 9)

pub record EachReqInternal (types : Types) : Type 0 where
  pub id : ℕ
  pub request : types.Req
  pub ref_resp : types.Ref

module _ (double : Double) (types : Types) where
  -- The thread of a client: it tests `enable_`, waits for a request, and has one.
  pub data ClientThread : Type 0 where
    looping waiting : ClientThread
    holding : EachReqInternal types → ClientThread

  -- The collector of a client: it waits for a response; it has one; it has taken it off
  -- `pending_num_`; and it has added it to `pending_compare_num_`, but not yet to the queue.
  pub data Collector : Type 0 where
    listening : Collector
    answered subtracted added : EachResp double types → Collector

  -- The calculator: it waits for a response; it has one; and it has counted it, and goes on or not.
  pub data Calculator : Type 0 where
    resting : Calculator
    popped : EachResp double types → Calculator
    counted : Bool → Calculator

  -- Of each client: its queue, its two threads, and the requests that were sent.
  pub record Bench : Type 0 where
    pub requests : ℕ → ConcurrentQueue (EachReqInternal types)
    pub threads : ℕ → ClientThread
    pub collectors : ℕ → Collector
    pub sent : ℕ → List (EachReqInternal types)
    pub responses : ConcurrentQueue (EachResp double types)
    pub enable : Bool
    pub pending_num : ℕ
    pub pending_compare_num : ℕ
    pub req_idx : ℕ
    pub counts : Counts double types
    pub calculator : Calculator
    pub calculating : Bool  -- the calculator thread runs
    -- the requests that did not get to a client, and the responses that came after the queue was
    -- closed
    pub dropped : ℕ
    pub late : ℕ

  unfoldable pub bench : (custom : types.Custom) → Bench
  bench custom = record {
    requests = λ _. concurrent_queue 0;
    threads = λ _. looping;
    collectors = λ _. listening;
    sent = λ _. [];
    responses = concurrent_queue 0;
    enable = true;
    pending_num = 0;
    pending_compare_num = 0;
    req_idx = 0;
    counts = no_counts double types custom;
    calculator = resting;
    calculating = true;
    dropped = 0;
    late = 0;
  }

  -- `Request`: whether the queue of the client in turn took it. The queue has no bound, so that
  -- `Push` does not wait.
  unfoldable pub request : (clients : ℕ) → EachReqInternal types → Bench → Option (Bool × Bench)
  unfolding push_back
  request clients internal s =
      let idx = s.req_idx % clients in
      do
        (status, queue) ← push_back (s.requests idx) internal
        some (
          refused status == 0,
          record s {
            pending_num = increase s.pending_num;
            req_idx = (s.req_idx + 1) % 2 ^ 64;
            requests = update s.requests idx queue;
            dropped = s.dropped + refused status;
          },
        )

  -- The collector of a client puts the response that it has into the queue.
  unfoldable pub collect : (i : ℕ) → EachResp double types → Bench → Option Bench
  unfolding push_back
  collect i respout s = do
    (status, queue) ← push_back s.responses respout
    some (record s {
      collectors = update s.collectors i listening;
      responses = queue;
      late = s.late + refused status;
    })

  -- The calculator counts the response that it has.
  unfoldable pub calculate :
      (do_compare : types.Resp → types.Ref → types.Custom → Bool × types.Custom)
      → EachResp double types
      → Bench
      → Bench
  calculate do_compare resp s =
      let (succeeded, counts) = update_summary double types resp s.counts in
      let (good, custom) = do_compare resp.response resp.ref_resp counts.custom_summary in
      record s {
        counts = record counts {
          custom_summary = if succeeded then custom else counts.custom_summary;
        };
        calculator = counted (if succeeded then good else true);
      }

  -- What `WaitAllUntilTimeout` and `WaitAll` do when their wait is over, where no other thread
  -- comes between, and the condition of the first.
  unfoldable pub end_wait : Bench → Bench
  end_wait s = record s { enable = false; pending_num = 0 }

  unfoldable pub all_collected : Bench → Bool
  all_collected s = if s.enable then s.pending_num == 0 else true

  -- `WaitAll`; `none` is one more round of its loop.
  unfoldable pub wait_all : Bench → Option Bench
  unfolding end_wait
  wait_all s = if not (not_positive s.pending_num) && s.enable then none else some (end_wait s)

  -- The wait of `Summary`.
  unfoldable pub all_compared : Bench → Bool
  all_compared s = not_positive s.pending_num && not_positive s.pending_compare_num

  pub data Step (do_compare : types.Resp → types.Ref → types.Custom → Bool × types.Custom)
      (clients : ℕ) (s : Bench) : Bench → Type 0 where
    requests :
        (v : EachReqInternal types) {b : Bool} {t : Bench}
        → request clients v s ≡ some (b, t)
        → Step do_compare clients s t
    -- the test of `enable_`, and then the pop, before which it may change
    tests :
        (i : ℕ)
        → i < clients
        → s.enable ≡ true
        → s.threads i ≡ looping
        → Step do_compare clients s (record s { threads = update s.threads i waiting })
    takes :
        (i : ℕ) {v : EachReqInternal types} {c : ConcurrentQueue (EachReqInternal types)}
        → i < clients
        → s.threads i ≡ waiting
        → wait_and_pop (s.requests i) ≡ some (ok, some (v, c))
        → Step do_compare clients s (record s {
          requests = update s.requests i c;
          threads = update s.threads i (holding v);
        })
    -- `Request` of the client, which returns true
    sends :
        (i : ℕ) (v : EachReqInternal types)
        → i < clients
        → s.threads i ≡ holding v
        → Step do_compare clients s (record s {
          threads = update s.threads i looping;
          sent = update s.sent i (s.sent i ++ v ∷ []);
        })
    -- or false
    refuses :
        (i : ℕ) (v : EachReqInternal types)
        → i < clients
        → s.threads i ≡ holding v
        → Step do_compare clients s
            (record s { threads = update s.threads i looping; dropped = s.dropped + 1 })
    -- `WaitResponse`, for any of the requests that were sent
    answers :
        (i : ℕ) (before after : List (EachReqInternal types)) (v : EachReqInternal types)
        (resp : EachResp double types)
        → i < clients
        → s.collectors i ≡ listening
        → s.sent i ≡ before ++ v ∷ after
        → resp.id ≡ v.id
        → Step do_compare clients s (record s {
          sent = update s.sent i (before ++ after);
          collectors = update s.collectors i (answered resp);
        })
    -- `pending_num_ --`
    subtracts :
        (i : ℕ) (resp : EachResp double types)
        → i < clients
        → s.collectors i ≡ answered resp
        → Step do_compare clients s (record s {
          collectors = update s.collectors i (subtracted resp);
          pending_num = decrease s.pending_num;
        })
    -- `pending_compare_num_ ++`
    adds :
        (i : ℕ) (resp : EachResp double types)
        → i < clients
        → s.collectors i ≡ subtracted resp
        → Step do_compare clients s (record s {
          collectors = update s.collectors i (added resp);
          pending_compare_num = increase s.pending_compare_num;
        })
    collects :
        (i : ℕ) (resp : EachResp double types) {t : Bench}
        → i < clients
        → s.collectors i ≡ added resp
        → collect i resp s ≡ some t
        → Step do_compare clients s t
    pops :
        {resp : EachResp double types} {c : ConcurrentQueue (EachResp double types)}
        → s.calculating ≡ true
        → s.calculator ≡ resting
        → wait_and_pop s.responses ≡ some (ok, some (resp, c))
        → Step do_compare clients s (record s { responses = c; calculator = popped resp })
    calculates :
        (resp : EachResp double types)
        → s.calculator ≡ popped resp
        → Step do_compare clients s (calculate do_compare resp s)
    -- `pending_compare_num_ --`, and the end of the loop where the comparison says so
    compares :
        (good : Bool)
        → s.calculator ≡ counted good
        → Step do_compare clients s (record s {
          pending_compare_num = decrease s.pending_compare_num;
          calculator = resting;
          calculating = good;
        })
    -- `enable_.store(false)` at the end of a wait or in the destructor, and `pending_num_.store(0)`
    -- after it
    disables : Step do_compare clients s (record s { enable = false })
    resets : s.enable ≡ false → Step do_compare clients s (record s { pending_num = 0 })
    -- `Summary`, once its wait is over
    sums :
        all_compared s ≡ true
        → Step do_compare clients s (record s { responses = close s.responses })
    -- the destructor, for one of the queues
    closes :
        (i : ℕ)
        → i < clients
        → s.enable ≡ false
        → Step do_compare clients s
            (record s { requests = update s.requests i (close (s.requests i)) })

  pub data Reach (do_compare : types.Resp → types.Ref → types.Custom → Bool × types.Custom)
      (clients : ℕ) (s : Bench) : Bench → Type 0 where
    here : Reach do_compare clients s s
    later :
        {t u : Bench}
        → Reach do_compare clients s t
        → Step do_compare clients t u
        → Reach do_compare clients s u
