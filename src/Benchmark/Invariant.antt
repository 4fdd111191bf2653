-- ===== src/Benchmark/Invariant.antt =====
-- testbench/grpc_benchmark.h: an invariant of the benchmark's counters, kept by every step.
use prob_alimama_2023_a.Base.{
  ℕ, ◌+◌, ◌%◌, ◌^◌, ◌<◌, ◌≡◌, refl, subst, ap, Bool, true, some, >>=-eq-some, List, [], ◌∷◌, ◌++◌,
  length, length-append, arith,
}
use prob_alimama_2023_a.Base.Threads.{update, weigh, weigh-update, weigh-eq-zero}
use prob_alimama_2023_a.ConcurrentQueue.{
  ConcurrentQueue, concurrent_queue, ok, push_back, wait_and_pop, close,
}
use prob_alimama_2023_a.Benchmark.Summary.{
  Double, Types, EachResp, Status, status_ok, deadline_exceeded, other_error, Counts,
  update_summary, no_counts,
}
use prob_alimama_2023_a.Benchmark.{
  EachReqInternal, ClientThread, looping, waiting, holding, Collector, listening, answered,
  subtracted, added, Calculator, resting, popped, counted, Bench, bench, request, collect,
  calculate, Step, Reach, increase, decrease, requests, tests, takes, sends, refuses, answers,
  subtracts, adds, collects, pops, calculates, compares, disables, resets, sums, closes, here,
  later,
}
use prob_alimama_2023_a.Benchmark.Length.{push_back-length, wait_and_pop-length}

same_pair : {A : Type 0} {x y : Bool × A} → some x ≡ some y → x.1 ≡ y.1
same_pair e = cc e

same_some : {A : Type 0} {a b : A} → some a ≡ some b → a ≡ b
same_some e = cc e

mod-lt : (a n : ℕ) → 0 < n → a % n < n
mod-lt a n h = grind arith

module _ (double : Double) (types : Types)
    (do_compare : types.Resp → types.Ref → types.Custom → Bool × types.Custom) (clients : ℕ) where
  abbrev held : ClientThread double types → ℕ
  held (holding v) = 1
  held looping = 0
  held waiting = 0

  -- A response that a collector has, before and after it is taken off `pending_num_`.
  abbrev pending : Collector double types → ℕ
  pending (answered r) = 1
  pending listening = 0
  pending (subtracted r) = 0
  pending (added r) = 0

  abbrev passed_on : Collector double types → ℕ
  passed_on listening = 0
  passed_on (answered r) = 0
  passed_on (subtracted r) = 1
  passed_on (added r) = 1

  abbrev in_hand : Calculator double types → ℕ
  in_hand (popped r) = 1
  in_hand resting = 0
  in_hand (counted good) = 0

  -- The requests with the clients: queued, held by a thread, sent, or answered and not yet taken
  -- off `pending_num_`.
  abbrev pub with_clients : Bench double types → ℕ
  with_clients s =
      weigh (λ c. length c.q) clients s.requests
      + weigh held clients s.threads
      + weigh (λ vs. length vs) clients s.sent
      + weigh pending clients s.collectors

  -- The responses that collectors have taken off `pending_num_` and not yet put into the queue.
  abbrev pub with_collectors : Bench double types → ℕ
  with_collectors s = weigh passed_on clients s.collectors

  -- The responses in the queue, with the calculator, and counted.
  abbrev pub with_calculator : Bench double types → ℕ
  with_calculator s = length s.responses.q + in_hand s.calculator + s.counts.completed_requests

  pub record Inv (s : Bench double types) : Type 0 where
    pub asked :
        s.req_idx
        ≡ (with_clients s + with_collectors s + with_calculator s + s.dropped + s.late) % 2 ^ 64
    pub unanswered : s.enable ≡ true → s.pending_num ≡ (with_clients s + s.dropped) % 2 ^ 32
    pub kinds :
        s.counts.completed_requests
        ≡ (s.counts.success_request_count + s.counts.error_request_count
            + s.counts.timeout_request_count)
          % 2 ^ 64

  bench-Inv : (custom : types.Custom) → Inv (bench double types custom)
  unfolding bench concurrent_queue no_counts
  bench-Inv custom =
      let a =
        weigh-eq-zero (λ (c : ConcurrentQueue (EachReqInternal types)). length c.q) clients
          (λ _. concurrent_queue 0) (λ _ _. refl) in
      let b = weigh-eq-zero held clients (λ _. looping) (λ _ _. refl) in
      let c =
        weigh-eq-zero (λ (vs : List (EachReqInternal types)). length vs) clients (λ _. [])
          (λ _ _. refl) in
      let d = weigh-eq-zero pending clients (λ _. listening) (λ _ _. refl) in
      let e = weigh-eq-zero passed_on clients (λ _. listening) (λ _ _. refl) in
      record {
        asked = omega (arith, a, b, c, d, e);
        unanswered = λ on. omega (arith, a, b, c, d);
        kinds = refl;
      }

  request-Inv :
      (v : EachReqInternal types) (b : Bool) (s t : Bench double types)
      → 0 < clients
      → request double types clients v s ≡ some (b, t)
      → Inv s
      → Inv t
  unfolding request
  request-Inv v b s t pos e inv =
      let ((status, queue), p, e1) =
        >>=-eq-some (push_back (s.requests (s.req_idx % clients)) v) _ e in
      let i = s.req_idx % clients in
      let grown =
        weigh-update (λ (c : ConcurrentQueue (EachReqInternal types)). length c.q) clients
          s.requests i queue (mod-lt s.req_idx clients pos) in
      let one = push_back-length (s.requests i) queue v status p in
      subst Inv (same_pair e1) (record {
        asked = omega (arith, inv.asked, grown, one);
        unanswered = λ on. omega (arith, inv.unanswered on, grown, one);
        kinds = inv.kinds;
      })

  -- A collector goes on from one place to the next.
  moved :
      (place : Collector double types → ℕ) (i : ℕ) (from to : Collector double types)
      (s : Bench double types)
      → i < clients
      → s.collectors i ≡ from
      → weigh place clients (update s.collectors i to) + place from
        ≡ weigh place clients s.collectors + place to
  moved place i from to s lt at =
      subst
        (λ z.
          weigh place clients (update s.collectors i to) + place z
          ≡ weigh place clients s.collectors + place to)
        at (weigh-update place clients s.collectors i to lt)

  answers-Inv :
      (i : ℕ) (before after : List (EachReqInternal types)) (v : EachReqInternal types)
      (resp : EachResp double types) (s : Bench double types)
      → i < clients
      → s.collectors i ≡ listening
      → s.sent i ≡ before ++ v ∷ after
      → Inv s
      → Inv (record s {
        sent = update s.sent i (before ++ after);
        collectors = update s.collectors i (answered resp);
      })
  answers-Inv i before after v resp s lt at out inv =
      let fewer =
        weigh-update (λ (vs : List (EachReqInternal types)). length vs) clients s.sent i
          (before ++ after) lt in
      let size = ap length out in
      let a = length-append before (v ∷ after) in
      let b = length-append before after in
      let x = moved pending i listening (answered resp) s lt at in
      let y = moved passed_on i listening (answered resp) s lt at in
      record {
        asked = omega (arith, inv.asked, fewer, size, a, b, x, y);
        unanswered = λ on. omega (arith, inv.unanswered on, fewer, size, a, b, x);
        kinds = inv.kinds;
      }

  subtracts-Inv :
      (i : ℕ) (resp : EachResp double types) (s : Bench double types)
      → i < clients
      → s.collectors i ≡ answered resp
      → Inv s
      → Inv (record s {
        collectors = update s.collectors i (subtracted resp);
        pending_num = decrease s.pending_num;
      })
  subtracts-Inv i resp s lt at inv =
      let x = moved pending i (answered resp) (subtracted resp) s lt at in
      let y = moved passed_on i (answered resp) (subtracted resp) s lt at in
      record {
        asked = omega (arith, inv.asked, x, y);
        unanswered = λ on. omega (arith, inv.unanswered on, x);
        kinds = inv.kinds;
      }

  adds-Inv :
      (i : ℕ) (resp : EachResp double types) (s : Bench double types)
      → i < clients
      → s.collectors i ≡ subtracted resp
      → Inv s
      → Inv (record s {
        collectors = update s.collectors i (added resp);
        pending_compare_num = increase s.pending_compare_num;
      })
  adds-Inv i resp s lt at inv =
      let x = moved pending i (subtracted resp) (added resp) s lt at in
      let y = moved passed_on i (subtracted resp) (added resp) s lt at in
      record {
        asked = omega (arith, inv.asked, x, y);
        unanswered = λ on. omega (arith, inv.unanswered on, x);
        kinds = inv.kinds;
      }

  -- What holds of a state holds of one with the other fields changed.
  collect-Inv :
      (i : ℕ) (resp : EachResp double types) (s t : Bench double types)
      → i < clients
      → s.collectors i ≡ added resp
      → collect double types i resp s ≡ some t
      → Inv s
      → Inv t
  unfolding collect
  collect-Inv i resp s t lt at e inv =
      let ((status, queue), p, e1) = >>=-eq-some (push_back s.responses resp) _ e in
      let one = push_back-length s.responses queue resp status p in
      let x = moved pending i (added resp) listening s lt at in
      let y = moved passed_on i (added resp) listening s lt at in
      subst Inv (same_some e1) (record {
        asked = omega (arith, inv.asked, one, x, y);
        unanswered = λ on. omega (arith, inv.unanswered on, x);
        kinds = inv.kinds;
      })

  -- A response counts once, under its kind.
  abbrev Counted : ℕ → Counts double types → Type 0
  Counted before c =
      (c.completed_requests ≡ (before + 1) % 2 ^ 64)
      × (c.completed_requests
          ≡ (c.success_request_count + c.error_request_count + c.timeout_request_count) % 2 ^ 64)

  update_summary-Counted :
      (status : Status) (resp : EachResp double types) (c : Counts double types)
      → c.completed_requests
        ≡ (c.success_request_count + c.error_request_count + c.timeout_request_count) % 2 ^ 64
      → Counted c.completed_requests
          (update_summary double types (record resp { status = status }) c).1
  unfolding update_summary
  update_summary-Counted status_ok resp c kinds = (refl, omega (arith, kinds))
  update_summary-Counted deadline_exceeded resp c kinds = (refl, omega (arith, kinds))
  update_summary-Counted other_error resp c kinds = (refl, omega (arith, kinds))

  pops-Inv :
      (resp : EachResp double types) (queue : ConcurrentQueue (EachResp double types))
      (s : Bench double types)
      → s.calculator ≡ resting
      → wait_and_pop s.responses ≡ some (ok, some (resp, queue))
      → Inv s
      → Inv (record s { responses = queue; calculator = popped resp })
  pops-Inv resp queue s at e inv = record {
    asked = omega (arith, inv.asked, wait_and_pop-length s.responses queue resp e, ap in_hand at);
    unanswered = inv.unanswered;
    kinds = inv.kinds;
  }

  calculate-Inv :
      (resp : EachResp double types) (s : Bench double types)
      → s.calculator ≡ popped resp
      → Inv s
      → Inv (calculate double types do_compare resp s)
  unfolding calculate
  calculate-Inv resp s at inv =
      let (one, kinds) = update_summary-Counted resp.status resp s.counts inv.kinds in
      record {
        asked = omega (arith, inv.asked, one, ap in_hand at);
        unanswered = inv.unanswered;
        kinds = kinds;
      }

  takes-Inv :
      (i : ℕ) (v : EachReqInternal types) (c : ConcurrentQueue (EachReqInternal types))
      (s : Bench double types)
      → i < clients
      → s.threads i ≡ waiting
      → wait_and_pop (s.requests i) ≡ some (ok, some (v, c))
      → Inv s
      → Inv
          (record s { requests = update s.requests i c; threads = update s.threads i (holding v) })
  takes-Inv i v c s lt free e inv =
      let one = wait_and_pop-length (s.requests i) c v e in
      let fewer =
        weigh-update (λ (c : ConcurrentQueue (EachReqInternal types)). length c.q) clients
          s.requests i c lt in
      let more = weigh-update held clients s.threads i (holding v) lt in
      let none_held = ap held free in
      record {
        asked = omega (arith, inv.asked, one, fewer, more, none_held);
        unanswered = λ on. omega (arith, inv.unanswered on, one, fewer, more, none_held);
        kinds = inv.kinds;
      }

  sends-Inv :
      (i : ℕ) (v : EachReqInternal types) (s : Bench double types)
      → i < clients
      → s.threads i ≡ holding v
      → Inv s
      → Inv (record s {
        threads = update s.threads i looping;
        sent = update s.sent i (s.sent i ++ v ∷ []);
      })
  sends-Inv i v s lt busy inv =
      let fewer = weigh-update held clients s.threads i looping lt in
      let more =
        weigh-update (λ (vs : List (EachReqInternal types)). length vs) clients s.sent i
          (s.sent i ++ v ∷ []) lt in
      let one = ap held busy in
      let size = length-append (s.sent i) (v ∷ []) in
      record {
        asked = omega (arith, inv.asked, one, fewer, more, size);
        unanswered = λ on. omega (arith, inv.unanswered on, one, fewer, more, size);
        kinds = inv.kinds;
      }

  refuses-Inv :
      (i : ℕ) (v : EachReqInternal types) (s : Bench double types)
      → i < clients
      → s.threads i ≡ holding v
      → Inv s
      → Inv (record s { threads = update s.threads i looping; dropped = s.dropped + 1 })
  refuses-Inv i v s lt busy inv =
      let fewer = weigh-update held clients s.threads i looping lt in
      let one = ap held busy in
      record {
        asked = omega (arith, inv.asked, one, fewer);
        unanswered = λ on. omega (arith, inv.unanswered on, one, fewer);
        kinds = inv.kinds;
      }

  tests-Inv :
      (i : ℕ) (s : Bench double types)
      → i < clients
      → s.threads i ≡ looping
      → Inv s
      → Inv (record s { threads = update s.threads i waiting })
  tests-Inv i s lt at inv =
      let same = weigh-update held clients s.threads i waiting lt in
      let none_held = ap held at in
      record {
        asked = omega (arith, inv.asked, same, none_held);
        unanswered = λ on. omega (arith, inv.unanswered on, same, none_held);
        kinds = inv.kinds;
      }

  closes-Inv :
      (i : ℕ) (s : Bench double types)
      → i < clients
      → Inv s
      → Inv (record s { requests = update s.requests i (close (s.requests i)) })
  unfolding close
  closes-Inv i s lt inv =
      let same =
        weigh-update (λ (c : ConcurrentQueue (EachReqInternal types)). length c.q) clients
          s.requests i (close (s.requests i)) lt in
      record {
        asked = omega (arith, inv.asked, same);
        unanswered = λ on. omega (arith, inv.unanswered on, same);
        kinds = inv.kinds;
      }

  Step-Inv :
      {s t : Bench double types}
      → 0 < clients
      → Step double types do_compare clients s t
      → Inv s
      → Inv t
  unfolding close
  Step-Inv {s} {t} pos (requests v {b} e) inv = request-Inv v b s t pos e inv
  Step-Inv {s} pos (tests i lt on at) inv = tests-Inv i s lt at inv
  Step-Inv {s} pos (takes i {v} {c} lt free e) inv = takes-Inv i v c s lt free e inv
  Step-Inv {s} pos (sends i v lt busy) inv = sends-Inv i v s lt busy inv
  Step-Inv {s} pos (refuses i v lt busy) inv = refuses-Inv i v s lt busy inv
  Step-Inv {s} pos (answers i before after v resp lt at out same) inv =
      answers-Inv i before after v resp s lt at out inv
  Step-Inv {s} pos (subtracts i resp lt at) inv = subtracts-Inv i resp s lt at inv
  Step-Inv {s} pos (adds i resp lt at) inv = adds-Inv i resp s lt at inv
  Step-Inv {s} {t} pos (collects i resp lt at e) inv = collect-Inv i resp s t lt at e inv
  Step-Inv {s} pos (pops {resp} {c} on at e) inv = pops-Inv resp c s at e inv
  Step-Inv {s} pos (calculates resp at) inv = calculate-Inv resp s at inv
  Step-Inv {s} pos (compares good at) inv = record {
    asked = omega (arith, inv.asked, ap in_hand at);
    unanswered = inv.unanswered;
    kinds = inv.kinds;
  }
  Step-Inv {s} pos disables inv = record {
    asked = inv.asked;
    unanswered = λ on. cc on;
    kinds = inv.kinds;
  }
  Step-Inv {s} pos (resets off) inv = record {
    asked = inv.asked;
    unanswered = λ on. cc (off, on);
    kinds = inv.kinds;
  }
  Step-Inv {s} pos (sums e) inv = record {
    asked = inv.asked;
    unanswered = inv.unanswered;
    kinds = inv.kinds;
  }
  Step-Inv {s} pos (closes i lt off) inv = closes-Inv i s lt inv

  pub Reach-Inv :
      (custom : types.Custom) {s : Bench double types}
      → 0 < clients
      → Reach double types do_compare clients (bench double types custom) s
      → Inv s
  Reach-Inv custom pos here = bench-Inv custom
  Reach-Inv custom pos (later r step) = Step-Inv pos step (Reach-Inv custom pos r)
