-- ===== src/Service/Progress.antt =====
-- code/src/model_service.cpp: the end of `Get`.
use prob_alimama_2023_a.Base.{
  ℕ, ℕ_discrete, zero, suc, ◌+◌, ◌<◌, ◌≡◌, ◌≢◌, refl, sym, subst, ap, ◌⊎◌, inl, inr, Bool, true,
  false, Option, some, List, map, arith, length, replicate, All-map, Bytes,
}
use prob_alimama_2023_a.Base.Threads.{update, weigh, weigh-update, weigh-cong}
use prob_alimama_2023_a.Request.{
  SliceRequest, InternalRequest, RequestTask, RequestResult, request_result, count_finished, wait,
}
use prob_alimama_2023_a.Request.Located.{join}
use prob_alimama_2023_a.Handler.{SliceReader, Readers}
use prob_alimama_2023_a.Handler.Copies.{process_task-Served}
use prob_alimama_2023_a.Internal.{respond}
use prob_alimama_2023_a.Internal.Answer.{internal_get-serve}
use prob_alimama_2023_a.Allocator.{k_block_size}
use prob_alimama_2023_a.Service.{
  Pc, unsent, outstanding, ended, Flight, start_get, Step, local, remote, answers, Reach, here,
  later,
}
use prob_alimama_2023_a.Service.Dispatch.{as_request, push-some}
use prob_alimama_2023_a.Service.Invariant.{all_num, ended_num, is_outstanding, PcInv, Sent, Inv}
use prob_alimama_2023_a.Service.Steps.{
  Plan, Known-Served, All-Good, All-same, handle_response-wanted, planned_counted, planned-Known,
  planned_fits, Step-Inv, Reach-Inv,
}
use prob_alimama_2023_a.Service.Plan.{Servable, start_get-Started, Started-of}
use prob_alimama_2023_a.Service.Answer.{finished-answer}

-- A task that is out, if there is one.
find_outstanding :
    (n : ℕ) (pc : ℕ → Pc)
    → ((k : ℕ) × (t : RequestTask) × (k < n) × (pc k ≡ outstanding t))
      ⊎ ((k : ℕ) → k < n → is_outstanding (pc k) ≡ false)
find_outstanding zero pc = inr (λ k h. elim h [ ])
find_outstanding (suc n) pc = look (pc n) refl (find_outstanding n pc)
  where
    Found : Type 0
    Found =
        ((k : ℕ) × (t : RequestTask) × (k < suc n) × (pc k ≡ outstanding t))
        ⊎ ((k : ℕ) → k < suc n → is_outstanding (pc k) ≡ false)

    all :
        is_outstanding (pc n) ≡ false
        → ((k : ℕ) → k < n → is_outstanding (pc k) ≡ false)
        → (k : ℕ) → k < suc n
        → is_outstanding (pc k) ≡ false
    all last h k lt = elim (ℕ_discrete k n) [ yes e ↦ rw e last | no other ↦ h k (omega arith) ]

    look :
        (p : Pc)
        → pc n ≡ p
        → ((k : ℕ) × (t : RequestTask) × (k < n) × (pc k ≡ outstanding t))
          ⊎ ((k : ℕ) → k < n → is_outstanding (pc k) ≡ false)
        → Found
    look p e (inl (k, t, lt, out)) = inl (k, t, omega arith, out)
    look (outstanding t) e (inr h) = inl (n, t, omega arith, e)
    look (unsent t) e (inr h) = inr (all (ap is_outstanding e) h)
    look (ended t) e (inr h) = inr (all (ap is_outstanding e) h)

-- When no task is out, each has been counted.
all-le-ended :
    (goal : Bytes) (r : RequestResult) (pc : Pc)
    → PcInv goal r pc
    → is_outstanding pc ≡ false
    → ended_num pc ≡ all_num pc
all-le-ended goal r (unsent t) h e = sym h
all-le-ended goal r (outstanding t) h e = cc
all-le-ended goal r (ended t) h e = refl

no_stall :
    {node_id node_num n : ℕ} {goal : Bytes} {tasks : ℕ → RequestTask} {f : Flight}
    → Inv node_id node_num n goal tasks f
    → node_id < node_num
    → f.result.faild ≡ false
    → f.result.finish ≡ false
    → ¬ ((k : ℕ) → k < node_num → is_outstanding (f.pc k) ≡ false)
no_stall {node_id} {node_num} {goal = goal} {f = f} v me calm waits quiet = ground (
  arith,
  weigh-cong ended_num all_num node_num f.pc f.pc
      (λ k lt. all-le-ended goal f.result (f.pc k) (v.each k lt) (quiet k lt)),
  v.total,
  v.exact,
  v.settled,
  quiet node_id me,
)

abbrev outs : Pc → ℕ
outs (outstanding _) = 1
outs _ = 0

-- A call has not failed before the wait.
pub start_get-calm :
    (node_of : ℕ → Option ℕ) (node_id node_num : ℕ) (name block : Bytes) (req_no : ℕ)
    (srs : List SliceRequest) {f : Flight}
    → start_get node_of node_id node_num name block req_no srs ≡ some f
    → f.result.faild ≡ false
unfolding start_get request_result
start_get-calm node_of node_id node_num name block req_no srs e = ground (arith, e)

module _ (api : SliceReader) (node_id node_num : ℕ) (nodes : ℕ → Readers api)
    (want : SliceRequest → Bytes) (goal : Bytes) {tasks : ℕ → RequestTask}
    (plan : Plan api node_id node_num nodes want goal tasks) where
  -- A task that is out can end without a failure.
  record Advance (f : Flight) : Type 0 where
    next : Flight
    step : Step api node_id node_num nodes f next
    calm : next.result.faild ≡ false
    fewer : weigh outs node_num next.pc + 1 ≡ weigh outs node_num f.pc

  fewer_outs :
      (f : Flight) (k : ℕ) {t : RequestTask}
      → k < node_num
      → f.pc k ≡ outstanding t
      → weigh outs node_num (update f.pc k (ended t)) + 1 ≡ weigh outs node_num f.pc
  fewer_outs f k {t} lt out = ground (arith, weigh-update outs node_num f.pc k (ended t) lt)

  advance_local :
      (f : Flight) {t : RequestTask}
      → Inv node_id node_num k_block_size goal tasks f
      → f.result.faild ≡ false
      → node_id < node_num
      → f.pc node_id ≡ outstanding t
      → Advance f
  unfolding count_finished
  advance_local f {t} v calm lt out =
      let counted = planned_counted api node_id node_num nodes want goal node_id plan lt out v in
      let known = planned-Known api node_id node_num nodes want goal node_id plan lt out v in
      let served =
        All-map (Known-Served api node_id node_num nodes want goal node_id) t.req_slice_list
          known in
      let (dst, ran, _, _) =
        process_task-Served api (nodes node_id) t f.result (replicate 128 0) refl v.long counted
          served in
      record {
        next = _;
        step = local (replicate 128 0) refl lt out ran;
        calm = calm;
        fewer = fewer_outs f node_id lt out;
      }

  advance_remote :
      (f : Flight) (k : ℕ) {t : RequestTask}
      → Inv node_id node_num k_block_size goal tasks f
      → f.result.faild ≡ false
      → k < node_num
      → k ≢ node_id
      → 0 < t.num
      → f.pc k ≡ outstanding t
      → Advance f
  unfolding count_finished
  advance_remote f k {t} v calm lt other more out =
      let sds = t.req_slice_list in
      let counted = planned_counted api node_id node_num nodes want goal k plan lt out v in
      let known = planned-Known api node_id node_num nodes want goal k plan lt out v in
      let fits = planned_fits api node_id node_num nodes want goal k plan lt out v in
      let asked : InternalRequest = record {
        model_name = t.model_name;
        slice_request = map as_request sds;
      } in
      let served =
        internal_get-serve api (nodes k) want f.result.bytes (replicate 128 0) 0 asked refl
          (omega (arith, v.long)) (omega (arith, v.long))
          (All-Good api node_id node_num nodes want goal k sds known)
          (All-same api node_id node_num nodes want goal k sds known) in
      let (dst, ran, _, _) =
        handle_response-wanted api node_id node_num nodes want goal k t 0 f.result v.long counted
          known in
      record {
        next = _;
        step =
            remote k lt other out
              (answers f.result.bytes (replicate 128 0) 0 v.long refl (push-some t counted more)
                served)
              ran;
        calm = calm;
        fewer = fewer_outs f k lt out;
      }

  advance :
      (f : Flight) (k : ℕ) {t : RequestTask}
      → Inv node_id node_num k_block_size goal tasks f
      → f.result.faild ≡ false
      → k < node_num
      → f.pc k ≡ outstanding t
      → Advance f
  advance f k {t} v calm lt out = elim (ℕ_discrete k node_id) [
    | yes e ↦
        advance_local f v calm (subst (λ j. j < node_num) e lt)
          (subst (λ j. f.pc j ≡ outstanding t) e out)
    | no other ↦
        let sent : (k ≡ node_id) ⊎ (0 < t.num) = subst (Sent node_id k) out (v.sent k lt) in
        advance_remote f k v calm lt other (ground (arith, sent)) out
  ]

  Reach-cons :
      {f g h : Flight}
      → Step api node_id node_num nodes f g
      → Reach api node_id node_num nodes g h
      → Reach api node_id node_num nodes f h
  Reach-cons st here = later here st
  Reach-cons st (later r last) = later (Reach-cons st r) last

  -- From here on, at most one step for each task that is out ends the wait.
  pub finishes :
      (m : ℕ) (f : Flight)
      → node_id < node_num
      → Inv node_id node_num k_block_size goal tasks f
      → f.result.faild ≡ false
      → weigh outs node_num f.pc < m
      → (g : Flight) × Reach api node_id node_num nodes f g
        × (g.result.faild ≡ false)
        × (g.result.finish ≡ true)
  finishes zero f me v calm lt = elim lt [ ]
  finishes (suc m) f me v calm lt =
      by_flag (f.result.finish) refl (find_outstanding node_num f.pc) λ s.
        let (g, r, c, e) =
          finishes m s.next me (Step-Inv api node_id node_num nodes want goal plan s.step v) s.calm
            (omega (arith, s.fewer)) in
        (g, Reach-cons s.step r, c, e)
    where
      Ended : Type 0
      Ended =
          (g : Flight) × Reach api node_id node_num nodes f g
          × (g.result.faild ≡ false)
          × (g.result.finish ≡ true)

      by_flag :
          (b : Bool)
          → f.result.finish ≡ b
          → ((k : ℕ) × (t : RequestTask) × (k < node_num) × (f.pc k ≡ outstanding t))
            ⊎ ((k : ℕ) → k < node_num → is_outstanding (f.pc k) ≡ false)
          → (Advance f → Ended)
          → Ended
      by_flag true e o more = (f, here, calm, e)
      by_flag false e (inr quiet) more = absurd (no_stall v me calm e quiet)
      by_flag false e (inl (k, t, below, out)) more = more (advance f k v calm below out)

Reach-trans :
    {api : SliceReader} {node_id node_num : ℕ} {nodes : ℕ → Readers api} {f g h : Flight}
    → Reach api node_id node_num nodes f g
    → Reach api node_id node_num nodes g h
    → Reach api node_id node_num nodes f h
Reach-trans r here = r
Reach-trans r (later q last) = later (Reach-trans r q) last

wait_finished : (r : RequestResult) → r.finish ≡ true → wait r ≡ some r
unfolding wait
wait_finished r e = rw e

module _ (api : SliceReader) (node_id node_num : ℕ) (nodes : ℕ → Readers api)
    (want : SliceRequest → Bytes) (node_of : ℕ → Option ℕ) (srs : List SliceRequest)
    (able : Servable api node_id node_num nodes want node_of srs) where
  -- For a request that the cluster can serve, from a node whose number is below `node_num` and with
  -- a block of the allocator's size, the routing, the dispatch and the messages of `Get` run
  -- without a fault.
  pub start_get_total :
      (name block : Bytes) (req_no : ℕ)
      → node_id < node_num
      → length block ≡ k_block_size
      → (f : Flight) × (start_get node_of node_id node_num name block req_no srs ≡ some f)
  start_get_total name block req_no me long =
      let (f, e, s) =
        start_get-Started api node_id node_num nodes want node_of srs able name block req_no me
          long in
      (f, e)

  -- For a request that the cluster can serve, from every state that `Get` can reach with no call
  -- failed so far, the remaining tasks can end so that the wait is over and the response has status
  -- 0 and exactly the bytes of every slice: no interleaving gets stuck.
  pub get_returns :
      {f g : Flight} (name block : Bytes) (req_no : ℕ)
      → node_id < node_num
      → length block ≡ k_block_size
      → start_get node_of node_id node_num name block req_no srs ≡ some f
      → Reach api node_id node_num nodes f g
      → g.result.faild ≡ false
      → (h : Flight) × Reach api node_id node_num nodes g h
        × (wait h.result ≡ some h.result)
        × (respond srs h.result ≡ some (record { status = 0; slice_data = map want srs }))
  get_returns {f} {g} name block req_no me long e r calm =
      let s =
        Started-of api node_id node_num nodes want node_of srs able name block req_no me long e in
      let v = Reach-Inv api node_id node_num nodes want (join want srs) s.plan r s.inv in
      let (h, more, c, fin) =
        finishes api node_id node_num nodes want (join want srs) s.plan
          (suc (weigh outs node_num g.pc)) g me v calm (omega arith) in
      (
        h,
        more,
        wait_finished h.result fin,
        finished-answer api node_id node_num nodes want node_of srs able s (Reach-trans r more) c
            fin,
      )
