-- ===== src/Service/Plan.antt =====
-- code/src/model_service.cpp: the plan of a request: how it is split over the nodes.
use prob_alimama_2023_a.Base.{
  ℕ, ◌+◌, ◌≤◌, ◌<◌, ◌≡◌, refl, sym, subst, ap, ◌∙◌, inr, Option, some, [], ◌∷◌, ◌++◌, List, map,
  arith, length, length-append, All, All-map, All-append, Bytes,
}
use prob_alimama_2023_a.Base.Threads.{weigh, weigh-cong, weigh-eq-zero, weight-le}
use prob_alimama_2023_a.Request.{
  SliceRequest, SliceData, RequestTask, empty_task, locate, add_size, request_result,
}
use prob_alimama_2023_a.Request.Copies.{Right}
use prob_alimama_2023_a.Request.Located.{
  AllLocated, AllLocated-of, Good, Placed, total_len, join, All-Placed,
}
use prob_alimama_2023_a.Handler.{SliceReader, Readers}
use prob_alimama_2023_a.Internal.Answer.{serve}
use prob_alimama_2023_a.Allocator.{k_block_size}
use prob_alimama_2023_a.Service.{Pc, Flight, add_slice, route, named, start_get}
use prob_alimama_2023_a.Service.Route.{route-each, route-weigh, route-covers, route-total, sum_of}
use prob_alimama_2023_a.Service.Dispatch.{as_request, Dispatched, dispatch-Dispatched}
use prob_alimama_2023_a.Service.Invariant.{all_num, ended_num, Inv}
use prob_alimama_2023_a.Service.Steps.{Known, Plan}

total_len-append : (xs ys : List SliceRequest) → total_len (xs ++ ys) ≡ total_len xs + total_len ys
total_len-append [] ys = omega arith
total_len-append (x ∷ xs) ys = omega (arith, total_len-append xs ys)

sum_of-len : (srs : List SliceRequest) → sum_of (λ sr. sr.data_len) srs ≡ total_len srs
sum_of-len [] = refl
sum_of-len (sr ∷ srs) = omega (arith, sum_of-len srs)

sum_of-one : (srs : List SliceRequest) → sum_of (λ sr. 1) srs ≡ length srs
sum_of-one [] = refl
sum_of-one (sr ∷ srs) = omega (arith, sum_of-one srs)

abbrev task_len : RequestTask → ℕ
task_len t = total_len (map as_request t.req_slice_list)

map-append_one :
    (sds : List SliceData) (sd : SliceData)
    → total_len (map as_request (sds ++ sd ∷ [])) ≡ total_len (map as_request sds) + sd.len
map-append_one [] sd = omega arith
map-append_one (x ∷ sds) sd = omega (arith, map-append_one sds sd)

module _ (api : SliceReader) (node_id node_num : ℕ) (nodes : ℕ → Readers api)
    (want : SliceRequest → Bytes) (node_of : ℕ → Option ℕ) where
  -- A request that the cluster can serve: its slices are good, fit one block together, and each
  -- goes to a node whose readers have its bytes.
  pub record Servable (srs : List SliceRequest) : Type 0 where
    pub good : All (Good want) srs
    pub fits : total_len srs ≤ k_block_size
    pub had :
        All
          (λ sr.
            (k : ℕ) × (node_of sr.slice_partition ≡ some k)
            × (k < node_num)
            × (serve api (nodes k) sr ≡ want sr))
          srs

  module _ (srs : List SliceRequest) (able : Servable srs) where
    pub placed : AllLocated (Placed want (join want srs) k_block_size) 0 srs
    placed =
        All-Placed want k_block_size (join want srs) [] 0 srs (omega arith) refl refl
          (omega (arith, able.fits)) able.good

    -- Each slice may be added to the task of the node that it is routed to.
    abbrev Adds : SliceRequest → SliceData → Type 0
    Adds sr sd =
        (k : ℕ) (t : RequestTask)
        → node_of sr.slice_partition ≡ some k
        → All (Known api node_id node_num nodes want (join want srs) k) t.req_slice_list
        → All (Known api node_id node_num nodes want (join want srs) k)
            (add_slice t sd).req_slice_list

    adds :
        (size : ℕ) (rest : List SliceRequest)
        → All (Good want) rest
        → All
            (λ sr.
              (k : ℕ) × (node_of sr.slice_partition ≡ some k)
              × (k < node_num)
              × (serve api (nodes k) sr ≡ want sr))
            rest
        → AllLocated (Placed want (join want srs) k_block_size) size rest
        → AllLocated Adds size rest
    unfolding add_slice
    adds size [] g h p = tt
    adds size (sr ∷ rest) (g, gs) ((k', found', lt, same), hs) (p, ps) = (
      (λ k t found old.
          All-append (Known api node_id node_num nodes want (join want srs) k) t.req_slice_list
            (locate sr size ∷ []) old
            (
              record {
                sr = sr;
                good = g;
                same = subst (λ j. serve api (nodes j) sr ≡ want sr) (node_eq found' found) same;
                placed = p;
              },
              tt,
            )),
      adds (add_size size sr.data_len) rest gs hs ps,
    )
      where
        node_eq : {o : Option ℕ} {a b : ℕ} → o ≡ some a → o ≡ some b → a ≡ b
        node_eq x y = cc

    grows :
        (size : ℕ) (rest : List SliceRequest)
        → AllLocated (Placed want (join want srs) k_block_size) size rest
        → AllLocated
            (λ sr sd. (t : RequestTask) → task_len (add_slice t sd) ≡ task_len t + sr.data_len)
            size
            rest
    unfolding add_slice
    grows size [] p = tt
    grows size (sr ∷ rest) (p, ps) = (
      (λ t. map-append_one t.req_slice_list (locate sr size) ∙ ap (λ n. task_len t + n) p.same_len),
      grows (add_size size sr.data_len) rest ps,
    )

    -- What `start_get` leaves behind.
    pub record Started (f : Flight) : Type 0 where
      pub tasks : ℕ → RequestTask
      pub plan : Plan api node_id node_num nodes want (join want srs) tasks
      pub inv : Inv node_id node_num k_block_size (join want srs) tasks f
      pub covers :
          (dst : Bytes)
          → ((k : ℕ) → k < node_num → All (Right (join want srs) dst) (tasks k).req_slice_list)
          → AllLocated (λ sr sd. Right (join want srs) dst sd) 0 srs

    routed-Plan :
        (name : Bytes) (tasks : ℕ → RequestTask) {size : ℕ}
        → route node_of node_num srs 0 (λ k. empty_task) ≡ some (tasks, size)
        → Plan api node_id node_num nodes want (join want srs) (named name tasks)
    unfolding add_slice
    routed-Plan name tasks e = record {
      counted =
          route-each node_of node_num (λ k t. t.num ≡ length t.req_slice_list) srs 0
            (λ k. empty_task) e counts (λ k. refl);
      known =
          route-each node_of node_num
            (λ k t. All (Known api node_id node_num nodes want (join want srs) k) t.req_slice_list)
            srs 0 (λ k. empty_task) e (adds 0 srs able.good able.had placed) (λ k. tt);
      fits = λ k lt. omega (
        arith,
        weight-le task_len node_num tasks k lt,
        route-weigh node_of node_num task_len (λ sr. sr.data_len) srs 0 (λ k. empty_task) e
            (grows 0 srs placed),
        weigh-eq-zero task_len node_num (λ k. empty_task) (λ _ _. refl),
        sum_of-len srs,
        able.fits,
      );
    }
      where
        Counts : ℕ → RequestTask → Type 0
        Counts k t = t.num ≡ length t.req_slice_list

        counts :
            AllLocated
              (λ sr sd.
                (k : ℕ) (t : RequestTask)
                → node_of sr.slice_partition ≡ some k
                → Counts k t
                → Counts k (add_slice t sd))
              0
              srs
        counts =
            AllLocated-of
              (λ sr sd.
                (k : ℕ) (t : RequestTask)
                → node_of sr.slice_partition ≡ some k
                → Counts k t
                → Counts k (add_slice t sd))
              (λ sr sd k t found h. omega (arith, length-append t.req_slice_list (sd ∷ []))) 0 srs

    started-Inv :
        (name block : Bytes) (req_no size : ℕ) (tasks : ℕ → RequestTask) (pcs : ℕ → Pc)
        → node_id < node_num
        → length block ≡ k_block_size
        → weigh (λ t. t.num) node_num tasks ≡ length srs
        → ((k : ℕ) → k < node_num → Dispatched node_id k (tasks k) (pcs k))
        → Inv node_id node_num k_block_size
            (join want srs)
            tasks
            (record { result = request_result req_no (length srs) size block; pc = pcs })
    unfolding request_result
    started-Inv name block req_no size tasks pcs me long all d = record {
      long = long;
      task = λ k lt. ground (arith, d k lt);
      each = λ k lt. ground (arith, d k lt);
      sent = λ k lt. ground (arith, d k lt);
      counted = omega arith;
      exact = inr (sym (weigh-eq-zero ended_num node_num pcs (λ k lt. ground (arith, d k lt))));
      finished = λ h. cc;
      settled = inr (inr (inr (ground (arith, d node_id me))));
      total =
          weigh-cong all_num (λ t. t.num) node_num pcs tasks (λ k lt. ground (arith, d k lt)) ∙ all;
    }

    routed-num :
        (name : Bytes) (tasks : ℕ → RequestTask) {size : ℕ}
        → route node_of node_num srs 0 (λ k. empty_task) ≡ some (tasks, size)
        → weigh (λ t. t.num) node_num (named name tasks) ≡ length srs
    unfolding add_slice
    routed-num name tasks e = omega (
      arith,
      weigh-cong (λ (t : RequestTask). t.num) (λ (t : RequestTask). t.num) node_num
          (named name tasks) tasks (λ k lt. refl),
      route-weigh node_of node_num (λ t. t.num) (λ sr. 1) srs 0 (λ k. empty_task) e
          (AllLocated-of (λ sr sd. (t : RequestTask) → (add_slice t sd).num ≡ t.num + 1)
            (λ sr sd t. refl) 0 srs),
      weigh-eq-zero (λ (t : RequestTask). t.num) node_num (λ k. empty_task) (λ _ _. refl),
      sum_of-one srs,
    )

    -- The code up to the wait runs without a fault.
    pub start_get-Started :
        (name block : Bytes) (req_no : ℕ)
        → node_id < node_num
        → length block ≡ k_block_size
        → (f : Flight) × (start_get node_of node_id node_num name block req_no srs ≡ some f)
          × Started f
    unfolding start_get
    start_get-Started name block req_no me long =
        let (tasks, size, routed) =
          route-total node_of node_num srs 0 (λ k. empty_task)
            (All-map (λ sr h. (h.0, h.1, h.2)) srs able.had) in
        let plan = routed-Plan name tasks routed in
        let (pcs, sent, d) = dispatch-Dispatched node_id node_num (named name tasks) plan.counted in
        (
          _,
          rw (routed, sent) refl,
          record {
            tasks = named name tasks;
            plan = plan;
            inv =
                started-Inv name block req_no size (named name tasks) pcs me long
                  (routed-num name tasks routed) d;
            covers = λ dst h.
                route-covers node_of node_num (Right (join want srs) dst) srs 0 (λ k. empty_task)
                  routed h;
          },
        )

    pub Started-of :
        {f : Flight} (name block : Bytes) (req_no : ℕ)
        → node_id < node_num
        → length block ≡ k_block_size
        → start_get node_of node_id node_num name block req_no srs ≡ some f
        → Started f
    Started-of {f} name block req_no me long e =
        let (f', e', s) = start_get-Started name block req_no me long in subst Started (same e' e) s
      where
        same : {o : Option Flight} {a b : Flight} → o ≡ some a → o ≡ some b → a ≡ b
        same x y = cc
