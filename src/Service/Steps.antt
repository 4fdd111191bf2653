-- ===== src/Service/Steps.antt =====
-- code/src/model_service.cpp: what each task that ends, at this node or at another, does to the
-- result.
use prob_alimama_2023_a.Base.{
  ℕ, ◌≤◌, ◌<◌, ◌≡◌, refl, sym, subst, ap, ◌∙◌, inl, inr, true, some, [], ◌∷◌, List, map, arith,
  dec_lt, length, length-map, All, All-map, Bytes,
}
use prob_alimama_2023_a.Request.{
  SliceRequest, SliceData, Response, InternalRequest, RequestTask, RequestResult, count_finished,
}
use prob_alimama_2023_a.Request.Copies.{Right, Follows, Follows-refl, Source}
use prob_alimama_2023_a.Request.Located.{Good, Placed, total_len}
use prob_alimama_2023_a.Handler.{SliceReader, Readers, process_task}
use prob_alimama_2023_a.Handler.Copies.{Served, process_task-Served}
use prob_alimama_2023_a.Client.{message, push, Reply, reply, copy_slices, handle_response}
use prob_alimama_2023_a.Client.Copies.{Answers, done, next, copy_slices-Answers}
use prob_alimama_2023_a.Internal.{internal_get}
use prob_alimama_2023_a.Internal.Answer.{serve, Placed-Served, internal_get-serve}
use prob_alimama_2023_a.Allocator.{k_block_size}
use prob_alimama_2023_a.Service.{
  outstanding, Flight, Replies, fails, answers, Step, local, remote, Reach, here, later,
}
use prob_alimama_2023_a.Service.Dispatch.{as_request, push-some, push-none}
use prob_alimama_2023_a.Service.Invariant.{task_of, Ends, Inv, Ends-Inv}

failed-Ends :
    (goal : Bytes) (task : RequestTask) (r : RequestResult)
    → Ends goal task r (record r { faild = true })
failed-Ends goal task r = record {
  same_req = refl;
  follows = Follows-refl goal r.bytes;
  effect = inl (refl, refl, refl);
}

counted-Ends :
    (goal dst : Bytes) (task : RequestTask) (r : RequestResult)
    → Follows goal r.bytes dst
    → All (Right goal dst) task.req_slice_list
    → Ends goal task r (count_finished task.num (record r { bytes = dst }))
unfolding count_finished
counted-Ends goal dst task r f a = record {
  same_req = refl;
  follows = f;
  effect = inr (a, refl, refl, refl);
}

some_eq : {x y : RequestResult} → some x ≡ some y → x ≡ y
some_eq h = cc

module _ (api : SliceReader) (node_id node_num : ℕ) (nodes : ℕ → Readers api)
    (want : SliceRequest → Bytes) (goal : Bytes) where
  -- A slice of node k: one of the request's, whose bytes that node's readers have.
  pub record Known (k : ℕ) (sd : SliceData) : Type 0 where
    pub sr : SliceRequest
    pub good : Good want sr
    pub same : serve api (nodes k) sr ≡ want sr
    pub placed : Placed want goal k_block_size sr sd

  pub record Plan (tasks : ℕ → RequestTask) : Type 0 where
    pub counted : (k : ℕ) → (tasks k).num ≡ length (tasks k).req_slice_list
    pub known : (k : ℕ) → All (Known k) (tasks k).req_slice_list
    pub fits :
        (k : ℕ) → k < node_num → total_len (map as_request (tasks k).req_slice_list) ≤ k_block_size

  as_request-Known : (k : ℕ) (sd : SliceData) (h : Known k sd) → as_request sd ≡ h.sr
  as_request-Known k sd h = ground (arith, h.placed)

  pub Known-Served :
      (k : ℕ) (sd : SliceData) → Known k sd → Served api (nodes k) goal k_block_size sd
  Known-Served k sd h = Placed-Served api (nodes k) h.sr sd h.good h.same h.placed

  pub All-Good :
      (k : ℕ) (sds : List SliceData) → All (Known k) sds → All (Good want) (map as_request sds)
  All-Good k [] h = tt
  All-Good k (sd ∷ sds) (h, hs) =
      (subst (Good want) (sym (as_request-Known k sd h)) h.good, All-Good k sds hs)

  pub All-same :
      (k : ℕ) (sds : List SliceData)
      → All (Known k) sds
      → All (λ sr. serve api (nodes k) sr ≡ want sr) (map as_request sds)
  All-same k [] h = tt
  All-same k (sd ∷ sds) (h, hs) = (
    subst (λ sr. serve api (nodes k) sr ≡ want sr) (sym (as_request-Known k sd h)) h.same,
    All-same k sds hs,
  )

  All-Answers :
      (k : ℕ) (sds : List SliceData)
      → All (Known k) sds
      → Answers goal k_block_size sds (map want (map as_request sds))
  All-Answers k [] h = done
  All-Answers k (sd ∷ sds) (h, hs) =
      next (subst (λ sr. Source goal sd (want sr)) (sym (as_request-Known k sd h)) h.placed.source)
        h.placed.inside (All-Answers k sds hs)

  -- The answer of node k to a task of the plan.
  pub answer-wanted :
      (k : ℕ) (task : RequestTask) (block buf : Bytes) (req_no : ℕ) {req : InternalRequest}
      {resp : Response}
      → length block ≡ k_block_size
      → length buf ≡ 128
      → push task ≡ some (message req)
      → internal_get api (nodes k) block buf req_no req ≡ some resp
      → task.num ≡ length task.req_slice_list
      → All (Known k) task.req_slice_list
      → total_len (map as_request task.req_slice_list) ≤ k_block_size
      → resp ≡ record { status = 0; slice_data = map want (map as_request task.req_slice_list) }
  answer-wanted k task block buf req_no {req} {resp} long full sent got counted known fits =
      elim (dec_lt 0 task.num) [
        | no empty ↦ absurd (ground (arith, push-none task (omega arith)))
        | yes more ↦
            let sds = task.req_slice_list in
            let asked : InternalRequest = record {
              model_name = task.model_name;
              slice_request = map as_request sds;
            } in
            let served =
              internal_get-serve api (nodes k) want block buf req_no asked full
                (omega (arith, long)) (omega (arith, long)) (All-Good k sds known)
                (All-same k sds known) in
            ground (
              arith,
              push-some task counted more,
              ap (internal_get api (nodes k) block buf req_no)
                  (sent_eq asked (sym (push-some task counted more) ∙ sent)),
              served,
            )
      ]
    where
      sent_eq : (asked : InternalRequest) → some (message asked) ≡ some (message req) → asked ≡ req
      sent_eq asked h = cc

  serve-Ends :
      (k : ℕ) (task : RequestTask) (buf : Bytes) (r : RequestResult) {r' : RequestResult}
      → length buf ≡ 128
      → length r.bytes ≡ k_block_size
      → task.num ≡ length task.req_slice_list
      → All (Known k) task.req_slice_list
      → process_task api (nodes k) buf task r ≡ some r'
      → Ends goal task r r'
  serve-Ends k task buf r full long counted known e =
      let (dst, ran, f, a) =
        process_task-Served api (nodes k) task r buf full long counted
          (All-map (Known-Served k) task.req_slice_list known) in
      subst (Ends goal task r) (some_eq (sym ran ∙ e)) (counted-Ends goal dst task r f a)

  -- A good answer is copied, and counted.
  pub handle_response-wanted :
      (k : ℕ) (task : RequestTask) (status : ℕ) (r : RequestResult)
      → length r.bytes ≡ k_block_size
      → task.num ≡ length task.req_slice_list
      → All (Known k) task.req_slice_list
      → (dst : Bytes) × (handle_response task
            (reply (record {
              status = status;
              slice_data = map want (map as_request task.req_slice_list);
            }))
            r
          ≡ some (count_finished task.num (record r { bytes = dst })))
        × Follows goal r.bytes dst
        × All (Right goal dst) task.req_slice_list
  unfolding handle_response
  handle_response-wanted k task status r long counted known =
      let sds = task.req_slice_list in
      let pieces = map want (map as_request sds) in
      let many : length pieces ≡ task.num =
        length-map (map as_request sds) want ∙ length-map sds as_request ∙ sym counted in
      let (dst, ran, f, a) = copy_slices-Answers r.bytes long (All-Answers k sds known) in
      (
        dst,
        ground (arith, many, ap (λ (m : ℕ). copy_slices m sds pieces r.bytes) counted, ran),
        f,
        a,
      )

  answer-Ends :
      (k : ℕ) (task : RequestTask) (r : RequestResult) {p : Reply} {r' : RequestResult}
      → length r.bytes ≡ k_block_size
      → task.num ≡ length task.req_slice_list
      → All (Known k) task.req_slice_list
      → total_len (map as_request task.req_slice_list) ≤ k_block_size
      → Replies api node_id node_num nodes k task p
      → handle_response task p r ≡ some r'
      → Ends goal task r r'
  unfolding handle_response
  answer-Ends k task r long counted known fits fails e =
      subst (Ends goal task r) (some_eq e) (failed-Ends goal task r)
  answer-Ends k task r long counted known fits
        (answers block buf req_no {resp = resp} wide full sent got) e =
      let wanted = answer-wanted k task block buf req_no wide full sent got counted known fits in
      let (dst, ran, f, a) = handle_response-wanted k task 0 r long counted known in
      subst (Ends goal task r)
        (some_eq (sym ran ∙ ap (λ x. handle_response task (reply x) r) (sym wanted) ∙ e))
        (counted-Ends goal dst task r f a)

  module _ {tasks : ℕ → RequestTask} {f : Flight} {task : RequestTask} (k : ℕ) (plan : Plan tasks)
      (lt : k < node_num) (out : f.pc k ≡ outstanding task)
      (v : Inv node_id node_num k_block_size goal tasks f) where
    -- An outstanding task is the one that was planned.
    planned : tasks k ≡ task
    planned = sym (v.task k lt) ∙ ap task_of out

    pub planned_counted : task.num ≡ length task.req_slice_list
    planned_counted = subst (λ t. t.num ≡ length t.req_slice_list) planned (plan.counted k)

    pub planned-Known : All (Known k) task.req_slice_list
    planned-Known =
        subst (λ (t : RequestTask). All (Known k) t.req_slice_list) planned (plan.known k)

    pub planned_fits : total_len (map as_request task.req_slice_list) ≤ k_block_size
    planned_fits =
        subst (λ (t : RequestTask). total_len (map as_request t.req_slice_list) ≤ k_block_size)
          planned (plan.fits k lt)

  -- Every step keeps the invariant.
  pub Step-Inv :
      {tasks : ℕ → RequestTask} {f g : Flight}
      → Plan tasks
      → Step api node_id node_num nodes f g
      → Inv node_id node_num k_block_size goal tasks f
      → Inv node_id node_num k_block_size goal tasks g
  Step-Inv {f = f} plan (local buf {task} full lt out e) v = Ends-Inv node_id v lt out (
      serve-Ends node_id task buf f.result full v.long (planned_counted node_id plan lt out v)
        (planned-Known node_id plan lt out v) e)
  Step-Inv {f = f} plan (remote k {task} lt other out p e) v = Ends-Inv k v lt out (
      answer-Ends k task f.result v.long (planned_counted k plan lt out v)
        (planned-Known k plan lt out v) (planned_fits k plan lt out v) p e)

  pub Reach-Inv :
      {tasks : ℕ → RequestTask} {f g : Flight}
      → Plan tasks
      → Reach api node_id node_num nodes f g
      → Inv node_id node_num k_block_size goal tasks f
      → Inv node_id node_num k_block_size goal tasks g
  Reach-Inv plan here v = v
  Reach-Inv plan (later r st) v = Step-Inv plan st (Reach-Inv plan r v)
