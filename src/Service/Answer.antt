-- ===== src/Service/Answer.antt =====
-- code/src/model_service.cpp: what a client gets from `Get`.
use prob_alimama_2023_a.Base.{
  ℕ, ◌≤◌, ◌<◌, ◌≡◌, subst, ap, ◌⊎◌, inl, inr, true, false, Option, some, [], ◌∷◌, List, map, arith,
  length, All, Bytes, Bool-cases,
}
use prob_alimama_2023_a.Base.Threads.{weigh_squeeze}
use prob_alimama_2023_a.Request.{
  SliceRequest, SliceData, minus_one, RequestTask, RequestResult, wait,
}
use prob_alimama_2023_a.Request.Copies.{Right}
use prob_alimama_2023_a.Request.Located.{join}
use prob_alimama_2023_a.Handler.{SliceReader, Readers}
use prob_alimama_2023_a.Internal.{respond, assemble}
use prob_alimama_2023_a.Internal.Answer.{assemble-Right}
use prob_alimama_2023_a.Allocator.{k_block_size}
use prob_alimama_2023_a.Service.{Pc, unsent, outstanding, ended, Flight, start_get, Reach}
use prob_alimama_2023_a.Service.Invariant.{task_of, all_num, ended_num, PcInv, Inv}
use prob_alimama_2023_a.Service.Steps.{Reach-Inv}
use prob_alimama_2023_a.Service.Plan.{Servable, Started, Started-of, placed}

ended-le-all : (pc : Pc) → ended_num pc ≤ all_num pc
ended-le-all pc = ground arith

-- The answers of `respond`, by the two flags.
respond_failed :
    (srs : List SliceRequest) (r : RequestResult)
    → r.faild ≡ true
    → respond srs r ≡ some (record { status = minus_one; slice_data = [] })
unfolding respond
respond_failed srs r e = rw e

respond_pieces :
    (srs : List SliceRequest) (r : RequestResult) {pieces : List Bytes}
    → r.faild ≡ false
    → assemble r.bytes 0 srs ≡ some pieces
    → respond srs r ≡ some (record { status = 0; slice_data = pieces })
unfolding respond
respond_pieces srs r e a = ground arith

pub wait_cases :
    (r : RequestResult) {done : RequestResult}
    → wait r ≡ some done
    → (r ≡ done) × ((r.faild ≡ true) ⊎ (r.finish ≡ true))
unfolding wait
wait_cases r e = ground arith

module _ {node_id node_num n : ℕ} {goal : Bytes} {tasks : ℕ → RequestTask} {f : Flight}
    (plan : (k : ℕ) → (tasks k).num ≡ length (tasks k).req_slice_list)
    (v : Inv node_id node_num n goal tasks f) (calm : f.result.faild ≡ false)
    (fin : f.result.req_num ≤ f.result.finish_num) where
  none_left : (k : ℕ) → k < node_num → all_num (f.pc k) ≤ ended_num (f.pc k)
  none_left =
      weigh_squeeze ended_num all_num ended-le-all node_num f.pc
        (omega (arith, v.total, v.counted, fin))

  -- When all slices are counted and nothing failed, the part of every slice is right.
  pub All-Right : (k : ℕ) → k < node_num → All (Right goal f.result.bytes) (tasks k).req_slice_list
  All-Right k lt = by_pc (f.pc k) (v.task k lt) (v.each k lt) (none_left k lt)
    where
      empty :
          (t : RequestTask)
          → t ≡ tasks k
          → t.num ≡ 0
          → All (Right goal f.result.bytes) (tasks k).req_slice_list
      empty t e z =
          none (tasks k).req_slice_list (omega (arith, plan k, ap (λ (s : RequestTask). s.num) e))
        where
          none : (sds : List SliceData) → length sds ≡ 0 → All (Right goal f.result.bytes) sds
          none [] h = tt
          none (sd ∷ sds) h = absurd (omega arith)

      by_pc :
          (pc : Pc)
          → task_of pc ≡ tasks k
          → PcInv goal f.result pc
          → all_num pc ≤ ended_num pc
          → All (Right goal f.result.bytes) (tasks k).req_slice_list
      by_pc (unsent t) e h le = empty t e h
      by_pc (outstanding t) e h le = empty t e (omega arith)
      by_pc (ended t) e (inl a) le =
          subst (λ (s : RequestTask). All (Right goal f.result.bytes) s.req_slice_list) e a
      by_pc (ended t) e (inr bad) le = cc

module _ (api : SliceReader) (node_id node_num : ℕ) (nodes : ℕ → Readers api)
    (want : SliceRequest → Bytes) (node_of : ℕ → Option ℕ) (srs : List SliceRequest)
    (able : Servable api node_id node_num nodes want node_of srs) where
  pub finished-answer :
      {f g : Flight}
      → Started api node_id node_num nodes want node_of srs able f
      → Reach api node_id node_num nodes f g
      → g.result.faild ≡ false
      → g.result.finish ≡ true
      → respond srs g.result ≡ some (record { status = 0; slice_data = map want srs })
  finished-answer {f} {g} s r calm fin =
      let v = Reach-Inv api node_id node_num nodes want (join want srs) s.plan r s.inv in
      let right = All-Right s.plan.counted v calm (v.finished fin) in
      respond_pieces srs g.result calm (
        assemble-Right want (join want srs) g.result.bytes k_block_size 0 srs (omega arith) v.long
          (placed api node_id node_num nodes want node_of srs able) (s.covers g.result.bytes right))

  -- For a request that the cluster can serve, from a node whose number is below `node_num` and with
  -- a block of the allocator's size: whatever the order in which the tasks end, and whichever calls
  -- to other nodes fail, when the wait of `Get` ends the response either has status 0 and exactly
  -- the bytes of every slice, in the order of the request, or has status -1 and no data, the latter
  -- only if the result was marked as failed.
  pub get-answer :
      {f g : Flight} {done : RequestResult} (name block : Bytes) (req_no : ℕ)
      → node_id < node_num
      → length block ≡ k_block_size
      → start_get node_of node_id node_num name block req_no srs ≡ some f
      → Reach api node_id node_num nodes f g
      → wait g.result ≡ some done
      → (done.faild ≡ false)
          × (respond srs done ≡ some (record { status = 0; slice_data = map want srs }))
        ⊎ (done.faild ≡ true)
          × (respond srs done ≡ some (record { status = minus_one; slice_data = [] }))
  get-answer {f} {g} {done} name block req_no me long e r w =
      let s =
        Started-of api node_id node_num nodes want node_of srs able name block req_no me long e in
      let (same, ends) = wait_cases g.result w in
      subst Answered same (answered s r ends (Bool-cases g.result.faild))
    where
      Answered : RequestResult → Type 0
      Answered x =
          (x.faild ≡ false)
            × (respond srs x ≡ some (record { status = 0; slice_data = map want srs }))
          ⊎ (x.faild ≡ true)
            × (respond srs x ≡ some (record { status = minus_one; slice_data = [] }))

      answered :
          Started api node_id node_num nodes want node_of srs able f
          → Reach api node_id node_num nodes f g
          → (g.result.faild ≡ true) ⊎ (g.result.finish ≡ true)
          → (g.result.faild ≡ true) ⊎ (g.result.faild ≡ false)
          → Answered g.result
      answered s r ends (inl bad) = inr (bad, respond_failed srs g.result bad)
      answered s r (inl bad) (inr calm) = cc
      answered s r (inr fin) (inr calm) = inl (calm, finished-answer s r calm fin)
