-- ===== src/Service/Dispatch.antt =====
-- code/src/model_service.cpp: what the dispatch loop makes of the tasks.
use prob_alimama_2023_a.Base.{
  ℕ, ℕ_discrete, zero, suc, ◌<◌, ◌≡◌, ◌≢◌, refl, sym, ap, subst, ite, ◌⊎◌, inl, inr, some, [], ◌∷◌,
  List, arith, length, map, dec_lt,
}
use prob_alimama_2023_a.Base.Threads.{update}
use prob_alimama_2023_a.Request.{SliceRequest, SliceData, RequestTask}
use prob_alimama_2023_a.Client.{slice_requests, push, message, nothing}
use prob_alimama_2023_a.Service.{Pc, unsent, outstanding, dispatch_one, dispatch}

-- The message entry for a slice.
abbrev pub as_request : SliceData → SliceRequest
as_request sd = record {
  slice_partition = sd.slice_partition;
  data_start = sd.start;
  data_len = sd.len;
}

pub slice_requests-map :
    (sds : List SliceData) → slice_requests (length sds) sds ≡ some (map as_request sds)
unfolding slice_requests
slice_requests-map [] = refl
slice_requests-map (sd ∷ sds) = rw (slice_requests-map sds)

pub push-some :
    (task : RequestTask)
    → task.num ≡ length task.req_slice_list
    → 0 < task.num
    → push task
      ≡ some (
          message (record {
            model_name = task.model_name;
            slice_request = map as_request task.req_slice_list;
          }))
unfolding push
push-some task e h = ground (
  arith,
  e,
  ap (λ (n : ℕ). slice_requests n task.req_slice_list) e,
  slice_requests-map task.req_slice_list,
)

pub push-none : (task : RequestTask) → task.num ≡ 0 → push task ≡ some nothing
unfolding push
push-none task e = ground arith

-- A task of another node is sent unless it is empty.
abbrev pub Dispatched : (node_id k : ℕ) → RequestTask → Pc → Type 0
Dispatched node_id k task pc =
    ((pc ≡ outstanding task) × ((k ≡ node_id) ⊎ (0 < task.num)))
    ⊎ ((pc ≡ unsent task) × (k ≢ node_id) × (task.num ≡ 0))

dispatch_one-Dispatched :
    (node_id k : ℕ) (task : RequestTask)
    → task.num ≡ length task.req_slice_list
    → (pc : Pc) × (dispatch_one node_id k task ≡ some pc) × Dispatched node_id k task pc
unfolding dispatch_one
dispatch_one-Dispatched node_id k task e = elim (ℕ_discrete k node_id) [
  | yes here ↦ (outstanding task, ground arith, inl (refl, inl here))
  | no other ↦ elim (dec_lt 0 task.num) [
    | yes some_slices ↦ (
      outstanding task,
      ground (arith, push-some task e some_slices),
      inl (refl, inr some_slices),
    )
    | no empty ↦
        (unsent task, ground (arith, push-none task (omega arith)), inr (refl, other, omega arith))
  ]
]

pub dispatch-Dispatched :
    (node_id n : ℕ) (tasks : ℕ → RequestTask)
    → ((k : ℕ) → (tasks k).num ≡ length (tasks k).req_slice_list)
    → (pcs : ℕ → Pc) × (dispatch node_id n tasks ≡ some pcs)
      × ((k : ℕ) → k < n → Dispatched node_id k (tasks k) (pcs k))
unfolding dispatch
dispatch-Dispatched node_id zero tasks counted = (_, refl, λ k h. elim h [ ])
dispatch-Dispatched node_id (suc n) tasks counted =
    let (pcs, e, all) = dispatch-Dispatched node_id n tasks counted in
    let (pc, d, last) = dispatch_one-Dispatched node_id n (tasks n) (counted n) in
    (update pcs n pc, ground (arith, e, d), λ k h. each pcs pc all last k h (ℕ_discrete k n))
  where
    each :
        (pcs : ℕ → Pc) (pc : Pc)
        → ((k : ℕ) → k < n → Dispatched node_id k (tasks k) (pcs k))
        → Dispatched node_id n (tasks n) pc
        → (k : ℕ) → k < suc n
        → (d : Dec (k ≡ n)) → Dispatched node_id k (tasks k) (ite d pc (pcs k))
    each pcs pc all last k h (yes same) =
        subst (λ j. Dispatched node_id j (tasks j) pc) (sym same) last
    each pcs pc all last k h (no other) = all k (omega arith)
