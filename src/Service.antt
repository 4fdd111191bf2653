-- ===== src/Service.antt =====
-- code/src/model_service.cpp: `Get` of the service that clients call, cut where other threads act.
-- `start_get` is the code up to the wait; while it waits, the tasks of the request end one by one
-- in any order (`Step`), each by the code of the thread that serves it; `wait` and `respond`, which
-- the two services share, are the rest. A stub for each other node is there: `init` ends only then.
pub mod Route
pub mod Dispatch
pub mod Invariant
pub mod Steps
pub mod Plan
pub mod Answer
pub mod Progress
mod Examples
use prob_alimama_2023_a.Base.{
  ℕ, zero, suc, ◌+◌, ◌<◌, ◌≡◌, ◌≢◌, Option, none, some, ◌>>=◌, List, [], ◌∷◌, ◌++◌, ltb, ◌==◌,
  if◌then◌else◌, length, Bytes,
}
use prob_alimama_2023_a.Base.Threads.{update}
use prob_alimama_2023_a.Request.{
  SliceRequest, Response, InternalRequest, SliceData, RequestTask, empty_task, RequestResult,
  request_result, locate, add_size,
}
use prob_alimama_2023_a.Handler.{SliceReader, Readers, process_task}
use prob_alimama_2023_a.Client.{
  Sent, nothing, message, push, Reply, rpc_error, reply, handle_response,
}
use prob_alimama_2023_a.Internal.{internal_get}
use prob_alimama_2023_a.Allocator.{k_block_size}

-- `requestList[node_idx].req_slice_list.emplace_back(rd); requestList[node_idx].num++`
pub add_slice : RequestTask → SliceData → RequestTask
add_slice task sd = record task {
  num = task.num + 1;
  req_slice_list = task.req_slice_list ++ sd ∷ [];
}

-- The first loop. `node_of` is `getNodeForSlice`; an index outside the vector is a fault.
pub route :
    (node_of : ℕ → Option ℕ) (node_num : ℕ)
    → List SliceRequest
    → (size : ℕ) → (ℕ → RequestTask)
    → Option ((ℕ → RequestTask) × ℕ)
unfolding add_slice
route node_of node_num [] size tasks = some (tasks, size)
route node_of node_num (sr ∷ srs) size tasks = do
  node ← node_of sr.slice_partition
  let tasks' = update tasks node (add_slice (tasks node) (locate sr size))
  let rest = route node_of node_num srs (add_size size sr.data_len) tasks'
  if ltb node node_num then rest else none

-- A task of the request: not sent since it is empty, with a reader thread or a call, or ended.
pub data Pc : Type 0 where
  unsent outstanding ended : RequestTask → Pc

-- `Push` of the handler, or of the stub.
pub dispatch_one : (node_id node_idx : ℕ) → RequestTask → Option Pc
dispatch_one node_id node_idx task = if node_idx == node_id then some (outstanding task) else (do
  sent ← push task
  elim sent [ nothing ↦ some (unsent task) | message m ↦ some (outstanding task) ])

-- The loop over the first `n` nodes.
pub dispatch : (node_id n : ℕ) → (ℕ → RequestTask) → Option (ℕ → Pc)
unfolding dispatch_one
dispatch node_id zero tasks = some (λ k. unsent empty_task)
dispatch node_id (suc n) tasks = do
  pcs ← dispatch node_id n tasks
  pc ← dispatch_one node_id n (tasks n)
  some (update pcs n pc)

pub record Flight : Type 0 where
  pub result : RequestResult
  pub pc : ℕ → Pc

-- The tasks with the model's name.
abbrev pub named : Bytes → (ℕ → RequestTask) → ℕ → RequestTask
named name tasks k = record (tasks k) { model_name = name }

pub start_get :
    (node_of : ℕ → Option ℕ) (node_id node_num : ℕ) (name block : Bytes) (req_no : ℕ)
    → List SliceRequest
    → Option Flight
unfolding route dispatch
start_get node_of node_id node_num name block req_no srs = do
  (tasks, size) ← route node_of node_num srs 0 (λ k. empty_task)
  pcs ← dispatch node_id node_num (named name tasks)
  some (record { result = request_result req_no (length srs) size block; pc = pcs })

-- The readers of each node, for the model that the request is about.
module _ (api : SliceReader) (node_id node_num : ℕ) (nodes : ℕ → Readers api) where
  -- How a call to node `k` may end: in an error at any time, or in what that node's service
  -- answers.
  pub data Replies (k : ℕ) (task : RequestTask) : Reply → Type 0 where
    fails : Replies k task rpc_error
    answers :
        (block buf : Bytes) (req_no : ℕ) {req : InternalRequest} {resp : Response}
        → length block ≡ k_block_size
        → length buf ≡ 128
        → push task ≡ some (message req)
        → internal_get api (nodes k) block buf req_no req ≡ some resp
        → Replies k task (reply resp)

  -- One task ends: that of this node in `processTask`, another in `HandleResponse`.
  pub data Step (f : Flight) : Flight → Type 0 where
    local :
        (buf : Bytes) {task : RequestTask} {r : RequestResult}
        → length buf ≡ 128
        → node_id < node_num
        → f.pc node_id ≡ outstanding task
        → process_task api (nodes node_id) buf task f.result ≡ some r
        → Step f (record { result = r; pc = update f.pc node_id (ended task) })
    remote :
        (k : ℕ) {task : RequestTask} {p : Reply} {r : RequestResult}
        → k < node_num
        → k ≢ node_id
        → f.pc k ≡ outstanding task
        → Replies k task p
        → handle_response task p f.result ≡ some r
        → Step f (record { result = r; pc = update f.pc k (ended task) })

  pub data Reach (f : Flight) : Flight → Type 0 where
    here : Reach f f
    later : {g h : Flight} → Reach f g → Step g h → Reach f h
