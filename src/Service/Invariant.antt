-- ===== src/Service/Invariant.antt =====
-- code/src/model_service.cpp: what the state of a request looks like while its tasks end one after
-- another.
use prob_alimama_2023_a.Base.{
  ℕ, ℕ_discrete, ◌+◌, ◌≤◌, ◌<◌, ◌≡◌, ap, ite, ◌∙◌, ◌⊎◌, inl, inr, Bool, true, false, arith, length,
  All, All-map, Bytes, leb, if◌then◌else◌,
}
use prob_alimama_2023_a.Base.Threads.{update, weigh, weigh-update}
use prob_alimama_2023_a.Request.{RequestTask, RequestResult}
use prob_alimama_2023_a.Request.Copies.{Right, Follows, Right-Follows}
use prob_alimama_2023_a.Service.{Pc, unsent, outstanding, ended, Flight}

abbrev pub task_of : Pc → RequestTask
task_of (unsent t) = t
task_of (outstanding t) = t
task_of (ended t) = t

abbrev pub all_num : Pc → ℕ
all_num pc = (task_of pc).num

abbrev pub ended_num : Pc → ℕ
ended_num (ended t) = t.num
ended_num _ = 0

abbrev pub is_outstanding : Pc → Bool
is_outstanding (outstanding _) = true
is_outstanding _ = false

-- How a task changes the result: it is marked as failed, or all its parts are made right and it is
-- counted.
pub record Ends (goal : Bytes) (task : RequestTask) (r r' : RequestResult) : Type 0 where
  pub same_req : r'.req_num ≡ r.req_num
  pub follows : Follows goal r.bytes r'.bytes
  pub effect :
      ((r'.faild ≡ true) × (r'.finish_num ≡ r.finish_num) × (r'.finish ≡ r.finish))
      ⊎ (All (Right goal r'.bytes) task.req_slice_list
          × (r'.faild ≡ r.faild)
          × (r'.finish_num ≡ r.finish_num + task.num)
          × (r'.finish ≡ (if leb r.req_num (r.finish_num + task.num) then true else r.finish)))

abbrev pub PcInv : Bytes → RequestResult → Pc → Type 0
PcInv goal r (unsent t) = t.num ≡ 0
PcInv goal r (outstanding t) = Unit
PcInv goal r (ended t) = All (Right goal r.bytes) t.req_slice_list ⊎ (r.faild ≡ true)

-- Only a task with slices is sent to another node.
abbrev pub Sent : (node_id k : ℕ) → Pc → Type 0
Sent node_id k (outstanding t) = (k ≡ node_id) ⊎ (0 < t.num)
Sent node_id k _ = Unit

pub record Inv (node_id node_num n : ℕ) (goal : Bytes) (tasks : ℕ → RequestTask) (f : Flight)
    : Type 0 where
  pub long : length f.result.bytes ≡ n
  pub task : (k : ℕ) → k < node_num → task_of (f.pc k) ≡ tasks k
  pub each : (k : ℕ) → k < node_num → PcInv goal f.result (f.pc k)
  pub sent : (k : ℕ) → k < node_num → Sent node_id k (f.pc k)
  pub counted : f.result.finish_num ≤ weigh ended_num node_num f.pc
  pub exact : (f.result.faild ≡ true) ⊎ (f.result.finish_num ≡ weigh ended_num node_num f.pc)
  pub finished : f.result.finish ≡ true → f.result.req_num ≤ f.result.finish_num
  pub settled :
      (f.result.faild ≡ true)
      ⊎ (f.result.finish ≡ true)
      ⊎ (f.result.finish_num < f.result.req_num)
      ⊎ (is_outstanding (f.pc node_id) ≡ true)
  pub total : weigh all_num node_num f.pc ≡ f.result.req_num

module _ {node_id node_num n : ℕ} {goal : Bytes} {tasks : ℕ → RequestTask} {f : Flight}
    {task : RequestTask} {r : RequestResult} (k : ℕ) (v : Inv node_id node_num n goal tasks f)
    (lt : k < node_num) (out : f.pc k ≡ outstanding task) (e : Ends goal task f.result r) where
  abbrev next_pc : ℕ → Pc
  next_pc = update f.pc k (ended task)

  ends_task :
      (j : ℕ) → j < node_num → (d : Dec (j ≡ k)) → task_of (ite d (ended task) (f.pc j)) ≡ tasks j
  ends_task j h (yes same) = ground (arith, v.task j h, same, ap f.pc same, out)
  ends_task j h (no other) = v.task j h

  old_each : (pc : Pc) → PcInv goal f.result pc → PcInv goal r pc
  old_each (unsent t) h = h
  old_each (outstanding t) h = tt
  old_each (ended t) (inl a) =
      inl
        (All-map (λ sd. Right-Follows goal f.result.bytes r.bytes sd e.follows) t.req_slice_list a)
  old_each (ended t) (inr a) = inr (ground (arith, e.effect))

  new_each : PcInv goal r (ended task)
  new_each = ground (arith, e.effect)

  ends_each :
      (j : ℕ) → j < node_num → (d : Dec (j ≡ k)) → PcInv goal r (ite d (ended task) (f.pc j))
  ends_each j h (yes same) = new_each
  ends_each j h (no other) = old_each (f.pc j) (v.each j h)

  ends_sent :
      (j : ℕ) → j < node_num → (d : Dec (j ≡ k)) → Sent node_id j (ite d (ended task) (f.pc j))
  ends_sent j h (yes same) = tt
  ends_sent j h (no other) = v.sent j h

  ended_more : weigh ended_num node_num next_pc ≡ weigh ended_num node_num f.pc + task.num
  ended_more = ground (arith, weigh-update ended_num node_num f.pc k (ended task) lt)

  pub Ends-Inv : Inv node_id node_num n goal tasks (record { result = r; pc = next_pc })
  Ends-Inv = record {
    long = e.follows.same_length ∙ v.long;
    task = λ j h. ends_task j h (ℕ_discrete j k);
    each = λ j h. ends_each j h (ℕ_discrete j k);
    sent = λ j h. ends_sent j h (ℕ_discrete j k);
    counted = ground (arith, e.effect, ended_more, v.counted);
    exact = ground (arith, e.effect, ended_more, v.exact);
    finished = λ h. ground (arith, e.effect, e.same_req, v.finished);
    settled = ground (arith, e.effect, e.same_req, v.settled);
    total =
        ground (arith, weigh-update all_num node_num f.pc k (ended task) lt, v.total, e.same_req);
  }
