-- ===== src/Workers.antt =====
-- code/src/model_hander.cpp: the queue of a ModelHander and its reader threads (`start`, `Push`,
-- the destructor), for any type of task. What a thread does with a task is `process_task` of
-- Handler.
mod Tasks
mod Drain
mod Examples
use prob_alimama_2023_a.Base.{
  ℕ, ◌<◌, ◌≡◌, Bool, true, false, Option, none, some, List, [], ◌∷◌, ◌++◌,
}
use prob_alimama_2023_a.Base.Threads.{update}

-- A reader thread: before its wait, with a task that it has taken off the queue, or gone.
pub data Pc {ℓ} (A : Type ℓ) : Type ℓ where
  waiting exited : Pc A
  working : A → Pc A

pub record Pool {ℓ} (A : Type ℓ) : Type ℓ where
  pub is_stop : Bool
  pub request_queues : List A
  pub reader_threads : ℕ → Pc A
  -- what has been pushed and what has been processed, in order
  pub pushed : List A
  pub finished : List A

module _ {ℓ} {A : Type ℓ} where
  -- `is_stop_ || !request_queues.empty()`, and what the thread does then; `none` is the wait.
  unfoldable pub wake : Bool → List A → Option (Pc A × List A)
  wake true queue = some (exited, queue)
  wake false [] = none
  wake false (task ∷ rest) = some (working task, rest)

  unfoldable pub push : A → Pool A → Pool A
  push task s = record s {
    request_queues = s.request_queues ++ task ∷ [];
    pushed = s.pushed ++ task ∷ [];
  }

  -- The first part of the destructor; it then joins the threads.
  unfoldable pub stop : Pool A → Pool A
  stop s = record s { is_stop = true }

  -- `ModelHander` and `start`: no task, and every thread before its first wait.
  unfoldable pub start : Pool A
  start = record {
    is_stop = false;
    request_queues = [];
    reader_threads = λ _. waiting;
    pushed = [];
    finished = [];
  }

  -- One locked piece of a call or of one of the `n_thread` threads.
  pub data Step (n_thread : ℕ) (s : Pool A) : Pool A → Type ℓ where
    pushes : (task : A) → Step n_thread s (push task s)
    wakes :
        (i : ℕ) {p : Pc A} {rest : List A}
        → i < n_thread
        → s.reader_threads i ≡ waiting
        → wake s.is_stop s.request_queues ≡ some (p, rest)
        → Step n_thread s
            (record s { request_queues = rest; reader_threads = update s.reader_threads i p })
    finishes :
        (i : ℕ) {task : A}
        → i < n_thread
        → s.reader_threads i ≡ working task
        → Step n_thread s (record s {
          reader_threads = update s.reader_threads i waiting;
          finished = s.finished ++ task ∷ [];
        })
    stops : Step n_thread s (stop s)

  pub data Reach (n_thread : ℕ) (s : Pool A) : Pool A → Type ℓ where
    here : Reach n_thread s s
    later : {t u : Pool A} → Reach n_thread s t → Step n_thread t u → Reach n_thread s u
