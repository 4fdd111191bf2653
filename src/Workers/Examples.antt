-- ===== src/Workers/Examples.antt =====
-- code/src/model_hander.cpp: one thread with two tasks.
use prob_alimama_2023_a.Base.{ℕ, ◌+◌, ◌≡◌, refl, [], ◌∷◌, arith}
use prob_alimama_2023_a.Base.Threads.{update, weigh}
use prob_alimama_2023_a.Workers.{
  Pool, working, wake, push, stop, start, pushes, wakes, Reach, here, later,
}
use prob_alimama_2023_a.Workers.Tasks.{total, in_hand, tasks_accounted, Stranded, Reach-Stranded}
use prob_alimama_2023_a.Workers.Drain.{pool_drains}

abbrev two_tasks : Pool ℕ
two_tasks = push 6 (push 7 start)

-- The thread has taken the first task.
abbrev one_taken : Pool ℕ
one_taken = record two_tasks {
  request_queues = 6 ∷ [];
  reader_threads = update two_tasks.reader_threads 0 (working 7);
}

one_taken-Reach : Reach 1 start one_taken
unfolding wake push start
one_taken-Reach = later (later (later here (pushes 7)) (pushes 6)) (wakes 0 (omega arith) refl refl)

tasks_accounted_example :
    total (λ n. n) one_taken.pushed
    ≡ total (λ n. n) one_taken.request_queues
      + weigh (in_hand (λ n. n)) 1 one_taken.reader_threads
      + total (λ n. n) one_taken.finished
tasks_accounted_example = tasks_accounted (λ n. n) one_taken-Reach

pool_drains_example :
    (t : Pool ℕ) × Reach 1 one_taken t
    × (t.pushed ≡ one_taken.pushed)
    × ((measure : ℕ → ℕ) → total measure t.finished ≡ total measure one_taken.pushed)
unfolding push start
pool_drains_example = pool_drains (omega arith) one_taken-Reach refl

Reach-Stranded_example : Stranded (stop one_taken) (push 5 (stop one_taken))
unfolding stop
Reach-Stranded_example = Reach-Stranded {n = 1} refl (later here (pushes 5))
