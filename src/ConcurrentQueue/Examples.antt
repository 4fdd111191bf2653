-- ===== src/ConcurrentQueue/Examples.antt =====
-- testbench/concurent_queue.h: the theorems at a queue of capacity 2.
use prob_alimama_2023_a.Base.{ℕ, ◌≤◌, ◌≡◌, refl, false, ◌⊎◌, [], ◌∷◌, ◌++◌, length}
use prob_alimama_2023_a.ConcurrentQueue.{
  push_back, wait_and_pop, concurrent_queue, Traffic, pushes, pops, Reach, here, later, fresh,
}
use prob_alimama_2023_a.ConcurrentQueue.Order.{queue_order}

abbrev two_pushed : Traffic ℕ
two_pushed = record {
  queue = record { q = 5 ∷ []; capacity = 2; is_closed = false };
  pushed = 4 ∷ 5 ∷ [];
  popped = 4 ∷ [];
}

two_pushed-Reach : Reach (fresh 2) two_pushed
unfolding push_back wait_and_pop concurrent_queue
two_pushed-Reach = later (later (later here (pushes 4 refl)) (pushes 5 refl)) (pops refl)

queue_order_example :
    (two_pushed.pushed ≡ two_pushed.popped ++ two_pushed.queue.q)
    × (◌≡◌ {A = ℕ} 2 0 ⊎ (length two_pushed.queue.q ≤ 2))
queue_order_example = queue_order 2 two_pushed two_pushed-Reach
