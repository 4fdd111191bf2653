-- ===== src/Allocator/Examples.antt =====
-- code/src/memory_allocator.cpp: the allocator with one and two requests.
use prob_alimama_2023_a.Base.{ℕ, ℕ_discrete, ◌+◌, ◌*◌, ◌-◌, ◌≤◌, ◌≡◌, refl, inl, [], arith, length}
use prob_alimama_2023_a.Base.Threads.{update, weigh}
use prob_alimama_2023_a.Allocator.{
  max_limit, k_block_size, idle, waiting, growing, holding, init, advance, Pool, pick, Reach, here,
  later, start,
}
use prob_alimama_2023_a.Allocator.Limit.{use_memory_bound, limit_exceeded}
use prob_alimama_2023_a.Allocator.Ownership.{
  count, held, leaks, holding_unique, blocks_accounted, Exhausted, Reach-Exhausted,
}

-- One request takes a block.
abbrev taken : Pool
taken = record {
  mem = record { use_memory = k_block_size; memory_list = []; next_block = 1 };
  pc = update (update (λ _. idle) 0 growing) 0 (holding 0);
}

Reach-taken : Reach 1 start taken
unfolding advance init ℕ_discrete
Reach-taken = later (later here (pick 0 (omega arith) refl)) (pick 0 (omega arith) refl)

use_memory_bound_example :
    (taken.mem.use_memory ≡ k_block_size * taken.mem.next_block)
    × (taken.mem.use_memory + k_block_size ≤ max_limit + k_block_size * 1)
use_memory_bound_example = use_memory_bound Reach-taken

-- All of the limit but one block is in use.
abbrev nearly_full : Pool
nearly_full = record {
  mem = record { use_memory = max_limit - k_block_size; memory_list = []; next_block = 16383 };
  pc = λ _. idle;
}

limit_exceeded_example :
    (t : Pool) × Reach 2 nearly_full t × (t.mem.use_memory ≡ max_limit + k_block_size)
limit_exceeded_example = limit_exceeded nearly_full refl refl refl refl

holding_unique_example : (◌≡◌ {A = ℕ} 0 0) × (count 0 taken.mem.memory_list ≡ 0)
unfolding ℕ_discrete
holding_unique_example =
    holding_unique {n = 1} {s = taken} {ptr = 0} 0 0 Reach-taken (omega arith) (omega arith) refl
      refl

blocks_accounted_example :
    taken.mem.next_block ≡ length taken.mem.memory_list + weigh held 1 taken.pc + leaks Reach-taken
blocks_accounted_example = blocks_accounted Reach-taken

abbrev full : Pool
full = record {
  mem = record { use_memory = max_limit; memory_list = []; next_block = 16384 };
  pc = λ _. idle;
}

abbrev full_waiting : Pool
full_waiting = record { mem = full.mem; pc = update (λ _. idle) 0 waiting }

full-Exhausted : Exhausted full
full-Exhausted = record { none_free = refl; no_room = omega arith; all_stuck = λ i. inl refl }

Reach-full : Reach 1 full full_waiting
unfolding advance
Reach-full = later here (pick 0 (omega arith) refl)

Reach-Exhausted_example : (full_waiting.mem ≡ full.mem) × Exhausted full_waiting
Reach-Exhausted_example = Reach-Exhausted full-Exhausted Reach-full
