-- ===== src/Shard/Examples.antt =====
-- code/src/model_manger.cpp: the split of 128 slices over 6 nodes, and a split with a large
-- remainder.
use prob_alimama_2023_a.Base.{ℕ, ◌*◌, ◌-◌, ◌<◌, ◌≡◌, refl, some, arith}
use prob_alimama_2023_a.Shard.{slice_num_per_node, get_node_for_slice, InShard}
use prob_alimama_2023_a.Shard.Routing.{node-not-InShard}

node-not-InShard_example :
    (1 * 6 < 10)
    × (get_node_for_slice 1 6 (1 * 6) ≡ some (6 - 1))
    × ((node : ℕ) → node < 6 → ¬ InShard 10 1 node (1 * 6))
unfolding slice_num_per_node
node-not-InShard_example = node-not-InShard 10 6 1 refl (omega arith) (omega arith) (omega arith)
