-- ===== src/Shard.antt =====
-- code/src/model_manger.cpp: which slices a node loads (`loadNewModel`), and which node a request
-- for a slice goes to (`getNodeForSlice`). An `int` is the number that it is where it is not
-- negative: `loadNewModel` tests in Manager/Load.antt that no `node_id` below 0 and no overflow is
-- in the range it takes from here; `slice_partition` arrives as uint64_t and is cut to uint32_t by
-- the call.
pub mod Routing
mod Examples
use prob_alimama_2023_a.Base.{
  ℕ, ◌+◌, ◌-◌, ◌*◌, ◌/◌, ◌%◌, ◌^◌, ◌≤◌, ◌<◌, Option, none, some, arith, ltb, leb, ◌&&◌, ◌==◌,
  if◌then◌else◌,
}

-- `slice_num / node_num`; a zero `node_num` is a division fault.
unfoldable pub slice_num_per_node : ℕ → ℕ → Option ℕ
slice_num_per_node slice_num node_num = if node_num == 0 then none else some (slice_num / node_num)

-- The range of the loop in `loadNewModel`: its first slice and the one after its last.
unfoldable pub shard_range : (slice_num per node_id : ℕ) → ℕ × ℕ
shard_range slice_num per node_id =
    let start = per * node_id in
    let end = start + per in (start, if ltb slice_num (end + per) then slice_num else end)

-- `getNodeForSlice`: `none` is the division by a zero `slice_num_per_node_`. The quotient is
-- unsigned and becomes an `int`: from 2 ^ 31 on it is negative, and passes the test as its bit
-- pattern.
unfoldable pub get_node_for_slice : (per node_num slice_partition : ℕ) → Option ℕ
get_node_for_slice per node_num slice_partition =
    let node = slice_partition % 2 ^ 32 / per in
    if per == 0
    then none
    else some (if ltb node (2 ^ 31) && leb node_num node then node_num - 1 else node)

abbrev pub InShard : (slice_num per node_id s : ℕ) → Type 0
InShard slice_num per node_id s =
    ((shard_range slice_num per node_id).0 ≤ s) × (s < (shard_range slice_num per node_id).1)
