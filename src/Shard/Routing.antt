-- ===== src/Shard/Routing.antt =====
-- code/src/model_manger.cpp: where a slice is loaded, and where its requests go.
use prob_alimama_2023_a.Base.{
  ℕ, zero, suc, ◌+◌, ◌-◌, ◌*◌, ◌/◌, ◌%◌, ◌^◌, ◌≤◌, ◌<◌, ◌≡◌, subst, ap, ◌⊎◌, inl, inr, some, arith,
}
use prob_alimama_2023_a.Shard.{slice_num_per_node, shard_range, get_node_for_slice, InShard}

-- The share of a node, times the nodes, plus the remainder.
share-eq :
    (slice_num node_num : ℕ)
    → 0 < node_num
    → slice_num ≡ slice_num / node_num * node_num + slice_num % node_num
share-eq slice_num node_num h = grind arith

div_bounds : (s per : ℕ) → 0 < per → (per * (s / per) ≤ s) × (s < per * (s / per) + per)
div_bounds s per h = grind arith

-- The two cases of a routed slice, before and after the last share.
inner-InShard : (n per s : ℕ) → 0 < per → s < n → InShard n per (s / per) s
unfolding shard_range
inner-InShard n per s h l = ground (arith, div_bounds s per h)

last-InShard : (n k per s : ℕ) → n < per * suc k + per → per * suc k ≤ s → s < n → InShard n per k s
unfolding shard_range
last-InShard n k per s b l h = ground arith

mul-le : (per a b : ℕ) → a ≤ b → per * a ≤ per * b
mul-le per a b h = grind arith

share_cases :
    (slice_num node_num : ℕ) {per : ℕ}
    → slice_num_per_node slice_num node_num ≡ some per
    → (0 < node_num) × (slice_num / node_num ≡ per)
unfolding slice_num_per_node
share_cases slice_num node_num e = ground arith

-- No node's range leaves an `int`, if the slices and a share more fit one.
pub share_fits :
    (slice_num node_num k : ℕ) {per : ℕ}
    → slice_num_per_node slice_num node_num ≡ some per
    → slice_num + per < 2 ^ 31
    → k < node_num
    → per * k + per + per < 2 ^ 31
share_fits slice_num node_num k {per} e small lt =
    let (pos, q) = share_cases slice_num node_num e in
    let whole : slice_num ≡ per * node_num + slice_num % node_num =
      subst (λ z. slice_num ≡ z * node_num + slice_num % node_num) q
        (share-eq slice_num node_num pos) in
    let le : per * k + per ≤ per * node_num = grind (arith, mul-le per (suc k) node_num lt) in
    omega (arith, whole, le, small)

quotient-le : (s per : ℕ) → s / per ≤ s
quotient-le s per = grind arith

node_cases :
    (per node_num s : ℕ) {node : ℕ}
    → s < 2 ^ 31
    → get_node_for_slice per node_num s ≡ some node
    → (0 < per)
      × ((s / per < node_num) × (node ≡ s / per) ⊎ (node_num ≤ s / per) × (node ≡ node_num - 1))
unfolding get_node_for_slice
node_cases per node_num s b e = ground (arith, small_mod s b, quotient-le s per)
  where
    small_mod : (s : ℕ) → s < 2 ^ 31 → s % 2 ^ 32 ≡ s
    small_mod s b = omega arith

last_share :
    (slice_num k per s : ℕ)
    → slice_num / suc k ≡ per
    → slice_num % suc k < per
    → 0 < per
    → s < slice_num
    → suc k ≤ s / per
    → InShard slice_num per k s
last_share slice_num k per s q r p l h =
    last-InShard slice_num k per s
      (omega
        (arith, share-eq slice_num (suc k) (omega arith), ap (λ (t : ℕ). t * suc k) q, mul-comm))
      (omega (arith, div_bounds s per p, mul-le per (suc k) (s / per) h)) l
  where
    mul-comm : per * suc k ≡ suc k * per
    mul-comm = omega arith

-- Every slice number below `slice_num` lies in the shard of the node that a request for it is sent
-- to, if the remainder of the split is below the share of a node.
pub node-InShard :
    (slice_num node_num per s : ℕ) {node : ℕ}
    → slice_num_per_node slice_num node_num ≡ some per
    → slice_num < 2 ^ 31
    → slice_num % node_num < per
    → s < slice_num
    → get_node_for_slice per node_num s ≡ some node
    → (node < node_num) × InShard slice_num per node s
node-InShard slice_num zero per s h b r l e = absurd (omega (arith, share_cases slice_num zero h))
node-InShard slice_num (suc k) per s {node} h b r l e =
    let share = share_cases slice_num (suc k) h in
    let cases = node_cases per (suc k) s (omega arith) e in
    elim cases.1 [
      | inl (q, eq) ↦ (omega arith, rw eq (inner-InShard slice_num per s cases.0 l))
      | inr (q, eq) ↦
          let last : node ≡ k = omega arith in
          (omega arith, rw last (last_share slice_num k per s share.1 r cases.0 l q))
    ]

past_shards :
    (slice_num node_num per node : ℕ)
    → per * node_num + per ≤ slice_num
    → node < node_num
    → ¬ InShard slice_num per node (per * node_num)
unfolding shard_range
past_shards slice_num node_num per node b h i = ground (arith, mul-le per (suc node) node_num h)

-- If a node's share is above 0 and the remainder of the split is that share or more, for fewer than
-- 2 ^ 31 slices, there is a slice that no node loads; its requests go to the last node.
pub node-not-InShard :
    (slice_num node_num per : ℕ)
    → slice_num_per_node slice_num node_num ≡ some per
    → slice_num < 2 ^ 31
    → 0 < per
    → per ≤ slice_num % node_num
    → (per * node_num < slice_num)
      × (get_node_for_slice per node_num (per * node_num) ≡ some (node_num - 1))
      × ((node : ℕ) → node < node_num → ¬ InShard slice_num per node (per * node_num))
unfolding get_node_for_slice
node-not-InShard slice_num node_num per e b p r =
    let (q, share) = share_cases slice_num node_num e in
    let whole = share-eq slice_num node_num q in
    let left = ap (λ (t : ℕ). t * node_num) share in
    let past : per * node_num + per ≤ slice_num = omega (arith, whole, left) in
    (
      omega arith,
      ground (
        arith,
        mul-div per node_num p,
        quotient-le (per * node_num) per,
        small (per * node_num) (omega arith),
      ),
      λ node h. past_shards slice_num node_num per node past h,
    )
  where
    mul-div : (a b : ℕ) → 0 < a → a * b / a ≡ b
    mul-div a b h = grind arith

    small : (s : ℕ) → s < 2 ^ 31 → s % 2 ^ 32 ≡ s
    small s h = omega arith
