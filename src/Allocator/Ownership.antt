-- ===== src/Allocator/Ownership.antt =====
-- code/src/memory_allocator.cpp: who has each block.
use prob_alimama_2023_a.Base.{
  ℕ, suc, length, ◌∙◌, ◌+◌, ◌≤◌, ◌<◌, ◌≡◌, refl, ◌⊎◌, List, [], ◌∷◌, arith, some, ◌==◌, ltb,
  if◌then◌else◌,
}
use prob_alimama_2023_a.Base.Threads.{weigh, weigh-update, weight-le, weight_pair-le, weigh-eq-zero}
use prob_alimama_2023_a.Allocator.{
  max_limit, k_block_size, MemoryAllocator, Pc, idle, waiting, growing, holding, init, advance,
  Pool, Step, pick, leak, Reach, here, later, start,
}

abbrev pub count : ℕ → List ℕ → ℕ
count ptr [] = 0
count ptr (b ∷ bs) = (if b == ptr then 1 else 0) + count ptr bs

abbrev holds : ℕ → Pc → ℕ
holds ptr (holding b) = if b == ptr then 1 else 0
holds ptr _ = 0

-- A block that was made has at most one place, and one that was not has none.
abbrev Owned : ℕ → Pool → ℕ → Type 0
Owned n s ptr =
    count ptr s.mem.memory_list + weigh (holds ptr) n s.pc
    ≤ (if ltb ptr s.mem.next_block then 1 else 0)

-- Nothing but `new` adds a place to a block.
advance-places :
    (m a : MemoryAllocator) (p q : Pc) (ptr : ℕ)
    → advance m p ≡ some (a, q)
    → (a.next_block ≡ m.next_block)
        × (count ptr a.memory_list + holds ptr q ≡ count ptr m.memory_list + holds ptr p)
      ⊎ (a.next_block ≡ suc m.next_block)
        × (a.memory_list ≡ m.memory_list)
        × (p ≡ growing)
        × (q ≡ holding m.next_block)
unfolding advance
advance-places m a p q ptr e = ground arith

Step-Owned : {n : ℕ} {s t : Pool} (ptr : ℕ) → Step n s t → Owned n s ptr → Owned n t ptr
Step-Owned {n} {s} ptr (pick i {a} {p} lt e) v =
    ground (arith, advance-places s.mem a (s.pc i) p ptr e, weigh-update (holds ptr) n s.pc i p lt)
Step-Owned {n} {s} ptr (leak i lt e) v = ground (arith, weigh-update (holds ptr) n s.pc i idle lt)

Reach-Owned : {n : ℕ} {s t : Pool} (ptr : ℕ) → Reach n s t → Owned n s ptr → Owned n t ptr
Reach-Owned ptr here v = v
Reach-Owned ptr (later r st) v = Step-Owned ptr st (Reach-Owned ptr r v)

start-Owned : (n ptr : ℕ) → Owned n start ptr
unfolding init
start-Owned n ptr = omega (arith, weigh-eq-zero (holds ptr) n (λ _. idle) (λ _ _. refl))

-- In any interleaving from a fresh allocator, no two requests hold the same block, and a block that
-- a request holds is not on the free list.
pub holding_unique :
    {n : ℕ} {s : Pool} {ptr : ℕ} (i j : ℕ)
    → Reach n start s
    → i < n
    → j < n
    → s.pc i ≡ holding ptr
    → s.pc j ≡ holding ptr
    → (i ≡ j) × (count ptr s.mem.memory_list ≡ 0)
holding_unique {n} {s} {ptr} i j r hi hj a b =
    let v = Reach-Owned ptr r (start-Owned n ptr) in
    (
      omega (arith, distinct i j hi hj a b v, distinct j i hj hi b a v),
      ground (arith, v, weight-le (holds ptr) n s.pc i hi),
    )
  where
    distinct :
        (i j : ℕ)
        → i < n
        → j < n
        → s.pc i ≡ holding ptr
        → s.pc j ≡ holding ptr
        → Owned n s ptr
        → ¬ (i < j)
    distinct i j hi hj a b v lt = ground (arith, v, weight_pair-le (holds ptr) n s.pc i j lt hj)

abbrev pub held : Pc → ℕ
held (holding _) = 1
held _ = 0

-- The failed requests of a history.
pub leaks : {n : ℕ} {s t : Pool} → Reach n s t → ℕ
leaks here = 0
leaks (later r (pick i lt e)) = leaks r
leaks (later r (leak i lt e)) = suc (leaks r)

advance-kept :
    (m a : MemoryAllocator) (p q : Pc)
    → advance m p ≡ some (a, q)
    → a.next_block + length m.memory_list + held p ≡ m.next_block + length a.memory_list + held q
unfolding advance
advance-kept m a p q e = ground arith

-- In any interleaving from a fresh allocator, the blocks made are the free ones, those that
-- requests hold, and one for each request that failed: the block of a failed request is never used
-- again.
pub blocks_accounted :
    {n : ℕ} {s : Pool} (r : Reach n start s)
    → s.mem.next_block ≡ length s.mem.memory_list + weigh held n s.pc + leaks r
unfolding leaks init
blocks_accounted {n} here = omega (arith, weigh-eq-zero held n (λ _. idle) (λ _ _. refl))
blocks_accounted {n} (later {t} r (pick i {a} {p} lt e)) =
    omega (
      arith,
      blocks_accounted r,
      advance-kept t.mem a (t.pc i) p e,
      weigh-update held n t.pc i p lt,
    )
blocks_accounted {n} (later {t} r (leak i lt e)) =
    ground (arith, blocks_accounted r, weigh-update held n t.pc i idle lt)

-- Nobody has a block or is about to get one, and no more may be made.
pub record Exhausted (s : Pool) : Type 0 where
  pub none_free : s.mem.memory_list ≡ []
  pub no_room : max_limit < s.mem.use_memory + k_block_size
  pub all_stuck : (i : ℕ) → (s.pc i ≡ idle) ⊎ (s.pc i ≡ waiting)

advance_exhausted :
    (m a : MemoryAllocator) (p q : Pc)
    → m.memory_list ≡ []
    → max_limit < m.use_memory + k_block_size
    → (p ≡ idle) ⊎ (p ≡ waiting)
    → advance m p ≡ some (a, q)
    → (a ≡ m) × (q ≡ waiting)
unfolding advance
advance_exhausted m a p q e f g h = ground arith

-- Once no block is free or held and the limit is reached, no request ever gets a block again,
-- whatever the interleaving: each stays idle or waits.
pub Reach-Exhausted :
    {n : ℕ} {s t : Pool} → Exhausted s → Reach n s t → (t.mem ≡ s.mem) × Exhausted t
Reach-Exhausted x here = (refl, x)
Reach-Exhausted {s} x (later {t} r (pick i {a} {p} lt e)) =
    let (same, y) = Reach-Exhausted x r in
    let (kept, stuck) =
      advance_exhausted t.mem a (t.pc i) p y.none_free y.no_room (y.all_stuck i) e in
    (
      kept ∙ same,
      record {
        none_free = ground arith;
        no_room = ground arith;
        all_stuck = λ j. ground (arith, y.all_stuck j);
      },
    )
Reach-Exhausted x (later r (leak i lt e)) =
    let (same, y) = Reach-Exhausted x r in absurd (ground (arith, y.all_stuck i))
