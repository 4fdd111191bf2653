-- ===== src/Allocator/Limit.antt =====
-- code/src/memory_allocator.cpp: the memory in use and `max_limit`.
use prob_alimama_2023_a.Base.{
  ℕ, ℕ_discrete, ◌+◌, ◌*◌, ◌≤◌, ◌<◌, ◌≡◌, refl, ◌⊎◌, inl, inr, [], arith, some,
}
use prob_alimama_2023_a.Base.Threads.{weigh, weigh-update, weigh-le, weigh-eq-zero, update}
use prob_alimama_2023_a.Allocator.{
  max_limit, k_block_size, MemoryAllocator, Pc, idle, growing, holding, init, grow, advance, Pool,
  Step, pick, leak, Reach, here, later, start,
}

abbrev grows : Pc → ℕ
grows growing = 1
grows _ = 0

grows-le : (p : Pc) → grows p ≤ 1
grows-le p = ground arith

-- Memory counted, and memory that requests past the test are about to add.
record Inv (n : ℕ) (s : Pool) : Type 0 where
  counted : s.mem.use_memory ≡ k_block_size * s.mem.next_block
  capped :
      s.mem.use_memory + k_block_size * weigh grows n s.pc + k_block_size
      ≤ max_limit + k_block_size * n

advance-counted :
    (m a : MemoryAllocator) (p q : Pc)
    → advance m p ≡ some (a, q)
    → m.use_memory ≡ k_block_size * m.next_block
    → a.use_memory ≡ k_block_size * a.next_block
unfolding advance
advance-counted m a p q e h = ground arith

-- A request that passes the test leaves room for itself; one that grows was counted before.
advance-capped :
    (m a : MemoryAllocator) (p q : Pc)
    → advance m p ≡ some (a, q)
    → (a.use_memory + k_block_size * grows q ≡ m.use_memory + k_block_size * grows p)
      ⊎ (a.use_memory + k_block_size ≤ max_limit) × (grows q ≡ 1)
unfolding advance
advance-capped m a p q e = ground arith

Step-Inv : {n : ℕ} {s t : Pool} → Step n s t → Inv n s → Inv n t
Step-Inv {n} {s} (pick i {a} {p} lt e) v = record {
  counted = advance-counted s.mem a (s.pc i) p e v.counted;
  capped = elim (advance-capped s.mem a (s.pc i) p e) [
    | inl same ↦ omega (arith, weigh-update grows n s.pc i p lt, v.capped)
    | inr (room, one) ↦ omega (arith, weigh-le grows grows-le n (update s.pc i p))
  ];
}
Step-Inv {n} {s} (leak i {ptr} lt e) v = record {
  counted = v.counted;
  capped = ground (arith, weigh-update grows n s.pc i idle lt, v.capped);
}

Reach-Inv : {n : ℕ} {s t : Pool} → Reach n s t → Inv n s → Inv n t
Reach-Inv here v = v
Reach-Inv (later r st) v = Step-Inv st (Reach-Inv r v)

start-Inv : (n : ℕ) → Inv n start
unfolding init
start-Inv n = record {
  counted = omega arith;
  capped = omega (arith, weigh-eq-zero grows n (λ _. idle) (λ _ _. refl));
}

-- In any interleaving of n requests, one at least, from a fresh allocator, `use_memory_` is the
-- size of the blocks made so far, and it stays within `max_limit` and n - 1 blocks more.
pub use_memory_bound :
    {n : ℕ} {s : Pool}
    → Reach n start s
    → (s.mem.use_memory ≡ k_block_size * s.mem.next_block)
      × (s.mem.use_memory + k_block_size ≤ max_limit + k_block_size * n)
use_memory_bound {n} {s} r =
    let v = Reach-Inv r (start-Inv n) in (v.counted, omega (arith, v.capped))

-- A request with room for a block goes on to `new`, and changes nothing yet.
tests :
    (m : MemoryAllocator)
    → m.memory_list ≡ []
    → m.use_memory + k_block_size ≡ max_limit
    → advance m idle ≡ some (m, growing)
unfolding advance
tests m e full = ground arith

tested :
    {n : ℕ} (s : Pool)
    → s.mem.memory_list ≡ []
    → s.mem.use_memory + k_block_size ≡ max_limit
    → {i : ℕ} → s.pc i ≡ idle
    → i < n
    → Step n s (record { mem = s.mem; pc = update s.pc i growing })
tested s e full {i} a lt = pick i lt (rw a (tests s.mem e full))

added :
    {n : ℕ} (s : Pool) (i : ℕ)
    → s.pc i ≡ growing
    → i < n
    → Step n s (record { mem = (grow s.mem).0; pc = update s.pc i (holding s.mem.next_block) })
added s i a lt = pick i lt (rw a (unfold advance in refl))

-- With room for one more block and no free one, two idle requests can take the memory in use past
-- `max_limit`: the test and the addition are two critical sections.
pub limit_exceeded :
    (s : Pool)
    → s.mem.memory_list ≡ []
    → s.mem.use_memory + k_block_size ≡ max_limit
    → s.pc 0 ≡ idle
    → s.pc 1 ≡ idle
    → (t : Pool) × Reach 2 s t × (t.mem.use_memory ≡ max_limit + k_block_size)
unfolding advance ℕ_discrete
limit_exceeded s e full a b =
    let t0 = tested {n = 2} s e full {i = 0} a (omega arith) in
    let t1 =
      tested (record { mem = s.mem; pc = update s.pc 0 growing }) e full {i = 1} b (omega arith) in
    (
      _,
      later (later (later (later here t0) t1) (added _ 0 refl (omega arith)))
          (added _ 1 refl (omega arith)),
      omega arith,
    )
