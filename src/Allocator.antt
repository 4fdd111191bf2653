-- ===== src/Allocator.antt =====
-- code/src/memory_allocator.h and .cpp: blocks of one size, kept on a free list under a mutex.
-- A block is known by the order in which `new` made it. The vector `memory_list_` is a list whose
-- head is the vector's back. `allocate` gives the mutex up twice, in `cv_.wait` and around `new`,
-- so a call is cut there: `Pc` says where a request stands, and `advance` runs one locked piece.
mod Limit
mod Ownership
mod Examples
use prob_alimama_2023_a.Base.{
  ℕ, zero, suc, ◌+◌, ◌^◌, ◌<◌, ◌≡◌, Option, none, some, List, [], ◌∷◌, ltb, if◌then◌else◌,
}
use prob_alimama_2023_a.Base.Threads.{update}

abbrev pub max_limit : ℕ
max_limit = 2 ^ 30

abbrev pub k_block_size : ℕ
k_block_size = 2 ^ 16

pub record MemoryAllocator : Type 0 where
  pub use_memory : ℕ
  pub memory_list : List ℕ
  pub next_block : ℕ  -- what `new` hands out next

pub data Pc : Type 0 where
  idle waiting growing : Pc
  holding : ℕ → Pc

pub init : MemoryAllocator
init = record { use_memory = 0; memory_list = []; next_block = 0 }

-- `allocate` up to its return, its wait, or `lock.unlock()`; the size asked for is not read.
pub allocate : MemoryAllocator → MemoryAllocator × Pc
allocate a = elim a.memory_list [
  | [] ↦ if ltb max_limit (a.use_memory + k_block_size) then (a, waiting) else (a, growing)
  | ptr ∷ rest ↦ (record a { memory_list = rest }, holding ptr)
]

-- The end of the wait: the predicate of `cv_.wait` holds, and the last block is taken.
pub resume : MemoryAllocator → Option (MemoryAllocator × Pc)
resume a = elim a.memory_list [
  | [] ↦ none
  | ptr ∷ rest ↦ some (record a { memory_list = rest }, holding ptr)
]

-- `new char[kBlockSize]`, and the piece after `lock.lock()`.
pub grow : MemoryAllocator → MemoryAllocator × Pc
grow a = (
  record a { use_memory = a.use_memory + k_block_size; next_block = suc a.next_block },
  holding a.next_block,
)

pub deallocate : MemoryAllocator → ℕ → MemoryAllocator
deallocate a ptr = record a { memory_list = ptr ∷ a.memory_list }

-- What a request does next, `none` while it must wait.
pub advance : MemoryAllocator → Pc → Option (MemoryAllocator × Pc)
unfolding allocate resume grow deallocate
advance a idle = some (allocate a)
advance a waiting = resume a
advance a growing = some (grow a)
advance a (holding ptr) = some (deallocate a ptr, idle)

-- The allocator and the requests 0 .. n - 1 that use it.
pub record Pool : Type 0 where
  pub mem : MemoryAllocator
  pub pc : ℕ → Pc

pub data Step (n : ℕ) (s : Pool) : Pool → Type 0 where
  pick :
      (i : ℕ) {a : MemoryAllocator} {p : Pc}
      → i < n
      → advance s.mem (s.pc i) ≡ some (a, p)
      → Step n s (record { mem = a; pc = update s.pc i p })
  -- A `Get` that fails returns without `deallocate`.
  leak :
      (i : ℕ) {ptr : ℕ}
      → i < n
      → s.pc i ≡ holding ptr
      → Step n s (record { mem = s.mem; pc = update s.pc i idle })

pub data Reach (n : ℕ) (s : Pool) : Pool → Type 0 where
  here : Reach n s s
  later : {t u : Pool} → Reach n s t → Step n t u → Reach n s u

abbrev pub start : Pool
start = record { mem = init; pc = λ _. idle }
