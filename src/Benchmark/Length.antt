-- ===== src/Benchmark/Length.antt =====
-- testbench/concurent_queue.h: what an operation of the benchmark does to the length of a queue.
use prob_alimama_2023_a.Base.{
  ◌+◌, ◌≡◌, subst, Bool, true, false, Option, none, some, [], ◌∷◌, ◌++◌, length, length-append,
  if◌then◌else◌, arith,
}
use prob_alimama_2023_a.ConcurrentQueue.{
  ConcurrentQueue, QueueStatus, closed, ok, can_push, push_back, wait_and_pop,
}
use prob_alimama_2023_a.Benchmark.{refused}

same_some : {A : Type 0} {a b : A} → some a ≡ some b → a ≡ b
same_some e = cc e

pub push_back-length :
    {A : Type 0} (c d : ConcurrentQueue A) (v : A) (status : QueueStatus)
    → push_back c v ≡ some (status, d)
    → length d.q + refused status ≡ length c.q + 1
unfolding push_back
push_back-length {A} c d v status e = by_cases (can_push c) c.is_closed e
  where
    Right : QueueStatus × ConcurrentQueue A → Type 0
    Right z = length z.1.q + refused z.0 ≡ length c.q + 1

    answer : Bool → QueueStatus × ConcurrentQueue A
    answer x = if x then (closed, c) else (ok, record c { q = c.q ++ v ∷ [] })

    answer-Right : (x : Bool) → Right (answer x)
    answer-Right true = omega arith
    answer-Right false = omega (arith, length-append c.q (v ∷ []))

    offered : Bool → Bool → Option (QueueStatus × ConcurrentQueue A)
    offered b x = if b then some (answer x) else none

    by_cases : (b x : Bool) → offered b x ≡ some (status, d) → Right (status, d)
    by_cases false x h = cc h
    by_cases true x h = subst Right (same_some h) (answer-Right x)

pub wait_and_pop-length :
    {A : Type 0} (c d : ConcurrentQueue A) (v : A)
    → wait_and_pop c ≡ some (ok, some (v, d))
    → length c.q ≡ length d.q + 1
unfolding wait_and_pop
wait_and_pop-length c d v e = ground (arith, e)
