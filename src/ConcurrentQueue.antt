-- ===== src/ConcurrentQueue.antt =====
-- testbench/concurent_queue.h: the queue between the threads of the benchmark. Each operation runs
-- under the mutex; `none` is a wait whose condition does not hold. `closed_` is atomic, so `Close`
-- is one step too.
mod Order
mod Examples
use prob_alimama_2023_a.Base.{
  ℕ, ◌≡◌, Bool, true, false, Option, none, some, List, [], ◌∷◌, ◌++◌, length, ltb, ◌==◌, ◌||◌,
  if◌then◌else◌,
}

pub data QueueStatus : Type 0 where
  closed ok empty : QueueStatus

pub record ConcurrentQueue {ℓ} (A : Type ℓ) : Type ℓ where
  pub q : List A
  pub capacity : ℕ
  pub is_closed : Bool

module _ {ℓ} {A : Type ℓ} where
  unfoldable pub concurrent_queue : ℕ → ConcurrentQueue A
  concurrent_queue capacity = record { q = []; capacity = capacity; is_closed = false }

  -- The condition of the wait in `Push`; a capacity of 0 is no bound.
  unfoldable pub can_push : ConcurrentQueue A → Bool
  can_push c = if c.capacity == 0 then true else ltb (length c.q) c.capacity || c.is_closed

  unfoldable pub push_back : ConcurrentQueue A → A → Option (QueueStatus × ConcurrentQueue A)
  unfolding can_push
  push_back c v =
      if can_push c
      then some (if c.is_closed then (closed, c) else (ok, record c { q = c.q ++ v ∷ [] }))
      else none

  -- `TryPop`: the status, and the value and the queue where it is Ok.
  unfoldable pub try_pop : ConcurrentQueue A → QueueStatus × Option (A × ConcurrentQueue A)
  try_pop c = elim c.q [
    | [] ↦ (empty, none)
    | v ∷ rest ↦ if c.is_closed then (closed, none) else (ok, some (v, record c { q = rest }))
  ]

  unfoldable pub wait_and_pop :
      ConcurrentQueue A → Option (QueueStatus × Option (A × ConcurrentQueue A))
  wait_and_pop c =
      if c.is_closed
      then some (closed, none)
      else elim c.q [ [] ↦ none | v ∷ rest ↦ some (ok, some (v, record c { q = rest })) ]

  unfoldable pub close : ConcurrentQueue A → ConcurrentQueue A
  close c = record c { is_closed = true }

-- The queue, with what has gone in and out of it so far.
pub record Traffic {ℓ} (A : Type ℓ) : Type ℓ where
  pub queue : ConcurrentQueue A
  pub pushed : List A
  pub popped : List A

module _ {ℓ} {A : Type ℓ} where
  pub data Step (s : Traffic A) : Traffic A → Type ℓ where
    pushes :
        (v : A) {c : ConcurrentQueue A}
        → push_back s.queue v ≡ some (ok, c)
        → Step s (record { queue = c; pushed = s.pushed ++ v ∷ []; popped = s.popped })
    tries :
        {v : A} {c : ConcurrentQueue A}
        → try_pop s.queue ≡ (ok, some (v, c))
        → Step s (record { queue = c; pushed = s.pushed; popped = s.popped ++ v ∷ [] })
    pops :
        {v : A} {c : ConcurrentQueue A}
        → wait_and_pop s.queue ≡ some (ok, some (v, c))
        → Step s (record { queue = c; pushed = s.pushed; popped = s.popped ++ v ∷ [] })
    closes : Step s (record { queue = close s.queue; pushed = s.pushed; popped = s.popped })

  pub data Reach (s : Traffic A) : Traffic A → Type ℓ where
    here : Reach s s
    later : {t u : Traffic A} → Reach s t → Step t u → Reach s u

  abbrev pub fresh : ℕ → Traffic A
  fresh capacity = record { queue = concurrent_queue capacity; pushed = []; popped = [] }
