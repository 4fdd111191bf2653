-- ===== src/Workers/Tasks.antt =====
-- code/src/model_hander.cpp: where each task is.
use prob_alimama_2023_a.Base.{
  ℕ, ◌+◌, ◌≡◌, refl, sym, ap, ◌∙◌, true, false, some, List, [], ◌∷◌, ◌++◌, arith, append_assoc,
  append-nil, Bool,
}
use prob_alimama_2023_a.Base.Threads.{weigh, weigh-update, weigh-eq-zero}
use prob_alimama_2023_a.Workers.{
  Pc, waiting, working, Pool, wake, push, stop, start, Step, pushes, wakes, finishes, stops, Reach,
  here, later,
}

module _ {ℓ} {A : Type ℓ} (measure : A → ℕ) where
  -- The measures of the tasks of a list, added up.
  abbrev pub total : List A → ℕ
  total [] = 0
  total (task ∷ rest) = measure task + total rest

  abbrev pub in_hand : Pc A → ℕ
  in_hand (working task) = measure task
  in_hand _ = 0

  total-append : (xs ys : List A) → total (xs ++ ys) ≡ total xs + total ys
  total-append [] ys = omega arith
  total-append (x ∷ xs) ys = omega (arith, total-append xs ys)

  abbrev Accounted : ℕ → Pool A → Type 0
  Accounted n s =
      total s.pushed ≡ total s.request_queues + weigh in_hand n s.reader_threads + total s.finished

  wake-total :
      (is_stop : Bool) (queue rest : List A) (p : Pc A)
      → wake is_stop queue ≡ some (p, rest)
      → in_hand p + total rest ≡ total queue
  unfolding wake
  wake-total true queue rest p h = ground (arith, h)
  wake-total false [] rest p h = ground (arith, h)
  wake-total false (task ∷ queue) rest p h = ground (arith, h)

  Step-Accounted : {n : ℕ} {s t : Pool A} → Step n s t → Accounted n s → Accounted n t
  unfolding push stop
  Step-Accounted {n} {s} (pushes task) v =
      omega (arith, v, total-append s.request_queues (task ∷ []), total-append s.pushed (task ∷ []))
  Step-Accounted {n} {s} (wakes i {p} {rest} lt e w) v = ground (
    arith,
    v,
    wake-total s.is_stop s.request_queues rest p w,
    weigh-update in_hand n s.reader_threads i p lt,
  )
  Step-Accounted {n} {s} (finishes i {task} lt e) v = ground (
    arith,
    v,
    total-append s.finished (task ∷ []),
    weigh-update in_hand n s.reader_threads i waiting lt,
  )
  Step-Accounted stops v = v

  -- In any interleaving from the start of the threads, and for any measure of tasks: the tasks that
  -- were pushed are those in the queue, those in the hands of a thread and those processed.
  pub tasks_accounted :
      {n : ℕ} {s : Pool A}
      → Reach n start s
      → total s.pushed
        ≡ total s.request_queues + weigh in_hand n s.reader_threads + total s.finished
  unfolding start
  tasks_accounted {n} here = omega (arith, weigh-eq-zero in_hand n (λ _. waiting) (λ _ _. refl))
  tasks_accounted (later r step) = Step-Accounted step (tasks_accounted r)

module _ {ℓ} {A : Type ℓ} where
  -- Once stopped, the tasks that wait in the queue stay there.
  abbrev pub Stranded : Pool A → Pool A → Type ℓ
  Stranded s t =
      (t.is_stop ≡ true) × (more : List A) × (t.request_queues ≡ s.request_queues ++ more)

  wake_stopped :
      (is_stop : Bool) (queue rest : List A) (p : Pc A)
      → is_stop ≡ true
      → wake is_stop queue ≡ some (p, rest)
      → rest ≡ queue ++ []
  unfolding wake
  wake_stopped true queue rest p e h = cc h ∙ sym (append-nil queue)
  wake_stopped false queue rest p e h = cc e

  Step-Stranded : {n : ℕ} {s t : Pool A} → s.is_stop ≡ true → Step n s t → Stranded s t
  unfolding push stop
  Step-Stranded e (pushes task) = (e, task ∷ [], refl)
  Step-Stranded {s = s} e (wakes i {p} {rest} lt w h) =
      (e, [], wake_stopped s.is_stop s.request_queues rest p e h)
  Step-Stranded {s = s} e (finishes i lt w) = (e, [], sym (append-nil s.request_queues))
  Step-Stranded {s = s} e stops = (refl, [], sym (append-nil s.request_queues))

  -- After `is_stop_` is set, in any interleaving, no task leaves the queue any more: those that it
  -- held are still there, in order, before those pushed since.
  pub Reach-Stranded : {n : ℕ} {s t : Pool A} → s.is_stop ≡ true → Reach n s t → Stranded s t
  Reach-Stranded {s = s} e here = (e, [], sym (append-nil s.request_queues))
  Reach-Stranded {s = s} e (later r step) =
      let (a, more, b) = Reach-Stranded e r in
      let (c, new, d) = Step-Stranded a step in
      (c, more ++ new, d ∙ ap (λ q. q ++ new) b ∙ append_assoc s.request_queues more new)
