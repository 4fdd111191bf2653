-- ===== src/Workers/Drain.antt =====
-- code/src/model_hander.cpp: the way to an empty queue.
use prob_alimama_2023_a.Base.{
  dec_lt, ◌+◌, ℕ, zero, suc, ◌≤◌, ◌<◌, ◌≡◌, ◌≢◌, refl, sym, ap, ◌∙◌, ◌⊎◌, inl, inr, subst, false,
  some, List, [], ◌∷◌, ◌++◌, arith, Bool,
}
use prob_alimama_2023_a.Base.Threads.{weigh-eq-zero, weigh, update, update_self, update_ne}
use prob_alimama_2023_a.Workers.Tasks.{total, in_hand, tasks_accounted}
use prob_alimama_2023_a.Workers.{
  Pc, waiting, exited, working, Pool, wake, push, stop, start, Step, pushes, wakes, finishes, stops,
  Reach, here, later,
}

module _ {ℓ} {A : Type ℓ} where
  pub Reach-trans : {n : ℕ} {s t u : Pool A} → Reach n s t → Reach n t u → Reach n s u
  Reach-trans r here = r
  Reach-trans r (later q step) = later (Reach-trans r q) step

  Pc-cases : (p : Pc A) → (p ≡ waiting) ⊎ (p ≡ exited) ⊎ ((task : A) × (p ≡ working task))
  Pc-cases waiting = inl refl
  Pc-cases exited = inr (inl refl)
  Pc-cases (working task) = inr (inr (task, refl))

  -- While it is not stopped no thread is gone.
  abbrev Alive : Pool A → Type ℓ
  Alive s = s.is_stop ≡ false → (i : ℕ) → s.reader_threads i ≢ exited

  wake-ne-exited : (queue rest : List A) (p : Pc A) → wake false queue ≡ some (p, rest) → p ≢ exited
  unfolding wake
  wake-ne-exited [] rest p h e = cc h
  wake-ne-exited (task ∷ queue) rest p h e = cc (h, e)

  update-ne-exited :
      (f : ℕ → Pc A) (i : ℕ) (p : Pc A)
      → ((j : ℕ) → f j ≢ exited)
      → p ≢ exited
      → (j : ℕ) → update f i p j ≢ exited
  update-ne-exited f i p old new j e = ground (arith, e, old j, new)

  Step-Alive : {n : ℕ} {s t : Pool A} → Step n s t → Alive s → Alive t
  unfolding push stop
  Step-Alive (pushes task) v = v
  Step-Alive {s = s} (wakes i {p} {rest} lt w h) v = λ calm.
      update-ne-exited s.reader_threads i p (v calm) (
        wake-ne-exited s.request_queues rest p
          (subst (λ b. wake b s.request_queues ≡ some (p, rest)) calm h))
  Step-Alive {s = s} (finishes i lt w) v =
      λ calm. update-ne-exited s.reader_threads i waiting (v calm) (λ e. cc e)
  Step-Alive stops v = λ calm. cc calm

  Reach-Alive : {n : ℕ} {s : Pool A} → Reach n start s → Alive s
  unfolding start
  Reach-Alive here = λ calm i e. cc e
  Reach-Alive (later r step) = Step-Alive step (Reach-Alive r)

  one_more :
      (f : ℕ → Pc A) (k : ℕ)
      → ((i : ℕ) → i < k → f i ≡ waiting)
      → f k ≡ waiting
      → (i : ℕ) → i < suc k
      → f i ≡ waiting
  one_more f k below w i lt = elim (dec_lt i k) [
    | yes less ↦ below i less
    | no more ↦ let e : i ≡ k = omega (arith, lt, more) in ap f e ∙ w
  ]

  -- A later state of the same tasks, in which the threads below k wait.
  record Settled (n k : ℕ) (s t : Pool A) : Type ℓ where
    steps : Reach n s t
    queue : t.request_queues ≡ s.request_queues
    calm : t.is_stop ≡ s.is_stop
    same : t.pushed ≡ s.pushed
    below : (i : ℕ) → i < k → t.reader_threads i ≡ waiting
    above : (i : ℕ) → k ≤ i → t.reader_threads i ≡ s.reader_threads i

  settle :
      (n k : ℕ) (s : Pool A)
      → k ≤ n
      → ((i : ℕ) → s.reader_threads i ≢ exited)
      → (t : Pool A) × Settled n k s t
  settle n zero s h v = (
    s,
    record {
      steps = here;
      queue = refl;
      calm = refl;
      same = refl;
      below = λ i lt. absurd (omega (arith, lt));
      above = λ i le. refl;
    },
  )
  settle n (suc k) s h v =
      let (t, b) = settle n k s (omega arith) v in
      elim (Pc-cases (t.reader_threads k)) [
        | inl w ↦ (
          t,
          record {
            steps = b.steps;
            queue = b.queue;
            calm = b.calm;
            same = b.same;
            below = λ i lt. one_more t.reader_threads k b.below w i lt;
            above = λ i le. b.above i (omega (arith, le));
          },
        )
        | inr (inl w) ↦ absurd (v k (sym (b.above k (omega arith)) ∙ w))
        | inr (inr (task, w)) ↦ (
          record t {
            reader_threads = update t.reader_threads k waiting;
            finished = t.finished ++ task ∷ [];
          },
          record {
            steps = later b.steps (finishes k (omega arith) w);
            queue = b.queue;
            calm = b.calm;
            same = b.same;
            below = λ i lt.
                one_more (update t.reader_threads k waiting) k
                  (λ j less.
                    update_ne t.reader_threads k waiting j (omega (arith, less)) ∙ b.below j less)
                  (update_self t.reader_threads k waiting) i lt;
            above = λ i le.
                update_ne t.reader_threads k waiting i (omega (arith, le))
                ∙ b.above i (omega (arith, le));
          },
        )
      ]

  -- All tasks are processed.
  pub record Drained (n : ℕ) (s t : Pool A) : Type ℓ where
    pub steps : Reach n s t
    pub same : t.pushed ≡ s.pushed
    pub empty : t.request_queues ≡ []
    pub idle : (i : ℕ) → i < n → t.reader_threads i ≡ waiting

  wake_front :
      (is_stop : Bool) (queue : List A) (task : A) (rest : List A)
      → is_stop ≡ false
      → queue ≡ task ∷ rest
      → wake is_stop queue ≡ some (working task, rest)
  unfolding wake
  wake_front is_stop queue task rest calm e = rw (calm, e)

  again :
      (f : ℕ → Pc A) (p : Pc A) (i : ℕ)
      → f i ≡ waiting
      → update (update f 0 p) 0 waiting i ≡ waiting
  again f p i e = ground (arith, e)

  all_done :
      (measure : A → ℕ) (n : ℕ) (t : Pool A) (pushed : List A)
      → total measure t.pushed
        ≡ total measure t.request_queues
          + weigh (in_hand measure) n t.reader_threads
          + total measure t.finished
      → t.pushed ≡ pushed
      → t.request_queues ≡ []
      → ((i : ℕ) → i < n → t.reader_threads i ≡ waiting)
      → total measure t.finished ≡ total measure pushed
  all_done measure n t pushed v same empty idle = omega (
    arith,
    v,
    ap (total measure) same,
    ap (total measure) empty,
    weigh-eq-zero (in_hand measure) n t.reader_threads (λ i lt. ap (in_hand measure) (idle i lt)),
  )

  -- The queue that one waiting thread empties alone.
  serve_queue :
      (n : ℕ) (queue : List A) (s : Pool A)
      → 0 < n
      → s.request_queues ≡ queue
      → s.is_stop ≡ false
      → ((i : ℕ) → i < n → s.reader_threads i ≡ waiting)
      → (t : Pool A) × Drained n s t
  serve_queue n [] s pos e calm idle =
      (s, record { steps = here; same = refl; empty = e; idle = idle })
  serve_queue n (task ∷ rest) s pos e calm idle =
      let taken = update s.reader_threads 0 (working task) in
      let busy : Pool A = record s { request_queues = rest; reader_threads = taken } in
      let free : Pool A = record busy {
        reader_threads = update taken 0 waiting;
        finished = s.finished ++ task ∷ [];
      } in
      let (t, d) =
        serve_queue n rest free pos refl calm
          (λ i lt. again s.reader_threads (working task) i (idle i lt)) in
      (
        t,
        record {
          steps =
              Reach-trans
                (later
                  (later here (
                    wakes 0 pos (idle 0 pos)
                      (wake_front s.is_stop s.request_queues task rest calm e)))
                  (finishes 0 pos (update_self s.reader_threads 0 (working task))))
                d.steps;
          same = d.same;
          empty = d.empty;
          idle = d.idle;
        },
      )

module _ {ℓ} {A : Type ℓ} where
  -- With a thread at least, and before `is_stop_` is set, every state that the pool reaches can go
  -- on with no new task to one in which, for any measure of tasks, the tasks processed are all that
  -- were pushed.
  pub pool_drains :
      {n : ℕ} {s : Pool A}
      → 0 < n
      → Reach n start s
      → s.is_stop ≡ false
      → (t : Pool A) × Reach n s t
        × (t.pushed ≡ s.pushed)
        × ((measure : A → ℕ) → total measure t.finished ≡ total measure s.pushed)
  pool_drains {n} {s} pos r calm =
      let (mid, m) = settle n n s (omega arith) (Reach-Alive r calm) in
      let (t, d) = serve_queue n mid.request_queues mid pos refl (m.calm ∙ calm) m.below in
      let path = Reach-trans m.steps d.steps in
      let same = d.same ∙ m.same in
      (
        t,
        path,
        same,
        λ measure.
            all_done measure n t s.pushed (tasks_accounted measure (Reach-trans r path)) same
              d.empty d.idle,
      )
