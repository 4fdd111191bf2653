-- ===== src/ConcurrentQueue/Order.antt =====
-- testbench/concurent_queue.h: the order, the bound and the end of the queue.
use prob_alimama_2023_a.Base.{
  ℕ, ◌<◌, ◌≤◌, ◌≡◌, refl, sym, ap, ap₂, ◌∙◌, subst, ◌⊎◌, inl, inr, Bool-cases, true, false, some,
  List, [], ◌∷◌, ◌++◌, length, length-append, append_assoc, ◌==◌, arith,
}
use prob_alimama_2023_a.ConcurrentQueue.{
  ConcurrentQueue, ok, concurrent_queue, can_push, push_back, try_pop, wait_and_pop, close, Traffic,
  Step, pushes, tries, pops, closes, Reach, here, later, fresh,
}

module _ {ℓ} {A : Type ℓ} where
  List-cases : (xs : List A) → (xs ≡ []) ⊎ ((x : A) × (rest : List A) × (xs ≡ x ∷ rest))
  List-cases [] = inl refl
  List-cases (x ∷ rest) = inr (x, rest, refl)

  popped_eq :
      (c d : ConcurrentQueue A) (x v : A) (rest : List A)
      → c.is_closed ≡ false
      → c.q ≡ x ∷ rest
      → x ≡ v
      → record c { q = rest } ≡ d
      → (c.is_closed ≡ false) × (c.q ≡ v ∷ d.q) × (d ≡ record c { q = d.q })
  popped_eq c d x v rest e n f g =
      (e, n ∙ ap₂ (λ a b. a ∷ b) f (ap (λ z. z.q) g), sym g ∙ ap (λ z. record c { q = z.q }) g)

  -- What a push or a pop that succeeds does.
  push_back-ok :
      (c d : ConcurrentQueue A) (v : A)
      → push_back c v ≡ some (ok, d)
      → (can_push c ≡ true) × (c.is_closed ≡ false) × (d ≡ record c { q = c.q ++ v ∷ [] })
  unfolding push_back
  push_back-ok c d v h = elim (Bool-cases (can_push c)) [
    | inr p ↦ cc (p, h)
    | inl p ↦ elim (Bool-cases c.is_closed) [ inl e ↦ cc (p, e, h) | inr e ↦ (p, e, cc (p, e, h)) ]
  ]

  try_pop-ok :
      (c d : ConcurrentQueue A) (v : A)
      → try_pop c ≡ (ok, some (v, d))
      → (c.is_closed ≡ false) × (c.q ≡ v ∷ d.q) × (d ≡ record c { q = d.q })
  unfolding try_pop
  try_pop-ok c d v h = elim (List-cases c.q) [
    | inl n ↦ cc (n, h)
    | inr (x, rest, n) ↦ elim (Bool-cases c.is_closed) [
      | inl e ↦ cc (n, e, h)
      | inr e ↦ popped_eq c d x v rest e n (cc (n, e, h)) (cc (n, e, h))
    ]
  ]

  wait_and_pop-ok :
      (c d : ConcurrentQueue A) (v : A)
      → wait_and_pop c ≡ some (ok, some (v, d))
      → (c.is_closed ≡ false) × (c.q ≡ v ∷ d.q) × (d ≡ record c { q = d.q })
  unfolding wait_and_pop
  wait_and_pop-ok c d v h = elim (Bool-cases c.is_closed) [
    | inl e ↦ cc (e, h)
    | inr e ↦ elim (List-cases c.q) [
      | inl n ↦ cc (n, e, h)
      | inr (x, rest, n) ↦ popped_eq c d x v rest e n (cc (n, e, h)) (cc (n, e, h))
    ]
  ]

  -- The order is kept, the bound too.
  record Inv (capacity : ℕ) (s : Traffic A) : Type ℓ where
    order : s.pushed ≡ s.popped ++ s.queue.q
    same : s.queue.capacity ≡ capacity
    bound : (capacity ≡ 0) ⊎ (length s.queue.q ≤ capacity)

  can_push-room :
      (c : ConcurrentQueue A)
      → can_push c ≡ true
      → c.is_closed ≡ false
      → (c.capacity ≡ 0) ⊎ (length c.q < c.capacity)
  unfolding can_push
  can_push-room c p e = elim (Bool-cases (c.capacity == 0)) [
    | inl z ↦ inl (ground (arith, z))
    | inr z ↦ inr (ground (arith, z, p, e))
  ]

  push-Inv :
      (capacity : ℕ) (s : Traffic A) (c : ConcurrentQueue A) (v : A)
      → Inv capacity s
      → push_back s.queue v ≡ some (ok, c)
      → Inv capacity (record { queue = c; pushed = s.pushed ++ v ∷ []; popped = s.popped })
  push-Inv capacity s c v inv h =
      let (p, e, f) = push_back-ok s.queue c v h in
      subst
        (λ d. Inv capacity (record { queue = d; pushed = s.pushed ++ v ∷ []; popped = s.popped }))
        (sym f)
        (record {
          order = ap (λ z. z ++ v ∷ []) inv.order ∙ append_assoc s.popped s.queue.q (v ∷ []);
          same = inv.same;
          bound = elim (can_push-room s.queue p e) [
            | inl z ↦ inl (sym inv.same ∙ z)
            | inr b ↦ inr (omega (arith, b, inv.same, length-append s.queue.q (v ∷ [])))
          ];
        })

  pop-Inv :
      (capacity : ℕ) (s : Traffic A) (c : ConcurrentQueue A) (v : A)
      → Inv capacity s
      → s.queue.q ≡ v ∷ c.q
      → c ≡ record s.queue { q = c.q }
      → Inv capacity (record { queue = c; pushed = s.pushed; popped = s.popped ++ v ∷ [] })
  pop-Inv capacity s c v inv e f = record {
    order = inv.order ∙ ap (λ z. s.popped ++ z) e ∙ sym (append_assoc s.popped (v ∷ []) c.q);
    same = ap (λ z. z.capacity) f ∙ inv.same;
    bound = elim inv.bound [ inl z ↦ inl z | inr b ↦ inr (omega (arith, b, ap length e)) ];
  }

  Step-Inv : (capacity : ℕ) {s t : Traffic A} → Inv capacity s → Step s t → Inv capacity t
  unfolding close
  Step-Inv capacity {s = s} inv (pushes v {c = c} h) = push-Inv capacity s c v inv h
  Step-Inv capacity {s = s} inv (tries {v = v} {c = c} h) =
      let facts = try_pop-ok s.queue c v h in pop-Inv capacity s c v inv facts.1 facts.2
  Step-Inv capacity {s = s} inv (pops {v = v} {c = c} h) =
      let facts = wait_and_pop-ok s.queue c v h in pop-Inv capacity s c v inv facts.1 facts.2
  Step-Inv capacity inv closes = record { order = inv.order; same = inv.same; bound = inv.bound }

  Reach-Inv : (capacity : ℕ) {s t : Traffic A} → Inv capacity s → Reach s t → Inv capacity t
  Reach-Inv capacity inv here = inv
  Reach-Inv capacity inv (later r step) = Step-Inv capacity (Reach-Inv capacity inv r) step

  -- In any interleaving from an empty queue what came out is, in order, the front of what went in,
  -- the rest is in the queue, and a queue of a capacity above 0 holds no more than that.
  pub queue_order :
      (capacity : ℕ) (s : Traffic A)
      → Reach (fresh capacity) s
      → (s.pushed ≡ s.popped ++ s.queue.q) × ((capacity ≡ 0) ⊎ (length s.queue.q ≤ capacity))
  unfolding concurrent_queue
  queue_order capacity s r =
      let inv =
        Reach-Inv capacity (record { order = refl; same = refl; bound = inr (omega arith) }) r in
      (inv.order, inv.bound)

  closed-Step :
      {s t : Traffic A}
      → s.queue.is_closed ≡ true
      → Step s t
      → (t.queue.is_closed ≡ true)
        × (t.queue.q ≡ s.queue.q)
        × (t.pushed ≡ s.pushed)
        × (t.popped ≡ s.popped)
  unfolding close
  closed-Step {s = s} e (pushes v {c = c} h) = cc (e, (push_back-ok s.queue c v h).1)
  closed-Step {s = s} e (tries {v = v} {c = c} h) = cc (e, (try_pop-ok s.queue c v h).0)
  closed-Step {s = s} e (pops {v = v} {c = c} h) = cc (e, (wait_and_pop-ok s.queue c v h).0)
  closed-Step e closes = (refl, refl, refl, refl)

  -- Once the queue is closed nothing goes in or out of it any more, whatever is still in it.
  closed_stays :
      {s t : Traffic A}
      → s.queue.is_closed ≡ true
      → Reach s t
      → (t.queue.is_closed ≡ true)
        × (t.queue.q ≡ s.queue.q)
        × (t.pushed ≡ s.pushed)
        × (t.popped ≡ s.popped)
  closed_stays e here = (e, refl, refl, refl)
  closed_stays e (later r step) =
      let (a, b, c, d) = closed_stays e r in
      let (f, g, h, i) = closed-Step a step in (f, g ∙ b, h ∙ c, i ∙ d)
