-- ===== src/Service/Route.antt =====
-- code/src/model_service.cpp: what the routing loop makes of a request.
use prob_alimama_2023_a.Base.{
  ℕ, ℕ_discrete, ◌+◌, ◌<◌, ◌≡◌, refl, sym, subst, ite, ◌∙◌, ap, Option, none, some, [], ◌∷◌, List,
  arith, All, All-append_left, All-append_right, Option-cases, inl, inr,
}
use prob_alimama_2023_a.Base.Threads.{update, update_self, weigh, weigh-update}
use prob_alimama_2023_a.Request.{SliceRequest, SliceData, RequestTask, locate, add_size}
use prob_alimama_2023_a.Request.Located.{AllLocated, AllLocated-of}
use prob_alimama_2023_a.Service.{add_slice, route}

abbrev pub sum_of : (SliceRequest → ℕ) → List SliceRequest → ℕ
sum_of c [] = 0
sum_of c (sr ∷ srs) = c sr + sum_of c srs

module _ (node_of : ℕ → Option ℕ) (node_num : ℕ) where
  abbrev placed_in : (ℕ → RequestTask) → ℕ → SliceRequest → ℕ → ℕ → RequestTask
  placed_in tasks node sr size = update tasks node (add_slice (tasks node) (locate sr size))

  -- One round of the loop.
  record Routed (sr : SliceRequest) (srs : List SliceRequest) (size : ℕ)
      (tasks tasks' : ℕ → RequestTask) (size' : ℕ) : Type 0 where
    node : ℕ
    found : node_of sr.slice_partition ≡ some node
    known : node < node_num
    rest :
        route node_of node_num srs (add_size size sr.data_len) (placed_in tasks node sr size)
        ≡ some (tasks', size')

  route-Routed :
      (sr : SliceRequest) (srs : List SliceRequest) (size : ℕ) (tasks : ℕ → RequestTask)
      {tasks' : ℕ → RequestTask} {size' : ℕ}
      → route node_of node_num (sr ∷ srs) size tasks ≡ some (tasks', size')
      → Routed sr srs size tasks tasks' size'
  unfolding route
  route-Routed sr srs size tasks e = elim (Option-cases (node_of sr.slice_partition)) [
    | inl missing ↦ absurd (ground (arith, rw missing at e))
    | inr (node, found) ↦ record {
      node = node;
      found = found;
      known = ground (arith, rw found at e);
      rest = ground (arith, rw found at e);
    }
  ]

  route-nil :
      (size : ℕ) (tasks : ℕ → RequestTask) {tasks' : ℕ → RequestTask} {size' : ℕ}
      → route node_of node_num [] size tasks ≡ some (tasks', size')
      → tasks ≡ tasks'
  unfolding route
  route-nil size tasks e =
      ap (λ (o : Option ((ℕ → RequestTask) × ℕ)). elim o [ none ↦ tasks | some (t, n) ↦ t ]) e

  -- What holds of each task, and stays so when a slice is added to it, holds in the end.
  pub route-each {ℓ} :
      (P : ℕ → RequestTask → Type ℓ) (srs : List SliceRequest) (size : ℕ) (tasks : ℕ → RequestTask)
      {tasks' : ℕ → RequestTask} {size' : ℕ}
      → route node_of node_num srs size tasks ≡ some (tasks', size')
      → AllLocated
          (λ sr sd.
            (k : ℕ) (t : RequestTask)
            → node_of sr.slice_partition ≡ some k
            → P k t
            → P k (add_slice t sd))
          size
          srs
      → ((k : ℕ) → P k (tasks k))
      → (k : ℕ) → P k (tasks' k)
  route-each P [] size tasks e keep h =
      λ k. subst (λ (f : ℕ → RequestTask). P k (f k)) (route-nil size tasks e) (h k)
  route-each P (sr ∷ srs) size tasks e keep h =
      let r = route-Routed sr srs size tasks e in
      route-each P srs (add_size size sr.data_len) (placed_in tasks r.node sr size) r.rest keep.1
        (λ k. added r.node r.found k (ℕ_discrete k r.node))
    where
      added :
          (node : ℕ)
          → node_of sr.slice_partition ≡ some node
          → (k : ℕ) → (d : Dec (k ≡ node))
          → P k (ite d (add_slice (tasks node) (locate sr size)) (tasks k))
      added node found k (yes same) =
          subst (λ j. P j (add_slice (tasks node) (locate sr size))) (sym same)
            (keep.0 node (tasks node) found (h node))
      added node found k (no other) = h k

  -- A weight of the tasks grows by what each slice adds to the task that it goes to.
  pub route-weigh :
      (w : RequestTask → ℕ) (c : SliceRequest → ℕ) (srs : List SliceRequest) (size : ℕ)
      (tasks : ℕ → RequestTask) {tasks' : ℕ → RequestTask} {size' : ℕ}
      → route node_of node_num srs size tasks ≡ some (tasks', size')
      → AllLocated (λ sr sd. (t : RequestTask) → w (add_slice t sd) ≡ w t + c sr) size srs
      → weigh w node_num tasks' ≡ weigh w node_num tasks + sum_of c srs
  route-weigh w c [] size tasks e h =
      ap (weigh w node_num) (sym (route-nil size tasks e)) ∙ omega arith
  route-weigh w c (sr ∷ srs) size tasks e h =
      let r = route-Routed sr srs size tasks e in
      let next = placed_in tasks r.node sr size in
      omega (
        arith,
        route-weigh w c srs (add_size size sr.data_len) next r.rest h.1,
        weigh-update w node_num tasks r.node (add_slice (tasks r.node) (locate sr size)) r.known,
        h.0 (tasks r.node),
      )

  -- The loop only adds slices.
  route-keeps {ℓ} :
      (R : SliceData → Type ℓ) (srs : List SliceRequest) (size : ℕ) (tasks : ℕ → RequestTask)
      {tasks' : ℕ → RequestTask} {size' : ℕ}
      → route node_of node_num srs size tasks ≡ some (tasks', size')
      → (k : ℕ) → All R (tasks' k).req_slice_list
      → All R (tasks k).req_slice_list
  unfolding add_slice
  route-keeps R srs size tasks e =
      route-each Back srs size tasks e
        (AllLocated-of Adds
          (λ sr sd k t found back more. back (All-append_left R t.req_slice_list (sd ∷ []) more))
          size srs)
        (λ k a. a)
    where
      Back : ℕ → RequestTask → Type ℓ
      Back k t = All R t.req_slice_list → All R (tasks k).req_slice_list

      Adds : SliceRequest → SliceData → Type ℓ
      Adds sr sd =
          (k : ℕ) (t : RequestTask)
          → node_of sr.slice_partition ≡ some k
          → Back k t
          → Back k (add_slice t sd)

  -- What holds of all slices of all tasks holds of each located slice.
  pub route-covers {ℓ} :
      (R : SliceData → Type ℓ) (srs : List SliceRequest) (size : ℕ) (tasks : ℕ → RequestTask)
      {tasks' : ℕ → RequestTask} {size' : ℕ}
      → route node_of node_num srs size tasks ≡ some (tasks', size')
      → ((k : ℕ) → k < node_num → All R (tasks' k).req_slice_list)
      → AllLocated (λ sr sd. R sd) size srs
  route-covers R [] size tasks e h = tt
  route-covers R (sr ∷ srs) size tasks {tasks'} e h =
      let r = route-Routed sr srs size tasks e in
      let next = placed_in tasks r.node sr size in
      let kept : All R (next r.node).req_slice_list =
        route-keeps R srs (add_size size sr.data_len) next r.rest r.node (h r.node r.known) in
      (
        last_added r.node (
            subst (λ (t : RequestTask). All R t.req_slice_list)
              (update_self tasks r.node (add_slice (tasks r.node) (locate sr size))) kept),
        route-covers R srs (add_size size sr.data_len) next r.rest h,
      )
    where
      last_added :
          (node : ℕ)
          → All R (add_slice (tasks node) (locate sr size)).req_slice_list
          → R (locate sr size)
      last_added node a =
          (All-append_right R (tasks node).req_slice_list (locate sr size ∷ [])
            (unfold add_slice in a)).0

  -- The loop ends without a fault if every slice has a node.
  pub route-total :
      (srs : List SliceRequest) (size : ℕ) (tasks : ℕ → RequestTask)
      → All (λ sr. (k : ℕ) × (node_of sr.slice_partition ≡ some k) × (k < node_num)) srs
      → (tasks' : ℕ → RequestTask) × (size' : ℕ) × (route node_of node_num srs size tasks
          ≡ some (tasks', size'))
  unfolding route
  route-total [] size tasks h = (tasks, size, refl)
  route-total (sr ∷ srs) size tasks ((k, found, known), h) =
      let (tasks', size', e) =
        route-total srs (add_size size sr.data_len) (placed_in tasks k sr size) h in
      (tasks', size', rw found (ground (arith, e)))
