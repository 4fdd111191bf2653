-- ===== src/Manager/Barrier/Near.antt =====
-- code/src/model_manger.cpp: the versions of the nodes of a cluster.
use prob_alimama_2023_a.Base.{
  ◌↔◌, ℕ, suc, ◌+◌, ◌≤◌, ◌<◌, ◌≡◌, ◌≢◌, sym, ap, ◌∙◌, subst, inl, inr, Bool, Bool-cases, true,
  false, List, [], ◌∷◌, ◌++◌, arith, length-map, ltb, ◌==◌, ◌||◌, ◌&&◌, if◌then◌else◌, Bytes, equal,
  equal_iff, equal_refl, dec_lt, ℕ_discrete,
}
use prob_alimama_2023_a.Base.Threads.{weigh-cong, weigh-one, update}
use prob_alimama_2023_a.Base.Pigeonhole.{count, Among, pigeonhole, length-le-weigh, weigh-le-length}
use prob_alimama_2023_a.Text.{to_string}
use prob_alimama_2023_a.Etcd.{Etcd, EtcdLaws, keys, times}
use prob_alimama_2023_a.Manager.Barrier.{
  target_dir, node_key, Node, Cluster, register, all_registered, Step, registers, passes, Reach,
  here, later, fresh,
}
use prob_alimama_2023_a.Manager.Barrier.Names.{node_key-eq, target_dir-eq, to_string-NoSlash}

-- The node has set its key for the version.
abbrev pub past : ℕ → Node → Bool
past v node = ltb v node.version || (v == node.version && node.registered)

-- A list whose every member is named holds only names.
Among-of :
    (name : ℕ → Bytes) (n : ℕ) (xs : List Bytes)
    → ((k : Bytes) → 1 ≤ count equal k xs → (i : ℕ) × (i < n) × (k ≡ name i))
    → Among equal name n xs
Among-of name n [] h = tt
Among-of name n (x ∷ xs) h = (head, Among-of name n xs (λ k le. h k (ground (arith, le))))
  where
    head : (i : ℕ) × (i < n) × (equal x (name i) ≡ true)
    head =
        let (i, lt, e) = h x (ground (arith, equal_refl x)) in (i, lt, (equal_iff x (name i)).1 e)

module _ (etcd : Etcd) (laws : EtcdLaws etcd) (node_num : ℕ) where
  abbrev seen : ℕ → ℕ → Cluster etcd → ℕ
  seen v i s = times etcd (node_key v i) s.store (target_dir v)

  record Inv (s : Cluster etcd) : Type 0 where
    listed : (v i : ℕ) → i < node_num → seen v i s ≡ (if past v (s.nodes i) then 1 else 0)
    only :
        (v : ℕ) (k : Bytes)
        → 1 ≤ times etcd k s.store (target_dir v)
        → (i : ℕ) × (i < node_num) × (k ≡ node_key v i)
    near : (i j : ℕ) → i < node_num → j < node_num → (s.nodes i).version ≤ (s.nodes j).version + 1

  -- What a key that is set does to the listings.
  register-same :
      (v i : ℕ) (store : etcd.Store) (k : Bytes)
      → times etcd k (register etcd i v store) (target_dir v)
        ≡ (if equal (node_key v i) k then 1 else times etcd k store (target_dir v))
  unfolding register node_key
  register-same v i store k =
      laws.set_inside store (target_dir v) (to_string i) (to_string i) k (to_string-NoSlash i)

  register-other :
      (v w i : ℕ) (store : etcd.Store) (k : Bytes)
      → v ≢ w
      → times etcd k (register etcd i v store) (target_dir w) ≡ times etcd k store (target_dir w)
  unfolding register node_key
  register-other v w i store k h =
      laws.set_outside store (target_dir w) (target_dir v ++ to_string i) (to_string i) k
        (λ name e. h (target_dir-eq v w (to_string i) name e))

  once :
      (s : Cluster etcd)
      → Inv s
      → (v i : ℕ) → count equal (node_key v i) (keys etcd s.store (target_dir v)) ≤ 1
  once s inv v i = elim (dec_lt 0 (count equal (node_key v i) (keys etcd s.store (target_dir v)))) [
    | no none_there ↦ omega (arith, none_there)
    | yes there ↦
        let (j, lt, e) = inv.only v (node_key v i) there in
        let same = node_key-eq v i j e in
        ground (
          arith,
          inv.listed v j lt,
          ap (λ z. count equal (node_key v z) (keys etcd s.store (target_dir v))) same,
        )
  ]

  -- If the folder of a version lists as many keys as there are nodes, every node is past it.
  all_registered-past :
      (s : Cluster etcd)
      → Inv s
      → (v : ℕ) → all_registered etcd node_num v s.store ≡ true
      → (j : ℕ) → j < node_num
      → v ≤ (s.nodes j).version
  unfolding all_registered
  all_registered-past s inv v full j lt =
      let one =
        pigeonhole equal (node_key v) node_num (keys etcd s.store (target_dir v))
          (Among-of (node_key v) node_num (keys etcd s.store (target_dir v)) (inv.only v))
          (once s inv v)
          (ground (arith, full, length-map (etcd.ls s.store (target_dir v)) (λ entry. entry.0))) j
          lt in
      ground (arith, one, inv.listed v j lt)

  passes-Inv :
      (s : Cluster etcd) (i : ℕ)
      → i < node_num
      → (s.nodes i).registered ≡ true
      → all_registered etcd node_num (s.nodes i).version s.store ≡ true
      → Inv s
      → Inv (record s {
        nodes = update s.nodes i (record { version = suc (s.nodes i).version; registered = false });
      })
  passes-Inv s i lt reg full inv = record {
    listed = λ v j less. ground (arith, inv.listed v j less, reg);
    only = inv.only;
    near = λ j k jl kl. ground (
      arith,
      inv.near j k jl kl,
      inv.near i k lt kl,
      all_registered-past s inv (s.nodes i).version full k kl,
    );
  }

  registered_only :
      (s : Cluster etcd) (i : ℕ)
      → i < node_num
      → Inv s
      → (v : ℕ) (k : Bytes)
      → 1 ≤ times etcd k (register etcd i (s.nodes i).version s.store) (target_dir v)
      → (j : ℕ) × (j < node_num) × (k ≡ node_key v j)
  registered_only s i lt inv v k le = elim (ℕ_discrete v (s.nodes i).version) [
    | no other ↦ inv.only v k (
        subst (λ z. 1 ≤ z) (register-other (s.nodes i).version v i s.store k (λ e. other (sym e)))
          le)
    | yes same ↦ elim (Bool-cases (equal (node_key v i) k)) [
      | inl new ↦ (i, lt, sym ((equal_iff (node_key v i) k).0 new))
      | inr old ↦ inv.only v k (ground (arith, le, old, same, register-same v i s.store k))
    ]
  ]

  registers-Inv :
      (s : Cluster etcd) (i : ℕ)
      → i < node_num
      → (s.nodes i).registered ≡ false
      → Inv s
      → Inv (record {
        store = register etcd i (s.nodes i).version s.store;
        nodes = update s.nodes i (record (s.nodes i) { registered = true });
      })
  registers-Inv s i lt reg inv = record {
    listed = λ v j less. elim (ℕ_discrete v (s.nodes i).version) [
      | yes same ↦ ground (
        arith,
        inv.listed v j less,
        reg,
        same,
        register-same v i s.store (node_key v j),
        equal_iff (node_key v i) (node_key v j),
        node_key-eq v i j,
      )
      | no other ↦ ground (
        arith,
        inv.listed v j less,
        other,
        register-other (s.nodes i).version v i s.store (node_key v j) (λ e. other (sym e)),
      )
    ];
    only = λ v k le. registered_only s i lt inv v k le;
    near = λ j k jl kl. ground (arith, inv.near j k jl kl, inv.near i k lt kl, inv.near j i jl lt);
  }

  Step-Inv : {s t : Cluster etcd} → Step etcd node_num s t → Inv s → Inv t
  Step-Inv {s} (registers i lt reg) inv = registers-Inv s i lt reg inv
  Step-Inv {s} (passes i lt reg full) inv = passes-Inv s i lt reg full inv

  -- No folder of a version lists a key.
  abbrev pub Blank : etcd.Store → Type 0
  Blank store = (v : ℕ) (k : Bytes) → times etcd k store (target_dir v) ≡ 0

  Reach-Inv :
      {store : etcd.Store} {s : Cluster etcd}
      → Blank store
      → Reach etcd node_num (fresh etcd store) s
      → Inv s
  Reach-Inv {store} blank here = record {
    listed = λ v i lt. ground (arith, blank v (node_key v i));
    only = λ v k le. absurd (omega (arith, le, blank v k));
    near = λ i j il jl. omega arith;
  }
  Reach-Inv blank (later r step) = Step-Inv step (Reach-Inv blank r)

  -- In any interleaving of the nodes of a cluster, from version 0 and a service in which no folder
  -- of a version lists a key, the versions of two nodes differ by one at most.
  pub versions_near :
      {store : etcd.Store} {s : Cluster etcd} (i j : ℕ)
      → Blank store
      → Reach etcd node_num (fresh etcd store) s
      → i < node_num
      → j < node_num
      → (s.nodes i).version ≤ (s.nodes j).version + 1
  versions_near i j blank r il jl = (Reach-Inv blank r).near i j il jl

  -- Keys that stand for one node stand for no other.
  distinct_keys :
      (v : ℕ) (x : Bytes) (i j : ℕ)
      → equal x (node_key v i) ≡ true
      → equal x (node_key v j) ≡ true
      → i ≡ j
  distinct_keys v x i j a b =
      node_key-eq v i j (sym ((equal_iff x (node_key v i)).0 a) ∙ (equal_iff x (node_key v j)).0 b)

  -- In any such interleaving the wait for a version is over if and only if every node has set its
  -- key for that version.
  pub barrier_opens :
      {store : etcd.Store} {s : Cluster etcd} (v : ℕ)
      → Blank store
      → Reach etcd node_num (fresh etcd store) s
      → (all_registered etcd node_num v s.store ≡ true)
        ↔ ((i : ℕ) → i < node_num → past v (s.nodes i) ≡ true)
  unfolding all_registered
  barrier_opens {s = s} v blank r =
      let inv = Reach-Inv blank r in
      let names = keys etcd s.store (target_dir v) in
      let among = Among-of (node_key v) node_num names (inv.only v) in
      let size = length-map (etcd.ls s.store (target_dir v)) (λ entry. entry.0) in
      (
        (λ full i lt. ground (
          arith,
          inv.listed v i lt,
          pigeonhole equal (node_key v) node_num names among (once s inv v)
              (ground (arith, full, size)) i lt,
        )),
        (λ all.
            let ones =
              weigh-cong (λ i. count equal (node_key v i) names) (λ i. 1) node_num (λ i. i) (λ i. i)
                (λ i lt. ground (arith, inv.listed v i lt, all i lt)) in
            ground (
              arith,
              size,
              ones,
              weigh-one node_num,
              length-le-weigh equal (node_key v) node_num names among,
              weigh-le-length equal (node_key v) node_num names
                  (λ x i j il jl a b. distinct_keys v x i j a b),
            )),
      )
