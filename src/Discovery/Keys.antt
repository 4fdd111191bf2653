-- ===== src/Discovery/Keys.antt =====
-- code/src/model_service.cpp: the stubs that the keys of a listing give.
use prob_alimama_2023_a.Base.{
  ℕ, zero, suc, ◌+◌, ◌^◌, ◌≤◌, ◌<◌, ◌≡◌, ◌≢◌, refl, sym, subst, ap, ◌∙◌, inl, inr, Bool, true, none,
  some, List, [], ◌∷◌, ◌++◌, map, get_elem?, append-nil, Option-cases, Bool-cases, length,
  length-append, length-map, All, All-append, ◌==◌, if◌then◌else◌, Bytes, arith, ℕ_discrete, drop,
}
use prob_alimama_2023_a.Base.Threads.{weigh, weigh-cong, weigh-one}
use prob_alimama_2023_a.Base.Pigeonhole.{count, Among, pigeonhole, length-le-weigh, weigh-le-length}
use prob_alimama_2023_a.Text.{stoi, substr_from, to_string}
use prob_alimama_2023_a.Text.Numbers.{stoi-to_string, to_string-eq}
use prob_alimama_2023_a.Discovery.{
  internalservice_dir, Stubs, find_stub, add_stub, connect, connect_keys, Round,
}

abbrev pub eq : ℕ → ℕ → Bool
eq a b = a == b

abbrev pub nodes : Stubs → List ℕ
nodes stubs = map (λ stub. stub.0) stubs

module _ (node_id node_num : ℕ) (address : ℕ → Bytes) where
  -- A key that a node of the cluster has set for itself.
  pub record Entry (entry : Bytes × Bytes) : Type 0 where
    pub node : ℕ
    pub known : node < node_num
    pub key : entry.0 ≡ internalservice_dir ++ address node
    pub value : entry.1 ≡ to_string node

  abbrev pub Honest : Round → Type 0
  Honest round = elim round.listing [ none ↦ Unit | some keys ↦ All Entry keys ]

  -- A stub leads to another node, at its address; no node has two.
  pub record Stub (stub : ℕ × Bytes) : Type 0 where
    pub known : stub.0 < node_num
    pub other : stub.0 ≢ node_id
    pub place : stub.1 ≡ address stub.0

  pub record Inv (stubs : Stubs) : Type 0 where
    pub each : All Stub stubs
    pub once : (i : ℕ) → count eq i (nodes stubs) ≤ 1

  find_stub-count :
      (i : ℕ) (stubs : Stubs) → find_stub i stubs ≡ none → count eq i (nodes stubs) ≡ 0
  unfolding find_stub
  find_stub-count i [] e = refl
  find_stub-count i ((k, a) ∷ stubs) e = ground (arith, find_stub-count i stubs, e)

  count-find_stub :
      (i : ℕ) (stubs : Stubs)
      → All Stub stubs
      → 1 ≤ count eq i (nodes stubs)
      → find_stub i stubs ≡ some (address i)
  unfolding find_stub
  count-find_stub i [] all h = absurd (omega (arith, h))
  count-find_stub i ((k, a) ∷ stubs) (s, all) h = elim (ℕ_discrete k i) [
    | yes e ↦
        subst (λ j. find_stub j ((k, a) ∷ stubs) ≡ some (address j)) e (ground (arith, s.place))
    | no n ↦ ground (arith, n, count-find_stub i stubs all, h)
  ]

  count-append :
      (i k : ℕ) (a : Bytes) (stubs : Stubs)
      → count eq i (nodes (stubs ++ (k, a) ∷ []))
        ≡ count eq i (nodes stubs) + (if k == i then 1 else 0)
  count-append i k a [] = omega arith
  count-append i k a ((j, b) ∷ stubs) = omega (arith, count-append i k a stubs)

  drop-append : (pre post : Bytes) → drop (length pre) (pre ++ post) ≡ post
  drop-append [] post = refl
  drop-append (c ∷ pre) post = drop-append pre post

  substr_from-append : (pre post : Bytes) → substr_from (pre ++ post) (length pre) ≡ some post
  unfolding substr_from
  substr_from-append pre post = ground (arith, length-append pre post, drop-append pre post)

  connect-Entry :
      (reachable : Bytes → Bool) (key value : Bytes) (stubs : Stubs)
      → node_num ≤ 2 ^ 31
      → (e : Entry (key, value))
      → connect reachable node_id key value stubs
        ≡ some (add_stub reachable node_id e.node (address e.node) stubs)
  unfolding connect
  connect-Entry reachable key value stubs small e = rw (
    connect,
    e.value,
    e.key,
    ap stoi (sym (append-nil (to_string e.node)))
        ∙ stoi-to_string e.node [] (omega (arith, small, e.known)) tt,
    substr_from-append internalservice_dir (address e.node),
  )

  add_stub-Inv :
      (reachable : Bytes → Bool) (node : ℕ) (stubs : Stubs)
      → node < node_num
      → Inv stubs
      → Inv (add_stub reachable node_id node (address node) stubs)
  unfolding add_stub
  add_stub-Inv reachable node stubs known v = elim (ℕ_discrete node node_id) [
    | yes e ↦ subst Inv (ground (arith, e)) v
    | no n ↦ elim (Option-cases (find_stub node stubs)) [
      | inr (a, e) ↦ subst Inv (ground (arith, e, n)) v
      | inl e ↦ elim (Bool-cases (reachable (address node))) [
        | inr f ↦ subst Inv (ground (arith, e, n, f)) v
        | inl t ↦ subst Inv (ground (arith, e, n, t)) (record {
          each =
              All-append Stub stubs ((node, address node) ∷ []) v.each
                (record { known = known; other = n; place = refl }, tt);
          once = λ i. ground (
            arith,
            count-append i node (address node) stubs,
            v.once i,
            find_stub-count node stubs e,
          );
        })
      ]
    ]
  ]

  -- Once there is a stub, it stays.
  add_stub-count :
      (reachable : Bytes → Bool) (node : ℕ) (stubs : Stubs) (i : ℕ)
      → count eq i (nodes stubs)
        ≤ count eq i (nodes (add_stub reachable node_id node (address node) stubs))
  unfolding add_stub
  add_stub-count reachable node stubs i = ground (arith, count-append i node (address node) stubs)

  find_stub-count-some :
      (i : ℕ) (stubs : Stubs) (a : Bytes)
      → find_stub i stubs ≡ some a
      → 1 ≤ count eq i (nodes stubs)
  unfolding find_stub
  find_stub-count-some i [] a e = cc e
  find_stub-count-some i ((k, b) ∷ stubs) a e = elim (ℕ_discrete k i) [
    | yes q ↦ ground (arith, q)
    | no n ↦ omega (arith, find_stub-count-some i stubs a (ground (arith, e, n)))
  ]

  add_stub-found :
      (reachable : Bytes → Bool) (node : ℕ) (stubs : Stubs)
      → node ≢ node_id
      → reachable (address node) ≡ true
      → 1 ≤ count eq node (nodes (add_stub reachable node_id node (address node) stubs))
  unfolding add_stub
  add_stub-found reachable node stubs n t = elim (Option-cases (find_stub node stubs)) [
    | inr (a, e) ↦ ground (arith, n, e, find_stub-count-some node stubs a e)
    | inl e ↦ ground (arith, n, t, e, count-append node node (address node) stubs)
  ]

  -- What a listing of such keys leaves.
  pub record Connected (reachable : Bytes → Bool) (keys : List (Bytes × Bytes)) (stubs : Stubs)
      : Type 0 where
    pub next : Stubs
    pub ran : connect_keys reachable node_id keys stubs ≡ some next
    pub kept : Inv next
    pub more : (i : ℕ) → count eq i (nodes stubs) ≤ count eq i (nodes next)
    pub there :
        (k j : ℕ)
        → get_elem? keys k ≡ some (internalservice_dir ++ address j, to_string j)
        → j ≢ node_id
        → reachable (address j) ≡ true
        → 1 ≤ count eq j (nodes next)

  connect_keys-step :
      (reachable : Bytes → Bool) (key value : Bytes) (keys : List (Bytes × Bytes))
      (stubs next : Stubs)
      → connect reachable node_id key value stubs ≡ some next
      → connect_keys reachable node_id ((key, value) ∷ keys) stubs
        ≡ connect_keys reachable node_id keys next
  unfolding connect_keys
  connect_keys-step reachable key value keys stubs next e = rw (connect_keys, e)

  same_entry : {a b : Bytes × Bytes} → some a ≡ some b → a.1 ≡ b.1
  same_entry e = cc e

  pub connect_keys-Connected :
      (reachable : Bytes → Bool) (keys : List (Bytes × Bytes)) (stubs : Stubs)
      → node_num ≤ 2 ^ 31
      → All Entry keys
      → Inv stubs
      → Connected reachable keys stubs
  unfolding connect_keys
  connect_keys-Connected reachable [] stubs small all v = record {
    next = stubs;
    ran = refl;
    kept = v;
    more = λ i. omega arith;
    there = λ k j e n t. cc e;
  }
  connect_keys-Connected reachable ((key, value) ∷ keys) stubs small (e, all) v =
      let mid = add_stub reachable node_id e.node (address e.node) stubs in
      let rest =
        connect_keys-Connected reachable keys mid small all
          (add_stub-Inv reachable e.node stubs e.known v) in
      record {
        next = rest.next;
        ran =
            connect_keys-step reachable key value keys stubs mid
              (connect-Entry reachable key value stubs small e)
            ∙ rest.ran;
        kept = rest.kept;
        more = λ i. omega (arith, rest.more i, add_stub-count reachable e.node stubs i);
        there = there_of rest.next rest.more rest.there;
      }
    where
      there_of :
          (next : Stubs)
          → ((i : ℕ)
              → count eq i (nodes (add_stub reachable node_id e.node (address e.node) stubs))
                ≤ count eq i (nodes next))
          → ((k j : ℕ)
              → get_elem? keys k ≡ some (internalservice_dir ++ address j, to_string j)
              → j ≢ node_id
              → reachable (address j) ≡ true
              → 1 ≤ count eq j (nodes next))
          → (k j : ℕ)
          → get_elem? ((key, value) ∷ keys) k ≡ some (internalservice_dir ++ address j, to_string j)
          → j ≢ node_id
          → reachable (address j) ≡ true
          → 1 ≤ count eq j (nodes next)
      there_of next more later (suc k) j f n t = later k j f n t
      there_of next more later zero j f n t =
          let same : e.node ≡ j =
            to_string-eq e.node j [] [] tt tt (ap (λ z. z ++ []) (sym e.value ∙ same_entry f)) in
          subst (λ i. 1 ≤ count eq i (nodes next)) same
            (omega (
              arith,
              more e.node,
              add_stub-found reachable e.node stubs (λ q. n (sym same ∙ q))
                  (ap (λ i. reachable (address i)) same ∙ t),
            ))

  -- With a stub for each other node the count is node_num - 1, and the other way round.
  Inv-Among : (stubs : Stubs) → All Stub stubs → Among eq (λ i. i) node_num (nodes stubs)
  Inv-Among [] all = tt
  Inv-Among ((k, a) ∷ stubs) (s, all) = ((k, s.known, ground arith), Inv-Among stubs all)

  no_own : (stubs : Stubs) → All Stub stubs → count eq node_id (nodes stubs) ≡ 0
  no_own [] all = refl
  no_own ((k, a) ∷ stubs) (s, all) = ground (arith, s.other, no_own stubs all)

  own_once : (stubs : Stubs) → Inv stubs → (i : ℕ) → count eq i (node_id ∷ nodes stubs) ≤ 1
  own_once stubs v i = ground (arith, v.once i, no_own stubs v.each)

  pub full-stub :
      (stubs : Stubs)
      → node_id < node_num
      → Inv stubs
      → suc (length stubs) ≡ node_num
      → (j : ℕ) → j < node_num
      → j ≢ node_id
      → find_stub j stubs ≡ some (address j)
  full-stub stubs me v full j lt n = count-find_stub j stubs v.each (
      ground (
        arith,
        n,
        pigeonhole eq (λ i. i) node_num (node_id ∷ nodes stubs)
            ((node_id, me, ground arith), Inv-Among stubs v.each) (own_once stubs v)
            (omega (arith, full, length-map stubs (λ stub. stub.0))) j lt,
      ))

  counted_once :
      (stubs : Stubs)
      → Inv stubs
      → ((j : ℕ) → j < node_num → j ≢ node_id → 1 ≤ count eq j (nodes stubs))
      → weigh (λ i. count eq i (node_id ∷ nodes stubs)) node_num (λ i. i) ≡ node_num
  counted_once stubs v all =
      weigh-cong (λ i. count eq i (node_id ∷ nodes stubs)) (λ i. 1) node_num (λ i. i) (λ i. i)
        (λ i lt. ground (arith, own_once stubs v i, all i lt))
      ∙ weigh-one node_num

  pub full-length :
      (stubs : Stubs)
      → node_id < node_num
      → Inv stubs
      → ((j : ℕ) → j < node_num → j ≢ node_id → 1 ≤ count eq j (nodes stubs))
      → suc (length stubs) ≡ node_num
  full-length stubs me v all =
      let members = node_id ∷ nodes stubs in
      omega (
        arith,
        length-map stubs (λ stub. stub.0),
        counted_once stubs v all,
        length-le-weigh eq (λ i. i) node_num members
            ((node_id, me, ground arith), Inv-Among stubs v.each),
        weigh-le-length eq (λ i. i) node_num members (λ x i j il jl a b. ground (arith, a, b)),
      )
