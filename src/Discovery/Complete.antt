-- ===== src/Discovery/Complete.antt =====
-- code/src/model_service.cpp: the stubs that the thread of `init` ends with, where each node has
-- set its own key.
use prob_alimama_2023_a.Base.{
  ℕ, suc, ◌^◌, ◌≤◌, ◌<◌, ◌≡◌, ◌≢◌, refl, sym, subst, ap, ◌∙◌, inl, inr, Bool, true, false, Option,
  none, some, List, [], ◌∷◌, ◌++◌, get_elem?, Bool-cases, length, All, ◌==◌, Bytes, arith,
  ℕ_discrete, ==_iff,
}
use prob_alimama_2023_a.Base.Pigeonhole.{count}
use prob_alimama_2023_a.Text.{to_string, int_to_string-to_string}
use prob_alimama_2023_a.Discovery.{
  internalservice_dir, modelservice_dir, Stubs, find_stub, Round, discover_round, Discovery, found,
  searching, thrown, discover, init,
}
use prob_alimama_2023_a.Discovery.Keys.{
  eq, nodes, Entry, Honest, Inv, connect_keys-Connected, full-length, full-stub,
}

module _ (node_id node_num : ℕ) (address : ℕ → Bytes) where
  -- A round with such a listing: no exception, and the loop ends only with every stub.
  record Passed (round : Round) (stubs : Stubs) : Type 0 where
    ended : Bool
    next : Stubs
    ran : discover_round node_id node_num round stubs ≡ some (ended, next)
    kept : Inv node_id node_num address next
    full : ended ≡ true → suc (length next) ≡ node_num

  listing-Passed :
      (listing : Option (List (Bytes × Bytes))) (reachable : Bytes → Bool) (stubs : Stubs)
      → node_num ≤ 2 ^ 31
      → Honest node_id node_num address (record { listing = listing; reachable = reachable })
      → Inv node_id node_num address stubs
      → Passed (record { listing = listing; reachable = reachable }) stubs
  unfolding discover_round
  listing-Passed none reachable stubs small h v = record {
    ended = false;
    next = stubs;
    ran = refl;
    kept = v;
    full = λ e. cc e;
  }
  listing-Passed (some keys) reachable stubs small h v = elim (ℕ_discrete (length keys) node_num) [
    | no n ↦ record {
      ended = false;
      next = stubs;
      ran = ground (arith, n);
      kept = v;
      full = λ e. cc e;
    }
    | yes q ↦
        let c = connect_keys-Connected node_id node_num address reachable keys stubs small h v in
        record {
          ended = suc (length c.next) == node_num;
          next = c.next;
          ran = rw (c.ran, ap (λ z. z == node_num) q, (==_iff node_num node_num).1 refl) refl;
          kept = c.kept;
          full = λ e. ground (arith, e);
        }
  ]

  discover_round-Passed :
      (round : Round) (stubs : Stubs)
      → node_num ≤ 2 ^ 31
      → Honest node_id node_num address round
      → Inv node_id node_num address stubs
      → Passed round stubs
  discover_round-Passed round stubs small h v =
      listing-Passed round.listing round.reachable stubs small h v

  -- The end of the loop.
  discover-Inv :
      (rounds : List Round) (stubs last : Stubs)
      → node_num ≤ 2 ^ 31
      → All (Honest node_id node_num address) rounds
      → Inv node_id node_num address stubs
      → discover node_id node_num rounds stubs ≡ found last
      → Inv node_id node_num address last × (suc (length last) ≡ node_num)
  unfolding discover
  discover-Inv [] stubs last small h v e = cc e
  discover-Inv (round ∷ rounds) stubs last small (h, hs) v e =
      let p = discover_round-Passed round stubs small h v in
      by_end p.ended p.next p.kept p.full
        (λ next kept g. discover-Inv rounds next last small hs kept g)
        (sym (rw (discover, p.ran)) ∙ e)
    where
      after : Bool → Stubs → Discovery
      after true next = found next
      after false next = discover node_id node_num rounds next

      by_end :
          (ended : Bool) (next : Stubs)
          → Inv node_id node_num address next
          → (ended ≡ true → suc (length next) ≡ node_num)
          → ((n : Stubs)
              → Inv node_id node_num address n
              → discover node_id node_num rounds n ≡ found last
              → Inv node_id node_num address last × (suc (length last) ≡ node_num))
          → after ended next ≡ found last
          → Inv node_id node_num address last × (suc (length last) ≡ node_num)
      by_end true next kept full go g =
          subst (λ z. Inv node_id node_num address z × (suc (length z) ≡ node_num)) (same g)
            (kept, full refl)
        where
          same : {a b : Stubs} → found a ≡ found b → a ≡ b
          same q = cc q
      by_end false next kept full go g = go next kept g

  no_stubs-Inv : Inv node_id node_num address []
  no_stubs-Inv = record { each = tt; once = λ i. omega arith }

  init-found :
      (server_address : Bytes) (rounds : List Round) (a b : Bytes × Bytes)
      → (init node_id node_num server_address rounds).0 ≡ a ∷ b ∷ []
      → (last : Stubs) × (discover node_id node_num rounds [] ≡ found last)
        × ((init node_id node_num server_address rounds).1 ≡ found last)
  unfolding init
  init-found server_address rounds a b e = by_state (discover node_id node_num rounds []) refl
    where
      by_state :
          (d : Discovery)
          → discover node_id node_num rounds [] ≡ d
          → (last : Stubs) × (discover node_id node_num rounds [] ≡ found last)
            × ((init node_id node_num server_address rounds).1 ≡ found last)
      by_state (found last) q = (last, q, rw (init, q) refl)
      by_state (searching last) q = cc (rw (init, q) at e)
      by_state thrown q = cc (rw (init, q) at e)

  -- If every key that etcd lists is one that a node of the cluster has set for itself: once the
  -- thread has set both keys, it has a stub for each other node, at the address of that node.
  pub init-find_stub :
      (server_address : Bytes) (rounds : List Round) (a b : Bytes × Bytes) (j : ℕ)
      → node_num ≤ 2 ^ 31
      → node_id < node_num
      → All (Honest node_id node_num address) rounds
      → (init node_id node_num server_address rounds).0 ≡ a ∷ b ∷ []
      → j < node_num
      → j ≢ node_id
      → (last : Stubs) × ((init node_id node_num server_address rounds).1 ≡ found last)
        × (find_stub j last ≡ some (address j))
  init-find_stub server_address rounds a b j small me honest e lt n =
      let (last, d, i) = init-found server_address rounds a b e in
      let (v, full) = discover-Inv rounds [] last small honest no_stubs-Inv d in
      (last, i, full-stub node_id node_num address last me v full j lt n)

  -- A listing with the keys of all nodes, each of which can be connected to.
  pub record Complete (round : Round) : Type 0 where
    pub keys : List (Bytes × Bytes)
    pub listed : round.listing ≡ some keys
    pub size : length keys ≡ node_num
    pub each :
        (j : ℕ)
        → j < node_num
        → (k : ℕ) × (get_elem? keys k ≡ some (internalservice_dir ++ address j, to_string j))
    pub up : (j : ℕ) → j < node_num → round.reachable (address j) ≡ true

  -- Such a round ends the loop.
  Complete-ends :
      (round : Round) (stubs : Stubs)
      → node_num ≤ 2 ^ 31
      → node_id < node_num
      → Honest node_id node_num address round
      → Complete round
      → Inv node_id node_num address stubs
      → (next : Stubs) × (discover_round node_id node_num round stubs ≡ some (true, next))
  unfolding discover_round
  Complete-ends round stubs small me h full v =
      let honest =
        subst
          (λ (o : Option (List (Bytes × Bytes))). elim o [
            | none ↦ Unit
            | some keys ↦ All (Entry node_id node_num address) keys
          ])
          full.listed h in
      let c =
        connect_keys-Connected node_id node_num address round.reachable full.keys stubs small honest
          v in
      let all : (j : ℕ) → j < node_num → j ≢ node_id → 1 ≤ count eq j (nodes c.next) =
        λ j lt n. let (k, e) = full.each j lt in c.there k j e n (full.up j lt) in
      (
        c.next,
        rw
            (
              discover_round,
              full.listed,
              full.size,
              (==_iff node_num node_num).1 refl,
              c.ran,
              full-length node_id node_num address c.next me c.kept all,
            )
            (ap (λ z. some (z, c.next)) ((==_iff node_num node_num).1 refl)),
      )

  discover-append :
      (before : List Round) (round : Round) (stubs : Stubs)
      → node_num ≤ 2 ^ 31
      → node_id < node_num
      → All (Honest node_id node_num address) before
      → Honest node_id node_num address round
      → Complete round
      → Inv node_id node_num address stubs
      → (last : Stubs) × (discover node_id node_num (before ++ round ∷ []) stubs ≡ found last)
  unfolding discover
  discover-append [] round stubs small me hs h full v =
      let (next, e) = Complete-ends round stubs small me h full v in (next, rw (discover, e) refl)
  discover-append (first ∷ before) round stubs small me (g, hs) h full v =
      let p = discover_round-Passed first stubs small g v in
      let rest = discover-append before round p.next small me hs h full p.kept in
      elim (Bool-cases p.ended) [
        | inl e ↦ (p.next, rw (discover, p.ran, e) refl)
        | inr e ↦ (rest.0, rw (discover, p.ran, e) rest.1)
      ]

  -- Where every key that etcd lists is one that a node of the cluster has set for itself: the first
  -- round at the latest that lists the keys of all nodes, each reachable, ends the loop, and the
  -- thread sets both keys.
  pub init-both_keys :
      (server_address : Bytes) (before : List Round) (round : Round)
      → node_num ≤ 2 ^ 31
      → node_id < node_num
      → All (Honest node_id node_num address) before
      → Honest node_id node_num address round
      → Complete round
      → (init node_id node_num server_address (before ++ round ∷ [])).0
        ≡ (internalservice_dir ++ server_address, to_string node_id)
          ∷ (modelservice_dir ++ server_address, to_string node_id)
          ∷ []
  unfolding init
  init-both_keys server_address before round small me hs h full =
      let (last, e) = discover-append before round [] small me hs h full no_stubs-Inv in
      let text = int_to_string-to_string node_id (omega (arith, small, me)) in
      rw (init, e, text) refl
