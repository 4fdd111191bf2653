-- ===== src/Manager/Start/Life.antt =====
-- code/src/model_manger.cpp: a node from `init` on, through the rounds of `run`.
use prob_alimama_2023_a.Base.{
  ℕ, zero, suc, ◌≡◌, refl, subst, ◌∙◌, inl, inr, Bool, true, false, not, ◌&&◌, Option, none, some,
  List, [], ◌∷◌, ◌++◌, append-nil, append_assoc, length, get_elem?, if◌then◌else◌, Bytes, equal,
  Bool-cases,
}
use prob_alimama_2023_a.Model.{ModelMeta}
use prob_alimama_2023_a.Options.{Options}
use prob_alimama_2023_a.Handler.{SliceReader}
use prob_alimama_2023_a.Hdfs.{HdfsApi, Outcome, done, fault, running, get_available_model_name}
use prob_alimama_2023_a.Hdfs.Latest.{ModelTables, get_latest_model}
use prob_alimama_2023_a.Hdfs.Latest.Kept.{Keyed, get_latest_model-Keyed, get_latest_model-none}
use prob_alimama_2023_a.Hdfs.Local.{Disk}
use prob_alimama_2023_a.Manager.Switch.{NodeState, switch_to, run_round}
use prob_alimama_2023_a.Manager.Switch.Serving.{After, run_round-After}
use prob_alimama_2023_a.Manager.Start.{Seen, Start, ready, unless_held, new_node, run_rounds}
use prob_alimama_2023_a.Manager.Start
use prob_alimama_2023_a.Manager.Start.Ready.{
  Round, switch_to-Round, Chosen, init_rounds-Chosen, init-init_rounds,
}

get_elem?-append_some {ℓ} :
    {A : Type ℓ} (xs ys : List A) (k : ℕ) {a : A}
    → get_elem? xs k ≡ some a
    → get_elem? (xs ++ ys) k ≡ some a
get_elem?-append_some [] ys k e = cc e
get_elem?-append_some (x ∷ xs) ys zero e = e
get_elem?-append_some (x ∷ xs) ys (suc k) e = get_elem?-append_some xs ys k e

get_elem?-append_end {ℓ} :
    {A : Type ℓ} (xs ys : List A) (a : A) → get_elem? (xs ++ a ∷ ys) (length xs) ≡ some a
get_elem?-append_end [] ys a = refl
get_elem?-append_end (x ∷ xs) ys a = get_elem?-append_end xs ys a

module _ (api : HdfsApi) (garbage : Bytes) (reader : SliceReader) (fuel : ℕ)
    (options : Options) where
  -- Each model is still kept under its name.
  abbrev Stays : Outcome (Bool × NodeState reader) → Type 0
  Stays (done (switched, t)) = Keyed t.tables
  Stays fault = Unit
  Stays running = Unit

  Round-Stays :
      (o : Outcome (Bool × NodeState reader)) → Round api garbage reader fuel options o → Stays o
  Round-Stays (done (true, t)) (serves, kept) = kept
  Round-Stays (done (false, t)) kept = kept
  Round-Stays fault h = tt
  Round-Stays running h = tt

  run_round-Stays :
      (s : NodeState reader) → Keyed s.tables → Stays (run_round api garbage reader fuel options s)
  unfolding run_round
  run_round-Stays s keyed = by_latest (get_latest_model api garbage fuel s.tables) refl
    where
      by_name :
          (model : ModelMeta) (tables : ModelTables) (current : Option ModelMeta)
          → get_available_model_name api garbage ≡ some model.model_name
          → Keyed tables
          → Stays (elim current [
            | none ↦ fault
            | some old ↦
                if equal model.model_name old.model_name
                then done (false, record s { tables = tables })
                else switch_to api garbage reader fuel options model (record s { tables = tables })
          ])
      by_name model tables none a next = tt
      by_name model tables (some old) a next =
          elim (Bool-cases (equal model.model_name old.model_name)) [
            | inl e ↦ rw e next
            | inr e ↦ rw e (
                Round-Stays
                  (switch_to api garbage reader fuel options model (record s { tables = tables }))
                  (switch_to-Round api garbage reader fuel options model
                    (record s { tables = tables }) a next))
          ]

      by_latest :
          (o : Outcome (Option ModelMeta × ModelTables))
          → get_latest_model api garbage fuel s.tables ≡ o
          → Stays (run_round api garbage reader fuel options s)
      by_latest fault q = rw (run_round, q) tt
      by_latest running q = rw (run_round, q) tt
      by_latest (done (none, tables)) q =
          rw (run_round, q)
            (subst Keyed (get_latest_model-none api garbage fuel s.tables tables q) keyed)
      by_latest (done (some model, tables)) q =
          let (available, next, _) =
            get_latest_model-Keyed api garbage fuel s.tables tables model keyed q in
          rw (run_round, q) (by_name model tables s.model available next)

same_node :
    {reader : SliceReader} {s t : NodeState reader}
    → ◌≡◌ {A = Outcome (NodeState reader)} (done s) (done t)
    → s ≡ t
same_node e = cc e

goes_on :
    {reader : SliceReader} {rest : Outcome (NodeState reader)} {u : NodeState reader} (held : Bool)
    → unless_held held rest ≡ done u
    → rest ≡ done u
goes_on true e = cc e
goes_on false e = e

module _ (reader : SliceReader) (fuel : ℕ) (options : Options) where
  -- A round more, in which the node may switch.
  run_round-Chosen :
      (before : List Seen) (seen : Seen) (s t : NodeState reader) (b : Bool)
      → Keyed s.tables
      → Chosen reader fuel options before s
      → run_round seen.api seen.garbage reader fuel options s ≡ done (b, t)
      → Chosen reader fuel options (before ++ seen ∷ []) t
  unfolding After
  run_round-Chosen before seen s t b keyed (k, at, name, at_k, a, serves) e =
      let (model, hander, m, h, x, y, made) = serves in
      elim (run_round-After seen.api seen.garbage reader fuel options name s (b, t) keyed
        (model, hander, m, h, x) e) [
          | inl (_, new, available, _, now) ↦
              (length before, seen, new, get_elem?-append_end before [] seen, available, now)
          | inr (_, same_model, same_hander) ↦ (
            k,
            at,
            name,
            get_elem?-append_some before (seen ∷ []) k at_k,
            a,
            (model, hander, same_model ∙ m, same_hander ∙ h, x, y, made),
          )
        ]

  run_rounds-Chosen :
      (before later : List Seen) (s u : NodeState reader)
      → Keyed s.tables
      → Chosen reader fuel options before s
      → run_rounds reader fuel options later s ≡ done u
      → Chosen reader fuel options (before ++ later) u
  unfolding run_rounds
  run_rounds-Chosen before [] s u keyed chosen e =
      rw (append-nil before) (subst (Chosen reader fuel options before) (same_node e) chosen)
  run_rounds-Chosen before (seen ∷ later) s u keyed chosen e =
      by_round (run_round seen.api seen.garbage reader fuel options s) refl
        (run_round-Stays seen.api seen.garbage reader fuel options s keyed)
        (λ t next now h.
          subst (λ rounds. Chosen reader fuel options rounds u)
            (append_assoc before (seen ∷ []) later)
            (run_rounds-Chosen (before ++ seen ∷ []) later t u next now h))
        e
    where
      by_round :
          (o : Outcome (Bool × NodeState reader))
          → run_round seen.api seen.garbage reader fuel options s ≡ o
          → Stays seen.api seen.garbage reader fuel options o
          → ((t : NodeState reader)
              → Keyed t.tables
              → Chosen reader fuel options (before ++ seen ∷ []) t
              → run_rounds reader fuel options later t ≡ done u
              → Chosen reader fuel options (before ++ seen ∷ later) u)
          → elim o [
            | done (switched, t) ↦
                unless_held
                  (switched && not seen.barrier_opens)
                  (run_rounds reader fuel options later t)
            | fault ↦ fault
            | running ↦ running
          ]
            ≡ done u
          → Chosen reader fuel options (before ++ seen ∷ later) u
      by_round (done (b, t)) q next go h =
          go t next (run_round-Chosen before seen s t b keyed chosen q)
            (goes_on (b && not seen.barrier_opens) h)
      by_round fault q n go h = cc h
      by_round running q n go h = cc h

  -- From `init` on, through rounds of `run` that all return: the node serves a model that was
  -- available in one of the rounds so far, and its handler, with its readers, is the one that
  -- `loadNewModel` made of a model of this name with what that round saw.
  pub run_rounds-init :
      (connect : Bytes → Option HdfsApi) (first later : List Seen) (disk : Disk)
      (t u : NodeState reader)
      → Start.init reader fuel options connect first (new_node reader disk) ≡ done (ready t)
      → run_rounds reader fuel options later t ≡ done u
      → Chosen reader fuel options (first ++ later) u
  run_rounds-init connect first later disk t u a b =
      let (_, r) = init-init_rounds reader fuel options connect first (new_node reader disk) t a in
      let (chosen, kept) =
        init_rounds-Chosen reader fuel options first (new_node reader disk) t tt r in
      run_rounds-Chosen first later t u kept chosen b
