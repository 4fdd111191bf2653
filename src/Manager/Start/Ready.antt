-- ===== src/Manager/Start/Ready.antt =====
-- code/src/model_manger.cpp: the node that `init` leaves.
use prob_alimama_2023_a.Base.{
  ℕ, zero, suc, ◌≡◌, equal_iff, refl, sym, subst, inl, inr, Bool, true, false, Bool-cases, ◌==◌,
  Option, none, some, List, [], ◌∷◌, ◌++◌, get_elem?, Bytes, equal, All,
}
use prob_alimama_2023_a.Model.{ModelMeta}
use prob_alimama_2023_a.Options.{Options}
use prob_alimama_2023_a.Handler.{SliceReader}
use prob_alimama_2023_a.Hdfs.{HdfsApi, Outcome, done, fault, running, get_available_model_name}
use prob_alimama_2023_a.Hdfs.Latest.{ModelTables, get_latest_model}
use prob_alimama_2023_a.Hdfs.Latest.Kept.{Keyed, get_latest_model-Keyed, get_latest_model-none}
use prob_alimama_2023_a.Hdfs.Local.{Disk}
use prob_alimama_2023_a.Manager.Load.{ModelHander, load_new_model}
use prob_alimama_2023_a.Manager.Switch.{NodeState, put_model, switch_to, init_round}
use prob_alimama_2023_a.Manager.Switch.Serving.{Serves, load_new_model-Named, Named}
use prob_alimama_2023_a.Hdfs.Connect.{hdfs_address, hdfs_hander}
use prob_alimama_2023_a.Hdfs.Connect
use prob_alimama_2023_a.Manager.Start
use prob_alimama_2023_a.Manager.Start.{Seen, Start, ready, after_barrier, init_rounds}

put_model-Keyed :
    (model : ModelMeta) (tables : ModelTables) → Keyed tables → Keyed (put_model model tables)
unfolding put_model
put_model-Keyed model [] k = tt
put_model-Keyed model ((key, old) ∷ rest) (k, ks) = elim (Bool-cases (equal key model.model_name)) [
  | inl e ↦ rw (put_model, e) (sym ((equal_iff key model.model_name).0 e), ks)
  | inr e ↦ rw (put_model, e) (k, put_model-Keyed model rest ks)
]

module _ (api : HdfsApi) (garbage : Bytes) (reader : SliceReader) (fuel : ℕ)
    (options : Options) where
  -- What a round leaves, if its loop ends, and if it does not.
  abbrev pub Round : Outcome (Bool × NodeState reader) → Type 0
  Round (done (true, t)) =
      ((name : Bytes) × (get_available_model_name api garbage ≡ some name)
        × Serves api garbage reader fuel options name t)
      × Keyed t.tables
  Round (done (false, t)) = Keyed t.tables
  Round fault = Unit
  Round running = Unit

  loaded-Round :
      (name : Bytes) (s : NodeState reader)
      (o : Outcome (Option (ModelHander reader) × Disk × ModelMeta))
      → get_available_model_name api garbage ≡ some name
      → Keyed s.tables
      → Named api garbage reader fuel options name o
      → (found : ModelMeta) (before : Disk) → found.model_name ≡ name
      → load_new_model api reader fuel options before found ≡ o
      → Round (elim o [
        | done (some hander, disk, marked) ↦ done (
          true,
          record s {
            tables = put_model marked s.tables;
            disk = disk;
            version = suc s.version;
            model = some marked;
            hander = some hander;
          },
        )
        | done (none, disk, marked) ↦
            done (false, record s { tables = put_model marked s.tables; disk = disk })
        | fault ↦ fault
        | running ↦ running
      ])
  loaded-Round name s (done (some hander, disk, marked)) e k (a, b) found before at q = (
    (name, e, (marked, hander, refl, refl, a, b, (found, before, disk, at, q))),
    put_model-Keyed marked s.tables k,
  )
  loaded-Round name s (done (none, disk, marked)) e k n found before at q =
      put_model-Keyed marked s.tables k
  loaded-Round name s fault e k n found before at q = tt
  loaded-Round name s running e k n found before at q = tt

  pub switch_to-Round :
      (model : ModelMeta) (s : NodeState reader)
      → get_available_model_name api garbage ≡ some model.model_name
      → Keyed s.tables
      → Round (switch_to api garbage reader fuel options model s)
  unfolding switch_to
  switch_to-Round model s e k =
      loaded-Round model.model_name s (load_new_model api reader fuel options s.disk model) e k
        (load_new_model-Named api garbage reader fuel options model s.disk) model s.disk refl refl

  init_round-Round :
      (s : NodeState reader) → Keyed s.tables → Round (init_round api garbage reader fuel options s)
  unfolding init_round
  init_round-Round s keyed = by_latest (get_latest_model api garbage fuel s.tables) refl
    where
      by_latest :
          (o : Outcome (Option ModelMeta × ModelTables))
          → get_latest_model api garbage fuel s.tables ≡ o
          → Round (init_round api garbage reader fuel options s)
      by_latest fault q = rw (init_round, q) tt
      by_latest running q = rw (init_round, q) tt
      by_latest (done (none, tables)) q =
          rw (init_round, q)
            (subst Keyed (get_latest_model-none api garbage fuel s.tables tables q) keyed)
      by_latest (done (some model, tables)) q =
          let (available, next, _) =
            get_latest_model-Keyed api garbage fuel s.tables tables model keyed q in
          rw (init_round, q) (switch_to-Round model (record s { tables = tables }) available next)

same_ready :
    {reader : SliceReader} {s t : NodeState reader} (opens : Bool)
    → ◌≡◌ {A = Outcome (Start reader)} (done (after_barrier opens s)) (done (ready t))
    → s ≡ t
same_ready true e = cc e
same_ready false e = cc e

module _ (reader : SliceReader) (fuel : ℕ) (options : Options) where
  -- The node serves the model that was available in one of the rounds, with the handler that
  -- `loadNewModel` made of it with what that round saw.
  abbrev pub Chosen : List Seen → NodeState reader → Type 1
  Chosen rounds t =
      (k : ℕ) × (seen : Seen) × (name : Bytes) × (get_elem? rounds k ≡ some seen)
      × (get_available_model_name seen.api seen.garbage ≡ some name)
      × Serves seen.api seen.garbage reader fuel options name t

  pub init_rounds-Chosen :
      (rounds : List Seen) (s t : NodeState reader)
      → Keyed s.tables
      → init_rounds reader fuel options rounds s ≡ done (ready t)
      → Chosen rounds t × Keyed t.tables
  unfolding init_rounds
  init_rounds-Chosen [] s t keyed e = cc e
  init_rounds-Chosen (seen ∷ rounds) s t keyed e =
      by_round (init_round seen.api seen.garbage reader fuel options s)
        (init_round-Round seen.api seen.garbage reader fuel options s keyed)
        (λ u next h. init_rounds-Chosen rounds u t next h) e
    where
      by_round :
          (o : Outcome (Bool × NodeState reader))
          → Round seen.api seen.garbage reader fuel options o
          → ((u : NodeState reader)
              → Keyed u.tables
              → init_rounds reader fuel options rounds u ≡ done (ready t)
              → Chosen rounds t × Keyed t.tables)
          → elim o [
            | done (true, u) ↦ done (after_barrier seen.barrier_opens u)
            | done (false, u) ↦ init_rounds reader fuel options rounds u
            | fault ↦ fault
            | running ↦ running
          ]
            ≡ done (ready t)
          → Chosen (seen ∷ rounds) t × Keyed t.tables
      by_round (done (true, u)) ((name, a, serves), next) go h = (
        (
          zero,
          seen,
          name,
          refl,
          a,
          subst (Serves seen.api seen.garbage reader fuel options name)
              (same_ready seen.barrier_opens h) serves,
        ),
        subst (λ (z : NodeState reader). Keyed z.tables) (same_ready seen.barrier_opens h) next,
      )
      by_round (done (false, u)) next go h =
          let ((k, later, name, at_k, a, serves), kept) = go u next h in
          ((suc k, later, name, at_k, a, serves), kept)
      by_round fault n go h = cc h
      by_round running n go h = cc h

  -- A round without an available model leaves the node as it was.
  init_round-idle :
      (seen : Seen) (s : NodeState reader)
      → get_available_model_name seen.api seen.garbage ≡ none
      → init_round seen.api seen.garbage reader fuel options s ≡ done (false, s)
  unfolding init_round get_latest_model
  init_round-idle seen s e = rw (init_round, get_latest_model, e) refl

  pub init_rounds-idle :
      (before rest : List Seen) (s : NodeState reader)
      → All (λ (seen : Seen). get_available_model_name seen.api seen.garbage ≡ none) before
      → init_rounds reader fuel options (before ++ rest) s ≡ init_rounds reader fuel options rest s
  unfolding init_rounds
  init_rounds-idle [] rest s h = refl
  init_rounds-idle (seen ∷ before) rest s (e, h) =
      rw (init_rounds, init_round-idle seen s e) (init_rounds-idle before rest s h)

  -- A round whose model can be loaded ends the loop, once its barrier has opened.
  pub init_rounds-loaded :
      (seen : Seen) (rest : List Seen) (s : NodeState reader) (model marked : ModelMeta)
      (tables : ModelTables) (hander : ModelHander reader) (disk : Disk)
      → get_latest_model seen.api seen.garbage fuel s.tables ≡ done (some model, tables)
      → load_new_model seen.api reader fuel options s.disk model ≡ done (some hander, disk, marked)
      → seen.barrier_opens ≡ true
      → init_rounds reader fuel options (seen ∷ rest) s
        ≡ done (
            ready (record {
              tables = put_model marked tables;
              disk = disk;
              version = suc s.version;
              model = some marked;
              hander = some hander;
            }))
  unfolding init_rounds init_round switch_to
  init_rounds-loaded seen rest s model marked tables hander disk a b opens =
      rw (init_rounds, init_round, a, switch_to, b, opens) refl

  -- `init` has been through its loop if it leaves a node.
  pub init-init_rounds :
      (connect : Bytes → Option HdfsApi) (rounds : List Seen) (s t : NodeState reader)
      → Start.init reader fuel options connect rounds s ≡ done (ready t)
      → (((Connect.init connect (hdfs_hander hdfs_address)).0 == 0) ≡ true)
        × (init_rounds reader fuel options rounds s ≡ done (ready t))
  unfolding Start.init
  init-init_rounds connect rounds s t e =
      elim (Bool-cases ((Connect.init connect (hdfs_hander hdfs_address)).0 == 0)) [
        | inl c ↦ (c, rw (Start.init, c) at e)
        | inr c ↦ cc (rw (Start.init, c) at e)
      ]
