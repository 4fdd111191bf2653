-- ===== src/Manager/Switch/Serving.antt =====
-- code/src/model_manger.cpp: the model that a node serves after a round.
use prob_alimama_2023_a.Base.{
  ℕ, suc, ◌≡◌, ◌≢◌, equal_iff, refl, sym, subst, ◌∙◌, ◌⊎◌, inl, inr, Bool, true, false, Option,
  none, some, if◌then◌else◌, Bytes, equal, Option-cases, Bool-cases, ◌+◌, ◌*◌, ◌^◌, leb, ◌-◌,
}
use prob_alimama_2023_a.Model.{ModelMeta}
use prob_alimama_2023_a.Options.{Options}
use prob_alimama_2023_a.Shard.{slice_num_per_node, shard_range}
use prob_alimama_2023_a.Handler.{SliceReader}
use prob_alimama_2023_a.Hdfs.{HdfsApi, Outcome, done, fault, running, get_available_model_name}
use prob_alimama_2023_a.Hdfs.Latest.{ModelTables, get_latest_model}
use prob_alimama_2023_a.Hdfs.Latest.Kept.{Keyed, get_latest_model-Keyed}
use prob_alimama_2023_a.Hdfs.Local.{Disk}
use prob_alimama_2023_a.Manager.Load.{
  Loaded, ModelHander, load_shard, new_hander, hander_of, load_new_model,
}
use prob_alimama_2023_a.Manager.Switch.{NodeState, put_model, switch_to, run_round}

module _ (api : HdfsApi) (garbage : Bytes) (reader : SliceReader) (fuel : ℕ)
    (options : Options) where
  -- The node holds a model of the name to be current, with a handler.
  abbrev pub Holds : Bytes → NodeState reader → Type 0
  Holds name s =
      (model : ModelMeta) × (hander : ModelHander reader) × (s.model ≡ some model)
      × (s.hander ≡ some hander)
      × (model.model_name ≡ name)

  -- The node serves the model of the name: its handler is the one that `loadNewModel` has made,
  -- with the readers, for the model that the node holds to be current, which that call was given as
  -- it was found.
  abbrev pub Serves : Bytes → NodeState reader → Type 0
  Serves name s =
      (model : ModelMeta) × (hander : ModelHander reader) × (s.model ≡ some model)
      × (s.hander ≡ some hander)
      × (model.model_name ≡ name)
      × (hander.model_name ≡ name)
      × ((found : ModelMeta) × (before : Disk) × (last : Disk) × (found.model_name ≡ name)
          × (load_new_model api reader fuel options before found ≡ done (some hander, last, model)))

  -- A handler is named after its model.
  abbrev pub Named : Bytes → Outcome (Option (ModelHander reader) × Disk × ModelMeta) → Type 0
  Named name (done (some hander, disk, marked)) =
      (marked.model_name ≡ name) × (hander.model_name ≡ name)
  Named name (done (none, disk, marked)) = Unit
  Named name fault = Unit
  Named name running = Unit

  hander_of-Named :
      (model : ModelMeta) (loaded : Loaded)
      → Named model.model_name (hander_of reader options model loaded)
  unfolding hander_of new_hander
  hander_of-Named model (done (some shard, next, slices)) = (refl, refl)
  hander_of-Named model (done (none, next, slices)) = tt
  hander_of-Named model fault = tt
  hander_of-Named model running = tt

  pub load_new_model-Named :
      (model : ModelMeta) (disk : Disk)
      → Named model.model_name (load_new_model api reader fuel options disk model)
  unfolding load_new_model
  load_new_model-Named model disk =
      elim (Option-cases (slice_num_per_node model.slice_num options.node_num)) [
        | inl e ↦ rw (load_new_model, e) tt
        | inr (per, e) ↦
            let (start, end) = shard_range model.slice_num per options.node_id in
            elim (Bool-cases (leb (2 ^ 31) (per * options.node_id + per + per))) [
              | inl b ↦ rw (load_new_model, e, b) tt
              | inr b ↦
                  rw (load_new_model, e, b)
                    (hander_of-Named model (
                      load_shard api fuel model.local_model_path (end - start) start disk
                        model.slices))
            ]
      ]

  -- The node serves the model of the name: its handler is for the model that it holds to be
  -- current.
  Switched : Bytes → NodeState reader → Outcome (Bool × NodeState reader) → Type 0
  Switched name s (done (true, t)) = Serves name t
  Switched name s (done (false, t)) = (t.model ≡ s.model) × (t.hander ≡ s.hander)
  Switched name s fault = Unit
  Switched name s running = Unit

  loaded-Switched :
      (name : Bytes) (s : NodeState reader)
      (o : Outcome (Option (ModelHander reader) × Disk × ModelMeta))
      → Named name o
      → (found : ModelMeta) (before : Disk) → found.model_name ≡ name
      → load_new_model api reader fuel options before found ≡ o
      → Switched name s (elim o [
        | done (some hander, disk, marked) ↦ done (
          true,
          record s {
            tables = put_model marked s.tables;
            disk = disk;
            version = suc s.version;
            model = some marked;
            hander = some hander;
          },
        )
        | done (none, disk, marked) ↦
            done (false, record s { tables = put_model marked s.tables; disk = disk })
        | fault ↦ fault
        | running ↦ running
      ])
  unfolding Switched
  loaded-Switched name s (done (some hander, disk, marked)) (a, b) found before at q =
      (marked, hander, refl, refl, a, b, (found, before, disk, at, q))
  loaded-Switched name s (done (none, disk, marked)) n found before at q = (refl, refl)
  loaded-Switched name s fault n found before at q = tt
  loaded-Switched name s running n found before at q = tt

  switch_to-Switched :
      (model : ModelMeta) (s : NodeState reader)
      → Switched model.model_name s (switch_to api garbage reader fuel options model s)
  unfolding switch_to
  switch_to-Switched model s =
      loaded-Switched model.model_name s (load_new_model api reader fuel options s.disk model)
        (load_new_model-Named model s.disk) model s.disk refl refl

  -- What a round of `run` leaves, if the node served `current` before.
  unfoldable pub After : Bytes → NodeState reader → Bool × NodeState reader → Type 0
  After current s (switched, t) =
      ((switched ≡ true)
        × (name : Bytes) × (get_available_model_name api garbage ≡ some name)
        × (name ≢ current)
        × Serves name t)
      ⊎ (switched ≡ false) × (t.model ≡ s.model) × (t.hander ≡ s.hander)

  same_done : {A : Type 0} {a b : A} → ◌≡◌ {A = Outcome A} (done a) (done b) → a ≡ b
  same_done e = cc e

  Switched-After :
      (current name : Bytes) (s : NodeState reader) (b : Bool) (t : NodeState reader)
      → get_available_model_name api garbage ≡ some name
      → name ≢ current
      → Switched name s (done (b, t))
      → After current s (b, t)
  unfolding Switched After
  Switched-After current name s true t a n h = inl (refl, name, a, n, h)
  Switched-After current name s false t a n (m, h) = inr (refl, m, h)

  run_round-none :
      (s : NodeState reader) (tables : ModelTables)
      → get_latest_model api garbage fuel s.tables ≡ done (none, tables)
      → run_round api garbage reader fuel options s ≡ done (false, record s { tables = tables })
  unfolding run_round
  run_round-none s tables e = rw (run_round, e) refl

  run_round-some :
      (s : NodeState reader) (model old : ModelMeta) (tables : ModelTables)
      → get_latest_model api garbage fuel s.tables ≡ done (some model, tables)
      → s.model ≡ some old
      → run_round api garbage reader fuel options s ≡ (
          if equal model.model_name old.model_name
          then done (false, record s { tables = tables })
          else switch_to api garbage reader fuel options model (record s { tables = tables }))
  unfolding run_round
  run_round-some s model old tables e m = cc (e, m)

  run_round-same :
      (s : NodeState reader) (model old : ModelMeta) (tables : ModelTables)
      → get_latest_model api garbage fuel s.tables ≡ done (some model, tables)
      → s.model ≡ some old
      → equal model.model_name old.model_name ≡ true
      → run_round api garbage reader fuel options s ≡ done (false, record s { tables = tables })
  run_round-same s model old tables e m f = run_round-some s model old tables e m ∙ rw f refl

  run_round-other :
      (s : NodeState reader) (model old : ModelMeta) (tables : ModelTables)
      → get_latest_model api garbage fuel s.tables ≡ done (some model, tables)
      → s.model ≡ some old
      → equal model.model_name old.model_name ≡ false
      → run_round api garbage reader fuel options s
        ≡ switch_to api garbage reader fuel options model (record s { tables = tables })
  run_round-other s model old tables e m f = run_round-some s model old tables e m ∙ rw f refl

  run_round-stuck :
      (s : NodeState reader) (o : Outcome (Option ModelMeta × ModelTables))
      {r : Bool × NodeState reader}
      → get_latest_model api garbage fuel s.tables ≡ o
      → (o ≡ fault) ⊎ (o ≡ running)
      → run_round api garbage reader fuel options s ≡ done r
      → ⊥
  unfolding run_round
  run_round-stuck s o e (inl f) h = cc (rw (run_round, e, f) at h)
  run_round-stuck s o e (inr f) h = cc (rw (run_round, e, f) at h)

  -- A round of `run`, at a node that has a model and keeps each model under its name: if it
  -- returns, then either it has switched, the node now serves the model that is available, and that
  -- is another one; or the model and the handler are what they were.
  pub run_round-After :
      (current : Bytes) (s : NodeState reader) (r : Bool × NodeState reader)
      → Keyed s.tables
      → Holds current s
      → run_round api garbage reader fuel options s ≡ done r
      → After current s r
  unfolding After
  run_round-After current s r keyed (old, hander, m, h, a) e =
      by_latest (get_latest_model api garbage fuel s.tables) refl
    where
      by_name :
          (model : ModelMeta) (tables : ModelTables) (x : Bool)
          → get_latest_model api garbage fuel s.tables ≡ done (some model, tables)
          → equal model.model_name old.model_name ≡ x
          → After current s r
      by_name model tables true q f =
          subst (After current s) (same_done (sym (run_round-same s model old tables q m f) ∙ e))
            (inr (refl, refl, refl))
      by_name model tables false q f =
          let (available, _, _) =
            get_latest_model-Keyed api garbage fuel s.tables tables model keyed q in
          Switched-After current model.model_name (record s { tables = tables }) r.0 r.1 available
            (λ same. cc ((equal_iff model.model_name old.model_name).1 (same ∙ sym a), f))
            (subst (Switched model.model_name (record s { tables = tables }))
              (sym (run_round-other s model old tables q m f) ∙ e)
              (switch_to-Switched model (record s { tables = tables })))

      by_latest :
          (o : Outcome (Option ModelMeta × ModelTables))
          → get_latest_model api garbage fuel s.tables ≡ o
          → After current s r
      by_latest fault q = absurd (run_round-stuck s fault q (inl refl) e)
      by_latest running q = absurd (run_round-stuck s running q (inr refl) e)
      by_latest (done (none, tables)) q =
          subst (After current s) (same_done (sym (run_round-none s tables q) ∙ e))
            (inr (refl, refl, refl))
      by_latest (done (some model, tables)) q =
          by_name model tables (equal model.model_name old.model_name) q refl
