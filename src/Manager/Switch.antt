-- ===== src/Manager/Switch.antt =====
-- code/src/model_manger.cpp: the rounds of the loops in `init` and `run`. HDFS is what a round gets
-- to see of it; the barrier and the switch of the handlers in use are in Barrier and Handlers.
pub mod Serving
use prob_alimama_2023_a.Base.{
  ℕ, suc, Bool, true, false, not, Option, none, some, List, [], ◌∷◌, if◌then◌else◌, Bytes, equal,
}
use prob_alimama_2023_a.Model.{ModelMeta}
use prob_alimama_2023_a.Options.{Options}
use prob_alimama_2023_a.Handler.{SliceReader}
use prob_alimama_2023_a.Hdfs.{HdfsApi, Outcome, done, fault, running}
use prob_alimama_2023_a.Hdfs.Latest.{ModelTables, get_latest_model}
use prob_alimama_2023_a.Hdfs.Local.{Disk}
use prob_alimama_2023_a.Manager.Load.{ModelHander, load_new_model}

-- The models that are known, the disk, `version_`, `model_` and `modelHanderPtr`.
pub record NodeState (reader : SliceReader) : Type 0 where
  pub tables : ModelTables
  pub disk : Disk
  pub version : ℕ
  pub model : Option ModelMeta
  pub hander : Option (ModelHander reader)

-- A model is shared with the table: what a load marks in it is marked there.
unfoldable pub put_model : ModelMeta → ModelTables → ModelTables
unfolding equal
put_model model [] = []
put_model model ((key, old) ∷ rest) =
    if equal key model.model_name then (key, model) ∷ rest else (key, old) ∷ put_model model rest

module _ (api : HdfsApi) (garbage : Bytes) (reader : SliceReader) (fuel : ℕ)
    (options : Options) where
  -- `loadNewModel`, with what it sets after the barrier.
  unfoldable pub switch_to : ModelMeta → NodeState reader → Outcome (Bool × NodeState reader)
  unfolding load_new_model put_model
  switch_to model s = elim (load_new_model api reader fuel options s.disk model) [
    | done (some hander, disk, marked) ↦ done (
      true,
      record s {
        tables = put_model marked s.tables;
        disk = disk;
        version = suc s.version;
        model = some marked;
        hander = some hander;
      },
    )
    | done (none, disk, marked) ↦
        done (false, record s { tables = put_model marked s.tables; disk = disk })
    | fault ↦ fault
    | running ↦ running
  ]

  -- A round of `init`: whether its loop ends.
  unfoldable pub init_round : NodeState reader → Outcome (Bool × NodeState reader)
  unfolding get_latest_model switch_to
  init_round s = elim (get_latest_model api garbage fuel s.tables) [
    | done (none, tables) ↦ done (false, record s { tables = tables })
    | done (some model, tables) ↦ switch_to model (record s { tables = tables })
    | fault ↦ fault
    | running ↦ running
  ]

  -- A round of `run`: whether it has switched. Before `init` has ended there is no `model_`.
  unfoldable pub run_round : NodeState reader → Outcome (Bool × NodeState reader)
  unfolding get_latest_model switch_to equal
  run_round s = elim (get_latest_model api garbage fuel s.tables) [
    | done (none, tables) ↦ done (false, record s { tables = tables })
    | done (some model, tables) ↦ elim s.model [
      | none ↦ fault
      | some old ↦
          if equal model.model_name old.model_name
          then done (false, record s { tables = tables })
          else switch_to model (record s { tables = tables })
    ]
    | fault ↦ fault
    | running ↦ running
  ]
