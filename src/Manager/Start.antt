-- ===== src/Manager/Start.antt =====
-- code/src/model_manger.cpp: `init`, which the start of a node waits for, and `run`.
pub mod Ready
pub mod Life
use prob_alimama_2023_a.Base.{
  ℕ, Bool, true, false, not, ◌&&◌, Option, none, List, [], ◌∷◌, if◌then◌else◌, ◌==◌, Bytes,
}
use prob_alimama_2023_a.Options.{Options}
use prob_alimama_2023_a.Handler.{SliceReader}
use prob_alimama_2023_a.Hdfs.{HdfsApi, Outcome, done, fault, running}
use prob_alimama_2023_a.Hdfs.Connect.{hdfs_address, hdfs_hander}
use prob_alimama_2023_a.Hdfs.Connect
use prob_alimama_2023_a.Hdfs.Local.{Disk}
use prob_alimama_2023_a.Manager.Switch.{NodeState, init_round, run_round}

-- What a round of a loop gets to see of HDFS, what the stack holds, and whether the barrier of its
-- `loadNewModel` opens: whether etcd takes the key of this node and comes to list those of all.
pub record Seen : Type 1 where
  pub api : HdfsApi
  pub garbage : Bytes
  pub barrier_opens : Bool

-- How `init` ends: it returns -1; it returns 0 with a model; or it still looks for one, or is at
-- the barrier.
pub data Start (reader : SliceReader) : Type 0 where
  failed waiting : Start reader
  ready : NodeState reader → Start reader

-- A node that has loaded a model.
abbrev pub after_barrier : {reader : SliceReader} → (opens : Bool) → NodeState reader → Start reader
after_barrier true s = ready s
after_barrier false s = waiting

-- A loop that goes on, unless it is held up.
abbrev pub unless_held :
    {reader : SliceReader} → (held : Bool) → Outcome (NodeState reader) → Outcome (NodeState reader)
unless_held true rest = running
unless_held false rest = rest

-- The constructor.
abbrev pub new_node : (reader : SliceReader) → Disk → NodeState reader
new_node reader disk = record { tables = []; disk = disk; version = 0; model = none; hander = none }

module _ (reader : SliceReader) (fuel : ℕ) (options : Options) where
  -- The loop, over the rounds so far.
  unfoldable pub init_rounds : List Seen → NodeState reader → Outcome (Start reader)
  unfolding init_round
  init_rounds [] s = done waiting
  init_rounds (seen ∷ rounds) s = elim (init_round seen.api seen.garbage reader fuel options s) [
    | done (true, t) ↦ done (after_barrier seen.barrier_opens t)
    | done (false, t) ↦ init_rounds rounds t
    | fault ↦ fault
    | running ↦ running
  ]

  unfoldable pub init :
      (connect : Bytes → Option HdfsApi) → List Seen → NodeState reader → Outcome (Start reader)
  unfolding Connect.init init_rounds
  init connect rounds s =
      if (Connect.init connect (hdfs_hander hdfs_address)).0 == 0
      then init_rounds rounds s
      else done failed

  -- The thread of `run`, over the rounds so far; at a barrier that does not open it stays.
  unfoldable pub run_rounds : List Seen → NodeState reader → Outcome (NodeState reader)
  unfolding run_round
  run_rounds [] s = done s
  run_rounds (seen ∷ rounds) s = elim (run_round seen.api seen.garbage reader fuel options s) [
    | done (switched, t) ↦ unless_held (switched && not seen.barrier_opens) (run_rounds rounds t)
    | fault ↦ fault
    | running ↦ running
  ]
