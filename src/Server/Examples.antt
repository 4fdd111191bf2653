-- ===== src/Server/Examples.antt =====
-- code/src/main.cpp, code/src/model_manger.cpp: the start of a node alone, and a round of `run`.
use prob_alimama_2023_a.Base.{
  ℕ, ◌≡◌, ◌∙◌, ◌++◌, refl, some, [], ◌∷◌, get_elem?, Bytes, codes, equal, arith,
}
use prob_alimama_2023_a.Model.{SliceMeta}
use prob_alimama_2023_a.Samples.{memory_reader}
use prob_alimama_2023_a.Handler.{reader_at}
use prob_alimama_2023_a.Hdfs.{done}
use prob_alimama_2023_a.Hdfs.Latest.{get_latest_model}
use prob_alimama_2023_a.Hdfs.Store.{find_file, store-ReadLaws, store-Readable}
use prob_alimama_2023_a.Shard.{slice_num_per_node, shard_range, InShard}
use prob_alimama_2023_a.Manager.Load.{ModelHander}
use prob_alimama_2023_a.Manager.Load.Sample.{empty_disk}
use prob_alimama_2023_a.Manager.Start.{Seen}
use prob_alimama_2023_a.Server.{Listening, listening, run_server}
use prob_alimama_2023_a.Server.Built.{Built, run_server-Built}
use prob_alimama_2023_a.Server.Listens.{run_server_listens}
use prob_alimama_2023_a.Hdfs.Connect
use prob_alimama_2023_a.Manager.Load.Served.{load_new_model-reader}
use prob_alimama_2023_a.Manager.Start.{ready, new_node, run_rounds}
use prob_alimama_2023_a.Manager.Start
use prob_alimama_2023_a.Manager.Start.Ready.{Chosen, init_rounds-idle, init_rounds-loaded}
use prob_alimama_2023_a.Manager.Start.Life.{run_rounds-init}
use prob_alimama_2023_a.Manager.Switch.{NodeState, run_round}
use prob_alimama_2023_a.Server.Sample.{
  files, entries, model_a, no_model, with_model, lone_node, default_options,
  default_options-load_env, lone_ip, lone_connected, no_available, latest_a, made_disk,
  model_a-Numbered, model_a-AllLoadable, lone_node-Loads,
}

run_server_listens_example :
    (l : Listening memory_reader) × (hander : ModelHander memory_reader) × (run_server memory_reader
        200 lone_node
      ≡ done (listening l))
    × (l.node.hander ≡ some hander)
    × ((n : ℕ) (slice : SliceMeta)
        → InShard 1 1 0 n
        → get_elem? model_a.slices n ≡ some slice
        → (file : Bytes) × (find_file files slice.hdfs_slice_path ≡ some file)
          × (reader_at memory_reader n hander.slice_readers ≡ file))
unfolding lone_node-Loads find_file
run_server_listens_example =
    run_server_listens memory_reader 200 lone_node default_options (49 ∷ []) model_a
      default_options-load_env lone_ip lone_connected refl lone_node-Loads

lone_node_listens :
    (l : Listening memory_reader) × (run_server memory_reader 200 lone_node ≡ done (listening l))
lone_node_listens =
    let (l, hander, e, _, _) =
      run_server_listens memory_reader 200 lone_node default_options (49 ∷ []) model_a
        default_options-load_env lone_ip lone_connected refl lone_node-Loads in
    (l, e)

run_server-Built_example : Built memory_reader 200 lone_node lone_node_listens.0
run_server-Built_example =
    run_server-Built memory_reader 200 lone_node lone_node_listens.0 lone_node_listens.1

lone_node_starts :
    (t : NodeState memory_reader) × (Start.init memory_reader 200 default_options lone_node.connect
        lone_node.seen
        (new_node memory_reader empty_disk)
      ≡ done (ready t))
unfolding Start.init Connect.init find_file slice_num_per_node shard_range equal
lone_node_starts =
    let (hander, last, marked, ran, _) =
      load_new_model-reader with_model.api (store-ReadLaws files entries)
        (store-Readable files entries) memory_reader 200 default_options empty_disk made_disk.0
        model_a 1 refl (omega arith) made_disk.1 model_a-Numbered model_a-AllLoadable in
    (
      _,
      init_rounds-idle memory_reader 200 default_options (no_model ∷ []) (with_model ∷ [])
            (new_node memory_reader empty_disk) (no_available, tt)
          ∙ init_rounds-loaded memory_reader 200 default_options with_model []
              (new_node memory_reader empty_disk) model_a marked ((codes "model_a", model_a) ∷ [])
              hander last latest_a ran refl,
    )

run_rounds-no_model :
    (t : NodeState memory_reader)
    → run_rounds memory_reader 200 default_options (no_model ∷ []) t ≡ done t
unfolding run_rounds run_round get_latest_model
run_rounds-no_model t = rw (run_rounds, run_round, get_latest_model, no_available) refl

run_rounds-init_example :
    Chosen memory_reader 200 default_options
      ((no_model ∷ with_model ∷ []) ++ no_model ∷ [])
      lone_node_starts.0
run_rounds-init_example =
    run_rounds-init memory_reader 200 default_options lone_node.connect (no_model ∷ with_model ∷ [])
      (no_model ∷ []) empty_disk lone_node_starts.0 lone_node_starts.0 lone_node_starts.1
      (run_rounds-no_model lone_node_starts.0)
