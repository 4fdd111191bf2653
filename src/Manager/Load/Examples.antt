-- ===== src/Manager/Load/Examples.antt =====
-- code/src/model_manger.cpp: `loadNewModel` of the second of two nodes, on a model of two slices.
use prob_alimama_2023_a.Base.{ℕ, ◌≡◌, refl, some, [], ◌∷◌, arith, Bytes, get_elem?}
use prob_alimama_2023_a.Model.{SliceMeta, ModelMeta}
use prob_alimama_2023_a.Options.{Options}
use prob_alimama_2023_a.Hdfs.{done}
use prob_alimama_2023_a.Hdfs.Store.{find_file, store-ReadLaws, store-Readable}
use prob_alimama_2023_a.Hdfs.Local.{Disk, with_directory}
use prob_alimama_2023_a.Handler.{reader_at}
use prob_alimama_2023_a.Samples.{memory_reader}
use prob_alimama_2023_a.Shard.{InShard, slice_num_per_node, shard_range}
use prob_alimama_2023_a.Manager.Load.{ModelHander, load_new_model}
use prob_alimama_2023_a.Manager.Load.Sample.{
  files, cluster_store, slice_zero, slice_one, two_slice_model, empty_disk, ready_disk,
  two_slices-Numbered, two_slices-AllLoadable,
}
use prob_alimama_2023_a.Manager.Load.Served.{load_new_model-reader}

abbrev second_node : Options
second_node = record { node_id = 1; node_num = 2; cpu = 4; mempry = 1024 }

load_new_model-reader_example :
    (hander : ModelHander memory_reader) × (last : Disk) × (marked : ModelMeta) × (load_new_model
        cluster_store memory_reader 10 second_node empty_disk two_slice_model
      ≡ done (some hander, last, marked))
    × ((n : ℕ) (slice : SliceMeta)
        → InShard 2 1 1 n
        → get_elem? (slice_zero ∷ slice_one ∷ []) n ≡ some slice
        → (file : Bytes) × (find_file files slice.hdfs_slice_path ≡ some file)
          × (reader_at memory_reader n hander.slice_readers ≡ file))
unfolding with_directory slice_num_per_node shard_range
load_new_model-reader_example =
    load_new_model-reader cluster_store (store-ReadLaws files []) (store-Readable files [])
      memory_reader 10 second_node empty_disk ready_disk two_slice_model 1 refl (omega arith) refl
      two_slices-Numbered (two_slices-AllLoadable 1 (omega arith))
