-- ===== src/Cluster/Examples.antt =====
-- `Get` at the second of two nodes, for pieces of both slices of a model in HDFS.
use prob_alimama_2023_a.Base.{
  ℕ, zero, suc, ◌<◌, ◌-◌, All, ◌≡◌, refl, ◌⊎◌, true, false, some, List, [], ◌∷◌, arith, codes,
  get_elem?,
}
use prob_alimama_2023_a.Model.{SliceMeta}
use prob_alimama_2023_a.Samples.{memory_reader, block, length-block}
use prob_alimama_2023_a.Request.{SliceRequest, minus_one, wait}
use prob_alimama_2023_a.Options.{Options}
use prob_alimama_2023_a.Shard.{slice_num_per_node, shard_range, get_node_for_slice}
use prob_alimama_2023_a.Hdfs.Store.{find_file, store-ReadLaws, store-Readable}
use prob_alimama_2023_a.Hdfs.Local.{with_directory}
use prob_alimama_2023_a.Manager.Load.Copied.{AllLoadable}
use prob_alimama_2023_a.Manager.Load.Sample.{
  files, cluster_store, slice_zero, slice_one, two_slice_model, empty_disk, ready_disk,
  two_slices-Numbered, two_slices-AllLoadable,
}
use prob_alimama_2023_a.Internal.{respond}
use prob_alimama_2023_a.Service.{Flight, start_get, Reach}
use prob_alimama_2023_a.Cluster.{slice_content, stored, ReadsFile, nodes_of}
use prob_alimama_2023_a.Cluster.Stored.{Deployed, Piece, get-stored, get_stored_returns}

abbrev two_node_options : Options
two_node_options = record { node_id = 1; node_num = 2; cpu = 4; mempry = 1024 }

memory_reader-ReadsFile : ReadsFile memory_reader
memory_reader-ReadsFile = record { read-load = λ content start len h. refl }

two_slices-there :
    (n : ℕ) → n < 2 → (slice : SliceMeta) × (get_elem? (slice_zero ∷ slice_one ∷ []) n ≡ some slice)
two_slices-there zero lt = (slice_zero, refl)
two_slices-there (suc zero) lt = (slice_one, refl)
two_slices-there (suc (suc n)) lt = absurd (omega (arith, lt))

two_slice_model-Deployed :
    Deployed cluster_store
      (store-ReadLaws files [])
      (store-Readable files [])
      memory_reader
      memory_reader-ReadsFile
      10
      two_node_options
      (λ k. empty_disk)
      (λ k. ready_disk)
      two_slice_model
      1
unfolding with_directory slice_num_per_node shard_range
two_slice_model-Deployed = record {
  split = refl;
  small = omega arith;
  even = omega arith;
  numbered = two_slices-Numbered;
  each_slice = two_slices-there;
  folder = λ k lt. refl;
  loadable = shards;
}
  where
    shards :
        (k : ℕ)
        → k < 2
        → AllLoadable cluster_store
            (store-ReadLaws files [])
            (store-Readable files [])
            10
            (codes "/tmp/a")
            ((shard_range 2 1 k).1 - (shard_range 2 1 k).0)
            (shard_range 2 1 k).0
            empty_disk
            (slice_zero ∷ slice_one ∷ [])
    shards zero lt = two_slices-AllLoadable 0 lt
    shards (suc zero) lt = two_slices-AllLoadable 1 lt
    shards (suc (suc k)) lt = absurd (omega (arith, lt))

abbrev both_slices : List SliceRequest
both_slices =
    record { slice_partition = 1; data_start = 1; data_len = 1 }
    ∷ record { slice_partition = 0; data_start = 0; data_len = 2 }
    ∷ []

both-pieces :
    All
      (Piece cluster_store
        (store-ReadLaws files [])
        (store-Readable files [])
        memory_reader
        memory_reader-ReadsFile
        10
        two_node_options
        (λ k. empty_disk)
        (λ k. ready_disk)
        two_slice_model
        1)
      both_slices
unfolding slice_content find_file
both-pieces = (
  record { has = omega arith; start_fits = omega arith; short = omega arith; inside = omega arith },
  (
    record {
      has = omega arith;
      start_fits = omega arith;
      short = omega arith;
      inside = omega arith;
    },
    tt,
  ),
)

abbrev Answered : Type 0
Answered =
    (f h : Flight) × (start_get (get_node_for_slice 1 2) 1 2 (codes "a") block 3 both_slices
      ≡ some f)
    × Reach memory_reader 1 2
        (nodes_of cluster_store memory_reader 10 two_node_options (λ k. empty_disk) two_slice_model)
        f h
    × (wait h.result ≡ some h.result)
    × (respond both_slices h.result
        ≡ some (record { status = 0; slice_data = (4 ∷ []) ∷ (1 ∷ 2 ∷ []) ∷ [] }))

answered : Answered
unfolding slice_content find_file stored
answered =
    get_stored_returns cluster_store (store-ReadLaws files []) (store-Readable files [])
      memory_reader memory_reader-ReadsFile 10 two_node_options (λ k. empty_disk) (λ k. ready_disk)
      two_slice_model 1 two_slice_model-Deployed 1 both_slices (codes "a") block 3 (omega arith)
      both-pieces (omega arith) length-block

get-stored_example :
    (answered.1.result.faild ≡ false)
      × (respond both_slices answered.1.result
          ≡ some (record { status = 0; slice_data = (4 ∷ []) ∷ (1 ∷ 2 ∷ []) ∷ [] }))
    ⊎ (answered.1.result.faild ≡ true)
      × (respond both_slices answered.1.result
          ≡ some (record { status = minus_one; slice_data = [] }))
unfolding slice_content find_file stored
get-stored_example =
    get-stored cluster_store (store-ReadLaws files []) (store-Readable files []) memory_reader
      memory_reader-ReadsFile 10 two_node_options (λ k. empty_disk) (λ k. ready_disk)
      two_slice_model 1 two_slice_model-Deployed 1 both_slices (codes "a") block 3 (omega arith)
      both-pieces (omega arith) length-block answered.2 answered.3 answered.4
