-- ===== src/Cluster.antt =====
-- The nodes together: each has loaded its shard (code/src/model_manger.cpp), and a request goes to
-- one of them (code/src/model_service.cpp). The abstract view of the cluster is the model in HDFS
-- alone.
pub mod Stored
mod Examples
use prob_alimama_2023_a.Base.{
  ℕ, ◌+◌, ◌≤◌, ◌≡◌, Option, none, some, List, [], get_elem?, take, drop, length, Bytes,
}
use prob_alimama_2023_a.Model.{SliceMeta, ModelMeta}
use prob_alimama_2023_a.Request.{SliceRequest}
use prob_alimama_2023_a.Hdfs.{HdfsApi, Outcome, done, fault, running}
use prob_alimama_2023_a.Hdfs.Local.{Disk}
use prob_alimama_2023_a.Handler.{SliceReader, Readers}
use prob_alimama_2023_a.Options.{Options}
use prob_alimama_2023_a.Manager.Load.{ModelHander, load_new_model}

-- The abstract view: slice `n` of a model is the content of its file, and a request for a piece of
-- it gets that piece.
unfoldable pub slice_content : (api : HdfsApi) → List SliceMeta → ℕ → Bytes
slice_content api slices n = elim (get_elem? slices n) [
  | none ↦ []
  | some slice ↦ elim (api.open_file slice.hdfs_slice_path) [
    | none ↦ []
    | some file ↦ api.contents file
  ]
]

unfoldable pub stored : (api : HdfsApi) → List SliceMeta → SliceRequest → Bytes
unfolding slice_content
stored api slices sr =
    take sr.data_len (drop sr.data_start (slice_content api slices sr.slice_partition))

-- What the users of ModelSliceReader rely on: after `Load` of a file, `Read` gives the bytes asked
-- for, if the file has them.
pub record ReadsFile (reader : SliceReader) : Type 0 where
  pub read-load :
      (content : Bytes) (start len : ℕ)
      → start + len ≤ length content
      → reader.read (reader.load (some content) reader.fresh) start len
        ≡ take len (drop start content)

-- The readers of a node that has come to the barrier.
pub readers_of :
    {reader : SliceReader}
    → Outcome (Option (ModelHander reader) × Disk × ModelMeta)
    → Readers reader
readers_of (done (some hander, disk, model)) = hander.slice_readers
readers_of (done (none, disk, model)) = []
readers_of fault = []
readers_of running = []

-- The readers of each node of a cluster, each with a disk of its own.
pub nodes_of :
    (api : HdfsApi) (reader : SliceReader) (fuel : ℕ)
    → Options
    → (disks : ℕ → Disk) → ModelMeta
    → ℕ
    → Readers reader
unfolding readers_of
nodes_of api reader fuel options disks model k =
    readers_of (load_new_model api reader fuel (record options { node_id = k }) (disks k) model)
