-- ===== src/Manager/Load.antt =====
-- code/src/model_manger.cpp: the first part of `loadNewModel`: the node's slices are copied and a
-- handler is made for them.
pub mod Copied
mod Opened
pub mod Served
pub mod Sample
mod Examples
use prob_alimama_2023_a.Base.{
  ℕ, zero, suc, ◌+◌, ◌*◌, ◌-◌, ◌^◌, leb, Bool, true, false, Option, none, some, List, [], ◌∷◌,
  get_elem?, set, ◌==◌, if◌then◌else◌, Bytes,
}
use prob_alimama_2023_a.Model.{SliceMeta, ModelMeta}
use prob_alimama_2023_a.Hdfs.{HdfsApi, Outcome, done, fault, running}
use prob_alimama_2023_a.Hdfs.Local.{Disk, load_slice_to_local}
use prob_alimama_2023_a.Handler.{SliceReader, Readers, load_slices, load_all}
use prob_alimama_2023_a.Shard.{slice_num_per_node, shard_range}
use prob_alimama_2023_a.Options.{Options}

-- What the loop has when it ends: the slices of the node, or none if a load failed; the disk; the
-- model's slices.
abbrev pub Loaded : Type 0
Loaded = Outcome (Option (List SliceMeta) × Disk × List SliceMeta)

-- `slices.push_back(slice)` in front of what the rest of the loop adds
abbrev pub onto : SliceMeta → Loaded → Loaded
onto slice (done (some shard, disk, slices)) = done (some (slice ∷ shard), disk, slices)
onto slice (done (none, disk, slices)) = done (none, disk, slices)
onto slice fault = fault
onto slice running = running

-- The loop from slice `start` on, with `count` slices to go. An index past the vector is a fault.
unfoldable pub load_shard :
    (api : HdfsApi) (fuel : ℕ) (local_model_path : Bytes) (count start : ℕ)
    → Disk
    → List SliceMeta
    → Loaded
unfolding load_slice_to_local
load_shard api fuel dir zero start disk slices = done (some [], disk, slices)
load_shard api fuel dir (suc count) start disk slices = elim (get_elem? slices start) [
  | none ↦ fault
  | some slice ↦ elim (load_slice_to_local api fuel dir disk slice) [
    | done (true, next, loaded) ↦
        onto loaded (load_shard api fuel dir count (suc start) next (set slices start loaded))
    | done (false, next, loaded) ↦ done (none, next, set slices start loaded)
    | fault ↦ fault
    | running ↦ running
  ]
]

-- `ModelHander` and `init`, with the files that the disk has then.
pub record ModelHander (reader : SliceReader) : Type 0 where
  pub n_thread : ℕ
  pub model_name : Bytes
  pub slice_readers : Readers reader

-- The constructor moves the vector of slices away, so the `LoadAll` after it is for 0 slices, in
-- both branches.
unfoldable pub new_hander :
    (reader : SliceReader) (cpu : ℕ) (model_name : Bytes) (files : Bytes → Option Bytes)
    → List SliceMeta
    → ModelHander reader
unfolding load_slices load_all
new_hander reader cpu model_name files shard = record {
  n_thread = cpu;
  model_name = model_name;
  slice_readers = load_all reader files 0 shard (load_slices reader files shard []);
}

-- After the loop: `false` where a load failed, and else the handler, with the files that the disk
-- has then.
unfoldable pub hander_of :
    (reader : SliceReader)
    → Options
    → ModelMeta
    → Loaded
    → Outcome (Option (ModelHander reader) × Disk × ModelMeta)
unfolding new_hander
hander_of reader options model (done (some shard, next, slices)) = done (
  some (new_hander reader options.cpu model.model_name next.file shard),
  next,
  record model { slices = slices },
)
hander_of reader options model (done (none, next, slices)) =
    done (none, next, record model { slices = slices })
hander_of reader options model fault = fault
hander_of reader options model running = running

-- `loadNewModel` before the barrier: the handler, or none where it returns false. `node_id` is the
-- bit pattern of an `int`, and NODE_ID=0 makes it negative: with a share above 0 the first index of
-- the loop is then negative. The sum `end + slice_num_per_node`, taken with the pattern, is 2 ^ 31
-- or more then, and else only where the `int` overflows; both are a fault. With a share of 0 the
-- range starts at 0, whatever the node, and is empty. So is the range of a negative `node_num`,
-- whose pattern is above every `slice_num`.
unfoldable pub load_new_model :
    (api : HdfsApi) (reader : SliceReader) (fuel : ℕ)
    → Options
    → Disk
    → ModelMeta
    → Outcome (Option (ModelHander reader) × Disk × ModelMeta)
unfolding load_shard hander_of slice_num_per_node shard_range
load_new_model api reader fuel options disk model =
    elim (slice_num_per_node model.slice_num options.node_num) [
      | none ↦ fault
      | some per ↦
          let (start, end) = shard_range model.slice_num per options.node_id in
          let loaded : Loaded =
            load_shard api fuel model.local_model_path (end - start) start disk model.slices in
          if leb (2 ^ 31) (per * options.node_id + per + per)
          then fault
          else hander_of reader options model loaded
    ]
