-- ===== src/Hdfs/Local.antt =====
-- code/src/hdfs_hander.cpp: the local copies of the slices (`loadSliceToLocal`, `clearLocalSlice`,
-- and the two loops over a model).
pub mod Copies
use prob_alimama_2023_a.Base.{
  ℕ, Bool, true, false, Option, none, some, List, [], ◌∷◌, ◌++◌, if◌then◌else◌, ◌&&◌, Bytes, equal,
}
use prob_alimama_2023_a.Model.{SliceMeta, ModelMeta}
use prob_alimama_2023_a.Hdfs.{HdfsApi, Outcome, done, fault, running, read_loop, buffer_size}

-- The local file system: its folders and files by path, and which of them it lets a process make.
pub record Disk : Type 0 where
  pub has_directory : Bytes → Bool
  pub file : Bytes → Option Bytes
  pub can_create_directory : Bytes → Bool
  pub can_write : Bytes → Bool

-- The folder of a model, made if it is not there; `none` if it cannot be made.
unfoldable pub with_directory : Disk → Bytes → Option Disk
with_directory disk path =
    if disk.has_directory path
    then some disk
    else if disk.can_create_directory path
    then some
        (record disk { has_directory = λ p. if equal p path then true else disk.has_directory p })
    else none

-- An `ofstream` that wrote `bytes` to `path`, which it emptied.
unfoldable pub write_file : Disk → Bytes → Option Bytes → Disk
write_file disk path content = record disk {
  file = λ p. if equal p path then content else disk.file p;
}

-- The slice's file, copied by reads of 65,536 bytes.
unfoldable pub download :
    (api : HdfsApi) (fuel : ℕ) → Disk → SliceMeta → api.File → Outcome (Bool × Disk × SliceMeta)
unfolding read_loop write_file
download api fuel disk slice file = elim (read_loop api (λ bytes. bytes) buffer_size fuel file []) [
  | done bytes ↦
      done
        (true, write_file disk slice.local_slice_path (some bytes), record slice { is_load = true })
  | fault ↦ fault
  | running ↦ running
]

unfoldable pub load_slice_to_local :
    (api : HdfsApi) (fuel : ℕ) (local_model_path : Bytes)
    → Disk
    → SliceMeta
    → Outcome (Bool × Disk × SliceMeta)
unfolding with_directory download
load_slice_to_local api fuel local_model_path disk slice =
    elim (with_directory disk local_model_path) [
      | none ↦ done (false, disk, slice)
      | some ready ↦
          if slice.is_load
          then done (true, ready, slice)
          else elim (api.open_file slice.hdfs_slice_path) [
            | none ↦ done (false, ready, slice)
            | some file ↦
                if ready.can_write slice.local_slice_path
                then download api fuel ready slice file
                else done (false, ready, slice)
          ]
    ]

-- `remove` of a file that is not there answers false.
unfoldable pub clear_local_slice : Disk → SliceMeta → Bool × Disk × SliceMeta
unfolding write_file
clear_local_slice disk slice = elim (disk.file slice.local_slice_path) [
  | none ↦ (false, disk, slice)
  | some bytes ↦
      (true, write_file disk slice.local_slice_path none, record slice { is_load = false })
]

-- The loop of `loadModelToLocal`; what a slice's load returns is not read.
unfoldable pub load_slices_to_local :
    (api : HdfsApi) (fuel : ℕ) (local_model_path : Bytes) (pred : SliceMeta → Bool)
    → Disk
    → List SliceMeta
    → Outcome (Disk × List SliceMeta)
unfolding load_slice_to_local
load_slices_to_local api fuel local_model_path pred disk [] = done (disk, [])
load_slices_to_local api fuel local_model_path pred disk (slice ∷ rest) =
    elim (if pred slice
      then load_slice_to_local api fuel local_model_path disk slice
      else done (true, disk, slice)) [
        | done (_, next, loaded) ↦
            elim (load_slices_to_local api fuel local_model_path pred next rest) [
              | done (last, slices) ↦ done (last, loaded ∷ slices)
              | fault ↦ fault
              | running ↦ running
            ]
        | fault ↦ fault
        | running ↦ running
      ]

unfoldable pub load_model_to_local :
    (api : HdfsApi) (fuel : ℕ) (pred : SliceMeta → Bool)
    → Disk
    → ModelMeta
    → Outcome (Disk × ModelMeta)
unfolding load_slices_to_local with_directory
load_model_to_local api fuel pred disk model = elim (with_directory disk model.local_model_path) [
  | none ↦ done (disk, model)
  | some ready ↦
      elim (load_slices_to_local api fuel model.local_model_path pred ready model.slices) [
        | done (last, slices) ↦ done (last, record model { slices = slices })
        | fault ↦ fault
        | running ↦ running
      ]
]

unfoldable pub clear_local_slices :
    (pred : SliceMeta → Bool) → Disk → List SliceMeta → Disk × List SliceMeta
unfolding clear_local_slice
clear_local_slices pred disk [] = (disk, [])
clear_local_slices pred disk (slice ∷ rest) =
    let (_, removed, unloaded) = clear_local_slice disk slice in
    let (next, cleared) = if pred slice then (removed, unloaded) else (disk, slice) in
    let (last, slices) = clear_local_slices pred next rest in (last, cleared ∷ slices)

unfoldable pub clear_local_model : (pred : SliceMeta → Bool) → Disk → ModelMeta → Disk × ModelMeta
unfolding clear_local_slices
clear_local_model pred disk model =
    let (last, slices) = clear_local_slices pred disk model.slices in
    (last, record model { slices = slices })
