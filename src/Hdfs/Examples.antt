-- ===== src/Hdfs/Examples.antt =====
-- code/src/hdfs_hander.cpp: the theorems at a small file system with one finished model.
use prob_alimama_2023_a.Base.{
  ℕ, ◌≡◌, ◌⊎◌, refl, true, false, none, some, List, [], ◌∷◌, arith, Bytes, codes, equal,
  if◌then◌else◌, All, ◌≢◌, ◌↔◌,
}
use prob_alimama_2023_a.Model.{SliceMeta, ModelMeta}
use prob_alimama_2023_a.Text.{find_first_of, to_string}
use prob_alimama_2023_a.Hdfs.Store.{find_file, store, store-ReadLaws, store-Readable}
use prob_alimama_2023_a.GenData.{write_meta}
use prob_alimama_2023_a.Hdfs.{HdfsApi, done, get_available_model_name}
use prob_alimama_2023_a.Hdfs.Version.{
  Available, RolledBack, get_available_model_name_lem, LastOf, Passed,
}
use prob_alimama_2023_a.Hdfs.Latest.{ModelTables, find_model, get_latest_model}
use prob_alimama_2023_a.Hdfs.Latest.Kept.{Keyed, get_latest_model-Keyed}
use prob_alimama_2023_a.Hdfs.Meta.{load_model_meta}
use prob_alimama_2023_a.Hdfs.RoundTrip.{load_model_meta-write_meta, written_model}
use prob_alimama_2023_a.Hdfs.Local.{
  Disk, load_slice_to_local, clear_local_slice, write_file, with_directory,
}
use prob_alimama_2023_a.Hdfs.Local.Copies.{load_slice_to_local-copies}

abbrev meta_text : Bytes
meta_text = write_meta (codes "model_a") 2 4

abbrev model_files : List (Bytes × Bytes)
model_files =
    (codes "/model_b", [])
    ∷ (codes "/model_a", [])
    ∷ (codes "/model_a/model.done", [])
    ∷ (codes "/model_a/model.meta", meta_text)
    ∷ (codes "/model_a/model_slice.0", 1 ∷ 2 ∷ 3 ∷ 4 ∷ [])
    ∷ []

abbrev model_entries : List Bytes
model_entries = codes "/model_a" ∷ codes "/model_b" ∷ []

abbrev one_model : HdfsApi
one_model = store model_files model_entries

abbrev sample_slice : SliceMeta
sample_slice = record {
  slice_name = codes "model_slice.0";
  hdfs_slice_path = codes "/model_a/model_slice.0";
  local_slice_path = codes "/tmp/model_a/model_slice.0";
  slice_no = 0;
  size = 4;
  is_load = false;
}

abbrev empty_disk : Disk
empty_disk = record {
  has_directory = λ p. false;
  file = λ p. none;
  can_create_directory = λ p. true;
  can_write = λ p. true;
}

abbrev made_disk : Disk
made_disk = record empty_disk {
  has_directory = λ p. if equal p (codes "/tmp/model_a") then true else false;
}

get_available_model_name_lem_example :
    ((name : Bytes)
      → get_available_model_name one_model [] ≡ some name
      → Available one_model name
        × (RolledBack one_model [] name
            ⊎ ((other : Bytes) → RolledBack one_model [] other → ⊥)
              × LastOf one_model model_entries name))
    × ((get_available_model_name one_model [] ≡ none) ↔ (
        ((other : Bytes) → RolledBack one_model [] other → ⊥)
        × All (Passed one_model) model_entries))
get_available_model_name_lem_example = get_available_model_name_lem one_model []

load_model_meta-write_meta_example :
    load_model_meta one_model 200 (codes "model_a")
    ≡ done (some (written_model (codes "model_a") 2 4))
unfolding find_file write_meta to_string
load_model_meta-write_meta_example =
    load_model_meta-write_meta one_model (store-ReadLaws model_files model_entries)
      (store-Readable model_files model_entries) 200 (codes "model_a") (codes "model_a") 2 4
      meta_text refl refl (omega arith) (refl, (refl, (refl, (refl, (refl, (refl, (refl, tt)))))))
      (omega arith)

load_slice_to_local-copies_example :
    (copied : Disk) × (load_slice_to_local one_model 10
        (codes "/tmp/model_a")
        empty_disk
        sample_slice
      ≡ done (true, copied, record sample_slice { is_load = true }))
    × (copied.file (codes "/tmp/model_a/model_slice.0") ≡ some (1 ∷ 2 ∷ 3 ∷ 4 ∷ []))
    × ((p : Bytes) → p ≢ codes "/tmp/model_a/model_slice.0" → copied.file p ≡ none)
    × (clear_local_slice copied (record sample_slice { is_load = true })
        ≡ (true, write_file copied (codes "/tmp/model_a/model_slice.0") none, sample_slice))
unfolding with_directory find_file
load_slice_to_local-copies_example =
    load_slice_to_local-copies one_model (store-ReadLaws model_files model_entries)
      (store-Readable model_files model_entries) 10 (codes "/tmp/model_a") empty_disk made_disk
      sample_slice (1 ∷ 2 ∷ 3 ∷ 4 ∷ []) refl refl refl refl (omega arith)

abbrev model_a : ModelMeta
model_a = written_model (codes "model_a") 2 4

abbrev kept_a : ModelTables
kept_a = (codes "model_a", model_a) ∷ []

get_latest_model-Keyed_example :
    (get_available_model_name one_model [] ≡ some (codes "model_a"))
    × Keyed kept_a
    × ((later : HdfsApi) (other : Bytes) (more : ℕ)
        → get_available_model_name later other ≡ some (codes "model_a")
        → get_latest_model later other more kept_a ≡ done (some model_a, kept_a))
unfolding find_file find_first_of get_latest_model find_model equal
get_latest_model-Keyed_example =
    get_latest_model-Keyed one_model [] 200 kept_a kept_a model_a (refl, tt) refl
