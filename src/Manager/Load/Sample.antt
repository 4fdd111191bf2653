-- ===== src/Manager/Load/Sample.antt =====
-- A model of two slices for two nodes, for the tests.
use prob_alimama_2023_a.Base.{
  ℕ, zero, suc, ◌+◌, ◌<◌, ◌≡◌, refl, true, false, none, some, List, [], ◌∷◌, arith, Bytes, codes,
  get_elem?, equal, if◌then◌else◌,
}
use prob_alimama_2023_a.Model.{SliceMeta, ModelMeta}
use prob_alimama_2023_a.Hdfs.{HdfsApi}
use prob_alimama_2023_a.Hdfs.Store.{find_file, store, store-ReadLaws, store-Readable}
use prob_alimama_2023_a.Hdfs.Local.{Disk}
use prob_alimama_2023_a.Manager.Load.Copied.{AllLoadable, Loadable}
use prob_alimama_2023_a.Manager.Load.Served.{Numbered}

abbrev pub files : List (Bytes × Bytes)
files = (codes "/a/0", 1 ∷ 2 ∷ []) ∷ (codes "/a/1", 3 ∷ 4 ∷ []) ∷ []

abbrev pub cluster_store : HdfsApi
cluster_store = store files []

abbrev pub slice_zero : SliceMeta
slice_zero = record {
  slice_name = codes "0";
  hdfs_slice_path = codes "/a/0";
  local_slice_path = codes "/tmp/a/0";
  slice_no = 0;
  size = 2;
  is_load = false;
}

abbrev pub slice_one : SliceMeta
slice_one = record {
  slice_name = codes "1";
  hdfs_slice_path = codes "/a/1";
  local_slice_path = codes "/tmp/a/1";
  slice_no = 1;
  size = 2;
  is_load = false;
}

abbrev pub two_slice_model : ModelMeta
two_slice_model = record {
  model_name = codes "a";
  hdfs_model_path = codes "/a";
  local_model_path = codes "/tmp/a";
  slice_num = 2;
  slice_size = 2;
  slices = slice_zero ∷ slice_one ∷ [];
}

abbrev pub empty_disk : Disk
empty_disk = record {
  has_directory = λ p. false;
  file = λ p. none;
  can_create_directory = λ p. true;
  can_write = λ p. true;
}

pub two_slices-Numbered : Numbered (slice_zero ∷ slice_one ∷ [])
two_slices-Numbered zero slice e = same e
  where
    same : {slice : SliceMeta} → some slice_zero ≡ some slice → slice.slice_no ≡ 0
    same e = cc e
two_slices-Numbered (suc zero) slice e = same e
  where
    same : {slice : SliceMeta} → some slice_one ≡ some slice → slice.slice_no ≡ 1
    same e = cc e
two_slices-Numbered (suc (suc k)) slice e = cc e

abbrev pub ready_disk : Disk
ready_disk = record empty_disk {
  has_directory = λ p. if equal p (codes "/tmp/a") then true else false;
}

slice_zero-Loadable :
    Loadable cluster_store
      (store-ReadLaws files [])
      (store-Readable files [])
      10
      (codes "/tmp/a")
      empty_disk
      slice_zero
unfolding find_file
slice_zero-Loadable = record {
  fresh = refl;
  content = 1 ∷ 2 ∷ [];
  source = (1 ∷ 2 ∷ [], refl, refl, omega arith);
  writable = refl;
}

slice_one-Loadable :
    Loadable cluster_store
      (store-ReadLaws files [])
      (store-Readable files [])
      10
      (codes "/tmp/a")
      empty_disk
      slice_one
unfolding find_file
slice_one-Loadable = record {
  fresh = refl;
  content = 3 ∷ 4 ∷ [];
  source = (3 ∷ 4 ∷ [], refl, refl, omega arith);
  writable = refl;
}

loadable :
    (node_id k : ℕ)
    → node_id < 2
    → k < 1
    → (slice : SliceMeta) × (get_elem? (slice_zero ∷ slice_one ∷ []) (node_id + k) ≡ some slice)
      × Loadable cluster_store
          (store-ReadLaws files [])
          (store-Readable files [])
          10
          (codes "/tmp/a")
          empty_disk
          slice
loadable node_id (suc k) lt one = absurd (omega (arith, one))
loadable zero zero lt one = (slice_zero, refl, slice_zero-Loadable)
loadable (suc zero) zero lt one = (slice_one, refl, slice_one-Loadable)
loadable (suc (suc n)) zero lt one = absurd (omega (arith, lt))

pub two_slices-AllLoadable :
    (node_id : ℕ)
    → node_id < 2
    → AllLoadable cluster_store
        (store-ReadLaws files [])
        (store-Readable files [])
        10
        (codes "/tmp/a")
        1
        node_id
        empty_disk
        (slice_zero ∷ slice_one ∷ [])
two_slices-AllLoadable node_id lt = record {
  each = λ k one. loadable node_id k lt one;
  apart = λ j k a b jl kl n x y. absurd (n (omega (arith, jl, kl)));
}
