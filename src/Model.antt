-- ===== src/Model.antt =====
-- code/src/hdfs_hander.h: what is known of a model and of its slices. The back pointer of a slice
-- to its model is left out: a slice is only met inside its model.
use prob_alimama_2023_a.Base.{ℕ, Bool, List, Bytes}

pub record SliceMeta : Type 0 where
  pub slice_name : Bytes
  pub hdfs_slice_path : Bytes
  pub local_slice_path : Bytes
  pub slice_no : ℕ
  pub size : ℕ
  pub is_load : Bool

pub record ModelMeta : Type 0 where
  pub model_name : Bytes
  pub hdfs_model_path : Bytes
  pub local_model_path : Bytes
  pub slice_num : ℕ
  pub slice_size : ℕ
  pub slices : List SliceMeta
