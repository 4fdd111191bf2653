-- ===== src/Hdfs/Connect.antt =====
-- code/src/hdfs_hander.cpp: the constructor of HDFSHander, and `init`.
use prob_alimama_2023_a.Base.{ℕ, Bool, true, false, Option, none, some, Bytes, codes, if◌then◌else◌}
use prob_alimama_2023_a.Request.{minus_one}
use prob_alimama_2023_a.Hdfs.{HdfsApi, model_root_dir}

abbrev pub hdfs_address : Bytes
hdfs_address = codes "hdfs://namenode:9000"

-- The folders that the object keeps are the constants `model_root_dir` and `local_root_dir`.
pub record HdfsHander : Type 1 where
  pub hdf_address : Bytes
  pub fs : Option HdfsApi
  pub is_init : Bool

abbrev pub hdfs_hander : Bytes → HdfsHander
hdfs_hander address = record { hdf_address = address; fs = none; is_init = false }

-- `hdfsConnect` is a parameter; the other libhdfs calls are those of the file system it gives.
unfoldable pub init : (connect : Bytes → Option HdfsApi) → HdfsHander → ℕ × HdfsHander
init connect hander = elim (connect hander.hdf_address) [
  | none ↦ (minus_one, record hander { fs = none })
  | some api ↦
      if api.exists model_root_dir
      then (0, record hander { fs = some api; is_init = true })
      else (minus_one, record hander { fs = some api })
]
