-- ===== src/ServiceTest/Examples.antt =====
-- code/src/model_service_test.cc: the client at a node alone with 20 slices, which share a file of
-- 1,015 bytes in HDFS.
use prob_alimama_2023_a.Base.{ℕ, zero, suc, ◌+◌, false, List, [], ◌∷◌, map, replicate, Bytes, codes}
use prob_alimama_2023_a.Model.{SliceMeta, ModelMeta}
use prob_alimama_2023_a.Options.{Options}
use prob_alimama_2023_a.Request.{SliceRequest, Response}
use prob_alimama_2023_a.Hdfs.Store.{store}
use prob_alimama_2023_a.Cluster.{stored}
use prob_alimama_2023_a.ServiceTest.{RpcStatus}
use prob_alimama_2023_a.ServiceTest.Prints.{rpc_ok}

-- Shut, so that no test runs through its bytes.
content : Bytes
content = replicate 1015 7

abbrev one_file : List (Bytes × Bytes)
one_file = (codes "/m/0", content) ∷ []

-- The local path of slice `i` is the one character `i`.
abbrev slice_at : ℕ → SliceMeta
slice_at i = record {
  slice_name = codes "0";
  hdfs_slice_path = codes "/m/0";
  local_slice_path = i ∷ [];
  slice_no = i;
  size = 1015;
  is_load = false;
}

abbrev slices_from : (i n : ℕ) → List SliceMeta
slices_from i zero = []
slices_from i (suc n) = slice_at i ∷ slices_from (i + 1) n

abbrev twenty_slices : ModelMeta
twenty_slices = record {
  model_name = codes "m";
  hdfs_model_path = codes "/m";
  local_model_path = codes "/tmp/a";
  slice_num = 20;
  slice_size = 1015;
  slices = slices_from 0 20;
}

abbrev one_node : Options
one_node = record { node_id = 0; node_num = 1; cpu = 4; mempry = 1024 }

-- A call that answers with what HDFS holds.
abbrev answers_stored : List SliceRequest → Response × RpcStatus
answers_stored request = (
  record { status = 0; slice_data = map (stored (store one_file []) (slices_from 0 20)) request },
  rpc_ok,
)
