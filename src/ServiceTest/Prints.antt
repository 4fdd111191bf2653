-- ===== src/ServiceTest/Prints.antt =====
-- code/src/model_service_test.cc: what the client prints of an answer of the cluster.
use prob_alimama_2023_a.Base.{ℕ, ◌%◌, ◌<◌, ◌≡◌, some, List, [], map, length, get_elem?}
use prob_alimama_2023_a.Model.{ModelMeta}
use prob_alimama_2023_a.Options.{Options}
use prob_alimama_2023_a.Request.{SliceRequest, Response}
use prob_alimama_2023_a.Hdfs.{HdfsApi, ReadLaws, Readable}
use prob_alimama_2023_a.Hdfs.Local.{Disk}
use prob_alimama_2023_a.Handler.{SliceReader}
use prob_alimama_2023_a.Cluster.{stored, ReadsFile}
use prob_alimama_2023_a.ServiceTest.{RpcStatus}

-- The request of the test: 1,000 pieces of 16 bytes, the k-th from byte k of slice k % 20.
pub record IsTest (request : List SliceRequest) : Type 0 where
  pub thousand : length request ≡ 1000
  pub each :
      (k : ℕ)
      → k < 1000
      → get_elem? request k
        ≡ some (record { slice_partition = k % 20; data_start = k; data_len = 16 })

abbrev pub rpc_ok : RpcStatus
rpc_ok = record { error_code = 0; error_message = [] }

module _ (api : HdfsApi) (laws : ReadLaws api) (sane : Readable api) (reader : SliceReader)
    (reads : ReadsFile reader) (fuel : ℕ) (options : Options) (disks readys : ℕ → Disk)
    (model : ModelMeta) (per : ℕ) where
  -- What the client gets for its request: the answer of the cluster, and an OK of the call.
  abbrev pub Answers : (List SliceRequest → Response × RpcStatus) → Type 0
  Answers get =
      (request : List SliceRequest)
      → IsTest request
      → get request
        ≡ (record { status = 0; slice_data = map (stored api model.slices) request }, rpc_ok)
