-- ===== src/Internal/Examples.antt =====
-- code/src/model_internal_server.cpp: an internal request for two slices of one node.
use prob_alimama_2023_a.Base.{
  ◌≡◌, refl, some, [], ◌∷◌, map, arith, Bytes, codes, take, drop, replicate,
}
use prob_alimama_2023_a.Samples.{memory_reader, two_nodes, block, length-block}
use prob_alimama_2023_a.Request.{SliceRequest, InternalRequest}
use prob_alimama_2023_a.Handler.{reader_at}
use prob_alimama_2023_a.Internal.{internal_get}
use prob_alimama_2023_a.Internal.Answer.{internal_get-serve}

abbrev wanted : SliceRequest → Bytes
wanted sr = take sr.data_len (drop sr.data_start (codes "weights of slice zero"))

abbrev asked : InternalRequest
asked = record {
  model_name = codes "model_a";
  slice_request =
      record { slice_partition = 0; data_start = 3; data_len = 4 }
      ∷ record { slice_partition = 0; data_start = 11; data_len = 5 }
      ∷ [];
}

internal_get-serve_example :
    internal_get memory_reader (two_nodes 0) block (replicate 128 0) 9 asked
    ≡ some (record { status = 0; slice_data = map wanted asked.slice_request })
unfolding reader_at
internal_get-serve_example =
    internal_get-serve memory_reader (two_nodes 0) wanted block (replicate 128 0) 9 asked refl
      (omega (arith, length-block)) (omega (arith, length-block)) (omega arith) (refl, (refl, tt))
