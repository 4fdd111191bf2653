-- ===== src/Client.antt =====
-- code/src/model_async_client.cpp: the part of a request that another node serves. gRPC is not
-- modelled: a call ends in a `Reply`, which the completion queue hands to `handle_response`.
pub mod Copies
use prob_alimama_2023_a.Base.{
  ℕ, zero, suc, ◌++◌, Bool, true, Option, none, some, ◌>>=◌, List, [], ◌∷◌, ltb, if◌then◌else◌,
  length, Bytes,
}
use prob_alimama_2023_a.Base.Buffer.{store, fetch}
use prob_alimama_2023_a.Request.{
  SliceRequest, InternalRequest, SliceData, RequestTask, RequestResult, Response, count_finished,
}

-- The loop of `Push` that fills the message; a missing entry of the vector is a fault.
unfoldable pub slice_requests : ℕ → List SliceData → Option (List SliceRequest)
slice_requests zero sds = some []
slice_requests (suc num) [] = none
slice_requests (suc num) (sd ∷ sds) = do
  rest ← slice_requests num sds
  some (
      record { slice_partition = sd.slice_partition; data_start = sd.start; data_len = sd.len }
      ∷ rest)

pub data Sent : Type 0 where
  nothing : Sent
  message : InternalRequest → Sent

-- `Push`: a task with no slice is not sent.
unfoldable pub push : RequestTask → Option Sent
push task =
    if ltb 0 task.num
    then (do
      slices ← slice_requests task.num task.req_slice_list
      some (message (record { model_name = task.model_name; slice_request = slices })))
    else some nothing

-- How the call ended: a status that is not OK, or a response.
pub data Reply : Type 0 where
  rpc_error : Reply
  reply : Response → Reply

-- The copies of `HandleResponse`; `c_str()` ends in a zero byte, which may be read too.
unfoldable pub copy_slices : ℕ → List SliceData → List Bytes → Bytes → Option Bytes
copy_slices zero sds pieces dst = some dst
copy_slices (suc num) [] pieces dst = none
copy_slices (suc num) (sd ∷ sds) [] dst = none
copy_slices (suc num) (sd ∷ sds) (piece ∷ pieces) dst = do
  src ← fetch (piece ++ 0 ∷ []) 0 sd.len
  dst' ← store dst sd.pos src
  copy_slices num sds pieces dst'

unfoldable pub handle_response : RequestTask → Reply → RequestResult → Option RequestResult
unfolding copy_slices count_finished
handle_response task rpc_error result = some (record result { faild = true })
handle_response task (reply r) result =
    if ltb (length r.slice_data) task.num then some (record result { faild = true }) else (do
      dst ← copy_slices task.num task.req_slice_list r.slice_data result.bytes
      some (count_finished task.num (record result { bytes = dst })))
