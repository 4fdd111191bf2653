-- ===== src/Internal.antt =====
-- code/src/model_internal_server.cpp: `Get` of the service that the other nodes call.
-- `block` is what `allocate` returned and `buf` the uninitialised buffer of the reader thread. The
-- request's one task is the only one that touches its result, so it is done when `wait` ends. The
-- model begins where `getModelHander(name)` (Manager/Handlers.antt) and `allocate` (Allocator.antt)
-- have returned; both may wait before.
pub mod Answer
mod Examples
use prob_alimama_2023_a.Base.{
  ℕ, zero, suc, ◌+◌, ◌%◌, ◌^◌, Option, none, some, ◌>>=◌, List, [], ◌∷◌, length, if◌then◌else◌,
  Bytes,
}
use prob_alimama_2023_a.Base.Words.{to_int, to_u64}
use prob_alimama_2023_a.Base.Buffer.{fetch}
use prob_alimama_2023_a.Request.{
  SliceRequest, Response, minus_one, InternalRequest, SliceData, RequestTask, RequestResult,
  request_result, locate, add_size, count_finished, wait,
}
use prob_alimama_2023_a.Handler.{SliceReader, Readers, process_task}

-- The first loop: where each slice goes, from `size` on, and the total.
unfoldable pub gather : List SliceRequest → ℕ → List SliceData × ℕ
unfolding locate add_size
gather [] size = ([], size)
gather (sr ∷ srs) size =
    let (sds, total) = gather srs (add_size size sr.data_len) in (locate sr size ∷ sds, total)

-- The last loop: the pieces of the answer, from `pos` on.
unfoldable pub assemble : Bytes → ℕ → List SliceRequest → Option (List Bytes)
assemble block pos [] = some []
assemble block pos (sr ∷ srs) = do
  piece ← fetch block (to_u64 pos) (to_u64 (to_int sr.data_len))
  rest ← assemble block ((pos + to_int sr.data_len) % 2 ^ 32) srs
  some (piece ∷ rest)

-- The end of `Get`.
unfoldable pub respond : List SliceRequest → RequestResult → Option Response
unfolding assemble
respond srs result =
    if result.faild then some (record { status = minus_one; slice_data = [] }) else (do
      pieces ← assemble result.bytes 0 srs
      some (record { status = 0; slice_data = pieces }))

-- The one task of a request.
unfoldable pub whole_task : List SliceRequest → RequestTask
unfolding gather
whole_task srs = record { num = length srs; model_name = []; req_slice_list = (gather srs 0).0 }

module _ (api : SliceReader) where
  unfoldable pub internal_get :
      Readers api → (block buf : Bytes) → (req_no : ℕ) → InternalRequest → Option Response
  unfolding whole_task gather respond request_result wait
  internal_get rs block buf req_no req = do
    let srs = req.slice_request
    let result = request_result req_no (length srs) (gather srs 0).1 block
    finished ← process_task api rs buf (whole_task srs) result
    done ← wait finished
    respond srs done
