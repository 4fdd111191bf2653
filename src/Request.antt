-- ===== src/Request.antt =====
-- code/src/model_hander.h: the values of a request, and the messages of alimama.proto and
-- internal.proto, which have one shape. Every `shared_ptr` to a `RequestResult` that a task carries
-- is the one result of its request, so the result is passed beside the task.
pub mod Copies
pub mod Located
use prob_alimama_2023_a.Base.{
  ℕ, ◌+◌, ◌%◌, ◌^◌, ◌-◌, Bool, false, true, ◌||◌, List, [], ◌∷◌, Option, some, none, leb,
  if◌then◌else◌, Bytes,
}
use prob_alimama_2023_a.Base.Words.{to_int, to_u64}

-- uint64 fields
pub record SliceRequest : Type 0 where
  pub slice_partition : ℕ
  pub data_start : ℕ
  pub data_len : ℕ

pub record Response : Type 0 where
  pub status : ℕ
  pub slice_data : List Bytes

abbrev pub minus_one : ℕ
minus_one = 2 ^ 32 - 1

pub record InternalRequest : Type 0 where
  pub model_name : Bytes
  pub slice_request : List SliceRequest

-- uint64 fields, and an int
pub record SliceData : Type 0 where
  pub slice_partition : ℕ
  pub start : ℕ
  pub len : ℕ
  pub pos : ℕ

-- The constructor, whose arguments are ints.
unfoldable pub slice_data : (i s l p : ℕ) → SliceData
slice_data i s l p = record {
  slice_partition = to_u64 i;
  start = to_u64 s;
  len = to_u64 l;
  pos = p;
}

pub record RequestTask : Type 0 where
  pub num : ℕ
  pub model_name : Bytes
  pub req_slice_list : List SliceData

abbrev pub empty_task : RequestTask
empty_task = record { num = 0; model_name = []; req_slice_list = [] }

-- Copies and moves of a task keep its value; a move leaves a source that nothing reads.
pub record RequestResult : Type 0 where
  pub req_no : ℕ
  pub req_num : ℕ
  pub finish_num : ℕ
  pub faild : Bool
  pub finish : Bool
  pub size : ℕ
  pub bytes : Bytes

-- The constructor, with the block that the caller then stores in `data` (`bytes` here).
unfoldable pub request_result : (i req s : ℕ) → Bytes → RequestResult
request_result i req s block = record {
  req_no = i;
  req_num = req;
  finish_num = 0;
  faild = false;
  finish = false;
  size = s;
  bytes = block;
}

-- `SliceData rd{...}` from a request at position `size`: each uint64_t is cut to an int.
unfoldable pub locate : SliceRequest → ℕ → SliceData
unfolding slice_data
locate sr size =
    slice_data (to_int sr.slice_partition) (to_int sr.data_start) (to_int sr.data_len) size

-- `size += sr.data_len()`
unfoldable pub add_size : ℕ → ℕ → ℕ
add_size size len = to_int ((to_u64 size + len) % 2 ^ 64)

-- The part under `result->mu` after a task's copies.
unfoldable pub count_finished : ℕ → RequestResult → RequestResult
count_finished num r =
    let n = r.finish_num + num in
    record r { finish_num = n; finish = if leb r.req_num n then true else r.finish }

-- `while(1) { ... cv.wait ... }`: `none` while neither flag is set.
unfoldable pub wait : RequestResult → Option RequestResult
wait r = if r.finish || r.faild then some r else none
