-- ===== src/Handler.antt =====
-- code/src/model_hander.cpp: the slice readers of one model, and the work of a reader thread.
-- ModelSliceReader comes with the build: it is the parameter `SliceReader`.
pub mod Copies
use prob_alimama_2023_a.Base.{
  ℕ, zero, suc, Option, none, some, ◌>>=◌, List, [], ◌∷◌, ◌==◌, if◌then◌else◌, Bytes,
}
use prob_alimama_2023_a.Base.Words.{to_int}
use prob_alimama_2023_a.Base.Buffer.{store, fetch}
use prob_alimama_2023_a.Request.{SliceData, RequestTask, RequestResult, count_finished}
use prob_alimama_2023_a.Model.{SliceMeta}

pub record SliceReader : Type 1 where
  pub Reader : Type 0
  pub fresh : Reader
  -- `Load`, with the bytes of the file at the path, if it is there
  pub load : Option Bytes → Reader → Reader
  -- `Read`: the bytes that it puts at the front of the buffer
  pub read : Reader → (start len : ℕ) → Bytes
  pub unload : Reader → Reader

module _ (api : SliceReader) where
  open api use {Reader, fresh, load, read, unload}

  abbrev pub Readers : Type 0
  Readers = List (ℕ × Reader)

  -- `slice_readers[key]`; that a missing key is inserted changes no later read.
  unfoldable pub reader_at : ℕ → Readers → Reader
  reader_at key [] = fresh
  reader_at key ((k, r) ∷ rs) = if k == key then r else reader_at key rs

  -- `emplace` of a fresh reader, and `Load` of the reader under that key.
  unfoldable pub load_at : ℕ → Option Bytes → Readers → Readers
  load_at key file [] = (key, load file fresh) ∷ []
  load_at key file ((k, r) ∷ rs) =
      if k == key then (k, load file r) ∷ rs else (k, r) ∷ load_at key file rs

  -- The loop of `init`, over the local files.
  unfoldable pub load_slices : (Bytes → Option Bytes) → List SliceMeta → Readers → Readers
  load_slices files [] rs = rs
  load_slices files (slice ∷ slices) rs =
      load_slices files slices (load_at slice.slice_no (files slice.local_slice_path) rs)

  -- `LoadAll`: the first `num` slices, loaded once more.
  unfoldable pub load_all : (Bytes → Option Bytes) → ℕ → List SliceMeta → Readers → Readers
  load_all files zero slices rs = rs
  load_all files (suc num) [] rs = rs
  load_all files (suc num) (slice ∷ slices) rs =
      load_all files num slices (load_at slice.slice_no (files slice.local_slice_path) rs)

  unfoldable pub unload_all : Readers → Readers
  unload_all [] = []
  unload_all ((k, r) ∷ rs) = (k, unload r) ∷ unload_all rs

  -- One round of the loop of `processTask`: `Read` into `buf`, then the copy out of it. The result
  -- of `Read` is not looked at.
  unfoldable pub read_slice : Readers → Bytes → SliceData → Option (Bytes × Bytes)
  read_slice rs buf sd = do
    buf' ← store buf 0 (read (reader_at (to_int sd.slice_partition) rs) sd.start sd.len)
    src ← fetch buf' 0 sd.len
    some (buf', src)

  unfoldable pub process_slices : Readers → ℕ → List SliceData → (buf dst : Bytes) → Option Bytes
  process_slices rs zero sds buf dst = some dst
  process_slices rs (suc num) [] buf dst = none
  process_slices rs (suc num) (sd ∷ sds) buf dst = do
    (buf', src) ← read_slice rs buf sd
    dst' ← store dst sd.pos src
    process_slices rs num sds buf' dst'

  -- `buf` is what `char buf[128]` holds on entry.
  unfoldable pub process_task :
      Readers → (buf : Bytes) → RequestTask → RequestResult → Option RequestResult
  unfolding count_finished
  process_task rs buf task result = do
    dst ← process_slices rs task.num task.req_slice_list buf result.bytes
    some (count_finished task.num (record result { bytes = dst }))
