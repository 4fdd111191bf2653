-- ===== src/Handler/Copies.antt =====
-- What `process_task` does to the block, when the readers serve the slices of the task.
use prob_alimama_2023_a.Base.{
  ℕ, ◌+◌, ◌≤◌, ◌≡◌, refl, ◌∙◌, ap, some, [], ◌∷◌, List, arith, length, take, Bytes, All,
}
use prob_alimama_2023_a.Base.Words.{to_int}
use prob_alimama_2023_a.Base.Buffer.{
  overlay, store_front, fetch_front, length-overlay, take-overlay,
}
use prob_alimama_2023_a.Request.{SliceData, RequestTask, RequestResult, count_finished}
use prob_alimama_2023_a.Request.Copies.{
  Right, Follows, Source, Follows-refl, Follows-trans, Right-Follows, store-Source,
}
use prob_alimama_2023_a.Handler.{
  SliceReader, Readers, reader_at, read_slice, process_slices, process_task,
}

module _ (api : SliceReader) where
  open api use {Reader, read}

  abbrev pub bytes_of : Readers api → SliceData → Bytes
  bytes_of rs sd = read (reader_at api (to_int sd.slice_partition) rs) sd.start sd.len

  -- What a slice needs: the reader gives its bytes, they fit the buffer of 128 bytes, and its part
  -- lies within a block of n bytes.
  pub record Served (rs : Readers api) (goal : Bytes) (n : ℕ) (sd : SliceData) : Type 0 where
    pub source : Source goal sd (bytes_of rs sd)
    pub short : sd.len ≤ 128
    pub inside : sd.pos + sd.len ≤ n

  read_slice-Served :
      {rs : Readers api} {goal : Bytes} {n : ℕ} {sd : SliceData} (buf : Bytes)
      → length buf ≡ 128
      → Served rs goal n sd
      → (buf' : Bytes) × (read_slice api rs buf sd ≡ some (buf', bytes_of rs sd))
        × (length buf' ≡ 128)
  unfolding read_slice
  read_slice-Served {rs} {goal} {n} {sd} buf full s =
      let src = bytes_of rs sd in
      let fits : length src ≤ length buf = omega (arith, s.source.long, s.short, full) in
      let room : sd.len ≤ length (overlay src buf) =
        omega (arith, length-overlay src buf, s.short, full) in
      (
        overlay src buf,
        ground (
          arith,
          store_front buf src fits,
          fetch_front (overlay src buf) sd.len room,
          ap (λ (k : ℕ). take k (overlay src buf)) s.source.long,
          take-overlay src buf fits,
        ),
        length-overlay src buf ∙ full,
      )

  -- The whole loop succeeds, spoils nothing, and makes every part of the task right.
  pub process_slices-Served :
      (rs : Readers api) {goal : Bytes} {n : ℕ} (sds : List SliceData) (buf dst : Bytes)
      → length buf ≡ 128
      → length dst ≡ n
      → All (Served rs goal n) sds
      → (dst' : Bytes) × (process_slices api rs (length sds) sds buf dst ≡ some dst')
        × Follows goal dst dst'
        × All (Right goal dst') sds
  unfolding process_slices
  process_slices-Served rs {goal} [] buf dst full long h = (dst, refl, Follows-refl goal dst, tt)
  process_slices-Served rs {goal} {n} (sd ∷ sds) buf dst full long (s, h) =
      let (buf', read, full') = read_slice-Served buf full s in
      let (mid, stored, f, r) = store-Source sd (omega (arith, s.inside)) s.source in
      let (dst', rest, g, rs') =
        process_slices-Served rs sds buf' mid full' (f.same_length ∙ long) h in
      (
        dst',
        ground (arith, read, stored, rest),
        Follows-trans f g,
        (Right-Follows goal mid dst' sd g r, rs'),
      )

  -- The same of a whole task, whose count is that of its slices.
  pub process_task-Served :
      (rs : Readers api) {goal : Bytes} {n : ℕ} (task : RequestTask) (result : RequestResult)
      (buf : Bytes)
      → length buf ≡ 128
      → length result.bytes ≡ n
      → task.num ≡ length task.req_slice_list
      → All (Served rs goal n) task.req_slice_list
      → (dst' : Bytes) × (process_task api rs buf task result
          ≡ some (count_finished task.num (record result { bytes = dst' })))
        × Follows goal result.bytes dst'
        × All (Right goal dst') task.req_slice_list
  unfolding process_task
  process_task-Served rs task result buf full long counted h =
      let (dst', ran, f, r) =
        process_slices-Served rs task.req_slice_list buf result.bytes full long h in
      (dst', rw (counted, ran), f, r)
