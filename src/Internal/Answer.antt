-- ===== src/Internal/Answer.antt =====
-- code/src/model_internal_server.cpp: the answer to a request of another node.
use prob_alimama_2023_a.Base.{
  ℕ, suc, ◌+◌, ◌%◌, ◌^◌, ◌≤◌, ◌<◌, ◌≡◌, refl, sym, subst, ◌∙◌, ap, ap₂, some, [], ◌∷◌, List, map,
  arith, length, take, drop, Bytes, All,
}
use prob_alimama_2023_a.Base.Words.{to_int, to_u64, to_u64-to_int, to_int-eq}
use prob_alimama_2023_a.Base.Buffer.{fetch, take-ext, take_all, get_elem?-drop}
use prob_alimama_2023_a.Request.{
  SliceRequest, SliceData, InternalRequest, locate, add_size, count_finished, request_result, wait,
}
use prob_alimama_2023_a.Request.Copies.{Right, Source, fetch-Right}
use prob_alimama_2023_a.Request.Located.{
  AllLocated, total_len, join, Good, Placed, add_size_lem, All-Placed,
}
use prob_alimama_2023_a.Handler.{SliceReader, Readers, reader_at}
use prob_alimama_2023_a.Handler.Copies.{bytes_of, Served, process_task-Served}
use prob_alimama_2023_a.Internal.{gather, assemble, respond, whole_task, internal_get}

pub length-gather : (srs : List SliceRequest) (size : ℕ) → length (gather srs size).0 ≡ length srs
unfolding gather
length-gather [] size = refl
length-gather (sr ∷ srs) size = ap suc (length-gather srs (add_size size sr.data_len))

gather-All {ℓ} :
    (Q : SliceData → Type ℓ) (srs : List SliceRequest) (size : ℕ)
    → AllLocated (λ sr sd. Q sd) size srs
    → All Q (gather srs size).0
unfolding gather
gather-All Q [] size h = tt
gather-All Q (sr ∷ srs) size h = (h.0, gather-All Q srs (add_size size sr.data_len) h.1)

All-gather {ℓ} :
    (Q : SliceData → Type ℓ) (srs : List SliceRequest) (size : ℕ)
    → All Q (gather srs size).0
    → AllLocated (λ sr sd. Q sd) size srs
unfolding gather
All-gather Q [] size h = tt
All-gather Q (sr ∷ srs) size h = (h.0, All-gather Q srs (add_size size sr.data_len) h.1)

take-Source :
    (goal src : Bytes) (sd : SliceData) → Source goal sd src → take sd.len (drop sd.pos goal) ≡ src
take-Source goal src sd s =
    take-ext sd.len (drop sd.pos goal) src
      (λ i lt. get_elem?-drop sd.pos goal i ∙ sym (s.same i lt))
    ∙ ap (λ (k : ℕ). take k src) (sym s.long)
    ∙ take_all src

pos-locate : (sr : SliceRequest) (size : ℕ) → (locate sr size).pos ≡ size
unfolding locate
pos-locate sr size = refl

next_pos : (pos len : ℕ) → pos + len < 2 ^ 31 → (pos + to_int len) % 2 ^ 32 ≡ add_size pos len
next_pos pos len h = omega (arith, add_size_lem pos len h)

-- One piece of the answer.
fetch-Placed :
    (want : SliceRequest → Bytes) (goal dst : Bytes) (n size : ℕ) (sr : SliceRequest)
    → n < 2 ^ 31
    → length dst ≡ n
    → Placed want goal n sr (locate sr size)
    → Right goal dst (locate sr size)
    → fetch dst (to_u64 size) (to_u64 (to_int sr.data_len)) ≡ some (want sr)
fetch-Placed want goal dst n size sr small long p r =
    ap₂ (fetch dst) pos_eq len_eq
    ∙ fetch-Right goal dst (locate sr size) (omega (arith, p.inside)) r
    ∙ ap some (take-Source goal (want sr) (locate sr size) p.source)
  where
    pos_eq : to_u64 size ≡ (locate sr size).pos
    pos_eq = ground (arith, pos-locate sr size, p.inside)

    len_eq : to_u64 (to_int sr.data_len) ≡ (locate sr size).len
    len_eq = to_u64-to_int sr.data_len (omega (arith, p.same_len, p.short)) ∙ sym p.same_len

-- With every part right, the pieces are the wanted bytes.
pub assemble-Right :
    (want : SliceRequest → Bytes) (goal dst : Bytes) (n size : ℕ) (srs : List SliceRequest)
    → n < 2 ^ 31
    → length dst ≡ n
    → AllLocated (Placed want goal n) size srs
    → AllLocated (λ sr sd. Right goal dst sd) size srs
    → assemble dst size srs ≡ some (map want srs)
unfolding assemble
assemble-Right want goal dst n size [] small long p r = refl
assemble-Right want goal dst n size (sr ∷ srs) small long (p, ps) (r, rs) =
    let piece = fetch-Placed want goal dst n size sr small long p r in
    let step =
      next_pos size sr.data_len (omega (arith, p.inside, p.same_len, pos-locate sr size)) in
    rw
      (piece, step, assemble-Right want goal dst n (add_size size sr.data_len) srs small long ps rs)

module _ (api : SliceReader) where
  open api use {Reader, read}

  -- The bytes that the readers give for a slice request.
  abbrev pub serve : Readers api → SliceRequest → Bytes
  serve rs sr = read (reader_at api sr.slice_partition rs) sr.data_start sr.data_len

  pub Placed-Served :
      {want : SliceRequest → Bytes} {goal : Bytes} {n : ℕ} (rs : Readers api) (sr : SliceRequest)
      (sd : SliceData)
      → Good want sr
      → serve rs sr ≡ want sr
      → Placed want goal n sr sd
      → Served api rs goal n sd
  Placed-Served {want} {goal} {n} rs sr sd g e p = record {
    source = subst (Source goal sd) (sym same) p.source;
    short = p.short;
    inside = p.inside;
  }
    where
      key : to_int sd.slice_partition ≡ sr.slice_partition
      key =
          ap to_int p.same_partition
          ∙ to_int-eq sr.slice_partition (omega (arith, g.partition_fits))

      same : bytes_of api rs sd ≡ want sr
      same =
          ap (λ k. read (reader_at api k rs) sd.start sd.len) key
          ∙ ap₂ (read (reader_at api sr.slice_partition rs)) p.same_start p.same_len
          ∙ e

  All-Served :
      (rs : Readers api) (want : SliceRequest → Bytes) (goal : Bytes) (n size : ℕ)
      (srs : List SliceRequest)
      → All (Good want) srs
      → All (λ sr. serve rs sr ≡ want sr) srs
      → AllLocated (Placed want goal n) size srs
      → AllLocated (λ sr sd. Served api rs goal n sd) size srs
  All-Served rs want goal n size [] good same placed = tt
  All-Served rs want goal n size (sr ∷ srs) (g, good) (e, same) (p, placed) = (
    Placed-Served rs sr (locate sr size) g e p,
    All-Served rs want goal n (add_size size sr.data_len) srs good same placed,
  )

  -- An internal request for slices that the readers have, each of at most 128 bytes and with a
  -- partition and a start below 2 ^ 31, whose lengths add up to no more than the block, is answered
  -- with status 0 and exactly the bytes of each slice, in order, with no fault, once
  -- `getModelHander(name)` and `allocate` have returned.
  pub internal_get-serve :
      (rs : Readers api) (want : SliceRequest → Bytes) (block buf : Bytes) (req_no : ℕ)
      (req : InternalRequest)
      → length buf ≡ 128
      → length block < 2 ^ 31
      → total_len req.slice_request ≤ length block
      → All (Good want) req.slice_request
      → All (λ sr. serve rs sr ≡ want sr) req.slice_request
      → internal_get api rs block buf req_no req
        ≡ some (record { status = 0; slice_data = map want req.slice_request })
  unfolding internal_get whole_task respond request_result wait count_finished
  internal_get-serve rs want block buf req_no req full small fits good same =
      let srs = req.slice_request in
      let goal = join want srs in
      let n = length block in
      let placed = All-Placed want n goal [] 0 srs small refl (omega arith) (omega arith) good in
      let start = request_result req_no (length srs) (gather srs 0).1 block in
      let all =
        gather-All (Served api rs goal n) srs 0
          (All-Served rs want goal n 0 srs good same placed) in
      let (dst, ran, f, right) =
        process_task-Served api rs (whole_task srs) start buf full refl (sym (length-gather srs 0))
          all in
      let pieces =
        assemble-Right want goal dst n 0 srs small f.same_length placed
          (All-gather (Right goal dst) srs 0 right) in
      rw (ran, internal_get) (ground (arith, pieces))
