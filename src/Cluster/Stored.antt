-- ===== src/Cluster/Stored.antt =====
-- The answer of `Get` and the model in HDFS: from the load of the shards to the response.
use prob_alimama_2023_a.Base.{
  ℕ, ◌+◌, ◌/◌, ◌-◌, ◌%◌, ◌^◌, ◌≤◌, ◌<◌, ◌≡◌, ap, ◌∙◌, ◌⊎◌, true, false, some, List, [], map,
  get_elem?, drop, length, length-take, length-drop, arith, All, All-map, Bytes, ltb, leb, ◌&&◌,
  if◌then◌else◌,
}
use prob_alimama_2023_a.Model.{SliceMeta, ModelMeta}
use prob_alimama_2023_a.Request.{SliceRequest, RequestResult, minus_one, wait}
use prob_alimama_2023_a.Request.Located.{Good, total_len}
use prob_alimama_2023_a.Hdfs.{HdfsApi, ReadLaws, Readable}
use prob_alimama_2023_a.Hdfs.Local.{Disk, with_directory}
use prob_alimama_2023_a.Handler.{SliceReader, reader_at}
use prob_alimama_2023_a.Options.{Options}
use prob_alimama_2023_a.Shard.{slice_num_per_node, shard_range, get_node_for_slice, InShard}
use prob_alimama_2023_a.Shard.Routing.{node-InShard, share_fits}
use prob_alimama_2023_a.Manager.Load.Copied.{AllLoadable}
use prob_alimama_2023_a.Manager.Load.Served.{Numbered, load_new_model-reader}
use prob_alimama_2023_a.Internal.{respond}
use prob_alimama_2023_a.Internal.Answer.{serve}
use prob_alimama_2023_a.Allocator.{k_block_size}
use prob_alimama_2023_a.Service.{Flight, start_get, Reach, here}
use prob_alimama_2023_a.Service.Plan.{Servable}
use prob_alimama_2023_a.Service.Progress.{start_get-calm, start_get_total, get_returns}
use prob_alimama_2023_a.Service.Answer.{get-answer}
use prob_alimama_2023_a.Cluster.{slice_content, stored, ReadsFile, readers_of, nodes_of}

get_node_for_slice-some :
    (per node_num s : ℕ) → 0 < per → (k : ℕ) × (get_node_for_slice per node_num s ≡ some k)
unfolding get_node_for_slice
get_node_for_slice-some per node_num s h =
    let node = s % 2 ^ 32 / per in
    (if ltb node (2 ^ 31) && leb node_num node then node_num - 1 else node, ground (arith, h))

module _ (api : HdfsApi) (laws : ReadLaws api) (sane : Readable api) (reader : SliceReader)
    (reads : ReadsFile reader) (fuel : ℕ) (options : Options) (disks readys : ℕ → Disk)
    (model : ModelMeta) (per : ℕ) where
  -- A model that each node can load, with a split that leaves no slice out and whose sums an `int`
  -- can hold.
  pub record Deployed : Type 0 where
    pub split : slice_num_per_node model.slice_num options.node_num ≡ some per
    pub small : model.slice_num + per < 2 ^ 31
    pub even : model.slice_num % options.node_num < per
    pub numbered : Numbered model.slices
    pub each_slice :
        (n : ℕ)
        → n < model.slice_num
        → (slice : SliceMeta) × (get_elem? model.slices n ≡ some slice)
    pub folder :
        (k : ℕ)
        → k < options.node_num
        → with_directory (disks k) model.local_model_path ≡ some (readys k)
    pub loadable :
        (k : ℕ)
        → k < options.node_num
        → AllLoadable api laws sane fuel model.local_model_path
            ((shard_range model.slice_num per k).1 - (shard_range model.slice_num per k).0)
            (shard_range model.slice_num per k).0
            (disks k)
            model.slices

  -- A piece of a slice that the model has, and that the code has room for.
  pub record Piece (sr : SliceRequest) : Type 0 where
    pub has : sr.slice_partition < model.slice_num
    pub start_fits : sr.data_start < 2 ^ 31
    pub short : sr.data_len ≤ 128
    pub inside :
        sr.data_start + sr.data_len ≤ length (slice_content api model.slices sr.slice_partition)

  slice_content-file :
      (n : ℕ) (slice : SliceMeta) (file : api.File)
      → get_elem? model.slices n ≡ some slice
      → api.open_file slice.hdfs_slice_path ≡ some file
      → slice_content api model.slices n ≡ api.contents file
  unfolding slice_content
  slice_content-file n slice file e o = rw (slice_content, e, o)

  Piece-Good : Deployed → (sr : SliceRequest) → Piece sr → Good (stored api model.slices) sr
  unfolding stored
  Piece-Good d sr p = record {
    partition_fits = omega (arith, p.has, d.small);
    start_fits = p.start_fits;
    short = p.short;
    long = omega (
      arith,
      length-take sr.data_len
          (drop sr.data_start (slice_content api model.slices sr.slice_partition)),
      length-drop sr.data_start (slice_content api model.slices sr.slice_partition),
      p.inside,
    );
  }

  -- The reader of a slice, on a node that has the slice in its shard.
  reader_at-nodes_of :
      Deployed
      → (k : ℕ) → k < options.node_num
      → (n : ℕ) → InShard model.slice_num per k n
      → n < model.slice_num
      → reader_at reader n (nodes_of api reader fuel options disks model k)
        ≡ reader.load (some (slice_content api model.slices n)) reader.fresh
  unfolding nodes_of readers_of
  reader_at-nodes_of d k lt n inside below =
      let (hander, last, marked, ran, each) =
        load_new_model-reader api laws sane reader fuel (record options { node_id = k }) (disks k)
          (readys k) model per d.split
          (share_fits model.slice_num options.node_num k d.split d.small lt) (d.folder k lt)
          d.numbered (d.loadable k lt) in
      let (slice, e) = d.each_slice n below in
      let (file, o, got) = each n slice inside e in
      rw (ran, slice_content-file n slice file e o) got

  found_node :
      Deployed
      → (sr : SliceRequest) → Piece sr
      → (k : ℕ) × (get_node_for_slice per options.node_num sr.slice_partition ≡ some k)
        × (k < options.node_num)
        × (serve reader (nodes_of api reader fuel options disks model k) sr
            ≡ stored api model.slices sr)
  unfolding stored
  found_node d sr p =
      let (k, e) =
        get_node_for_slice-some per options.node_num sr.slice_partition (omega (arith, d.even)) in
      let (lt, inside) =
        node-InShard model.slice_num options.node_num per sr.slice_partition d.split
          (omega (arith, d.small)) d.even p.has e in
      (
        k,
        e,
        lt,
        ap (λ r. reader.read r sr.data_start sr.data_len)
              (reader_at-nodes_of d k lt sr.slice_partition inside p.has)
            ∙ reads.read-load (slice_content api model.slices sr.slice_partition) sr.data_start
                sr.data_len p.inside,
      )

  nodes_of-Servable :
      Deployed
      → (node_id : ℕ) (srs : List SliceRequest) → All Piece srs
      → total_len srs ≤ k_block_size
      → Servable reader node_id options.node_num
          (nodes_of api reader fuel options disks model)
          (stored api model.slices)
          (get_node_for_slice per options.node_num)
          srs
  nodes_of-Servable d node_id srs pieces fits = record {
    good = All-map (Piece-Good d) srs pieces;
    fits = fits;
    had = All-map (found_node d) srs pieces;
  }

  -- On a cluster whose nodes can each load their shard of a model, which has its slices numbered by
  -- their places, by a split that leaves no slice out, with the slices and one share more below 2 ^
  -- 31, any node, with what `loadNewModel` made there, answers a request for pieces of the slices,
  -- each of at most 128 bytes that the slice has, from a start below 2 ^ 31 on, and together at
  -- most one block of 65,536 bytes, with what HDFS holds: whatever the order in which the tasks end
  -- and whichever calls to other nodes fail, when the wait of `Get` ends the response has status 0
  -- and the bytes of every piece in the order of the request, or the result was marked as failed
  -- and the response has status -1 and no data.
  pub get-stored :
      {f g : Flight} {done : RequestResult}
      → Deployed
      → (node_id : ℕ) (srs : List SliceRequest) (name block : Bytes) (req_no : ℕ)
      → node_id < options.node_num
      → All Piece srs
      → total_len srs ≤ k_block_size
      → length block ≡ k_block_size
      → start_get
          (get_node_for_slice per options.node_num)
          node_id
          options.node_num
          name
          block
          req_no
          srs
        ≡ some f
      → Reach reader node_id options.node_num (nodes_of api reader fuel options disks model) f g
      → wait g.result ≡ some done
      → (done.faild ≡ false)
          × (respond srs done
              ≡ some (record { status = 0; slice_data = map (stored api model.slices) srs }))
        ⊎ (done.faild ≡ true)
          × (respond srs done ≡ some (record { status = minus_one; slice_data = [] }))
  get-stored d node_id srs name block req_no me pieces fits long e r w =
      get-answer reader node_id options.node_num (nodes_of api reader fuel options disks model)
        (stored api model.slices) (get_node_for_slice per options.node_num) srs
        (nodes_of-Servable d node_id srs pieces fits) name block req_no me long e r w

  pub get_stored_returns :
      Deployed
      → (node_id : ℕ) (srs : List SliceRequest) (name block : Bytes) (req_no : ℕ)
      → node_id < options.node_num
      → All Piece srs
      → total_len srs ≤ k_block_size
      → length block ≡ k_block_size
      → (f h : Flight) × (start_get
            (get_node_for_slice per options.node_num)
            node_id
            options.node_num
            name
            block
            req_no
            srs
          ≡ some f)
        × Reach reader node_id options.node_num (nodes_of api reader fuel options disks model) f h
        × (wait h.result ≡ some h.result)
        × (respond srs h.result
            ≡ some (record { status = 0; slice_data = map (stored api model.slices) srs }))
  get_stored_returns d node_id srs name block req_no me pieces fits long =
      let nodes = nodes_of api reader fuel options disks model in
      let node_of = get_node_for_slice per options.node_num in
      let able = nodes_of-Servable d node_id srs pieces fits in
      let (f, e) =
        start_get_total reader node_id options.node_num nodes (stored api model.slices) node_of srs
          able name block req_no me long in
      let (h, r, w, a) =
        get_returns reader node_id options.node_num nodes (stored api model.slices) node_of srs able
          name block req_no me long e here
          (start_get-calm node_of node_id options.node_num name block req_no srs e) in
      (f, h, e, r, w, a)
