-- ===== src/Manager/Load/Served.antt =====
-- code/src/model_manger.cpp, code/src/model_hander.cpp: what a new handler can read.
use prob_alimama_2023_a.Base.{
  ℕ, zero, suc, ◌+◌, ◌*◌, ◌^◌, ◌-◌, ◌<◌, ◌≡◌, false, leb, sym, subst, ap, ◌∙◌, true, Option, some,
  List, [], ◌∷◌, get_elem?, length, arith, Bytes,
}
use prob_alimama_2023_a.Model.{SliceMeta, ModelMeta}
use prob_alimama_2023_a.Hdfs.{HdfsApi, ReadLaws, Readable, done}
use prob_alimama_2023_a.Hdfs.Local.{Disk, with_directory}
use prob_alimama_2023_a.Handler.{SliceReader, reader_at, load_all}
use prob_alimama_2023_a.Shard.{slice_num_per_node, shard_range, InShard}
use prob_alimama_2023_a.Options.{Options}
use prob_alimama_2023_a.Manager.Load.{
  ModelHander, load_shard, new_hander, hander_of, load_new_model,
}
use prob_alimama_2023_a.Manager.Load.Copied.{AllLoadable, Copied, load_shard_new-Copied}
use prob_alimama_2023_a.Manager.Load.Opened.{Distinct, load_slices-reader}

same_slice : {a b : SliceMeta} → some a ≡ some b → a ≡ b
same_slice e = cc e

get_elem?-lt :
    (xs : List SliceMeta) (k : ℕ) (a : SliceMeta) → get_elem? xs k ≡ some a → k < length xs
get_elem?-lt [] k a e = cc e
get_elem?-lt (x ∷ xs) zero a e = omega arith
get_elem?-lt (x ∷ xs) (suc k) a e = omega (arith, get_elem?-lt xs k a e)

-- Each slice has its place as its number.
abbrev pub Numbered : List SliceMeta → Type 0
Numbered slices = (k : ℕ) (slice : SliceMeta) → get_elem? slices k ≡ some slice → slice.slice_no ≡ k

module _ (api : HdfsApi) (laws : ReadLaws api) (sane : Readable api) (reader : SliceReader)
    (fuel : ℕ) where
  open reader use {fresh, load}

  slice_number :
      (dir : Bytes) (count start : ℕ) (disk : Disk) (slices : List SliceMeta)
      → AllLoadable api laws sane fuel dir count start disk slices
      → Numbered slices
      → (c : Copied api laws sane fuel dir count start disk slices) → (k : ℕ) (a : SliceMeta)
      → get_elem? c.shard k ≡ some a
      → a.slice_no ≡ start + k
  slice_number dir count start disk slices all numbered c k a e =
      let lt = subst (λ n. k < n) c.long (get_elem?-lt c.shard k a e) in
      let (slice, f, _) = all.each k lt in
      ap (λ (z : SliceMeta). z.slice_no) (same_slice (sym e ∙ (c.there k slice lt f).0))
      ∙ numbered (start + k) slice f

  shard-Distinct :
      (dir : Bytes) (count start : ℕ) (disk : Disk) (slices : List SliceMeta)
      → AllLoadable api laws sane fuel dir count start disk slices
      → Numbered slices
      → (c : Copied api laws sane fuel dir count start disk slices) → Distinct reader c.shard
  shard-Distinct dir count start disk slices all numbered c j k a b x y n same = n (
      omega (
        arith,
        same,
        slice_number dir count start disk slices all numbered c j a x,
        slice_number dir count start disk slices all numbered c k b y,
      ))

  new_hander-reader_at :
      (cpu : ℕ) (name : Bytes) (files : Bytes → Option Bytes) (shard : List SliceMeta) (k n : ℕ)
      (s : SliceMeta)
      → Distinct reader shard
      → get_elem? shard k ≡ some s
      → s.slice_no ≡ n
      → reader_at reader n (new_hander reader cpu name files shard).slice_readers
        ≡ load (files s.local_slice_path) fresh
  unfolding new_hander reader_at load_all
  new_hander-reader_at cpu name files shard k n s d e same =
      subst
        (λ m.
          reader_at reader m (new_hander reader cpu name files shard).slice_readers
          ≡ load (files s.local_slice_path) fresh)
        same (load_slices-reader reader files shard [] k s d e)

  load_new_model-new_hander :
      (options : Options) (disk last : Disk) (model : ModelMeta) (per : ℕ)
      (shard marked : List SliceMeta)
      → slice_num_per_node model.slice_num options.node_num ≡ some per
      → per * options.node_id + per + per < 2 ^ 31
      → load_shard api fuel model.local_model_path
          ((shard_range model.slice_num per options.node_id).1
            - (shard_range model.slice_num per options.node_id).0)
          (shard_range model.slice_num per options.node_id).0
          disk
          model.slices
        ≡ done (some shard, last, marked)
      → load_new_model api reader fuel options disk model
        ≡ done (
          some (new_hander reader options.cpu model.model_name last.file shard),
          last,
          record model { slices = marked },
        )
  unfolding load_new_model hander_of
  load_new_model-new_hander options disk last model per shard marked p small e =
      let below : leb (2 ^ 31) (per * options.node_id + per + per) ≡ false =
        ground (arith, small) in
      cc (p, e, below)

  -- On a model whose slices are numbered by their places, whose shard of this node can be copied,
  -- and whose local folder is there or can be made, at a node that is not negative and whose sum
  -- `end + slice_num_per_node` is below 2 ^ 31: `loadNewModel` comes to the barrier with a
  -- handler, and for each slice of the shard the handler's reader has loaded exactly the content of
  -- the slice's file.
  pub load_new_model-reader :
      (options : Options) (disk ready : Disk) (model : ModelMeta) (per : ℕ)
      → slice_num_per_node model.slice_num options.node_num ≡ some per
      → per * options.node_id + per + per < 2 ^ 31
      → with_directory disk model.local_model_path ≡ some ready
      → Numbered model.slices
      → AllLoadable api laws sane fuel model.local_model_path
          ((shard_range model.slice_num per options.node_id).1
            - (shard_range model.slice_num per options.node_id).0)
          (shard_range model.slice_num per options.node_id).0
          disk
          model.slices
      → (hander : ModelHander reader) × (last : Disk) × (marked : ModelMeta) × (load_new_model api
            reader fuel options disk model
          ≡ done (some hander, last, marked))
        × ((n : ℕ) (slice : SliceMeta)
            → InShard model.slice_num per options.node_id n
            → get_elem? model.slices n ≡ some slice
            → (file : api.File) × (api.open_file slice.hdfs_slice_path ≡ some file)
              × (reader_at reader n hander.slice_readers ≡ load (some (api.contents file)) fresh))
  load_new_model-reader options disk ready model per p small d numbered all =
      let start = (shard_range model.slice_num per options.node_id).0 in
      let count = (shard_range model.slice_num per options.node_id).1 - start in
      let c =
        load_shard_new-Copied api laws sane fuel model.local_model_path count start disk ready
          model.slices d all in
      (
        new_hander reader options.cpu model.model_name c.last.file c.shard,
        c.last,
        record model { slices = c.marked },
        load_new_model-new_hander options disk c.last model per c.shard c.marked p small c.ran,
        λ n slice (above, below) e.
            let f : get_elem? model.slices (start + (n - start)) ≡ some slice =
              ap (get_elem? model.slices) (omega (arith, above)) ∙ e in
            let (marked, file, o, got) =
              c.there (n - start) slice (omega (arith, above, below)) f in
            (
              file,
              o,
              new_hander-reader_at options.cpu model.model_name c.last.file c.shard (n - start) n
                    (record slice { is_load = true })
                    (shard-Distinct model.local_model_path count start disk model.slices all
                      numbered c)
                    marked (numbered n slice e)
                  ∙ ap (λ z. load z fresh) got,
            ),
      )
