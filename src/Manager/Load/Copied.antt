-- ===== src/Manager/Load/Copied.antt =====
-- code/src/model_manger.cpp: the loop of `loadNewModel` on slices that can be copied, and the
-- handler that it makes.
use prob_alimama_2023_a.Base.{
  ℕ, zero, suc, ◌+◌, ◌<◌, ◌≡◌, ◌≢◌, refl, sym, subst, ap, ◌∙◌, true, false, Option, some, List, [],
  ◌∷◌, get_elem?, set, get_elem?-set_ne, length, arith, Bytes,
}
use prob_alimama_2023_a.Model.{SliceMeta}
use prob_alimama_2023_a.Hdfs.{HdfsApi, ReadLaws, Readable, done}
use prob_alimama_2023_a.Hdfs.Local.{Disk, with_directory, load_slice_to_local, write_file}
use prob_alimama_2023_a.Hdfs.Local.Copies.{
  load_slice_to_local-loads, load_slice_to_local-with_directory, with_directory-has_directory,
  with_directory-can_write, with_directory-file, write_file-file_self, write_file-file_ne,
}
use prob_alimama_2023_a.Manager.Load.{onto, load_shard}

same_slice : {a b : SliceMeta} → some a ≡ some b → a ≡ b
same_slice e = cc e

module _ (api : HdfsApi) (laws : ReadLaws api) (sane : Readable api) (fuel : ℕ) (dir : Bytes) where
  -- A slice whose file can be read, and written on the disk.
  pub record Loadable (disk : Disk) (slice : SliceMeta) : Type 0 where
    pub fresh : slice.is_load ≡ false
    pub content : Bytes
    pub source :
        (file : api.File) × (api.open_file slice.hdfs_slice_path ≡ some file)
        × (api.contents file ≡ content)
        × (length content < fuel)
    pub writable : disk.can_write slice.local_slice_path ≡ true

  -- The slices start, .., start + count - 1 are there, can be loaded, and have paths of their own.
  pub record AllLoadable (count start : ℕ) (disk : Disk) (slices : List SliceMeta) : Type 0 where
    pub each :
        (k : ℕ)
        → k < count
        → (slice : SliceMeta) × (get_elem? slices (start + k) ≡ some slice) × Loadable disk slice
    pub apart :
        (j k : ℕ) (a b : SliceMeta)
        → j < count
        → k < count
        → j ≢ k
        → get_elem? slices (start + j) ≡ some a
        → get_elem? slices (start + k) ≡ some b
        → a.local_slice_path ≢ b.local_slice_path

  -- The slices are on the disk, marked as loaded.
  pub record Copied (count start : ℕ) (disk : Disk) (slices : List SliceMeta) : Type 0 where
    pub shard : List SliceMeta
    pub last : Disk
    pub marked : List SliceMeta
    pub ran : load_shard api fuel dir count start disk slices ≡ done (some shard, last, marked)
    pub there :
        (k : ℕ) (slice : SliceMeta)
        → k < count
        → get_elem? slices (start + k) ≡ some slice
        → (get_elem? shard k ≡ some (record slice { is_load = true }))
          × (file : api.File) × (api.open_file slice.hdfs_slice_path ≡ some file)
          × (last.file slice.local_slice_path ≡ some (api.contents file))
    pub others :
        (p : Bytes)
        → ((k : ℕ) (slice : SliceMeta)
            → k < count
            → get_elem? slices (start + k) ≡ some slice
            → p ≢ slice.local_slice_path)
        → last.file p ≡ disk.file p
    pub long : length shard ≡ count

  load_shard-suc :
      (count start : ℕ) (disk next : Disk) (slices : List SliceMeta) (slice loaded : SliceMeta)
      → get_elem? slices start ≡ some slice
      → load_slice_to_local api fuel dir disk slice ≡ done (true, next, loaded)
      → load_shard api fuel dir (suc count) start disk slices
        ≡ onto loaded (load_shard api fuel dir count (suc start) next (set slices start loaded))
  unfolding load_shard
  load_shard-suc count start disk next slices slice loaded e l = rw (load_shard, e, l)

  shift :
      (slices : List SliceMeta) (start k : ℕ) (loaded : SliceMeta)
      → get_elem? (set slices start loaded) (suc start + k) ≡ get_elem? slices (start + suc k)
  shift slices start k loaded =
      get_elem?-set_ne slices loaded (λ e. omega (arith, e)) ∙ ap (get_elem? slices) (omega arith)

  -- The rest of the slices after the first.
  after-AllLoadable :
      (count start : ℕ) (disk : Disk) (slices : List SliceMeta) (path content : Bytes)
      (loaded : SliceMeta)
      → AllLoadable (suc count) start disk slices
      → AllLoadable count
          (suc start)
          (write_file disk path (some content))
          (set slices start loaded)
  unfolding write_file
  after-AllLoadable count start disk slices path content loaded all = record {
    each = λ k lt.
        let (slice, e, l) = all.each (suc k) (omega (arith, lt)) in
        (
          slice,
          shift slices start k loaded ∙ e,
          record { fresh = l.fresh; content = l.content; source = l.source; writable = l.writable },
        );
    apart = λ j k a b jl kl n x y.
        all.apart (suc j) (suc k) a b (omega (arith, jl)) (omega (arith, kl))
          (λ q. n (omega (arith, q))) (sym (shift slices start j loaded) ∙ x)
          (sym (shift slices start k loaded) ∙ y);
  }

  write_file-has_directory :
      (disk : Disk) (path : Bytes) (content : Option Bytes)
      → disk.has_directory dir ≡ true
      → (write_file disk path content).has_directory dir ≡ true
  unfolding write_file
  write_file-has_directory disk path content h = h

  load_shard-zero :
      (start : ℕ) (disk : Disk) (slices : List SliceMeta)
      → load_shard api fuel dir zero start disk slices ≡ done (some [], disk, slices)
  unfolding load_shard
  load_shard-zero start disk slices = refl

  Copied-there :
      (count start : ℕ) (disk : Disk) (slices : List SliceMeta) (first : SliceMeta)
      (file : api.File) (content : Bytes)
      → AllLoadable (suc count) start disk slices
      → get_elem? slices (start + 0) ≡ some first
      → api.open_file first.hdfs_slice_path ≡ some file
      → (k : ℕ) (slice : SliceMeta) → k < suc count
      → get_elem? slices (start + k) ≡ some slice
      → (rest : Copied count
          (suc start)
          (write_file disk first.local_slice_path (some (api.contents file)))
          (set slices start (record first { is_load = true })))
      → (get_elem? (record first { is_load = true } ∷ rest.shard) k
          ≡ some (record slice { is_load = true }))
        × (got : api.File) × (api.open_file slice.hdfs_slice_path ≡ some got)
        × (rest.last.file slice.local_slice_path ≡ some (api.contents got))
  Copied-there count start disk slices first file content all e o zero slice lt f rest =
      let same = same_slice (sym e ∙ f) in
      (
        ap (λ (z : SliceMeta). some (record z { is_load = true })) same,
        file,
        ap (λ (z : SliceMeta). api.open_file z.hdfs_slice_path) (sym same) ∙ o,
        ap (λ (z : SliceMeta). rest.last.file z.local_slice_path) (sym same)
            ∙ rest.others first.local_slice_path (λ k other less g.
              all.apart 0 (suc k) first other (omega arith) (omega (arith, less))
                (λ q. omega (arith, q)) e
                (sym (shift slices start k (record first { is_load = true })) ∙ g))
            ∙ write_file-file_self disk first.local_slice_path (some (api.contents file)),
      )
  Copied-there count start disk slices first file content all e o (suc k) slice lt f rest =
      rest.there k slice (omega (arith, lt))
        (shift slices start k (record first { is_load = true }) ∙ f)

  load_shard-zero-Copied :
      (start : ℕ) (disk : Disk) (slices : List SliceMeta) → Copied zero start disk slices
  load_shard-zero-Copied start disk slices = record {
    shard = [];
    last = disk;
    marked = slices;
    ran = load_shard-zero start disk slices;
    there = λ k slice lt e. absurd (omega (arith, lt));
    others = λ p h. refl;
    long = refl;
  }

  -- The loop over such slices ends, with the slices on the disk and marked.
  pub load_shard-Copied :
      (count start : ℕ) (disk : Disk) (slices : List SliceMeta)
      → disk.has_directory dir ≡ true
      → AllLoadable count start disk slices
      → Copied count start disk slices
  load_shard-Copied zero start disk slices d all = load_shard-zero-Copied start disk slices
  load_shard-Copied (suc count) start disk slices d all =
      let (slice, e, l) = all.each 0 (omega arith) in
      let (file, o, c, enough) = l.source in
      let path = slice.local_slice_path in
      let content = api.contents file in
      let loaded : SliceMeta = record slice { is_load = true } in
      let next = write_file disk path (some content) in
      let rest =
        load_shard-Copied count (suc start) next (set slices start loaded)
          (write_file-has_directory disk path (some content) d)
          (after-AllLoadable count start disk slices path content loaded all) in
      record {
        shard = loaded ∷ rest.shard;
        last = rest.last;
        marked = rest.marked;
        ran =
            load_shard-suc count start disk next slices slice loaded
              (ap (get_elem? slices) (omega arith) ∙ e)
              (load_slice_to_local-loads api laws sane fuel dir disk slice file d l.fresh o
                l.writable (subst (λ z. length z < fuel) (sym c) enough))
            ∙ ap (onto loaded) rest.ran;
        there = λ k other lt f.
            Copied-there count start disk slices slice file l.content all e o k other lt f rest;
        others = λ p h.
            rest.others p (λ k other lt f.
              h (suc k) other (omega (arith, lt)) (sym (shift slices start k loaded) ∙ f))
            ∙ write_file-file_ne disk path p (some content) (h 0 slice (omega arith) e);
        long = ap suc rest.long;
      }

  load_shard-ready :
      (count start : ℕ) (disk ready : Disk) (slices : List SliceMeta) (slice : SliceMeta)
      → with_directory disk dir ≡ some ready
      → get_elem? slices start ≡ some slice
      → load_shard api fuel dir (suc count) start disk slices
        ≡ load_shard api fuel dir (suc count) start ready slices
  unfolding load_shard
  load_shard-ready count start disk ready slices slice d e =
      rw (
        load_shard,
        e,
        load_slice_to_local-with_directory api laws sane fuel dir disk ready slice d,
      )

  ready-AllLoadable :
      (count start : ℕ) (disk ready : Disk) (slices : List SliceMeta)
      → with_directory disk dir ≡ some ready
      → AllLoadable count start disk slices
      → AllLoadable count start ready slices
  ready-AllLoadable count start disk ready slices d all = record {
    each = λ k lt.
        let (slice, e, l) = all.each k lt in
        (
          slice,
          e,
          record {
            fresh = l.fresh;
            content = l.content;
            source = l.source;
            writable =
                with_directory-can_write disk ready dir d slice.local_slice_path ∙ l.writable;
          },
        );
    apart = all.apart;
  }

  -- The same where the loop makes the folder first.
  pub load_shard_new-Copied :
      (count start : ℕ) (disk ready : Disk) (slices : List SliceMeta)
      → with_directory disk dir ≡ some ready
      → AllLoadable count start disk slices
      → Copied count start disk slices
  load_shard_new-Copied zero start disk ready slices d all =
      load_shard-zero-Copied start disk slices
  load_shard_new-Copied (suc count) start disk ready slices d all =
      let (slice, e, l) = all.each 0 (omega arith) in
      let c =
        load_shard-Copied (suc count) start ready slices
          (with_directory-has_directory disk ready dir d)
          (ready-AllLoadable (suc count) start disk ready slices d all) in
      record {
        shard = c.shard;
        last = c.last;
        marked = c.marked;
        ran =
            load_shard-ready count start disk ready slices slice d
              (ap (get_elem? slices) (omega arith) ∙ e)
            ∙ c.ran;
        there = c.there;
        others = λ p h. c.others p h ∙ with_directory-file disk ready dir d p;
        long = c.long;
      }
