-- ===== src/Hdfs/Local/Copies.antt =====
-- code/src/hdfs_hander.cpp: what `loadSliceToLocal` and `clearLocalSlice` leave on the disk.
use prob_alimama_2023_a.Base.{
  ℕ, ◌<◌, ◌≡◌, ◌≢◌, refl, sym, ap, ◌∙◌, true, false, subst, if◌then◌else◌, Option, none, some, [],
  arith, length, Bytes, equal, equal_iff, equal_refl, Bool-cases, inl, inr,
}
use prob_alimama_2023_a.Model.{SliceMeta}
use prob_alimama_2023_a.Hdfs.{HdfsApi, ReadLaws, Readable, done, buffer_size}
use prob_alimama_2023_a.Hdfs.Reading.{read_loop-done}
use prob_alimama_2023_a.Hdfs.Local.{
  Disk, with_directory, write_file, download, load_slice_to_local, clear_local_slice,
}

pub write_file-file_self :
    (disk : Disk) (path : Bytes) (content : Option Bytes)
    → (write_file disk path content).file path ≡ content
unfolding write_file
write_file-file_self disk path content = rw (equal_refl path)

equal_ne : (p q : Bytes) → p ≢ q → equal p q ≡ false
equal_ne p q h = elim (Bool-cases (equal p q)) [
  | inl e ↦ absurd (h ((equal_iff p q).0 e))
  | inr e ↦ e
]

pub write_file-file_ne :
    (disk : Disk) (path other : Bytes) (content : Option Bytes)
    → other ≢ path
    → (write_file disk path content).file other ≡ disk.file other
unfolding write_file
write_file-file_ne disk path other content h = rw (equal_ne other path h)

pub with_directory-file :
    (disk ready : Disk) (dir : Bytes)
    → with_directory disk dir ≡ some ready
    → (p : Bytes) → ready.file p ≡ disk.file p
unfolding with_directory
with_directory-file disk ready dir h p = ground (arith, h)

clear_local_slice-file :
    (disk : Disk) (slice : SliceMeta) (bytes : Bytes)
    → slice.is_load ≡ false
    → disk.file slice.local_slice_path ≡ some bytes
    → clear_local_slice disk (record slice { is_load = true })
      ≡ (true, write_file disk slice.local_slice_path none, slice)
unfolding clear_local_slice
clear_local_slice-file disk slice bytes l e =
    rw (clear_local_slice, e)
      (ap (λ b. (true, write_file disk slice.local_slice_path none, record slice { is_load = b }))
        (sym l))

with_directory-there :
    (disk : Disk) (dir : Bytes)
    → disk.has_directory dir ≡ true
    → with_directory disk dir ≡ some disk
unfolding with_directory
with_directory-there disk dir h = rw h

same_disk : {a b : Disk} → some a ≡ some b → a ≡ b
same_disk e = cc e

abbrev made_in : Disk → Bytes → Disk
made_in disk dir = record disk {
  has_directory = λ p. if equal p dir then true else disk.has_directory p;
}

with_directory-made_in :
    (disk : Disk) (dir : Bytes)
    → disk.has_directory dir ≡ false
    → disk.can_create_directory dir ≡ true
    → with_directory disk dir ≡ some (made_in disk dir)
unfolding with_directory
with_directory-made_in disk dir e c = rw (e, c)

made_in-has_directory : (disk : Disk) (dir : Bytes) → (made_in disk dir).has_directory dir ≡ true
made_in-has_directory disk dir = rw (equal_refl dir)

pub with_directory-has_directory :
    (disk ready : Disk) (dir : Bytes)
    → with_directory disk dir ≡ some ready
    → ready.has_directory dir ≡ true
unfolding with_directory
with_directory-has_directory disk ready dir h = elim (Bool-cases (disk.has_directory dir)) [
  | inl e ↦ ground (arith, h, e)
  | inr e ↦ elim (Bool-cases (disk.can_create_directory dir)) [
    | inl c ↦
        subst (λ (d : Disk). d.has_directory dir ≡ true)
          (same_disk (sym (with_directory-made_in disk dir e c) ∙ h))
          (made_in-has_directory disk dir)
    | inr c ↦ ground (arith, h, e, c)
  ]
]

-- The folder is made once.
with_directory-again :
    (disk ready : Disk) (dir : Bytes)
    → with_directory disk dir ≡ some ready
    → with_directory ready dir ≡ some ready
with_directory-again disk ready dir h =
    with_directory-there ready dir (with_directory-has_directory disk ready dir h)

pub with_directory-can_write :
    (disk ready : Disk) (dir : Bytes)
    → with_directory disk dir ≡ some ready
    → (p : Bytes) → ready.can_write p ≡ disk.can_write p
unfolding with_directory
with_directory-can_write disk ready dir h p = ground (arith, h)

module _ (api : HdfsApi) (laws : ReadLaws api) (sane : Readable api) where
  download-done :
      (fuel : ℕ) (disk : Disk) (slice : SliceMeta) (file : api.File)
      → length (api.contents file) < fuel
      → download api fuel disk slice file
        ≡ done (
          true,
          write_file disk slice.local_slice_path (some (api.contents file)),
          record slice { is_load = true },
        )
  unfolding download
  download-done fuel disk slice file enough = rw (
    download,
    read_loop-done api laws sane (λ bytes. bytes) buffer_size fuel file [] (omega arith) enough
        (λ a b c e. refl),
  )

  load_slice_to_local-download :
      (fuel : ℕ) (dir : Bytes) (disk ready : Disk) (slice : SliceMeta) (file : api.File)
      → with_directory disk dir ≡ some ready
      → slice.is_load ≡ false
      → api.open_file slice.hdfs_slice_path ≡ some file
      → ready.can_write slice.local_slice_path ≡ true
      → load_slice_to_local api fuel dir disk slice ≡ download api fuel ready slice file
  unfolding load_slice_to_local
  load_slice_to_local-download fuel dir disk ready slice file d l o w =
      rw (load_slice_to_local, d, l, o, w)

  -- A slice that is not loaded, whose file opens and is read with no failure, and whose folder and
  -- file the disk lets be made: with fuel above the file's length `loadSliceToLocal` returns true
  -- and marks it as loaded; the local file is then the slice's file, no other file has changed, and
  -- `clearLocalSlice` takes the file away again and unmarks the slice.
  pub load_slice_to_local-copies :
      (fuel : ℕ) (dir : Bytes) (disk ready : Disk) (slice : SliceMeta) (file : api.File)
      → with_directory disk dir ≡ some ready
      → slice.is_load ≡ false
      → api.open_file slice.hdfs_slice_path ≡ some file
      → ready.can_write slice.local_slice_path ≡ true
      → length (api.contents file) < fuel
      → (copied : Disk) × (load_slice_to_local api fuel dir disk slice
          ≡ done (true, copied, record slice { is_load = true }))
        × (copied.file slice.local_slice_path ≡ some (api.contents file))
        × ((p : Bytes) → p ≢ slice.local_slice_path → copied.file p ≡ disk.file p)
        × (clear_local_slice copied (record slice { is_load = true })
            ≡ (true, write_file copied slice.local_slice_path none, slice))
  load_slice_to_local-copies fuel dir disk ready slice file d l o w enough =
      let path = slice.local_slice_path in
      let copied = write_file ready path (some (api.contents file)) in
      (
        copied,
        load_slice_to_local-download fuel dir disk ready slice file d l o w
            ∙ download-done fuel ready slice file enough,
        write_file-file_self ready path (some (api.contents file)),
        (λ p h.
            write_file-file_ne ready path p (some (api.contents file)) h
            ∙ with_directory-file disk ready dir d p),
        clear_local_slice-file copied slice (api.contents file) l
            (write_file-file_self ready path (some (api.contents file))),
      )

  -- The load of a slice into a folder that has been made.
  pub load_slice_to_local-with_directory :
      (fuel : ℕ) (dir : Bytes) (disk ready : Disk) (slice : SliceMeta)
      → with_directory disk dir ≡ some ready
      → load_slice_to_local api fuel dir disk slice ≡ load_slice_to_local api fuel dir ready slice
  unfolding load_slice_to_local
  load_slice_to_local-with_directory fuel dir disk ready slice d =
      rw (load_slice_to_local, d, with_directory-again disk ready dir d)

  -- With the folder there, what the load of such a slice leaves.
  pub load_slice_to_local-loads :
      (fuel : ℕ) (dir : Bytes) (disk : Disk) (slice : SliceMeta) (file : api.File)
      → disk.has_directory dir ≡ true
      → slice.is_load ≡ false
      → api.open_file slice.hdfs_slice_path ≡ some file
      → disk.can_write slice.local_slice_path ≡ true
      → length (api.contents file) < fuel
      → load_slice_to_local api fuel dir disk slice
        ≡ done (
          true,
          write_file disk slice.local_slice_path (some (api.contents file)),
          record slice { is_load = true },
        )
  load_slice_to_local-loads fuel dir disk slice file d l o w enough =
      load_slice_to_local-download fuel dir disk disk slice file (with_directory-there disk dir d) l
        o w
      ∙ download-done fuel disk slice file enough
