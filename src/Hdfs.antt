-- ===== src/Hdfs.antt =====
-- code/src/hdfs_hander.cpp: what `HDFSHander` calls of libhdfs, its read loops, and which of the
-- names in the root folder is served. A child models `loadModelMeta`, another the local copies.
pub mod Store
pub mod Reading
pub mod Meta
mod MetaName
mod MetaText
mod Version
pub mod Local
pub mod RoundTrip
pub mod Latest
pub mod Connect
mod Examples
use prob_alimama_2023_a.Base.{
  ℕ, zero, suc, ◌+◌, ◌<◌, ◌≤◌, ◌≡◌, ◌≢◌, Bool, true, false, Option, none, some, List, [], ◌∷◌, ◌++◌,
  length, take, drop, Bytes, codes, ◌==◌, if◌then◌else◌, ◌>>=◌,
}
use prob_alimama_2023_a.Text.{has_prefix, after_slash}

-- What `hdfsRead` answers: 0, -1, or the bytes it put into the buffer.
pub data Read (File : Type 0) : Type 0 where
  eof failed : Read File
  chunk : Bytes → File → Read File

-- libhdfs, for a connected file system. A File is a handle with its position.
pub record HdfsApi : Type 1 where
  pub File : Type 0
  pub exists : Bytes → Bool
  pub open_file : Bytes → Option File
  pub read : File → ℕ → Read File
  -- the paths of the entries, in order
  pub list_directory : Bytes → List Bytes
  -- the bytes from the position to the end
  pub contents : File → Bytes

-- A read of a size above 0 that does not fail gives the next bytes, and at the end none.
pub record ReadLaws (api : HdfsApi) : Type 0 where
  pub read-eof :
      (file : api.File) (size : ℕ) → 0 < size → api.read file size ≡ eof → api.contents file ≡ []
  pub read-chunk :
      (file next : api.File) (size : ℕ) (bytes : Bytes)
      → api.read file size ≡ chunk bytes next
      → (api.contents file ≡ bytes ++ api.contents next)
        × (0 < length bytes)
        × (length bytes ≤ size)

-- No read of the file fails.
pub record Readable (api : HdfsApi) : Type 0 where
  pub read-failed : (file : api.File) (size : ℕ) → api.read file size ≢ failed

-- How a loop ends: with a value, with undefined behaviour, or not yet.
pub data Outcome {ℓ} (A : Type ℓ) : Type ℓ where
  done : A → Outcome A
  fault running : Outcome A

-- `while((n = hdfsRead(fs_, file, buf, size)) != 0) out << keep(buf, n);` A failed read makes n =
-- -1, which indexes `buf` or is written as a length.
unfoldable pub read_loop :
    (api : HdfsApi) (keep : Bytes → Bytes) (size fuel : ℕ) → api.File → Bytes → Outcome Bytes
read_loop api keep size zero file out = running
read_loop api keep size (suc fuel) file out = elim (api.read file size) [
  | eof ↦ done out
  | failed ↦ fault
  | chunk bytes next ↦ read_loop api keep size fuel next (out ++ keep bytes)
]

-- The bytes before the first NUL: a `char *` as text.
unfoldable pub c_string : Bytes → Bytes
c_string [] = []
c_string (c ∷ cs) = if c == 0 then [] else c ∷ c_string cs

abbrev pub model_prefix : Bytes
model_prefix = codes "model_"

abbrev pub model_name_len : ℕ
model_name_len = 25

abbrev pub buffer_size : ℕ
buffer_size = 65536

abbrev pub model_root_dir : Bytes
model_root_dir = codes "/"

abbrev pub local_root_dir : Bytes
local_root_dir = codes "/tmp/"

unfoldable pub is_available : HdfsApi → Bytes → Bool
is_available api model_name =
    let model_path = model_root_dir ++ model_name in
    if api.exists model_path then api.exists (model_path ++ codes "/model.done") else false

-- One read of 25 bytes into `char buf[128]`, which held `garbage`; a NUL is put after byte 24.
unfoldable pub rollback_name : (api : HdfsApi) (garbage : Bytes) → api.File → Bytes
unfolding c_string
rollback_name api garbage file = elim (api.read file model_name_len) [
  | eof ↦ c_string (take model_name_len garbage)
  | failed ↦ c_string (take model_name_len garbage)
  | chunk bytes next ↦ c_string (take model_name_len (bytes ++ drop (length bytes) garbage))
]

-- The name in rollback.version, if it is available.
unfoldable pub rollback : (api : HdfsApi) (garbage : Bytes) → Option Bytes
unfolding is_available rollback_name
rollback api garbage =
    let path = model_root_dir ++ codes "rollback.version" in
    if api.exists path
    then (do
      file ← api.open_file path
      let name = rollback_name api garbage file
      if is_available api name then some name else none)
    else none

-- The loop over the entries from the last to the first.
unfoldable pub latest_entry : (api : HdfsApi) → List Bytes → Option Bytes
unfolding has_prefix after_slash is_available
latest_entry api [] = none
latest_entry api (model_path ∷ earlier) =
    let rest = latest_entry api earlier in
    let model_name = after_slash model_path in
    if has_prefix model_name model_prefix
    then if is_available api model_name then some model_name else rest
    else rest

abbrev pub reverse_onto : List Bytes → List Bytes → List Bytes
reverse_onto [] acc = acc
reverse_onto (x ∷ xs) acc = reverse_onto xs (x ∷ acc)

-- `none` is the empty string.
unfoldable pub get_available_model_name : (api : HdfsApi) (garbage : Bytes) → Option Bytes
unfolding rollback latest_entry
get_available_model_name api garbage = elim (rollback api garbage) [
  | some name ↦ some name
  | none ↦ latest_entry api (reverse_onto (api.list_directory model_root_dir) [])
]
