-- ===== src/Hdfs/RoundTrip.antt =====
-- code/src/hdfs_hander.cpp, testbench/gen_data.cpp: `loadModelMeta` on a model.meta of the
-- generator.
use prob_alimama_2023_a.Base.{
  ℕ, zero, suc, ◌+◌, ◌≡◌, ◌<◌, ◌^◌, refl, sym, subst, ap, ◌∙◌, true, false, some, List, [], ◌∷◌,
  ◌++◌, arith, leb, ◌==◌, All, All-append, length, Bytes, codes, append-nil, append_assoc,
  if◌then◌else◌,
}
use prob_alimama_2023_a.Base.Words.{to_int, to_u64, to_u64-to_int}
use prob_alimama_2023_a.Model.{SliceMeta, ModelMeta}
use prob_alimama_2023_a.Text.{to_string, newline, lines, has_prefix}
use prob_alimama_2023_a.Text.Lines.{Free, lines-append}
use prob_alimama_2023_a.GenData.{slice_file_name, slice_line, slice_lines, write_meta}
use prob_alimama_2023_a.Hdfs.{
  HdfsApi, ReadLaws, Readable, done, c_string, read_loop, model_root_dir,
}
use prob_alimama_2023_a.Hdfs.Reading.{read_loop-done, NulFree-Keeps}
use prob_alimama_2023_a.Hdfs.Meta.{
  name_of_line, size_of_line, slice_of_line, add_lines, new_model, read_meta, load_model_meta,
}
use prob_alimama_2023_a.Hdfs.MetaText.{
  Plain, to_string-Plain, slice_file_name-Plain, name_of_line-line_of, size_of_line-line_of,
}

-- Slice i of a model that the generator wrote.
abbrev pub written_slice :
    (hdfs_model_path local_model_path : Bytes) (slice_cnt slice_size i : ℕ) → SliceMeta
written_slice hdfs_model_path local_model_path slice_cnt slice_size i = record {
  slice_name = slice_file_name slice_cnt i;
  hdfs_slice_path = hdfs_model_path ++ codes "/" ++ slice_file_name slice_cnt i;
  local_slice_path = local_model_path ++ codes "/" ++ slice_file_name slice_cnt i;
  slice_no = i;
  size = slice_size;
  is_load = false;
}

-- The slices i, .., i + n - 1.
abbrev pub written_slices :
    (hdfs_model_path local_model_path : Bytes) (slice_cnt slice_size i n : ℕ) → List SliceMeta
written_slices hdfs_model_path local_model_path slice_cnt slice_size i zero = []
written_slices hdfs_model_path local_model_path slice_cnt slice_size i (suc n) =
    written_slice hdfs_model_path local_model_path slice_cnt slice_size i
    ∷ written_slices hdfs_model_path local_model_path slice_cnt slice_size (suc i) n

abbrev pub with_slices : ModelMeta → (slice_num slice_size : ℕ) → List SliceMeta → ModelMeta
with_slices model slice_num slice_size slices = record model {
  slice_num = slice_num;
  slice_size = slice_size;
  slices = slices;
}

with_slices-cong :
    (model : ModelMeta) {m n y z : ℕ} {xs ys : List SliceMeta}
    → m ≡ n
    → y ≡ z
    → xs ≡ ys
    → with_slices model m y xs ≡ with_slices model n z ys
with_slices-cong model e f g = cc (e, f, g)

abbrev written_from : ModelMeta → (slice_cnt slice_size n : ℕ) → ModelMeta
written_from model slice_cnt slice_size n =
    with_slices model (model.slice_num + n) (if n == 0 then model.slice_size else slice_size) (
      model.slices
      ++ written_slices model.hdfs_model_path model.local_model_path slice_cnt slice_size
          model.slice_num n)

-- No character comes before the comma.
abbrev Visible : Bytes → Type 0
Visible s = All (λ c. leb b',' c ≡ true) s

Visible-Free : (c : ℕ) (s : Bytes) → c < b',' → Visible s → Free c s
Visible-Free c [] h p = tt
Visible-Free c (x ∷ s) h (d, p) = (ground (arith, d, h), Visible-Free c s h p)

Plain-Visible : (s : Bytes) → Plain s → Visible s
Plain-Visible [] p = tt
Plain-Visible (x ∷ s) (d, p) = (ground (arith, d), Plain-Visible s p)

slice_line-Visible : (slice_cnt slice_size i : ℕ) → Visible (slice_line slice_cnt slice_size i)
unfolding slice_line
slice_line-Visible slice_cnt slice_size i = (
  refl,
  (
    refl,
    (
      refl,
      (
        refl,
        (
          refl,
          (
            refl,
            All-append (λ c. leb b',' c ≡ true) (slice_file_name slice_cnt i)
                (b',' ∷ (codes "size:" ++ to_string slice_size))
                (Plain-Visible (slice_file_name slice_cnt i) (slice_file_name-Plain slice_cnt i))
                (
                  refl,
                  (
                    refl,
                    (
                      refl,
                      (
                        refl,
                        (
                          refl,
                          (refl, Plain-Visible (to_string slice_size) (to_string-Plain slice_size)),
                        ),
                      ),
                    ),
                  ),
                ),
          ),
        ),
      ),
    ),
  ),
)

slice_of_line-some :
    (hdfs_model_path local_model_path : Bytes) (slice_no : ℕ) (line slice_name : Bytes) (size : ℕ)
    → name_of_line line ≡ some slice_name
    → size_of_line line ≡ some size
    → to_u64 size ≡ size
    → slice_of_line hdfs_model_path local_model_path slice_no line
      ≡ some (record {
        slice_name = slice_name;
        hdfs_slice_path = hdfs_model_path ++ codes "/" ++ slice_name;
        local_slice_path = local_model_path ++ codes "/" ++ slice_name;
        slice_no = slice_no;
        size = size;
        is_load = false;
      })
unfolding slice_of_line
slice_of_line-some h l slice_no line slice_name size e f g = rw (slice_of_line, e, f, g)

slice_of_line-slice_line :
    (hdfs_model_path local_model_path : Bytes) (slice_cnt slice_size i : ℕ)
    → slice_size < 2 ^ 31
    → slice_of_line hdfs_model_path local_model_path i (slice_line slice_cnt slice_size i)
      ≡ some (written_slice hdfs_model_path local_model_path slice_cnt slice_size i)
unfolding slice_line
slice_of_line-slice_line h l slice_cnt slice_size i b =
    let plain = slice_file_name-Plain slice_cnt i in
    slice_of_line-some h l i (slice_line slice_cnt slice_size i) (slice_file_name slice_cnt i)
      slice_size (name_of_line-line_of (slice_file_name slice_cnt i) (to_string slice_size) plain)
      (size_of_line-line_of (slice_file_name slice_cnt i) slice_size plain b) (ground (arith, b))

slice_line-prefix :
    (slice_cnt slice_size i : ℕ)
    → has_prefix (slice_line slice_cnt slice_size i) (codes "slice") ≡ true
unfolding slice_line has_prefix
slice_line-prefix slice_cnt slice_size i = refl

pub add_lines-slice :
    (model : ModelMeta) (line : Bytes) (rest : List Bytes) (slice : SliceMeta)
    → has_prefix line (codes "slice") ≡ true
    → slice_of_line model.hdfs_model_path model.local_model_path model.slice_num line ≡ some slice
    → add_lines model (line ∷ rest)
      ≡ add_lines
          (with_slices model
            (suc model.slice_num)
            (to_u64 (to_int slice.size))
            (model.slices ++ slice ∷ []))
          rest
unfolding add_lines
add_lines-slice model line rest slice p e = rw (add_lines, p, e)

add_lines-end : (model : ModelMeta) → add_lines model (lines []) ≡ some model
unfolding add_lines lines
add_lines-end model = refl

add_lines-slice_lines :
    (model : ModelMeta) (slice_cnt slice_size n : ℕ)
    → slice_size < 2 ^ 31
    → add_lines model (lines (slice_lines slice_cnt slice_size model.slice_num n))
      ≡ some (written_from model slice_cnt slice_size n)
unfolding slice_lines
add_lines-slice_lines model slice_cnt slice_size zero b =
    add_lines-end model
    ∙ ap some (with_slices-cong model (omega arith) refl (sym (append-nil model.slices)))
add_lines-slice_lines model slice_cnt slice_size (suc n) b =
    let line = slice_line slice_cnt slice_size model.slice_num in
    let slice =
      written_slice model.hdfs_model_path model.local_model_path slice_cnt slice_size
        model.slice_num in
    let rest = slice_lines slice_cnt slice_size (suc model.slice_num) n in
    let next = with_slices model (suc model.slice_num) slice_size (model.slices ++ slice ∷ []) in
    ap (add_lines model) (
      lines-append line rest (
        Visible-Free newline line (omega arith)
          (slice_line-Visible slice_cnt slice_size model.slice_num)))
    ∙ add_lines-slice model line (lines rest) slice
        (slice_line-prefix slice_cnt slice_size model.slice_num)
        (slice_of_line-slice_line model.hdfs_model_path model.local_model_path slice_cnt slice_size
          model.slice_num b)
    ∙ ap
        (λ z.
          add_lines (with_slices model (suc model.slice_num) z (model.slices ++ slice ∷ []))
            (lines rest))
        (to_u64-to_int slice_size b)
    ∙ add_lines-slice_lines next slice_cnt slice_size n b
    ∙ ap some (
        with_slices-cong model (omega arith) (ground arith) (
          append_assoc model.slices (slice ∷ []) (
            written_slices model.hdfs_model_path model.local_model_path slice_cnt slice_size
              (suc model.slice_num) n)))

slice_lines-NulFree : (slice_cnt slice_size i n : ℕ) → Free 0 (slice_lines slice_cnt slice_size i n)
unfolding slice_lines
slice_lines-NulFree slice_cnt slice_size i zero = tt
slice_lines-NulFree slice_cnt slice_size i (suc n) =
    All-append (λ c. (c == 0) ≡ false) (slice_line slice_cnt slice_size i)
      (newline ∷ slice_lines slice_cnt slice_size (suc i) n)
      (Visible-Free 0 (slice_line slice_cnt slice_size i) (omega arith)
        (slice_line-Visible slice_cnt slice_size i))
      (refl, slice_lines-NulFree slice_cnt slice_size (suc i) n)

version_line-Visible : (version : Bytes) → Plain version → Visible (codes "version:" ++ version)
version_line-Visible version p =
    (refl, (refl, (refl, (refl, (refl, (refl, (refl, (refl, Plain-Visible version p))))))))

write_meta-NulFree :
    (version : Bytes) (slice_cnt slice_size : ℕ)
    → Plain version
    → Free 0 (write_meta version slice_cnt slice_size)
unfolding write_meta
write_meta-NulFree version slice_cnt slice_size p =
    All-append (λ c. (c == 0) ≡ false) (codes "version:" ++ version)
      (newline ∷ (newline ∷ slice_lines slice_cnt slice_size 0 slice_cnt))
      (Visible-Free 0 (codes "version:" ++ version) (omega arith) (version_line-Visible version p))
      (refl, (refl, slice_lines-NulFree slice_cnt slice_size 0 slice_cnt))

lines-write_meta :
    (version : Bytes) (slice_cnt slice_size : ℕ)
    → Plain version
    → lines (write_meta version slice_cnt slice_size)
      ≡ (codes "version:" ++ version) ∷ ([] ∷ lines (slice_lines slice_cnt slice_size 0 slice_cnt))
unfolding write_meta
lines-write_meta version slice_cnt slice_size p =
    let rest = slice_lines slice_cnt slice_size 0 slice_cnt in
    lines-append (codes "version:" ++ version) (newline ∷ rest) (
      Visible-Free newline (codes "version:" ++ version) (omega arith)
        (version_line-Visible version p))
    ∙ ap (λ z. (codes "version:" ++ version) ∷ z) (lines-append [] rest tt)

add_lines-version :
    (model : ModelMeta) (version : Bytes) (rest : List Bytes)
    → add_lines model ((codes "version:" ++ version) ∷ ([] ∷ rest)) ≡ add_lines model rest
unfolding add_lines has_prefix
add_lines-version model version rest = refl

-- The model as the generator's configuration has it.
abbrev pub written_model : (model_name : Bytes) (slice_cnt slice_size : ℕ) → ModelMeta
written_model model_name slice_cnt slice_size = record (new_model model_name) {
  slice_num = slice_cnt;
  slice_size = if slice_cnt == 0 then 0 else slice_size;
  slices =
      written_slices (new_model model_name).hdfs_model_path (new_model model_name).local_model_path
        slice_cnt slice_size 0 slice_cnt;
}

add_lines-write_meta :
    (model_name version : Bytes) (slice_cnt slice_size : ℕ)
    → Plain version
    → slice_size < 2 ^ 31
    → add_lines (new_model model_name) (lines (write_meta version slice_cnt slice_size))
      ≡ some (written_model model_name slice_cnt slice_size)
add_lines-write_meta model_name version slice_cnt slice_size p b =
    ap (add_lines (new_model model_name)) (lines-write_meta version slice_cnt slice_size p)
    ∙ add_lines-version (new_model model_name) version
        (lines (slice_lines slice_cnt slice_size 0 slice_cnt))
    ∙ add_lines-slice_lines (new_model model_name) slice_cnt slice_size slice_cnt b
    ∙ ap some (with_slices-cong (new_model model_name) (omega arith) refl refl)

module _ (api : HdfsApi) (laws : ReadLaws api) (sane : Readable api) where
  load_model_meta-text :
      (fuel : ℕ) (model_name : Bytes) (file : api.File) (text : Bytes) (model : ModelMeta)
      → api.open_file ((model_root_dir ++ model_name) ++ codes "/model.meta") ≡ some file
      → read_loop api c_string 256 fuel file [] ≡ done text
      → add_lines (new_model model_name) (lines text) ≡ some model
      → load_model_meta api fuel model_name ≡ done (some model)
  unfolding load_model_meta read_meta
  load_model_meta-text fuel model_name file text model o r e =
      rw (load_model_meta, read_meta, o, r, e)

  -- If model.meta is what the generator writes for a model of slice_cnt slices of slice_size bytes,
  -- below 2 ^ 31, under a version name whose characters all come after the comma, and its reads do
  -- not fail, then fuel above its length is enough, and `loadModelMeta` returns the model with
  -- exactly these slices, in order.
  pub load_model_meta-write_meta :
      (fuel : ℕ) (model_name version : Bytes) (slice_cnt slice_size : ℕ) (file : api.File)
      → api.open_file ((model_root_dir ++ model_name) ++ codes "/model.meta") ≡ some file
      → api.contents file ≡ write_meta version slice_cnt slice_size
      → length (api.contents file) < fuel
      → Plain version
      → slice_size < 2 ^ 31
      → load_model_meta api fuel model_name
        ≡ done (some (written_model model_name slice_cnt slice_size))
  load_model_meta-write_meta fuel model_name version slice_cnt slice_size file o c enough p b =
      load_model_meta-text fuel model_name file (api.contents file)
        (written_model model_name slice_cnt slice_size) o
        (read_loop-done api laws sane c_string 256 fuel file [] (omega arith) enough (
          NulFree-Keeps (api.contents file)
            (subst (λ s. Free 0 s) (sym c) (write_meta-NulFree version slice_cnt slice_size p))))
        (ap (λ s. add_lines (new_model model_name) (lines s)) c
          ∙ add_lines-write_meta model_name version slice_cnt slice_size p b)
