-- ===== src/Hdfs/Meta.antt =====
-- code/src/hdfs_hander.cpp: `loadModelMeta`, the file model.meta of a model read into a ModelMeta.
-- `none` is an exception, or what a read that fails leads to.
use prob_alimama_2023_a.Base.{
  ℕ, suc, ◌+◌, ◌-◌, false, Option, none, some, List, [], ◌∷◌, ◌++◌, ltb, if◌then◌else◌, ◌>>=◌, take,
  Bytes, codes,
}
use prob_alimama_2023_a.Base.Words.{to_int, to_u64}
use prob_alimama_2023_a.Model.{SliceMeta, ModelMeta}
use prob_alimama_2023_a.Text.{stoi, lines, find_first_of, substr_from, has_prefix}
use prob_alimama_2023_a.Hdfs.{
  HdfsApi, Outcome, done, fault, running, read_loop, c_string, model_root_dir, local_root_dir,
}

-- `line.substr(6, first_comma_pos - 6)`: with no comma, or one before position 6, the length is
-- above the line's.
unfoldable pub name_of_line : Bytes → Option Bytes
unfolding substr_from
name_of_line line = do
  rest ← substr_from line 6
  elim (find_first_of b',' line) [
    | none ↦ some rest
    | some comma ↦ if ltb comma 6 then some rest else some (take (comma - 6) rest)
  ]

-- `first_comma_pos + 6`, where no comma is -1
abbrev pub size_start : Option ℕ → ℕ
size_start none = 5
size_start (some comma) = comma + 6

-- `std::stoi(line.substr(first_comma_pos + 6))`
unfoldable pub size_of_line : Bytes → Option ℕ
unfolding substr_from
size_of_line line = do rest ← substr_from line (size_start (find_first_of b',' line)); stoi rest

unfoldable pub slice_of_line :
    (hdfs_model_path local_model_path : Bytes) (slice_no : ℕ) → Bytes → Option SliceMeta
unfolding name_of_line size_of_line
slice_of_line hdfs_model_path local_model_path slice_no line = do
  slice_name ← name_of_line line
  size ← size_of_line line
  some (record {
    slice_name = slice_name;
    hdfs_slice_path = hdfs_model_path ++ codes "/" ++ slice_name;
    local_slice_path = local_model_path ++ codes "/" ++ slice_name;
    slice_no = slice_no;
    size = to_u64 size;
    is_load = false;
  })

-- The loop over the lines; what it carries is the model's slices so far, with its two counters.
unfoldable pub add_lines : ModelMeta → List Bytes → Option ModelMeta
unfolding slice_of_line
add_lines model [] = some model
add_lines model (line ∷ rest) =
    if has_prefix line (codes "slice")
    then (do
      slice ← slice_of_line model.hdfs_model_path model.local_model_path model.slice_num line
      add_lines
          (record model {
            slice_num = suc model.slice_num;
            slice_size = to_u64 (to_int slice.size);
            slices = model.slices ++ slice ∷ [];
          })
          rest)
    else add_lines model rest

abbrev pub new_model : Bytes → ModelMeta
new_model model_name = record {
  model_name = model_name;
  hdfs_model_path = model_root_dir ++ model_name;
  local_model_path = local_root_dir ++ model_name;
  slice_num = 0;
  slice_size = 0;
  slices = [];
}

-- The content of model.meta, 256 bytes at a time; a file that does not open is an empty answer.
unfoldable pub read_meta : (api : HdfsApi) (fuel : ℕ) → Bytes → Outcome (Option Bytes)
unfolding read_loop
read_meta api fuel model_name =
    elim (api.open_file ((model_root_dir ++ model_name) ++ codes "/model.meta")) [
      | none ↦ done none
      | some file ↦ elim (read_loop api c_string 256 fuel file []) [
        | done text ↦ done (some text)
        | fault ↦ fault
        | running ↦ running
      ]
    ]

-- `done none` is a null pointer; an exception of the parser is a fault.
unfoldable pub load_model_meta : (api : HdfsApi) (fuel : ℕ) → Bytes → Outcome (Option ModelMeta)
unfolding read_meta add_lines lines
load_model_meta api fuel model_name = elim (read_meta api fuel model_name) [
  | done none ↦ done none
  | done (some text) ↦ elim (add_lines (new_model model_name) (lines text)) [
    | none ↦ fault
    | some model ↦ done (some model)
  ]
  | fault ↦ fault
  | running ↦ running
]
