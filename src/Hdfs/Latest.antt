-- ===== src/Hdfs/Latest.antt =====
-- code/src/hdfs_hander.cpp: `getLastestModel`, which keeps the models that it has read in
-- `model_tables`.
pub mod Kept
use prob_alimama_2023_a.Base.Words.{to_int, to_u64}
use prob_alimama_2023_a.Hdfs.RoundTrip.{with_slices, add_lines-slice}
use prob_alimama_2023_a.Base.{
  ◌++◌, suc, ℕ, ◌≡◌, ◌≢◌, refl, sym, ap, ◌∙◌, subst, ◌⊎◌, inl, inr, Bool-cases, Option-cases, true,
  false, Option, none, some, List, [], ◌∷◌, if◌then◌else◌, Bytes, All, codes, equal, equal_iff,
  equal_refl,
}
use prob_alimama_2023_a.Model.{ModelMeta}
use prob_alimama_2023_a.Text.{lines, has_prefix}
use prob_alimama_2023_a.Hdfs.{HdfsApi, Outcome, done, fault, running, get_available_model_name}
use prob_alimama_2023_a.Hdfs.Meta.{load_model_meta, read_meta, add_lines, new_model, slice_of_line}

abbrev pub ModelTables : Type 0
ModelTables = List (Bytes × ModelMeta)

unfoldable pub find_model : ModelTables → Bytes → Option ModelMeta
unfolding equal
find_model [] name = none
find_model ((key, model) ∷ rest) name = if equal key name then some model else find_model rest name

-- `model_tables[model_name] = model` for a name that is not there.
unfoldable pub keep_model : ModelTables → Bytes → Option ModelMeta → Option ModelMeta × ModelTables
keep_model tables name none = (none, tables)
keep_model tables name (some model) = (some model, (name, model) ∷ tables)

unfoldable pub latest_named :
    (api : HdfsApi) (fuel : ℕ) → ModelTables → Bytes → Outcome (Option ModelMeta × ModelTables)
unfolding find_model keep_model load_model_meta
latest_named api fuel tables name = elim (find_model tables name) [
  | some model ↦ done (some model, tables)
  | none ↦ elim (load_model_meta api fuel name) [
    | done answer ↦ done (keep_model tables name answer)
    | fault ↦ fault
    | running ↦ running
  ]
]

-- `none` is the null pointer; no name and the empty name are the same.
unfoldable pub get_latest_model :
    (api : HdfsApi) (garbage : Bytes) (fuel : ℕ)
    → ModelTables
    → Outcome (Option ModelMeta × ModelTables)
unfolding get_available_model_name latest_named
get_latest_model api garbage fuel tables = elim (get_available_model_name api garbage) [
  | none ↦ done (none, tables)
  | some [] ↦ done (none, tables)
  | some (c ∷ cs) ↦ latest_named api fuel tables (c ∷ cs)
]
