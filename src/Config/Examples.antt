-- ===== src/Config/Examples.antt =====
-- A configuration with one slice in three versions, in a small JSON library.
use prob_alimama_2023_a.Base.{ℕ, ◌≡◌, refl, true, some, List, [], ◌∷◌, codes, arith}
use prob_alimama_2023_a.Config.{
  Json, Config, read, load_slices, load_version, load_versions, load_config,
}
use prob_alimama_2023_a.Config.Loaded.{load_config-conflicts}
use prob_alimama_2023_a.GenData.Content.{conflicts}

-- Every value is an object with the same number and text in each field, and three elements.
abbrev one_value : Json
one_value = record {
  Value = ℕ;
  Double = ℕ;
  parse = λ text. some 1;
  field = λ v name. some v;
  to_bool = λ v. some true;
  to_number = λ v. some v;
  to_double = λ v. some v;
  to_text = λ v. some (codes "model_a");
  elements = λ v. some (1 ∷ 2 ∷ 3 ∷ []);
}

abbrev loaded : Config one_value
loaded = record {
  benchmark_no_check_data = true;
  benchmark_thread_num = 1;
  start_load_duration_limit_ms = 1;
  switch_load_duration_limit_ms = 1;
  qps_limit = 1;
  qps_step = 1;
  latency_limit = 1;
  failure_limit = 1;
  request_slice_num = 1;
  request_data_len = 1;
  switch_load_qps_ratio = 1;
  slice_size = 1;
  slice_cnt = 1;
  versions =
      record { name = codes "model_a"; slices = 1 ∷ 2 ∷ 3 ∷ [] }
      ∷ record { name = codes "model_a"; slices = 1 ∷ 2 ∷ 3 ∷ [] }
      ∷ record { name = codes "model_a"; slices = 1 ∷ 2 ∷ 3 ∷ [] }
      ∷ [];
}

load_config-conflicts_example : (out : List ℕ) × (conflicts 2 loaded.versions 0 1 ≡ some out)
unfolding load_config load_versions load_version load_slices read
load_config-conflicts_example =
    load_config-conflicts one_value [] loaded 2 refl (omega arith) (omega arith)
