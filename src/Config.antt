-- ===== src/Config.antt =====
-- testbench/config.hpp: the configuration of the test tools. The JSON library is a parameter;
-- `none` is an exception that it throws, or a failed assertion.
mod Loaded
mod Examples
use prob_alimama_2023_a.Base.{
  ℕ, Bool, Option, none, some, ◌>>=◌, List, [], ◌∷◌, length, leb, if◌then◌else◌, Bytes, codes,
}
use prob_alimama_2023_a.Base.Words.{to_u64}

pub record Json : Type 1 where
  pub Value : Type 0
  pub Double : Type 0
  pub parse : Bytes → Option Value
  -- `j[name]`, and the conversions; an int is its bit pattern
  pub field : Value → Bytes → Option Value
  pub to_bool : Value → Option Bool
  pub to_number : Value → Option ℕ
  pub to_double : Value → Option Double
  pub to_text : Value → Option Bytes
  pub elements : Value → Option (List Value)

-- A version of the model, with `seed_a` of each slice.
pub record Version : Type 0 where
  pub name : Bytes
  pub slices : List ℕ

pub record Config (json : Json) : Type 0 where
  pub benchmark_no_check_data : Bool
  pub benchmark_thread_num : ℕ
  pub start_load_duration_limit_ms : ℕ
  pub switch_load_duration_limit_ms : ℕ
  pub qps_limit : ℕ
  pub qps_step : ℕ
  pub latency_limit : ℕ
  pub failure_limit : ℕ
  pub request_slice_num : ℕ
  pub request_data_len : ℕ
  pub switch_load_qps_ratio : json.Double
  pub slice_size : ℕ
  pub slice_cnt : ℕ
  pub versions : List Version

module _ (json : Json) where
  open json use {Value, parse, field, to_bool, to_number, to_double, to_text, elements}

  -- Any conversion of a field.
  unfoldable pub read {ℓ} : {A : Type ℓ} → (Value → Option A) → Value → Bytes → Option A
  read convert j name = do value ← field j name; convert value

  unfoldable pub load_slices : List Value → Option (List ℕ)
  unfolding read
  load_slices [] = some []
  load_slices (s ∷ values) = do
    seed_a ← read to_number s (codes "seed_a")
    slices ← load_slices values
    some (seed_a ∷ slices)

  -- `size()` is compared with the int `slice_cnt`, which becomes unsigned.
  unfoldable pub load_version : (slice_cnt : ℕ) → Value → Option Version
  unfolding read load_slices
  load_version slice_cnt v = do
    name ← read to_text v (codes "name")
    values ← read elements v (codes "slices")
    slices ← load_slices values
    if leb (to_u64 slice_cnt) (length values)
        then some (record { name = name; slices = slices })
        else none

  unfoldable pub load_versions : (slice_cnt : ℕ) → List Value → Option (List Version)
  unfolding load_version
  load_versions slice_cnt [] = some []
  load_versions slice_cnt (v ∷ values) = do
    version ← load_version slice_cnt v
    versions ← load_versions slice_cnt values
    some (version ∷ versions)

  unfoldable pub load_config : (text : Bytes) → Option (Config json)
  unfolding read load_versions
  load_config text = do
    j ← parse text
    start_load_duration_limit_ms ← read to_number j (codes "start_load_duration_limit_ms")
    switch_load_duration_limit_ms ← read to_number j (codes "switch_load_duration_limit_ms")
    switch_load_qps_ratio ← read to_double j (codes "switch_load_qps_ratio")
    benchmark_thread_num ← read to_number j (codes "benchmark_thread_num")
    benchmark_no_check_data ← read to_bool j (codes "benchmark_no_check_data")
    qps_limit ← read to_number j (codes "qps_limit")
    qps_step ← read to_number j (codes "qps_step")
    latency_limit ← read to_number j (codes "latency_limit")
    failure_limit ← read to_number j (codes "failure_limit")
    request_slice_num ← read to_number j (codes "request_slice_num")
    request_data_len ← read to_number j (codes "request_data_len")
    slice_size ← read to_number j (codes "slice_size")
    slice_cnt ← read to_number j (codes "slice_cnt")
    values ← read elements j (codes "versions")
    versions ← load_versions slice_cnt values
    some (record {
      benchmark_no_check_data = benchmark_no_check_data;
      benchmark_thread_num = benchmark_thread_num;
      start_load_duration_limit_ms = start_load_duration_limit_ms;
      switch_load_duration_limit_ms = switch_load_duration_limit_ms;
      qps_limit = qps_limit;
      qps_step = qps_step;
      latency_limit = latency_limit;
      failure_limit = failure_limit;
      request_slice_num = request_slice_num;
      request_data_len = request_data_len;
      switch_load_qps_ratio = switch_load_qps_ratio;
      slice_size = slice_size;
      slice_cnt = slice_cnt;
      versions = versions;
    })
