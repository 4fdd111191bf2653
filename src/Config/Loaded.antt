-- ===== src/Config/Loaded.antt =====
-- testbench/config.hpp, testbench/gen_data.cpp: a configuration that has been loaded, and the check
-- of the seeds.
use prob_alimama_2023_a.Base.{
  ℕ, zero, suc, ◌+◌, ◌^◌, ◌≤◌, ◌<◌, ◌≡◌, refl, sym, ◌∙◌, ap, subst, none, some, >>=-eq-some, List,
  [], ◌∷◌, ◌++◌, Bool, true, false, length, get_elem?, All, leb, if◌then◌else◌, Bytes, codes, arith,
}
use prob_alimama_2023_a.Base.Words.{to_u64}
use prob_alimama_2023_a.Config.{
  Json, Version, Config, read, load_slices, load_version, load_versions, load_config,
}
use prob_alimama_2023_a.GenData.Content.{seed_of, conflicts, check_slice}

module _ (json : Json) where
  open json use {Value, to_number, to_text, to_double, to_bool, elements}

  some_list : {A : Type 0} {a b : A} → some a ≡ some b → a ≡ b
  some_list e = cc e

  load_slices-length :
      (values : List Value) (slices : List ℕ)
      → load_slices json values ≡ some slices
      → length slices ≡ length values
  unfolding load_slices
  load_slices-length [] slices e = ap length (sym (some_list e))
  load_slices-length (s ∷ values) slices e =
      let (seed_a, _, e1) = >>=-eq-some (read json to_number s (codes "seed_a")) _ e in
      let (rest, r, e2) = >>=-eq-some (load_slices json values) _ e1 in
      ap length (sym (some_list e2)) ∙ ap suc (load_slices-length values rest r)

  load_version-length :
      (slice_cnt : ℕ) (v : Value) (version : Version)
      → load_version json slice_cnt v ≡ some version
      → to_u64 slice_cnt ≤ length version.slices
  unfolding load_version
  load_version-length slice_cnt v version e =
      let (name, _, e1) = >>=-eq-some (read json to_text v (codes "name")) _ e in
      let (values, _, e2) = >>=-eq-some (read json elements v (codes "slices")) _ e1 in
      let (slices, r, e3) = >>=-eq-some (load_slices json values) _ e2 in
      asserted values (leb (to_u64 slice_cnt) (length values)) name slices refl
        (load_slices-length values slices r) e3
    where
      asserted :
          (values : List Value) (b : Bool) (name : Bytes) (slices : List ℕ)
          → leb (to_u64 slice_cnt) (length values) ≡ b
          → length slices ≡ length values
          → (if b then some (record { name = name; slices = slices }) else none) ≡ some version
          → to_u64 slice_cnt ≤ length version.slices
      asserted values true name slices f l g =
          subst (λ (z : Version). to_u64 slice_cnt ≤ length z.slices) (some_list g)
            (ground (arith, f, l))
      asserted values false name slices f l g = cc g

  load_versions-length :
      (slice_cnt : ℕ) (values : List Value) (versions : List Version)
      → load_versions json slice_cnt values ≡ some versions
      → All (λ (z : Version). to_u64 slice_cnt ≤ length z.slices) versions
  unfolding load_versions
  load_versions-length slice_cnt [] versions e =
      subst (λ vs. All (λ (z : Version). to_u64 slice_cnt ≤ length z.slices) vs) (some_list e) tt
  load_versions-length slice_cnt (v ∷ values) versions e =
      let (version, f, e1) = >>=-eq-some (load_version json slice_cnt v) _ e in
      let (rest, r, e2) = >>=-eq-some (load_versions json slice_cnt values) _ e1 in
      subst (λ vs. All (λ (z : Version). to_u64 slice_cnt ≤ length z.slices) vs) (some_list e2)
        (load_version-length slice_cnt v version f, load_versions-length slice_cnt values rest r)

  load_config-versions :
      (text : Bytes) (config : Config json)
      → load_config json text ≡ some config
      → All (λ (z : Version). to_u64 config.slice_cnt ≤ length z.slices) config.versions
  unfolding load_config
  load_config-versions text config e =
      let (j, _, e1) = >>=-eq-some (json.parse text) _ e in
      let (a1, _, e2) =
        >>=-eq-some (read json to_number j (codes "start_load_duration_limit_ms")) _ e1 in
      let (a2, _, e3) =
        >>=-eq-some (read json to_number j (codes "switch_load_duration_limit_ms")) _ e2 in
      let (a3, _, e4) = >>=-eq-some (read json to_double j (codes "switch_load_qps_ratio")) _ e3 in
      let (a4, _, e5) = >>=-eq-some (read json to_number j (codes "benchmark_thread_num")) _ e4 in
      let (a5, _, e6) = >>=-eq-some (read json to_bool j (codes "benchmark_no_check_data")) _ e5 in
      let (a6, _, e7) = >>=-eq-some (read json to_number j (codes "qps_limit")) _ e6 in
      let (a7, _, e8) = >>=-eq-some (read json to_number j (codes "qps_step")) _ e7 in
      let (a8, _, e9) = >>=-eq-some (read json to_number j (codes "latency_limit")) _ e8 in
      let (a9, _, f1) = >>=-eq-some (read json to_number j (codes "failure_limit")) _ e9 in
      let (b1, _, f2) = >>=-eq-some (read json to_number j (codes "request_slice_num")) _ f1 in
      let (b2, _, f3) = >>=-eq-some (read json to_number j (codes "request_data_len")) _ f2 in
      let (b3, _, f4) = >>=-eq-some (read json to_number j (codes "slice_size")) _ f3 in
      let (slice_cnt, _, f5) = >>=-eq-some (read json to_number j (codes "slice_cnt")) _ f4 in
      let (values, _, f6) = >>=-eq-some (read json elements j (codes "versions")) _ f5 in
      let (versions, r, f7) = >>=-eq-some (load_versions json slice_cnt values) _ f6 in
      subst
        (λ (c : Config json).
          All (λ (z : Version). to_u64 c.slice_cnt ≤ length z.slices) c.versions)
        (some_list f7) (load_versions-length slice_cnt values versions r)

get_elem?-some {ℓ} :
    {A : Type ℓ} (xs : List A) (i : ℕ) → i < length xs → (a : A) × (get_elem? xs i ≡ some a)
get_elem?-some [] i lt = absurd (omega (arith, lt))
get_elem?-some (x ∷ xs) zero lt = (x, refl)
get_elem?-some (x ∷ xs) (suc i) lt = get_elem?-some xs i (omega (arith, lt))

seed_of-some :
    (versions : List Version) (n v i : ℕ)
    → All (λ (z : Version). n ≤ length z.slices) versions
    → v < length versions
    → i < n
    → (seed : ℕ) × (seed_of versions v i ≡ some seed)
unfolding seed_of
seed_of-some [] n v i all lt li = absurd (omega (arith, lt))
seed_of-some (z ∷ versions) n zero i (a, all) lt li =
    get_elem?-some z.slices i (omega (arith, a, li))
seed_of-some (z ∷ versions) n (suc v) i (a, all) lt li =
    seed_of-some versions n v i all (omega (arith, lt)) li

conflicts-some :
    (words n : ℕ) (versions : List Version) (i m : ℕ)
    → All (λ (z : Version). n ≤ length z.slices) versions
    → 3 ≤ length versions
    → i + m ≤ n
    → (out : List ℕ) × (conflicts words versions i m ≡ some out)
unfolding conflicts
conflicts-some words n versions i zero all three le = ([], refl)
conflicts-some words n versions i (suc m) all three le =
    let (sa, a) = seed_of-some versions n 0 i all (omega (arith, three)) (omega (arith, le)) in
    let (sb, b) = seed_of-some versions n 1 i all (omega (arith, three)) (omega (arith, le)) in
    let (sc, c) = seed_of-some versions n 2 i all (omega (arith, three)) (omega (arith, le)) in
    let (rest, r) = conflicts-some words n versions (suc i) m all three (omega (arith, le)) in
    (check_slice i 0 words sa sb sc ++ rest, rw (conflicts, a, b, c, r) refl)

-- For a configuration that loads, with a count of slices below 2 ^ 31 and three versions at least:
-- the check of the seeds reads no seed that is not there.
pub load_config-conflicts :
    (json : Json) (text : Bytes) (config : Config json) (words : ℕ)
    → load_config json text ≡ some config
    → config.slice_cnt < 2 ^ 31
    → 3 ≤ length config.versions
    → (out : List ℕ) × (conflicts words config.versions 0 config.slice_cnt ≡ some out)
load_config-conflicts json text config words e small three =
    conflicts-some words (to_u64 config.slice_cnt) config.versions 0 config.slice_cnt
      (load_config-versions json text config e) three (ground (arith, small))
