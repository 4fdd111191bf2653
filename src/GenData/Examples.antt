-- ===== src/GenData/Examples.antt =====
-- The check of the seeds for one slice in three versions.
use prob_alimama_2023_a.Base.{◌≢◌, refl, List, [], ◌∷◌, codes, arith}
use prob_alimama_2023_a.Config.{Version}
use prob_alimama_2023_a.GenData.Content.{
  hash_sample, myhash, clash, check_slice, seed_of, conflicts, gen_data,
}
use prob_alimama_2023_a.GenData.Seeds.{word, conflicts-word}

abbrev three_versions : List Version
three_versions =
    record { name = codes "model_a"; slices = 5 ∷ [] }
    ∷ record { name = codes "model_b"; slices = 9 ∷ [] }
    ∷ record { name = codes "model_c"; slices = 12 ∷ [] }
    ∷ []

conflicts-word_example :
    word 1 (gen_data 8 5 (0 ∷ 0 ∷ 0 ∷ 0 ∷ 0 ∷ 0 ∷ 0 ∷ 0 ∷ []))
    ≢ word 1 (gen_data 8 12 (7 ∷ 7 ∷ 7 ∷ 7 ∷ 7 ∷ 7 ∷ 7 ∷ 7 ∷ []))
unfolding conflicts check_slice clash myhash hash_sample seed_of
conflicts-word_example =
    conflicts-word 8 1 three_versions 0 2 0 1 5 12 (0 ∷ 0 ∷ 0 ∷ 0 ∷ 0 ∷ 0 ∷ 0 ∷ 0 ∷ [])
      (7 ∷ 7 ∷ 7 ∷ 7 ∷ 7 ∷ 7 ∷ 7 ∷ 7 ∷ []) (omega arith) refl (omega arith) (omega arith)
      (omega arith) (λ e. omega (arith, e)) (omega arith) refl refl (omega arith) (omega arith)
